-- ===== src/Tests/Manifests.antt =====
-- The manifests of two peers, compared.
use osvauld.Prelude.{String, false, some, List, [], ◌∷◌, ◌≡◌, ◌↔◌, refl}
use osvauld.VectorClock.{ResourceVectorClock, has_device}
use osvauld.VectorClock.Search.{IsUnique}
use osvauld.Manifest.{
  UserWithDeviceIds, ResourceManifestData, FolderManifestData, DeviceManifestRequestPayload,
  UserManifestRequestPayload, UserManifestComparisonResult,
}
use osvauld.Manifest.UserManifest
use osvauld.Manifest.DeviceManifest
use osvauld.Differences.{needs_sync}
use osvauld.Compare.{process_device_manifest_request, process_user_manifest_request}
use osvauld.Compare.Resources.{InSync, needs_sync-InSync}
use osvauld.Compare.Mirror.{
  IsComparison, process_device_manifest_request-IsComparison, inverse-IsComparison,
}
use osvauld.Compare.UserMirror.{
  IsUserComparison, process_user_manifest_request-IsUserComparison, inverse-IsUserComparison,
}
use osvauld.Tests.Data.{entry}

abbrev user : String → List String → UserWithDeviceIds
user id devices = record { user_id = id; device_ids = devices }

abbrev note : List ResourceVectorClock → ResourceManifestData
note clocks = record { resource_id = "note"; share_record_ids = "s" ∷ []; vector_clocks = clocks }

abbrev folder : String → List String → FolderManifestData
folder id users = record { folder_id = id; recipient_user_ids = users }

abbrev users_a : List UserWithDeviceIds
users_a = user "ann" ("laptop" ∷ "phone" ∷ []) ∷ user "bob" ("desktop" ∷ []) ∷ []

abbrev users_b : List UserWithDeviceIds
users_b = user "ann" ("laptop" ∷ "tablet" ∷ []) ∷ user "eve" ("server" ∷ []) ∷ []

abbrev clocks_a : List ResourceVectorClock
clocks_a = entry "1" "laptop" 5 ∷ entry "2" "phone" 1 ∷ []

abbrev clocks_b : List ResourceVectorClock
clocks_b = entry "4" "laptop" 3 ∷ []

clocks_a-IsUnique : IsUnique clocks_a
unfolding has_device
clocks_a-IsUnique = (refl, (refl, tt))

clocks_b-IsUnique : IsUnique clocks_b
unfolding has_device
clocks_b-IsUnique = (refl, tt)

abbrev device_a : DeviceManifestRequestPayload
device_a = record {
  known_device_ids = "laptop" ∷ [];
  other_users = users_a;
  folder_ids = "inbox" ∷ [];
  resources = note clocks_a ∷ [];
}

abbrev device_b : DeviceManifestRequestPayload
device_b = record {
  known_device_ids = "laptop" ∷ "tablet" ∷ [];
  other_users = users_b;
  folder_ids = "work" ∷ [];
  resources = note clocks_b ∷ [];
}

abbrev user_a : UserManifestRequestPayload
user_a = record {
  users = users_a;
  resources = note clocks_a ∷ [];
  folders = folder "work" ("ann" ∷ []) ∷ [];
}

abbrev user_b : UserManifestRequestPayload
user_b = record {
  users = users_b;
  resources = note clocks_b ∷ [];
  folders = folder "work" ("eve" ∷ []) ∷ folder "inbox" [] ∷ [];
}

process_device_manifest_request_example :
    IsComparison device_a device_b (process_device_manifest_request device_a device_b)
process_device_manifest_request_example =
    process_device_manifest_request-IsComparison device_a device_b

inverse-IsComparison_example :
    IsComparison device_b device_a
      (DeviceManifest.inverse (process_device_manifest_request device_a device_b))
inverse-IsComparison_example =
    inverse-IsComparison device_a device_b (clocks_a-IsUnique, tt) (clocks_b-IsUnique, tt)

process_user_manifest_request_example :
    (c : UserManifestComparisonResult) × (process_user_manifest_request user_a user_b ≡ some c)
    × IsUserComparison user_a user_b c
process_user_manifest_request_example = process_user_manifest_request-IsUserComparison user_a user_b

abbrev compared : UserManifestComparisonResult
compared = (process_user_manifest_request-IsUserComparison user_a user_b).0

inverse-IsUserComparison_example : IsUserComparison user_b user_a (UserManifest.inverse compared)
inverse-IsUserComparison_example =
    inverse-IsUserComparison user_a user_b compared (clocks_a-IsUnique, tt) (clocks_b-IsUnique, tt)
      (process_user_manifest_request-IsUserComparison user_a user_b).1

needs_sync-InSync_example :
    (needs_sync (note clocks_a) (note clocks_b) ≡ false) ↔ InSync (note clocks_a) (note clocks_b)
needs_sync-InSync_example = needs_sync-InSync (note clocks_a) (note clocks_b) clocks_a-IsUnique
