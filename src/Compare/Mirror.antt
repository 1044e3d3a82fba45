-- ===== src/Compare/Mirror.antt =====
-- `process_device_manifest_request` of services/src/sync_service.rs with
-- `DeviceManifestComparisonResult::inverse` of core/src/models/sync.rs: what the answer to a device
-- manifest says, seen from both sides.
use osvauld.Prelude.{
  String, not, ◌&&◌, Option-cases, some, List, [], ◌∷◌, map, contains, to_set, intersection, All,
  ◌≡◌, refl, subst, ◌∙◌, inl, inr, arith,
}
use osvauld.VectorClock.Search.{IsUnique}
use osvauld.Manifest.{
  UserWithDeviceIds, ResourceManifestData, DeviceManifestRequestPayload,
  DeviceManifestComparisonResult,
}
use osvauld.Manifest.DeviceManifest
use osvauld.Differences.{lookup, both, user_key, resource_key, needs_sync_both, compare_sets}
use osvauld.Compare.{process_device_manifest_request}
use osvauld.Compare.Common.{contains-only, common-both, common-flip}
use osvauld.Compare.Devices.{reports, only_first, compare_devices_lem}
use osvauld.Compare.Resources.{needs_sync_comm, compare_resources_lem}

-- The ids that only the first list has.
abbrev pub Only : List String → List String → List String → Type 0
Only reported xs ys = (a : String) → contains reported a ≡ contains xs a && not (contains ys a)

-- The devices of common users that only the first side knows.
abbrev pub OnlyDevices :
    List UserWithDeviceIds → List UserWithDeviceIds → List UserWithDeviceIds → Type 0
OnlyDevices reported us vs =
    (user device : String)
    → reports reported user device
      ≡ only_first (both (lookup user_key us user) (lookup user_key vs user)) device

-- The resources of both sides that are not in sync.
abbrev pub Unsynced : List String → List ResourceManifestData → List ResourceManifestData → Type 0
Unsynced reported ls rs =
    (a : String)
    → contains reported a
      ≡ needs_sync_both (both (lookup resource_key ls a) (lookup resource_key rs a))

-- What a comparison says of the manifests of the side that makes it and of the other side.
pub record IsComparison (l r : DeviceManifestRequestPayload) (c : DeviceManifestComparisonResult)
    : Type 0 where
  pub users_local :
      Only c.local_missing.unknown_users (map user_key r.other_users) (map user_key l.other_users)
  pub users_remote :
      Only c.remote_missing.unknown_users (map user_key l.other_users) (map user_key r.other_users)
  pub own_local :
      Only c.local_missing.unknown_devices_from_current_user r.known_device_ids l.known_device_ids
  pub own_remote :
      Only c.remote_missing.unknown_devices_from_current_user l.known_device_ids r.known_device_ids
  pub folders_local : Only c.local_missing.unknown_folders r.folder_ids l.folder_ids
  pub folders_remote : Only c.remote_missing.unknown_folders l.folder_ids r.folder_ids
  pub resources_local :
      Only c.local_missing.unknown_resources
        (map resource_key r.resources)
        (map resource_key l.resources)
  pub resources_remote :
      Only c.remote_missing.unknown_resources
        (map resource_key l.resources)
        (map resource_key r.resources)
  pub devices_local :
      OnlyDevices c.local_missing.unknown_devices_from_common_users r.other_users l.other_users
  pub devices_remote :
      OnlyDevices c.remote_missing.unknown_devices_from_common_users l.other_users r.other_users
  pub unsynced : Unsynced c.resources_requiring_sync l.resources r.resources

-- The answer to a manifest reports exactly what each side lacks.
pub process_device_manifest_request-IsComparison :
    (l r : DeviceManifestRequestPayload) → IsComparison l r (process_device_manifest_request l r)
unfolding process_device_manifest_request compare_sets
process_device_manifest_request-IsComparison l r =
    let ids =
      intersection (to_set (map user_key l.other_users)) (to_set (map user_key r.other_users)) in
    record {
      users_local = contains-only (map user_key r.other_users) (map user_key l.other_users);
      users_remote = contains-only (map user_key l.other_users) (map user_key r.other_users);
      own_local = contains-only r.known_device_ids l.known_device_ids;
      own_remote = contains-only l.known_device_ids r.known_device_ids;
      folders_local = contains-only r.folder_ids l.folder_ids;
      folders_remote = contains-only l.folder_ids r.folder_ids;
      resources_local = contains-only (map resource_key r.resources) (map resource_key l.resources);
      resources_remote =
          contains-only (map resource_key l.resources) (map resource_key r.resources);
      devices_local = λ user device.
          (compare_devices_lem l.other_users r.other_users ids user device).1
          ∙ common-flip user_key l.other_users r.other_users user (λ o. only_first o device) refl;
      devices_remote = λ user device.
          (compare_devices_lem l.other_users r.other_users ids user device).0
          ∙ common-both user_key l.other_users r.other_users user (λ o. only_first o device) refl;
      unsynced = λ a.
          compare_resources_lem l.resources r.resources
            (intersection (to_set (map resource_key l.resources))
              (to_set (map resource_key r.resources)))
            a
          ∙ common-both resource_key l.resources r.resources a needs_sync_both refl;
    }

abbrev pub HasUniqueClocks : List ResourceManifestData → Type 0
HasUniqueClocks = All λ r. IsUnique r.vector_clocks

All-lookup :
    (P : ResourceManifestData → Type 0) (rs : List ResourceManifestData) (k : String)
    (r : ResourceManifestData)
    → All P rs
    → lookup resource_key rs k ≡ some r
    → P r
All-lookup P [] k r a h = absurd (ground arith)
All-lookup P (x ∷ xs) k r a h = elim (Option-cases (lookup resource_key xs k)) [
  | inr (y, e) ↦ All-lookup P xs k r a.1 (ground arith)
  | inl n ↦ subst P (ground arith) a.0
]

pub needs_sync_both_comm :
    (ls rs : List ResourceManifestData) (a : String)
    → HasUniqueClocks ls
    → HasUniqueClocks rs
    → needs_sync_both (both (lookup resource_key ls a) (lookup resource_key rs a))
      ≡ needs_sync_both (both (lookup resource_key rs a) (lookup resource_key ls a))
needs_sync_both_comm ls rs a u v = elim (Option-cases (lookup resource_key ls a)) [
  | inl n ↦ elim (Option-cases (lookup resource_key rs a)) [
    | inl m ↦ rw (n, m) refl
    | inr (y, f) ↦ rw (n, f) refl
  ]
  | inr (x, e) ↦ elim (Option-cases (lookup resource_key rs a)) [
    | inl m ↦ rw (e, m) refl
    | inr (y, f) ↦
        rw (e, f)
          (needs_sync_comm x y (All-lookup (λ r. IsUnique r.vector_clocks) ls a x u e)
            (All-lookup (λ r. IsUnique r.vector_clocks) rs a y v f))
  ]
]

-- Where every clock has one entry for a device, the inverse of the answer is a comparison as the
-- side that sent the manifest would have made it.
pub inverse-IsComparison :
    (l r : DeviceManifestRequestPayload)
    → HasUniqueClocks l.resources
    → HasUniqueClocks r.resources
    → IsComparison r l (DeviceManifest.inverse (process_device_manifest_request l r))
inverse-IsComparison l r u v =
    let c = process_device_manifest_request-IsComparison l r in
    record {
      users_local = c.users_remote;
      users_remote = c.users_local;
      own_local = c.own_remote;
      own_remote = c.own_local;
      folders_local = c.folders_remote;
      folders_remote = c.folders_local;
      resources_local = c.resources_remote;
      resources_remote = c.resources_local;
      devices_local = c.devices_remote;
      devices_remote = c.devices_local;
      unsynced = λ a. c.unsynced a ∙ needs_sync_both_comm l.resources r.resources a u v;
    }
