-- ===== src/Payloads/Reported.antt =====
-- What a comparison of two device manifests reports of the tables behind them: services/src/sync_service.rs.
use osvauld.Prelude.{
  String, ◌==◌, Bool-cases, true, false, not, Option-cases, List, [], map, filter, contains,
  Distinct, ◌≡◌, inl, inr, arith,
}
use osvauld.Manifest.{UserWithDeviceIds, DeviceManifestDifferences}
use osvauld.Differences.{lookup, both, user_key}
use osvauld.Compare.Common.{is_some-lookup}
use osvauld.Compare.Devices.{only_first}
use osvauld.Compare.Mirror.{Only, OnlyDevices}
use osvauld.Devices.{device_ids, get_device_ids_by_user_id}
use osvauld.Users.{user_ids, get_other_users_with_device_ids}
use osvauld.Users.Groups.{lists, user_device_maps-IsGrouped}
use osvauld.Storage.{folder_ids, find_all}
use osvauld.Payloads.{DeviceTables}
use osvauld.Payloads.Sent.{any-devices, any-users, lists_missing, lists-lookup}

-- What one side has to tell the other.
abbrev pub others : DeviceTables → List UserWithDeviceIds
others t = get_other_users_with_device_ids t.users

abbrev pub own_ids : String → DeviceTables → List String
own_ids me t = get_device_ids_by_user_id me t.users.devices

abbrev pub live_ids : DeviceTables → List String
live_ids t = folder_ids (find_all t.folders)

pub record Reports (me : String) (a b : DeviceTables) (diff : DeviceManifestDifferences)
    : Type 0 where
  pub users : Only diff.unknown_users (map user_key (others a)) (map user_key (others b))
  pub devices : OnlyDevices diff.unknown_devices_from_common_users (others a) (others b)
  pub own : Only diff.unknown_devices_from_current_user (own_ids me a) (own_ids me b)
  pub folders : Only diff.unknown_folders (live_ids a) (live_ids b)

-- A listed device and its user have rows.
pub others-there :
    (t : DeviceTables) (u x : String)
    → lists (others t) u x ≡ true
    → (contains (user_ids t.users.users) u ≡ true)
      × (contains (device_ids t.users.devices) x ≡ true)
      × (contains (device_ids (filter (λ d. d.user_id == u) t.users.devices)) x ≡ true)
others-there t u x h =
    let spec = (user_device_maps-IsGrouped t.users []).1.1 u x in
    let (ds, own) = any-devices u x t.users.devices (ground (arith, spec)) in
    (any-users u (λ v. not v.owner) t.users.users (ground (arith, spec)), ds, own)

pub others-Distinct : (t : DeviceTables) → Distinct (map user_key (others t))
others-Distinct t = (user_device_maps-IsGrouped t.users []).1.0

pub listed-known :
    (t : DeviceTables) (u x : String)
    → lists (others t) u x ≡ true
    → contains (map user_key (others t)) u ≡ true
listed-known t u x h = elim (Bool-cases (contains (map user_key (others t)) u)) [
  | inl k ↦ k
  | inr k ↦ absurd (ground (arith, lists_missing (others t) u x k))
]

-- An entry that lists the device on one side only is reported.
pub reported :
    (us vs : List UserWithDeviceIds) (u x : String)
    → Distinct (map user_key us)
    → Distinct (map user_key vs)
    → contains (map user_key vs) u ≡ true
    → lists us u x ≡ true
    → lists vs u x ≡ false
    → only_first (both (lookup user_key us u) (lookup user_key vs u)) x ≡ true
reported us vs u x d e k h n =
    let here = lists-lookup us u x d in
    let there = lists-lookup vs u x e in
    let found = is_some-lookup user_key vs u in
    elim (Option-cases (lookup user_key us u)) [
      | inl l ↦ absurd (ground arith)
      | inr (y, l) ↦ elim (Option-cases (lookup user_key vs u)) [
        | inl m ↦ absurd (ground arith)
        | inr (z, m) ↦ rw (l, m) (ground arith)
      ]
    ]
