-- ===== src/Payloads/Delivery.antt =====
-- What a device has after it processed the payload of another one: services/src/sync_service.rs.
use osvauld.Prelude.{String, Bool, Bool-cases, true, not, map, contains, ◌≡◌, ◌∙◌, inl, inr, arith}
use osvauld.Repository
use osvauld.Repository.{Result-cases}
use osvauld.Manifest.{DeviceManifestDifferences, DeviceManifestComparisonResult}
use osvauld.Manifest.DeviceManifest
use osvauld.Compare.{process_device_manifest_request}
use osvauld.Differences.{user_key}
use osvauld.Compare.Mirror.{process_device_manifest_request-IsComparison}
use osvauld.Devices.{device_ids, get_device_ids_by_user_id}
use osvauld.Users.{user_ids, get_other_users_with_device_ids}
use osvauld.Users.Groups.{lists, get_other_users_there}
use osvauld.Storage.{folder_ids, find_all}
use osvauld.Payloads.{
  DeviceTables, get_device_manifest, all_device_ids, create_device_network_sync_payload,
  process_device_network_sync,
}
use osvauld.Payloads.Processed.{IsProcessed, process_device_network_sync-IsProcessed}
use osvauld.Payloads.Sent.{
  contains-all_device_ids, contains-get_devices, filter_folders, contains-live, contains-own,
  any-users, sends-get_users,
}
use osvauld.Payloads.Reported.{
  others, own_ids, live_ids, Reports, others-there, others-Distinct, listed-known, reported,
}

module _ (enforced : Bool) (me : String) (a b b' : DeviceTables) (diff : DeviceManifestDifferences)
    (r : Reports me a b diff)
    (h : process_device_network_sync enforced (create_device_network_sync_payload diff a) b
      ≡ (Repository.ok tt, b')) where
  abbrev there :
      (u x g : String) → IsProcessed enforced (create_device_network_sync_payload diff a) b b' u x g
  there u x g =
      process_device_network_sync-IsProcessed enforced (create_device_network_sync_payload diff a) b
        b' u x g h

  delivered_other :
      (u x : String)
      → lists (others a) u x ≡ true
      → (contains (user_ids b'.users.users) u ≡ true)
        × (contains (device_ids b'.users.devices) x ≡ true)
  unfolding create_device_network_sync_payload
  delivered_other u x l =
      let p = there u x "" in
      let (ua, da, fa) = others-there a u x l in
      let known = listed-known a u x l in
      elim (Bool-cases (contains (map user_key (others b)) u)) [
        | inr n ↦
            let (s, t) =
              sends-get_users diff.unknown_users a.users u x (ground (arith, r.users u)) ua fa in
            (ground (arith, p.users), ground (arith, p.devices))
        | inl k ↦
            let row =
              any-users u (λ v. not v.owner) b.users.users (get_other_users_there b.users u k) in
            (
              ground (arith, p.users),
              elim (Bool-cases (lists (others b) u x)) [
                | inl m ↦ let (_, db, _) = others-there b u x m in ground (arith, p.devices)
                | inr m ↦
                    let only =
                      reported (others a) (others b) u x (others-Distinct a) (others-Distinct b) k l
                        m in
                    let ids =
                      contains-all_device_ids diff.unknown_devices_from_common_users u x
                        (r.devices u x ∙ only) in
                    let sent =
                      contains-get_devices (all_device_ids diff.unknown_devices_from_common_users)
                        a.users.devices x ids da in
                    ground (arith, p.devices)
              ],
            )
      ]

  delivered_own :
      (x : String)
      → contains (own_ids me a) x ≡ true
      → contains (device_ids b'.users.devices) x ≡ true
  unfolding create_device_network_sync_payload
  delivered_own x l =
      let p = there "" x "" in
      elim (Bool-cases (contains (own_ids me b) x)) [
        | inl k ↦ let row = contains-own me b.users.devices x k in ground (arith, p.devices)
        | inr n ↦
            let sent =
              contains-get_devices diff.unknown_devices_from_current_user a.users.devices x
                (ground (arith, r.own x)) (contains-own me a.users.devices x l) in
            ground (arith, p.devices)
      ]

  delivered_folder :
      (g : String) → contains (live_ids a) g ≡ true → contains (folder_ids b'.folders) g ≡ true
  unfolding create_device_network_sync_payload
  delivered_folder g l =
      let p = there "" "" g in
      elim (Bool-cases (contains (live_ids b) g)) [
        | inl k ↦ let row = contains-live b.folders g k in ground (arith, p.folders)
        | inr n ↦
            let sent =
              filter_folders diff.unknown_folders a.folders g (ground (arith, r.folders g)) l in
            ground (arith, p.folders)
      ]

  -- All that the one side has to tell is there on the other side.
  delivered :
      (u x y g : String)
      → lists (others a) u x ≡ true
      → contains (own_ids me a) y ≡ true
      → contains (live_ids a) g ≡ true
      → (contains (user_ids b'.users.users) u ≡ true)
        × (contains (device_ids b'.users.devices) x ≡ true)
        × (contains (device_ids b'.users.devices) y ≡ true)
        × (contains (folder_ids b'.folders) g ≡ true)
  delivered u x y g l m n =
      let (i, j) = delivered_other u x l in (i, j, delivered_own y m, delivered_folder g n)

-- The answer of `b` to the manifest of `a`.
abbrev pub answer : String → DeviceTables → DeviceTables → DeviceManifestComparisonResult
answer me a b =
    process_device_manifest_request (get_device_manifest b me) (get_device_manifest a me)

answer-Reports :
    (me : String) (a b : DeviceTables)
    → Reports me b a (answer me a b).remote_missing
      × Reports me a b (DeviceManifest.inverse (answer me a b)).remote_missing
unfolding get_device_manifest
answer-Reports me a b =
    let c =
      process_device_manifest_request-IsComparison (get_device_manifest b me)
        (get_device_manifest a me) in
    (
      record {
        users = c.users_remote;
        devices = c.devices_remote;
        own = c.own_remote;
        folders = c.folders_remote;
      },
      record {
        users = c.users_local;
        devices = c.devices_local;
        own = c.own_local;
        folders = c.folders_local;
      },
    )

-- A device `a` asks a device `b` of the user `me`, `b` answers, and `a` sends what the answer says that
-- `b` lacks. Where `b` processes this without an error, it has a row for each other user that `a` lists
-- with a device, for this device, for each device of `me` that `a` has, and for each live folder of `a`.
pub process_device_network_sync-inverse :
    (enforced : Bool) (me : String) (a b b' : DeviceTables) (u x y g : String)
    → process_device_network_sync enforced
        (create_device_network_sync_payload
          (DeviceManifest.inverse (answer me a b)).remote_missing
          a)
        b
      ≡ (Repository.ok tt, b')
    → lists (get_other_users_with_device_ids a.users) u x ≡ true
    → contains (get_device_ids_by_user_id me a.users.devices) y ≡ true
    → contains (folder_ids (find_all a.folders)) g ≡ true
    → (contains (user_ids b'.users.users) u ≡ true)
      × (contains (device_ids b'.users.devices) x ≡ true)
      × (contains (device_ids b'.users.devices) y ≡ true)
      × (contains (folder_ids b'.folders) g ≡ true)
process_device_network_sync-inverse enforced me a b b' u x y g h =
    delivered enforced me a b b' (DeviceManifest.inverse (answer me a b)).remote_missing
      (answer-Reports me a b).1 h u x y g

-- A device `a` asks a device `b` of the user `me`, and `b` answers and sends what its answer says that
-- `a` lacks. Where `a` processes this without an error, it has a row for each other user that `b` lists
-- with a device, for this device, for each device of `me` that `b` has, and for each live folder of `b`.
pub process_device_network_sync-answer :
    (enforced : Bool) (me : String) (a b a' : DeviceTables) (u x y g : String)
    → process_device_network_sync enforced
        (create_device_network_sync_payload (answer me a b).remote_missing b)
        a
      ≡ (Repository.ok tt, a')
    → lists (get_other_users_with_device_ids b.users) u x ≡ true
    → contains (get_device_ids_by_user_id me b.users.devices) y ≡ true
    → contains (folder_ids (find_all b.folders)) g ≡ true
    → (contains (user_ids a'.users.users) u ≡ true)
      × (contains (device_ids a'.users.devices) x ≡ true)
      × (contains (device_ids a'.users.devices) y ≡ true)
      × (contains (folder_ids a'.folders) g ≡ true)
process_device_network_sync-answer enforced me a b a' u x y g h =
    delivered enforced me b a a' (answer me a b).remote_missing (answer-Reports me a b).0 h u x y g
