-- ===== src/Payloads/Processed.antt =====
-- The rows after a payload was processed: `process_device_network_sync` of
-- services/src/sync_service.rs.
use osvauld.Prelude.{
  String, Bool, ◌||◌, List, map, contains, ◌≡◌, sym, ap, subst, ◌∙◌, inl, inr, arith,
}
use osvauld.Repository
use osvauld.Repository.{Result-cases, ◌>>=◌}
use osvauld.Devices.{Device, device_ids, save_devices}
use osvauld.Users.{UserTables, user_ids, admits_device, add_users_with_devices_bulk}
use osvauld.Storage.{folder_ids, add_folders_bulk}
use osvauld.Payloads.{
  DeviceNetworkSyncPayload, DeviceTables, not_owner, save_own_devices, process_device_network_sync,
}
use osvauld.Payloads.Writes.{
  sends_user, sends_device, sends-not_owner, contains-add_users, contains-save_devices,
  contains-add_folders,
}

module _ (enforced : Bool) where
  save_own_devices-rows :
      (devices : List Device) (t t' : UserTables) (u x : String)
      → save_own_devices enforced devices t ≡ Repository.ok t'
      → (contains (user_ids t'.users) u ≡ contains (user_ids t.users) u)
        × (contains (device_ids t'.devices) x
            ≡ contains (device_ids t.devices) x || contains (device_ids devices) x)
  unfolding save_own_devices
  save_own_devices-rows devices t t' u x h =
      elim (Result-cases (save_devices (admits_device enforced t.users) devices t.devices)) [
        | inr (e, f) ↦ absurd (ground arith)
        | inl (rows, f) ↦
            let done : record t { devices = rows } ≡ t' = ground arith in
            (
              ap (λ (s : UserTables). contains (user_ids s.users) u) (sym done),
              ap (λ (s : UserTables). contains (device_ids s.devices) x) (sym done)
                  ∙ contains-save_devices (admits_device enforced t.users) devices t.devices rows x
                      f,
            )
      ]

  -- What is there after the four writes.
  pub record IsProcessed (p : DeviceNetworkSyncPayload) (t t' : DeviceTables) (u x g : String)
      : Type 0 where
    pub users :
        contains (user_ids t'.users.users) u
        ≡ contains (user_ids t.users.users) u || sends_user u p.unknown_users_with_devices
    pub devices :
        contains (device_ids t'.users.devices) x
        ≡ ((contains (device_ids t.users.devices) x || sends_device x p.unknown_users_with_devices)
            || contains (device_ids p.unknown_devices_from_common_users) x)
          || contains (device_ids p.unknown_devices_from_current_user) x
    pub folders :
        contains (folder_ids t'.folders) g
        ≡ contains (folder_ids t.folders) g || contains (folder_ids p.unknown_folders) g

  pub process_device_network_sync-IsProcessed :
      (p : DeviceNetworkSyncPayload) (t t' : DeviceTables) (u x g : String)
      → process_device_network_sync enforced p t ≡ (Repository.ok tt, t')
      → IsProcessed p t t' u x g
  unfolding process_device_network_sync
  process_device_network_sync-IsProcessed p t t' u x g h =
      let ws = map not_owner p.unknown_users_with_devices in
      let folders = add_folders_bulk p.unknown_folders t.folders in
      elim (Result-cases (add_users_with_devices_bulk enforced ws t.users)) [
        | inr (e, f1) ↦ absurd (ground arith)
        | inl (t1, f1) ↦
            elim (Result-cases (save_own_devices enforced p.unknown_devices_from_common_users t1)) [
              | inr (e, f2) ↦ absurd (ground arith)
              | inl (t2, f2) ↦
                  elim (Result-cases
                    (save_own_devices enforced p.unknown_devices_from_current_user t2)) [
                      | inr (e, f3) ↦ absurd (ground arith)
                      | inl (t3, f3) ↦
                          let done : record t { users = t3; folders = folders } ≡ t' =
                            ground arith in
                          let (a, b) = contains-add_users enforced ws t.users t1 u x f1 in
                          let (c, d) = sends-not_owner u x p.unknown_users_with_devices in
                          let (e2, d2) =
                            save_own_devices-rows p.unknown_devices_from_common_users t1 t2 u x
                              f2 in
                          let (e3, d3) =
                            save_own_devices-rows p.unknown_devices_from_current_user t2 t3 u x
                              f3 in
                          subst (λ s. IsProcessed p t s u x g) done
                            (record {
                              users = ground (arith, a, c, e2, e3);
                              devices = ground (arith, b, d, d2, d3);
                              folders = contains-add_folders p.unknown_folders t.folders g;
                            })
                    ]
            ]
      ]
