-- ===== src/Payloads.antt =====
-- The payload that one device sends to another of the same user: the device manifest and the network
-- sync payload of services/src/sync_service.rs.
pub mod Writes
pub mod Processed
pub mod Sent
pub mod Reported
pub mod Delivery
use osvauld.Prelude.{String, Bool, false, none, List, [], ◌∷◌, ◌++◌, map}
use osvauld.Repository
use osvauld.Repository.{Result, ◌>>=◌}
use osvauld.Manifest.{UserWithDeviceIds, DeviceManifestRequestPayload, DeviceManifestDifferences}
use osvauld.Devices.{Device, get_device_ids_by_user_id, get_devices_by_ids, save_devices}
use osvauld.Users.{
  UserWithDevices, UserTables, admits_device, get_other_users_with_device_ids,
  get_users_with_devices_by_user_ids, add_users_with_devices_bulk,
}
use osvauld.Storage.{Folder, folder_ids, find_all, get_folders_by_ids, add_folders_bulk}
use osvauld.Resources.{ResourceTables, get_resource_manifest_data}

pub record DeviceNetworkSyncPayload : Type 0 where
  pub unknown_users_with_devices : List UserWithDevices
  pub unknown_devices_from_common_users : List Device
  pub unknown_devices_from_current_user : List Device
  pub unknown_folders : List Folder

-- The tables that a device synchronises.
pub record DeviceTables : Type 0 where
  pub users : UserTables
  pub folders : List Folder
  pub resources : ResourceTables

unfoldable pub get_device_manifest : DeviceTables → String → DeviceManifestRequestPayload
get_device_manifest t current_user_id = record {
  resources = get_resource_manifest_data none t.resources;
  other_users = get_other_users_with_device_ids t.users;
  known_device_ids = get_device_ids_by_user_id current_user_id t.users.devices;
  folder_ids = folder_ids (find_all t.folders);
}

-- `flat_map(|user| &user.device_ids)`
unfoldable pub all_device_ids : List UserWithDeviceIds → List String
all_device_ids [] = []
all_device_ids (u ∷ us) = u.device_ids ++ all_device_ids us

unfoldable pub create_device_network_sync_payload :
    DeviceManifestDifferences → DeviceTables → DeviceNetworkSyncPayload
create_device_network_sync_payload diff t = record {
  unknown_users_with_devices = get_users_with_devices_by_user_ids diff.unknown_users t.users;
  unknown_devices_from_common_users =
      get_devices_by_ids (all_device_ids diff.unknown_devices_from_common_users) t.users.devices;
  unknown_devices_from_current_user =
      get_devices_by_ids diff.unknown_devices_from_current_user t.users.devices;
  unknown_folders = get_folders_by_ids diff.unknown_folders t.folders;
}

abbrev pub not_owner : UserWithDevices → UserWithDevices
not_owner uwd = record uwd { user = record uwd.user { owner = false } }

module _ (enforced : Bool) where
  -- One of the two calls of `save_many`.
  unfoldable pub save_own_devices : List Device → UserTables → Result UserTables
  save_own_devices devices t =
      save_devices (admits_device enforced t.users) devices t.devices >>= λ rows.
      Repository.ok (record t { devices = rows })

  -- Four writes, one after the other: those before a failure stay.
  unfoldable pub process_device_network_sync :
      DeviceNetworkSyncPayload → DeviceTables → Result (Unit {0}) × DeviceTables
  process_device_network_sync payload t =
      elim (add_users_with_devices_bulk enforced (map not_owner payload.unknown_users_with_devices)
        t.users) [
          | Repository.err e ↦ (Repository.err e, t)
          | Repository.ok users ↦
              let t1 : DeviceTables = record t {
                users = users;
                folders = add_folders_bulk payload.unknown_folders t.folders;
              } in
              elim (save_own_devices payload.unknown_devices_from_common_users t1.users) [
                | Repository.err e ↦ (Repository.err e, t1)
                | Repository.ok users ↦
                    let t2 : DeviceTables = record t1 { users = users } in
                    elim (save_own_devices payload.unknown_devices_from_current_user t2.users) [
                      | Repository.err e ↦ (Repository.err e, t2)
                      | Repository.ok users ↦ (Repository.ok tt, record t2 { users = users })
                    ]
              ]
        ]
