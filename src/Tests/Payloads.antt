-- ===== src/Tests/Payloads.antt =====
-- Two devices of Ann, a phone that knows Bob and a tablet that does not.
use osvauld.Prelude.{true, false, [], ◌∷◌, contains, to_set, difference, intersection, ◌≡◌, refl}
use osvauld.Repository
use osvauld.Differences.{compare_sets, compare_devices_for_common_users}
use osvauld.Compare.{process_device_manifest_request}
use osvauld.Manifest.DeviceManifest
use osvauld.Devices.{
  device_ids, get_device_ids_by_user_id, get_devices_by_ids, insert_new_device, insert_device,
  insert_devices, save_devices,
}
use osvauld.Users.{
  user_ids, insert_new_user, upsert_user, add_user_with_devices, add_users_with_devices_bulk,
  user_devices, add_entry, group_rows, get_other_users_with_device_ids,
  get_users_with_devices_by_user_ids,
}
use osvauld.Storage.{folder_ids, find_all, get_folders_by_ids, add_folders_bulk}
use osvauld.Resources.{ResourceTables}
use osvauld.Payloads.{
  DeviceTables, get_device_manifest, all_device_ids, create_device_network_sync_payload,
  save_own_devices, process_device_network_sync,
}
use osvauld.Payloads.Delivery.{answer, process_device_network_sync-inverse}
use osvauld.Tests.Users as Data

abbrev nothing : ResourceTables
nothing = record { resources = []; keys = []; shares = []; clocks = [] }

abbrev pub phone : DeviceTables
phone = record {
  users = record {
    users = Data.user "ann" true "owner_token" true ∷ Data.user "bob" false "token" true ∷ [];
    devices = Data.device "phone" "ann" ∷ Data.device "laptop" "bob" ∷ [];
  };
  folders = Data.folder "work" ∷ [];
  resources = nothing;
}

abbrev pub tablet : DeviceTables
tablet = record {
  users = record {
    users = Data.user "ann" true "owner_token" true ∷ [];
    devices = Data.device "tablet" "ann" ∷ [];
  };
  folders = Data.folder "inbox" ∷ [];
  resources = nothing;
}

pub request_run :
    (t : DeviceTables) × (process_device_network_sync true
        (create_device_network_sync_payload
          (DeviceManifest.inverse (answer "ann" phone tablet)).remote_missing
          phone)
        tablet
      ≡ (Repository.ok tt, t))
unfolding process_device_network_sync create_device_network_sync_payload
    process_device_manifest_request get_device_manifest compare_sets contains to_set difference
    intersection get_device_ids_by_user_id get_devices_by_ids get_other_users_with_device_ids
    user_devices group_rows add_entry get_users_with_devices_by_user_ids find_all get_folders_by_ids
    add_folders_bulk all_device_ids save_own_devices save_devices insert_devices insert_device
    insert_new_device add_users_with_devices_bulk add_user_with_devices upsert_user insert_new_user
    compare_devices_for_common_users
request_run = (_, refl)

process_device_network_sync-inverse_example :
    (contains (user_ids request_run.0.users.users) "bob" ≡ true)
    × (contains (device_ids request_run.0.users.devices) "laptop" ≡ true)
    × (contains (device_ids request_run.0.users.devices) "phone" ≡ true)
    × (contains (folder_ids request_run.0.folders) "work" ≡ true)
unfolding get_other_users_with_device_ids user_devices group_rows add_entry contains
    get_device_ids_by_user_id find_all
process_device_network_sync-inverse_example =
    process_device_network_sync-inverse true "ann" phone tablet request_run.0 "bob" "laptop" "phone"
      "work" request_run.1 refl refl refl
