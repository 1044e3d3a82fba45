-- ===== src/Tests/Users.antt =====
-- Users with their devices, added, found and grouped, and folders that are sent.
use osvauld.Prelude.{
  String, Bool, true, false, not, ◌||◌, none, [], ◌∷◌, contains, filter, ◌≡◌, refl,
}
use osvauld.Repository.{ok}
use osvauld.Devices.{Device, insert_device, insert_devices, insert_new_device}
use osvauld.Users.{
  User, UserWithDevices, UserTables, upsert_user, add_user_with_devices,
  add_users_with_devices_bulk, get_user_by_device_id, get_other_users_with_device_ids,
  get_user_device_mapping, get_users_with_device_ids_by_user_ids,
}
use osvauld.Users.Lookup.{Refreshed, add-get_user_by_device_id}
use osvauld.Users.Groups.{IsGrouped, user_device_maps-IsGrouped}
use osvauld.Share.{share, read}
use osvauld.Storage.{Folder, folder_ids, get_folders_by_ids}
use osvauld.Rows.{has_row}
use osvauld.FolderShares.{
  FolderShareRecord, FolderTables, share_id, get_records_by_folder_id,
  create_unknown_folders_payload, process_unknown_folders_payload,
}
use osvauld.FolderShares.Payload.{shared_in, process-create}

abbrev pub user : String → Bool → String → Bool → User
user id owner ucan_token first_sync = record {
  id = id;
  username = id;
  public_key = id;
  created_at = 1;
  signature = "signature";
  ucan_token = ucan_token;
  ucan_pub_key = id;
  ucan_cid = "cid";
  first_sync = first_sync;
  updated_at = 1;
  owner = owner;
  deleted = false;
  deleted_at = none;
}

abbrev pub device : String → String → Device
device id user_id = record {
  id = id;
  device_key = id;
  user_id = user_id;
  created_at = 1;
  updated_at = 1;
  last_synced_at = none;
}

-- Ann's database, with Bob as an acquaintance of one device.
abbrev pub tables : UserTables
tables = record {
  users = user "ann" true "owner_token" true ∷ user "bob" false "old" false ∷ [];
  devices = device "phone" "ann" ∷ device "laptop" "bob" ∷ [];
}

abbrev bob : UserWithDevices
bob = record {
  user = user "bob" false "new" true;
  devices = device "laptop" "bob" ∷ device "tablet" "bob" ∷ [];
}

add_run : (t : UserTables) × (add_users_with_devices_bulk true (bob ∷ []) tables ≡ ok t)
unfolding add_users_with_devices_bulk add_user_with_devices upsert_user insert_devices insert_device
    insert_new_device contains
add_run = (_, refl)

add-get_user_by_device_id_example :
    (row : User) × (get_user_by_device_id "tablet" add_run.0 ≡ ok row) × Refreshed bob.user row
add-get_user_by_device_id_example =
    add-get_user_by_device_id true bob tables add_run.0 "tablet" (device "tablet" "bob") add_run.1
      refl refl

user_device_maps_example :
    IsGrouped (λ u. true) tables (get_user_device_mapping tables)
    × IsGrouped (λ u. not u.owner) tables (get_other_users_with_device_ids tables)
    × IsGrouped
        (λ u. contains ("bob" ∷ []) u.id)
        tables
        (get_users_with_device_ids_by_user_ids ("bob" ∷ []) tables)
user_device_maps_example = user_device_maps-IsGrouped tables ("bob" ∷ [])

abbrev pub folder : String → Folder
folder id = record {
  id = id;
  name = id;
  description = none;
  default_folder = true;
  parent_folder_id = none;
  deleted = false;
  deleted_at = none;
  created_at = 1;
  updated_at = 1;
}

abbrev folder_share : String → String → FolderShareRecord
folder_share id folder_id = record {
  id = id;
  folder_id = folder_id;
  shared_by_user_id = "ann";
  recipient_user_id = "bob";
  permission_level = read;
  ucan_token = "token";
  ucan_cid = "cid";
  operation_type = share;
  created_at = 1;
  updated_at = 1;
}

abbrev pub sender : FolderTables
sender = record {
  folders = folder "work" ∷ folder "home" ∷ [];
  shares = folder_share "1" "work" ∷ folder_share "2" "home" ∷ [];
}

abbrev pub receiver : FolderTables
receiver = record { folders = folder "inbox" ∷ []; shares = [] }

abbrev admits_all : FolderShareRecord → Bool
admits_all r = true

process-create_example :
    (t' : FolderTables) × (process_unknown_folders_payload admits_all
        (create_unknown_folders_payload ("work" ∷ []) sender)
        receiver
      ≡ (ok tt, t'))
    × ((g : String)
        → contains (folder_ids t'.folders) g
          ≡ contains (folder_ids receiver.folders) g
            || contains (folder_ids (get_folders_by_ids ("work" ∷ []) sender.folders)) g)
    × ((x : String)
        → has_row share_id x t'.shares
          ≡ has_row share_id x receiver.shares
            || has_row share_id x (
                filter
                  (shared_in (folder_ids (get_folders_by_ids ("work" ∷ []) sender.folders)))
                  sender.shares))
unfolding create_unknown_folders_payload get_folders_by_ids get_records_by_folder_id contains
process-create_example = process-create admits_all ("work" ∷ []) sender receiver ((refl, tt), tt)
