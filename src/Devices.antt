-- ===== src/Devices.antt =====
-- core/src/models/device.rs and persistance/src/repositories/device_repository.rs over a list of rows; a
-- row has the fields of the device. `admits` says which rows meet the foreign key, and `now` is what
-- `Local::now` returns.
pub mod Batch
use osvauld.Prelude.{
  ℕ, String, ◌==◌, Bool, not, ◌&&◌, Option, none, some, List, [], ◌∷◌, map, if◌then◌else◌, leb,
  filter, find, push, is_empty, contains,
}
use osvauld.Repository.{Result, ok, err, database_error, ◌>>=◌, first_or_not_found}

pub record Device : Type 0 where
  pub id : String
  pub device_key : String
  pub user_id : String
  pub created_at : ℕ
  pub updated_at : ℕ
  pub last_synced_at : Option ℕ

abbrev pub device_new : ℕ → String → String → String → Device
device_new now id device_public_key user_id = record {
  id = id;
  device_key = device_public_key;
  user_id = user_id;
  created_at = now;
  updated_at = now;
  last_synced_at = none;
}

abbrev pub DeviceRows : Type 0
DeviceRows = List Device

abbrev pub device_ids : DeviceRows → List String
device_ids = map λ d. d.id

abbrev pub device_keys : DeviceRows → List String
device_keys = map λ d. d.device_key

unfoldable pub find_device_by_id : String → DeviceRows → Result Device
find_device_by_id device_id rows = first_or_not_found (find (λ d. d.id == device_id) rows)

-- `order_by(created_at.desc())`: an insertion sort that keeps the rows of one time in order.
unfoldable pub insert_desc : Device → DeviceRows → DeviceRows
insert_desc d [] = d ∷ []
insert_desc d (x ∷ rows) =
    let rest = insert_desc d rows in
    if leb x.created_at d.created_at then d ∷ x ∷ rows else x ∷ rest

unfoldable pub order_desc : DeviceRows → DeviceRows
order_desc [] = []
order_desc (d ∷ rows) = insert_desc d (order_desc rows)

unfoldable pub get_devices_by_user_id : String → DeviceRows → DeviceRows
get_devices_by_user_id user_id rows = order_desc (filter (λ d. d.user_id == user_id) rows)

unfoldable pub get_devices_by_user_except : String → List String → DeviceRows → DeviceRows
get_devices_by_user_except user_id exclude_ids rows =
    order_desc (filter (λ d. not (contains exclude_ids d.id) && d.user_id == user_id) rows)

unfoldable pub get_all_devices_except : List String → DeviceRows → DeviceRows
get_all_devices_except except_devices rows = filter (λ d. not (contains except_devices d.id)) rows

unfoldable pub get_devices_by_user_ids : List String → DeviceRows → DeviceRows
get_devices_by_user_ids user_ids rows =
    if is_empty user_ids then [] else order_desc (filter (λ d. contains user_ids d.user_id) rows)

unfoldable pub get_device_ids_by_user_id : String → DeviceRows → List String
get_device_ids_by_user_id user_id rows = device_ids (filter (λ d. d.user_id == user_id) rows)

unfoldable pub get_devices_by_ids : List String → DeviceRows → DeviceRows
get_devices_by_ids ids rows = if is_empty ids then [] else filter (λ d. contains ids d.id) rows

abbrev pub synced : ℕ → String → Device → Device
synced now device_id d = if d.id == device_id then record d { last_synced_at = some now } else d

unfoldable pub update_last_synced_at : ℕ → String → DeviceRows → DeviceRows
update_last_synced_at now device_id rows = map (synced now device_id) rows

module _ (admits : Device → Bool) where
  -- A row whose id is new: the other unique column, then the foreign key.
  unfoldable pub insert_new_device : Device → DeviceRows → Result DeviceRows
  insert_new_device d rows =
      if contains (device_keys rows) d.device_key
      then err database_error
      else (if admits d then ok (push rows d) else err database_error)

  unfoldable pub save_device : Device → DeviceRows → Result DeviceRows
  save_device d rows =
      if contains (device_ids rows) d.id then err database_error else insert_new_device d rows

  -- `.on_conflict(devices::id).do_nothing()`.
  unfoldable pub insert_device : Device → DeviceRows → Result DeviceRows
  insert_device d rows =
      if contains (device_ids rows) d.id then ok rows else insert_new_device d rows

  unfoldable pub insert_devices : List Device → DeviceRows → Result DeviceRows
  insert_devices [] rows = ok rows
  insert_devices (d ∷ devices) rows = insert_device d rows >>= λ rows'. insert_devices devices rows'

  unfoldable pub save_devices : List Device → DeviceRows → Result DeviceRows
  save_devices devices rows = if is_empty devices then ok rows else insert_devices devices rows
