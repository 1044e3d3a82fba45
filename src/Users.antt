-- ===== src/Users.antt =====
-- core/src/models/user.rs and persistance/src/repositories/user_repository.rs over the rows of the tables
-- of users and devices. A row has the fields of the user. `enforced` says whether the database checks
-- foreign keys, and `now` is what `Local::now` returns.
pub mod Tables
pub mod Lookup
pub mod Groups
use osvauld.Prelude.{
  ℕ, String, ◌==◌, Bool, true, not, ◌&&◌, ◌||◌, Option, List, [], ◌∷◌, map, if◌then◌else◌, filter,
  find, any, push, is_empty, contains,
}
use osvauld.Repository.{Result, ok, err, database_error, ◌>>=◌, first_or_not_found}
use osvauld.Manifest.{UserWithDeviceIds}
use osvauld.Devices.{Device, DeviceRows, insert_devices}

pub record User : Type 0 where
  pub id : String
  pub username : String
  pub public_key : String
  pub created_at : ℕ
  pub signature : String
  pub ucan_token : String
  pub ucan_pub_key : String
  pub ucan_cid : String
  pub first_sync : Bool
  pub updated_at : ℕ
  pub owner : Bool
  pub deleted : Bool
  pub deleted_at : Option ℕ

pub record UserWithDevices : Type 0 where
  pub user : User
  pub devices : List Device

abbrev pub UserRows : Type 0
UserRows = List User

pub record UserTables : Type 0 where
  pub users : UserRows
  pub devices : DeviceRows

abbrev pub user_ids : UserRows → List String
user_ids = map λ u. u.id

abbrev pub usernames : UserRows → List String
usernames = map λ u. u.username

abbrev pub user_row : String → UserRows → Option User
user_row id users = find (λ u. u.id == id) users

-- A row whose id is new: the other unique column.
unfoldable pub insert_new_user : User → UserRows → Result UserRows
insert_new_user u users =
    if contains (usernames users) u.username then err database_error else ok (push users u)

unfoldable pub add_known_user : User → UserRows → Result UserRows
add_known_user u users =
    if contains (user_ids users) u.id then err database_error else insert_new_user u users

unfoldable pub insert_users : List User → UserRows → Result UserRows
insert_users [] users = ok users
insert_users (u ∷ us) users =
    (if contains (user_ids users) u.id then ok users else insert_new_user u users) >>= λ users'.
    insert_users us users'

unfoldable pub add_known_users_bulk : List User → UserRows → Result UserRows
add_known_users_bulk us users = if is_empty us then ok users else insert_users us users

-- The columns of `.do_update().set(…)`.
abbrev pub updated : User → User → User
updated u row =
    if row.id == u.id
    then record row {
      ucan_pub_key = u.ucan_pub_key;
      ucan_token = u.ucan_token;
      first_sync = u.first_sync;
      ucan_cid = u.ucan_cid;
    }
    else row

unfoldable pub upsert_user : User → UserRows → Result UserRows
upsert_user u users =
    if contains (user_ids users) u.id then ok (map (updated u) users) else insert_new_user u users

abbrev pub admits_device : Bool → UserRows → Device → Bool
admits_device enforced users d = not enforced || contains (user_ids users) d.user_id

-- One round of the transaction.
unfoldable pub add_user_with_devices : Bool → UserWithDevices → UserTables → Result UserTables
add_user_with_devices enforced uwd t = upsert_user uwd.user t.users >>= λ users.
    insert_devices (admits_device enforced users) uwd.devices t.devices >>= λ devices.
    ok (record { users = users; devices = devices })

unfoldable pub add_users_with_devices_bulk :
    Bool → List UserWithDevices → UserTables → Result UserTables
add_users_with_devices_bulk enforced [] t = ok t
add_users_with_devices_bulk enforced (uwd ∷ uwds) t =
    add_user_with_devices enforced uwd t >>= λ t'. add_users_with_devices_bulk enforced uwds t'

unfoldable pub complete_user_addition : ℕ → String → UserRows → UserRows
complete_user_addition now user_id users =
    map (λ u. if u.id == user_id then record u { first_sync = true; updated_at = now } else u) users

unfoldable pub get_known_users : UserRows → UserRows
get_known_users users = filter (λ u. not u.owner) users

unfoldable pub get_users_by_ids : List String → UserRows → UserRows
get_users_by_ids ids users = filter (λ u. not u.owner && contains ids u.id) users

unfoldable pub get_user_by_id : String → UserRows → Result User
get_user_by_id user_id users = first_or_not_found (user_row user_id users)

unfoldable pub get_ucan_by_cid : String → UserRows → Result String
get_ucan_by_cid cid users =
    first_or_not_found (find (λ u. u.ucan_cid == cid) users) >>= λ u. ok u.ucan_token

-- The first row of the join: the device, then its user.
unfoldable pub get_user_by_device_id : String → UserTables → Result User
get_user_by_device_id device_id t =
    first_or_not_found (find (λ d. d.id == device_id) t.devices) >>= λ d.
    first_or_not_found (user_row d.user_id t.users)

-- The rows (user_id, id) of the join of the devices with those users that pass `wanted`.
unfoldable pub user_devices : (User → Bool) → UserTables → List (String × String)
user_devices wanted t =
    map (λ d. (d.user_id, d.id))
      (filter (λ d. any (λ u. u.id == d.user_id && wanted u) t.users) t.devices)

-- `entry(user_id).or_insert_with(Vec::new).push(device_id)`
unfoldable pub add_entry : String → String → List UserWithDeviceIds → List UserWithDeviceIds
add_entry user_id device_id [] = record { user_id = user_id; device_ids = device_id ∷ [] } ∷ []
add_entry user_id device_id (e ∷ entries) =
    let rest = add_entry user_id device_id entries in
    if e.user_id == user_id
    then record e { device_ids = push e.device_ids device_id } ∷ entries
    else e ∷ rest

-- The loop over the rows, into the map so far. The order of the entries says nothing.
unfoldable pub group_rows : List (String × String) → List UserWithDeviceIds → List UserWithDeviceIds
group_rows [] entries = entries
group_rows ((user_id, device_id) ∷ rows) entries =
    group_rows rows (add_entry user_id device_id entries)

unfoldable pub get_other_users_with_device_ids : UserTables → List UserWithDeviceIds
get_other_users_with_device_ids t = group_rows (user_devices (λ u. not u.owner) t) []

unfoldable pub get_user_device_mapping : UserTables → List UserWithDeviceIds
get_user_device_mapping t = group_rows (user_devices (λ u. true) t) []

unfoldable pub get_users_with_device_ids_by_user_ids :
    List String → UserTables → List UserWithDeviceIds
get_users_with_device_ids_by_user_ids ids t =
    if is_empty ids then [] else group_rows (user_devices (λ u. contains ids u.id) t) []

unfoldable pub get_users_with_devices_by_user_ids : List String → UserTables → List UserWithDevices
get_users_with_devices_by_user_ids ids t =
    if is_empty ids
    then []
    else map (λ u. record { user = u; devices = filter (λ d. d.user_id == u.id) t.devices })
        (filter (λ u. contains ids u.id) t.users)
