-- ===== src/Store.antt =====
-- The table `store_items` of persistance/src/repositories/store_repository.rs, keyed by text, and
-- core/src/models/certificate.rs. `now` is what `Local::now` returns.
pub mod Lookup
use osvauld.Prelude.{
  ℕ, String, ◌==◌, Bool, Option, List, [], map, if◌then◌else◌, find, push, is_some,
}
use mathlib.Core.Option
use osvauld.Repository.{Result, ok, err, database_error, ◌>>=◌, first_or_not_found}

pub record StoreItem : Type 0 where
  pub key : String
  pub value : String
  pub updated_at : ℕ

pub record Certificate : Type 0 where
  pub private_key : String
  pub public_key : String
  pub salt : String

abbrev pub StoreItems : Type 0
StoreItems = List StoreItem

abbrev pub item : String → StoreItems → Option StoreItem
item key items = find (λ i. i.key == key) items

unfoldable pub get_value : String → StoreItems → Result String
get_value key items = first_or_not_found (item key items) >>= λ i. ok i.value

-- `insert_into` alone.
unfoldable pub insert_item : ℕ → String → String → StoreItems → Result StoreItems
insert_item now key value items =
    if is_some (item key items)
    then err database_error
    else ok (push items (record { key = key; value = value; updated_at = now }))

-- `.on_conflict(key).do_update()`
abbrev pub overwritten : ℕ → String → String → StoreItem → StoreItem
overwritten now key value i =
    if i.key == key then record i { value = value; updated_at = now } else i

unfoldable pub upsert_item : ℕ → String → String → StoreItems → StoreItems
upsert_item now key value items =
    if is_some (item key items)
    then map (overwritten now key value) items
    else push items (record { key = key; value = value; updated_at = now })

unfoldable pub store_certificate : ℕ → Certificate → String → String → StoreItems → StoreItems
store_certificate now certificate certificate_key salt_key items =
    upsert_item now salt_key certificate.salt
      (upsert_item now certificate_key certificate.private_key items)

unfoldable pub get_certificate : String → String → StoreItems → Result Certificate
get_certificate certificate_key salt_key items = get_value certificate_key items >>= λ private_key.
    get_value salt_key items >>= λ salt.
    ok (record { private_key = private_key; public_key = ""; salt = salt })

unfoldable pub is_signed_up : StoreItems → Bool
is_signed_up items = is_some (item "primary_key" items)

unfoldable pub store_device_key : ℕ → String → StoreItems → StoreItems
store_device_key now = upsert_item now "device_id"

unfoldable pub get_device_key : StoreItems → Result String
get_device_key = get_value "device_id"

unfoldable pub add_index_key : ℕ → String → StoreItems → StoreItems
add_index_key now = upsert_item now "index_key"

unfoldable pub get_index_key : StoreItems → Result String
get_index_key = get_value "index_key"

unfoldable pub get_node_key : StoreItems → Result String
get_node_key = get_value "device_key"

unfoldable pub get_ucan_key : StoreItems → Result String
get_ucan_key = get_value "ucan_key"
