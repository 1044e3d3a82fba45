-- ===== src/Auth.antt =====
-- services/src/auth_service.rs and `commit_signup_transaction` of
-- persistance/src/repositories/user_repository.rs. Keys are made, encrypted and read by the libraries
-- under crypto_utils, the fields of `Keys`; a loaded certificate is a text. `now` is what `Local::now`
-- returns, and `stamp` what `Uuid::new_v4` returns, for the folder and for its record.
pub mod Transaction
use osvauld.Prelude.{ℕ, String, Bool, false, Option, none, some, if◌then◌else◌}
use osvauld.Repository
use osvauld.Repository.{Result, RepositoryError, ◌>>=◌}
use osvauld.Store.{Certificate, StoreItems, insert_item}
use osvauld.Devices.{Device, DeviceRows, device_new, save_device}
use osvauld.Users.{User, UserTables, add_known_user, admits_device}
use osvauld.Storage.{Folder}
use osvauld.FolderShares.{FolderTables}

pub record Keys : Type 0 where
  pub generate_keys : String → String → Option Certificate
  pub decrypt_certificate : String → String → String → Option String
  pub public_key : String → Option String
  pub key_id : String → Option String
  pub generate_ed25519_key : String → Option (String × String)
  pub generate_ucan_key : String → Option (String × String)
  pub generate_folder_owner_ucan : String → String → String → String → Option (String × String)
  pub change_password : String → String → String → String → Option String
  pub import_certificate : String → String → Option Certificate

pub data AuthError : Type 0 where
  already_signed_up invalid_passphrase certificate_not_found : AuthError
  user_not_found device_not_found crypto_error : AuthError
  repository : RepositoryError → AuthError

pub data Outcome {ℓ} (A : Type ℓ) : Type ℓ where
  ok : A → Outcome A
  err : AuthError → Outcome A

abbrev pub then_do {ℓ κ} : {A : Type ℓ} {B : Type κ} → Outcome A → (A → Outcome B) → Outcome B
then_do (ok a) f = f a
then_do (err e) f = err e

abbrev pub or_fail {ℓ} : {A : Type ℓ} → Option A → AuthError → Outcome A
or_fail none e = err e
or_fail (some a) e = ok a

-- `?` on a repository's result, and `.map_err(|_| e)?`.
abbrev pub from_repository {ℓ} : {A : Type ℓ} → Result A → Outcome A
from_repository (Repository.ok a) = ok a
from_repository (Repository.err e) = err (repository e)

abbrev pub or_else_fail {ℓ} : {A : Type ℓ} → Result A → AuthError → Outcome A
or_else_fail (Repository.ok a) e = ok a
or_else_fail (Repository.err _) e = err e

pub record Database : Type 0 where
  pub tables : UserTables
  pub store : StoreItems
  pub folder_tables : FolderTables

-- `User::new` and `Folder::new`, with the arguments in the order of the source.
unfoldable pub user_new :
    ℕ → String → String → String → String → Bool → Bool → String → String → String → User
user_new now username id public_key signature owner first_sync ucan_token ucan_cid ucan_pub_key =
    record {
      id = id;
      username = username;
      public_key = public_key;
      signature = signature;
      owner = owner;
      first_sync = first_sync;
      ucan_token = ucan_token;
      ucan_pub_key = ucan_pub_key;
      ucan_cid = ucan_cid;
      created_at = now;
      updated_at = now;
      deleted = false;
      deleted_at = none;
    }

abbrev pub folder_new : String × ℕ → String → Option String → Bool → Folder
folder_new (id, now) name description default_folder = record {
  id = id;
  name = name;
  description = description;
  default_folder = default_folder;
  parent_folder_id = none;
  deleted = false;
  deleted_at = none;
  created_at = now;
  updated_at = now;
}

-- The rows of `store_items` that the transaction inserts.
unfoldable pub insert_signup_items :
    ℕ → Certificate → Device → Certificate → Certificate → StoreItems → Result StoreItems
insert_signup_items now primary device device_certificate ucan items =
    insert_item now "primary_key" primary.private_key items >>= λ a.
    insert_item now "primary_key_salt" primary.salt a >>= λ b.
    insert_item now "device_key" device_certificate.private_key b >>= λ c.
    insert_item now "device_key_salt" device_certificate.salt c >>= λ d.
    insert_item now "device_id" device.id d >>= λ e. insert_item now "ucan_key" ucan.private_key e

abbrev pub save_peer_device : (Device → Bool) → Option Device → DeviceRows → Result DeviceRows
save_peer_device admits none rows = Repository.ok rows
save_peer_device admits (some d) rows = save_device admits d rows

unfoldable pub commit_signup_transaction :
    Bool
    → ℕ
    → User
    → Certificate
    → Device
    → Certificate
    → Option Device
    → Certificate
    → UserTables
    → StoreItems
    → Result (UserTables × StoreItems)
commit_signup_transaction enforced now user primary device device_certificate peer_device ucan t
      items =
    add_known_user user t.users >>= λ users.
    insert_signup_items now primary device device_certificate ucan items >>= λ items'.
    save_device (admits_device enforced users) device t.devices >>= λ devices.
    save_peer_device (admits_device enforced users) peer_device devices >>= λ devices'.
    Repository.ok (record { users = users; devices = devices' }, items')

module _ (keys : Keys) where
  -- The device's own key is the certificate's public key, and its id.
  unfoldable pub create_device : ℕ → String → String → Outcome (Device × Certificate)
  create_device now user_public_key user_id =
      then_do (or_fail (keys.generate_ed25519_key user_public_key) crypto_error) λ made. ok (
        device_new now made.1 made.1 user_id,
        record { private_key = made.0; public_key = made.1; salt = "" },
      )

  unfoldable pub generate_ucan_certificate : String → Outcome Certificate
  generate_ucan_certificate loaded =
      then_do (or_fail (keys.generate_ucan_key loaded) crypto_error)
        λ made. ok (record { private_key = made.0; public_key = made.1; salt = "" })
