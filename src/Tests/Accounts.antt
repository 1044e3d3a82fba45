-- ===== src/Tests/Accounts.antt =====
-- Accounts: a sign-up, a changed passphrase and an import, with a library of keys in which a private key
-- is the passphrase that opens it.
use osvauld.Prelude.{
  ℕ, String, ◌==◌, eq_refl, Bool, true, none, some, [], ◌∷◌, ◌≡◌, ◌≢◌, refl, arith, if◌then◌else◌,
  contains,
}
use osvauld.Repository
use osvauld.Token
use osvauld.Token.{Library}
use osvauld.Store.{
  Certificate, StoreItem, insert_item, is_signed_up, get_value, get_certificate, store_certificate,
  upsert_item,
}
use osvauld.Devices.{Device, insert_new_device, save_device}
use osvauld.Users.{User, insert_new_user, add_known_user, get_user_by_id}
use osvauld.FolderShares.{
  FolderShareRecord, prepare_folder_share_record, save_folder_share, save_folder_with_share_record,
}
use osvauld.Rows.{has_row}
use osvauld.Auth.{
  Keys, ok, Database, user_new, insert_signup_items, commit_signup_transaction, create_device,
  generate_ucan_certificate,
}
use osvauld.Ucan.{validate_connect_token}
use osvauld.Accounts.{
  make_signup, prepare_signup, save_default_folder, handle_signup, load_certificate,
  change_certificate, change_passphrase, prepare_import, import_user,
}
use osvauld.Accounts.Login.{
  OpensTo, Reopens, signup-load_certificate, change_passphrase-load_certificate,
}
use osvauld.Accounts.Import.{import_user-validate_connect_token}

abbrev keys : Keys
keys = record {
  generate_keys = λ passphrase username.
      some (record { private_key = passphrase; public_key = "pub"; salt = "salt" });
  decrypt_certificate = λ key salt passphrase. if key == passphrase then some "cert" else none;
  public_key = λ loaded. some "pub";
  key_id = λ public_key. some "ann";
  generate_ed25519_key = λ public_key. some ("device_secret", "phone");
  generate_ucan_key = λ loaded. some ("ucan_secret", "ucan_pub");
  generate_folder_owner_ucan = λ loaded key folder_id domain. some ("folder_token", "folder_cid");
  change_password =
      λ key salt old_password new_password. if key == old_password then some new_password else none;
  import_certificate = λ certificate passphrase.
      some (record { private_key = passphrase; public_key = "pub"; salt = "salt" });
}

opens : OpensTo keys
opens passphrase username loaded c made opened = ground arith

reopens : Reopens keys
reopens key salt old_password new_password key' h = ground (arith, eq_refl new_password)

abbrev empty : Database
empty = record {
  tables = record { users = []; devices = [] };
  store = [];
  folder_tables = record { folders = []; shares = [] };
}

abbrev admits_all : FolderShareRecord → Bool
admits_all r = true

signup_run :
    (db : Database) × (handle_signup keys true admits_all 5
        ("folder", "share")
        "ann"
        "pass"
        "app"
        empty
      ≡ (ok tt, db))
unfolding handle_signup prepare_signup make_signup is_signed_up generate_ucan_certificate
    create_device user_new prepare_folder_share_record commit_signup_transaction add_known_user
    insert_new_user insert_signup_items insert_item save_device insert_new_device
    save_default_folder save_folder_with_share_record save_folder_share contains has_row
signup_run = (_, refl)

signup-load_certificate_example :
    (loaded : String) × (u : User) × (d : Device) × (load_certificate keys "pass" signup_run.0
      ≡ ok (loaded, u, d))
    × (u.username ≡ "ann")
    × (u.owner ≡ true)
    × (d.user_id ≡ u.id)
    × (is_signed_up signup_run.0.store ≡ true)
signup-load_certificate_example =
    signup-load_certificate keys true admits_all 5 ("folder", "share") "ann" "pass" "app" empty
      signup_run.0 opens signup_run.1

abbrev stored : String → String → StoreItem
stored key value = record { key = key; value = value; updated_at = 5 }

abbrev registered : Database
registered = record empty {
  store =
      stored "primary_key" "pass"
      ∷ stored "primary_key_salt" "salt"
      ∷ stored "device_id" "phone"
      ∷ [];
}

change_run :
    (c : Certificate) × (db : Database) × (change_passphrase keys 7 "pass" "word" registered
      ≡ (ok c, db))
unfolding change_passphrase change_certificate get_certificate get_value store_certificate
    upsert_item contains
change_run = (_, _, refl)

change_passphrase-load_certificate_example :
    load_certificate keys "word" change_run.1 ≡ load_certificate keys "pass" registered
change_passphrase-load_certificate_example =
    change_passphrase-load_certificate keys 7 "pass" "word" registered change_run.1 change_run.0
      reopens change_run.2

abbrev undecoded : Library
undecoded = record {
  parse = λ t. none;
  validate = λ u. true;
  to_cid = λ u. none;
  bs58_decode = λ s. some (237 ∷ 1 ∷ 7 ∷ []);
  base64_decode = λ s. if s == "owner_cid" then none else some (7 ∷ []);
}

import_run :
    (u : User) × (c : Certificate) × (db : Database) × (import_user keys true 5 "certificate" "pass"
        "ann" "laptop" empty
      ≡ (ok (u, c), db))
unfolding import_user prepare_import generate_ucan_certificate create_device user_new
    commit_signup_transaction add_known_user insert_new_user insert_signup_items insert_item
    save_device insert_new_device contains
import_run = (_, _, _, refl)

import_user-validate_connect_token_example :
    (get_user_by_id import_run.0.id import_run.2.tables.users ≡ Repository.ok import_run.0)
    × ((fuel : ℕ) (token presenter domain : String)
        → validate_connect_token undecoded fuel token presenter import_run.0.ucan_pub_key
            import_run.0.id domain
          ≢ some (Token.ok true))
import_user-validate_connect_token_example =
    import_user-validate_connect_token keys undecoded refl true 5 "certificate" "pass" "ann"
      "laptop" empty import_run.2 import_run.0 import_run.1 import_run.3
