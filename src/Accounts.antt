-- ===== src/Accounts.antt =====
-- The calls of services/src/auth_service.rs, over the database. A call that reads returns an outcome;
-- a call that writes returns the database too, since it may fail between two transactions. The crypto
-- state is the certificate that was loaded.
pub mod Committed
pub mod Login
pub mod Import
use osvauld.Prelude.{ℕ, String, Bool, true, Option, none, some, if◌then◌else◌}
use osvauld.Repository
use osvauld.Repository.{Result, ◌>>=◌}
use osvauld.Store.{Certificate, get_certificate, store_certificate, is_signed_up, get_device_key}
use osvauld.Devices.{Device, device_new, find_device_by_id}
use osvauld.Users.{User, get_user_by_id}
use osvauld.Storage.{Folder}
use osvauld.Share.{admin}
use osvauld.FolderShares.{
  FolderShareRecord, prepare_folder_share_record, save_folder_with_share_record,
}
use osvauld.Auth.{
  Keys, already_signed_up, invalid_passphrase, certificate_not_found, user_not_found,
  device_not_found, crypto_error, repository, Outcome, ok, err, then_do, or_fail, or_else_fail,
  Database, user_new, folder_new, commit_signup_transaction, create_device,
  generate_ucan_certificate,
}

-- What `handle_signup` makes before it writes.
pub record Signup : Type 0 where
  pub user : User
  pub primary : Certificate
  pub device : Device
  pub device_certificate : Certificate
  pub ucan : Certificate
  pub folder : Folder
  pub folder_share : FolderShareRecord

-- What `import_user` makes before it writes.
pub record Imported : Type 0 where
  pub user : User
  pub primary : Certificate
  pub ucan : Certificate
  pub peer_device : Device
  pub device : Device
  pub device_certificate : Certificate

-- The end of a call that writes, for the transaction on users, devices and keys.
abbrev pub commit :
    Bool
    → ℕ
    → User
    → Certificate
    → Device
    → Certificate
    → Option Device
    → Certificate
    → Database
    → Result Database
commit enforced now user primary device device_certificate peer ucan db =
    commit_signup_transaction enforced now user primary device device_certificate peer ucan
      db.tables db.store
    >>= λ done. Repository.ok (record db { tables = done.0; store = done.1 })

module _ (keys : Keys) where
  unfoldable pub make_signup : ℕ → String × String → String → String → String → Outcome Signup
  make_signup now (folder_id, record_id) username passphrase domain =
      then_do (or_fail (keys.generate_keys passphrase username) crypto_error) λ primary.
        then_do
          (or_fail (keys.decrypt_certificate primary.private_key primary.salt passphrase)
            invalid_passphrase)
          λ loaded. then_do (or_fail (keys.key_id primary.public_key) crypto_error) λ user_id.
            then_do (generate_ucan_certificate keys loaded) λ ucan.
              then_do
                (or_fail (keys.generate_folder_owner_ucan loaded ucan.private_key folder_id domain)
                  crypto_error)
                λ folder_ucan. then_do (create_device keys now primary.public_key user_id) λ made.
                  ok (record {
                    user =
                        user_new now username user_id primary.public_key "signature" true true
                          "owner_token" "owner_cid" ucan.public_key;
                    primary = primary;
                    device = made.0;
                    device_certificate = made.1;
                    ucan = ucan;
                    folder = folder_new (folder_id, now) "default" none true;
                    folder_share =
                        prepare_folder_share_record (record_id, now) folder_id user_id user_id admin
                          folder_ucan.0 folder_ucan.1;
                  })

  unfoldable pub prepare_signup :
      ℕ → String × String → String → String → String → Database → Outcome Signup
  prepare_signup now ids username passphrase domain db =
      if is_signed_up db.store
      then err already_signed_up
      else make_signup now ids username passphrase domain

  -- The default folder is saved after the first transaction.
  unfoldable pub save_default_folder :
      (FolderShareRecord → Bool) → Signup → Database → Outcome (Unit {0}) × Database
  save_default_folder admits s db =
      elim (save_folder_with_share_record admits s.folder s.folder_share db.folder_tables) [
        | Repository.err e ↦ (err (repository e), db)
        | Repository.ok folder_tables ↦ (ok tt, record db { folder_tables = folder_tables })
      ]

  unfoldable pub handle_signup :
      Bool
      → (FolderShareRecord → Bool)
      → ℕ
      → String × String
      → String
      → String
      → String
      → Database
      → Outcome (Unit {0}) × Database
  handle_signup enforced admits now ids username passphrase domain db =
      elim (prepare_signup now ids username passphrase domain db) [
        | err e ↦ (err e, db)
        | ok s ↦
            elim (commit enforced now s.user s.primary s.device s.device_certificate none s.ucan
              db) [
                | Repository.err e ↦ (err (repository e), db)
                | Repository.ok db' ↦ save_default_folder admits s db'
              ]
      ]

  unfoldable pub get_current_device : Database → Outcome Device
  get_current_device db =
      then_do (or_else_fail (get_device_key db.store) device_not_found)
        λ device_id. or_else_fail (find_device_by_id device_id db.tables.devices) device_not_found

  abbrev pub primary_certificate : Database → Outcome Certificate
  primary_certificate db =
      or_else_fail (get_certificate "primary_key" "primary_key_salt" db.store) certificate_not_found

  -- The certificate that is loaded, the user and the device.
  unfoldable pub load_certificate : String → Database → Outcome (String × User × Device)
  load_certificate passphrase db = then_do (primary_certificate db) λ certificate.
      then_do
        (or_fail (keys.decrypt_certificate certificate.private_key certificate.salt passphrase)
          invalid_passphrase)
        λ loaded. then_do (or_fail (keys.public_key loaded) crypto_error) λ public_key.
          then_do (or_fail (keys.key_id public_key) crypto_error) λ user_id.
            then_do (or_else_fail (get_user_by_id user_id db.tables.users) user_not_found)
              λ user. then_do (get_current_device db) λ device. ok (loaded, user, device)

  unfoldable pub change_certificate : String → String → Certificate → Outcome Certificate
  change_certificate old_password new_password c =
      then_do
        (or_fail (keys.change_password c.private_key c.salt old_password new_password) crypto_error)
        λ key. ok (record c { private_key = key })

  unfoldable pub change_passphrase : ℕ → String → String → Database → Outcome Certificate × Database
  change_passphrase now old_password new_password db =
      elim (then_do (primary_certificate db) (change_certificate old_password new_password)) [
        | err e ↦ (err e, db)
        | ok c ↦ (
          ok c,
          record db { store = store_certificate now c "primary_key" "primary_key_salt" db.store },
        )
      ]

  -- The user record of `import_user`, with the arguments as the source passes them.
  abbrev pub imported_user : ℕ → String → String → String → String → User
  imported_user now username user_id public_key ucan_public_key =
      user_new now username user_id public_key "signature" true true "owner_token" ucan_public_key
        "owner_cid"

  unfoldable pub prepare_import : ℕ → String → String → String → String → Outcome Imported
  prepare_import now certificate passphrase username peer_device_id =
      then_do (or_fail (keys.import_certificate certificate passphrase) crypto_error) λ primary.
        then_do (or_fail (keys.key_id primary.public_key) crypto_error) λ user_id.
          then_do
            (or_fail (keys.decrypt_certificate primary.private_key primary.salt passphrase)
              invalid_passphrase)
            λ loaded. then_do (generate_ucan_certificate keys loaded) λ ucan.
              then_do (create_device keys now primary.public_key user_id) λ made. ok (record {
                user = imported_user now username user_id primary.public_key ucan.public_key;
                primary = primary;
                ucan = ucan;
                peer_device = device_new now peer_device_id peer_device_id user_id;
                device = made.0;
                device_certificate = made.1;
              })

  unfoldable pub import_user :
      Bool
      → ℕ
      → String
      → String
      → String
      → String
      → Database
      → Outcome (User × Certificate) × Database
  import_user enforced now certificate passphrase username peer_device_id db =
      elim (prepare_import now certificate passphrase username peer_device_id) [
        | err e ↦ (err e, db)
        | ok s ↦
            elim (commit enforced now s.user s.primary s.device s.device_certificate
              (some s.peer_device) s.ucan db) [
                | Repository.err e ↦ (err (repository e), db)
                | Repository.ok db' ↦ (ok (s.user, s.primary), db')
              ]
      ]
