-- ===== src/Accounts/Login.antt =====
-- Logging in after a sign-up, and after a change of the passphrase: services/src/auth_service.rs.
use osvauld.Prelude.{ℕ, String, Bool, true, some, ◌≡◌, refl, sym, ap, ◌∙◌, inl, inr, arith}
use osvauld.Store.{
  upsert_item, Certificate, get_certificate, get_device_key, is_signed_up, store_certificate,
}
use osvauld.Store.Lookup.{
  get_value-value_of, is_some-value_of, value_of-upsert_item, get-store_certificate, get_value_same,
}
use osvauld.Devices.{Device, find_device_by_id}
use osvauld.Users.{User, get_user_by_id}
use osvauld.FolderShares.{FolderShareRecord}
use osvauld.Auth.{
  Keys, AuthError, already_signed_up, invalid_passphrase, crypto_error, user_not_found, Outcome, ok,
  err, then_do, or_fail, or_else_fail, Database,
}
use osvauld.Auth.Transaction.{HasItems, HasRows}
use osvauld.Accounts.{
  prepare_signup, handle_signup, get_current_device, primary_certificate, load_certificate,
  change_certificate, change_passphrase,
}
use osvauld.Accounts.Committed.{
  not_prepared, signed_up, Outcome-cases, then_do-ok, or_fail-ok, outcome_injective,
}

module _ (keys : Keys) where
  -- What the library promises of the keys that it makes: a certificate that opens with its passphrase
  -- has the public key that it was made with.
  abbrev pub OpensTo : Type 0
  OpensTo =
      (passphrase username loaded : String) (c : Certificate)
      → keys.generate_keys passphrase username ≡ some c
      → keys.decrypt_certificate c.private_key c.salt passphrase ≡ some loaded
      → keys.public_key loaded ≡ some c.public_key

  loads :
      (passphrase loaded public_key : String) (c : Certificate) (node ucan : Certificate) (u : User)
      (d : Device) (db : Database)
      → HasItems c d node ucan db.store
      → HasRows u d db.tables
      → keys.decrypt_certificate c.private_key c.salt passphrase ≡ some loaded
      → keys.public_key loaded ≡ some public_key
      → keys.key_id public_key ≡ some u.id
      → load_certificate keys passphrase db ≡ ok (loaded, u, d)
  unfolding load_certificate get_current_device get_certificate get_device_key get_user_by_id
      find_device_by_id
  loads passphrase loaded public_key c node ucan u d db items rows opens has identifies =
      let key = get_value-value_of "primary_key" c.private_key db.store items.key in
      let salt = get_value-value_of "primary_key_salt" c.salt db.store items.salt in
      let id = get_value-value_of "device_id" d.id db.store items.device_id in
      rw (key, salt, opens, has, identifies, rows.user_there, id, rows.device_there) refl

  -- Where the library opens a certificate to the public key that it was made with, and a sign-up
  -- succeeds, the user logs in with the passphrase: the call returns a user with the name, an owner,
  -- and a device of this user, and the database says that somebody has signed up.
  pub signup-load_certificate :
      (enforced : Bool) (admits : FolderShareRecord → Bool) (now : ℕ) (ids : String × String)
      (username passphrase domain : String) (db db' : Database)
      → OpensTo
      → handle_signup keys enforced admits now ids username passphrase domain db ≡ (ok tt, db')
      → (loaded : String) × (u : User) × (d : Device) × (load_certificate keys passphrase db'
          ≡ ok (loaded, u, d))
        × (u.username ≡ username)
        × (u.owner ≡ true)
        × (d.user_id ≡ u.id)
        × (is_signed_up db'.store ≡ true)
  unfolding is_signed_up
  signup-load_certificate enforced admits now ids username passphrase domain db db' law h =
      let (s, p, rows, items) =
        signed_up keys enforced admits now ids username passphrase domain db db' h in
      (
        p.loaded,
        s.user,
        s.device,
        loads passphrase p.loaded s.primary.public_key s.primary s.device_certificate s.ucan s.user
            s.device db' items rows p.opens
            (law passphrase username p.loaded s.primary p.made p.opens) p.identifies,
        p.is_named,
        p.is_owner,
        p.own_device,
        sym (is_some-value_of "primary_key" db'.store) ∙ rw items.key refl,
      )

  -- Where somebody has signed up, a sign-up fails and writes nothing.
  pub handle_signup_twice :
      (enforced : Bool) (admits : FolderShareRecord → Bool) (now : ℕ) (ids : String × String)
      (username passphrase domain : String) (db : Database)
      → is_signed_up db.store ≡ true
      → handle_signup keys enforced admits now ids username passphrase domain db
        ≡ (err already_signed_up, db)
  unfolding prepare_signup
  handle_signup_twice enforced admits now ids username passphrase domain db h =
      not_prepared keys enforced admits now ids username passphrase domain db already_signed_up
        (rw h refl)

  -- What the library promises of a changed passphrase: the new one opens what the old one opened.
  abbrev pub Reopens : Type 0
  Reopens =
      (key salt old_password new_password key' : String)
      → keys.change_password key salt old_password new_password ≡ some key'
      → keys.decrypt_certificate key' salt new_password
        ≡ keys.decrypt_certificate key salt old_password

  abbrev changes : String → String → Database → Outcome Certificate
  changes old_password new_password db =
      then_do (primary_certificate keys db) (change_certificate keys old_password new_password)

  abbrev written : ℕ → Certificate → Database → Database
  written now c db = record db {
    store = store_certificate now c "primary_key" "primary_key_salt" db.store;
  }

  not_changed :
      (now : ℕ) (old_password new_password : String) (db : Database) (e : AuthError)
      → changes old_password new_password db ≡ err e
      → change_passphrase keys now old_password new_password db ≡ (err e, db)
  unfolding change_passphrase
  not_changed now old_password new_password db e h = rw (h, change_passphrase) refl

  is_changed :
      (now : ℕ) (old_password new_password : String) (db : Database) (c : Certificate)
      → changes old_password new_password db ≡ ok c
      → change_passphrase keys now old_password new_password db ≡ (ok c, written now c db)
  unfolding change_passphrase
  is_changed now old_password new_password db c h = rw (h, change_passphrase) refl

  change-ok :
      (now : ℕ) (old_password new_password : String) (db db' : Database) (c : Certificate)
      → change_passphrase keys now old_password new_password db ≡ (ok c, db')
      → (changes old_password new_password db ≡ ok c) × (written now c db ≡ db')
  change-ok now old_password new_password db db' c h =
      elim (Outcome-cases (changes old_password new_password db)) [
        | inr (e, f) ↦ absurd (ground (arith, not_changed now old_password new_password db e f))
        | inl (c1, f) ↦
            let both : (ok c1, written now c1 db) ≡ (ok c, db') =
              sym (is_changed now old_password new_password db c1 f) ∙ h in
            let same : c1 ≡ c = outcome_injective (ap (λ x. x.0) both) in
            (f ∙ ap ok same, ap (λ x. written now x db) (sym same) ∙ ap (λ x. x.1) both)
      ]

  change-parts :
      (old_password new_password : String) (db : Database) (c : Certificate)
      → changes old_password new_password db ≡ ok c
      → (c0 : Certificate) × (key' : String) × (primary_certificate keys db ≡ ok c0)
        × (keys.change_password c0.private_key c0.salt old_password new_password ≡ some key')
        × (c ≡ record c0 { private_key = key' })
  unfolding change_certificate
  change-parts old_password new_password db c h =
      let (c0, e, f) = then_do-ok (primary_certificate keys db) _ c h in
      let (key', g, k) =
        then_do-ok
          (or_fail (keys.change_password c0.private_key c0.salt old_password new_password) _) _ c
          f in
      (c0, key', e, or_fail-ok _ _ key' g, sym (outcome_injective k))

  -- What logging in does with a certificate.
  abbrev enters : String → Certificate → Database → Outcome (String × User × Device)
  enters passphrase c db =
      then_do
        (or_fail (keys.decrypt_certificate c.private_key c.salt passphrase) invalid_passphrase)
        λ loaded. then_do (or_fail (keys.public_key loaded) crypto_error) λ public_key.
          then_do (or_fail (keys.key_id public_key) crypto_error) λ user_id.
            then_do (or_else_fail (get_user_by_id user_id db.tables.users) user_not_found)
              λ user. then_do (get_current_device keys db) λ device. ok (loaded, user, device)

  enters_lem :
      (passphrase : String) (c : Certificate) (db : Database)
      → primary_certificate keys db ≡ ok c
      → load_certificate keys passphrase db ≡ enters passphrase c db
  unfolding load_certificate
  enters_lem passphrase c db h = rw h refl

  same_device :
      (now : ℕ) (c : Certificate) (db : Database)
      → get_current_device keys (written now c db) ≡ get_current_device keys db
  unfolding get_current_device get_device_key store_certificate
  same_device now c db =
      let mid = upsert_item now "primary_key" c.private_key db.store in
      let same =
        get_value_same "device_id" (upsert_item now "primary_key_salt" c.salt mid) db.store (
          value_of-upsert_item now "device_id" "primary_key_salt" c.salt mid
          ∙ value_of-upsert_item now "device_id" "primary_key" c.private_key db.store) in
      rw same refl

  -- Where the library reopens what it changed, a change of the passphrase that succeeds makes logging
  -- in with the new passphrase what logging in with the old one was before: the same certificate, user
  -- and device, or the same failure.
  pub change_passphrase-load_certificate :
      (now : ℕ) (old_password new_password : String) (db db' : Database) (c : Certificate)
      → Reopens
      → change_passphrase keys now old_password new_password db ≡ (ok c, db')
      → load_certificate keys new_password db' ≡ load_certificate keys old_password db
  change_passphrase-load_certificate now old_password new_password db db' c law h =
      let (e, f) = change-ok now old_password new_password db db' c h in
      let (c0, key', e1, e2, e3) = change-parts old_password new_password db c e in
      let primary' : primary_certificate keys (written now c db)
          ≡ ok (record c { public_key = "" }) =
        rw (get-store_certificate now c "primary_key" "primary_key_salt" db.store refl) refl in
      let opens : keys.decrypt_certificate c.private_key c.salt new_password
          ≡ keys.decrypt_certificate c0.private_key c0.salt old_password =
        rw e3 (law c0.private_key c0.salt old_password new_password key' e2) in
      ap (load_certificate keys new_password) (sym f)
      ∙ (enters_lem new_password (record c { public_key = "" }) (written now c db) primary'
          ∙ (rw (opens, same_device now c db) refl ∙ sym (enters_lem old_password c0 db e1)))
