-- ===== src/Accounts/Committed.antt =====
-- What `handle_signup` of services/src/auth_service.rs leaves in the database.
use osvauld.Prelude.{
  ℕ, String, Bool, Bool-cases, Option, true, none, some, ◌≡◌, refl, sym, ap, subst, ◌∙◌, inl, inr,
  arith, ◌⊎◌,
}
use osvauld.Repository
use osvauld.Repository.{Result, RepositoryError, Result-cases, >>=-ok, ok_injective}
use osvauld.Store.{Certificate, is_signed_up}
use osvauld.Devices.{Device}
use osvauld.Users.{User}
use osvauld.FolderShares.{FolderShareRecord, save_folder_with_share_record}
use osvauld.Auth.{
  Keys, AuthError, Outcome, ok, err, then_do, or_fail, Database, user_new,
  commit_signup_transaction, create_device, generate_ucan_certificate, repository,
}
use osvauld.Auth.Transaction.{HasItems, HasRows, commit-HasRows}
use osvauld.Accounts.{
  Signup, commit, make_signup, prepare_signup, save_default_folder, handle_signup,
}

pub then_do-ok {ℓ κ} :
    {A : Type ℓ} {B : Type κ} (m : Outcome A) (f : A → Outcome B) (b : B)
    → then_do m f ≡ ok b
    → (a : A) × (m ≡ ok a) × (f a ≡ ok b)
then_do-ok (ok a) f b h = (a, refl, h)
then_do-ok (err e) f b h = absurd (ground arith)

pub Outcome-cases {ℓ} :
    {A : Type ℓ} (o : Outcome A) → ((a : A) × (o ≡ ok a)) ⊎ ((e : AuthError) × (o ≡ err e))
Outcome-cases (ok a) = inl (a, refl)
Outcome-cases (err e) = inr (e, refl)

pub or_fail-ok {ℓ} :
    {A : Type ℓ} (o : Option A) (e : AuthError) (a : A) → or_fail o e ≡ ok a → o ≡ some a
or_fail-ok none e a h = absurd (ground arith)
or_fail-ok (some x) e a h = ground arith

pub outcome_injective {ℓ} : {A : Type ℓ} {a b : A} → ok a ≡ ok b → a ≡ b
outcome_injective h = cc

-- A device made here has its key as its id and belongs to the user.
create_device-user_id :
    (keys : Keys) (now : ℕ) (public_key user_id : String) (d : Device) (c : Certificate)
    → create_device keys now public_key user_id ≡ ok (d, c)
    → d.user_id ≡ user_id
unfolding create_device
create_device-user_id keys now public_key user_id d c h =
    let (made, e, f) = then_do-ok (or_fail (keys.generate_ed25519_key public_key) _) _ (d, c) h in
    ap (λ x. x.0.user_id) (sym (outcome_injective f))

module _ (keys : Keys) where
  -- What the preparation of a sign-up tells of its parts.
  pub record IsPrepared (username passphrase : String) (s : Signup) : Type 0 where
    pub loaded : String
    pub made : keys.generate_keys passphrase username ≡ some s.primary
    pub opens :
        keys.decrypt_certificate s.primary.private_key s.primary.salt passphrase ≡ some loaded
    pub identifies : keys.key_id s.primary.public_key ≡ some s.user.id
    pub is_named : s.user.username ≡ username
    pub is_owner : s.user.owner ≡ true
    pub own_device : s.device.user_id ≡ s.user.id
    pub own_key : s.user.ucan_pub_key ≡ s.ucan.public_key

  make-IsPrepared :
      (now : ℕ) (ids : String × String) (username passphrase domain : String) (s : Signup)
      → make_signup keys now ids username passphrase domain ≡ ok s
      → IsPrepared username passphrase s
  unfolding make_signup user_new
  make-IsPrepared now ids username passphrase domain s h =
      let (primary, e1, h1) =
        then_do-ok (or_fail (keys.generate_keys passphrase username) _) _ s h in
      let (loaded, e2, h2) =
        then_do-ok
          (or_fail (keys.decrypt_certificate primary.private_key primary.salt passphrase) _) _ s
          h1 in
      let (user_id, e3, h3) = then_do-ok (or_fail (keys.key_id primary.public_key) _) _ s h2 in
      let (ucan, e4, h4) = then_do-ok (generate_ucan_certificate keys loaded) _ s h3 in
      let (folder_ucan, e5, h5) =
        then_do-ok
          (or_fail (keys.generate_folder_owner_ucan loaded ucan.private_key ids.0 domain) _) _ s
          h4 in
      let ((device, certificate), e6, h6) =
        then_do-ok (create_device keys now primary.public_key user_id) _ s h5 in
      subst (IsPrepared username passphrase) (outcome_injective h6) (record {
        loaded = loaded;
        made = or_fail-ok _ _ primary e1;
        opens = or_fail-ok _ _ loaded e2;
        identifies = or_fail-ok _ _ user_id e3;
        is_named = refl;
        is_owner = refl;
        own_device =
            create_device-user_id keys now primary.public_key user_id device certificate e6;
        own_key = refl;
      })

  save_default_folder-keeps :
      (admits : FolderShareRecord → Bool) (s : Signup) (db : Database)
      → ((save_default_folder keys admits s db).1.tables ≡ db.tables)
        × ((save_default_folder keys admits s db).1.store ≡ db.store)
  unfolding save_default_folder
  save_default_folder-keeps admits s db =
      elim (Result-cases
        (save_folder_with_share_record admits s.folder s.folder_share db.folder_tables)) [
          | inl (t, e) ↦ rw (e, save_default_folder) (refl, refl)
          | inr (x, e) ↦ rw (e, save_default_folder) (refl, refl)
        ]

  pub commit-parts :
      (enforced : Bool) (now : ℕ) (user : User) (primary : Certificate) (device : Device)
      (node : Certificate) (peer : Option Device) (ucan : Certificate) (db db' : Database)
      → commit enforced now user primary device node peer ucan db ≡ Repository.ok db'
      → HasRows user device db'.tables × HasItems primary device node ucan db'.store
  commit-parts enforced now user primary device node peer ucan db db' h =
      let ((t, items), e, f) =
        >>=-ok
          (commit_signup_transaction enforced now user primary device node peer ucan db.tables
            db.store)
          _ db' h in
      subst
        (λ (x : Database). HasRows user device x.tables × HasItems primary device node ucan x.store)
        (ok_injective f)
        (commit-HasRows enforced now user primary device node peer ucan db.tables t db.store items
          e)

  module _ (enforced : Bool) (admits : FolderShareRecord → Bool) (now : ℕ) (ids : String × String)
      (username passphrase domain : String) (db : Database) where
    abbrev pub sign_up : Outcome (Unit {0}) × Database
    sign_up = handle_signup keys enforced admits now ids username passphrase domain db

    abbrev pub preparation : Outcome Signup
    preparation = prepare_signup keys now ids username passphrase domain db

    abbrev committed : Signup → Result Database
    committed s = commit enforced now s.user s.primary s.device s.device_certificate none s.ucan db

    pub not_prepared : (e : AuthError) → preparation ≡ err e → sign_up ≡ (err e, db)
    unfolding handle_signup
    not_prepared e h = rw (h, handle_signup) refl

    not_committed :
        (s : Signup) (e : RepositoryError)
        → preparation ≡ ok s
        → committed s ≡ Repository.err e
        → sign_up ≡ (err (repository e), db)
    unfolding handle_signup
    not_committed s e h k = rw (h, k, handle_signup) refl

    is_committed :
        (s : Signup) (db1 : Database)
        → preparation ≡ ok s
        → committed s ≡ Repository.ok db1
        → sign_up ≡ save_default_folder keys admits s db1
    unfolding handle_signup
    is_committed s db1 h k = rw (h, k, handle_signup) refl

    is_new :
        (s : Signup)
        → preparation ≡ ok s
        → make_signup keys now ids username passphrase domain ≡ ok s
    unfolding prepare_signup
    is_new s h = elim (Bool-cases (is_signed_up db.store)) [
      | inl t ↦ absurd (ground arith)
      | inr f ↦ sym (rw f refl) ∙ h
    ]

    -- The database after a sign-up that succeeds.
    pub signed_up :
        (db' : Database)
        → sign_up ≡ (ok tt, db')
        → (s : Signup) × IsPrepared username passphrase s
          × HasRows s.user s.device db'.tables
          × HasItems s.primary s.device s.device_certificate s.ucan db'.store
    signed_up db' h = elim (Outcome-cases preparation) [
      | inr (e, f) ↦ absurd (ground (arith, not_prepared e f))
      | inl (s, f) ↦ elim (Result-cases (committed s)) [
        | inr (e, g) ↦ absurd (ground (arith, not_committed s e f g))
        | inl (db1, g) ↦
            let (rows, items) =
              commit-parts enforced now s.user s.primary s.device s.device_certificate none s.ucan
                db db1 g in
            let (kept_tables, kept_store) = save_default_folder-keeps admits s db1 in
            let last : (save_default_folder keys admits s db1).1 ≡ db' =
              ap (λ x. x.1) (sym (is_committed s db1 f g) ∙ h) in
            (
              s,
              make-IsPrepared now ids username passphrase domain s (is_new s f),
              subst (HasRows s.user s.device) (sym kept_tables ∙ ap (λ x. x.tables) last) rows,
              subst (HasItems s.primary s.device s.device_certificate s.ucan)
                  (sym kept_store ∙ ap (λ x. x.store) last) items,
            )
      ]
    ]
