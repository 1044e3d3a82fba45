-- ===== src/Accounts/Import.antt =====
-- The user that `import_user` of services/src/auth_service.rs stores.
use osvauld.Prelude.{
  ℕ, zero, suc, String, Bool, Bool-cases, Option, true, none, some, ◌≡◌, ◌≢◌, refl, sym, ap, subst,
  ◌∙◌, inl, inr, arith,
}
use osvauld.Repository
use osvauld.Repository.{Result, RepositoryError, Result-cases}
use osvauld.Store.{Certificate}
use osvauld.Users.{User, get_user_by_id}
use osvauld.Token
use osvauld.Token.{Library, connect_resource, is_one_time_connect_token}
use osvauld.Ucan.Connect.{
  one_time, not_one_time, no_structure, granted_once, granted_embedded, with_true-ok,
  some_injective,
}
use osvauld.Ucan.Parents.{Result-cases as Token-cases}
use osvauld.Ucan.{
  verify_did_key_match, key_of_did, validate_structure, check_link, nested_proof,
  validate_embedded_proof_chain, validate_connect_token,
}
use osvauld.Auth.{
  Keys, AuthError, Outcome, ok, err, or_fail, repository, Database, user_new,
  generate_ucan_certificate, create_device,
}
use osvauld.Auth.Transaction.{HasRows}
use osvauld.Accounts.{Imported, commit, prepare_import, import_user}
use osvauld.Accounts.Committed.{Outcome-cases, then_do-ok, outcome_injective, commit-parts}

module _ (keys : Keys) where
  prepared_key :
      (now : ℕ) (certificate passphrase username peer_device_id : String) (s : Imported)
      → prepare_import keys now certificate passphrase username peer_device_id ≡ ok s
      → (s.user.ucan_pub_key ≡ "owner_cid") × (s.user.ucan_cid ≡ s.ucan.public_key)
  unfolding prepare_import user_new
  prepared_key now certificate passphrase username peer_device_id s h =
      let (primary, e1, h1) =
        then_do-ok (or_fail (keys.import_certificate certificate passphrase) _) _ s h in
      let (user_id, e2, h2) = then_do-ok (or_fail (keys.key_id primary.public_key) _) _ s h1 in
      let (loaded, e3, h3) =
        then_do-ok
          (or_fail (keys.decrypt_certificate primary.private_key primary.salt passphrase) _) _ s
          h2 in
      let (ucan, e4, h4) = then_do-ok (generate_ucan_certificate keys loaded) _ s h3 in
      let (made, e5, h5) = then_do-ok (create_device keys now primary.public_key user_id) _ s h4 in
      subst
        (λ (x : Imported).
          (x.user.ucan_pub_key ≡ "owner_cid") × (x.user.ucan_cid ≡ x.ucan.public_key))
        (outcome_injective h5) (refl, refl)

  module _ (enforced : Bool) (now : ℕ) (certificate passphrase username peer_device_id : String)
      (db : Database) where
    abbrev result : Outcome (User × Certificate) × Database
    result = import_user keys enforced now certificate passphrase username peer_device_id db

    abbrev preparation : Outcome Imported
    preparation = prepare_import keys now certificate passphrase username peer_device_id

    abbrev committed : Imported → Result Database
    committed s =
        commit enforced now s.user s.primary s.device s.device_certificate (some s.peer_device)
          s.ucan db

    not_prepared : (e : AuthError) → preparation ≡ err e → result ≡ (err e, db)
    unfolding import_user
    not_prepared e h = rw (h, import_user) refl

    not_committed :
        (s : Imported) (e : RepositoryError)
        → preparation ≡ ok s
        → committed s ≡ Repository.err e
        → result ≡ (err (repository e), db)
    unfolding import_user
    not_committed s e h k = rw (h, k, import_user) refl

    is_committed :
        (s : Imported) (db1 : Database)
        → preparation ≡ ok s
        → committed s ≡ Repository.ok db1
        → result ≡ (ok (s.user, s.primary), db1)
    unfolding import_user
    is_committed s db1 h k = rw (h, k, import_user) refl

    -- The user that an import returns is in the table, with a fixed text for its token key.
    imported_key :
        (u : User) (c : Certificate) (db' : Database)
        → result ≡ (ok (u, c), db')
        → (get_user_by_id u.id db'.tables.users ≡ Repository.ok u) × (u.ucan_pub_key ≡ "owner_cid")
    unfolding get_user_by_id
    imported_key u c db' h = elim (Outcome-cases preparation) [
      | inr (e, f) ↦ absurd (ground (arith, not_prepared e f))
      | inl (s, f) ↦ elim (Result-cases (committed s)) [
        | inr (e, g) ↦ absurd (ground (arith, not_committed s e f g))
        | inl (db1, g) ↦
            let done : (ok (s.user, s.primary), db1) ≡ (ok (u, c), db') =
              sym (is_committed s db1 f g) ∙ h in
            let same : s.user ≡ u = ap (λ x. x.0) (outcome_injective (ap (λ x. x.0) done)) in
            let (rows, items) =
              commit-parts keys enforced now s.user s.primary s.device s.device_certificate
                (some s.peer_device) s.ucan db db1 g in
            let there : HasRows u s.device db'.tables =
              subst (λ (x : User). HasRows x s.device db'.tables) same
                (subst (λ (x : Database). HasRows s.user s.device x.tables) (ap (λ x. x.1) done)
                  rows) in
            (
              rw there.user_there refl,
              subst (λ (x : User). x.ucan_pub_key ≡ "owner_cid") same
                  (prepared_key now certificate passphrase username peer_device_id s f).0,
            )
      ]
    ]

-- A verifier whose key is no base64 accepts nothing.
module _ (lib : Library) (key : String) (undecodable : lib.base64_decode key ≡ none) where
  no_match : (did : String) → (x : Unit {0}) → verify_did_key_match lib did key ≢ Token.ok x
  unfolding verify_did_key_match
  no_match did x h = elim (Token-cases (key_of_did lib did)) [
    | inl (k, e) ↦ absurd (ground arith)
    | inr (y, e) ↦ absurd (ground arith)
  ]

  fails : (did : String) → (y : Token.UcanError) × (verify_did_key_match lib did key ≡ Token.err y)
  fails did = elim (Token-cases (verify_did_key_match lib did key)) [
    | inl (x, e) ↦ absurd (no_match did x e)
    | inr r ↦ r
  ]

  no_chain :
      (fuel : ℕ) (user_id domain token : String) (expected : Option String)
      → validate_embedded_proof_chain lib user_id key domain fuel token expected
        ≢ some (Token.ok tt)
  unfolding validate_embedded_proof_chain
  no_chain zero user_id domain token expected h = ground arith
  no_chain (suc fuel) user_id domain token expected h =
      elim (Token-cases (check_link lib user_id key domain token expected)) [
        | inr (x, e) ↦ absurd (ground arith)
        | inl (u, e) ↦
            let (y, f) = fails u.issuer in
            elim (Token-cases (nested_proof lib u)) [
              | inr (x, g) ↦ absurd (ground arith)
              | inl (n, g) ↦ no_chain fuel user_id domain n (some u.issuer) (ground arith)
            ]
      ]

  -- No connect token is accepted, with any fuel.
  pub no_connection :
      (fuel : ℕ) (token presenter user_id domain : String)
      → validate_connect_token lib fuel token presenter key user_id domain ≢ some (Token.ok true)
  no_connection fuel token presenter user_id domain h =
      elim (Token-cases (validate_structure lib token)) [
        | inr (x, e) ↦
            absurd (ground (arith, no_structure lib fuel token presenter key user_id domain x e))
        | inl (u, e) ↦ elim (Bool-cases (is_one_time_connect_token u domain)) [
          | inl t ↦
              let (m, c) = granted_once lib key (connect_resource domain user_id) u (
                some_injective (
                  with_true-ok _
                    (sym (one_time lib fuel token presenter key user_id domain u e t) ∙ h))) in
              no_match u.issuer tt m
          | inr f ↦
              let (m, c) =
                granted_embedded lib presenter u
                  (validate_embedded_proof_chain lib user_id key domain fuel token none)
                  (with_true-ok _
                    (sym (not_one_time lib fuel token presenter key user_id domain u e f) ∙ h)) in
              no_chain fuel user_id domain token none c
        ]
      ]

-- Where the text `owner_cid` is no base64, the user that an import returns is stored, and a peer that
-- presents a connect token to this user is never accepted, whatever the token, the presenter and the
-- fuel are.
pub import_user-validate_connect_token :
    (keys : Keys) (lib : Library)
    → lib.base64_decode "owner_cid" ≡ none
    → (enforced : Bool) (now : ℕ) (certificate passphrase username peer_device_id : String)
      (db db' : Database) (u : User) (c : Certificate)
    → import_user keys enforced now certificate passphrase username peer_device_id db
      ≡ (ok (u, c), db')
    → (get_user_by_id u.id db'.tables.users ≡ Repository.ok u)
      × ((fuel : ℕ) (token presenter domain : String)
          → validate_connect_token lib fuel token presenter u.ucan_pub_key u.id domain
            ≢ some (Token.ok true))
import_user-validate_connect_token keys lib undecodable enforced now certificate passphrase username
      peer_device_id db db' u c h =
    let (there, key) =
      imported_key keys enforced now certificate passphrase username peer_device_id db u c db' h in
    (
      there,
      λ fuel token presenter domain h.
          no_connection lib u.ucan_pub_key (ap lib.base64_decode key ∙ undecodable) fuel token
            presenter u.id domain h,
    )
