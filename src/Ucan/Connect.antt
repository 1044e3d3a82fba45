-- ===== src/Ucan/Connect.antt =====
-- The entry points of crypto_utils/src/ucan_operations.rs: who may connect, and who may send updates
-- of a resource.
use osvauld.Prelude.{
  ℕ, ◌<◌, String, Bool-cases, true, false, Option, none, some, ◌≡◌, refl, sym, ◌∙◌, ◌↔◌, ◌⊎◌, inl,
  inr, arith,
}
use osvauld.Token.{
  Library, Ucan, UcanError, Result, ok, err, ◌>>=◌, attempt, with_true, as_audience,
  check_capability, connect_resource, is_one_time_connect_token,
}
use osvauld.Ucan.{
  verify_did_key_match, validate_structure, validate_audience, validate_embedded_proof_chain,
  validate_connect_token,
}
use osvauld.Ucan.Parents.{Result-cases}
use osvauld.Ucan.Embedded.{Embedded, IsNested, validate_embedded_proof_chain_lem}

pub with_true-ok :
    (o : Option (Result (Unit {0}))) → with_true o ≡ some (ok true) → o ≡ some (ok tt)
with_true-ok none h = absurd (ground arith)
with_true-ok (some (ok _)) h = refl
with_true-ok (some (err e)) h = absurd (ground arith)

pub some_injective : {A : Type 0} {a b : A} → some a ≡ some b → a ≡ b
some_injective e = cc

audience_match : (r : Result (Unit {0})) → as_audience r ≡ ok tt → r ≡ ok tt
audience_match (ok tt) h = refl
audience_match (err e) h = absurd (ground arith)

module _ (lib : Library) where
  pub validate_audience-match :
      (u : Ucan) (key : String)
      → validate_audience lib u key ≡ ok tt
      → verify_did_key_match lib u.audience key ≡ ok tt
  unfolding validate_audience
  validate_audience-match u key h = audience_match (verify_did_key_match lib u.audience key) h

  pub match-validate_audience :
      (u : Ucan) (key : String)
      → verify_did_key_match lib u.audience key ≡ ok tt
      → validate_audience lib u key ≡ ok tt
  unfolding validate_audience
  match-validate_audience u key h = rw h refl

  -- What the two kinds of connect token have to be: a one-time token is issued by the verifier, and
  -- any other is held by the presenter and is a chain of embedded tokens from the verifier.
  abbrev pub MayConnect : String → String → String → String → String → Ucan → Type 0
  MayConnect token presenter verifier verifier_user_id domain u =
      ((is_one_time_connect_token u domain ≡ true)
        × (verify_did_key_match lib u.issuer verifier ≡ ok tt)
        × (check_capability u (connect_resource domain verifier_user_id) "use" ≡ ok tt))
      ⊎ ((is_one_time_connect_token u domain ≡ false)
          × (verify_did_key_match lib u.audience presenter ≡ ok tt)
          × Embedded lib verifier_user_id verifier domain token none)

  pub one_time :
      (fuel : ℕ) (token presenter verifier verifier_user_id domain : String) (u : Ucan)
      → validate_structure lib token ≡ ok u
      → is_one_time_connect_token u domain ≡ true
      → validate_connect_token lib fuel token presenter verifier verifier_user_id domain
        ≡ with_true (
            some (
              verify_did_key_match lib u.issuer verifier >>= λ _.
              check_capability u (connect_resource domain verifier_user_id) "use"))
  unfolding validate_connect_token
  one_time fuel token presenter verifier verifier_user_id domain u e t = rw (e, t) refl

  pub not_one_time :
      (fuel : ℕ) (token presenter verifier verifier_user_id domain : String) (u : Ucan)
      → validate_structure lib token ≡ ok u
      → is_one_time_connect_token u domain ≡ false
      → validate_connect_token lib fuel token presenter verifier verifier_user_id domain
        ≡ with_true (
            attempt (validate_audience lib u presenter) λ _.
              validate_embedded_proof_chain lib verifier_user_id verifier domain fuel token none)
  unfolding validate_connect_token
  not_one_time fuel token presenter verifier verifier_user_id domain u e t = rw (e, t) refl

  pub no_structure :
      (fuel : ℕ) (token presenter verifier verifier_user_id domain : String) (x : UcanError)
      → validate_structure lib token ≡ err x
      → validate_connect_token lib fuel token presenter verifier verifier_user_id domain
        ≡ some (err x)
  unfolding validate_connect_token
  no_structure fuel token presenter verifier verifier_user_id domain x e = rw e refl

  pub granted_once :
      (verifier resource : String) (u : Ucan)
      → (verify_did_key_match lib u.issuer verifier >>= λ _. check_capability u resource "use")
        ≡ ok tt
      → (verify_did_key_match lib u.issuer verifier ≡ ok tt)
        × (check_capability u resource "use" ≡ ok tt)
  granted_once verifier resource u h =
      elim (Result-cases (verify_did_key_match lib u.issuer verifier)) [
        | inl (_, e) ↦ (e, ground arith)
        | inr (x, e) ↦ absurd (ground arith)
      ]

  pub granted_embedded :
      (presenter : String) (u : Ucan) (o : Option (Result (Unit {0})))
      → (attempt (validate_audience lib u presenter) λ _. o) ≡ some (ok tt)
      → (verify_did_key_match lib u.audience presenter ≡ ok tt) × (o ≡ some (ok tt))
  granted_embedded presenter u o h = elim (Result-cases (validate_audience lib u presenter)) [
    | inl (_, e) ↦ (validate_audience-match u presenter e, ground arith)
    | inr (x, e) ↦ absurd (ground arith)
  ]

  -- With fuel above the size of the token, a connect token is accepted exactly when it is valid and
  -- one of the two kinds: a one-time token (for anyone, with a connect capability) that the verifier
  -- issued and that lets its holder connect to the verifier, or a token whose audience is the
  -- presenter and whose chain of embedded tokens ends with one that the verifier issued.
  pub validate_connect_token_lem :
      (size : String → ℕ)
      → IsNested lib size
      → (fuel : ℕ) (token presenter verifier verifier_user_id domain : String) → size token < fuel
      → (validate_connect_token lib fuel token presenter verifier verifier_user_id domain
          ≡ some (ok true))
        ↔ ((u : Ucan) × (validate_structure lib token ≡ ok u)
            × MayConnect token presenter verifier verifier_user_id domain u)
  validate_connect_token_lem size nests fuel token presenter verifier verifier_user_id domain b =
      (sound, complete)
    where
      sound :
          validate_connect_token lib fuel token presenter verifier verifier_user_id domain
            ≡ some (ok true)
          → (u : Ucan) × (validate_structure lib token ≡ ok u)
            × MayConnect token presenter verifier verifier_user_id domain u
      sound h = elim (Result-cases (validate_structure lib token)) [
        | inr (x, e) ↦
            absurd (
              ground
                (arith, no_structure fuel token presenter verifier verifier_user_id domain x e))
        | inl (u, e) ↦ elim (Bool-cases (is_one_time_connect_token u domain)) [
          | inl t ↦
              let (m, c) = granted_once verifier (connect_resource domain verifier_user_id) u (
                some_injective (
                  with_true-ok _ (
                    sym (one_time fuel token presenter verifier verifier_user_id domain u e t)
                    ∙ h))) in
              (u, e, inl (t, m, c))
          | inr t ↦
              let (m, c) = granted_embedded presenter u _ (
                with_true-ok _ (
                  sym (not_one_time fuel token presenter verifier verifier_user_id domain u e t)
                  ∙ h)) in
              let (r, d, (holds, _)) =
                validate_embedded_proof_chain_lem lib verifier_user_id verifier domain size nests
                  fuel token none b in
              (u, e, inr (t, m, holds (some_injective (sym d ∙ c))))
        ]
      ]

      complete :
          (u : Ucan) × (validate_structure lib token ≡ ok u)
            × MayConnect token presenter verifier verifier_user_id domain u
          → validate_connect_token lib fuel token presenter verifier verifier_user_id domain
            ≡ some (ok true)
      complete (u, e, inl (t, m, c)) =
          one_time fuel token presenter verifier verifier_user_id domain u e t ∙ rw (m, c) refl
      complete (u, e, inr (t, m, c)) =
          not_one_time fuel token presenter verifier verifier_user_id domain u e t
          ∙ (let (r, d, (_, holds)) =
                validate_embedded_proof_chain_lem lib verifier_user_id verifier domain size nests
                  fuel token none b in
              rw (match-validate_audience u presenter m, d, holds c) refl)
