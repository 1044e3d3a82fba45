-- ===== src/Ucan/Authority.antt =====
-- `validate_authority_for_update` of crypto_utils/src/ucan_operations.rs: who may send updates of a
-- resource.
use osvauld.Prelude.{ℕ, ◌<◌, String, true, Option, some, ◌≡◌, refl, sym, ◌∙◌, inl, inr, arith}
use osvauld.Token.{Library, Ucan, UcanError, Result, ok, err, attempt, with_true, resource_uri}
use osvauld.Ucan.{
  verify_did_key_match, validate_structure, validate_audience, validate_ucan_permission,
  validate_authority_for_update,
}
use osvauld.Ucan.Parents.{Result-cases}
use osvauld.Ucan.Permission.{Chain, validate_ucan_permission-Chain}
use osvauld.Ucan.Granted.{Line, validate_ucan_permission-Line}
use osvauld.Ucan.Connect.{with_true-ok, validate_audience-match, match-validate_audience}

module _ (lib : Library) (resolve : String → Option String) where
  authority :
      (fuel : ℕ) (token peer root resource_id domain : String) (u : Ucan)
      → validate_structure lib token ≡ ok u
      → validate_authority_for_update lib fuel token peer root resource_id domain resolve ≡ (
          attempt (validate_audience lib u peer) λ _. with_true (
            validate_ucan_permission lib root resolve
              (resource_uri domain resource_id)
              "crud/update"
              fuel
              u))
  unfolding validate_authority_for_update
  authority fuel token peer root resource_id domain u e = rw e refl

  no_structure :
      (fuel : ℕ) (token peer root resource_id domain : String) (x : UcanError)
      → validate_structure lib token ≡ err x
      → validate_authority_for_update lib fuel token peer root resource_id domain resolve
        ≡ some (err x)
  unfolding validate_authority_for_update
  no_structure fuel token peer root resource_id domain x e = rw e refl

  attempt-true :
      (r : Result (Unit {0})) (o : Option (Result (Unit {0})))
      → (attempt r λ _. with_true o) ≡ some (ok true)
      → (r ≡ ok tt) × (o ≡ some (ok tt))
  attempt-true (ok _) o h = (refl, with_true-ok o h)
  attempt-true (err e) o h = absurd (ground arith)

  -- A peer whose update is accepted holds a valid token with a chain of delegations from the owner,
  -- in which every parent may update the resource.
  pub validate_authority_for_update-Chain :
      (fuel : ℕ) (token peer root resource_id domain : String)
      → validate_authority_for_update lib fuel token peer root resource_id domain resolve
        ≡ some (ok true)
      → (u : Ucan) × (validate_structure lib token ≡ ok u)
        × (verify_did_key_match lib u.audience peer ≡ ok tt)
        × Chain lib root resolve (resource_uri domain resource_id) "crud/update" u
  validate_authority_for_update-Chain fuel token peer root resource_id domain h =
      elim (Result-cases (validate_structure lib token)) [
        | inr (x, e) ↦
            absurd (ground (arith, no_structure fuel token peer root resource_id domain x e))
        | inl (u, e) ↦
            let (m, c) =
              attempt-true _ _ (sym (authority fuel token peer root resource_id domain u e) ∙ h) in
            (
              u,
              e,
              validate_audience-match lib u peer m,
              validate_ucan_permission-Chain lib root resolve (resource_uri domain resource_id)
                  "crud/update" fuel u c,
            )
      ]

  -- A valid token that its holder presents is accepted when a line of delegations leads from it to
  -- one that the owner issued, with fuel above the length of the line.
  pub validate_authority_for_update-Line :
      (n fuel : ℕ) (token peer root resource_id domain : String) (u : Ucan)
      → validate_structure lib token ≡ ok u
      → verify_did_key_match lib u.audience peer ≡ ok tt
      → Line lib root resolve (resource_uri domain resource_id) "crud/update" n u
      → n < fuel
      → validate_authority_for_update lib fuel token peer root resource_id domain resolve
        ≡ some (ok true)
  validate_authority_for_update-Line n fuel token peer root resource_id domain u e m l b =
      authority fuel token peer root resource_id domain u e
      ∙ rw
          (
            match-validate_audience lib u peer m,
            validate_ucan_permission-Line lib root resolve (resource_uri domain resource_id)
                "crud/update" n fuel u l b,
          )
          refl
