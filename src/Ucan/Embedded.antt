-- ===== src/Ucan/Embedded.antt =====
-- `validate_embedded_proof_chain` of crypto_utils/src/ucan_utils.rs against the chains of embedded
-- tokens that it is to accept.
use osvauld.Prelude.{
  ℕ, zero, suc, ◌<◌, String, Bool-cases, true, Option, some, ◌≡◌, refl, ap, ◌∙◌, ◌↔◌, inl, inr,
  arith,
}
use osvauld.Token.{
  Library, Ucan, Result, ok, err, check_capability, connect_resource, matches_expected,
}
use osvauld.Ucan.{
  verify_did_key_match, validate_structure, check_link, nested_proof, validate_embedded_proof_chain,
}
use osvauld.Ucan.Parents.{Result-cases}

module _ (lib : Library) where
  -- A token is smaller than the token that embeds it.
  abbrev pub IsNested : (String → ℕ) → Type 0
  IsNested size =
      (token nested : String) (u : Ucan)
      → validate_structure lib token ≡ ok u
      → nested_proof lib u ≡ ok nested
      → size nested < size token

module _ (lib : Library) (target_user_id target_user_ucan_pub domain : String) where
  -- `u` is the token of the text `token`; it is held by the expected user and lets its holder
  -- connect to the target.
  pub record IsLink (token : String) (expected : Option String) (u : Ucan) : Type 0 where
    pub structure : validate_structure lib token ≡ ok u
    pub audience : matches_expected expected u.audience ≡ true
    pub capability : check_capability u (connect_resource domain target_user_id) "use" ≡ ok tt

  -- A token that the target issued, or one whose embedded token is such a chain held by its issuer.
  pub data Embedded : String → Option String → Type 0 where
    issued :
        (token : String) (expected : Option String) (u : Ucan)
        → IsLink token expected u
        → verify_did_key_match lib u.issuer target_user_ucan_pub ≡ ok tt
        → Embedded token expected
    embeds :
        (token : String) (expected : Option String) (u : Ucan) (nested : String)
        → IsLink token expected u
        → nested_proof lib u ≡ ok nested
        → Embedded nested (some u.issuer)
        → Embedded token expected

  check_link-IsLink :
      (token : String) (expected : Option String) (u : Ucan)
      → check_link lib target_user_id target_user_ucan_pub domain token expected ≡ ok u
      → IsLink token expected u
  unfolding check_link
  check_link-IsLink token expected u h = elim (Result-cases (validate_structure lib token)) [
    | inr (x, e) ↦ absurd (ground arith)
    | inl (v, e) ↦ elim (Bool-cases (matches_expected expected v.audience)) [
      | inr f ↦ absurd (ground arith)
      | inl f ↦
          elim (Result-cases (check_capability v (connect_resource domain target_user_id) "use")) [
            | inr (x, g) ↦ absurd (ground arith)
            | inl (_, g) ↦ record {
              structure = ground arith;
              audience = ground arith;
              capability = ground arith;
            }
          ]
    ]
  ]

  IsLink-check_link :
      (token : String) (expected : Option String) (u : Ucan)
      → IsLink token expected u
      → check_link lib target_user_id target_user_ucan_pub domain token expected ≡ ok u
  unfolding check_link
  IsLink-check_link token expected u l = rw (l.structure, l.audience, l.capability) refl

  -- A chain that is accepted is one, and with enough fuel every such chain is accepted.
  Embedded-sound :
      (fuel : ℕ) (token : String) (expected : Option String)
      → validate_embedded_proof_chain lib target_user_id target_user_ucan_pub domain fuel token
          expected
        ≡ some (ok tt)
      → Embedded token expected
  unfolding validate_embedded_proof_chain
  Embedded-sound zero token expected h = absurd (ground arith)
  Embedded-sound (suc fuel) token expected h =
      elim (Result-cases
        (check_link lib target_user_id target_user_ucan_pub domain token expected)) [
          | inr (x, e) ↦ absurd (ground arith)
          | inl (u, e) ↦
              elim (Result-cases (verify_did_key_match lib u.issuer target_user_ucan_pub)) [
                | inl (_, f) ↦ issued token expected u (check_link-IsLink token expected u e) f
                | inr (x, f) ↦ elim (Result-cases (nested_proof lib u)) [
                  | inr (y, g) ↦ absurd (ground arith)
                  | inl (nested, g) ↦
                      embeds token expected u nested (check_link-IsLink token expected u e) g
                        (Embedded-sound fuel nested (some u.issuer) (ground arith))
                ]
              ]
        ]

  validate_embedded-issued :
      (fuel : ℕ) (token : String) (expected : Option String) (u : Ucan)
      → IsLink token expected u
      → verify_did_key_match lib u.issuer target_user_ucan_pub ≡ ok tt
      → validate_embedded_proof_chain lib target_user_id target_user_ucan_pub domain
          (suc fuel)
          token
          expected
        ≡ some (ok tt)
  unfolding validate_embedded_proof_chain
  validate_embedded-issued fuel token expected u l e =
      ground (arith, IsLink-check_link token expected u l)

  validate_embedded-embeds :
      (fuel : ℕ) (token : String) (expected : Option String) (u : Ucan) (nested : String)
      → IsLink token expected u
      → nested_proof lib u ≡ ok nested
      → validate_embedded_proof_chain lib target_user_id target_user_ucan_pub domain fuel nested
          (some u.issuer)
        ≡ some (ok tt)
      → validate_embedded_proof_chain lib target_user_id target_user_ucan_pub domain
          (suc fuel)
          token
          expected
        ≡ some (ok tt)
  unfolding validate_embedded_proof_chain
  validate_embedded-embeds fuel token expected u nested l e v =
      ground (arith, IsLink-check_link token expected u l)

  Embedded-complete :
      (size : String → ℕ)
      → IsNested lib size
      → (fuel : ℕ) (token : String) (expected : Option String) → size token < fuel
      → Embedded token expected
      → validate_embedded_proof_chain lib target_user_id target_user_ucan_pub domain fuel token
          expected
        ≡ some (ok tt)
  Embedded-complete size nests zero token expected b c = absurd (omega arith)
  Embedded-complete size nests (suc fuel) token expected b (issued _ _ u l e) =
      validate_embedded-issued fuel token expected u l e
  Embedded-complete size nests (suc fuel) token expected b (embeds _ _ u nested l e c) =
      validate_embedded-embeds fuel token expected u nested l e (
        Embedded-complete size nests fuel nested (some u.issuer)
          (omega (arith, nests token nested u l.structure e)) c)

  validate_embedded-some :
      (size : String → ℕ)
      → IsNested lib size
      → (fuel : ℕ) (token : String) (expected : Option String) → size token < fuel
      → (r : Result (Unit {0})) × (validate_embedded_proof_chain lib target_user_id
            target_user_ucan_pub domain fuel token expected
          ≡ some r)
  unfolding validate_embedded_proof_chain
  validate_embedded-some size nests zero token expected b = absurd (omega arith)
  validate_embedded-some size nests (suc fuel) token expected b =
      elim (Result-cases
        (check_link lib target_user_id target_user_ucan_pub domain token expected)) [
          | inr (x, e) ↦ (err x, ground arith)
          | inl (u, e) ↦
              elim (Result-cases (verify_did_key_match lib u.issuer target_user_ucan_pub)) [
                | inl (_, f) ↦ (ok tt, ground arith)
                | inr (x, f) ↦ elim (Result-cases (nested_proof lib u)) [
                  | inr (y, g) ↦ (err y, ground arith)
                  | inl (nested, g) ↦
                      let (r, h) = validate_embedded-some size nests fuel nested (some u.issuer) (
                        omega (
                          arith,
                          nests token nested u (check_link-IsLink token expected u e).structure g,
                        )) in
                      (r, ground arith)
                ]
              ]
        ]

  -- Where an embedded token is smaller than the token around it, fuel above the size of the token
  -- decides: the result is `Ok` exactly when the token is a chain of embedded tokens that ends with
  -- one that the target issued.
  pub validate_embedded_proof_chain_lem :
      (size : String → ℕ)
      → IsNested lib size
      → (fuel : ℕ) (token : String) (expected : Option String) → size token < fuel
      → (r : Result (Unit {0})) × (validate_embedded_proof_chain lib target_user_id
            target_user_ucan_pub domain fuel token expected
          ≡ some r)
        × ((r ≡ ok tt) ↔ Embedded token expected)
  validate_embedded_proof_chain_lem size nests fuel token expected b =
      let (r, e) = validate_embedded-some size nests fuel token expected b in
      (
        r,
        e,
        (
          (λ h. Embedded-sound fuel token expected (e ∙ ap some h)),
          λ c. ground (arith, e, Embedded-complete size nests fuel token expected b c),
        ),
      )
