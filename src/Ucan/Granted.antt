-- ===== src/Ucan/Granted.antt =====
-- When `validate_ucan_permission` of crypto_utils/src/ucan_utils.rs gives a result, and which tokens it
-- accepts.
use osvauld.Prelude.{
  ℕ, zero, suc, ◌<◌, String, Bool-cases, Option, Option-cases, none, some, List, [], ◌∷◌, ◌≡◌, refl,
  ap, inl, inr, arith, true, contains, eq_refl,
}
use osvauld.Token.{
  Library, Ucan, Capability, public_key_mismatch, is_mismatch, delegation_not_permitted,
  proof_chain_invalid, proof_required, Result, ok, err, check_capability,
}
use osvauld.Ucan.{verify_did_key_match, parent_of, try_proofs, by_proofs, validate_ucan_permission}
use osvauld.Ucan.Parents.{Result-cases, IsParent, IsParent-parent_of, IsRanked}

in_head : (x : String) (xs : List String) → contains (x ∷ xs) x ≡ true
unfolding contains
in_head x xs = ground (arith, eq_refl x)

in_tail :
    (x : String) (xs : List String) (y : String) → contains xs y ≡ true → contains (x ∷ xs) y ≡ true
unfolding contains
in_tail x xs y h = ground arith

module _ (lib : Library) (verifier : String) (resolve : String → Option String)
    (resource ability : String) where
  abbrev Validate : Type 0
  Validate = Ucan → Option (Result (Unit {0}))

  try_proofs-some :
      (validate : Validate) (u : Ucan) (cids : List String)
      → ((cid : String) (p : Ucan)
          → contains cids cid ≡ true
          → parent_of lib resolve u cid ≡ some p
          → (r : Result (Unit {0})) × (validate p ≡ some r))
      → (r : Result (Unit {0})) × (try_proofs lib verifier resolve resource ability validate u cids
          ≡ some r)
  unfolding try_proofs
  try_proofs-some validate u [] h = (err proof_chain_invalid, refl)
  try_proofs-some validate u (cid ∷ cids) h =
      let (r, e) = try_proofs-some validate u cids λ x p m. h x p (in_tail cid cids x m) in
      elim (Option-cases (parent_of lib resolve u cid)) [
        | inl n ↦ (r, ground arith)
        | inr (p, f) ↦ elim (Result-cases (check_capability p resource ability)) [
          | inr (x, g) ↦ (err delegation_not_permitted, ground arith)
          | inl (_, g) ↦
              let (q, k) = h cid p (in_head cid cids) f in
              elim (Result-cases q) [
                | inl (_, i) ↦ (ok tt, ground arith)
                | inr (x, i) ↦ (r, ground arith)
              ]
        ]
      ]

  by_proofs-some :
      (validate : Validate) (u : Ucan) (o : Option (List String))
      → ((cids : List String) (cid : String) (p : Ucan)
          → o ≡ some cids
          → contains cids cid ≡ true
          → parent_of lib resolve u cid ≡ some p
          → (r : Result (Unit {0})) × (validate p ≡ some r))
      → (r : Result (Unit {0})) × (by_proofs lib verifier resolve resource ability validate u o
          ≡ some r)
  unfolding by_proofs
  by_proofs-some validate u none h = (err proof_required, refl)
  by_proofs-some validate u (some []) h = (err proof_required, refl)
  by_proofs-some validate u (some (cid ∷ cids)) h =
      try_proofs-some validate u (cid ∷ cids) λ x p. h (cid ∷ cids) x p refl

  -- Where the proofs that tokens list lead to lower ranks, fuel above the rank of a token gives a result.
  pub validate_ucan_permission-some :
      (rank : Ucan → ℕ)
      → IsRanked lib resolve rank
      → (fuel : ℕ) (u : Ucan) → rank u < fuel
      → (r : Result (Unit {0})) × (validate_ucan_permission lib verifier resolve resource ability
            fuel u
          ≡ some r)
  unfolding validate_ucan_permission
  validate_ucan_permission-some rank ranked zero u b = absurd (omega arith)
  validate_ucan_permission-some rank ranked (suc fuel) u b =
      let (r, d) =
        by_proofs-some (validate_ucan_permission lib verifier resolve resource ability fuel) u
          u.proofs
          λ cids cid p o m e.
            validate_ucan_permission-some rank ranked fuel p
              (omega (arith, ranked u p cids cid o m e)) in
      elim (Result-cases (verify_did_key_match lib u.issuer verifier)) [
        | inl (_, e) ↦ (ok tt, ground arith)
        | inr (x, e) ↦ elim (Bool-cases (is_mismatch x)) [
          | inl m ↦ (r, ground arith)
          | inr m ↦ (err x, ground arith)
        ]
      ]

  -- Tokens that list one proof each, from a token down to one that the verifier issued.
  pub data Line : ℕ → Ucan → Type 0 where
    issued : (u : Ucan) → verify_did_key_match lib u.issuer verifier ≡ ok tt → Line 0 u
    one_proof :
        (n : ℕ) (u parent : Ucan) (cid : String)
        → verify_did_key_match lib u.issuer verifier ≡ err public_key_mismatch
        → u.proofs ≡ some (cid ∷ [])
        → IsParent lib resolve u cid parent
        → check_capability parent resource ability ≡ ok tt
        → Line n parent
        → Line (suc n) u

  by_proofs_one :
      (validate : Validate) (u p : Ucan) (cid : String)
      → check_capability p resource ability ≡ ok tt
      → parent_of lib resolve u cid ≡ some p
      → validate p ≡ some (ok tt)
      → by_proofs lib verifier resolve resource ability validate u (some (cid ∷ [])) ≡ some (ok tt)
  unfolding by_proofs try_proofs
  by_proofs_one validate u p cid c q v = ground arith

  -- A line of delegations is accepted, with fuel above its length.
  pub validate_ucan_permission-Line :
      (n fuel : ℕ) (u : Ucan)
      → Line n u
      → n < fuel
      → validate_ucan_permission lib verifier resolve resource ability fuel u ≡ some (ok tt)
  unfolding validate_ucan_permission
  validate_ucan_permission-Line n zero u l b = absurd (omega arith)
  validate_ucan_permission-Line zero (suc fuel) u (issued _ e) b = ground arith
  validate_ucan_permission-Line (suc n) (suc fuel) u (one_proof _ _ p cid e s i c l) b =
      let v = validate_ucan_permission-Line n fuel p l (omega arith) in
      let d =
        by_proofs_one (validate_ucan_permission lib verifier resolve resource ability fuel) u p cid
          c (IsParent-parent_of lib resolve u cid p i) v in
      ground (
        arith,
        ap
            (by_proofs lib verifier resolve resource ability
              (validate_ucan_permission lib verifier resolve resource ability fuel) u)
            s,
      )

  try_proofs_own :
      (cs : List Capability) (validate : Validate) (u : Ucan) (cids : List String)
      → try_proofs lib verifier resolve resource ability validate
          (record u { capabilities = cs })
          cids
        ≡ try_proofs lib verifier resolve resource ability validate u cids
  unfolding try_proofs
  try_proofs_own cs validate u [] = refl
  try_proofs_own cs validate u (cid ∷ cids) =
      let same : parent_of lib resolve (record u { capabilities = cs }) cid
          ≡ parent_of lib resolve u cid =
        unfold parent_of in refl in
      ground (arith, same, try_proofs_own cs validate u cids)

  by_proofs_own :
      (cs : List Capability) (validate : Validate) (u : Ucan) (o : Option (List String))
      → by_proofs lib verifier resolve resource ability validate (record u { capabilities = cs }) o
        ≡ by_proofs lib verifier resolve resource ability validate u o
  unfolding by_proofs
  by_proofs_own cs validate u none = refl
  by_proofs_own cs validate u (some []) = refl
  by_proofs_own cs validate u (some (cid ∷ cids)) = try_proofs_own cs validate u (cid ∷ cids)

  -- What a token itself claims has no influence on the result.
  pub validate_ucan_permission_own :
      (cs : List Capability) (fuel : ℕ) (u : Ucan)
      → validate_ucan_permission lib verifier resolve resource ability fuel
          (record u { capabilities = cs })
        ≡ validate_ucan_permission lib verifier resolve resource ability fuel u
  unfolding validate_ucan_permission
  validate_ucan_permission_own cs zero u = refl
  validate_ucan_permission_own cs (suc fuel) u = ground (
    arith,
    by_proofs_own cs (validate_ucan_permission lib verifier resolve resource ability fuel) u
        u.proofs,
  )
