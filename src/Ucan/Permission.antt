-- ===== src/Ucan/Permission.antt =====
-- What `validate_ucan_permission` of crypto_utils/src/ucan_utils.rs accepts is a chain of delegations.
use osvauld.Prelude.{
  ℕ, zero, suc, String, true, Option, Option-cases, none, some, List, [], ◌∷◌, contains, ◌≡◌, refl,
  inl, inr, arith, eq_refl,
}
use osvauld.Token.{Library, Ucan, Result, ok, check_capability}
use osvauld.Ucan.{verify_did_key_match, parent_of, try_proofs, by_proofs, validate_ucan_permission}
use osvauld.Ucan.Parents.{Result-cases, IsParent, parent_of-IsParent}

module _ (lib : Library) (verifier : String) (resolve : String → Option String)
    (resource ability : String) where
  -- A chain of delegations from the verifier: each parent grants the permission.
  pub data Chain : Ucan → Type 0 where
    direct : (u : Ucan) → verify_did_key_match lib u.issuer verifier ≡ ok tt → Chain u
    delegated :
        (u parent : Ucan) (cids : List String) (cid : String)
        → u.proofs ≡ some cids
        → contains cids cid ≡ true
        → IsParent lib resolve u cid parent
        → check_capability parent resource ability ≡ ok tt
        → Chain parent
        → Chain u

  abbrev Validate : Type 0
  Validate = Ucan → Option (Result (Unit {0}))

  -- The loop succeeds at one proof: its parent grants the permission and is itself valid.
  abbrev Found : Validate → Ucan → List String → Type 0
  Found validate u cids =
      (cid : String) × (p : Ucan) × (contains cids cid ≡ true)
      × (parent_of lib resolve u cid ≡ some p)
      × (check_capability p resource ability ≡ ok tt)
      × (validate p ≡ some (ok tt))

  Found-cons :
      (validate : Validate) (u : Ucan) (cid : String) (cids : List String)
      → Found validate u cids
      → Found validate u (cid ∷ cids)
  unfolding contains
  Found-cons validate u cid cids (c, p, m, e, f, g) = (c, p, ground arith, e, f, g)

  try_proofs-Found :
      (validate : Validate) (u : Ucan) (cids : List String)
      → try_proofs lib verifier resolve resource ability validate u cids ≡ some (ok tt)
      → Found validate u cids
  unfolding try_proofs contains
  try_proofs-Found validate u [] h = absurd (ground arith)
  try_proofs-Found validate u (cid ∷ cids) h =
      let later : try_proofs lib verifier resolve resource ability validate u cids ≡ some (ok tt)
          → Found validate u (cid ∷ cids) =
        λ t. Found-cons validate u cid cids (try_proofs-Found validate u cids t) in
      elim (Option-cases (parent_of lib resolve u cid)) [
        | inl n ↦ later (ground arith)
        | inr (p, e) ↦ elim (Result-cases (check_capability p resource ability)) [
          | inr (x, f) ↦ absurd (ground arith)
          | inl (_, f) ↦ elim (Option-cases (validate p)) [
            | inl n ↦ absurd (ground arith)
            | inr (r, g) ↦ elim (Result-cases r) [
              | inl (_, k) ↦ (cid, p, ground (arith, eq_refl cid), e, ground arith, ground arith)
              | inr (x, k) ↦ later (ground arith)
            ]
          ]
        ]
      ]

  by_proofs-Found :
      (validate : Validate) (u : Ucan) (o : Option (List String))
      → by_proofs lib verifier resolve resource ability validate u o ≡ some (ok tt)
      → (cids : List String) × (o ≡ some cids) × Found validate u cids
  unfolding by_proofs
  by_proofs-Found validate u none h = absurd (ground arith)
  by_proofs-Found validate u (some []) h = absurd (ground arith)
  by_proofs-Found validate u (some (cid ∷ cids)) h =
      (cid ∷ cids, refl, try_proofs-Found validate u (cid ∷ cids) h)

  -- A token that is accepted has a chain of delegations from the verifier.
  pub validate_ucan_permission-Chain :
      (fuel : ℕ) (u : Ucan)
      → validate_ucan_permission lib verifier resolve resource ability fuel u ≡ some (ok tt)
      → Chain u
  unfolding validate_ucan_permission
  validate_ucan_permission-Chain zero u h = absurd (ground arith)
  validate_ucan_permission-Chain (suc fuel) u h =
      elim (Result-cases (verify_did_key_match lib u.issuer verifier)) [
        | inl (_, e) ↦ direct u e
        | inr (x, e) ↦
            let (cids, s, (cid, p, m, f, g, v)) =
              by_proofs-Found (validate_ucan_permission lib verifier resolve resource ability fuel)
                u u.proofs (ground arith) in
            delegated u p cids cid s m (parent_of-IsParent lib resolve u cid p f) g
              (validate_ucan_permission-Chain fuel p v)
      ]
