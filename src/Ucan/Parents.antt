-- ===== src/Ucan/Parents.antt =====
-- The tokens behind the proofs of a token, for `validate_ucan_permission` of
-- crypto_utils/src/ucan_utils.rs.
use osvauld.Prelude.{
  ℕ, ◌<◌, String, eq_iff, Option, Option-cases, some, true, List, contains, ◌≡◌, refl, ◌⊎◌, inl,
  inr, arith,
}
use osvauld.Token.{Library, Ucan, UcanError, Result, ok, err}
use osvauld.Ucan.{validate_structure, parent_of}

pub Result-cases :
    {A : Type 0} (r : Result A) → ((a : A) × (r ≡ ok a)) ⊎ ((e : UcanError) × (r ≡ err e))
Result-cases (ok a) = inl (a, refl)
Result-cases (err e) = inr (e, refl)

module _ (lib : Library) (resolve : String → Option String) where
  -- `parent` is the token behind the proof `cid`, structurally valid and held by the issuer of `u`.
  abbrev pub IsParent : Ucan → String → Ucan → Type 0
  IsParent u cid parent =
      (token : String) × (resolve cid ≡ some token)
      × (validate_structure lib token ≡ ok parent)
      × (parent.audience ≡ u.issuer)

  pub parent_of-IsParent :
      (u : Ucan) (cid : String) (p : Ucan) → parent_of lib resolve u cid ≡ some p → IsParent u cid p
  unfolding parent_of
  parent_of-IsParent u cid p h = elim (Option-cases (resolve cid)) [
    | inl n ↦ absurd (ground arith)
    | inr (t, e) ↦ elim (Result-cases (validate_structure lib t)) [
      | inl (q, f) ↦ (
        t,
        e,
        ground (arith, eq_iff q.audience u.issuer),
        ground (arith, eq_iff q.audience u.issuer),
      )
      | inr (x, f) ↦ absurd (ground arith)
    ]
  ]

  pub IsParent-parent_of :
      (u : Ucan) (cid : String) (p : Ucan) → IsParent u cid p → parent_of lib resolve u cid ≡ some p
  unfolding parent_of
  IsParent-parent_of u cid p (t, e, f, g) = ground (arith, eq_iff p.audience u.issuer)

  -- The proofs that a token lists lead to tokens of lower rank, so no chain of them comes back to where
  -- it was. A token that lists none may be held by its own issuer.
  abbrev pub IsRanked : (Ucan → ℕ) → Type 0
  IsRanked rank =
      (u p : Ucan) (cids : List String) (cid : String)
      → u.proofs ≡ some cids
      → contains cids cid ≡ true
      → parent_of lib resolve u cid ≡ some p
      → rank p < rank u
