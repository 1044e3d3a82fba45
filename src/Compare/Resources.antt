-- ===== src/Compare/Resources.antt =====
-- `compare_share_records` and `compare_resources_for_common_resources` of
-- services/src/sync_service.rs: which resources they report.
use osvauld.Prelude.{
  String, ◌==◌, eq_iff, eq_refl, Bool-cases, true, false, ◌&&◌, List, [], ◌∷◌, all, contains,
  to_set, contains-to_set, ◌≡◌, refl, sym, ap, ◌∙◌, ◌↔◌, inl, inr, arith,
}
use osvauld.VectorClock.Search.{IsUnique, clock_of}
use osvauld.Manifest.{ResourceManifestData}
use osvauld.Differences.{
  lookup, both, resource_key, set_eq, compare_share_records, needs_sync, needs_sync_both,
  compare_resources_for_common_resources,
}
use osvauld.Compare.Common.{contains-cons}
use osvauld.Compare.Clocks.{vector_clocks_need_update_lem}

all-contains_sound :
    (xs ys : List String)
    → all (contains ys) xs ≡ true
    → (a : String) → contains xs a ≡ true
    → contains ys a ≡ true
all-contains_sound [] ys h a m = absurd (unfold contains in ground arith)
all-contains_sound (x ∷ xs) ys h a m =
    let here : x == a ≡ true → contains ys x ≡ contains ys a =
      λ t. ap (contains ys) ((eq_iff x a).0 t) in
    ground (arith, here, contains-cons x xs a, all-contains_sound xs ys (ground arith) a)

all-contains_complete :
    (xs ys : List String)
    → ((a : String) → contains xs a ≡ true → contains ys a ≡ true)
    → all (contains ys) xs ≡ true
all-contains_complete [] ys h = refl
all-contains_complete (x ∷ xs) ys h =
    let rest = all-contains_complete xs ys (λ a m. h a (ground (arith, contains-cons x xs a))) in
    ground (arith, rest, h x, contains-cons x xs x, eq_refl x)

set_eq-same :
    (xs ys : List String) → (set_eq xs ys ≡ true) ↔ ((a : String) → contains xs a ≡ contains ys a)
unfolding set_eq
set_eq-same xs ys = (
  (λ h a. ground (
    arith,
    all-contains_sound xs ys (ground arith) a,
    all-contains_sound ys xs (ground arith) a,
  )),
  λ h. ground (
    arith,
    all-contains_complete xs ys (λ a m. sym (h a) ∙ m),
    all-contains_complete ys xs (λ a m. h a ∙ m),
  ),
)

pub share_records-same :
    (xs ys : List String)
    → (compare_share_records xs ys ≡ false) ↔ ((a : String) → contains xs a ≡ contains ys a)
unfolding compare_share_records
share_records-same xs ys = (
  (λ h a.
      sym (contains-to_set xs a)
      ∙ (set_eq-same (to_set xs) (to_set ys)).0 (ground arith) a
      ∙ contains-to_set ys a),
  λ h. ground (
    arith,
    (set_eq-same (to_set xs) (to_set ys)).1
        (λ a. contains-to_set xs a ∙ h a ∙ sym (contains-to_set ys a)),
  ),
)

-- A resource is in sync when both sides have the same share records and the same vector clock.
pub record InSync (l r : ResourceManifestData) : Type 0 where
  pub records : (a : String) → contains l.share_record_ids a ≡ contains r.share_record_ids a
  pub clocks : (d : String) → clock_of l.vector_clocks d ≡ clock_of r.vector_clocks d

-- Where the local clock has one entry for a device, a common resource is reported exactly when it
-- is not in sync.
pub needs_sync-InSync :
    (l r : ResourceManifestData) → IsUnique l.vector_clocks → (needs_sync l r ≡ false) ↔ InSync l r
unfolding needs_sync
needs_sync-InSync l r u = (
  (λ h. record {
    records = (share_records-same l.share_record_ids r.share_record_ids).0 (ground arith);
    clocks = (vector_clocks_need_update_lem l.vector_clocks r.vector_clocks u).0 (ground arith);
  }),
  λ s. ground (
    arith,
    (share_records-same l.share_record_ids r.share_record_ids).1 s.records,
    (vector_clocks_need_update_lem l.vector_clocks r.vector_clocks u).1 s.clocks,
  ),
)

InSync-comm : (l r : ResourceManifestData) → InSync l r → InSync r l
InSync-comm l r s = record { records = λ a. sym (s.records a); clocks = λ d. sym (s.clocks d) }

pub needs_sync_comm :
    (l r : ResourceManifestData)
    → IsUnique l.vector_clocks
    → IsUnique r.vector_clocks
    → needs_sync l r ≡ needs_sync r l
needs_sync_comm l r u v = elim (Bool-cases (needs_sync l r)) [
  | inr f ↦ f ∙ sym ((needs_sync-InSync r l v).1 (InSync-comm l r ((needs_sync-InSync l r u).0 f)))
  | inl t ↦ elim (Bool-cases (needs_sync r l)) [
    | inl s ↦ t ∙ sym s
    | inr g ↦ absurd (
        ground
          (arith, (needs_sync-InSync l r u).1 (InSync-comm r l ((needs_sync-InSync r l v).0 g))))
  ]
]

pub compare_resources_lem :
    (ls rs : List ResourceManifestData) (ids : List String) (a : String)
    → contains (compare_resources_for_common_resources ls rs ids) a
      ≡ contains ids a
        && needs_sync_both (both (lookup resource_key ls a) (lookup resource_key rs a))
unfolding compare_resources_for_common_resources
compare_resources_lem ls rs [] a = unfold contains in refl
compare_resources_lem ls rs (id ∷ ids) a =
    let same : id == a ≡ true
        → needs_sync_both (both (lookup resource_key ls id) (lookup resource_key rs id))
          ≡ needs_sync_both (both (lookup resource_key ls a) (lookup resource_key rs a)) =
      λ t.
        ap (λ x. needs_sync_both (both (lookup resource_key ls x) (lookup resource_key rs x)))
          ((eq_iff id a).0 t) in
    ground (
      arith,
      same,
      compare_resources_lem ls rs ids a,
      contains-cons id ids a,
      contains-cons id (compare_resources_for_common_resources ls rs ids) a,
    )
