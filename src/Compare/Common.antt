-- ===== src/Compare/Common.antt =====
-- The sets and maps of services/src/sync_service.rs, by their elements.
use osvauld.Prelude.{
  String, ◌==◌, Bool, false, not, ◌&&◌, ◌||◌, Option, Option-cases, none, List, [], ◌∷◌, map,
  is_some, contains, to_set, difference, intersection, contains-to_set, contains-difference,
  contains-intersection, ◌≡◌, refl, inl, inr, arith,
}
use osvauld.Differences.{lookup, both}

pub contains-cons :
    (x : String) (xs : List String) (a : String) → contains (x ∷ xs) a ≡ (x == a) || contains xs a
unfolding contains
contains-cons x xs a = refl

-- A key that the list has is found.
pub is_some-lookup :
    {A : Type 0} (key : A → String) (xs : List A) (k : String)
    → is_some (lookup key xs k) ≡ contains (map key xs) k
is_some-lookup key [] k = unfold contains in refl
is_some-lookup key (x ∷ xs) k =
    ground (arith, contains-cons (key x) (map key xs) k, is_some-lookup key xs k)

-- The elements that only the first list has.
pub contains-only :
    (xs ys : List String) (a : String)
    → contains (difference (to_set xs) (to_set ys)) a ≡ contains xs a && not (contains ys a)
contains-only xs ys a = ground (
  arith,
  contains-difference (to_set xs) (to_set ys) a,
  contains-to_set xs a,
  contains-to_set ys a,
)

-- A key that both sides have is a common key.
pub common-both :
    {A : Type 0} (key : A → String) (xs ys : List A) (a : String) (p : Option (A × A) → Bool)
    → p none ≡ false
    → contains (intersection (to_set (map key xs)) (to_set (map key ys))) a
        && p (both (lookup key xs a) (lookup key ys a))
      ≡ p (both (lookup key xs a) (lookup key ys a))
common-both key xs ys a p h =
    let both_sides = contains-intersection (to_set (map key xs)) (to_set (map key ys)) a in
    let left = contains-to_set (map key xs) a in
    let right = contains-to_set (map key ys) a in
    let found = is_some-lookup key xs a in
    let found' = is_some-lookup key ys a in
    elim (Option-cases (lookup key xs a)) [
      | inl n ↦ rw n (ground arith)
      | inr (x, e) ↦ elim (Option-cases (lookup key ys a)) [
        | inl n ↦ rw (e, n) (ground arith)
        | inr (y, f) ↦ ground arith
      ]
    ]

pub common-flip :
    {A : Type 0} (key : A → String) (xs ys : List A) (a : String) (p : Option (A × A) → Bool)
    → p none ≡ false
    → contains (intersection (to_set (map key xs)) (to_set (map key ys))) a
        && p (both (lookup key ys a) (lookup key xs a))
      ≡ p (both (lookup key ys a) (lookup key xs a))
common-flip key xs ys a p h =
    let here = contains-intersection (to_set (map key xs)) (to_set (map key ys)) a in
    let there = contains-intersection (to_set (map key ys)) (to_set (map key xs)) a in
    ground (arith, common-both key ys xs a p h)
