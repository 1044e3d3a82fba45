-- ===== src/ResourceKeys/Lookup.antt =====
-- The key that a table has for a resource and a user, and the ids of its rows.
use osvauld.Prelude.{
  String, ◌==◌, eq_iff, Bool, Bool-cases, Option, true, false, ◌||◌, none, some, [], ◌∷◌,
  if◌then◌else◌, filter, find, push, or_else, contains, All, ◌≡◌, refl, ap, ◌∙◌, inl, inr, arith,
}
use osvauld.ResourceKeys.{ResourceKey, KeyRows, key_ids, is_for, find_by_resource_id}

unfoldable pub key_of : String → String → KeyRows → Option ResourceKey
key_of r u rows = find (is_for r u) rows

unfoldable pub has_id : String → KeyRows → Bool
has_id a rows = contains (key_ids rows) a

pub key_of-cons :
    (r u : String) (k : ResourceKey) (rows : KeyRows)
    → key_of r u (k ∷ rows) ≡ (if is_for r u k then some k else key_of r u rows)
unfolding key_of
key_of-cons r u k rows = refl

pub key_of-nil : (r u : String) → key_of r u [] ≡ none
unfolding key_of
key_of-nil r u = refl

pub has_id-cons :
    (a : String) (k : ResourceKey) (rows : KeyRows)
    → has_id a (k ∷ rows) ≡ k.id == a || has_id a rows
unfolding has_id contains
has_id-cons a k rows = refl

pub has_id-nil : (a : String) → has_id a [] ≡ false
unfolding has_id contains
has_id-nil a = refl

pub key_of-push :
    (r u : String) (k : ResourceKey) (rows : KeyRows)
    → key_of r u (push rows k) ≡ or_else (key_of r u rows) (if is_for r u k then some k else none)
key_of-push r u k [] = rw (key_of-cons r u k [], key_of-nil r u) refl
key_of-push r u k (x ∷ rows) =
    rw (key_of-cons r u x (push rows k), key_of-cons r u x rows, key_of-push r u k rows)
      (ground arith)

pub has_id-push :
    (a : String) (k : ResourceKey) (rows : KeyRows)
    → has_id a (push rows k) ≡ has_id a rows || k.id == a
has_id-push a k [] = ground (arith, has_id-cons a k [], has_id-nil a)
has_id-push a k (x ∷ rows) =
    ground (arith, has_id-cons a x (push rows k), has_id-cons a x rows, has_id-push a k rows)

-- The two unique columns of the table.
abbrev pub IsTable : KeyRows → Type 0
IsTable [] = Unit
IsTable (k ∷ rows) =
    (has_id k.id rows ≡ false) × (key_of k.resource_id k.user_id rows ≡ none) × IsTable rows

pub key_of-find :
    (r u : String) (rows : KeyRows) → key_of r u (find_by_resource_id r rows) ≡ key_of r u rows
unfolding find_by_resource_id key_of
key_of-find r u [] = refl
key_of-find r u (k ∷ rows) = ground (arith, key_of-find r u rows)

pub key_of-id :
    (r u : String) (rows : KeyRows) (k : ResourceKey)
    → key_of r u rows ≡ some k
    → has_id k.id rows ≡ true
key_of-id r u [] k h = absurd (ground (arith, key_of-nil r u))
key_of-id r u (x ∷ rows) k h = elim (Bool-cases (is_for r u x)) [
  | inl t ↦
      let same : x ≡ k = ground (arith, key_of-cons r u x rows) in
      ground (arith, ap (λ y. y.id) same, eq_iff x.id k.id, has_id-cons k.id x rows)
  | inr f ↦ ground (
    arith,
    key_of-id r u rows k (ground (arith, key_of-cons r u x rows)),
    has_id-cons k.id x rows,
  )
]

-- A subset of the rows.
module _ (p : ResourceKey → Bool) where
  pub has_id-filter :
      (a : String) (rows : KeyRows) → has_id a rows ≡ false → has_id a (filter p rows) ≡ false
  has_id-filter a [] h = h
  has_id-filter a (k ∷ rows) h =
      ground (arith, has_id-cons a k rows, has_id-cons a k (filter p rows), has_id-filter a rows)

  pub key_of-filter-none :
      (r u : String) (rows : KeyRows) → key_of r u rows ≡ none → key_of r u (filter p rows) ≡ none
  key_of-filter-none r u [] h = h
  key_of-filter-none r u (k ∷ rows) h = ground (
    arith,
    key_of-cons r u k rows,
    key_of-cons r u k (filter p rows),
    key_of-filter-none r u rows,
  )

  pub key_of-filter-some :
      (r u : String) (rows : KeyRows) (k : ResourceKey)
      → key_of r u rows ≡ some k
      → p k ≡ true
      → key_of r u (filter p rows) ≡ some k
  key_of-filter-some r u [] k h t = h
  key_of-filter-some r u (x ∷ rows) k h t = elim (Bool-cases (is_for r u x)) [
    | inl i ↦
        let same : x ≡ k = ground (arith, key_of-cons r u x rows) in
        rw (ap p same ∙ t, key_of-cons r u x (filter p rows), i, same) refl
    | inr f ↦
        let rest = key_of-filter-some r u rows k (ground (arith, key_of-cons r u x rows)) t in
        ground (arith, rest, key_of-cons r u x (filter p rows))
  ]

  pub filter-IsTable : (rows : KeyRows) → IsTable rows → IsTable (filter p rows)
  filter-IsTable [] t = tt
  filter-IsTable (k ∷ rows) (i, s, t) = elim (Bool-cases (p k)) [
    | inl h ↦ rw h (
      has_id-filter k.id rows i,
      key_of-filter-none k.resource_id k.user_id rows s,
      filter-IsTable rows t,
    )
    | inr h ↦ rw h (filter-IsTable rows t)
  ]

  pub All-filter : (P : ResourceKey → Type 0) (rows : KeyRows) → All P rows → All P (filter p rows)
  All-filter P [] a = tt
  All-filter P (k ∷ rows) (x, a) = elim (Bool-cases (p k)) [
    | inl h ↦ rw h (x, All-filter P rows a)
    | inr h ↦ rw h (All-filter P rows a)
  ]
