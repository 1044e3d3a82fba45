-- ===== src/ResourceKeys/Gains.antt =====
-- One insertion, and the batch of add_resource_keys of
-- persistance/src/repositories/resource_key_repository.rs: which keys and ids are there afterwards.
use osvauld.Prelude.{
  String, ◌==◌, eq_iff, Bool, Bool-cases, true, false, ◌||◌, none, some, List, [], ◌∷◌, push,
  contains, if◌then◌else◌, Option-cases, ◌≡◌, refl, ap, ◌∙◌, ◌⊎◌, inl, inr, arith, sym,
}
use osvauld.Repository.{Result-cases, ok}
use osvauld.ResourceKeys.{
  ResourceKey, KeyRows, key_ids, is_for, insert_new, insert_unless_there, insert_each,
}
use osvauld.ResourceKeys.Lookup.{key_of, has_id, key_of-push, has_id-push}
use osvauld.ResourceKeys.Batch.{or_else-none}

abbrev pub IsAmong : ResourceKey → List ResourceKey → Type 0
IsAmong k [] = ⊥
IsAmong k (x ∷ keys) = (x ≡ k) ⊎ IsAmong k keys

-- The key for a resource and a user is the old one, or there was none and it is one of `keys` whose id
-- was not there.
abbrev pub KeepsOrGains : List ResourceKey → String → String → KeyRows → KeyRows → Type 0
KeepsOrGains keys r u rows rows' =
    (key_of r u rows' ≡ key_of r u rows)
    ⊎ ((key_of r u rows ≡ none)
        × (k : ResourceKey) × IsAmong k keys
        × (has_id k.id rows ≡ false)
        × (is_for r u k ≡ true)
        × (key_of r u rows' ≡ some k))

module _ (admits : ResourceKey → Bool) where
  new-push :
      (k : ResourceKey) (rows rows' : KeyRows)
      → insert_new admits k rows ≡ ok rows'
      → (push rows k ≡ rows') × (key_of k.resource_id k.user_id rows ≡ none)
  unfolding insert_new key_of
  new-push k rows rows' e = elim (Option-cases (key_of k.resource_id k.user_id rows)) [
    | inr (l, s) ↦ absurd (ground arith)
    | inl n ↦ (ground arith, n)
  ]

  pub new-key_of :
      (k : ResourceKey) (rows rows' : KeyRows) (r u : String)
      → insert_new admits k rows ≡ ok rows'
      → key_of r u rows' ≡ (if is_for r u k then some k else key_of r u rows)
  new-key_of k rows rows' r u e =
      let (p, n) = new-push k rows rows' e in
      rw (← p, key_of-push r u k rows)
        (elim (Bool-cases (is_for r u k)) [
          | inr f ↦ rw f (or_else-none (key_of r u rows))
          | inl t ↦ let (i, j) = parts r u k t in rw (t, ← i, ← j, n) refl
        ])
    where
      parts :
          (r u : String) (k : ResourceKey)
          → is_for r u k ≡ true
          → (k.resource_id ≡ r) × (k.user_id ≡ u)
      parts r u k t = (
        ground (arith, eq_iff k.resource_id r),
        ground (arith, eq_iff k.user_id u, eq_iff k.resource_id r),
      )

  -- One insertion of a batch.
  unless-Gains :
      (k : ResourceKey) (rows rows' : KeyRows) (r u : String)
      → insert_unless_there admits k rows ≡ ok rows'
      → KeepsOrGains (k ∷ []) r u rows rows'
        × ((a : String) → has_id a rows' ≡ has_id a rows || k.id == a)
  unfolding insert_unless_there has_id contains
  unless-Gains k rows rows' r u e = elim (Bool-cases (has_id k.id rows)) [
    | inl y ↦
        let same : rows ≡ rows' = ground arith in
        rw (← same) (inl refl, λ a. ground (arith, eq_iff k.id a))
    | inr h ↦
        let i : insert_new admits k rows ≡ ok rows' = ground arith in
        let (p, n) = new-push k rows rows' i in
        (
          gains k rows rows' r u h (new-key_of k rows rows' r u i) n,
          λ a. ap (λ ks. has_id a ks) (sym p) ∙ has_id-push a k rows,
        )
  ]
    where
      gains :
          (k : ResourceKey) (rows rows' : KeyRows) (r u : String)
          → has_id k.id rows ≡ false
          → key_of r u rows' ≡ (if is_for r u k then some k else key_of r u rows)
          → key_of k.resource_id k.user_id rows ≡ none
          → KeepsOrGains (k ∷ []) r u rows rows'
      gains k rows rows' r u h e n = elim (Bool-cases (is_for r u k)) [
        | inr f ↦ inl (e ∙ rw f refl)
        | inl t ↦
            let i : k.resource_id ≡ r = ground (arith, eq_iff k.resource_id r) in
            let j : k.user_id ≡ u = ground (arith, eq_iff k.user_id u, eq_iff k.resource_id r) in
            inr (rw (← i, ← j) n, k, inl refl, h, t, e ∙ rw t refl)
      ]

  pub each-Gains :
      (keys : List ResourceKey) (rows rows' : KeyRows) (r u : String)
      → insert_each admits keys rows ≡ ok rows'
      → KeepsOrGains keys r u rows rows'
        × ((a : String) → has_id a rows' ≡ has_id a rows || contains (key_ids keys) a)
  unfolding insert_each contains
  each-Gains [] rows rows' r u e =
      let same : rows ≡ rows' = ground arith in rw (← same) (inl refl, λ a. ground arith)
  each-Gains (k ∷ keys) rows rows' r u e = elim (Result-cases (insert_unless_there admits k rows)) [
    | inr (x, f) ↦ absurd (ground arith)
    | inl (mid, f) ↦
        let (g, ids) = unless-Gains k rows mid r u f in
        let (h, more) = each-Gains keys mid rows' r u (ground arith) in
        (
          both k keys rows mid rows' r u g h (λ a n. ground (arith, ids a)),
          λ a. more a ∙ ground (arith, ids a),
        )
  ]
    where
      both :
          (k : ResourceKey) (keys : List ResourceKey) (rows mid rows' : KeyRows) (r u : String)
          → KeepsOrGains (k ∷ []) r u rows mid
          → KeepsOrGains keys r u mid rows'
          → ((a : String) → has_id a mid ≡ false → has_id a rows ≡ false)
          → KeepsOrGains (k ∷ keys) r u rows rows'
      both k keys rows mid rows' r u (inl s) (inl t) w = inl (t ∙ s)
      both k keys rows mid rows' r u (inl s) (inr (n, x, m, i, f, g)) w =
          inr (sym s ∙ n, x, inr m, w x.id i, f, g)
      both k keys rows mid rows' r u (inr (n, x, inl m, i, f, g)) (inl t) w =
          inr (n, x, inl m, i, f, t ∙ g)
      both k keys rows mid rows' r u (inr (n, x, inl m, i, f, g)) (inr (o, _, _, _, _, _)) w =
          absurd (ground arith)
      both k keys rows mid rows' r u (inr (n, x, inr m, i, f, g)) t w = absurd m
