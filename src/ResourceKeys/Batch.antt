-- ===== src/ResourceKeys/Batch.antt =====
-- `add_resource_keys` of persistance/src/repositories/resource_key_repository.rs: when a batch is added,
-- and when its transaction fails.
use osvauld.Prelude.{
  String, ◌==◌, eq_iff, Bool, Bool-cases, true, false, Option, none, some, List, [], ◌∷◌, push,
  is_some, or_else, All, ◌≡◌, refl, sym, ap, ◌∙◌, inl, inr, arith,
}
use osvauld.Repository.{ok, err, database_error}
use osvauld.ResourceKeys.{
  ResourceKey, KeyRows, is_for, insert_new, insert_unless_there, insert_each, add_resource_keys,
}
use osvauld.ResourceKeys.Lookup.{
  key_of, has_id, key_of-cons, key_of-nil, has_id-cons, key_of-push, has_id-push, key_of-id,
  IsTable,
}

pub or_else-none : {A : Type 0} (a : Option A) → or_else a none ≡ a
or_else-none none = refl
or_else-none (some x) = refl

module _ (admits : ResourceKey → Bool) (r : String) where
  -- The id of the key is there exactly when its user has a key.
  abbrev pub Fits : KeyRows → ResourceKey → Type 0
  Fits rows k =
      (k.resource_id ≡ r)
      × (has_id k.id rows ≡ is_some (key_of r k.user_id rows))
      × (admits k ≡ true)

  there :
      (k : ResourceKey) (rows : KeyRows)
      → has_id k.id rows ≡ true
      → insert_unless_there admits k rows ≡ ok rows
  unfolding insert_unless_there has_id
  there k rows h = rw h refl

  added :
      (k : ResourceKey) (rows : KeyRows)
      → has_id k.id rows ≡ false
      → is_some (key_of k.resource_id k.user_id rows) ≡ false
      → admits k ≡ true
      → insert_unless_there admits k rows ≡ ok (push rows k)
  unfolding insert_unless_there insert_new has_id key_of
  added k rows h s a = rw (h, s, a) refl

  refused :
      (k : ResourceKey) (rows : KeyRows)
      → has_id k.id rows ≡ false
      → is_some (key_of k.resource_id k.user_id rows) ≡ true
      → insert_unless_there admits k rows ≡ err database_error
  unfolding insert_unless_there insert_new has_id key_of
  refused k rows h s = rw (h, s) refl

  Fits-push :
      (k : ResourceKey) (rows : KeyRows)
      → k.resource_id ≡ r
      → (keys : List ResourceKey) → has_id k.id keys ≡ false
      → key_of r k.user_id keys ≡ none
      → All (Fits rows) keys
      → All (Fits (push rows k)) keys
  Fits-push k rows e [] i s a = tt
  Fits-push k rows e (x ∷ keys) i s ((q, f, d), a) =
      let rest =
        Fits-push k rows e keys (ground (arith, has_id-cons k.id x keys))
          (ground (arith, key_of-cons r k.user_id x keys)) a in
      let other : (k.id == x.id) ≡ false =
        ground (arith, has_id-cons k.id x keys, eq_iff k.id x.id, eq_iff x.id k.id) in
      let apart : is_for r x.user_id k ≡ false = ground (
        arith,
        key_of-cons r k.user_id x keys,
        eq_iff x.resource_id r,
        eq_iff k.user_id x.user_id,
        eq_iff x.user_id k.user_id,
      ) in
      (
        (
          q,
          ground (arith, f, other, apart, has_id-push x.id k rows, key_of-push r x.user_id k rows),
          d,
        ),
        rest,
      )

  -- The key that a user has after a batch that fits.
  abbrev pub Adds : List ResourceKey → KeyRows → KeyRows → Type 0
  Adds keys rows rows' =
      (u : String) → key_of r u rows' ≡ or_else (key_of r u rows) (key_of r u keys)

  insert_each-Adds :
      (keys : List ResourceKey) (rows : KeyRows)
      → IsTable keys
      → All (Fits rows) keys
      → (rows' : KeyRows) × (insert_each admits keys rows ≡ ok rows') × Adds keys rows rows'
  unfolding insert_each
  insert_each-Adds [] rows t a =
      (rows, refl, λ u. rw (key_of-nil r u, or_else-none (key_of r u rows)) refl)
  insert_each-Adds (k ∷ keys) rows (i, s, t) ((e, f, d), a) = elim (Bool-cases (has_id k.id rows)) [
    | inl h ↦
        let (rows', w, adds) = insert_each-Adds keys rows t a in
        (
          rows',
          rw (there k rows h) w,
          λ u.
              let same : k.user_id ≡ u
                  → is_some (key_of r k.user_id rows) ≡ is_some (key_of r u rows) =
                ap (λ y. is_some (key_of r y rows)) in
              ground (arith, adds u, f, h, same, eq_iff k.user_id u, key_of-cons r u k keys),
        )
    | inr h ↦
        let free : key_of r k.user_id keys ≡ none = ap (λ y. key_of y k.user_id keys) (sym e) ∙ s in
        let (rows', w, adds) =
          insert_each-Adds keys (push rows k) t (Fits-push k rows e keys i free a) in
        (
          rows',
          rw (added k rows h (ap (λ y. is_some (key_of y k.user_id rows)) e ∙ (sym f ∙ h)) d) w,
          λ u. ground (arith, adds u, key_of-push r u k rows, key_of-cons r u k keys),
        )
  ]

  not_admitted :
      (k : ResourceKey) (rows : KeyRows)
      → has_id k.id rows ≡ false
      → is_some (key_of k.resource_id k.user_id rows) ≡ false
      → admits k ≡ false
      → insert_unless_there admits k rows ≡ err database_error
  unfolding insert_unless_there insert_new has_id key_of
  not_admitted k rows h s a = rw (h, s, a) refl

  -- A batch with a new key for a user that has one fails.
  insert_each-taken :
      (u : String) (k : ResourceKey) (keys : List ResourceKey) (rows : KeyRows)
      → IsTable keys
      → key_of r u keys ≡ some k
      → is_some (key_of r u rows) ≡ true
      → has_id k.id rows ≡ false
      → insert_each admits keys rows ≡ err database_error
  unfolding insert_each
  insert_each-taken u k [] rows t m s h = absurd (ground (arith, key_of-nil r u))
  insert_each-taken u k (x ∷ keys) rows (i, n, t) m s h = elim (Bool-cases (is_for r u x)) [
    | inl y ↦
        let same : x ≡ k = ground (arith, key_of-cons r u x keys) in
        let slot : is_some (key_of x.resource_id x.user_id rows) ≡ true =
          rw ((eq_iff x.resource_id r).0 (ground arith), (eq_iff x.user_id u).0 (ground arith)) s in
        rw (refused x rows (ap (λ y. has_id y.id rows) same ∙ h) slot) refl
    | inr f ↦
        let later : key_of r u keys ≡ some k = ground (arith, key_of-cons r u x keys) in
        elim (Bool-cases (has_id x.id rows)) [
          | inl y ↦ rw (there x rows y) (insert_each-taken u k keys rows t later s h)
          | inr g ↦ elim (Bool-cases (is_some (key_of x.resource_id x.user_id rows))) [
            | inl y ↦ rw (refused x rows g y) refl
            | inr v ↦ elim (Bool-cases (admits x)) [
              | inr d ↦ rw (not_admitted x rows g v d) refl
              | inl d ↦
                  let other : x.id ≡ k.id → has_id x.id keys ≡ true =
                    λ e. rw e (key_of-id r u keys k later) in
                  rw (added x rows g v d) (
                    insert_each-taken u k keys (push rows x) t later
                      (ground (arith, s, key_of-push r u x rows))
                      (ground (arith, h, i, other, eq_iff x.id k.id, has_id-push k.id x rows)))
            ]
          ]
        ]
  ]

  pub add-insert_each :
      (keys : List ResourceKey) (rows : KeyRows)
      → add_resource_keys admits keys rows ≡ insert_each admits keys rows
  unfolding add_resource_keys insert_each
  add-insert_each [] rows = refl
  add-insert_each (k ∷ keys) rows = refl

  pub add_resource_keys-Adds :
      (keys : List ResourceKey) (rows : KeyRows)
      → IsTable keys
      → All (Fits rows) keys
      → (rows' : KeyRows) × (add_resource_keys admits keys rows ≡ ok rows') × Adds keys rows rows'
  add_resource_keys-Adds keys rows t a =
      rw (add-insert_each keys rows) (insert_each-Adds keys rows t a)

  pub add_resource_keys-taken :
      (u : String) (k : ResourceKey) (keys : List ResourceKey) (rows : KeyRows)
      → IsTable keys
      → key_of r u keys ≡ some k
      → is_some (key_of r u rows) ≡ true
      → has_id k.id rows ≡ false
      → add_resource_keys admits keys rows ≡ err database_error
  add_resource_keys-taken u k keys rows t m s h =
      add-insert_each keys rows ∙ insert_each-taken u k keys rows t m s h
