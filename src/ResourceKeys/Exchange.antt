-- ===== src/ResourceKeys/Exchange.antt =====
-- The resource keys in the update messages of network/src/p2p/resource_sync.rs.
use osvauld.Prelude.{
  String, ◌==◌, eq_iff, eq_refl, Bool, Bool-cases, Option-cases, true, false, not, none, some, List,
  [], ◌∷◌, is_some, or_else, contains, All, ◌≡◌, refl, ap, subst, ◌∙◌, inl, inr, arith,
}
use osvauld.Repository.{ok, err, database_error}
use osvauld.ResourceKeys.{
  ResourceKey, KeyRows, key_ids, is_for, find_by_resource_id, missing_from,
  find_missing_resource_keys, exchange_keys,
}
use osvauld.ResourceKeys.Lookup.{
  key_of, has_id, key_of-cons, IsTable, key_of-find, has_id-filter, key_of-filter-none,
  key_of-filter-some, filter-IsTable, All-filter,
}
use osvauld.ResourceKeys.Batch.{Fits, add_resource_keys-Adds, add_resource_keys-taken}

-- The keys of `r` that one side gives the other: those with an id that is not among the other's.
abbrev pub given : String → KeyRows → KeyRows → List ResourceKey
given r from to = missing_from (key_ids (find_by_resource_id r to)) (find_by_resource_id r from)

-- An id of a key of `r` on one side is in use on the other exactly when its user has a key there.
abbrev pub IsCompatible : String → KeyRows → KeyRows → Type 0
IsCompatible r from to =
    (u : String) (k : ResourceKey)
    → key_of r u from ≡ some k
    → has_id k.id to ≡ is_some (key_of r u to)

All-map :
    {P Q : ResourceKey → Type 0}
    → ((k : ResourceKey) → P k → Q k)
    → (keys : List ResourceKey) → All P keys
    → All Q keys
All-map f [] a = tt
All-map f (k ∷ keys) (x, a) = (f k x, All-map f keys a)

module _ (admits : ResourceKey → Bool) (r : String) where
  -- The row of a key of `r` is the one that is found for its user.
  abbrev IsOwn : KeyRows → ResourceKey → Type 0
  IsOwn rows k = (k.resource_id ≡ r) × (key_of r k.user_id rows ≡ some k) × (admits k ≡ true)

  find-IsOwn :
      (rows : KeyRows)
      → IsTable rows
      → All (λ k. admits k ≡ true) rows
      → All (IsOwn rows) (find_by_resource_id r rows)
  unfolding find_by_resource_id
  find-IsOwn [] t d = tt
  find-IsOwn (x ∷ rows) (i, s, t) (y, d) = elim (Bool-cases (x.resource_id == r)) [
    | inl h ↦
        let at : key_of r x.user_id (x ∷ rows) ≡ some x =
          ground (arith, key_of-cons r x.user_id x rows, eq_refl x.user_id) in
        rw h (((eq_iff x.resource_id r).0 h, at, y), All-map keep _ (find-IsOwn rows t d))
    | inr h ↦ rw h (All-map keep _ (find-IsOwn rows t d))
  ]
    where
      keep : (k : ResourceKey) → IsOwn rows k → IsOwn (x ∷ rows) k
      keep k (e, f, a) =
          let apart : is_for r k.user_id x ≡ true → key_of r k.user_id rows ≡ none = λ h.
            let p : x.resource_id ≡ r = (eq_iff x.resource_id r).0 (ground arith) in
            let q : x.user_id ≡ k.user_id = (eq_iff x.user_id k.user_id).0 (ground arith) in
            subst (λ y. key_of r y rows ≡ none) q
              (subst (λ y. key_of y x.user_id rows ≡ none) p s) in
          (e, ground (arith, f, apart, key_of-cons r k.user_id x rows), a)

  given-Fits :
      (from to : KeyRows)
      → IsTable from
      → All (λ k. admits k ≡ true) from
      → IsCompatible r from to
      → All (Fits admits r to) (given r from to)
  unfolding missing_from
  given-Fits from to t d c =
      let own = All-map (λ k own. (own.0, c k.user_id k own.1, own.2)) _ (find-IsOwn from t d) in
      All-filter (λ k. not (contains (key_ids (find_by_resource_id r to)) k.id)) (Fits admits r to)
        _ own

given-IsTable : (r : String) (from to : KeyRows) → IsTable from → IsTable (given r from to)
unfolding missing_from find_by_resource_id
given-IsTable r from to t = filter-IsTable _ _ (filter-IsTable _ from t)

-- A key that the other side has no row with the id of is given.
key_of-given-some :
    (r u : String) (from to : KeyRows) (k : ResourceKey)
    → key_of r u from ≡ some k
    → has_id k.id to ≡ false
    → key_of r u (given r from to) ≡ some k
unfolding missing_from
key_of-given-some r u from to k m h =
    let absent : has_id k.id (find_by_resource_id r to) ≡ false =
      unfold find_by_resource_id in has_id-filter _ k.id to h in
    key_of-filter-some _ r u (find_by_resource_id r from) k (key_of-find r u from ∙ m)
      (unfold has_id in ap not absent)

key_of-given-none :
    (r u : String) (from to : KeyRows)
    → key_of r u from ≡ none
    → key_of r u (given r from to) ≡ none
unfolding missing_from
key_of-given-none r u from to m =
    key_of-filter-none _ r u (find_by_resource_id r from) (key_of-find r u from ∙ m)

-- What a side that got the keys has for a user.
or_else-given :
    (r u : String) (from to : KeyRows)
    → IsCompatible r from to
    → or_else (key_of r u to) (key_of r u (given r from to))
      ≡ or_else (key_of r u to) (key_of r u from)
or_else-given r u from to c = elim (Option-cases (key_of r u to)) [
  | inr (k, e) ↦ rw e refl
  | inl e ↦ elim (Option-cases (key_of r u from)) [
    | inl f ↦ rw (key_of-given-none r u from to f, f) refl
    | inr (k, f) ↦
        let free : has_id k.id to ≡ false = c u k f ∙ ap is_some e in
        rw (key_of-given-some r u from to k f free, f) refl
  ]
]

-- In two tables with both unique columns whose rows meet the foreign keys of the other side too, and
-- where an id of a key of the resource on one side is in use on the other exactly when its user has a
-- key of the resource there, the exchange succeeds, and every user has the key on each side that it
-- had there before, or the other side's where it had none.
pub exchange_keys-union :
    (admits_a admits_b : ResourceKey → Bool) (r : String) (rows_a rows_b : KeyRows)
    → IsTable rows_a
    → IsTable rows_b
    → All (λ k. admits_b k ≡ true) rows_a
    → All (λ k. admits_a k ≡ true) rows_b
    → IsCompatible r rows_a rows_b
    → IsCompatible r rows_b rows_a
    → (rows_a' rows_b' : KeyRows) × (exchange_keys admits_a admits_b r rows_a rows_b
        ≡ ok (rows_a', rows_b'))
      × ((u : String)
          → (key_of r u rows_a' ≡ or_else (key_of r u rows_a) (key_of r u rows_b))
            × (key_of r u rows_b' ≡ or_else (key_of r u rows_b) (key_of r u rows_a)))
unfolding exchange_keys find_missing_resource_keys
exchange_keys-union admits_a admits_b r rows_a rows_b ta tb da db c d =
    let (rows_b', e, adds_b) =
      add_resource_keys-Adds admits_b r (given r rows_a rows_b) rows_b
        (given-IsTable r rows_a rows_b ta) (given-Fits admits_b r rows_a rows_b ta da c) in
    let (rows_a', f, adds_a) =
      add_resource_keys-Adds admits_a r (given r rows_b rows_a) rows_a
        (given-IsTable r rows_b rows_a tb) (given-Fits admits_a r rows_b rows_a tb db d) in
    (
      rows_a',
      rows_b',
      rw (e, f) refl,
      λ u. (
        adds_a u ∙ or_else-given r u rows_b rows_a d,
        adds_b u ∙ or_else-given r u rows_a rows_b c,
      ),
    )

-- Where both sides have a key of the resource for one user, and the row of the first side has an id
-- that no row of the second side has, the exchange from a table with both unique columns fails with a
-- database error.
pub exchange_keys-taken :
    (admits_a admits_b : ResourceKey → Bool) (r u : String) (rows_a rows_b : KeyRows)
    (k l : ResourceKey)
    → IsTable rows_a
    → key_of r u rows_a ≡ some k
    → key_of r u rows_b ≡ some l
    → has_id k.id rows_b ≡ false
    → exchange_keys admits_a admits_b r rows_a rows_b ≡ err database_error
unfolding exchange_keys find_missing_resource_keys
exchange_keys-taken admits_a admits_b r u rows_a rows_b k l t m n h =
    let failed =
      add_resource_keys-taken admits_b r u k (given r rows_a rows_b) rows_b
        (given-IsTable r rows_a rows_b t) (key_of-given-some r u rows_a rows_b k m h) (ap is_some n)
        h in
    rw failed refl
