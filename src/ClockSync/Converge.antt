-- ===== src/ClockSync/Converge.antt =====
-- The vector clock exchange of network/src/p2p/resource_sync.rs makes the clocks of two peers equal:
-- both become the least upper bound of the two.
use mathlib.Core.Option
use osvauld.Prelude.{
  ℕ, max, ◌^◌, ◌<◌, String, Bool, true, false, Option, none, some, List, [], ◌∷◌, is_empty, or_else,
  All, ◌≡◌, ◌≢◌, refl, arith, ◌∙◌, ap, inl, inr, Bool-cases, not, ◌&&◌, ◌==◌, eq_iff, if◌then◌else◌,
}
use osvauld.Repository.{ok}
use osvauld.VectorClock.{ResourceVectorClock, MergeResult, find_device, merge}
use osvauld.VectorClock.Loops.{merge-IsFlagged}
use osvauld.VectorClock.Search.{
  IsUnique, All-find_device, pick_update, pick_add, find-update_local, find-add_local,
  find-update_remote, find-add_remote,
}
use osvauld.ClockTable
use osvauld.ClockTable.{
  ResourceVectorClockModel, from_domain, Rows, get_vector_clocks_for_resource, update_rows,
}
use osvauld.ClockTable.Lookup.{clock_at, clock_of-get, stored, stored_lem}
use osvauld.ClockTable.Writes.{overwrite, ids}
use osvauld.ClockTable.Inserts.{FreshIds}
use osvauld.ClockTable.Update.{update_vector_clocks-both}
use osvauld.ClockSync.{merge_vector_clocks, update_vector_clocks, exchange}
use osvauld.ClockSync.Fitting.{get-OfResource, Fits-local, Fits-remote}

-- The least upper bound of two values of a device, where a missing entry is below all.
abbrev pub join : Option ℕ → Option ℕ → Option ℕ
join none o = o
join (some a) none = some a
join (some a) (some b) = some (max a b)

pub join_comm : (a b : Option ℕ) → join a b ≡ join b a
join_comm none none = refl
join_comm none (some b) = refl
join_comm (some a) none = refl
join_comm (some a) (some b) = ap some (omega arith)

-- Values that an `i32` column holds.
abbrev pub IsSmall : ResourceVectorClock → Type 0
IsSmall c = c.clock_value < 2 ^ 31

abbrev value : ResourceVectorClock → ℕ
value c = c.clock_value

-- The batch that was picked brings one device to the upper bound.
picked-join :
    (mine theirs : Option ResourceVectorClock)
    → ((c : ResourceVectorClock) → theirs ≡ some c → IsSmall c)
    → or_else
        (overwrite (pick_update mine theirs) (Option.map value mine))
        (Option.map (λ c. stored c.clock_value) (pick_add mine theirs))
      ≡ join (Option.map value mine) (Option.map value theirs)
picked-join none none h = refl
picked-join none (some b) h = ap some (stored_lem b.clock_value (h b refl))
picked-join (some a) none h = refl
picked-join (some a) (some b) h = ground (arith, stored_lem b.clock_value (h b refl))

-- The case in which the code skips the write: there is nothing to write.
skipped :
    (admits : ResourceVectorClockModel → Bool) (m : MergeResult) (rows : Rows)
    → m.local_needs_update ≡ false
    → m.local_needs_update ≡ not (is_empty m.update_local && is_empty m.add_local)
    → ClockTable.update_vector_clocks admits m.update_local m.add_local rows ≡ ok rows
skipped admits m rows e f = go m.update_local m.add_local (ground arith)
  where
    go :
        (us xs : List ResourceVectorClock)
        → (is_empty us && is_empty xs) ≡ true
        → ClockTable.update_vector_clocks admits us xs rows ≡ ok rows
    go [] [] e = unfold ClockTable.update_vector_clocks update_rows in refl
    go [] (x ∷ xs) e = cc
    go (u ∷ us) xs e = cc

-- `merge_vector_clocks` writes the merge whether or not the flag is set.
merge_vector_clocks_lem :
    (admits : ResourceVectorClockModel → Bool) (r : String) (remotes : List ResourceVectorClock)
    (rows rows' : Rows)
    → let m = merge (get_vector_clocks_for_resource r rows) remotes in
      ClockTable.update_vector_clocks admits m.update_local m.add_local rows ≡ ok rows'
      → merge_vector_clocks admits r remotes rows ≡ ok (rows', (m.add_remote, m.update_remote))
unfolding merge_vector_clocks
merge_vector_clocks_lem admits r remotes rows rows' e =
    let m = merge (get_vector_clocks_for_resource r rows) remotes in
    elim (Bool-cases m.local_needs_update) [
      | inl t ↦ rw (t, e) refl
      | inr t ↦ rw t (
          ground (
            arith,
            skipped admits m rows t
                (merge-IsFlagged (get_vector_clocks_for_resource r rows) remotes).of_local,
            e,
          ))
    ]

-- The same, with the batch as the merge has it and the values as the tables have them.
joined :
    (r d : String) (rows rows' : Rows) (update add : Option ResourceVectorClock)
    → let mine = find_device d (get_vector_clocks_for_resource r rows) in
      let theirs = find_device d (get_vector_clocks_for_resource r rows') in
      update ≡ pick_update mine theirs
      → add ≡ pick_add mine theirs
      → All IsSmall (get_vector_clocks_for_resource r rows')
      → or_else (overwrite update (clock_at r d rows)) (Option.map (λ c. stored c.clock_value) add)
        ≡ join (clock_at r d rows) (clock_at r d rows')
joined r d rows rows' update add p q small =
    rw (p, q, ← clock_of-get r d rows, ← clock_of-get r d rows')
      (picked-join _ _ (λ c e. All-find_device IsSmall d _ c small e))

abbrev pub merged : String → Rows → Rows → MergeResult
merged r rows_a rows_b =
    merge (get_vector_clocks_for_resource r rows_b) (get_vector_clocks_for_resource r rows_a)

-- What the tables and the entries that the two peers lack have to meet: one entry for a device, ids
-- that are new to the other table, foreign keys that hold there, values within 31 bits.
pub record CanExchange (admits_a admits_b : ResourceVectorClockModel → Bool) (r : String)
    (rows_a rows_b : Rows) : Type 0 where
  pub unique_a : IsUnique (get_vector_clocks_for_resource r rows_a)
  pub unique_b : IsUnique (get_vector_clocks_for_resource r rows_b)
  pub small_a : All IsSmall (get_vector_clocks_for_resource r rows_a)
  pub small_b : All IsSmall (get_vector_clocks_for_resource r rows_b)
  pub fresh_a : FreshIds (merged r rows_a rows_b).add_remote (ids rows_a)
  pub fresh_b : FreshIds (merged r rows_a rows_b).add_local (ids rows_b)
  pub admitted_a : All (λ c. admits_a (from_domain c) ≡ true) (merged r rows_a rows_b).add_remote
  pub admitted_b : All (λ c. admits_b (from_domain c) ≡ true) (merged r rows_a rows_b).add_local

-- The exchange succeeds. Then both tables have, for every device, the upper bound of the two values
-- that it had before, and the clocks of all other resources are as they were.
pub exchange-both :
    (admits_a admits_b : ResourceVectorClockModel → Bool) (r : String) (rows_a rows_b : Rows)
    → CanExchange admits_a admits_b r rows_a rows_b
    → (rows_a' : Rows) × (rows_b' : Rows) × (exchange admits_a admits_b r rows_a rows_b
        ≡ ok (rows_a', rows_b'))
      × ((d : String) → clock_at r d rows_a' ≡ join (clock_at r d rows_a) (clock_at r d rows_b))
      × ((d : String) → clock_at r d rows_b' ≡ join (clock_at r d rows_a) (clock_at r d rows_b))
      × ((s d : String)
          → r ≢ s
          → (clock_at s d rows_a' ≡ clock_at s d rows_a)
            × (clock_at s d rows_b' ≡ clock_at s d rows_b))
unfolding exchange update_vector_clocks
exchange-both admits_a admits_b r rows_a rows_b h =
    let locals = get_vector_clocks_for_resource r rows_b in
    let remotes = get_vector_clocks_for_resource r rows_a in
    let m = merge locals remotes in
    let (rows_b', done_b, at_b, other_b) =
      update_vector_clocks-both admits_b r m.update_local m.add_local rows_b (
        Fits-local admits_b r rows_b remotes (get-OfResource r rows_a) h.unique_a h.admitted_b
          h.fresh_b) in
    let (rows_a', done_a, at_a, other_a) =
      update_vector_clocks-both admits_a r m.update_remote m.add_remote rows_a (
        Fits-remote admits_a r rows_a locals (get-OfResource r rows_b) h.unique_b h.unique_a
          h.admitted_a h.fresh_a) in
    (
      rows_a',
      rows_b',
      rw (merge_vector_clocks_lem admits_b r remotes rows_b rows_b' done_b, done_a) refl,
      λ d.
          at_a d
          ∙ joined r d rows_a rows_b _ _ (find-update_remote locals remotes d h.unique_a)
              (find-add_remote locals remotes d h.unique_b) h.small_b,
      λ d.
          at_b d
          ∙ joined r d rows_b rows_a _ _ (find-update_local locals remotes d h.unique_a)
              (find-add_local locals remotes d h.unique_a) h.small_a
          ∙ join_comm (clock_at r d rows_b) (clock_at r d rows_a),
      λ s d n. (other_a s d n, other_b s d n),
    )

-- The exchange succeeds. Then for the resource both tables have, for every device, the upper bound of
-- the two values that it had before, and the clocks of all other resources are as they were.
pub exchange-join :
    (admits_a admits_b : ResourceVectorClockModel → Bool) (r : String) (rows_a rows_b : Rows)
    → CanExchange admits_a admits_b r rows_a rows_b
    → (rows_a' : Rows) × (rows_b' : Rows) × (exchange admits_a admits_b r rows_a rows_b
        ≡ ok (rows_a', rows_b'))
      × ((s d : String)
          → (clock_at s d rows_a' ≡ (
              if r == s
              then join (clock_at s d rows_a) (clock_at s d rows_b)
              else clock_at s d rows_a))
            × (clock_at s d rows_b' ≡ (
                if r == s
                then join (clock_at s d rows_a) (clock_at s d rows_b)
                else clock_at s d rows_b)))
exchange-join admits_a admits_b r rows_a rows_b h =
    let (a, b, done, at_a, at_b, other) = exchange-both admits_a admits_b r rows_a rows_b h in
    (
      a,
      b,
      done,
      λ s d. elim (Bool-cases (r == s)) [
        | inl t ↦ rw (t, ← (eq_iff r s).0 t) (at_a d, at_b d)
        | inr f ↦ rw f (other s d (λ e. ground (arith, f, (eq_iff r s).1 e)))
      ],
    )
