-- ===== src/ClockTable/Increment.antt =====
-- `increment_vector_clock` of persistance/src/repositories/vector_clock_repository.rs, read back.
use mathlib.Core.Option
use osvauld.Prelude.{
  ℕ, ◌+◌, ◌-◌, ◌%◌, ◌^◌, ◌<◌, String, ◌==◌, eq_iff, Bool, true, false, ◌&&◌, Option, Option-cases,
  none, some, [], ◌∷◌, if◌then◌else◌, contains, push, or_else, ◌≡◌, refl, sym, arith, ◌∙◌, ap, inl,
  inr,
}
use osvauld.Repository.{ok}
use osvauld.VectorClock.{ResourceVectorClock, new, initialize}
use osvauld.ClockTable.{
  ResourceVectorClockModel, to_i32, to_u64, from_domain, into_domain, Rows, is_at, row_at, put_row,
  insert_row, increment_vector_clock,
}
use osvauld.ClockTable.Lookup.{clock_at, row_at-cons, row_at-nil}
use osvauld.ClockTable.Writes.{ids}
use osvauld.ClockTable.Inserts.{conflicts_lem, row_at-append}
use osvauld.ClockTable.Keys.{IsTable}
use osvauld.ClockTable.PutRow.{row_at-put_row}

-- The value of the next entry.
abbrev pub bump : Option ℕ → ℕ
bump none = 1
bump (some v) = v + 1

increment_found :
    (admits : ResourceVectorClockModel → Bool) (stamp : ℕ → String × ℕ) (k : ℕ) (r d : String)
    (rows : Rows) (m : ResourceVectorClockModel)
    → row_at r d rows ≡ some m
    → let model : ResourceVectorClockModel = record m {
      clock_value = (m.clock_value + 1) % 2 ^ 32;
      updated_at = (stamp k).1;
    } in
      increment_vector_clock admits stamp k r d rows ≡ ok (put_row model rows, into_domain model)
unfolding increment_vector_clock
increment_found admits stamp k r d rows m e = rw (increment_vector_clock, e) refl

taken :
    (admits : ResourceVectorClockModel → Bool) (stamp : ℕ → String × ℕ) (k : ℕ) (r d : String)
    (rows : Rows)
    → row_at r d rows ≡ none
    → let model = from_domain (initialize stamp (k + 1) r d) in
      admits model ≡ true
      → contains (ids rows) (stamp (k + 1)).0 ≡ false
      → insert_row admits model rows ≡ ok (push rows model)
unfolding insert_row initialize new from_domain
taken admits stamp k r d rows e a f =
    rw (insert_row, a, conflicts_lem (from_domain (initialize stamp (k + 1) r d)) rows, e, f) refl

increment_absent :
    (admits : ResourceVectorClockModel → Bool) (stamp : ℕ → String × ℕ) (k : ℕ) (r d : String)
    (rows : Rows)
    → row_at r d rows ≡ none
    → let model = from_domain (initialize stamp (k + 1) r d) in
      admits model ≡ true
      → contains (ids rows) (stamp (k + 1)).0 ≡ false
      → increment_vector_clock admits stamp k r d rows ≡ ok (push rows model, into_domain model)
unfolding increment_vector_clock
increment_absent admits stamp k r d rows e a f =
    rw (increment_vector_clock, e, taken admits stamp k r d rows e a f) refl

small_bits :
    (p : ℕ) → to_u64 p < 2 ^ 31 - 1 → (p < 2 ^ 31 - 1) × (to_u64 ((p + 1) % 2 ^ 32) ≡ to_u64 p + 1)
unfolding to_u64
small_bits p b = (ground arith, ground arith)

into_domain-value :
    (m : ResourceVectorClockModel) → (into_domain m).clock_value ≡ to_u64 m.clock_value
unfolding into_domain
into_domain-value m = refl

first_value :
    (stamp : ℕ → String × ℕ) (k : ℕ) (r d : String)
    → to_u64 (from_domain (initialize stamp (k + 1) r d)).clock_value ≡ 1
unfolding to_u64 from_domain initialize new to_i32
first_value stamp k r d = refl

first_key :
    (stamp : ℕ → String × ℕ) (k : ℕ) (r d s e : String)
    → is_at s e (from_domain (initialize stamp (k + 1) r d)) ≡ (r == s && d == e)
unfolding is_at from_domain initialize new
first_key stamp k r d s e = refl

-- A step of a device's clock: the call succeeds if a new row would meet the foreign keys and its id
-- is new, and the value is below 2^31 - 1. Then the device's value is one more, or 1 if it had none,
-- the entry that is returned says so, and no other value changes.
pub increment_vector_clock_lem :
    (admits : ResourceVectorClockModel → Bool) (stamp : ℕ → String × ℕ) (k : ℕ) (r d : String)
    (rows : Rows)
    → IsTable rows
    → admits (from_domain (initialize stamp (k + 1) r d)) ≡ true
    → contains (ids rows) (stamp (k + 1)).0 ≡ false
    → ((v : ℕ) → clock_at r d rows ≡ some v → v < 2 ^ 31 - 1)
    → (rows' : Rows) × (c : ResourceVectorClock) × (increment_vector_clock admits stamp k r d rows
        ≡ ok (rows', c))
      × (c.clock_value ≡ bump (clock_at r d rows))
      × ((s e : String)
          → clock_at s e rows'
            ≡ (if r == s && d == e then some (bump (clock_at r d rows)) else clock_at s e rows))
increment_vector_clock_lem admits stamp k r d rows t a f b = elim (Option-cases (row_at r d rows)) [
  | inr (m, e) ↦
      let model : ResourceVectorClockModel = record m {
        clock_value = (m.clock_value + 1) % 2 ^ 32;
        updated_at = (stamp k).1;
      } in
      let small : to_u64 m.clock_value < 2 ^ 31 - 1 = b (to_u64 m.clock_value) (rw e refl) in
      let more = (small_bits m.clock_value small).1 in
      (
        put_row model rows,
        into_domain model,
        increment_found admits stamp k r d rows m e,
        rw e (into_domain-value model ∙ more),
        λ s e'. rw (row_at-put_row r d s e' model m rows t e refl, e) (ground (arith, more)),
      )
  | inl n ↦
      let model = from_domain (initialize stamp (k + 1) r d) in
      let one : to_u64 model.clock_value ≡ 1 = first_value stamp k r d in
      (
        push rows model,
        into_domain model,
        increment_absent admits stamp k r d rows n a f,
        rw n (into_domain-value model ∙ one),
        λ s e.
            rw
              (
                row_at-append s e rows (model ∷ []),
                row_at-cons s e model [],
                row_at-nil s e,
                first_key stamp k r d s e,
                n,
              )
              (added n s e model one),
      )
]
  where
    added :
        row_at r d rows ≡ none
        → (s e : String) (model : ResourceVectorClockModel) → to_u64 model.clock_value ≡ 1
        → Option.map
            (λ m. to_u64 m.clock_value)
            (or_else (row_at s e rows) (if r == s && d == e then some model else none))
          ≡ (if r == s && d == e
              then some 1
              else Option.map (λ m. to_u64 m.clock_value) (row_at s e rows))
    added n s e model one = ground (arith, here)
      where
        here : (r == s && d == e) ≡ true → row_at s e rows ≡ none
        here h =
            ap (λ x. row_at x e rows) (sym ((eq_iff r s).0 (ground arith)))
            ∙ ap (λ x. row_at r x rows) (sym ((eq_iff d e).0 (ground arith)))
            ∙ n
