-- ===== src/ClockTable/Writes.antt =====
-- The updates of persistance/src/repositories/vector_clock_repository.rs, read back one device at a
-- time.
use mathlib.Core.Option
use osvauld.Prelude.{
  ℕ, String, ◌==◌, eq_iff, true, false, ◌&&◌, Option, ◌≢◌, Bool-cases, none, some, List, [], ◌∷◌,
  map, if◌then◌else◌, is_some, All, ◌≡◌, refl, inl, inr, arith, ◌∙◌,
}
use osvauld.VectorClock.{ResourceVectorClock, find_device}
use osvauld.VectorClock.Search.{IsUnique, find_device-cons, find_device_absent}
use osvauld.ClockTable.{
  ResourceVectorClockModel, to_i32, Rows, is_at, row_at, update_row, update_rows,
}
use osvauld.ClockTable.Lookup.{clock_at, stored, row_at-cons}

-- Two keys that fit one row are one key.
pub is_at_same :
    (a b r d : String) (m : ResourceVectorClockModel)
    → is_at a b m ≡ true
    → is_at r d m ≡ (a == r && b == d)
unfolding is_at
is_at_same a b r d m h = ground (arith, eq_iff m.resource_id a, eq_iff m.device_id b)

pub is_at_other :
    (a b r d : String) (m : ResourceVectorClockModel)
    → is_at a b m ≡ false
    → is_at r d m ≡ true
    → (a == r && b == d) ≡ false
unfolding is_at
is_at_other a b r d m h k = ground (
  arith,
  eq_iff m.resource_id r,
  eq_iff m.device_id d,
  eq_iff m.resource_id a,
  eq_iff m.device_id b,
  eq_iff a r,
  eq_iff b d,
)

abbrev touched : ResourceVectorClock → ResourceVectorClockModel → ResourceVectorClockModel
touched c m = record m { clock_value = to_i32 c.clock_value; updated_at = c.updated_at }

is_at-touched :
    (r d : String) (c : ResourceVectorClock) (m : ResourceVectorClockModel)
    → is_at r d (touched c m) ≡ is_at r d m
unfolding is_at
is_at-touched r d c m = refl

update_row-cons :
    (c : ResourceVectorClock) (m : ResourceVectorClockModel) (rows : Rows)
    → update_row c (m ∷ rows)
      ≡ (if is_at c.resource_id c.device_id m then touched c m else m) ∷ update_row c rows
unfolding update_row
update_row-cons c m rows = refl

row_at-update_row :
    (r d : String) (c : ResourceVectorClock) (rows : Rows)
    → row_at r d (update_row c rows) ≡ (
        if c.resource_id == r && c.device_id == d
        then Option.map (touched c) (row_at r d rows)
        else row_at r d rows)
row_at-update_row r d c [] = unfold row_at update_row in ground arith
row_at-update_row r d c (m ∷ rows) = elim (Bool-cases (is_at c.resource_id c.device_id m)) [
  | inl hit ↦
      rw (update_row-cons c m rows, hit)
        (ground (
          arith,
          row_at-cons r d m rows,
          row_at-cons r d (touched c m) (update_row c rows),
          is_at-touched r d c m,
          is_at_same c.resource_id c.device_id r d m hit,
          row_at-update_row r d c rows,
        ))
  | inr miss ↦
      rw (update_row-cons c m rows, miss)
        (ground (
          arith,
          row_at-cons r d m rows,
          row_at-cons r d m (update_row c rows),
          is_at_other c.resource_id c.device_id r d m miss,
          row_at-update_row r d c rows,
        ))
]

-- A write of `c` touches the value at its resource and its device, and no other.
pub clock_at-update_row :
    (r d : String) (c : ResourceVectorClock) (rows : Rows)
    → clock_at r d (update_row c rows) ≡ (
        if c.resource_id == r && c.device_id == d
        then Option.map (λ _. stored c.clock_value) (clock_at r d rows)
        else clock_at r d rows)
clock_at-update_row r d c rows = rw (row_at-update_row r d c rows) (ground arith)

abbrev pub OfResource : String → List ResourceVectorClock → Type 0
OfResource r cs = All (λ c. c.resource_id ≡ r) cs

abbrev pub overwrite : Option ResourceVectorClock → Option ℕ → Option ℕ
overwrite none o = o
overwrite (some c) o = Option.map (λ _. stored c.clock_value) o

-- A batch of updates with one entry for each device writes each of them, where there is a row.
pub clock_at-update_rows :
    (r d : String) (cs : List ResourceVectorClock) (rows : Rows)
    → OfResource r cs
    → IsUnique cs
    → clock_at r d (update_rows cs rows) ≡ overwrite (find_device d cs) (clock_at r d rows)
unfolding update_rows
clock_at-update_rows r d [] rows h u = unfold find_device in refl
clock_at-update_rows r d (c ∷ cs) rows h u = ground (
  arith,
  clock_at-update_rows r d cs (update_row c rows) h.1 u.1,
  clock_at-update_row r d c rows,
  find_device-cons d c cs,
  find_device_absent c.device_id cs u.0,
  h.0,
  eq_iff c.resource_id r,
  eq_iff c.device_id d,
)

-- It leaves the clocks of the other resources alone.
pub clock_at-update_rows_ne :
    (r s d : String) (cs : List ResourceVectorClock) (rows : Rows)
    → OfResource r cs
    → r ≢ s
    → clock_at s d (update_rows cs rows) ≡ clock_at s d rows
unfolding update_rows
clock_at-update_rows_ne r s d [] rows h n = refl
clock_at-update_rows_ne r s d (c ∷ cs) rows h n = ground (
  arith,
  clock_at-update_rows_ne r s d cs (update_row c rows) h.1 n,
  clock_at-update_row s d c rows,
  h.0,
  eq_iff c.resource_id s,
)

abbrev pub ids : Rows → List String
ids = map (λ m. m.id)

ids-update_row : (c : ResourceVectorClock) (rows : Rows) → ids (update_row c rows) ≡ ids rows
ids-update_row c [] = unfold update_row in refl
ids-update_row c (m ∷ rows) = ground (arith, update_row-cons c m rows, ids-update_row c rows)

pub ids-update_rows :
    (cs : List ResourceVectorClock) (rows : Rows) → ids (update_rows cs rows) ≡ ids rows
unfolding update_rows
ids-update_rows [] rows = refl
ids-update_rows (c ∷ cs) rows = ids-update_rows cs (update_row c rows) ∙ ids-update_row c rows

pub is_some-update_rows :
    (r d : String) (cs : List ResourceVectorClock) (rows : Rows)
    → is_some (row_at r d (update_rows cs rows)) ≡ is_some (row_at r d rows)
unfolding update_rows
is_some-update_rows r d [] rows = refl
is_some-update_rows r d (c ∷ cs) rows =
    is_some-update_rows r d cs (update_row c rows)
    ∙ rw (row_at-update_row r d c rows) (ground arith)
