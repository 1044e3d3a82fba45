-- ===== src/ClockTable/Inserts.antt =====
-- The inserts of persistance/src/repositories/vector_clock_repository.rs: when a batch is taken, and
-- what is read back after it.
use mathlib.Core.Option
use osvauld.Prelude.{
  String, ◌==◌, eq_iff, eq_comm, Bool, true, false, ◌&&◌, ◌||◌, none, List, [], ◌∷◌, ◌++◌, map,
  append_assoc, append-nil, contains, push, is_some, or_else, All, ◌≡◌, ◌≢◌, refl, sym, arith, ◌∙◌,
  ap,
}
use mathlib.Core.List.{map-append}
use osvauld.Repository.{ok}
use osvauld.VectorClock.{ResourceVectorClock, find_device, has_device}
use osvauld.VectorClock.Search.{IsUnique, find_device-cons}
use osvauld.ClockTable.{
  ResourceVectorClockModel, from_domain, Rows, is_at, row_at, conflicts, insert_row, insert_rows,
}
use osvauld.ClockTable.Lookup.{clock_at, stored, row_at-cons, row_at-nil}
use osvauld.ClockTable.Writes.{OfResource, ids}

pub row_at-append :
    (r d : String) (xs ys : Rows) → row_at r d (xs ++ ys) ≡ or_else (row_at r d xs) (row_at r d ys)
row_at-append r d [] ys = unfold row_at in refl
row_at-append r d (x ∷ xs) ys =
    ground (arith, row_at-cons r d x xs, row_at-cons r d x (xs ++ ys), row_at-append r d xs ys)

is_at-from_domain :
    (r d : String) (c : ResourceVectorClock)
    → is_at r d (from_domain c) ≡ (c.resource_id == r && c.device_id == d)
unfolding is_at from_domain
is_at-from_domain r d c = refl

pub row_at-from_domain :
    (r d : String) (cs : List ResourceVectorClock)
    → OfResource r cs
    → row_at r d (map from_domain cs) ≡ Option.map from_domain (find_device d cs)
row_at-from_domain r d [] h = unfold row_at find_device in refl
row_at-from_domain r d (c ∷ cs) h = ground (
  arith,
  row_at-cons r d (from_domain c) (map from_domain cs),
  is_at-from_domain r d c,
  find_device-cons d c cs,
  row_at-from_domain r d cs h.1,
  h.0,
  eq_iff c.resource_id r,
)

pub row_at-from_domain_ne :
    (r s d : String) (cs : List ResourceVectorClock)
    → OfResource r cs
    → r ≢ s
    → row_at s d (map from_domain cs) ≡ none
row_at-from_domain_ne r s d [] h n = unfold row_at in refl
row_at-from_domain_ne r s d (c ∷ cs) h n = ground (
  arith,
  row_at-cons s d (from_domain c) (map from_domain cs),
  is_at-from_domain s d c,
  row_at-from_domain_ne r s d cs h.1 n,
  h.0,
  eq_iff c.resource_id s,
)

-- A row is refused for its id or for its key.
pub conflicts_lem :
    (row : ResourceVectorClockModel) (rows : Rows)
    → conflicts row rows
      ≡ contains (ids rows) row.id || is_some (row_at row.resource_id row.device_id rows)
unfolding conflicts contains
conflicts_lem row [] = unfold row_at in refl
conflicts_lem row (m ∷ rows) =
    ground (arith, conflicts_lem row rows, row_at-cons row.resource_id row.device_id m rows)

-- The new ids are new, and differ from one another.
abbrev pub FreshIds : List ResourceVectorClock → List String → Type 0
FreshIds [] used = Unit
FreshIds (c ∷ cs) used = (contains used c.id ≡ false) × FreshIds cs (push used c.id)

abbrev pub NoRow : String → Rows → List ResourceVectorClock → Type 0
NoRow r rows cs = All (λ c. row_at r c.device_id rows ≡ none) cs

NoRow-push :
    (r : String) (rows : Rows) (c : ResourceVectorClock) (cs : List ResourceVectorClock)
    → c.resource_id ≡ r
    → has_device c.device_id cs ≡ false
    → NoRow r rows cs
    → NoRow r (push rows (from_domain c)) cs
unfolding has_device
NoRow-push r rows c [] e u n = tt
NoRow-push r rows c (x ∷ cs) e u n =
    let tail : has_device c.device_id cs ≡ false = ground arith in
    (
      ground (
        arith,
        row_at-append r x.device_id rows (from_domain c ∷ []),
        row_at-cons r x.device_id (from_domain c) [],
        row_at-nil r x.device_id,
        is_at-from_domain r x.device_id c,
        eq_comm c.device_id x.device_id,
        n.0,
      ),
      NoRow-push r rows c cs e tail n.1,
    )

ids-push :
    (rows : Rows) (c : ResourceVectorClock) → ids (push rows (from_domain c)) ≡ push (ids rows) c.id
unfolding from_domain
ids-push rows c = map-append _ rows _

module _ (admits : ResourceVectorClockModel → Bool) where
  insert_row-from_domain :
      (r : String) (c : ResourceVectorClock) (rows : Rows)
      → c.resource_id ≡ r
      → admits (from_domain c) ≡ true
      → contains (ids rows) c.id ≡ false
      → row_at r c.device_id rows ≡ none
      → insert_row admits (from_domain c) rows ≡ ok (push rows (from_domain c))
  unfolding insert_row from_domain
  insert_row-from_domain r c rows e a f n = rw (conflicts_lem (from_domain c) rows, a, f, e, n) refl

  -- A batch of one resource, with new ids and no row yet for its devices, is taken whole.
  pub insert_rows-from_domain :
      (r : String) (cs : List ResourceVectorClock) (rows : Rows)
      → OfResource r cs
      → IsUnique cs
      → All (λ c. admits (from_domain c) ≡ true) cs
      → FreshIds cs (ids rows)
      → NoRow r rows cs
      → insert_rows admits (map from_domain cs) rows ≡ ok (rows ++ map from_domain cs)
  unfolding insert_rows
  insert_rows-from_domain r [] rows h u a f n = ap ok (sym (append-nil rows))
  insert_rows-from_domain r (c ∷ cs) rows h u a f n =
      rw (insert_row-from_domain r c rows h.0 a.0 f.0 n.0) (
        insert_rows-from_domain r cs (push rows (from_domain c)) h.1 u.1 a.1
          (rw (ids-push rows c) f.1) (NoRow-push r rows c cs h.0 u.0 n.1)
        ∙ ap ok (append_assoc rows (from_domain c ∷ []) (map from_domain cs)))

pub clock_at-append :
    (r d : String) (xs ys : Rows)
    → clock_at r d (xs ++ ys) ≡ or_else (clock_at r d xs) (clock_at r d ys)
clock_at-append r d xs ys = rw (row_at-append r d xs ys) (ground arith)

pub clock_at-from_domain :
    (r d : String) (cs : List ResourceVectorClock)
    → OfResource r cs
    → clock_at r d (map from_domain cs) ≡ Option.map (λ c. stored c.clock_value) (find_device d cs)
unfolding from_domain
clock_at-from_domain r d cs h = rw (row_at-from_domain r d cs h) (ground arith)
