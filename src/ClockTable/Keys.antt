-- ===== src/ClockTable/Keys.antt =====
-- The keys of the table `resource_vector_clocks`, and that every write of
-- persistance/src/repositories/vector_clock_repository.rs keeps them.
use osvauld.Prelude.{
  ℕ, ◌+◌, ◌%◌, ◌^◌, String, ◌==◌, eq_iff, eq_comm, Bool, Bool-cases, true, false, not, ◌&&◌, ◌||◌,
  Option-cases, List, [], ◌∷◌, map, if◌then◌else◌, push, is_some, ◌≡◌, refl, arith, ◌∙◌, ap, subst,
  inl, inr,
}
use osvauld.Repository.{ok, Result-cases}
use osvauld.VectorClock.{ResourceVectorClock, has_device, initialize}
use osvauld.VectorClock.Search.{IsUnique, has_device-find}
use osvauld.ClockTable.{
  ResourceVectorClockModel, from_domain, into_domain, Rows, is_at, row_at, conflicts, put_row,
  update_row, update_rows, insert_row, insert_rows, save_vector_clocks, save_vector_clock,
  update_vector_clocks, increment_vector_clock, get_vector_clocks_for_resource,
}
use osvauld.ClockTable.Lookup.{find_device-get}
use osvauld.ClockTable.Inserts.{conflicts_lem}

-- No two rows have the same id, or the same resource and device.
abbrev pub IsTable : Rows → Type 0
IsTable [] = Unit
IsTable (m ∷ rows) = (conflicts m rows ≡ false) × IsTable rows

clash : ResourceVectorClockModel → ResourceVectorClockModel → Bool
unfolding is_at
clash a b = b.id == a.id || (b.resource_id == a.resource_id && b.device_id == a.device_id)

clash_comm : (a b : ResourceVectorClockModel) → clash a b ≡ clash b a
unfolding clash
clash_comm a b =
    ground (
      arith,
      eq_comm a.id b.id,
      eq_comm a.resource_id b.resource_id,
      eq_comm a.device_id b.device_id,
    )

conflicts-cons :
    (a m : ResourceVectorClockModel) (rows : Rows)
    → conflicts a (m ∷ rows) ≡ clash a m || conflicts a rows
unfolding conflicts clash is_at
conflicts-cons a m rows = refl

conflicts-nil : (a : ResourceVectorClockModel) → conflicts a [] ≡ false
unfolding conflicts
conflicts-nil a = refl

conflicts-push :
    (a m : ResourceVectorClockModel) (rows : Rows)
    → conflicts a (push rows m) ≡ conflicts a rows || clash a m
conflicts-push a m [] = ground (arith, conflicts-cons a m [], conflicts-nil a)
conflicts-push a m (x ∷ rows) =
    ground
      (arith, conflicts-cons a x rows, conflicts-cons a x (push rows m), conflicts-push a m rows)

push-IsTable :
    (m : ResourceVectorClockModel) (rows : Rows)
    → conflicts m rows ≡ false
    → IsTable rows
    → IsTable (push rows m)
push-IsTable m [] c t = (conflicts-nil m, tt)
push-IsTable m (x ∷ rows) c t = (
  ground (arith, conflicts-push x m rows, conflicts-cons m x rows, clash_comm x m, t.0),
  push-IsTable m rows (ground (arith, conflicts-cons m x rows)) t.1,
)

-- A pass that leaves the keys of every row.
abbrev Keeps : (ResourceVectorClockModel → ResourceVectorClockModel) → Type 0
Keeps f =
    (m : ResourceVectorClockModel)
    → ((f m).id ≡ m.id) × ((f m).resource_id ≡ m.resource_id) × ((f m).device_id ≡ m.device_id)

clash_kept :
    (f : ResourceVectorClockModel → ResourceVectorClockModel)
    → Keeps f
    → (a b : ResourceVectorClockModel) → clash (f a) (f b) ≡ clash a b
unfolding clash
clash_kept f k a b = let (p, q, r) = k a in let (u, v, w) = k b in rw (p, q, r, u, v, w) refl

conflicts-map :
    (f : ResourceVectorClockModel → ResourceVectorClockModel)
    → Keeps f
    → (a : ResourceVectorClockModel) (rows : Rows) → conflicts (f a) (map f rows) ≡ conflicts a rows
conflicts-map f k a [] = unfold conflicts in refl
conflicts-map f k a (m ∷ rows) = ground (
  arith,
  conflicts-cons a m rows,
  conflicts-cons (f a) (f m) (map f rows),
  clash_kept f k a m,
  conflicts-map f k a rows,
)

map-IsTable :
    (f : ResourceVectorClockModel → ResourceVectorClockModel)
    → Keeps f
    → (rows : Rows) → IsTable rows
    → IsTable (map f rows)
map-IsTable f k [] t = tt
map-IsTable f k (m ∷ rows) t = (conflicts-map f k m rows ∙ t.0, map-IsTable f k rows t.1)

pub update_rows-IsTable :
    (cs : List ResourceVectorClock) (rows : Rows) → IsTable rows → IsTable (update_rows cs rows)
unfolding update_rows
update_rows-IsTable [] rows t = t
update_rows-IsTable (c ∷ cs) rows t = update_rows-IsTable cs (update_row c rows) (one c rows t)
  where
    one : (c : ResourceVectorClock) (rows : Rows) → IsTable rows → IsTable (update_row c rows)
    one c rows t = unfold update_row in map-IsTable _ (λ m. ground arith) rows t

pub put_row-IsTable :
    (model : ResourceVectorClockModel) (rows : Rows) → IsTable rows → IsTable (put_row model rows)
unfolding put_row
put_row-IsTable model rows t = map-IsTable _ (λ m. ground arith) rows t

module _ (admits : ResourceVectorClockModel → Bool) where
  pub insert_row-IsTable :
      (m : ResourceVectorClockModel) (rows rows' : Rows)
      → IsTable rows
      → insert_row admits m rows ≡ ok rows'
      → IsTable rows'
  unfolding insert_row
  insert_row-IsTable m rows rows' t h = elim (Bool-cases (admits m && not (conflicts m rows))) [
    | inl b ↦
        let same : push rows m ≡ rows' = ground arith in
        subst IsTable same (push-IsTable m rows (ground arith) t)
    | inr b ↦ absurd (ground arith)
  ]

  pub insert_rows-IsTable :
      (ms : List ResourceVectorClockModel) (rows rows' : Rows)
      → IsTable rows
      → insert_rows admits ms rows ≡ ok rows'
      → IsTable rows'
  unfolding insert_rows
  insert_rows-IsTable [] rows rows' t h = subst IsTable (ground arith) t
  insert_rows-IsTable (m ∷ ms) rows rows' t h = elim (Result-cases (insert_row admits m rows)) [
    | inl (between, e) ↦
        insert_rows-IsTable ms between rows' (insert_row-IsTable m rows between t e) (ground arith)
    | inr (x, e) ↦ absurd (ground arith)
  ]

get-cons :
    (r : String) (m : ResourceVectorClockModel) (rows : Rows)
    → get_vector_clocks_for_resource r (m ∷ rows) ≡ (
        if m.resource_id == r
        then into_domain m ∷ get_vector_clocks_for_resource r rows
        else get_vector_clocks_for_resource r rows)
unfolding get_vector_clocks_for_resource
get-cons r m rows = ground arith

lone :
    (r : String) (m : ResourceVectorClockModel) (rows : Rows)
    → m.resource_id == r ≡ true
    → conflicts m rows ≡ false
    → has_device (into_domain m).device_id (get_vector_clocks_for_resource r rows) ≡ false
unfolding into_domain
lone r m rows hit c =
    let none_at : is_some (row_at m.resource_id m.device_id rows) ≡ false =
      ground (arith, conflicts_lem m rows) in
    let moved = ap (λ x. row_at x m.device_id rows) ((eq_iff m.resource_id r).0 hit) in
    ground (
      arith,
      has_device-find m.device_id (get_vector_clocks_for_resource r rows),
      find_device-get r m.device_id rows,
      moved,
      none_at,
    )

-- The clocks of one resource have one entry for each device.
pub get-IsUnique :
    (r : String) (rows : Rows) → IsTable rows → IsUnique (get_vector_clocks_for_resource r rows)
get-IsUnique r [] t = unfold get_vector_clocks_for_resource in tt
get-IsUnique r (m ∷ rows) t = elim (Bool-cases (m.resource_id == r)) [
  | inl hit ↦ rw (get-cons r m rows, hit) (lone r m rows hit t.0, get-IsUnique r rows t.1)
  | inr miss ↦ rw (get-cons r m rows, miss) (get-IsUnique r rows t.1)
]

module _ (admits : ResourceVectorClockModel → Bool) where
  pub save_vector_clocks-IsTable :
      (cs : List ResourceVectorClock) (rows rows' : Rows)
      → IsTable rows
      → save_vector_clocks admits cs rows ≡ ok rows'
      → IsTable rows'
  unfolding save_vector_clocks
  save_vector_clocks-IsTable [] rows rows' t h = subst IsTable (ground arith) t
  save_vector_clocks-IsTable (c ∷ cs) rows rows' t h =
      insert_rows-IsTable admits (map from_domain (c ∷ cs)) rows rows' t h

  pub save_vector_clock-IsTable :
      (c : ResourceVectorClock) (rows rows' : Rows)
      → IsTable rows
      → save_vector_clock admits c rows ≡ ok rows'
      → IsTable rows'
  unfolding save_vector_clock
  save_vector_clock-IsTable c rows rows' t h =
      elim (Option-cases (row_at c.resource_id c.device_id rows)) [
        | inl n ↦ insert_row-IsTable admits (from_domain c) rows rows' t (ground arith)
        | inr (m, e) ↦ subst IsTable (ground arith) t
      ]

  pub update_vector_clocks-IsTable :
      (us xs : List ResourceVectorClock) (rows rows' : Rows)
      → IsTable rows
      → update_vector_clocks admits us xs rows ≡ ok rows'
      → IsTable rows'
  unfolding update_vector_clocks
  update_vector_clocks-IsTable us [] rows rows' t h =
      subst IsTable (ground arith) (update_rows-IsTable us rows t)
  update_vector_clocks-IsTable us (x ∷ xs) rows rows' t h =
      insert_rows-IsTable admits (map from_domain (x ∷ xs)) (update_rows us rows) rows'
        (update_rows-IsTable us rows t) h

  pub increment_vector_clock-IsTable :
      (stamp : ℕ → String × ℕ) (k : ℕ) (r d : String) (rows rows' : Rows) (c : ResourceVectorClock)
      → IsTable rows
      → increment_vector_clock admits stamp k r d rows ≡ ok (rows', c)
      → IsTable rows'
  unfolding increment_vector_clock
  increment_vector_clock-IsTable stamp k r d rows rows' c t h =
      elim (Option-cases (row_at r d rows)) [
        | inr (m, e) ↦ subst IsTable (ground arith) (
            put_row-IsTable
              (record m { clock_value = (m.clock_value + 1) % 2 ^ 32; updated_at = (stamp k).1 })
              rows t)
        | inl n ↦
            elim (Result-cases
              (insert_row admits (from_domain (initialize stamp (k + 1) r d)) rows)) [
                | inl (rows'', e) ↦
                    subst IsTable (ground arith) (insert_row-IsTable admits _ rows rows'' t e)
                | inr (x, e) ↦ absurd (ground arith)
              ]
      ]
