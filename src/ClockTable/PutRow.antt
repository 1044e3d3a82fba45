-- ===== src/ClockTable/PutRow.antt =====
-- The write by id of `increment_vector_clock` in persistance/src/repositories/vector_clock_repository.rs.
use osvauld.Prelude.{
  String, ◌==◌, eq_iff, Bool-cases, true, false, ◌&&◌, some, [], ◌∷◌, if◌then◌else◌, contains, ◌≡◌,
  refl, sym, arith, ◌∙◌, ap, inl, inr,
}
use osvauld.ClockTable.{ResourceVectorClockModel, Rows, is_at, row_at, conflicts, put_row}
use osvauld.ClockTable.Lookup.{row_at-cons, row_at-nil}
use osvauld.ClockTable.Writes.{ids, is_at_same, is_at_other}
use osvauld.ClockTable.Inserts.{conflicts_lem}
use osvauld.ClockTable.Keys.{IsTable}

abbrev pub written : ResourceVectorClockModel → ResourceVectorClockModel → ResourceVectorClockModel
written model m = record m { clock_value = model.clock_value; updated_at = model.updated_at }

put_row-cons :
    (model m : ResourceVectorClockModel) (rows : Rows)
    → put_row model (m ∷ rows)
      ≡ (if m.id == model.id then written model m else m) ∷ put_row model rows
unfolding put_row
put_row-cons model m rows = refl

-- A row with another id is left alone.
put_row_absent :
    (model : ResourceVectorClockModel) (rows : Rows)
    → contains (ids rows) model.id ≡ false
    → put_row model rows ≡ rows
put_row_absent model [] h = unfold put_row in refl
put_row_absent model (m ∷ rows) h =
    let (miss, rest) : (m.id == model.id ≡ false) × (contains (ids rows) model.id ≡ false) =
      unfold contains in (ground arith, ground arith) in
    rw (put_row-cons model m rows, miss) (ap (λ xs. m ∷ xs) (put_row_absent model rows rest))

found-id :
    (r d : String) (rows : Rows) (m : ResourceVectorClockModel)
    → row_at r d rows ≡ some m
    → contains (ids rows) m.id ≡ true
unfolding contains
found-id r d [] m h = absurd (ground (arith, row_at-nil r d))
found-id r d (x ∷ rows) m h = elim (Bool-cases (is_at r d x)) [
  | inl t ↦
      let same : x ≡ m = ground (arith, row_at-cons r d x rows) in
      ground (arith, ap (λ y. y.id) same, eq_iff x.id m.id)
  | inr f ↦ ground (arith, found-id r d rows m (ground (arith, row_at-cons r d x rows)))
]

is_at-written :
    (s e : String) (model m : ResourceVectorClockModel) → is_at s e (written model m) ≡ is_at s e m
unfolding is_at
is_at-written s e model m = refl

-- The write by id touches the row that was found, and no other.
pub row_at-put_row :
    (r d s e : String) (model m : ResourceVectorClockModel) (rows : Rows)
    → IsTable rows
    → row_at r d rows ≡ some m
    → model.id ≡ m.id
    → row_at s e (put_row model rows)
      ≡ (if r == s && d == e then some (written model m) else row_at s e rows)
row_at-put_row r d s e model m [] t h i = absurd (ground (arith, row_at-nil r d))
row_at-put_row r d s e model m (x ∷ rows) t h i = elim (Bool-cases (is_at r d x)) [
  | inl hit ↦
      let same : x ≡ m = ground (arith, row_at-cons r d x rows) in
      let hit_id : x.id == model.id ≡ true =
        (eq_iff x.id model.id).1 (ap (λ y. y.id) same ∙ sym i) in
      let alone : contains (ids rows) model.id ≡ false =
        ap (contains (ids rows)) (i ∙ sym (ap (λ y. y.id) same)) ∙ no_id x rows t.0 in
      rw (put_row-cons model x rows, hit_id, put_row_absent model rows alone)
        (row_at-cons s e (written model x) rows
          ∙ rw (is_at-written s e model x) (first s e x same hit))
  | inr miss ↦
      let later : row_at r d rows ≡ some m = ground (arith, row_at-cons r d x rows) in
      let miss_id : (x.id == model.id) ≡ false = other_id x rows t.0 later in
      rw (put_row-cons model x rows, miss_id)
        (ground (
          arith,
          row_at-cons s e x (put_row model rows),
          row_at-cons s e x rows,
          row_at-put_row r d s e model m rows t.1 later i,
          later_key x miss,
        ))
]
  where
    no_id :
        (x : ResourceVectorClockModel) (rows : Rows)
        → conflicts x rows ≡ false
        → contains (ids rows) x.id ≡ false
    no_id x rows c = ground (arith, conflicts_lem x rows)

    first :
        (s e : String) (x : ResourceVectorClockModel)
        → x ≡ m
        → is_at r d x ≡ true
        → (if is_at s e x then some (written model x) else row_at s e rows)
          ≡ (if r == s && d == e then some (written model m) else row_at s e (x ∷ rows))
    first s e x same hit = elim (Bool-cases (is_at s e x)) [
      | inl t ↦ rw (t, sym (is_at_same r d s e x hit) ∙ t) (ap (λ y. some (written model y)) same)
      | inr f ↦ ground (arith, is_at_same r d s e x hit, row_at-cons s e x rows)
    ]

    other_id :
        (x : ResourceVectorClockModel) (rows : Rows)
        → conflicts x rows ≡ false
        → row_at r d rows ≡ some m
        → x.id == model.id ≡ false
    other_id x rows c later = elim (Bool-cases (x.id == model.id)) [
      | inr f ↦ f
      | inl t ↦
          let same : x.id ≡ m.id = (eq_iff x.id model.id).0 t ∙ i in
          absurd (
            ground
              (arith, found-id r d rows m later, ap (contains (ids rows)) same, no_id x rows c))
    ]

    later_key :
        (x : ResourceVectorClockModel)
        → is_at r d x ≡ false
        → is_at s e x ≡ true
        → (r == s && d == e) ≡ false
    later_key x miss = is_at_other r d s e x miss
