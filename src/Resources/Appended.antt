-- ===== src/Resources/Appended.antt =====
-- What the insertions of a received resource append, and what reads back of it:
-- persistance/src/repositories/resource_repository.rs.
use osvauld.Prelude.{
  ◌<◌, ◌^◌, String, ◌==◌, eq_iff, eq_refl, Bool, Bool-cases, true, false, ◌&&◌, List, [], ◌∷◌, ◌++◌,
  map, filter, push, contains, contains-push, Distinct, All, ◌≡◌, refl, sym, ap, subst, ◌∙◌, inl,
  inr, arith,
}
use osvauld.Repository.{Result-cases, ok}
use osvauld.VectorClock.{ResourceVectorClock}
use osvauld.Share.{
  ShareRecord, ShareRecordModel, ShareRows, row_ids, record_ids, to_model, to_domain,
  insert_or_ignore, insert_all,
}
use osvauld.ClockTable.{
  ResourceVectorClockModel, Rows, to_i32, to_u64, from_domain, into_domain, insert_row,
}
use osvauld.Resources.{Admits, clock_ids, insert_clock, insert_clocks}

push-append : {A : Type 0} (xs ys : List A) (x : A) → push xs x ++ ys ≡ xs ++ (x ∷ ys)
push-append [] ys x = refl
push-append (y ∷ xs) ys x = ap (λ r. y ∷ r) (push-append xs ys x)

pub filter-append :
    {A : Type 0} (p : A → Bool) (xs ys : List A) → filter p (xs ++ ys) ≡ filter p xs ++ filter p ys
filter-append p [] ys = refl
filter-append p (x ∷ xs) ys = elim (Bool-cases (p x)) [
  | inl t ↦ rw t (ap (λ r. x ∷ r) (filter-append p xs ys))
  | inr f ↦ rw f (filter-append p xs ys)
]

append_none : {A : Type 0} (xs : List A) → xs ++ [] ≡ xs
append_none [] = refl
append_none (x ∷ xs) = ap (λ r. x ∷ r) (append_none xs)

-- No id is in both lists.
abbrev pub Apart : List String → List String → Type 0
Apart xs ys = (x : String) → contains xs x && contains ys x ≡ false

Apart-push :
    (c : String) (xs ys : List String)
    → contains xs c ≡ false
    → Apart (c ∷ xs) ys
    → Apart xs (push ys c)
unfolding contains
Apart-push c xs ys n a x =
    let same = λ (e : c == x ≡ true). ap (contains xs) ((eq_iff c x).0 e) in
    ground (arith, contains-push ys c x, a x, same)

Apart-head : (c : String) (xs ys : List String) → Apart (c ∷ xs) ys → contains ys c ≡ false
unfolding contains
Apart-head c xs ys a = ground (arith, a c, eq_refl c)

abbrev pub sent_clock_ids : List ResourceVectorClock → List String
sent_clock_ids = map λ c. c.id

module _ (admits : Admits) where
  insert_row-push :
      (m : ResourceVectorClockModel) (rows rows' : Rows)
      → insert_row admits.clock m rows ≡ ok rows'
      → rows' ≡ push rows m
  unfolding insert_row
  insert_row-push m rows rows' h = ground arith

  clock_ids-push :
      (m : ResourceVectorClockModel) (rows : Rows)
      → clock_ids (push rows m) ≡ push (clock_ids rows) m.id
  clock_ids-push m [] = refl
  clock_ids-push m (x ∷ rows) = ap (λ r. x.id ∷ r) (clock_ids-push m rows)

  -- New clocks are all put at the end.
  pub insert_clocks-append :
      (cs : List ResourceVectorClock) (rows rows' : Rows)
      → insert_clocks admits cs rows ≡ ok rows'
      → Distinct (sent_clock_ids cs)
      → Apart (sent_clock_ids cs) (clock_ids rows)
      → rows' ≡ rows ++ map from_domain cs
  unfolding insert_clocks insert_clock from_domain
  insert_clocks-append [] rows rows' h d a =
      let same : rows ≡ rows' = ground arith in sym same ∙ sym (append_none rows)
  insert_clocks-append (c ∷ cs) rows rows' h (n, d) a =
      elim (Result-cases (insert_row admits.clock (from_domain c) rows)) [
        | inr (e, f) ↦
            absurd (ground (arith, Apart-head c.id (sent_clock_ids cs) (clock_ids rows) a))
        | inl (mid, f) ↦
            let end = insert_row-push (from_domain c) rows mid f in
            let apart =
              subst (Apart (sent_clock_ids cs))
                (sym (clock_ids-push (from_domain c) rows) ∙ ap clock_ids (sym end))
                (Apart-push c.id (sent_clock_ids cs) (clock_ids rows) n a) in
            insert_clocks-append cs mid rows'
              (ground (arith, Apart-head c.id (sent_clock_ids cs) (clock_ids rows) a)) d apart
            ∙ (ap (λ r. r ++ map from_domain cs) end
                ∙ push-append rows (map from_domain cs) (from_domain c))
      ]

  row_ids-push :
      (m : ShareRecordModel) (rows : ShareRows) → row_ids (push rows m) ≡ push (row_ids rows) m.id
  row_ids-push m [] = refl
  row_ids-push m (x ∷ rows) = ap (λ r. x.id ∷ r) (row_ids-push m rows)

  insert_or_ignore-push :
      (r : ShareRecord) (rows rows' : ShareRows)
      → contains (row_ids rows) r.id ≡ false
      → insert_or_ignore admits.share r rows ≡ ok rows'
      → rows' ≡ push rows (to_model r)
  unfolding insert_or_ignore
  insert_or_ignore-push r rows rows' n h = ground arith

  -- New share records are all put at the end.
  pub insert_all-append :
      (rs : List ShareRecord) (rows rows' : ShareRows)
      → insert_all admits.share rs rows ≡ ok rows'
      → Distinct (record_ids rs)
      → Apart (record_ids rs) (row_ids rows)
      → rows' ≡ rows ++ map to_model rs
  unfolding insert_all to_model
  insert_all-append [] rows rows' h d a =
      let same : rows ≡ rows' = ground arith in sym same ∙ sym (append_none rows)
  insert_all-append (r ∷ rs) rows rows' h (n, d) a =
      elim (Result-cases (insert_or_ignore admits.share r rows)) [
        | inr (e, f) ↦ absurd (ground arith)
        | inl (mid, f) ↦
            let end =
              insert_or_ignore-push r rows mid (Apart-head r.id (record_ids rs) (row_ids rows) a)
                f in
            let apart =
              subst (Apart (record_ids rs))
                (sym (row_ids-push (to_model r) rows) ∙ ap row_ids (sym end))
                (Apart-push r.id (record_ids rs) (row_ids rows) n a) in
            insert_all-append rs mid rows' (ground arith) d apart
            ∙ (ap (λ x. x ++ map to_model rs) end ∙ push-append rows (map to_model rs) (to_model r))
      ]

-- What was sent of the rows of a resource reads back as it was.
clock_back :
    (m : ResourceVectorClockModel) → m.clock_value < 2 ^ 32 → from_domain (into_domain m) ≡ m
unfolding from_domain into_domain to_i32 to_u64
clock_back m h =
    let same : to_i32 (to_u64 m.clock_value) ≡ m.clock_value = ground arith in rw same refl

abbrev pub Stored : Rows → Type 0
Stored = All λ m. m.clock_value < 2 ^ 32

pub clocks_back :
    (r : String) (rows : Rows)
    → Stored rows
    → filter
        (λ m. m.resource_id == r)
        (map from_domain (map into_domain (filter (λ m. m.resource_id == r) rows)))
      ≡ filter (λ m. m.resource_id == r) rows
clocks_back r [] a = refl
clocks_back r (m ∷ rows) (b, a) = elim (Bool-cases (m.resource_id == r)) [
  | inr f ↦ rw f (clocks_back r rows a)
  | inl t ↦ rw (t, clock_back m b, t) (ap (λ x. m ∷ x) (clocks_back r rows a))
]

pub shares_back :
    (r : String) (rows : ShareRows)
    → row_ids (
        filter
          (λ m. m.resource_id == r)
          (map to_model (map to_domain (filter (λ m. m.resource_id == r) rows))))
      ≡ row_ids (filter (λ m. m.resource_id == r) rows)
unfolding to_model to_domain
shares_back r [] = refl
shares_back r (m ∷ rows) = elim (Bool-cases (m.resource_id == r)) [
  | inr f ↦ rw f (shares_back r rows)
  | inl t ↦ rw (t, t) (ap (λ x. m.id ∷ x) (shares_back r rows))
]
