-- ===== src/Rows.antt =====
-- A table whose only unique column is the id: the loop of insertions with `.on_conflict(id).do_nothing()`
-- that the repositories under persistance/src/repositories run in one transaction. `admits` says which
-- rows meet the foreign keys.
use osvauld.Prelude.{
  String, ◌==◌, eq_iff, Bool, Bool-cases, true, false, ◌||◌, ◌&&◌, List, [], ◌∷◌, map,
  if◌then◌else◌, filter, push, contains, All, ◌≡◌, refl, ap, ◌∙◌, inl, inr, arith,
}
use osvauld.Repository.{Result, ok, err, database_error, ◌>>=◌}

module _ {R : Type 0} (id_of : R → String) where
  unfoldable pub has_row : String → List R → Bool
  has_row a rows = contains (map id_of rows) a

  pub has_row-push :
      (a : String) (r : R) (rows : List R)
      → has_row a (push rows r) ≡ has_row a rows || id_of r == a
  unfolding has_row contains
  has_row-push a r [] = ground arith
  has_row-push a r (x ∷ rows) = ground (arith, has_row-push a r rows)

  pub has_row-cons :
      (a : String) (r : R) (rows : List R) → has_row a (r ∷ rows) ≡ id_of r == a || has_row a rows
  unfolding has_row contains
  has_row-cons a r rows = refl

  pub has_row-nil : (a : String) → has_row a [] ≡ false
  unfolding has_row contains
  has_row-nil a = refl

  pub has_row-filter :
      (p : R → Bool) (a : String) (r : R) (rows : List R)
      → has_row a (filter p (r ∷ rows)) ≡ (p r && id_of r == a) || has_row a (filter p rows)
  has_row-filter p a r rows = elim (Bool-cases (p r)) [
    | inl t ↦ rw t (has_row-cons a r (filter p rows))
    | inr f ↦ rw f refl
  ]

  pub filter-push :
      (p : R → Bool) (a : String) (r : R) (rows : List R)
      → has_row a (filter p (push rows r)) ≡ has_row a (filter p rows) || (p r && id_of r == a)
  filter-push p a r [] = ground (arith, has_row-filter p a r [], has_row-nil a)
  filter-push p a r (x ∷ rows) =
      ground (
        arith,
        has_row-filter p a x (push rows r),
        has_row-filter p a x rows,
        filter-push p a r rows,
      )

  module _ (admits : R → Bool) where
    unfoldable pub insert_row_or_ignore : R → List R → Result (List R)
    insert_row_or_ignore r rows =
        if has_row (id_of r) rows
        then ok rows
        else (if admits r then ok (push rows r) else err database_error)

    unfoldable pub insert_rows_or_ignore : List R → List R → Result (List R)
    insert_rows_or_ignore [] rows = ok rows
    insert_rows_or_ignore (r ∷ rs) rows =
        insert_row_or_ignore r rows >>= λ rows'. insert_rows_or_ignore rs rows'

    -- Admitted rows are all there afterwards, with the old ones and no others; the old rows stand first.
    pub record Inserted (rs rows rows' : List R) : Type 0 where
      pub ids : (a : String) → has_row a rows' ≡ has_row a rows || has_row a rs
      pub keeps :
          (p : R → Bool) (a : String)
          → has_row a (filter p rows) ≡ true
          → has_row a (filter p rows') ≡ true

    pub insert_rows-Inserted :
        (rs rows : List R)
        → All (λ r. admits r ≡ true) rs
        → (rows' : List R) × (insert_rows_or_ignore rs rows ≡ ok rows') × Inserted rs rows rows'
    unfolding insert_rows_or_ignore insert_row_or_ignore
    insert_rows-Inserted [] rows h =
        (rows, refl, record { ids = λ a. ground (arith, has_row-nil a); keeps = λ p a k. k })
    insert_rows-Inserted (r ∷ rs) rows (h, hs) = elim (Bool-cases (has_row (id_of r) rows)) [
      | inl t ↦
          let (rows', e, i) = insert_rows-Inserted rs rows hs in
          let same = λ (a : String) (s : id_of r == a ≡ true).
            ap (λ y. has_row y rows) ((eq_iff (id_of r) a).0 s) in
          (
            rows',
            rw t e,
            record {
              ids = λ a. ground (arith, i.ids a, t, same a, has_row-cons a r rs);
              keeps = i.keeps;
            },
          )
      | inr f ↦
          let (rows', e, i) = insert_rows-Inserted rs (push rows r) hs in
          (
            rows',
            rw (f, h) e,
            record {
              ids = λ a. ground (arith, i.ids a, has_row-push a r rows, has_row-cons a r rs);
              keeps = λ p a k. i.keeps p a (filter-push p a r rows ∙ rw k refl);
            },
          )
    ]
