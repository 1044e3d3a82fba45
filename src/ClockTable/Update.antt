-- ===== src/ClockTable/Update.antt =====
-- `update_vector_clocks` of persistance/src/repositories/vector_clock_repository.rs, as a whole.
use mathlib.Core.Option
use osvauld.Prelude.{
  String, ◌==◌, eq_iff, if◌then◌else◌, Bool-cases, inl, inr, Bool, true, List, [], ◌∷◌, ◌++◌, map,
  append-nil, or_else, All, ◌≡◌, ◌≢◌, refl, sym, arith, ◌∙◌, ap,
}
use osvauld.Repository.{ok}
use osvauld.VectorClock.{ResourceVectorClock, find_device}
use osvauld.VectorClock.Search.{IsUnique}
use osvauld.ClockTable.{
  ResourceVectorClockModel, from_domain, Rows, update_rows, insert_rows, update_vector_clocks,
}
use osvauld.ClockTable.Lookup.{clock_at, stored}
use osvauld.ClockTable.Writes.{
  OfResource, overwrite, ids, ids-update_rows, is_some-update_rows, clock_at-update_rows,
  clock_at-update_rows_ne,
}
use osvauld.ClockTable.Inserts.{
  FreshIds, NoRow, insert_rows-from_domain, clock_at-append, clock_at-from_domain,
  row_at-from_domain_ne,
}

NoRow-update_rows :
    (r : String) (rows : Rows) (us cs : List ResourceVectorClock)
    → NoRow r rows cs
    → NoRow r (update_rows us rows) cs
NoRow-update_rows r rows us [] n = tt
NoRow-update_rows r rows us (c ∷ cs) n = (
  ground (arith, is_some-update_rows r c.device_id us rows, n.0),
  NoRow-update_rows r rows us cs n.1,
)

-- What makes a batch for the resource `r` acceptable to the table.
pub record Fits (admits : ResourceVectorClockModel → Bool) (r : String)
    (updates adds : List ResourceVectorClock) (rows : Rows) : Type 0 where
  pub updates_of : OfResource r updates
  pub adds_of : OfResource r adds
  pub updates_unique : IsUnique updates
  pub adds_unique : IsUnique adds
  pub admitted : All (λ c. admits (from_domain c) ≡ true) adds
  pub fresh : FreshIds adds (ids rows)
  pub no_row : NoRow r rows adds

updated_rows : List ResourceVectorClock → List ResourceVectorClock → Rows → Rows
updated_rows updates adds rows = update_rows updates rows ++ map from_domain adds

module _ (admits : ResourceVectorClockModel → Bool) (r : String)
    (updates adds : List ResourceVectorClock) (rows : Rows)
    (h : Fits admits r updates adds rows) where
  update_vector_clocks-eq_ok :
      update_vector_clocks admits updates adds rows ≡ ok (updated_rows updates adds rows)
  unfolding update_vector_clocks updated_rows
  update_vector_clocks-eq_ok = go adds inserted
    where
      inserted :
          insert_rows admits (map from_domain adds) (update_rows updates rows)
          ≡ ok (update_rows updates rows ++ map from_domain adds)
      inserted =
          insert_rows-from_domain admits r adds (update_rows updates rows) h.adds_of h.adds_unique
            h.admitted (rw (ids-update_rows updates rows) h.fresh)
            (NoRow-update_rows r rows updates adds h.no_row)

      go :
          (xs : List ResourceVectorClock)
          → insert_rows admits (map from_domain xs) (update_rows updates rows)
            ≡ ok (update_rows updates rows ++ map from_domain xs)
          → update_vector_clocks admits updates xs rows
            ≡ ok (update_rows updates rows ++ map from_domain xs)
      go [] e = ap ok (sym (append-nil _))
      go (x ∷ xs) e = e

  clock_at-updated_rows :
      (d : String)
      → clock_at r d (updated_rows updates adds rows)
        ≡ or_else
            (overwrite (find_device d updates) (clock_at r d rows))
            (Option.map (λ c. stored c.clock_value) (find_device d adds))
  unfolding updated_rows
  clock_at-updated_rows d =
      clock_at-append r d (update_rows updates rows) (map from_domain adds)
      ∙ rw
          (
            clock_at-update_rows r d updates rows h.updates_of h.updates_unique,
            clock_at-from_domain r d adds h.adds_of,
          )
          refl

  clock_at-updated_rows_ne :
      (s d : String) → r ≢ s → clock_at s d (updated_rows updates adds rows) ≡ clock_at s d rows
  unfolding updated_rows
  clock_at-updated_rows_ne s d n =
      clock_at-append s d (update_rows updates rows) (map from_domain adds)
      ∙ rw
          (
            clock_at-update_rows_ne r s d updates rows h.updates_of n,
            row_at-from_domain_ne r s d adds h.adds_of n,
          )
          (ground arith)

-- The batch is one transaction that writes every update, adds every new entry, and leaves the clocks of all other resources alone.
pub update_vector_clocks-both :
    (admits : ResourceVectorClockModel → Bool) (r : String)
    (updates adds : List ResourceVectorClock) (rows : Rows)
    → Fits admits r updates adds rows
    → (rows' : Rows) × (update_vector_clocks admits updates adds rows ≡ ok rows')
      × ((d : String)
          → clock_at r d rows'
            ≡ or_else
                (overwrite (find_device d updates) (clock_at r d rows))
                (Option.map (λ c. stored c.clock_value) (find_device d adds)))
      × ((s d : String) → r ≢ s → clock_at s d rows' ≡ clock_at s d rows)
update_vector_clocks-both admits r updates adds rows h = (
  updated_rows updates adds rows,
  update_vector_clocks-eq_ok admits r updates adds rows h,
  clock_at-updated_rows admits r updates adds rows h,
  clock_at-updated_rows_ne admits r updates adds rows h,
)

-- A batch that fits the table is taken whole. Then for its resource every update that has a row is
-- written and every new entry is there, and the clocks of all other resources are as they were.
pub update_vector_clocks_lem :
    (admits : ResourceVectorClockModel → Bool) (r : String)
    (updates adds : List ResourceVectorClock) (rows : Rows)
    → Fits admits r updates adds rows
    → (rows' : Rows) × (update_vector_clocks admits updates adds rows ≡ ok rows')
      × ((s d : String)
          → clock_at s d rows' ≡ (
              if r == s
              then or_else
                  (overwrite (find_device d updates) (clock_at s d rows))
                  (Option.map (λ c. stored c.clock_value) (find_device d adds))
              else clock_at s d rows))
update_vector_clocks_lem admits r updates adds rows h =
    let (rows', done, at, other) = update_vector_clocks-both admits r updates adds rows h in
    (
      rows',
      done,
      λ s d. elim (Bool-cases (r == s)) [
        | inl t ↦ rw (t, ← (eq_iff r s).0 t) (at d)
        | inr f ↦ rw f (other s d (λ e. ground (arith, f, (eq_iff r s).1 e)))
      ],
    )
