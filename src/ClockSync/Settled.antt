-- ===== src/ClockSync/Settled.antt =====
-- After the vector clock exchange of network/src/p2p/resource_sync.rs, the comparison of
-- services/src/sync_service.rs finds nothing to do.
use osvauld.Prelude.{String, Bool, Bool-cases, false, List, ◌≡◌, sym, subst, ◌∙◌, inl, inr, arith}
use osvauld.Repository.{ok, Result-cases}
use osvauld.VectorClock.{ResourceVectorClock, merge}
use osvauld.ClockTable
use osvauld.ClockTable.{ResourceVectorClockModel, Rows, get_vector_clocks_for_resource}
use osvauld.ClockTable.Lookup.{clock_of-get}
use osvauld.ClockTable.Keys.{IsTable, update_vector_clocks-IsTable, get-IsUnique}
use osvauld.ClockSync.{merge_vector_clocks, update_vector_clocks, exchange}
use osvauld.ClockSync.Converge.{CanExchange, exchange-both}
use osvauld.Differences.{vector_clocks_need_update}
use osvauld.Compare.Clocks.{vector_clocks_need_update_lem}

merge_vector_clocks-IsTable :
    (admits : ResourceVectorClockModel → Bool) (r : String) (cs : List ResourceVectorClock)
    (rows rows' : Rows) (sent : List ResourceVectorClock × List ResourceVectorClock)
    → IsTable rows
    → merge_vector_clocks admits r cs rows ≡ ok (rows', sent)
    → IsTable rows'
unfolding merge_vector_clocks
merge_vector_clocks-IsTable admits r cs rows rows' sent t h =
    let m = merge (get_vector_clocks_for_resource r rows) cs in
    elim (Bool-cases m.local_needs_update) [
      | inr f ↦ subst IsTable (ground arith) t
      | inl y ↦
          elim (Result-cases
            (ClockTable.update_vector_clocks admits m.update_local m.add_local rows)) [
              | inl (rows'', e) ↦
                  subst IsTable (ground arith)
                    (update_vector_clocks-IsTable admits m.update_local m.add_local rows rows'' t e)
              | inr (x, e) ↦ absurd (ground arith)
            ]
    ]

exchange-IsTable :
    (admits_a admits_b : ResourceVectorClockModel → Bool) (r : String)
    (rows_a rows_b rows_a' rows_b' : Rows)
    → IsTable rows_a
    → IsTable rows_b
    → exchange admits_a admits_b r rows_a rows_b ≡ ok (rows_a', rows_b')
    → IsTable rows_a' × IsTable rows_b'
unfolding exchange update_vector_clocks
exchange-IsTable admits_a admits_b r rows_a rows_b rows_a' rows_b' t u h =
    elim (Result-cases
      (merge_vector_clocks admits_b r (get_vector_clocks_for_resource r rows_a) rows_b)) [
        | inr (x, e) ↦ absurd (ground arith)
        | inl ((b, (add, update)), e) ↦
            elim (Result-cases (ClockTable.update_vector_clocks admits_a update add rows_a)) [
              | inr (x, f) ↦ absurd (ground arith)
              | inl (a, f) ↦ (
                subst IsTable (ground arith)
                    (update_vector_clocks-IsTable admits_a update add rows_a a t f),
                subst IsTable (ground arith)
                    (merge_vector_clocks-IsTable admits_b r _ rows_b b (add, update) u e),
              )
            ]
      ]

-- Two tables with unique keys that can exchange do exchange, and then the comparison of the clocks
-- of the resource asks for no update.
pub exchange-settled :
    (admits_a admits_b : ResourceVectorClockModel → Bool) (r : String) (rows_a rows_b : Rows)
    → IsTable rows_a
    → IsTable rows_b
    → CanExchange admits_a admits_b r rows_a rows_b
    → (rows_a' : Rows) × (rows_b' : Rows) × (exchange admits_a admits_b r rows_a rows_b
        ≡ ok (rows_a', rows_b'))
      × (vector_clocks_need_update
            (get_vector_clocks_for_resource r rows_a')
            (get_vector_clocks_for_resource r rows_b')
          ≡ false)
exchange-settled admits_a admits_b r rows_a rows_b t u h =
    let (a, b, done, at_a, at_b, _) = exchange-both admits_a admits_b r rows_a rows_b h in
    let (v, w) = exchange-IsTable admits_a admits_b r rows_a rows_b a b t u done in
    (
      a,
      b,
      done,
      (vector_clocks_need_update_lem (get_vector_clocks_for_resource r a)
            (get_vector_clocks_for_resource r b) (get-IsUnique r a v)).1
          λ d. clock_of-get r d a ∙ at_a d ∙ sym (at_b d) ∙ sym (clock_of-get r d b),
    )
