-- ===== src/ClockSync.antt =====
-- The vector clock calls of services/src/resource_service.rs, and the part of the update exchange of
-- network/src/p2p/resource_sync.rs that moves vector clocks: `FinalUpdateMerge` carries the clocks of
-- one peer to the other, `VectorClockResponse` carries back what the first peer lacks.
pub mod Fitting
pub mod Converge
pub mod Settled
use osvauld.Prelude.{String, Bool, List, if◌then◌else◌}
use osvauld.Repository.{Result, ok, ◌>>=◌}
use osvauld.VectorClock.{ResourceVectorClock, merge}
use osvauld.ClockTable
use osvauld.ClockTable.{ResourceVectorClockModel, Rows, get_vector_clocks_for_resource}

module _ (admits : ResourceVectorClockModel → Bool) where
  -- The rows afterwards, and the pair that the call returns: entries to add, entries to update.
  unfoldable pub merge_vector_clocks :
      String
      → List ResourceVectorClock
      → Rows
      → Result (Rows × (List ResourceVectorClock × List ResourceVectorClock))
  merge_vector_clocks resource_id vector_clocks rows =
      let m = merge (get_vector_clocks_for_resource resource_id rows) vector_clocks in
      (if m.local_needs_update
        then ClockTable.update_vector_clocks admits m.update_local m.add_local rows
        else ok rows)
      >>= λ rows'. ok (rows', (m.add_remote, m.update_remote))

  unfoldable pub update_vector_clocks :
      List ResourceVectorClock → List ResourceVectorClock → Rows → Result Rows
  update_vector_clocks add_clock update_clock rows =
      ClockTable.update_vector_clocks admits update_clock add_clock rows

-- Peer `a` sends its clocks in `FinalUpdateMerge`; peer `b` merges them and answers with
-- `VectorClockResponse`, which `a` applies. Each peer has its own table.
unfoldable pub exchange :
    (ResourceVectorClockModel → Bool)
    → (ResourceVectorClockModel → Bool)
    → String
    → Rows
    → Rows
    → Result (Rows × Rows)
unfolding merge_vector_clocks update_vector_clocks
exchange admits_a admits_b resource_id rows_a rows_b =
    merge_vector_clocks admits_b resource_id (get_vector_clocks_for_resource resource_id rows_a)
      rows_b
    >>= λ (rows_b', (add_clock, update_clock)).
        update_vector_clocks admits_a add_clock update_clock rows_a >>= λ rows_a'.
        ok (rows_a', rows_b')
