-- ===== src/ClockTable/Reachable.antt =====
-- The tables that the writes of persistance/src/repositories/vector_clock_repository.rs can lead to.
use osvauld.Prelude.{ℕ, String, Bool, List, [], ◌≡◌}
use osvauld.Repository.{ok}
use osvauld.VectorClock.{ResourceVectorClock}
use osvauld.VectorClock.Search.{IsUnique}
use osvauld.ClockTable.{
  ResourceVectorClockModel, Rows, save_vector_clocks, save_vector_clock, update_vector_clocks,
  increment_vector_clock, get_vector_clocks_for_resource,
}
use osvauld.ClockTable.Keys.{
  IsTable, save_vector_clocks-IsTable, save_vector_clock-IsTable, update_vector_clocks-IsTable,
  increment_vector_clock-IsTable, get-IsUnique,
}

module _ (admits : ResourceVectorClockModel → Bool) (stamp : ℕ → String × ℕ) where
  -- One successful call. A call that fails is rolled back and is no step.
  pub data Step : Rows → Rows → Type 0 where
    save_many :
        (cs : List ResourceVectorClock) (rows rows' : Rows)
        → save_vector_clocks admits cs rows ≡ ok rows'
        → Step rows rows'
    save_one :
        (c : ResourceVectorClock) (rows rows' : Rows)
        → save_vector_clock admits c rows ≡ ok rows'
        → Step rows rows'
    update :
        (us xs : List ResourceVectorClock) (rows rows' : Rows)
        → update_vector_clocks admits us xs rows ≡ ok rows'
        → Step rows rows'
    increment :
        (k : ℕ) (r d : String) (c : ResourceVectorClock) (rows rows' : Rows)
        → increment_vector_clock admits stamp k r d rows ≡ ok (rows', c)
        → Step rows rows'

  pub data Reachable : Rows → Type 0 where
    empty : Reachable []
    next : (rows rows' : Rows) → Reachable rows → Step rows rows' → Reachable rows'

  Step-IsTable : (rows rows' : Rows) → Step rows rows' → IsTable rows → IsTable rows'
  Step-IsTable _ _ (save_many cs rows rows' h) t =
      save_vector_clocks-IsTable admits cs rows rows' t h
  Step-IsTable _ _ (save_one c rows rows' h) t = save_vector_clock-IsTable admits c rows rows' t h
  Step-IsTable _ _ (update us xs rows rows' h) t =
      update_vector_clocks-IsTable admits us xs rows rows' t h
  Step-IsTable _ _ (increment k r d c rows rows' h) t =
      increment_vector_clock-IsTable admits stamp k r d rows rows' c t h

  pub Reachable-IsTable : (rows : Rows) → Reachable rows → IsTable rows
  Reachable-IsTable _ empty = tt
  Reachable-IsTable _ (next rows rows' h s) = Step-IsTable rows rows' s (Reachable-IsTable rows h)

  -- In every table that the writes lead to from the empty one, no two rows share an id or share a
  -- resource and a device, so the clock that is read for a resource has one entry for each device.
  pub Reachable-IsUnique :
      (rows : Rows)
      → Reachable rows
      → IsTable rows × ((r : String) → IsUnique (get_vector_clocks_for_resource r rows))
  Reachable-IsUnique rows h =
      (Reachable-IsTable rows h, λ r. get-IsUnique r rows (Reachable-IsTable rows h))
