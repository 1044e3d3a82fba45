-- ===== src/Tests/Data.antt =====
-- Two peers, `a` and `b`, with the clocks of one resource.
use osvauld.Prelude.{ℕ, ◌+◌, String, Bool, true, [], ◌∷◌}
use osvauld.VectorClock.{ResourceVectorClock}
use osvauld.ClockTable.{ResourceVectorClockModel, Rows}

abbrev pub entry : String → String → ℕ → ResourceVectorClock
entry id device value = record {
  id = id;
  resource_id = "note";
  device_id = device;
  clock_value = value;
  created_at = 10;
  updated_at = 20;
}

abbrev pub row : String → String → ℕ → ResourceVectorClockModel
row id device value = record {
  id = id;
  resource_id = "note";
  device_id = device;
  clock_value = value;
  created_at = 10;
  updated_at = 20;
}

-- `laptop` is ahead at `a`, `phone` at `b`, and each side has an entry that the other lacks.
abbrev pub rows_a : Rows
rows_a = row "1" "laptop" 5 ∷ row "2" "phone" 1 ∷ row "3" "tablet" 2 ∷ []

abbrev pub rows_b : Rows
rows_b = row "4" "laptop" 3 ∷ row "5" "phone" 7 ∷ row "6" "desktop" 4 ∷ []

abbrev pub admits_all : ResourceVectorClockModel → Bool
admits_all row = true

-- The first stamps of a run.
abbrev pub stamp : ℕ → String × ℕ
stamp k = ("new", 100 + k)
