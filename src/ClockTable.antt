-- ===== src/ClockTable.antt =====
-- persistance/src/repositories/vector_clock_repository.rs over the table `resource_vector_clocks`,
-- a list of rows in the order of insertion. `admits` says which rows meet the foreign keys, and
-- `stamp` what `Uuid::new_v4` and `Local::now` return at the k-th call.
pub mod Lookup
pub mod Writes
pub mod Inserts
pub mod Update
pub mod Keys
pub mod PutRow
pub mod Increment
pub mod Reachable
use osvauld.Prelude.{
  ℕ, ◌+◌, ◌-◌, ◌%◌, ◌^◌, String, ◌==◌, Bool, not, ◌&&◌, ◌||◌, Option, none, some, List, [], ◌∷◌,
  map, if◌then◌else◌, ltb, find, any, filter, push, is_empty, contains, to_set,
}
use osvauld.Repository.{Result, ok, err, database_error, ◌>>=◌, first_or_not_found}
use osvauld.VectorClock.{ResourceVectorClock, initialize}

-- The struct of persistance/src/models.rs. `clock_value` is an `i32`, kept as its bit pattern.
pub record ResourceVectorClockModel : Type 0 where
  pub id : String
  pub resource_id : String
  pub device_id : String
  pub clock_value : ℕ
  pub created_at : ℕ
  pub updated_at : ℕ

-- `v as i32` of a `u64`, and `p as u64` of an `i32`, which extends the sign.
unfoldable pub to_i32 : ℕ → ℕ
to_i32 v = v % 2 ^ 32

unfoldable pub to_u64 : ℕ → ℕ
to_u64 p = if ltb p (2 ^ 31) then p else p + (2 ^ 64 - 2 ^ 32)

unfoldable pub from_domain : ResourceVectorClock → ResourceVectorClockModel
from_domain clock = record {
  id = clock.id;
  resource_id = clock.resource_id;
  device_id = clock.device_id;
  clock_value = to_i32 clock.clock_value;
  created_at = clock.created_at;
  updated_at = clock.updated_at;
}

unfoldable pub into_domain : ResourceVectorClockModel → ResourceVectorClock
into_domain model = record {
  id = model.id;
  resource_id = model.resource_id;
  device_id = model.device_id;
  clock_value = to_u64 model.clock_value;
  created_at = model.created_at;
  updated_at = model.updated_at;
}

abbrev pub Rows : Type 0
Rows = List ResourceVectorClockModel

-- The two filters on `resource_id` and `device_id` that most queries make.
unfoldable pub is_at : String → String → ResourceVectorClockModel → Bool
is_at resource_id device_id row = row.resource_id == resource_id && row.device_id == device_id

unfoldable pub row_at : String → String → Rows → Option ResourceVectorClockModel
row_at resource_id device_id rows = find (is_at resource_id device_id) rows

-- PRIMARY KEY (id) and UNIQUE (resource_id, device_id) of the schema.
unfoldable pub conflicts : ResourceVectorClockModel → Rows → Bool
conflicts row rows = any (λ m. m.id == row.id || is_at row.resource_id row.device_id m) rows

-- The update of the row with the id of `model`.
unfoldable pub put_row : ResourceVectorClockModel → Rows → Rows
put_row model rows =
    map
      (λ m.
        if m.id == model.id
        then record m { clock_value = model.clock_value; updated_at = model.updated_at }
        else m)
      rows

-- The update of the row at the resource and the device of `clock`.
unfoldable pub update_row : ResourceVectorClock → Rows → Rows
update_row clock rows =
    map
      (λ m.
        if is_at clock.resource_id clock.device_id m
        then record m { clock_value = to_i32 clock.clock_value; updated_at = clock.updated_at }
        else m)
      rows

unfoldable pub update_rows : List ResourceVectorClock → Rows → Rows
update_rows [] rows = rows
update_rows (c ∷ cs) rows = update_rows cs (update_row c rows)

module _ (admits : ResourceVectorClockModel → Bool) where
  unfoldable pub insert_row : ResourceVectorClockModel → Rows → Result Rows
  insert_row row rows =
      if admits row && not (conflicts row rows) then ok (push rows row) else err database_error

  unfoldable pub insert_rows : List ResourceVectorClockModel → Rows → Result Rows
  insert_rows [] rows = ok rows
  insert_rows (m ∷ ms) rows = insert_row m rows >>= λ rows'. insert_rows ms rows'

  unfoldable pub save_vector_clocks : List ResourceVectorClock → Rows → Result Rows
  save_vector_clocks vector_clocks rows =
      if is_empty vector_clocks then ok rows else insert_rows (map from_domain vector_clocks) rows

  unfoldable pub save_vector_clock : ResourceVectorClock → Rows → Result Rows
  save_vector_clock clock rows = elim (row_at clock.resource_id clock.device_id rows) [
    | some _ ↦ ok rows
    | none ↦ insert_row (from_domain clock) rows
  ]

  unfoldable pub update_vector_clocks :
      List ResourceVectorClock → List ResourceVectorClock → Rows → Result Rows
  update_vector_clocks updates adds rows =
      let updated = update_rows updates rows in
      if is_empty adds then ok updated else insert_rows (map from_domain adds) updated

  module _ (stamp : ℕ → String × ℕ) where
    -- `now` is the first stamp's time; a new entry spends the next stamp.
    unfoldable pub increment_vector_clock :
        ℕ → String → String → Rows → Result (Rows × ResourceVectorClock)
    increment_vector_clock k resource_id device_id rows = elim (row_at resource_id device_id rows) [
      | some model ↦
          let model' : ResourceVectorClockModel = record model {
            clock_value = (model.clock_value + 1) % 2 ^ 32;
            updated_at = (stamp k).1;
          } in
          ok (put_row model' rows, into_domain model')
      | none ↦
          let model' = from_domain (initialize stamp (k + 1) resource_id device_id) in
          insert_row model' rows >>= λ rows'. ok (rows', into_domain model')
    ]

unfoldable pub get_vector_clocks_for_resource : String → Rows → List ResourceVectorClock
get_vector_clocks_for_resource resource_id rows =
    map into_domain (filter (λ m. m.resource_id == resource_id) rows)

unfoldable pub get_vector_clock : String → String → Rows → Result ResourceVectorClock
get_vector_clock resource_id device_id rows =
    first_or_not_found (row_at resource_id device_id rows) >>= λ model. ok (into_domain model)

-- A row of one of the resources that another device wrote after `last_synced_at`.
unfoldable pub is_news : List String → ℕ → String → ResourceVectorClockModel → Bool
is_news resource_ids last_synced_at device_id m =
    contains resource_ids m.resource_id
    && ltb last_synced_at m.updated_at
    && not (m.device_id == device_id)

abbrev pub count : {A : Type 0} → List A → ℕ
count [] = 0
count (x ∷ xs) = 1 + count xs

unfoldable pub check_if_device_needs_update : List String → ℕ → String → Rows → Bool
check_if_device_needs_update resource_ids last_synced_at device_id rows =
    ltb 0 (count (filter (is_news resource_ids last_synced_at device_id) rows))

unfoldable pub get_resource_ids_needing_updates : List String → ℕ → String → Rows → List String
get_resource_ids_needing_updates resource_ids last_synced_at device_id rows =
    to_set (map (λ m. m.resource_id) (filter (is_news resource_ids last_synced_at device_id) rows))
