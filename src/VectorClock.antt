-- ===== src/VectorClock.antt =====
-- core/src/models/vector_clock.rs: the vector clock of a resource, one entry for each device, and
-- the comparison that decides which entries each side of a synchronisation lacks.
-- `Uuid::new_v4` and `Local::now` are the parameter `stamp`: what they return at the k-th call.
pub mod Loops
pub mod Search
use osvauld.Prelude.{
  ℕ, ◌+◌, String, ◌==◌, Bool, true, false, not, Option, none, some, List, [], ◌∷◌, if◌then◌else◌,
  ltb, find, any, push,
}

pub record ResourceVectorClock : Type 0 where
  pub id : String
  pub resource_id : String
  pub device_id : String
  pub clock_value : ℕ
  pub created_at : ℕ
  pub updated_at : ℕ

pub record MergeResult : Type 0 where
  pub update_local : List ResourceVectorClock
  pub add_local : List ResourceVectorClock
  pub update_remote : List ResourceVectorClock
  pub add_remote : List ResourceVectorClock
  pub local_needs_update : Bool
  pub remote_needs_update : Bool

module _ (stamp : ℕ → String × ℕ) where
  -- The k-th stamp of the program's run is spent here.
  unfoldable pub new : ℕ → String → String → ℕ → ResourceVectorClock
  new k resource_id device_id clock_value = record {
    id = (stamp k).0;
    resource_id = resource_id;
    device_id = device_id;
    clock_value = clock_value;
    created_at = (stamp k).1;
    updated_at = (stamp k).1;
  }

  unfoldable pub initialize : ℕ → String → String → ResourceVectorClock
  unfolding new
  initialize k resource_id device_id = new k resource_id device_id 1

  unfoldable pub create_initial_entries :
      ℕ → String → List String → String → List ResourceVectorClock
  unfolding new
  create_initial_entries k resource_id [] source_device_id = []
  create_initial_entries k resource_id (d ∷ ds) source_device_id =
      new k resource_id d (if d == source_device_id then 1 else 0)
      ∷ create_initial_entries (k + 1) resource_id ds source_device_id

  unfoldable pub create_entries_for_new_device : ℕ → List String → String → List ResourceVectorClock
  unfolding new
  create_entries_for_new_device k [] device_id = []
  create_entries_for_new_device k (r ∷ rs) device_id =
      new k r device_id 0 ∷ create_entries_for_new_device (k + 1) rs device_id

  unfoldable pub create_entry_for_new_device : ℕ → String → String → ResourceVectorClock
  unfolding new
  create_entry_for_new_device k resource_id device_id = new k resource_id device_id 0

  unfoldable pub create_entries_for_sharing : ℕ → String → List String → List ResourceVectorClock
  unfolding new
  create_entries_for_sharing k resource_id [] = []
  create_entries_for_sharing k resource_id (d ∷ ds) =
      new k resource_id d 0 ∷ create_entries_for_sharing (k + 1) resource_id ds

-- `entries.iter().find(|e| e.device_id == device_id)`
unfoldable pub find_device : String → List ResourceVectorClock → Option ResourceVectorClock
find_device device_id entries = find (λ e. e.device_id == device_id) entries

-- `entries.iter().any(|e| e.device_id == device_id)`
unfoldable pub has_device : String → List ResourceVectorClock → Bool
has_device device_id entries = any (λ e. e.device_id == device_id) entries

-- The `match` on the local entry for one remote entry.
unfoldable pub merge_entry :
    MergeResult → ResourceVectorClock → Option ResourceVectorClock → MergeResult
merge_entry acc remote (some local) =
    if ltb local.clock_value remote.clock_value
    then record acc { update_local = push acc.update_local remote; local_needs_update = true }
    else if ltb remote.clock_value local.clock_value
    then record acc { update_remote = push acc.update_remote local; remote_needs_update = true }
    else acc
merge_entry acc remote none = record acc {
  add_local = push acc.add_local remote;
  local_needs_update = true;
}

-- The first loop, over the remote entries.
unfoldable pub merge_remote :
    List ResourceVectorClock → MergeResult → List ResourceVectorClock → MergeResult
merge_remote locals acc [] = acc
merge_remote locals acc (remote ∷ rest) =
    merge_remote locals (merge_entry acc remote (find_device remote.device_id locals)) rest

-- The second loop, over the local entries.
unfoldable pub merge_local :
    List ResourceVectorClock → MergeResult → List ResourceVectorClock → MergeResult
merge_local remotes acc [] = acc
merge_local remotes acc (local ∷ rest) =
    merge_local remotes
      (if not (has_device local.device_id remotes)
        then record acc { add_remote = push acc.add_remote local; remote_needs_update = true }
        else acc)
      rest

abbrev pub no_difference : MergeResult
no_difference = record {
  update_local = [];
  add_local = [];
  update_remote = [];
  add_remote = [];
  local_needs_update = false;
  remote_needs_update = false;
}

unfoldable pub merge : List ResourceVectorClock → List ResourceVectorClock → MergeResult
merge local_entries remote_entries =
    merge_local remote_entries (merge_remote local_entries no_difference remote_entries)
      local_entries
