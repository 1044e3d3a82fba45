-- ===== src/ResourceKeys.antt =====
-- core/src/models/resource_key.rs, persistance/src/repositories/resource_key_repository.rs over a list of
-- rows, and the keys' part of the messages of network/src/p2p/resource_sync.rs. A row has the fields of
-- the key. `admits` says which rows meet the foreign keys.
pub mod Lookup
pub mod Batch
pub mod Exchange
pub mod Gains
pub mod Writes
use osvauld.Prelude.{
  ℕ, String, ◌==◌, Bool, not, ◌&&◌, List, [], ◌∷◌, map, if◌then◌else◌, filter, find, is_some, push,
  is_empty, contains,
}
use osvauld.Repository.{Result, ok, err, database_error, ◌>>=◌, first_or_not_found}

pub record ResourceKey : Type 0 where
  pub id : String
  pub resource_id : String
  pub user_id : String
  pub encrypted_key : String
  pub is_owner : Bool
  pub created_at : ℕ
  pub updated_at : ℕ

abbrev pub KeyRows : Type 0
KeyRows = List ResourceKey

abbrev pub key_ids : KeyRows → List String
key_ids = map λ k. k.id

-- The columns of `UNIQUE (resource_id, user_id)`.
abbrev pub is_for : String → String → ResourceKey → Bool
is_for resource_id user_id k = k.resource_id == resource_id && k.user_id == user_id

unfoldable pub find_by_resource_id : String → KeyRows → List ResourceKey
find_by_resource_id resource_id rows = filter (λ k. k.resource_id == resource_id) rows

unfoldable pub find_by_resource_and_user : String → String → KeyRows → Result ResourceKey
find_by_resource_and_user resource_id user_id rows =
    first_or_not_found (find (is_for resource_id user_id) rows)

unfoldable pub delete_by_resource_id : String → KeyRows → KeyRows
delete_by_resource_id resource_id rows = filter (λ k. not (k.resource_id == resource_id)) rows

unfoldable pub delete_by_resource_and_user : String → String → KeyRows → KeyRows
delete_by_resource_and_user resource_id user_id rows =
    filter (λ k. not (is_for resource_id user_id k)) rows

module _ (admits : ResourceKey → Bool) where
  -- The insertion of a row whose id is not there: the other unique columns, then the foreign keys.
  unfoldable pub insert_new : ResourceKey → KeyRows → Result KeyRows
  insert_new k rows =
      if is_some (find (is_for k.resource_id k.user_id) rows)
      then err database_error
      else (if admits k then ok (push rows k) else err database_error)

  unfoldable pub save_key : ResourceKey → KeyRows → Result KeyRows
  save_key k rows = if contains (key_ids rows) k.id then err database_error else insert_new k rows

  -- `.on_conflict(resource_keys::id).do_nothing()`.
  unfoldable pub insert_unless_there : ResourceKey → KeyRows → Result KeyRows
  insert_unless_there k rows = if contains (key_ids rows) k.id then ok rows else insert_new k rows

  -- The loop of the transaction.
  unfoldable pub insert_each : List ResourceKey → KeyRows → Result KeyRows
  insert_each [] rows = ok rows
  insert_each (k ∷ keys) rows = insert_unless_there k rows >>= λ rows'. insert_each keys rows'

  unfoldable pub add_resource_keys : List ResourceKey → KeyRows → Result KeyRows
  add_resource_keys keys rows = if is_empty keys then ok rows else insert_each keys rows

unfoldable pub missing_from : List String → List ResourceKey → List ResourceKey
missing_from ids keys = filter (λ k. not (contains ids k.id)) keys

unfoldable pub find_missing_resource_keys :
    List ResourceKey → List ResourceKey → List ResourceKey × List ResourceKey
find_missing_resource_keys local remote =
    (missing_from (key_ids local) remote, missing_from (key_ids remote) local)

-- `FinalUpdateMerge` from `a` to `b` and its answer, as far as they carry keys.
unfoldable pub exchange_keys :
    (ResourceKey → Bool)
    → (ResourceKey → Bool)
    → String
    → KeyRows
    → KeyRows
    → Result (KeyRows × KeyRows)
exchange_keys admits_a admits_b resource_id rows_a rows_b =
    let (local_missing, remote_missing) =
      find_missing_resource_keys (find_by_resource_id resource_id rows_b)
        (find_by_resource_id resource_id rows_a) in
    add_resource_keys admits_b local_missing rows_b >>= λ rows_b'.
    add_resource_keys admits_a remote_missing rows_a >>= λ rows_a'. ok (rows_a', rows_b')
