-- ===== src/Resources.antt =====
-- What two peers tell each other of resources: the calls of
-- persistance/src/repositories/resource_repository.rs that read and write a resource with its keys, its
-- share records and its clocks, over the rows of the four tables. A resource is its row: the text of its
-- type is one that `ResourceType::to_string` wrote, and it is sent and stored as it is.
pub mod Appended
pub mod Arrival
use osvauld.Prelude.{
  ℕ, String, ◌==◌, Bool, not, Option, none, some, List, [], ◌∷◌, map, if◌then◌else◌, filter, find,
  push, contains,
}
use osvauld.Repository.{Result, ok, err, database_error, ◌>>=◌, first_or_not_found}
use osvauld.VectorClock.{ResourceVectorClock, create_entry_for_new_device}
use osvauld.Manifest.{ResourceManifestData}
use osvauld.Storage.{ResourceModel}
use osvauld.ResourceKeys.{ResourceKey, KeyRows, find_by_resource_id, insert_each}
use osvauld.Share.{ShareRecord, ShareRecordModel, ShareRows, row_ids, find_by_resource, insert_all}
use osvauld.ClockTable.{
  ResourceVectorClockModel, Rows, from_domain, into_domain, insert_row, save_vector_clock,
  get_vector_clocks_for_resource,
}

pub record ResourceTables : Type 0 where
  pub resources : List ResourceModel
  pub keys : KeyRows
  pub shares : ShareRows
  pub clocks : Rows

pub record ResourceSyncData : Type 0 where
  pub resource : ResourceModel
  pub resource_keys : List ResourceKey
  pub share_records : List ShareRecord
  pub vector_clocks : List ResourceVectorClock

-- The rows that meet the foreign keys, once the resource of the data is there.
pub record Admits : Type 0 where
  pub resource : ResourceModel → Bool
  pub key : ResourceKey → Bool
  pub share : ShareRecordModel → Bool
  pub clock : ResourceVectorClockModel → Bool

abbrev pub resource_ids : List ResourceModel → List String
resource_ids = map λ m. m.id

abbrev pub clock_ids : Rows → List String
clock_ids = map λ m. m.id

-- The last loop: each id takes what the two maps have for it out of them.
unfoldable pub manifest_entries : List String → ShareRows → Rows → List ResourceManifestData
manifest_entries [] shares clocks = []
manifest_entries (id ∷ ids) shares clocks =
    record {
      resource_id = id;
      share_record_ids = row_ids (filter (λ m. m.resource_id == id) shares);
      vector_clocks = map into_domain (filter (λ m. m.resource_id == id) clocks);
    }
    ∷ manifest_entries ids (filter (λ m. not (m.resource_id == id)) shares)
        (filter (λ m. not (m.resource_id == id)) clocks)

abbrev pub target_resource_ids : Option (List String) → List ResourceModel → List String
target_resource_ids (some ids) resources = ids
target_resource_ids none resources = resource_ids (filter (λ m. not m.deleted) resources)

unfoldable pub get_resource_manifest_data :
    Option (List String) → ResourceTables → List ResourceManifestData
get_resource_manifest_data ids t =
    manifest_entries (target_resource_ids ids t.resources) t.shares t.clocks

unfoldable pub get_resource_sync_data : String → ResourceTables → Result ResourceSyncData
get_resource_sync_data resource_id t =
    first_or_not_found (find (λ m. m.id == resource_id) t.resources) >>= λ m. ok (record {
      resource = m;
      resource_keys = find_by_resource_id m.id t.keys;
      share_records = find_by_resource m.id t.shares;
      vector_clocks = get_vector_clocks_for_resource m.id t.clocks;
    })

-- A new entry for the peer's device, and then the data: the entry stays if the data cannot be read.
unfoldable pub get_resource_for_remote_addition :
    (ResourceVectorClockModel → Bool)
    → (ℕ → String × ℕ)
    → String
    → String
    → ResourceTables
    → Result ResourceSyncData × ResourceTables
get_resource_for_remote_addition admits stamp resource_id device_id t =
    elim (save_vector_clock admits (create_entry_for_new_device stamp 0 resource_id device_id)
      t.clocks) [
        | err e ↦ (err e, t)
        | ok clocks ↦
            let t' : ResourceTables = record t { clocks = clocks } in
            (get_resource_sync_data resource_id t', t')
      ]

module _ (admits : Admits) where
  -- Each insertion is `on_conflict(id).do_nothing()`.
  unfoldable pub insert_resource : ResourceModel → List ResourceModel → Result (List ResourceModel)
  insert_resource m resources =
      if contains (resource_ids resources) m.id
      then ok resources
      else (if admits.resource m then ok (push resources m) else err database_error)

  unfoldable pub insert_clock : ResourceVectorClock → Rows → Result Rows
  insert_clock c clocks =
      if contains (clock_ids clocks) c.id
      then ok clocks
      else insert_row admits.clock (from_domain c) clocks

  unfoldable pub insert_clocks : List ResourceVectorClock → Rows → Result Rows
  insert_clocks [] clocks = ok clocks
  insert_clocks (c ∷ cs) clocks = insert_clock c clocks >>= λ clocks'. insert_clocks cs clocks'

  unfoldable pub save_resource_sync_data : ResourceSyncData → ResourceTables → Result ResourceTables
  save_resource_sync_data data_ t = insert_resource data_.resource t.resources >>= λ resources.
      insert_each admits.key data_.resource_keys t.keys >>= λ keys.
      insert_all admits.share data_.share_records t.shares >>= λ shares.
      insert_clocks data_.vector_clocks t.clocks >>= λ clocks.
      ok (record { resources = resources; keys = keys; shares = shares; clocks = clocks })
