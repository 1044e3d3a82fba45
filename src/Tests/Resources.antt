-- ===== src/Tests/Resources.antt =====
-- A note that a peer lacks, sent and saved.
use osvauld.Prelude.{true, false, none, some, [], ◌∷◌, contains, ◌≡◌, refl, arith}
use osvauld.Repository.{ok}
use osvauld.Manifest.{ResourceManifestData}
use osvauld.Storage.{ResourceModel}
use osvauld.ResourceKeys.{find_by_resource_id, insert_each}
use osvauld.Share.{
  ShareRecordModel, to_domain, to_model, find_by_resource, insert_all, insert_or_ignore,
}
use osvauld.ClockTable.{
  from_domain, into_domain, to_i32, to_u64, insert_row, conflicts, is_at,
  get_vector_clocks_for_resource,
}
use osvauld.Compare.Resources.{InSync}
use osvauld.Resources.{
  ResourceTables, ResourceSyncData, Admits, resource_ids, get_resource_manifest_data,
  get_resource_sync_data, insert_resource, insert_clock, insert_clocks, save_resource_sync_data,
}
use osvauld.Resources.Arrival.{Lacks, save_resource_sync_data-InSync}
use osvauld.Tests.Data.{row}

abbrev pub note : ResourceModel
note = record {
  id = "note";
  resource_type = "notes";
  data_ = "text";
  folder_id = "work";
  created_folder_id = "work";
  signature = "signature";
  favourite = false;
  created_by = "ann";
  last_accessed = 1;
  deleted = false;
  deleted_at = none;
  updated_at = 1;
  created_at = 1;
}

abbrev share_row : ShareRecordModel
share_row = record {
  id = "s1";
  resource_id = "note";
  shared_by_user_id = "ann";
  recipient_user_id = "bob";
  permission_level = "read";
  ucan_token = "token";
  ucan_cid = "cid";
  operation_type = "share";
  created_at = 1;
  updated_at = 1;
}

abbrev sender : ResourceTables
sender = record {
  resources = note ∷ [];
  keys = [];
  shares = share_row ∷ [];
  clocks = row "c1" "phone" 3 ∷ row "c2" "tablet" 0 ∷ [];
}

abbrev receiver : ResourceTables
receiver = record { resources = []; keys = []; shares = []; clocks = [] }

abbrev admits : Admits
admits = record { resource = λ m. true; key = λ k. true; share = λ s. true; clock = λ c. true }

save_run :
    (d : ResourceSyncData) × (t : ResourceTables) × (get_resource_sync_data "note" sender ≡ ok d)
    × (save_resource_sync_data admits d receiver ≡ ok t)
    × Lacks "note" d receiver
unfolding get_resource_sync_data save_resource_sync_data insert_resource insert_clocks insert_clock
    insert_row insert_all insert_or_ignore insert_each contains conflicts is_at from_domain
    into_domain to_i32 to_u64 find_by_resource get_vector_clocks_for_resource find_by_resource_id
    to_domain to_model
save_run = (
  _,
  _,
  refl,
  refl,
  record {
    no_shares = refl;
    no_clocks = refl;
    share_ids = (refl, tt);
    new_shares = λ x. ground arith;
    entry_ids = (refl, (refl, tt));
    new_clocks = λ x. ground arith;
  },
)

save_resource_sync_data_example :
    (contains (resource_ids save_run.1.resources) "note" ≡ true)
    × (e e' : ResourceManifestData) × (get_resource_manifest_data (some ("note" ∷ [])) sender
        ≡ e ∷ [])
    × (get_resource_manifest_data (some ("note" ∷ [])) save_run.1 ≡ e' ∷ [])
    × InSync e' e
save_resource_sync_data_example =
    save_resource_sync_data-InSync admits "note" sender receiver save_run.1 save_run.0
      (omega arith, (omega arith, tt)) save_run.2 save_run.4 save_run.3
