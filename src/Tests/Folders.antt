-- ===== src/Tests/Folders.antt =====
-- Ann's phone and Bob's laptop send each other a folder.
use osvauld.Prelude.{String, true, false, some, List, [], ◌∷◌, ◌||◌, contains, push, ◌≡◌, refl}
use osvauld.Storage.{get_folders_by_ids}
use osvauld.Rows.{has_row, insert_row_or_ignore, insert_rows_or_ignore}
use osvauld.Manifest.{UserManifestDifferences, UserManifestComparisonResult, FolderRecipientDiff}
use osvauld.FolderShares.{
  FolderWithShareRecords, get_records_by_folder_id, create_unknown_folders_payload,
  process_unknown_folders_payload, save_folder_with_share_records, upsert_folder,
}
use osvauld.Peer.{Node, ok, unknown_folders_payload, folder_recipient_sync_payload}
use osvauld.FolderSync.{start_folder_sync, handle_unknown_folders}
use osvauld.FolderSync.Session.{
  holds, found, has_share, found_share, missing_records, folder_session_complete,
}
use osvauld.Tests.Peers.{env, side, ann, bob}
use osvauld.Tests.Users as Data

abbrev lacking : List String → UserManifestDifferences
lacking folders = record {
  unknown_users = [];
  unknown_devices_from_common_users = [];
  unknown_resources = [];
  unknown_folders = folders;
}

abbrev compared : List String → List String → UserManifestComparisonResult
compared here there = record {
  local_missing = lacking here;
  remote_missing = lacking there;
  resources_requiring_sync = [];
  folders_requiring_recipient_sync = [];
}

-- Only Ann knows that Bob has the folder `home`.
abbrev home : FolderRecipientDiff
home = record {
  folder_id = "home";
  recipients_only_local_knows = "bob" ∷ [];
  recipients_only_remote_knows = [];
}

abbrev compared_a : UserManifestComparisonResult
compared_a = record (compared ("inbox" ∷ []) ("work" ∷ [])) {
  folders_requiring_recipient_sync = home ∷ [];
}

abbrev node_a : Node
node_a = record (side (Data.tables) ann (Data.device "phone" "ann")) {
  user_manifest_result = some compared_a;
  db = record (side (Data.tables) ann (Data.device "phone" "ann")).db {
    folder_tables = Data.sender;
  };
}

abbrev node_b : Node
node_b = record (side (Data.tables) bob (Data.device "laptop" "bob")) {
  user_manifest_result = some (compared ("work" ∷ []) ("inbox" ∷ []));
  db = record (side (Data.tables) bob (Data.device "laptop" "bob")).db {
    folder_tables = Data.receiver;
  };
}

folder_session_example :
    (a1 b1 a2 : Node) × (to_b to_a : List FolderWithShareRecords) × (start_folder_sync
        (env "laptop" true)
        node_a
      ≡ (ok tt, a1))
    × (a1.sent ≡ push node_a.sent (unknown_folders_payload to_b))
    × (handle_unknown_folders (env "phone" false) to_b node_b ≡ (ok tt, b1))
    × (b1.sent ≡ push node_b.sent (unknown_folders_payload to_a))
    × (handle_unknown_folders (env "laptop" true) to_a a1 ≡ (ok tt, a2))
    × (a2.sent ≡ push a1.sent (folder_recipient_sync_payload (missing_records (home ∷ []) a2)))
    × ((g : String) → holds b1 g ≡ holds node_b g || found ("work" ∷ []) node_a g)
    × ((x : String) → has_share b1 x ≡ has_share node_b x || found_share ("work" ∷ []) node_a x)
    × ((g : String) → holds a2 g ≡ holds node_a g || found ("inbox" ∷ []) b1 g)
    × ((x : String) → has_share a2 x ≡ has_share node_a x || found_share ("inbox" ∷ []) b1 x)
unfolding create_unknown_folders_payload get_folders_by_ids get_records_by_folder_id contains
    process_unknown_folders_payload save_folder_with_share_records insert_rows_or_ignore
    insert_row_or_ignore has_row upsert_folder
folder_session_example =
    folder_session_complete (env "laptop" true) (env "phone" false) compared_a
      (compared ("work" ∷ []) ("inbox" ∷ [])) node_a node_b refl refl refl refl refl refl
      ((refl, tt), tt) (tt, tt)
