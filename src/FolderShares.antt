-- ===== src/FolderShares.antt =====
-- core/src/models/folder_share_record.rs, persistance/src/repositories/folder_share_repository.rs and the
-- calls of folder_repository.rs that use both tables, over lists of rows, and the folder payloads of
-- services/src/folder_service.rs. A row has the fields of the record: the texts of its level and its
-- operation read back as they were (Share.Levels). `admits` says which rows meet the foreign keys.
pub mod Payload
use osvauld.Prelude.{
  ℕ, String, ◌==◌, Bool, true, false, ◌&&◌, none, some, List, [], ◌∷◌, map, if◌then◌else◌, filter,
  find, push, is_empty, contains, to_set,
}
use osvauld.Repository.{Result, ok, err, database_error, ◌>>=◌, first_or_not_found}
use osvauld.Manifest.{FolderManifestData, FolderRecipientDiff}
use osvauld.Share.{ShareOperation, share, revoke, PermissionLevel}
use osvauld.Storage.{Folder, folder_ids, get_folders_by_ids}
use osvauld.Users.{UserRows}
use osvauld.Rows.{has_row, insert_rows_or_ignore}

pub record FolderShareRecord : Type 0 where
  pub id : String
  pub folder_id : String
  pub shared_by_user_id : String
  pub recipient_user_id : String
  pub permission_level : PermissionLevel
  pub ucan_token : String
  pub ucan_cid : String
  pub operation_type : ShareOperation
  pub created_at : ℕ
  pub updated_at : ℕ

unfoldable pub prepare_folder_share_record :
    String × ℕ → String → String → String → PermissionLevel → String → String → FolderShareRecord
prepare_folder_share_record (id, now) folder_id shared_by_user_id recipient_user_id permission_level
      ucan_token ucan_cid =
    record {
      id = id;
      folder_id = folder_id;
      shared_by_user_id = shared_by_user_id;
      recipient_user_id = recipient_user_id;
      permission_level = permission_level;
      ucan_token = ucan_token;
      ucan_cid = ucan_cid;
      operation_type = share;
      created_at = now;
      updated_at = now;
    }

abbrev pub FolderShareRows : Type 0
FolderShareRows = List FolderShareRecord

pub record FolderTables : Type 0 where
  pub folders : List Folder
  pub shares : FolderShareRows

abbrev pub share_id : FolderShareRecord → String
share_id r = r.id

abbrev pub is_share : FolderShareRecord → Bool
is_share r = elim r.operation_type [ share ↦ true | revoke ↦ false ]

unfoldable pub get_records_by_folder_id : String → FolderShareRows → FolderShareRows
get_records_by_folder_id folder_id rows = filter (λ r. r.folder_id == folder_id && is_share r) rows

unfoldable pub get_records_by_recipient_user_id : String → FolderShareRows → FolderShareRows
get_records_by_recipient_user_id user_id rows =
    filter (λ r. r.recipient_user_id == user_id && is_share r) rows

unfoldable pub get_folder_ucan_by_cid : String → FolderShareRows → Result String
get_folder_ucan_by_cid cid rows =
    first_or_not_found (find (λ r. r.ucan_cid == cid) rows) >>= λ r. ok r.ucan_token

-- The users that the join pairs with the records of the folder, once for each record.
unfoldable pub recipients_of : FolderShareRows → UserRows → UserRows
recipients_of [] users = []
recipients_of (r ∷ rows) users =
    let rest = recipients_of rows users in
    elim (find (λ u. u.id == r.recipient_user_id) users) [ none ↦ rest | some u ↦ u ∷ rest ]

unfoldable pub get_shared_users : String → FolderShareRows → UserRows → UserRows
get_shared_users folder_id rows users =
    recipients_of (get_records_by_folder_id folder_id rows) users

unfoldable pub get_share_records_for_folder_and_recipients :
    String → List String → FolderShareRows → FolderShareRows
get_share_records_for_folder_and_recipients folder_id recipient_ids rows =
    if is_empty recipient_ids
    then []
    else filter (λ r. r.folder_id == folder_id && contains recipient_ids r.recipient_user_id) rows

-- `select(…).distinct()` of all records, shares and revocations.
unfoldable pub get_folder_manifest_for_user : String → FolderShareRows → List FolderManifestData
get_folder_manifest_for_user peer_user_id rows =
    map
      (λ folder_id. record {
        folder_id = folder_id;
        recipient_user_ids =
            to_set (map (λ r. r.recipient_user_id) (filter (λ r. r.folder_id == folder_id) rows));
      })
      (to_set (map (λ r. r.folder_id) (filter (λ r. r.recipient_user_id == peer_user_id) rows)))

-- The columns of `.do_update().set(…)`.
abbrev pub renamed : Folder → Folder → Folder
renamed f row =
    if row.id == f.id
    then record row { name = f.name; description = f.description; updated_at = f.updated_at }
    else row

unfoldable pub upsert_folder : Folder → List Folder → List Folder
upsert_folder f folders =
    if contains (folder_ids folders) f.id then map (renamed f) folders else push folders f

module _ (admits : FolderShareRecord → Bool) where
  unfoldable pub save_folder_share : FolderShareRecord → FolderShareRows → Result FolderShareRows
  save_folder_share r rows =
      if has_row share_id r.id rows
      then err database_error
      else (if admits r then ok (push rows r) else err database_error)

  unfoldable pub save_bulk_with_conflict_ignore :
      List FolderShareRecord → FolderShareRows → Result FolderShareRows
  save_bulk_with_conflict_ignore rs rows =
      if is_empty rs then ok rows else insert_rows_or_ignore share_id admits rs rows

  unfoldable pub save_folder_with_share_record :
      Folder → FolderShareRecord → FolderTables → Result FolderTables
  save_folder_with_share_record f r t =
      if contains (folder_ids t.folders) f.id
      then err database_error
      else (save_folder_share r t.shares >>= λ shares.
          ok (record { folders = push t.folders f; shares = shares }))

  unfoldable pub save_folder_with_share_records :
      Folder → List FolderShareRecord → FolderTables → Result FolderTables
  save_folder_with_share_records f rs t =
      insert_rows_or_ignore share_id admits rs t.shares >>= λ shares.
      ok (record { folders = upsert_folder f t.folders; shares = shares })

-- core/src/models/p2p.rs
pub record FolderWithShareRecords : Type 0 where
  pub folder : Folder
  pub share_records : List FolderShareRecord

pub record FolderRecipientUpdate : Type 0 where
  pub folder_id : String
  pub new_share_records : List FolderShareRecord

unfoldable pub create_unknown_folders_payload :
    List String → FolderTables → List FolderWithShareRecords
create_unknown_folders_payload ids t =
    if is_empty ids
    then []
    else map (λ f. record { folder = f; share_records = get_records_by_folder_id f.id t.shares })
        (get_folders_by_ids ids t.folders)

-- A transaction for each folder: what was written before a failure stays written.
unfoldable pub process_unknown_folders_payload :
    (FolderShareRecord → Bool)
    → List FolderWithShareRecords
    → FolderTables
    → Result (Unit {0}) × FolderTables
process_unknown_folders_payload admits [] t = (ok tt, t)
process_unknown_folders_payload admits (p ∷ ps) t =
    elim (save_folder_with_share_records admits (record p.folder { default_folder = false })
      p.share_records t) [
        | err e ↦ (err e, t)
        | ok t' ↦ process_unknown_folders_payload admits ps t'
      ]

unfoldable pub get_missing_remote_folder_share_records :
    List FolderRecipientDiff → FolderShareRows → List FolderRecipientUpdate
get_missing_remote_folder_share_records diffs rows =
    map
      (λ diff. record {
        folder_id = diff.folder_id;
        new_share_records =
            get_share_records_for_folder_and_recipients diff.folder_id
              diff.recipients_only_local_knows rows;
      })
      diffs
