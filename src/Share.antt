-- ===== src/Share.antt =====
-- core/src/models/share_record.rs, the table `share_records` with its rows of persistance/src/models.rs
-- and persistance/src/repositories/share_repository.rs, and the share record calls of
-- services/src/resource_service.rs. `admits` says which rows meet the foreign keys, and `stamp` what
-- `Uuid::new_v4` and `Local::now` return.
pub mod Levels
pub mod Union
pub mod Exchange
use osvauld.Prelude.{
  ℕ, String, ◌==◌, Bool, not, ◌&&◌, List, [], ◌∷◌, map, if◌then◌else◌, filter, find, push, is_empty,
  contains, to_set,
}
use osvauld.Repository.{Result, ok, err, database_error, ◌>>=◌, first_or_not_found}

pub data ShareOperation : Type 0 where
  share revoke : ShareOperation

pub data PermissionLevel : Type 0 where
  read write admin : PermissionLevel

pub record ShareRecord : Type 0 where
  pub id : String
  pub resource_id : String
  pub shared_by_user_id : String
  pub recipient_user_id : String
  pub permission_level : PermissionLevel
  pub ucan_token : String
  pub ucan_cid : String
  pub operation_type : ShareOperation
  pub created_at : ℕ
  pub updated_at : ℕ

-- The row of a share record: the level and the operation are texts.
pub record ShareRecordModel : Type 0 where
  pub id : String
  pub resource_id : String
  pub shared_by_user_id : String
  pub recipient_user_id : String
  pub permission_level : String
  pub ucan_token : String
  pub ucan_cid : String
  pub operation_type : String
  pub created_at : ℕ
  pub updated_at : ℕ

abbrev pub operation_to_string : ShareOperation → String
operation_to_string share = "share"
operation_to_string revoke = "revoke"

abbrev pub operation_from : String → ShareOperation
operation_from s = if s == "share" then share else (if s == "revoke" then revoke else share)

abbrev pub level_to_string : PermissionLevel → String
level_to_string read = "read"
level_to_string write = "write"
level_to_string admin = "admin"

abbrev pub level_from : String → PermissionLevel
level_from s =
    if s == "read"
    then read
    else (if s == "write" then write else (if s == "admin" then admin else read))

unfoldable pub prepare_share_record :
    String × ℕ → String → String → String → PermissionLevel → String → String → ShareRecord
prepare_share_record (id, now) resource_id shared_by_user_id recipient_user_id permission_level
      ucan_token ucan_cid =
    record {
      id = id;
      resource_id = resource_id;
      shared_by_user_id = shared_by_user_id;
      recipient_user_id = recipient_user_id;
      permission_level = permission_level;
      ucan_token = ucan_token;
      ucan_cid = ucan_cid;
      operation_type = share;
      created_at = now;
      updated_at = now;
    }

unfoldable pub to_model : ShareRecord → ShareRecordModel
to_model r = record {
  id = r.id;
  resource_id = r.resource_id;
  shared_by_user_id = r.shared_by_user_id;
  recipient_user_id = r.recipient_user_id;
  permission_level = level_to_string r.permission_level;
  ucan_token = r.ucan_token;
  ucan_cid = r.ucan_cid;
  operation_type = operation_to_string r.operation_type;
  created_at = r.created_at;
  updated_at = r.updated_at;
}

unfoldable pub to_domain : ShareRecordModel → ShareRecord
to_domain m = record {
  id = m.id;
  resource_id = m.resource_id;
  shared_by_user_id = m.shared_by_user_id;
  recipient_user_id = m.recipient_user_id;
  permission_level = level_from m.permission_level;
  ucan_token = m.ucan_token;
  ucan_cid = m.ucan_cid;
  operation_type = operation_from m.operation_type;
  created_at = m.created_at;
  updated_at = m.updated_at;
}

abbrev pub ShareRows : Type 0
ShareRows = List ShareRecordModel

abbrev pub row_ids : ShareRows → List String
row_ids = map λ m. m.id

abbrev pub record_ids : List ShareRecord → List String
record_ids = map λ r. r.id

unfoldable pub find_by_resource : String → ShareRows → List ShareRecord
find_by_resource resource_id rows = map to_domain (filter (λ m. m.resource_id == resource_id) rows)

unfoldable pub find_by_resource_and_operation : String → String → ShareRows → List ShareRecord
find_by_resource_and_operation resource_id operation_type rows =
    map to_domain
      (filter (λ m. m.resource_id == resource_id && m.operation_type == operation_type) rows)

unfoldable pub find_by_id : String → ShareRows → Result ShareRecord
find_by_id id rows = first_or_not_found (find (λ m. m.id == id) rows) >>= λ m. ok (to_domain m)

unfoldable pub get_ucan_token_by_resource : String → String → ShareRows → Result String
get_ucan_token_by_resource resource_id user_id rows =
    first_or_not_found (
      find
        (λ m.
          m.resource_id == resource_id
          && m.recipient_user_id == user_id
          && m.operation_type == "share")
        rows)
    >>= λ m. ok m.ucan_token

-- The records with an id that the set lacks.
abbrev pub lacking : List String → List ShareRecord → List ShareRecord
lacking ids = filter λ r. not (contains ids r.id)

module _ (admits : ShareRecordModel → Bool) where
  -- The insert of `save`: the id is the primary key.
  unfoldable pub save : ShareRecord → ShareRows → Result ShareRows
  save record_ rows =
      if not (contains (row_ids rows) record_.id) && admits (to_model record_)
      then ok (push rows (to_model record_))
      else err database_error

  -- `on_conflict(id).do_nothing()`
  unfoldable pub insert_or_ignore : ShareRecord → ShareRows → Result ShareRows
  insert_or_ignore record_ rows =
      if contains (row_ids rows) record_.id
      then ok rows
      else (if admits (to_model record_)
          then ok (push rows (to_model record_))
          else err database_error)

  unfoldable pub insert_all : List ShareRecord → ShareRows → Result ShareRows
  insert_all [] rows = ok rows
  insert_all (r ∷ rs) rows = insert_or_ignore r rows >>= λ rows'. insert_all rs rows'

  unfoldable pub save_many : List ShareRecord → ShareRows → Result ShareRows
  save_many records rows = if is_empty records then ok rows else insert_all records rows

  -- The rows afterwards, and the records that the other side lacks.
  unfoldable pub merge_share_records :
      String → List ShareRecord → ShareRows → Result (ShareRows × List ShareRecord)
  merge_share_records resource_id remote_share_records rows =
      let local_share_records = find_by_resource resource_id rows in
      let local_set = to_set (record_ids local_share_records) in
      let remote_set = to_set (record_ids remote_share_records) in
      save_many (lacking local_set remote_share_records) rows >>= λ rows'.
      ok (rows', lacking remote_set local_share_records)

  unfoldable pub add_share_records : List ShareRecord → ShareRows → Result ShareRows
  add_share_records share_records rows = save_many share_records rows

-- `FinalUpdateMerge` brings the records of `a` to `b`, `VectorClockResponse` what `a` lacks to `a`.
unfoldable pub exchange_records :
    (ShareRecordModel → Bool)
    → (ShareRecordModel → Bool)
    → String
    → ShareRows
    → ShareRows
    → Result (ShareRows × ShareRows)
exchange_records admits_a admits_b resource_id rows_a rows_b =
    merge_share_records admits_b resource_id (find_by_resource resource_id rows_a) rows_b
    >>= λ (rows_b', records).
        add_share_records admits_a records rows_a >>= λ rows_a'. ok (rows_a', rows_b')
