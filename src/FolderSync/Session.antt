-- ===== src/FolderSync/Session.antt =====
-- The exchange of unknown folders, message by message: network/src/p2p/folder_sync.rs.
use osvauld.Prelude.{Bool, true, false, some, List, push, ◌≡◌, refl, arith}
use osvauld.Repository
use osvauld.Manifest.{UserManifestComparisonResult, FolderRecipientDiff}
use osvauld.FolderShares.{
  FolderTables, FolderShareRecord, share_id, FolderWithShareRecords, FolderRecipientUpdate,
  get_share_records_for_folder_and_recipients, create_unknown_folders_payload,
  process_unknown_folders_payload, get_missing_remote_folder_share_records,
}
use osvauld.Peer.{
  Message, unknown_folders_payload, folder_recipient_sync_payload, Env, Node, ok, send_message,
  get_user_manifest_result,
}
use osvauld.Storage.{folder_ids, get_folders_by_ids}
use osvauld.FolderShares.Payload.{IsAdmitted, shared_in, process-create}
use osvauld.Prelude.{◌||◌, contains, String, subst}
use osvauld.Rows.{has_row}
use osvauld.Prelude.{[], ◌∷◌, map, filter, ◌==◌, ◌&&◌, ap}
use osvauld.FolderSync.{
  with_folders, start_folder_sync, answer_unknown_folders, handle_unknown_folders,
}

abbrev sent_to : Node → Message → Node
sent_to n m = record n { sent = push n.sent m }

abbrev wanted : UserManifestComparisonResult → FolderTables → List FolderWithShareRecords
wanted c t = create_unknown_folders_payload c.remote_missing.unknown_folders t

module _ (env : Env) (online : env.online ≡ true) (c : UserManifestComparisonResult) where
  start_lem :
      (n : Node)
      → n.user_manifest_result ≡ some c
      → start_folder_sync env n
        ≡ (ok tt, sent_to n (unknown_folders_payload (wanted c n.db.folder_tables)))
  unfolding start_folder_sync get_user_manifest_result send_message create_unknown_folders_payload
  start_lem n h = ground arith

  second_lem :
      (n : Node) (p : List FolderWithShareRecords) (t : FolderTables)
      → env.is_initiator ≡ false
      → n.user_manifest_result ≡ some c
      → process_unknown_folders_payload env.admits_folder_share p n.db.folder_tables
        ≡ (Repository.ok tt, t)
      → handle_unknown_folders env p n
        ≡ (ok tt, sent_to (with_folders t n) (unknown_folders_payload (wanted c t)))
  unfolding handle_unknown_folders answer_unknown_folders get_user_manifest_result send_message
  second_lem n p t i h e = ground arith

  first_lem :
      (n : Node) (p : List FolderWithShareRecords) (t : FolderTables)
      → env.is_initiator ≡ true
      → n.user_manifest_result ≡ some c
      → process_unknown_folders_payload env.admits_folder_share p n.db.folder_tables
        ≡ (Repository.ok tt, t)
      → handle_unknown_folders env p n ≡ (
        ok tt,
        sent_to (with_folders t n) (
            folder_recipient_sync_payload (
              get_missing_remote_folder_share_records c.folders_requiring_recipient_sync t.shares)),
      )
  unfolding handle_unknown_folders answer_unknown_folders get_user_manifest_result send_message
  first_lem n p t i h e = ground arith

abbrev pub unknown : UserManifestComparisonResult → List String
unknown c = c.remote_missing.unknown_folders

abbrev pub holds : Node → String → Bool
holds n g = contains (folder_ids n.db.folder_tables.folders) g

abbrev pub found : List String → Node → String → Bool
found ids n g = contains (folder_ids (get_folders_by_ids ids n.db.folder_tables.folders)) g

abbrev pub has_share : Node → String → Bool
has_share n x = has_row share_id x n.db.folder_tables.shares

-- A share, by its id, of one of the live folders that are found among `ids`.
abbrev pub found_share : List String → Node → String → Bool
found_share ids n x = has_row share_id x (
    filter (shared_in (folder_ids (get_folders_by_ids ids n.db.folder_tables.folders)))
      n.db.folder_tables.shares)

-- For each common folder, the records of the recipients that the other side does not know.
abbrev pub missing_records : List FolderRecipientDiff → Node → List FolderRecipientUpdate
missing_records diffs n =
    map
      (λ diff. record {
        folder_id = diff.folder_id;
        new_share_records =
            filter
              (λ r.
                r.folder_id == diff.folder_id
                && contains diff.recipients_only_local_knows r.recipient_user_id)
              n.db.folder_tables.shares;
      })
      diffs

none_known :
    (folder_id : String) (rows : List FolderShareRecord)
    → [] ≡ filter (λ r. r.folder_id == folder_id && contains [] r.recipient_user_id) rows
unfolding contains
none_known folder_id [] = refl
none_known folder_id (r ∷ rows) = ground (arith, none_known folder_id rows)

known_records :
    (folder_id : String) (ids : List String) (rows : List FolderShareRecord)
    → get_share_records_for_folder_and_recipients folder_id ids rows
      ≡ filter (λ r. r.folder_id == folder_id && contains ids r.recipient_user_id) rows
unfolding get_share_records_for_folder_and_recipients
known_records folder_id [] rows = none_known folder_id rows
known_records folder_id (x ∷ ids) rows = refl

records-missing :
    (diffs : List FolderRecipientDiff) (n : Node)
    → get_missing_remote_folder_share_records diffs n.db.folder_tables.shares
      ≡ missing_records diffs n
unfolding get_missing_remote_folder_share_records
records-missing [] n = refl
records-missing (d ∷ diffs) n =
    rw
      (
        known_records d.folder_id d.recipients_only_local_knows n.db.folder_tables.shares,
        records-missing diffs n,
      )
      refl

-- Two online peers of one connection hold the comparison of their manifests, and the foreign keys of
-- each admit the folder shares that the other one sends it. Then the session of unknown folders runs
-- through: the initiator starts it, the peer handles the payload that was sent and sends its own, and
-- the initiator handles that one and sends, for each folder whose recipients its comparison
-- reports, the share records it has for those that only it knows. In the end the peer has its own folders and those
-- the initiator found among the ones it lacks, and the initiator has its own and those the peer then found
-- among the ones the initiator lacks. The same holds of the shares of these folders, by their ids, and
-- neither has any others.
pub folder_session_complete :
    (env_a env_b : Env) (ca cb : UserManifestComparisonResult) (a b : Node)
    → env_a.online ≡ true
    → env_b.online ≡ true
    → env_a.is_initiator ≡ true
    → env_b.is_initiator ≡ false
    → a.user_manifest_result ≡ some ca
    → b.user_manifest_result ≡ some cb
    → IsAdmitted env_b.admits_folder_share (wanted ca a.db.folder_tables)
    → IsAdmitted env_a.admits_folder_share (
        wanted cb
          (process_unknown_folders_payload env_b.admits_folder_share
            (wanted ca a.db.folder_tables)
            b.db.folder_tables).1)
    → (a1 b1 a2 : Node) × (to_b to_a : List FolderWithShareRecords) × (start_folder_sync env_a a
        ≡ (ok tt, a1))
      × (a1.sent ≡ push a.sent (unknown_folders_payload to_b))
      × (handle_unknown_folders env_b to_b b ≡ (ok tt, b1))
      × (b1.sent ≡ push b.sent (unknown_folders_payload to_a))
      × (handle_unknown_folders env_a to_a a1 ≡ (ok tt, a2))
      × (a2.sent
          ≡ push a1.sent (
              folder_recipient_sync_payload
                (missing_records ca.folders_requiring_recipient_sync a2)))
      × ((g : String) → holds b1 g ≡ holds b g || found (unknown ca) a g)
      × ((x : String) → has_share b1 x ≡ has_share b x || found_share (unknown ca) a x)
      × ((g : String) → holds a2 g ≡ holds a g || found (unknown cb) b1 g)
      × ((x : String) → has_share a2 x ≡ has_share a x || found_share (unknown cb) b1 x)
folder_session_complete env_a env_b ca cb a b on_a on_b ia ib ha hb admitted_b admitted_a =
    let to_b = wanted ca a.db.folder_tables in
    let (tb, eb, fb, rb) =
      process-create env_b.admits_folder_share (unknown ca) a.db.folder_tables b.db.folder_tables
        admitted_b in
    let to_a = wanted cb tb in
    let (ta, ea, fa, ra) =
      process-create env_a.admits_folder_share (unknown cb) tb a.db.folder_tables
        (subst (λ r. IsAdmitted env_a.admits_folder_share (wanted cb r.1)) eb admitted_a) in
    let a1 = sent_to a (unknown_folders_payload to_b) in
    let a2 = sent_to (with_folders ta a1) (
      folder_recipient_sync_payload
        (get_missing_remote_folder_share_records ca.folders_requiring_recipient_sync ta.shares)) in
    (
      a1,
      sent_to (with_folders tb b) (unknown_folders_payload to_a),
      a2,
      to_b,
      to_a,
      start_lem env_a on_a ca a ha,
      refl,
      second_lem env_b on_b cb b to_b tb ib hb eb,
      refl,
      first_lem env_a on_a ca a1 to_a ta ia ha ea,
      ap (λ rs. push a1.sent (folder_recipient_sync_payload rs))
          (records-missing ca.folders_requiring_recipient_sync a2),
      fb,
      rb,
      fa,
      ra,
    )
