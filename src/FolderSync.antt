-- ===== src/FolderSync.antt =====
-- network/src/p2p/folder_sync.rs: the first half of the exchange of folders between two users, over the
-- state of a connection, and `execute_connection_action` of network/src/p2p/handshake.rs.
pub mod Session
use osvauld.Prelude.{Bool, Option, none, some, List, [], if◌then◌else◌, is_empty}
use osvauld.Repository
use osvauld.FolderShares.{
  FolderTables, FolderWithShareRecords, create_unknown_folders_payload,
  process_unknown_folders_payload, get_missing_remote_folder_share_records,
}
use osvauld.Peer.{
  unknown_folders_payload, folder_recipient_sync_payload, repository, Env, Node, Action, err, pure,
  ◌>>=◌, send_message, get_user_manifest_result, start_user_network_sync,
}
use osvauld.DeviceSync.{start_add_device_process}

pub data ConnectionAction : Type 0 where
  device_sync add_device live_edit user_sync : ConnectionAction

abbrev pub with_folders : FolderTables → Node → Node
with_folders t n = record n { db = record n.db { folder_tables = t } }

module _ (env : Env) where
  unfoldable pub run_action : ConnectionAction → Action (Unit {0})
  run_action device_sync = start_add_device_process env
  run_action add_device = start_add_device_process env
  run_action live_edit = pure tt
  run_action user_sync = start_user_network_sync env

  unfoldable pub execute_connection_action : Option ConnectionAction → Action (Unit {0})
  execute_connection_action none = pure tt
  execute_connection_action (some action) = if env.is_initiator then run_action action else pure tt

  unfoldable pub start_folder_sync : Action (Unit {0})
  start_folder_sync = get_user_manifest_result >>= λ m. λ n.
      let ids = m.remote_missing.unknown_folders in
      send_message env
        (unknown_folders_payload
          (if is_empty ids then [] else create_unknown_folders_payload ids n.db.folder_tables))
        n

  -- What follows the writes: the other folders, or the records of common folders.
  unfoldable pub answer_unknown_folders : Action (Unit {0})
  answer_unknown_folders = get_user_manifest_result >>= λ m. λ n.
      if env.is_initiator
      then send_message env
          (folder_recipient_sync_payload (
            get_missing_remote_folder_share_records m.folders_requiring_recipient_sync
              n.db.folder_tables.shares))
          n
      else send_message env
          (unknown_folders_payload
            (create_unknown_folders_payload m.remote_missing.unknown_folders n.db.folder_tables))
          n

  unfoldable pub handle_unknown_folders : List FolderWithShareRecords → Action (Unit {0})
  handle_unknown_folders payload n =
      let (r, t) =
        process_unknown_folders_payload env.admits_folder_share payload n.db.folder_tables in
      elim r [
        | Repository.err e ↦ (err (repository e), with_folders t n)
        | Repository.ok _ ↦ answer_unknown_folders (with_folders t n)
      ]
