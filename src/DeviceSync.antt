-- ===== src/DeviceSync.antt =====
-- network/src/p2p/device_sync.rs: the messages by which two devices of one user tell each other what they
-- have, over the state of a connection.
pub mod Session
use osvauld.Prelude.{[]}
use osvauld.Repository
use osvauld.Manifest.{DeviceManifestRequestPayload, DeviceManifestComparisonResult}
use osvauld.Manifest.DeviceManifest
use osvauld.Compare.{process_device_manifest_request}
use osvauld.Payloads.{
  DeviceTables, DeviceNetworkSyncPayload, get_device_manifest, create_device_network_sync_payload,
  process_device_network_sync,
}
use osvauld.Peer.{
  device_manifest_request, device_manifest_response, device_network_sync, device_manifest_ack,
  device_network_sync_ack, repository, Env, Node, Action, ok, err, ◌>>=◌, ◌>>◌, send_message,
  set_device_manifest_comparison_result, get_device_manifest_result,
}

-- The tables of a node that its devices share.
abbrev pub shared_tables : Node → DeviceTables
shared_tables n = record {
  users = n.db.tables;
  folders = n.db.folder_tables.folders;
  resources = n.resource_tables;
}

abbrev pub with_tables : DeviceTables → Node → Node
with_tables t n = record n {
  db = record n.db {
    tables = t.users;
    folder_tables = record n.db.folder_tables { folders = t.folders };
  };
  resource_tables = t.resources;
}

module _ (env : Env) where
  unfoldable pub start_add_device_process : Action (Unit {0})
  start_add_device_process n =
      send_message env
        (device_manifest_request (get_device_manifest (shared_tables n) n.peer_user.id)) n

  unfoldable pub handle_manifest_request : DeviceManifestRequestPayload → Action (Unit {0})
  handle_manifest_request payload n =
      let result =
        process_device_manifest_request (get_device_manifest (shared_tables n) n.peer_user.id)
          payload in
      (send_message env (device_manifest_response result)
          >> set_device_manifest_comparison_result result)
        n

  -- The end of both handlers of an answer.
  unfoldable pub send_device_network_sync : Action (Unit {0})
  send_device_network_sync = get_device_manifest_result >>= λ manifest. λ n.
      send_message env
        (device_network_sync
          (create_device_network_sync_payload manifest.remote_missing (shared_tables n)))
        n

  unfoldable pub handle_manifest_response : DeviceManifestComparisonResult → Action (Unit {0})
  handle_manifest_response payload =
      set_device_manifest_comparison_result (DeviceManifest.inverse payload)
      >> send_message env device_manifest_ack
      >> send_device_network_sync

  unfoldable pub handle_manifest_ack : Action (Unit {0})
  handle_manifest_ack = send_device_network_sync

  unfoldable pub handle_device_network_sync : DeviceNetworkSyncPayload → Action (Unit {0})
  handle_device_network_sync payload n =
      let (r, t) = process_device_network_sync env.enforced payload (shared_tables n) in
      elim r [
        | Repository.err e ↦ (err (repository e), with_tables t n)
        | Repository.ok _ ↦ send_message env device_network_sync_ack (with_tables t n)
      ]
