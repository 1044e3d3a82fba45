-- ===== src/Tests/Sessions.antt =====
-- A session of Ann's phone and her tablet.
use osvauld.Prelude.{true, false, contains, to_set, difference, intersection, ◌≡◌, refl}
use osvauld.Repository
use osvauld.Differences.{compare_sets, compare_devices_for_common_users}
use osvauld.Compare.{process_device_manifest_request}
use osvauld.Devices.{
  get_device_ids_by_user_id, get_devices_by_ids, insert_new_device, insert_device, insert_devices,
  save_devices,
}
use osvauld.Users.{
  insert_new_user, upsert_user, add_user_with_devices, add_users_with_devices_bulk, user_devices,
  add_entry, group_rows, get_other_users_with_device_ids, get_users_with_devices_by_user_ids,
}
use osvauld.Storage.{find_all, get_folders_by_ids, add_folders_bulk}
use osvauld.Payloads.{
  DeviceTables, get_device_manifest, all_device_ids, create_device_network_sync_payload,
  save_own_devices, process_device_network_sync,
}
use osvauld.Payloads.Delivery.{answer}
use osvauld.Manifest.{DeviceManifestRequestPayload, DeviceManifestComparisonResult}
use osvauld.Payloads.{DeviceNetworkSyncPayload}
use osvauld.Prelude.{push, some, String, [], ◌∷◌}
use osvauld.Peer.{
  Node, device_manifest_request, device_manifest_response, device_network_sync, device_manifest_ack,
  device_network_sync_ack, ok,
}
use osvauld.DeviceSync.{
  shared_tables, with_tables, start_add_device_process, handle_manifest_request,
  handle_manifest_response, handle_manifest_ack, handle_device_network_sync,
}
use osvauld.DeviceSync.Session.{device_session_complete}
use osvauld.Manifest.{DeviceManifestDifferences}
use osvauld.Storage.{device}
use osvauld.ResourceKeys.{insert_each}
use osvauld.Share.{insert_all}
use osvauld.Resources.{
  ResourceTables, ResourceSyncData, insert_resource, insert_clocks, save_resource_sync_data,
}
use osvauld.Peer.{resource_addition_complete, get_connection_type}
use osvauld.ResourceSync.Additions.{save_all, receive_all, receive_all_complete}
use osvauld.Tests.Resources.{note}
use osvauld.Tests.Peers.{env, side, ann}
use osvauld.Tests.Payloads.{phone, tablet, request_run}
use osvauld.Tests.Users as Data

back_run :
    (t : DeviceTables) × (process_device_network_sync true
        (create_device_network_sync_payload (answer "ann" phone tablet).remote_missing tablet)
        phone
      ≡ (Repository.ok tt, t))
unfolding process_device_network_sync create_device_network_sync_payload
    process_device_manifest_request get_device_manifest compare_sets contains to_set difference
    intersection get_device_ids_by_user_id get_devices_by_ids get_other_users_with_device_ids
    user_devices group_rows add_entry get_users_with_devices_by_user_ids find_all get_folders_by_ids
    add_folders_bulk all_device_ids save_own_devices save_devices insert_devices insert_device
    insert_new_device add_users_with_devices_bulk add_user_with_devices upsert_user insert_new_user
    compare_devices_for_common_users
back_run = (_, refl)

abbrev node_a : Node
node_a = with_tables phone (side phone.users ann (Data.device "phone" "ann"))

abbrev node_b : Node
node_b = with_tables tablet (side tablet.users ann (Data.device "tablet" "ann"))

device_session_example :
    (a1 b1 a2 b2 a3 b3 : Node) × (request : DeviceManifestRequestPayload)
    × (response : DeviceManifestComparisonResult) × (pa pb : DeviceNetworkSyncPayload)
    × (start_add_device_process (env "tablet" true) node_a ≡ (ok tt, a1))
    × (a1.sent ≡ push node_a.sent (device_manifest_request request))
    × (handle_manifest_request (env "phone" false) request node_b ≡ (ok tt, b1))
    × (b1.sent ≡ push node_b.sent (device_manifest_response response))
    × (handle_manifest_response (env "tablet" true) response a1 ≡ (ok tt, a2))
    × (a2.sent ≡ push (push a1.sent device_manifest_ack) (device_network_sync pa))
    × (handle_manifest_ack (env "phone" false) b1 ≡ (ok tt, b2))
    × (b2.sent ≡ push b1.sent (device_network_sync pb))
    × (handle_device_network_sync (env "phone" false) pa b2 ≡ (ok tt, b3))
    × (b3.sent ≡ push b2.sent device_network_sync_ack)
    × (handle_device_network_sync (env "tablet" true) pb a2 ≡ (ok tt, a3))
    × (a3.sent ≡ push a2.sent device_network_sync_ack)
    × (shared_tables a3 ≡ back_run.0)
    × (shared_tables b3 ≡ request_run.0)
device_session_example =
    device_session_complete (env "tablet" true) (env "phone" false) node_a node_b back_run.0
      request_run.0 refl refl request_run.1 back_run.1

-- The phone waits for two notes.
abbrev sent_note : String → ResourceSyncData
sent_note id = record {
  resource = record note { id = id };
  resource_keys = [];
  share_records = [];
  vector_clocks = [];
}

abbrev nothing_missing : DeviceManifestDifferences
nothing_missing = record {
  unknown_users = [];
  unknown_devices_from_common_users = [];
  unknown_devices_from_current_user = [];
  unknown_resources = [];
  unknown_folders = [];
}

abbrev waits : DeviceManifestComparisonResult
waits = record {
  local_missing = record nothing_missing { unknown_resources = "n1" ∷ "n2" ∷ [] };
  remote_missing = nothing_missing;
  resources_requiring_sync = [];
}

abbrev node_c : Node
node_c = record node_a { connection_type = some device; device_manifest_result = some waits }

save_run :
    (t : ResourceTables) × (save_all
        (env "tablet" true).admits
        (sent_note "n1" ∷ sent_note "n2" ∷ [])
        node_c.resource_tables
      ≡ Repository.ok t)
unfolding save_all save_resource_sync_data insert_resource insert_each insert_all insert_clocks
    contains
save_run = (_, refl)

receive_all_example :
    receive_all (env "tablet" true) (sent_note "n1" ∷ sent_note "n2" ∷ []) node_c ≡ (
      ok tt,
      record node_c {
        resource_tables = save_run.0;
        device_manifest_result = some (record waits {
          local_missing = record waits.local_missing { unknown_resources = [] };
        });
        sent = push node_c.sent resource_addition_complete;
      },
    )
unfolding get_connection_type contains
receive_all_example =
    receive_all_complete (env "tablet" true) node_c waits (sent_note "n1") (sent_note "n2" ∷ [])
      save_run.0 refl refl refl refl (refl, (refl, tt)) save_run.1
