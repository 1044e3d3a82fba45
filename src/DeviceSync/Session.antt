-- ===== src/DeviceSync/Session.antt =====
-- A session of two devices, message by message: network/src/p2p/device_sync.rs.
use osvauld.Prelude.{true, some, push, ◌≡◌, refl, arith}
use osvauld.Repository
use osvauld.Manifest.{DeviceManifestRequestPayload, DeviceManifestComparisonResult}
use osvauld.Manifest.DeviceManifest
use osvauld.Compare.{process_device_manifest_request}
use osvauld.Payloads.{
  DeviceTables, DeviceNetworkSyncPayload, get_device_manifest, create_device_network_sync_payload,
  process_device_network_sync,
}
use osvauld.Peer.{
  Message, device_manifest_request, device_manifest_response, device_network_sync,
  device_manifest_ack, device_network_sync_ack, Env, Node, ok, send_message,
  set_device_manifest_comparison_result, get_device_manifest_result,
}
use osvauld.DeviceSync.{
  shared_tables, with_tables, start_add_device_process, handle_manifest_request,
  send_device_network_sync, handle_manifest_response, handle_manifest_ack,
  handle_device_network_sync,
}

module _ (env : Env) (online : env.online ≡ true) where
  abbrev sent_to : Node → Message → Node
  sent_to n m = record n { sent = push n.sent m }

  abbrev compared : Node → DeviceManifestComparisonResult → Node
  compared n c = record n { device_manifest_result = some c }

  start_lem :
      (n : Node)
      → start_add_device_process env n ≡ (
        ok tt,
        sent_to n (device_manifest_request (get_device_manifest (shared_tables n) n.peer_user.id)),
      )
  unfolding start_add_device_process send_message
  start_lem n = rw online refl

  request_lem :
      (n : Node) (p : DeviceManifestRequestPayload)
      → let c =
          process_device_manifest_request
            (get_device_manifest (shared_tables n) n.peer_user.id)
            p in
        handle_manifest_request env p n
        ≡ (ok tt, compared (sent_to n (device_manifest_response c)) c)
  unfolding handle_manifest_request set_device_manifest_comparison_result send_message
  request_lem n p = rw online refl

  abbrev payload_of : DeviceManifestComparisonResult → Node → DeviceNetworkSyncPayload
  payload_of c n = create_device_network_sync_payload c.remote_missing (shared_tables n)

  response_lem :
      (n : Node) (p : DeviceManifestComparisonResult)
      → let c = DeviceManifest.inverse p in
        handle_manifest_response env p n ≡ (
          ok tt,
          sent_to
              (sent_to (compared n c) device_manifest_ack)
              (device_network_sync (payload_of c n)),
        )
  unfolding handle_manifest_response send_device_network_sync set_device_manifest_comparison_result
      get_device_manifest_result send_message
  response_lem n p = rw online refl

  ack_lem :
      (n : Node) (c : DeviceManifestComparisonResult)
      → n.device_manifest_result ≡ some c
      → handle_manifest_ack env n ≡ (ok tt, sent_to n (device_network_sync (payload_of c n)))
  unfolding handle_manifest_ack send_device_network_sync get_device_manifest_result send_message
  ack_lem n c h = ground arith

  sync_lem :
      (n : Node) (p : DeviceNetworkSyncPayload) (t : DeviceTables)
      → process_device_network_sync env.enforced p (shared_tables n) ≡ (Repository.ok tt, t)
      → handle_device_network_sync env p n
        ≡ (ok tt, sent_to (with_tables t n) device_network_sync_ack)
  unfolding handle_device_network_sync send_message
  sync_lem n p t h = ground arith

-- What the device `b` answers to the manifest of `a`.
abbrev pub comparison : Node → Node → DeviceManifestComparisonResult
comparison a b =
    process_device_manifest_request (get_device_manifest (shared_tables b) b.peer_user.id)
      (get_device_manifest (shared_tables a) a.peer_user.id)

-- Where both devices can send, and each can process what the other one lacks by the answer to the
-- manifest, the session runs to its end: `a` sends its manifest, `b` answers, `a` acknowledges and sends
-- its payload, `b` sends its own for the acknowledgement, and each processes the other's payload and
-- acknowledges it. Then each has the tables that this processing gives.
pub device_session_complete :
    (env_a env_b : Env) (a b : Node) (ta tb : DeviceTables)
    → env_a.online ≡ true
    → env_b.online ≡ true
    → process_device_network_sync env_b.enforced
        (create_device_network_sync_payload
          (DeviceManifest.inverse (comparison a b)).remote_missing
          (shared_tables a))
        (shared_tables b)
      ≡ (Repository.ok tt, tb)
    → process_device_network_sync env_a.enforced
        (create_device_network_sync_payload (comparison a b).remote_missing (shared_tables b))
        (shared_tables a)
      ≡ (Repository.ok tt, ta)
    → (a1 b1 a2 b2 a3 b3 : Node) × (request : DeviceManifestRequestPayload)
      × (response : DeviceManifestComparisonResult) × (pa pb : DeviceNetworkSyncPayload)
      × (start_add_device_process env_a a ≡ (ok tt, a1))
      × (a1.sent ≡ push a.sent (device_manifest_request request))
      × (handle_manifest_request env_b request b ≡ (ok tt, b1))
      × (b1.sent ≡ push b.sent (device_manifest_response response))
      × (handle_manifest_response env_a response a1 ≡ (ok tt, a2))
      × (a2.sent ≡ push (push a1.sent device_manifest_ack) (device_network_sync pa))
      × (handle_manifest_ack env_b b1 ≡ (ok tt, b2))
      × (b2.sent ≡ push b1.sent (device_network_sync pb))
      × (handle_device_network_sync env_b pa b2 ≡ (ok tt, b3))
      × (b3.sent ≡ push b2.sent device_network_sync_ack)
      × (handle_device_network_sync env_a pb a2 ≡ (ok tt, a3))
      × (a3.sent ≡ push a2.sent device_network_sync_ack)
      × (shared_tables a3 ≡ ta)
      × (shared_tables b3 ≡ tb)
device_session_complete env_a env_b a b ta tb on_a on_b hb ha =
    let request = get_device_manifest (shared_tables a) a.peer_user.id in
    let c = comparison a b in
    let a1 = sent_to env_a on_a a (device_manifest_request request) in
    let b1 = compared env_b on_b (sent_to env_b on_b b (device_manifest_response c)) c in
    let pa = payload_of env_a on_a (DeviceManifest.inverse c) a in
    let pb = payload_of env_b on_b c b in
    let a2 =
      sent_to env_a on_a
        (sent_to env_a on_a (compared env_a on_a a1 (DeviceManifest.inverse c)) device_manifest_ack)
        (device_network_sync pa) in
    let b2 = sent_to env_b on_b b1 (device_network_sync pb) in
    (
      a1,
      b1,
      a2,
      b2,
      sent_to env_a on_a (with_tables ta a2) device_network_sync_ack,
      sent_to env_b on_b (with_tables tb b2) device_network_sync_ack,
      request,
      c,
      pa,
      pb,
      start_lem env_a on_a a,
      refl,
      request_lem env_b on_b b request,
      refl,
      response_lem env_a on_a a1 c,
      refl,
      ack_lem env_b on_b b1 c refl,
      refl,
      sync_lem env_b on_b b2 pa tb hb,
      refl,
      sync_lem env_a on_a a2 pb ta ha,
      refl,
      refl,
      refl,
    )
