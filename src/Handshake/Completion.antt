-- ===== src/Handshake/Completion.antt =====
-- A first connection between two peers, message by message: network/src/p2p/handshake.rs.
use osvauld.Prelude.{
  String, true, false, Option, none, some, List, [], ◌∷◌, push, or_else, ◌≡◌, refl, ap, ◌∙◌,
}
use osvauld.Repository
use osvauld.Devices.{Device, get_devices_by_user_id}
use osvauld.Users.{User, UserTables, get_user_by_device_id, add_users_with_devices_bulk}
use osvauld.Storage.{ConnectionType}
use osvauld.Manifest.{UserManifestRequestPayload}
use osvauld.Peer.{
  FirstConnectRequest, FirstConnectResponse, HandshakeMessage, first_connect_request,
  first_connect_response, Message, handshake, user_manifest_request, invalid_state, Env, Node,
  Outcome, ok, err,
}
use osvauld.Devices.Batch.{device_row}
use osvauld.Users.Lookup.{add-get_user_by_device_id}
use osvauld.Handshake.{initiate_handshake, handle_handshake_message}
use osvauld.Handshake.Steps.{
  IsReady, Accepts, initiate_first, request_lem, requested, response_lem, responded, sync_lem,
}

-- The last message that was sent.
abbrev pub last : List Message → Option Message
last [] = none
last (m ∷ []) = some m
last (m ∷ x ∷ ms) = last (x ∷ ms)

pub last-push : (ms : List Message) (m : Message) → last (push ms m) ≡ some m
last-push [] m = refl
last-push (x ∷ []) m = refl
last-push (x ∷ y ∷ ms) m = last-push (y ∷ ms) m

abbrev handle_sent : Env → Option Message → Node → Outcome (Unit {0}) × Node
handle_sent env (some (handshake m)) n = handle_handshake_message env m n
handle_sent env other n = (err invalid_state, n)

-- The receiver handles the handshake message that the sender sent last.
unfoldable pub deliver : Env → Node → Node → Outcome (Unit {0}) × Node
deliver env sender receiver = handle_sent env (last sender.sent) receiver

pub deliver_lem :
    (env : Env) (sender receiver : Node) (ms : List Message) (m : HandshakeMessage)
    → sender.sent ≡ push ms (handshake m)
    → deliver env sender receiver ≡ handle_handshake_message env m receiver
unfolding deliver
deliver_lem env sender receiver ms m e =
    ap (λ x. handle_sent env x receiver) (ap last e ∙ last-push ms (handshake m))

-- Two sides that are logged in; `a` knows `b` by a one-time token, and each accepts what the other
-- presents: `b` the one-time token, and `a` the token that it issued to the key it knows.
pub record CanMeet (env_a env_b : Env) (a b : Node) : Type 0 where
  pub me_a : User
  pub me_b : User
  pub device_a : Device
  pub device_b : Device
  pub store_key_a : String
  pub store_key_b : String
  pub signed_a : String
  pub signed_b : String
  pub ready_a : IsReady env_a a me_a device_a store_key_a signed_a
  pub ready_b : IsReady env_b b me_b device_b store_key_b signed_b
  pub begins : env_a.is_initiator ≡ true
  pub id_b : String
  pub row_b : User
  pub remote_b : env_a.remote_device_id ≡ some id_b
  pub found_b : get_user_by_device_id id_b a.db.tables ≡ Repository.ok row_b
  pub new_b : row_b.first_sync ≡ false
  pub key_a : String
  pub key_b : String
  pub token_a : String
  pub token_b : String
  pub issues_a :
      env_a.issue_connect_token store_key_a env_a.domain row_b.ucan_pub_key ≡ some token_a
  pub issues_b : env_b.issue_connect_token store_key_b env_b.domain key_a ≡ some token_b
  pub accepts_b : Accepts env_b me_b me_a signed_a row_b.ucan_token key_a
  pub accepts_a : Accepts env_a me_a me_b signed_b token_a key_b
  pub tables_a : UserTables
  pub tables_b : UserTables
  pub stores_b :
      add_users_with_devices_bulk env_b.enforced
        (record {
          user = record me_a {
            first_sync = true;
            owner = false;
            ucan_token = token_a;
            ucan_pub_key = key_a;
          };
          devices = get_devices_by_user_id me_a.id a.db.tables.devices;
        }
          ∷ [])
        b.db.tables
      ≡ Repository.ok tables_b
  pub stores_a :
      add_users_with_devices_bulk env_a.enforced
        (record {
          user = record me_b {
            first_sync = true;
            owner = false;
            ucan_token = token_b;
            ucan_pub_key = key_b;
          };
          devices = get_devices_by_user_id me_b.id tables_b.devices;
        }
          ∷ [])
        a.db.tables
      ≡ Repository.ok tables_a
  pub held_a : Device
  pub held_b : Device
  pub listed_a :
      or_else
        (device_row device_a.id b.db.tables.devices)
        (device_row device_a.id (get_devices_by_user_id me_a.id a.db.tables.devices))
      ≡ some held_a
  pub listed_b :
      or_else
        (device_row device_b.id a.db.tables.devices)
        (device_row device_b.id (get_devices_by_user_id me_b.id tables_b.devices))
      ≡ some held_b
  pub owned_a : held_a.user_id ≡ me_a.id
  pub owned_b : held_b.user_id ≡ me_b.id
  pub manifest : UserManifestRequestPayload
  pub reads :
      env_a.user_manifest (record a.db { tables = tables_a }) me_b.id me_a.id
      ≡ Repository.ok manifest

-- The row that a device leads to is that of the user, with the token, the key and the mark of a user
-- that was met.
abbrev pub IsMet : String → User → String → String → UserTables → Type 0
IsMet device_id user token key t =
    (row : User) × (get_user_by_device_id device_id t ≡ Repository.ok row)
    × (row.id ≡ user.id)
    × (row.ucan_token ≡ token)
    × (row.ucan_pub_key ≡ key)
    × (row.first_sync ≡ true)

-- Where two sides can meet, the first connection completes: the initiator's request is sent, the other
-- side handles it and answers, and the initiator handles the answer and asks for the manifest. Then the
-- handshake is complete on both sides, each has the other as its peer, and the other's device leads each
-- side to the other's user, with the token that the other one issued, the key that it signed, and the
-- mark that the two have met.
pub first_connect_complete :
    (env_a env_b : Env) (a b : Node) (connection_type : ConnectionType)
    (m : CanMeet env_a env_b a b)
    → (a1 b1 a2 : Node) × (initiate_handshake env_a connection_type m.me_a m.device_a a
        ≡ (ok tt, a1))
      × (deliver env_b a1 b ≡ (ok tt, b1))
      × (deliver env_a b1 a1 ≡ (ok tt, a2))
      × (a2.handshake_complete ≡ true)
      × (b1.handshake_complete ≡ true)
      × (a2.peer_user ≡ m.me_b)
      × (b1.peer_user ≡ m.me_a)
      × (a2.db.tables ≡ m.tables_a)
      × (b1.db.tables ≡ m.tables_b)
      × IsMet m.device_a.id m.me_a m.token_a m.key_a b1.db.tables
      × IsMet m.device_b.id m.me_b m.token_b m.key_b a2.db.tables
      × (last a2.sent ≡ some (user_manifest_request m.manifest))
unfolding handle_handshake_message
first_connect_complete env_a env_b a b connection_type m =
    let req : FirstConnectRequest = record {
      devices = get_devices_by_user_id m.me_a.id a.db.tables.devices;
      issued_ucan = m.token_a;
      signed_ucan_pub = m.signed_a;
      one_time_ucan = m.row_b.ucan_token;
      peer_device = m.device_a;
      peer_user = m.me_a;
      connection_type = connection_type;
    } in
    let a1 : Node = record a { sent = push a.sent (handshake (first_connect_request req)) } in
    let res : FirstConnectResponse = record {
      peer_user = m.me_b;
      peer_device = m.device_b;
      devices = get_devices_by_user_id m.me_b.id m.tables_b.devices;
      ucan_token = m.token_a;
      issued_ucan = m.token_b;
      signed_ucan_pub = m.signed_b;
    } in
    let b1 : Node =
      requested env_b b m.me_b m.device_b m.store_key_b m.signed_b m.ready_b req m.key_a m.token_b
        m.tables_b in
    let ready_a1 : IsReady env_a a1 m.me_a m.device_a m.store_key_a m.signed_a = record {
      has_user = m.ready_a.has_user;
      has_device = m.ready_a.has_device;
      own_key = m.ready_a.own_key;
      has_key = m.ready_a.has_key;
      has_public = m.ready_a.has_public;
      signs = m.ready_a.signs;
      can_send = m.ready_a.can_send;
    } in
    let mid : Node =
      responded env_a a1 m.me_a m.device_a m.store_key_a m.signed_a ready_a1 res m.tables_a in
    let (row_a, found_a, r_a) =
      add-get_user_by_device_id env_b.enforced _ b.db.tables m.tables_b m.device_a.id m.held_a
        m.stores_b m.listed_a m.owned_a in
    let (row_b, found_b, r_b) =
      add-get_user_by_device_id env_a.enforced _ a.db.tables m.tables_a m.device_b.id m.held_b
        m.stores_a m.listed_b m.owned_b in
    (
      a1,
      b1,
      record mid { sent = push a1.sent (user_manifest_request m.manifest) },
      initiate_first env_a a m.me_a m.device_a m.store_key_a m.signed_a m.ready_a connection_type
          m.id_b m.token_a m.row_b m.remote_b m.found_b m.new_b m.issues_a,
      deliver_lem env_b a1 b a.sent (first_connect_request req) refl
          ∙ request_lem env_b b m.me_b m.device_b m.store_key_b m.signed_b m.ready_b req m.key_a
              m.token_b m.tables_b m.accepts_b m.issues_b m.stores_b,
      deliver_lem env_a b1 a1 b.sent (first_connect_response res) refl
          ∙ (response_lem env_a a1 m.me_a m.device_a m.store_key_a m.signed_a ready_a1 res m.key_b
                m.tables_a m.accepts_a m.stores_a
              ∙ sync_lem env_a mid m.me_a m.manifest m.begins m.ready_a.can_send m.ready_a.has_user
                  m.reads),
      refl,
      refl,
      refl,
      refl,
      refl,
      refl,
      (row_a, found_a, r_a.same_id, r_a.same_token, r_a.same_key, r_a.same_sync),
      (row_b, found_b, r_b.same_id, r_b.same_token, r_b.same_key, r_b.same_sync),
      last-push a1.sent (user_manifest_request m.manifest),
    )
