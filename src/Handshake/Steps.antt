-- ===== src/Handshake/Steps.antt =====
-- The calls of a connection that the handlers of network/src/p2p/handshake.rs make, where they succeed.
use osvauld.Prelude.{String, true, false, some, [], ◌∷◌, push, ◌≡◌, arith}
use osvauld.Repository
use osvauld.Token
use osvauld.Store.{get_ucan_key}
use osvauld.Ucan.{validate_connect_token}
use osvauld.Devices.{Device, get_devices_by_user_id}
use osvauld.Users.{User, UserTables, get_user_by_device_id, add_users_with_devices_bulk}
use osvauld.Storage.{ConnectionType, user}
use osvauld.Manifest.{UserManifestRequestPayload}
use osvauld.Peer.{
  FirstConnectRequest, FirstConnectResponse, UcanAndUserExchange, first_connect_request,
  first_connect_response, exchange_message, handshake, user_manifest_request, Env, Node, ok,
  get_local_user, get_local_device, set_peer_user_and_device, set_connection_type, set_complete,
  send_message, get_ucan_pub_key, sign_ucan_pub_key, issue_connect_ucan_token, get_my_user_devices,
  remote_user, add_peer, start_user_network_sync,
}
use osvauld.Handshake.{
  known, initiate_handshake, respond_exchange, process_exchange_message,
  process_first_user_connection_request, process_first_user_connection_handshake_response,
}

-- A side that is logged in and signs its own key as `signed`.
pub record IsReady (env : Env) (n : Node) (me : User) (device : Device) (key signed : String)
    : Type 0 where
  pub has_user : n.current_user ≡ some me
  pub has_device : n.current_device ≡ some device
  pub own_key : String
  pub has_key : get_ucan_key n.db.store ≡ Repository.ok key
  pub has_public : env.public_ucan_key key ≡ some own_key
  pub signs : env.sign_clear_text own_key ≡ some signed
  pub can_send : env.online ≡ true

module _ (env : Env) where
  -- The peer's signed key reads as `peer_key`, and the peer's token lets it connect to `me`.
  abbrev pub Accepts : User → User → String → String → String → Type 0
  Accepts me peer signed token peer_key =
      (env.verify_clear_text peer.public_key signed ≡ some peer_key)
      × (validate_connect_token env.lib env.fuel token peer_key me.ucan_pub_key me.id env.domain
          ≡ some (Token.ok true))

  module _ (n : Node) (me : User) (device : Device) (key signed : String)
      (ready : IsReady env n me device key signed) where
    -- The state after a first request that is accepted.
    abbrev pub requested : FirstConnectRequest → String → String → UserTables → Node
    requested payload peer_key issued tables = record n {
      connection_type = some user;
      peer_user = payload.peer_user;
      peer_device = payload.peer_device;
      db = record n.db { tables = tables };
      handshake_complete = true;
      sent = push n.sent (
          handshake (
            first_connect_response (record {
              peer_user = me;
              peer_device = device;
              devices = get_devices_by_user_id me.id tables.devices;
              ucan_token = payload.issued_ucan;
              issued_ucan = issued;
              signed_ucan_pub = signed;
            })));
    }

    pub request_lem :
        (payload : FirstConnectRequest) (peer_key issued : String) (tables : UserTables)
        → Accepts me payload.peer_user payload.signed_ucan_pub payload.one_time_ucan peer_key
        → env.issue_connect_token key env.domain peer_key ≡ some issued
        → add_users_with_devices_bulk env.enforced
            (record {
              user = known payload.peer_user payload.issued_ucan peer_key;
              devices = payload.devices;
            }
              ∷ [])
            n.db.tables
          ≡ Repository.ok tables
        → process_first_user_connection_request env payload n
          ≡ (ok tt, requested payload peer_key issued tables)
    unfolding process_first_user_connection_request get_local_user get_local_device
        set_peer_user_and_device set_connection_type set_complete send_message get_my_user_devices
        add_peer sign_ucan_pub_key get_ucan_pub_key issue_connect_ucan_token
    request_lem payload peer_key issued tables (v, t) i a = ground arith

    pub initiate_first :
        (connection_type : ConnectionType) (id token : String) (peer : User)
        → env.remote_device_id ≡ some id
        → get_user_by_device_id id n.db.tables ≡ Repository.ok peer
        → peer.first_sync ≡ false
        → env.issue_connect_token key env.domain peer.ucan_pub_key ≡ some token
        → initiate_handshake env connection_type me device n ≡ (
          ok tt,
          record n {
            sent = push n.sent (
                handshake (
                  first_connect_request (record {
                    devices = get_devices_by_user_id me.id n.db.tables.devices;
                    issued_ucan = token;
                    signed_ucan_pub = signed;
                    one_time_ucan = peer.ucan_token;
                    peer_device = device;
                    peer_user = me;
                    connection_type = connection_type;
                  })));
          },
        )
    unfolding initiate_handshake send_message get_my_user_devices remote_user sign_ucan_pub_key
        get_ucan_pub_key issue_connect_ucan_token
    initiate_first connection_type id token peer r g f i = ground arith

    pub initiate_known :
        (connection_type : ConnectionType) (id : String) (peer : User)
        → env.remote_device_id ≡ some id
        → get_user_by_device_id id n.db.tables ≡ Repository.ok peer
        → peer.first_sync ≡ true
        → initiate_handshake env connection_type me device n ≡ (
          ok tt,
          record n {
            sent = push n.sent (
                handshake (
                  exchange_message (record {
                    ucan_token = peer.ucan_token;
                    peer_user = me;
                    peer_device = device;
                    connection_type = connection_type;
                    signed_ucan_pub = signed;
                  })));
            connection_type = some user;
          },
        )
    unfolding initiate_handshake send_message remote_user sign_ucan_pub_key get_ucan_pub_key
        set_connection_type
    initiate_known connection_type id peer r g f = ground arith

    -- The state of the initiator after its peer was accepted and stored.
    abbrev pub responded : FirstConnectResponse → UserTables → Node
    responded payload tables = record n {
      peer_user = payload.peer_user;
      peer_device = payload.peer_device;
      db = record n.db { tables = tables };
      handshake_complete = true;
    }

    pub response_lem :
        (payload : FirstConnectResponse) (peer_key : String) (tables : UserTables)
        → Accepts me payload.peer_user payload.signed_ucan_pub payload.ucan_token peer_key
        → add_users_with_devices_bulk env.enforced
            (record {
              user = known payload.peer_user payload.issued_ucan peer_key;
              devices = payload.devices;
            }
              ∷ [])
            n.db.tables
          ≡ Repository.ok tables
        → process_first_user_connection_handshake_response env payload n
          ≡ start_user_network_sync env (responded payload tables)
    unfolding process_first_user_connection_handshake_response get_local_user
        set_peer_user_and_device set_complete add_peer
    response_lem payload peer_key tables (v, t) a = ground arith

    pub exchange_first :
        (payload : UcanAndUserExchange) (peer_key : String)
        → env.is_initiator ≡ true
        → Accepts me payload.peer_user payload.signed_ucan_pub payload.ucan_token peer_key
        → process_exchange_message env payload n
          ≡ start_user_network_sync env (record n {
            peer_user = payload.peer_user;
            peer_device = payload.peer_device;
            handshake_complete = true;
          })
    unfolding process_exchange_message get_local_user get_local_device set_peer_user_and_device
        set_complete
    exchange_first payload peer_key b (v, t) = ground arith

    -- The state of the side that answers an exchange.
    abbrev pub answered : UcanAndUserExchange → String → Node
    answered payload token = record n {
      peer_user = payload.peer_user;
      peer_device = payload.peer_device;
      handshake_complete = true;
      connection_type = some user;
      sent = push n.sent (
          handshake (
            exchange_message (record {
              signed_ucan_pub = signed;
              peer_user = me;
              peer_device = device;
              ucan_token = token;
              connection_type = payload.connection_type;
            })));
    }

    pub exchange_second :
        (payload : UcanAndUserExchange) (peer_key id : String) (peer : User)
        → env.is_initiator ≡ false
        → Accepts me payload.peer_user payload.signed_ucan_pub payload.ucan_token peer_key
        → env.remote_device_id ≡ some id
        → get_user_by_device_id id n.db.tables ≡ Repository.ok peer
        → process_exchange_message env payload n ≡ (ok tt, answered payload peer.ucan_token)
    unfolding process_exchange_message get_local_user get_local_device set_peer_user_and_device
        set_complete respond_exchange sign_ucan_pub_key get_ucan_pub_key remote_user send_message
        set_connection_type
    exchange_second payload peer_key id peer b (v, t) r g = ground arith

  pub sync_lem :
      (n : Node) (me : User) (m : UserManifestRequestPayload)
      → env.is_initiator ≡ true
      → env.online ≡ true
      → n.current_user ≡ some me
      → env.user_manifest n.db n.peer_user.id me.id ≡ Repository.ok m
      → start_user_network_sync env n
        ≡ (ok tt, record n { sent = push n.sent (user_manifest_request m) })
  unfolding start_user_network_sync get_local_user send_message
  sync_lem n me m b o u h = ground arith
