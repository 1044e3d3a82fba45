-- ===== src/Handshake.antt =====
-- network/src/p2p/handshake.rs: the handlers of the handshake messages, and their first message.
pub mod Steps
pub mod Safety
pub mod Completion
pub mod Reconnection
use osvauld.Prelude.{String, true, false, [], if◌then◌else◌}
use osvauld.Ucan.{validate_connect_token}
use osvauld.Users.{User}
use osvauld.Storage.{ConnectionType, user}
use osvauld.Peer.{
  FirstConnectRequest, FirstConnectResponse, UcanAndUserExchange, HandshakeMessage,
  first_connect_request, first_connect_response, exchange_message, handshake, crypto_error,
  invalid_credentials, Env, Action, pure, fail, ◌>>=◌, ◌>>◌, or_fail, from_token, get_local_user,
  get_local_device, set_peer_user_and_device, set_connection_type, set_complete, send_message,
  sign_ucan_pub_key, issue_connect_ucan_token, get_my_user_devices, remote_user, add_peer,
  start_user_network_sync,
}
use osvauld.Devices.{Device}

-- The peer's user as it is stored.
abbrev pub known : User → String → String → User
known peer_user issued_ucan peer_ucan_pub = record peer_user {
  first_sync = true;
  owner = false;
  ucan_token = issued_ucan;
  ucan_pub_key = peer_ucan_pub;
}

module _ (env : Env) where
  -- The key in a signed text, by the public key that comes with it.
  abbrev pub verified_key : User → String → Action String
  verified_key peer_user signed_ucan_pub =
      or_fail (env.verify_clear_text peer_user.public_key signed_ucan_pub) crypto_error

  -- The validation of a token that the peer presents to the local user, with the error for its user.
  abbrev pub check_token : String → String → User → User → Action (Unit {0})
  check_token token peer_ucan_pub me peer_user =
      from_token (
        validate_connect_token env.lib env.fuel token peer_ucan_pub me.ucan_pub_key me.id
          env.domain)
      >>= λ valid. if valid then pure tt else fail (invalid_credentials peer_user.id)

  unfoldable pub initiate_handshake : ConnectionType → User → Device → Action (Unit {0})
  initiate_handshake connection_type current_user current_device = remote_user env >>= λ peer_user.
      sign_ucan_pub_key env >>= λ signed_ucan_pub.
      if peer_user.first_sync
      then (send_message env (
            handshake (
              exchange_message (record {
                ucan_token = peer_user.ucan_token;
                peer_user = current_user;
                peer_device = current_device;
                connection_type = connection_type;
                signed_ucan_pub = signed_ucan_pub;
              })))
          >> set_connection_type user)
      else (get_my_user_devices current_user.id >>= λ user_devices.
          issue_connect_ucan_token env peer_user.ucan_pub_key >>= λ new_ucan_token.
          send_message env (
            handshake (
              first_connect_request (record {
                devices = user_devices;
                issued_ucan = new_ucan_token;
                signed_ucan_pub = signed_ucan_pub;
                one_time_ucan = peer_user.ucan_token;
                peer_device = current_device;
                peer_user = current_user;
                connection_type = connection_type;
              }))))

  -- The rest of `process_exchange_message` for the side that did not begin.
  unfoldable pub respond_exchange : ConnectionType → User → Device → Action (Unit {0})
  respond_exchange connection_type me device = sign_ucan_pub_key env >>= λ signed_ucan_pub.
      remote_user env >>= λ peer_user.
      set_complete
      >> send_message env (
          handshake (
            exchange_message (record {
              signed_ucan_pub = signed_ucan_pub;
              peer_user = me;
              peer_device = device;
              ucan_token = peer_user.ucan_token;
              connection_type = connection_type;
            })))
      >> set_connection_type user

  unfoldable pub process_exchange_message : UcanAndUserExchange → Action (Unit {0})
  process_exchange_message payload =
      verified_key payload.peer_user payload.signed_ucan_pub >>= λ peer_ucan_pub.
      get_local_user >>= λ me. get_local_device >>= λ device.
      check_token payload.ucan_token peer_ucan_pub me payload.peer_user
      >> set_peer_user_and_device payload.peer_user payload.peer_device
      >> (if env.is_initiator
          then (set_complete >> start_user_network_sync env)
          else respond_exchange payload.connection_type me device)

  unfoldable pub process_first_user_connection_request : FirstConnectRequest → Action (Unit {0})
  process_first_user_connection_request payload = get_local_user >>= λ me.
      get_local_device >>= λ device.
      verified_key payload.peer_user payload.signed_ucan_pub >>= λ peer_ucan_pub.
      check_token payload.one_time_ucan peer_ucan_pub me payload.peer_user
      >> (sign_ucan_pub_key env >>= λ signed_ucan_pub.
          issue_connect_ucan_token env peer_ucan_pub >>= λ peer_issued.
          set_connection_type user
          >> set_peer_user_and_device payload.peer_user payload.peer_device
          >> add_peer env (record {
            user = known payload.peer_user payload.issued_ucan peer_ucan_pub;
            devices = payload.devices;
          })
          >> (get_my_user_devices me.id >>= λ my_devices.
              set_complete
              >> send_message env (
                  handshake (
                    first_connect_response (record {
                      peer_user = me;
                      peer_device = device;
                      devices = my_devices;
                      ucan_token = payload.issued_ucan;
                      issued_ucan = peer_issued;
                      signed_ucan_pub = signed_ucan_pub;
                    })))))

  unfoldable pub process_first_user_connection_handshake_response :
      FirstConnectResponse → Action (Unit {0})
  process_first_user_connection_handshake_response payload =
      verified_key payload.peer_user payload.signed_ucan_pub >>= λ peer_ucan_pub.
      get_local_user >>= λ me.
      check_token payload.ucan_token peer_ucan_pub me payload.peer_user
      >> set_peer_user_and_device payload.peer_user payload.peer_device
      >> set_complete
      >> add_peer env (record {
        user = known payload.peer_user payload.issued_ucan peer_ucan_pub;
        devices = payload.devices;
      })
      >> start_user_network_sync env

  unfoldable pub handle_handshake_message : HandshakeMessage → Action (Unit {0})
  handle_handshake_message (first_connect_request payload) =
      process_first_user_connection_request payload
  handle_handshake_message (first_connect_response payload) =
      process_first_user_connection_handshake_response payload
  handle_handshake_message (exchange_message payload) = process_exchange_message payload
