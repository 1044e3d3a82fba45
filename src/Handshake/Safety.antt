-- ===== src/Handshake/Safety.antt =====
-- What the handlers of network/src/p2p/handshake.rs ask of a message before they change anything.
use osvauld.Prelude.{
  String, Bool, true, false, Option, Option-cases, none, some, ◌≡◌, ◌⊎◌, inl, inr, refl, arith,
}
use osvauld.Token
use osvauld.Ucan.{validate_connect_token}
use osvauld.Users.{User}
use osvauld.Peer.{
  FirstConnectRequest, FirstConnectResponse, UcanAndUserExchange, HandshakeMessage,
  first_connect_request, first_connect_response, exchange_message, Env, Node, P2pError, Outcome,
  err, crypto_error, invalid_state, missing_peer_info, out_of_fuel, invalid_credentials, ucan,
  get_local_user, get_local_device,
}
use osvauld.Handshake.{
  process_exchange_message, process_first_user_connection_request,
  process_first_user_connection_handshake_response, handle_handshake_message,
}
use osvauld.Handshake.Steps.{Accepts}

abbrev pub sender : HandshakeMessage → User
sender (first_connect_request p) = p.peer_user
sender (first_connect_response p) = p.peer_user
sender (exchange_message p) = p.peer_user

abbrev pub signed_key : HandshakeMessage → String
signed_key (first_connect_request p) = p.signed_ucan_pub
signed_key (first_connect_response p) = p.signed_ucan_pub
signed_key (exchange_message p) = p.signed_ucan_pub

abbrev pub presented : HandshakeMessage → String
presented (first_connect_request p) = p.one_time_ucan
presented (first_connect_response p) = p.ucan_token
presented (exchange_message p) = p.ucan_token

module _ (env : Env) (n : Node) where
  -- A local user, a key that the sender signed, and a token that lets this key connect to the user.
  abbrev pub IsAuthenticated : User → String → String → Type 0
  IsAuthenticated peer signed token =
      (me : User) × (peer_key : String) × (n.current_user ≡ some me)
      × Accepts env me peer signed token peer_key

  -- The handler refuses the message, and nothing changed.
  abbrev pub IsRefused : Outcome (Unit {0}) × Node → Type 0
  IsRefused r = (e : P2pError) × (r ≡ (err e, n))

  Token-cases :
      (o : Option (Token.Result Bool))
      → (o ≡ some (Token.ok true))
        ⊎ ((o ≡ none)
            ⊎ ((o ≡ some (Token.ok false)) ⊎ ((e : Token.UcanError) × (o ≡ some (Token.err e)))))
  Token-cases none = inr (inl refl)
  Token-cases (some (Token.ok true)) = inl refl
  Token-cases (some (Token.ok false)) = inr (inr (inl refl))
  Token-cases (some (Token.err e)) = inr (inr (inr (e, refl)))

  exchange-IsAuthenticated :
      (p : UcanAndUserExchange)
      → IsAuthenticated p.peer_user p.signed_ucan_pub p.ucan_token
        ⊎ IsRefused (process_exchange_message env p n)
  unfolding process_exchange_message get_local_user get_local_device
  exchange-IsAuthenticated p =
      elim (Option-cases (env.verify_clear_text p.peer_user.public_key p.signed_ucan_pub)) [
        | inl a ↦ inr (crypto_error, ground arith)
        | inr (k, a) ↦ elim (Option-cases (n.current_user)) [
          | inl b ↦ inr (invalid_state, ground arith)
          | inr (me, b) ↦ elim (Option-cases (n.current_device)) [
            | inl c ↦ inr (missing_peer_info, ground arith)
            | inr (device, c) ↦
                elim (Token-cases (
                  validate_connect_token env.lib env.fuel p.ucan_token k me.ucan_pub_key me.id
                    env.domain)) [
                      | inl d ↦ inl (me, k, b, (a, d))
                      | inr (inl d) ↦ inr (out_of_fuel, ground arith)
                      | inr (inr (inl d)) ↦ inr (invalid_credentials p.peer_user.id, ground arith)
                      | inr (inr (inr (e, d))) ↦ inr (ucan e, ground arith)
                    ]
          ]
        ]
      ]

  request-IsAuthenticated :
      (p : FirstConnectRequest)
      → IsAuthenticated p.peer_user p.signed_ucan_pub p.one_time_ucan
        ⊎ IsRefused (process_first_user_connection_request env p n)
  unfolding process_first_user_connection_request get_local_user get_local_device
  request-IsAuthenticated p = elim (Option-cases (n.current_user)) [
    | inl b ↦ inr (invalid_state, ground arith)
    | inr (me, b) ↦ elim (Option-cases (n.current_device)) [
      | inl c ↦ inr (missing_peer_info, ground arith)
      | inr (device, c) ↦
          elim (Option-cases (env.verify_clear_text p.peer_user.public_key p.signed_ucan_pub)) [
            | inl a ↦ inr (crypto_error, ground arith)
            | inr (k, a) ↦
                elim (Token-cases (
                  validate_connect_token env.lib env.fuel p.one_time_ucan k me.ucan_pub_key me.id
                    env.domain)) [
                      | inl d ↦ inl (me, k, b, (a, d))
                      | inr (inl d) ↦ inr (out_of_fuel, ground arith)
                      | inr (inr (inl d)) ↦ inr (invalid_credentials p.peer_user.id, ground arith)
                      | inr (inr (inr (e, d))) ↦ inr (ucan e, ground arith)
                    ]
          ]
    ]
  ]

  response-IsAuthenticated :
      (p : FirstConnectResponse)
      → IsAuthenticated p.peer_user p.signed_ucan_pub p.ucan_token
        ⊎ IsRefused (process_first_user_connection_handshake_response env p n)
  unfolding process_first_user_connection_handshake_response get_local_user
  response-IsAuthenticated p =
      elim (Option-cases (env.verify_clear_text p.peer_user.public_key p.signed_ucan_pub)) [
        | inl a ↦ inr (crypto_error, ground arith)
        | inr (k, a) ↦ elim (Option-cases (n.current_user)) [
          | inl b ↦ inr (invalid_state, ground arith)
          | inr (me, b) ↦
              elim (Token-cases (
                validate_connect_token env.lib env.fuel p.ucan_token k me.ucan_pub_key me.id
                  env.domain)) [
                    | inl d ↦ inl (me, k, b, (a, d))
                    | inr (inl d) ↦ inr (out_of_fuel, ground arith)
                    | inr (inr (inl d)) ↦ inr (invalid_credentials p.peer_user.id, ground arith)
                    | inr (inr (inr (e, d))) ↦ inr (ucan e, ground arith)
                  ]
        ]
      ]

-- Each handshake message either carries a public key that its sender signed, and a token by which the
-- holder of this key may connect to the local user, or it is refused with an error, and then the whole
-- state of the connection, the stored users and devices and the messages sent are as before.
pub handle_handshake_message-IsAuthenticated :
    (env : Env) (n : Node) (m : HandshakeMessage)
    → IsAuthenticated env n (sender m) (signed_key m) (presented m)
      ⊎ IsRefused env n (handle_handshake_message env m n)
unfolding handle_handshake_message
handle_handshake_message-IsAuthenticated env n (first_connect_request p) =
    request-IsAuthenticated env n p
handle_handshake_message-IsAuthenticated env n (first_connect_response p) =
    response-IsAuthenticated env n p
handle_handshake_message-IsAuthenticated env n (exchange_message p) =
    exchange-IsAuthenticated env n p
