-- ===== src/Handshake/Reconnection.antt =====
-- A connection between two peers that know each other: network/src/p2p/handshake.rs.
use osvauld.Prelude.{String, true, false, some, ◌≡◌}
use osvauld.Repository
use osvauld.Devices.{Device}
use osvauld.Users.{User, get_user_by_device_id}
use osvauld.Manifest.{UserManifestRequestPayload}
use osvauld.Peer.{Env, Node, ok}
use osvauld.Handshake.Steps.{IsReady, Accepts}

-- Two sides that are logged in and have each other's user in their tables, each with a token that the
-- other side accepts.
pub record CanReconnect (env_a env_b : Env) (a b : Node) : Type 0 where
  pub me_a : User
  pub me_b : User
  pub device_a : Device
  pub device_b : Device
  pub store_key_a : String
  pub store_key_b : String
  pub signed_a : String
  pub signed_b : String
  pub ready_a : IsReady env_a a me_a device_a store_key_a signed_a
  pub ready_b : IsReady env_b b me_b device_b store_key_b signed_b
  pub begins : env_a.is_initiator ≡ true
  pub answers : env_b.is_initiator ≡ false
  pub id_a : String
  pub id_b : String
  pub row_a : User
  pub row_b : User
  pub remote_b : env_a.remote_device_id ≡ some id_b
  pub found_b : get_user_by_device_id id_b a.db.tables ≡ Repository.ok row_b
  pub known_b : row_b.first_sync ≡ true
  pub remote_a : env_b.remote_device_id ≡ some id_a
  pub found_a : get_user_by_device_id id_a b.db.tables ≡ Repository.ok row_a
  pub key_a : String
  pub key_b : String
  pub accepts_b : Accepts env_b me_b me_a signed_a row_b.ucan_token key_a
  pub accepts_a : Accepts env_a me_a me_b signed_b row_a.ucan_token key_b
  pub manifest : UserManifestRequestPayload
  pub reads : env_a.user_manifest a.db me_b.id me_a.id ≡ Repository.ok manifest
