-- ===== src/Peer.antt =====
-- The state of a network/src/p2p/peer_connection.rs with the handshake messages of
-- core/src/models/p2p.rs, and the calls of a connection. A call takes the state and returns it with an
-- outcome: what was written before a failure stays written. The libraries for keys and signatures, and
-- the reading of the local manifest, are the fields of `Env`, which a connection never changes.
use osvauld.Prelude.{ℕ, String, Bool, true, Option, none, some, List, [], ◌∷◌, if◌then◌else◌, push}
use osvauld.Repository
use osvauld.Repository.{RepositoryError}
use osvauld.Token
use osvauld.Token.{Library, UcanError}
use osvauld.Store.{get_ucan_key}
use osvauld.Devices.{Device, DeviceRows, get_devices_by_user_id}
use osvauld.Users.{User, UserWithDevices, get_user_by_device_id, add_users_with_devices_bulk}
use osvauld.Storage.{ConnectionType, user}
use osvauld.Manifest.{
  UserManifestRequestPayload, DeviceManifestRequestPayload, DeviceManifestComparisonResult,
  UserManifestComparisonResult,
}
use osvauld.Resources.{ResourceTables, ResourceSyncData, Admits}
use osvauld.Payloads.{DeviceNetworkSyncPayload}
use osvauld.FolderShares.{FolderShareRecord, FolderWithShareRecords, FolderRecipientUpdate}
use osvauld.Auth.{Database}

pub record FirstConnectRequest : Type 0 where
  pub devices : DeviceRows
  pub issued_ucan : String
  pub signed_ucan_pub : String
  pub one_time_ucan : String
  pub peer_device : Device
  pub peer_user : User
  pub connection_type : ConnectionType

pub record FirstConnectResponse : Type 0 where
  pub devices : DeviceRows
  pub issued_ucan : String
  pub signed_ucan_pub : String
  pub ucan_token : String
  pub peer_user : User
  pub peer_device : Device

pub record UcanAndUserExchange : Type 0 where
  pub signed_ucan_pub : String
  pub ucan_token : String
  pub peer_user : User
  pub peer_device : Device
  pub connection_type : ConnectionType

pub data HandshakeMessage : Type 0 where
  first_connect_request : FirstConnectRequest → HandshakeMessage
  first_connect_response : FirstConnectResponse → HandshakeMessage
  exchange_message : UcanAndUserExchange → HandshakeMessage

-- The messages of a handshake, and those by which two devices synchronise their tables, or two users
-- their folders.
pub data Message : Type 0 where
  handshake : HandshakeMessage → Message
  user_manifest_request : UserManifestRequestPayload → Message
  device_manifest_request : DeviceManifestRequestPayload → Message
  device_manifest_response : DeviceManifestComparisonResult → Message
  device_network_sync : DeviceNetworkSyncPayload → Message
  device_manifest_ack device_network_sync_ack resource_addition_complete : Message
  resource_addition_request : ResourceSyncData → Message
  unknown_folders_payload : List FolderWithShareRecords → Message
  folder_recipient_sync_payload : List FolderRecipientUpdate → Message

pub data P2pError : Type 0 where
  repository : RepositoryError → P2pError
  ucan : UcanError → P2pError
  invalid_credentials : String → P2pError
  crypto_error missing_peer_info invalid_state send_failed : P2pError
  no_remote_id manifest_generation_failed manifest_not_found default_folder_not_found out_of_fuel :
      P2pError

pub data Outcome (A : Type 0) : Type 0 where
  ok : A → Outcome A
  err : P2pError → Outcome A

-- `remote_device_id` is the base64 text of the remote node's id; `online` says whether the transport
-- sends; the `admits` and `enforced` say which rows meet the foreign keys, and `stamp` what `Uuid::new_v4` and
-- `Local::now` return; `fuel` bounds the chains of tokens that are followed.
pub record Env : Type 0 where
  pub lib : Library
  pub verify_clear_text : String → String → Option String
  pub public_ucan_key : String → Option String
  pub sign_clear_text : String → Option String
  pub issue_connect_token : String → String → String → Option String
  pub user_manifest : Database → String → String → Repository.Result UserManifestRequestPayload
  pub remote_device_id : Option String
  pub is_initiator : Bool
  pub domain : String
  pub online : Bool
  pub enforced : Bool
  pub admits : Admits
  pub admits_folder_share : FolderShareRecord → Bool
  pub stamp : ℕ → String × ℕ
  pub fuel : ℕ

pub record Node : Type 0 where
  pub db : Database
  pub current_user : Option User
  pub current_device : Option Device
  pub peer_user : User
  pub peer_device : Device
  pub connection_type : Option ConnectionType
  pub handshake_complete : Bool
  pub resource_tables : ResourceTables
  pub device_manifest_result : Option DeviceManifestComparisonResult
  pub user_manifest_result : Option UserManifestComparisonResult
  pub sent : List Message

abbrev pub Action : Type 0 → Type 0
Action A = Node → Outcome A × Node

abbrev pub pure : {A : Type 0} → A → Action A
pure a n = (ok a, n)

abbrev pub fail : {A : Type 0} → P2pError → Action A
fail e n = (err e, n)

infixl 5 ◌>>=◌ ◌>>◌
abbrev pub ◌>>=◌ : {A B : Type 0} → Action A → (A → Action B) → Action B
◌>>=◌ m f n = let (r, n') = m n in elim r [ ok a ↦ f a n' | err e ↦ (err e, n') ]

abbrev pub ◌>>◌ : {A B : Type 0} → Action A → Action B → Action B
m >> k = m >>= λ _. k

abbrev pub modify : (Node → Node) → Action (Unit {0})
modify f n = (ok tt, f n)

abbrev pub or_fail : {A : Type 0} → Option A → P2pError → Action A
or_fail none e = fail e
or_fail (some a) e = pure a

abbrev pub from_repository : {A : Type 0} → Repository.Result A → Action A
from_repository (Repository.ok a) = pure a
from_repository (Repository.err e) = fail (repository e)

-- A validation that may run out of fuel.
abbrev pub from_token : Option (Token.Result Bool) → Action Bool
from_token none = fail out_of_fuel
from_token (some (Token.ok b)) = pure b
from_token (some (Token.err e)) = fail (ucan e)

unfoldable pub get_local_user : Action User
get_local_user n = or_fail n.current_user invalid_state n

unfoldable pub get_local_device : Action Device
get_local_device n = or_fail n.current_device missing_peer_info n

unfoldable pub set_peer_user_and_device : User → Device → Action (Unit {0})
set_peer_user_and_device new_user new_device =
    modify λ n. record n { peer_user = new_user; peer_device = new_device }

unfoldable pub set_connection_type : ConnectionType → Action (Unit {0})
set_connection_type connection_type =
    modify λ n. record n { connection_type = some connection_type }

unfoldable pub get_connection_type : Node → ConnectionType
get_connection_type n = elim n.connection_type [ none ↦ user | some t ↦ t ]

unfoldable pub set_device_manifest_comparison_result :
    DeviceManifestComparisonResult → Action (Unit {0})
set_device_manifest_comparison_result result =
    modify λ n. record n { device_manifest_result = some result }

unfoldable pub get_device_manifest_result : Action DeviceManifestComparisonResult
get_device_manifest_result n = or_fail n.device_manifest_result manifest_not_found n

unfoldable pub get_user_manifest_result : Action UserManifestComparisonResult
get_user_manifest_result n = or_fail n.user_manifest_result manifest_not_found n

unfoldable pub set_complete : Action (Unit {0})
set_complete = modify λ n. record n { handshake_complete = true }

-- services/src/user_service.rs
unfoldable pub get_my_user_devices : String → Action DeviceRows
get_my_user_devices user_id n = (ok (get_devices_by_user_id user_id n.db.tables.devices), n)

module _ (env : Env) where
  unfoldable pub send_message : Message → Action (Unit {0})
  send_message message n =
      if env.online then (ok tt, record n { sent = push n.sent message }) else (err send_failed, n)

  -- services/src/user_service.rs
  unfoldable pub get_ucan_pub_key : Action String
  get_ucan_pub_key n =
      (from_repository (get_ucan_key n.db.store) >>= λ key.
      or_fail (env.public_ucan_key key) crypto_error)
        n

  unfoldable pub sign_ucan_pub_key : Action String
  unfolding get_ucan_pub_key
  sign_ucan_pub_key = get_ucan_pub_key >>= λ key. or_fail (env.sign_clear_text key) crypto_error

  unfoldable pub issue_connect_ucan_token : String → Action String
  issue_connect_ucan_token peer_ucan_pub_key n =
      (from_repository (get_ucan_key n.db.store) >>= λ key.
      or_fail (env.issue_connect_token key env.domain peer_ucan_pub_key) crypto_error)
        n

  -- `user_repo.get_user_by_device_id` for the remote node.
  unfoldable pub remote_user : Action User
  remote_user n =
      (or_fail env.remote_device_id no_remote_id >>= λ id.
      from_repository (get_user_by_device_id id n.db.tables))
        n

  unfoldable pub add_peer : UserWithDevices → Action (Unit {0})
  add_peer uwd n = elim (add_users_with_devices_bulk env.enforced (uwd ∷ []) n.db.tables) [
    | Repository.err e ↦ (err (repository e), n)
    | Repository.ok t ↦ (ok tt, record n { db = record n.db { tables = t } })
  ]

  -- network/src/p2p/user_sync.rs
  unfoldable pub start_user_network_sync : Action (Unit {0})
  unfolding send_message get_local_user
  start_user_network_sync =
      if env.is_initiator
      then (get_local_user >>= λ me.
          (λ n. (ok (env.user_manifest n.db n.peer_user.id me.id), n)) >>= λ m. (elim m [
            | Repository.err e ↦ fail manifest_generation_failed
            | Repository.ok payload ↦ send_message (user_manifest_request payload)
          ]))
      else pure tt
