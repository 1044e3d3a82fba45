-- ===== src/Tests/Peers.antt =====
-- A first connection: Ann knows Bob by a one-time token that Bob issued, and connects to him.
use osvauld.Prelude.{
  String, ◌==◌, Bool, true, false, Option, none, some, List, [], ◌∷◌, contains, ◌≡◌, ◌⊎◌, refl,
  if◌then◌else◌,
}
use osvauld.Repository
use osvauld.Token.{
  Capability, Ucan, Library, strip_star, grants, check_capabilities, check_capability,
  is_one_time_connect_token,
}
use osvauld.Ucan.{
  key_of_did, verify_did_key_match, validate_structure, validate_audience, check_link,
  validate_embedded_proof_chain, validate_connect_token,
}
use osvauld.Store.{get_value, get_ucan_key}
use osvauld.Devices.{
  Device, insert_device, insert_devices, insert_new_device, get_devices_by_user_id, order_desc,
  insert_desc,
}
use osvauld.Users.{
  User, UserTables, insert_new_user, upsert_user, add_user_with_devices,
  add_users_with_devices_bulk, get_user_by_device_id,
}
use osvauld.Storage.{user}
use osvauld.Manifest.{UserManifestRequestPayload}
use osvauld.Peer.{FirstConnectRequest, first_connect_request, user_manifest_request, Env, Node, ok}
use osvauld.Handshake.{initiate_handshake, handle_handshake_message}
use osvauld.Handshake.Completion.{IsMet, deliver, last, CanMeet, first_connect_complete}
use osvauld.Handshake.Safety.{IsAuthenticated, IsRefused, handle_handshake_message-IsAuthenticated}
use osvauld.Tests.Users as Data

abbrev may_use : String → List Capability
may_use resource = record { resource = resource; ability = "use" } ∷ []

abbrev issued : String → String → String → Ucan
issued issuer audience resource = record {
  issuer = issuer;
  audience = audience;
  capabilities = may_use resource;
  proofs = none;
  facts = none;
}

-- Bob's one-time token, and what Ann issues to Bob's key and Bob to Ann's.
abbrev parsed : String → Option Ucan
parsed t =
    if t == "once"
    then some (issued "did:key:zB" "*" "app:user-connect:bob")
    else (if t == "to-bob"
        then some (issued "did:key:zA" "did:key:zB" "app:user-connect:ann")
        else (if t == "to-ann"
            then some (issued "did:key:zB" "did:key:zA" "app:user-connect:bob")
            else none))

abbrev lib : Library
lib = record {
  parse = parsed;
  validate = λ u. true;
  to_cid = λ u. none;
  bs58_decode = λ s. if s == "A" then some (237 ∷ 1 ∷ 7 ∷ []) else some (237 ∷ 1 ∷ 8 ∷ []);
  base64_decode = λ s. if s == "ann" then some (7 ∷ []) else some (8 ∷ []);
}

abbrev pub manifest : UserManifestRequestPayload
manifest = record { users = []; resources = []; folders = [] }

-- A signed text is the text itself, and a key is stored under its owner's name.
abbrev pub env : String → Bool → Env
env remote_device_id is_initiator = record {
  lib = lib;
  verify_clear_text = λ public_key signed. some signed;
  public_ucan_key = λ key. some key;
  sign_clear_text = λ text. some text;
  issue_connect_token =
      λ key domain audience. if audience == "bob" then some "to-bob" else some "to-ann";
  user_manifest = λ db peer me. Repository.ok manifest;
  remote_device_id = some remote_device_id;
  is_initiator = is_initiator;
  domain = "app";
  online = true;
  enforced = true;
  admits = record { resource = λ m. true; key = λ k. true; share = λ s. true; clock = λ c. true };
  admits_folder_share = λ r. true;
  stamp = λ k. ("new", k);
  fuel = 2;
}

abbrev pub side : UserTables → User → Device → Node
side tables me device = record {
  db = record {
    tables = tables;
    store = record { key = "ucan_key"; value = me.id; updated_at = 1 } ∷ [];
    folder_tables = record { folders = []; shares = [] };
  };
  current_user = some me;
  current_device = some device;
  peer_user = me;
  peer_device = device;
  connection_type = none;
  handshake_complete = false;
  resource_tables = record { resources = []; keys = []; shares = []; clocks = [] };
  device_manifest_result = none;
  user_manifest_result = none;
  sent = [];
}

abbrev pub ann : User
ann = Data.user "ann" true "owner_token" true

abbrev pub bob : User
bob = Data.user "bob" true "owner_token" true

abbrev bob_row : User
bob_row = Data.user "bob" false "once" false

abbrev pub phone : Device
phone = Data.device "phone" "ann"

abbrev pub laptop : Device
laptop = Data.device "laptop" "bob"

abbrev node_a : Node
node_a = side (record { users = ann ∷ bob_row ∷ []; devices = phone ∷ laptop ∷ [] }) ann phone

abbrev node_b : Node
node_b = side (record { users = bob ∷ []; devices = laptop ∷ [] }) bob laptop

can_meet : CanMeet (env "laptop" true) (env "phone" false) node_a node_b
unfolding get_ucan_key get_value get_user_by_device_id validate_connect_token validate_structure
    is_one_time_connect_token validate_audience verify_did_key_match key_of_did
    validate_embedded_proof_chain check_link check_capability check_capabilities grants strip_star
    add_users_with_devices_bulk add_user_with_devices upsert_user insert_new_user insert_devices
    insert_device insert_new_device contains get_devices_by_user_id order_desc insert_desc
can_meet = record {
  me_a = ann;
  me_b = bob;
  device_a = phone;
  device_b = laptop;
  store_key_a = "ann";
  store_key_b = "bob";
  signed_a = "ann";
  signed_b = "bob";
  ready_a = record {
    has_user = refl;
    has_device = refl;
    own_key = "ann";
    has_key = refl;
    has_public = refl;
    signs = refl;
    can_send = refl;
  };
  ready_b = record {
    has_user = refl;
    has_device = refl;
    own_key = "bob";
    has_key = refl;
    has_public = refl;
    signs = refl;
    can_send = refl;
  };
  begins = refl;
  id_b = "laptop";
  row_b = bob_row;
  remote_b = refl;
  found_b = refl;
  new_b = refl;
  key_a = "ann";
  key_b = "bob";
  token_a = "to-bob";
  token_b = "to-ann";
  issues_a = refl;
  issues_b = refl;
  accepts_b = (refl, refl);
  accepts_a = (refl, refl);
  tables_a = _;
  tables_b = _;
  stores_b = refl;
  stores_a = refl;
  held_a = phone;
  held_b = laptop;
  listed_a = refl;
  listed_b = refl;
  owned_a = refl;
  owned_b = refl;
  manifest = manifest;
  reads = refl;
}

first_connect_example :
    (a1 b1 a2 : Node) × (initiate_handshake
        (env "laptop" true)
        user
        can_meet.me_a
        can_meet.device_a
        node_a
      ≡ (ok tt, a1))
    × (deliver (env "phone" false) a1 node_b ≡ (ok tt, b1))
    × (deliver (env "laptop" true) b1 a1 ≡ (ok tt, a2))
    × (a2.handshake_complete ≡ true)
    × (b1.handshake_complete ≡ true)
    × (a2.peer_user ≡ can_meet.me_b)
    × (b1.peer_user ≡ can_meet.me_a)
    × (a2.db.tables ≡ can_meet.tables_a)
    × (b1.db.tables ≡ can_meet.tables_b)
    × IsMet can_meet.device_a.id can_meet.me_a can_meet.token_a can_meet.key_a b1.db.tables
    × IsMet can_meet.device_b.id can_meet.me_b can_meet.token_b can_meet.key_b a2.db.tables
    × (last a2.sent ≡ some (user_manifest_request can_meet.manifest))
first_connect_example =
    first_connect_complete (env "laptop" true) (env "phone" false) node_a node_b user can_meet

-- Ann's first message to Bob.
abbrev request : FirstConnectRequest
request = record {
  devices = phone ∷ [];
  issued_ucan = "to-bob";
  signed_ucan_pub = "ann";
  one_time_ucan = "once";
  peer_device = phone;
  peer_user = ann;
  connection_type = user;
}

handle_handshake_message_example :
    IsAuthenticated (env "phone" false) node_b ann "ann" "once"
    ⊎ IsRefused
        (env "phone" false)
        node_b
        (handle_handshake_message (env "phone" false) (first_connect_request request) node_b)
handle_handshake_message_example =
    handle_handshake_message-IsAuthenticated (env "phone" false) node_b
      (first_connect_request request)
