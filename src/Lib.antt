-- ===== src/Lib.antt =====
-- osvauld keeps notes and their shares on several devices and synchronises them between peers. This
-- library models the parts of it that decide what is synchronised and who may do it:
--
-- - VectorClock: core/src/models/vector_clock.rs, the clock of a resource, one entry for each device,
--   and `ResourceVectorClock::merge`.
-- - ClockTable: persistance/src/repositories/vector_clock_repository.rs and the vector clock model of
--   persistance/src/models.rs. The table is a list of rows in the order of insertion; every method of
--   the repository is a function of the rows, with the rows afterwards in its result where it writes.
-- - ClockSync: merge_vector_clocks and update_vector_clocks of services/src/resource_service.rs, and
--   what the messages FinalUpdateMerge and VectorClockResponse of network/src/p2p/resource_sync.rs do
--   to the clock tables of two peers.
-- - Share: core/src/models/share_record.rs, persistance/src/repositories/share_repository.rs with its
--   rows, and the share record calls of services/src/resource_service.rs, composed as the same two
--   messages do.
-- - ResourceKeys: core/src/models/resource_key.rs, persistance/src/repositories/resource_key_repository.rs,
--   find_missing_resource_keys of services/src/resource_service.rs, and the keys in the same messages.
-- - Storage: the tables of folders and resources with the calls of
--   persistance/src/repositories/folder_repository.rs and resource_repository.rs that touch these two
--   only, and the choice of a folder in `add_resource_sync` of services/src/sync_service.rs.
-- - Connections: network/src/p2p/connection_manager.rs. The two maps and the set have a lock each; a
--   call is one or two atomic sections, and calls that overlap are sequences of sections.
-- - Manifest, Differences, Compare: core/src/models/sync.rs and the comparison of two manifests in
--   services/src/sync_service.rs. A `HashSet` is a list in which each element stands once, and what is
--   said of it is said by membership; a `HashMap` collected from a list is a search for the last
--   entry with a key. The manifest that is read from the database is an argument.
-- - Devices, Users: core/src/models/device.rs and user.rs with
--   persistance/src/repositories/device_repository.rs and user_repository.rs, over the rows of the two
--   tables. `enforced` says whether the database checks foreign keys.
-- - Rows, FolderShares: insertions that ignore a row whose id is there, and
--   core/src/models/folder_share_record.rs, persistance/src/repositories/folder_share_repository.rs, the calls
--   of folder_repository.rs on both tables and the folder payloads of services/src/folder_service.rs.
-- - Store, Auth, Accounts: persistance/src/repositories/store_repository.rs, the transaction of
--   user_repository.rs that ends a sign-up, and services/src/auth_service.rs. The library of keys is
--   `Auth.Keys`; a loaded certificate is a text.
-- - Peer, Handshake: the state of network/src/p2p/peer_connection.rs, the handshake messages of
--   core/src/models/p2p.rs, and the handlers of network/src/p2p/handshake.rs, as calls that return the
--   state with an outcome, so that what was written before a failure stays written.
-- - Resources: the calls of persistance/src/repositories/resource_repository.rs that read and write a
--   resource with its keys, share records and clocks, as it is sent to a peer that lacks it.
-- - Payloads: get_device_manifest, create_device_network_sync_payload and process_device_network_sync of
--   services/src/sync_service.rs, between two devices of one user.
-- - DeviceSync: network/src/p2p/device_sync.rs, the handlers by which two devices of one user exchange
--   their manifests and payloads, over the state of Peer.
-- - FolderSync: network/src/p2p/folder_sync.rs up to the records of common folders, which are sent but
--   not handled, and execute_connection_action of network/src/p2p/handshake.rs.
-- - ResourceSync: send_resources and process_resource_addition_request of
--   network/src/p2p/resource_sync.rs, with what peer_connection.rs counts as missing and
--   add_resource_sync of services/src/sync_service.rs.
-- - Token, Ucan: crypto_utils/src/ucan_utils.rs and crypto_utils/src/ucan_operations.rs, the validation of
--   capability tokens. Parsing, the check of signature and time, the content id of a token and the
--   base58 and base64 decoders are library calls, the fields of `Token.Library`; the search for a
--   proof in the database is the argument `resolve`.
-- - Repository, Prelude: the results of a repository call, and shared names and lemmas.
-- - Tests: the definitions and theorems at concrete inputs.
--
-- The exchange of clocks is the composition of the parts: the manifests are compared (Compare), a
-- resource that is not in sync is exchanged (ClockSync, with Share and ResourceKeys), which merges
-- (VectorClock) and writes (ClockTable). The tokens (Ucan) decide who may connect and who may send updates.
--
-- Numbers: clock values and times are natural numbers; a stored value is the bit pattern of an `i32`,
-- so the conversions and the step of a clock are written with `% 2 ^ 32`. Fuel: a chain of proofs is
-- followed on fuel, and `none` says that it ran out. A token refers to its proofs by content ids or
-- embeds them, so a rank of tokens exists, and fuel above the rank is shown to be enough.
--
-- Two peers first run the handshake (Handshake), which validates tokens (Ucan) and stores the other's user
-- and devices (Users, Devices); the users, devices and keys of one's own are made by a sign-up (Accounts).
--
-- Not modelled: failures to get a database connection, the texts of error messages, logging, events
-- for the front end, and the parts of the program that only call libraries (encryption, transport,
-- search index, user interface). Foreign keys are the parameter `admits`, and what Uuid::new_v4 and
-- Local::now return is the parameter `stamp`.
pub mod Accounts
pub mod Auth
pub mod ClockSync
pub mod ClockTable
pub mod Compare
pub mod Connections
pub mod DeviceSync
pub mod Devices
pub mod Differences
pub mod FolderShares
pub mod FolderSync
pub mod Handshake
pub mod Manifest
pub mod Payloads
pub mod Peer
pub mod Prelude
pub mod Repository
pub mod ResourceKeys
pub mod ResourceSync
pub mod Resources
pub mod Rows
pub mod Share
pub mod Storage
pub mod Store
pub mod Tests
pub mod Token
pub mod Ucan
pub mod Users
pub mod VectorClock
