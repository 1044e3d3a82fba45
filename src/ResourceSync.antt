-- ===== src/ResourceSync.antt =====
-- Resources that a peer lacks, sent and received: network/src/p2p/resource_sync.rs, the two calls of
-- network/src/p2p/peer_connection.rs that count what is missing, and `add_resource_sync` of
-- services/src/sync_service.rs.
pub mod Additions
use osvauld.Prelude.{
  ℕ, ◌+◌, String, ◌==◌, Bool, true, not, none, some, List, [], ◌∷◌, if◌then◌else◌, filter, is_empty,
}
use osvauld.Repository
use osvauld.Storage.{
  ConnectionType, user, device, placed, default_folder_not_found, folder_for_sync,
}
use osvauld.Resources.{ResourceSyncData, save_resource_sync_data, get_resource_for_remote_addition}
use osvauld.Peer
use osvauld.Peer.{
  resource_addition_request, resource_addition_complete, repository, Env, Action, ok, err, pure,
  ◌>>=◌, ◌>>◌, from_repository, send_message, get_connection_type, get_device_manifest_result,
  get_user_manifest_result,
}

-- `retain`, and whether nothing is left.
unfoldable pub remove_device_local_missing_resource : String → Action Bool
remove_device_local_missing_resource resource_id n = elim n.device_manifest_result [
  | none ↦ (ok true, n)
  | some c ↦
      let left = filter (λ id. not (id == resource_id)) c.local_missing.unknown_resources in
      (
        ok (is_empty left),
        record n {
          device_manifest_result =
              some
                (record c { local_missing = record c.local_missing { unknown_resources = left } });
        },
      )
]

unfoldable pub remove_user_local_missing_resource : String → Action Bool
remove_user_local_missing_resource resource_id n = elim n.user_manifest_result [
  | none ↦ (ok true, n)
  | some c ↦
      let left = filter (λ id. not (id == resource_id)) c.local_missing.unknown_resources in
      (
        ok (is_empty left),
        record n {
          user_manifest_result =
              some
                (record c { local_missing = record c.local_missing { unknown_resources = left } });
        },
      )
]

abbrev pub remove_missing : ConnectionType → String → Action Bool
remove_missing device resource_id = remove_device_local_missing_resource resource_id
remove_missing user resource_id = remove_user_local_missing_resource resource_id

abbrev remote_missing : ConnectionType → Action (List String)
remote_missing device = get_device_manifest_result >>= λ m. pure m.remote_missing.unknown_resources
remote_missing user = get_user_manifest_result >>= λ m. pure m.remote_missing.unknown_resources

module _ (env : Env) where
  -- One round of the loop, the `k`-th.
  unfoldable pub send_resource : ℕ → String → Action (Unit {0})
  send_resource k resource_id n =
      let (r, t) =
        get_resource_for_remote_addition env.admits.clock (λ i. env.stamp (k + i)) resource_id
          n.peer_device.id n.resource_tables in
      (from_repository r >>= λ d. send_message env (resource_addition_request d))
        (record n { resource_tables = t })

  unfoldable pub send_each : ℕ → List String → Action (Unit {0})
  send_each k [] = pure tt
  send_each k (id ∷ ids) = let rest = send_each (k + 1) ids in send_resource k id >> rest

  unfoldable pub send_resources : Action (Unit {0})
  send_resources n =
      (remote_missing (get_connection_type n) >>= λ ids.
      (if is_empty ids then send_message env resource_addition_complete else pure tt)
      >> send_each 0 ids)
        n

  abbrev pub save_data : ResourceSyncData → Action (Unit {0})
  save_data d n = elim (save_resource_sync_data env.admits d n.resource_tables) [
    | Repository.err e ↦ (err (repository e), n)
    | Repository.ok t ↦ (ok tt, record n { resource_tables = t })
  ]

  unfoldable pub add_resource_sync : ResourceSyncData → ConnectionType → Action (Unit {0})
  add_resource_sync d connection_type n =
      elim (folder_for_sync connection_type d.resource.folder_id d.resource.created_folder_id
        n.db.folder_tables.folders) [
          | placed folder_id ↦
              save_data (record d { resource = record d.resource { folder_id = folder_id } }) n
          | default_folder_not_found ↦ (err Peer.default_folder_not_found, n)
        ]

  unfoldable pub process_resource_addition_request : ResourceSyncData → Action (Unit {0})
  process_resource_addition_request d n =
      (add_resource_sync d (get_connection_type n)
          >> (remove_missing (get_connection_type n) d.resource.id >>= λ empty.
              if empty then send_message env resource_addition_complete else pure tt))
        n
