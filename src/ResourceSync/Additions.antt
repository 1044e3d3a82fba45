-- ===== src/ResourceSync/Additions.antt =====
-- The receiver of resources: `process_resource_addition_request` of network/src/p2p/resource_sync.rs,
-- resource after resource.
use osvauld.Prelude.{
  String, ◌==◌, eq_refl, Bool, true, false, not, some, List, [], ◌∷◌, map, if◌then◌else◌, filter,
  push, is_empty, contains, Distinct, ◌≡◌, refl, ap, ◌∙◌, inl, inr, arith,
}
use osvauld.Repository
use osvauld.Repository.{Result, Result-cases}
use osvauld.Manifest.{DeviceManifestComparisonResult}
use osvauld.Storage.{ConnectionType, device, folder_for_sync}
use osvauld.Resources.{ResourceTables, ResourceSyncData, Admits, save_resource_sync_data}
use osvauld.Peer.{
  resource_addition_complete, Env, Node, Action, Outcome, ok, err, pure, ◌>>=◌, ◌>>◌, send_message,
  get_connection_type,
}
use osvauld.ResourceSync.{
  remove_device_local_missing_resource, remove_missing, add_resource_sync,
  process_resource_addition_request,
}

abbrev pub data_ids : List ResourceSyncData → List String
data_ids = map λ d. d.resource.id

-- The writes of all resources, one after the other.
unfoldable pub save_all : Admits → List ResourceSyncData → ResourceTables → Result ResourceTables
save_all admits [] t = Repository.ok t
save_all admits (d ∷ ds) t = elim (save_resource_sync_data admits d t) [
  | Repository.err e ↦ Repository.err e
  | Repository.ok t' ↦ save_all admits ds t'
]

-- The handling of all requests, one after the other.
unfoldable pub receive_all : Env → List ResourceSyncData → Action (Unit {0})
receive_all env [] = pure tt
receive_all env (d ∷ ds) = process_resource_addition_request env d >> receive_all env ds

filter_other :
    (x : String) (xs : List String) → contains xs x ≡ false → filter (λ id. not (id == x)) xs ≡ xs
unfolding contains
filter_other x [] h = refl
filter_other x (y ∷ xs) h =
    let differs : y == x ≡ false = ground arith in
    rw differs (ap (λ r. y ∷ r) (filter_other x xs (ground arith)))

filter_rest :
    (x : String) (xs : List String)
    → contains xs x ≡ false
    → filter (λ id. not (id == x)) (x ∷ xs) ≡ xs
filter_rest x xs h = rw (eq_refl x) (filter_other x xs h)

-- Some resources are missing: none, or all that are listed.
abbrev waiting : DeviceManifestComparisonResult → List String → DeviceManifestComparisonResult
waiting c ids = record c { local_missing = record c.local_missing { unknown_resources = ids } }

abbrev kept : Node → ResourceTables → DeviceManifestComparisonResult → Node
kept n t c = record n { resource_tables = t; device_manifest_result = some c }

bind_ok :
    {A B : Type 0} (m : Action A) (f : A → Action B) (n n' : Node) (a : A)
    → m n ≡ (ok a, n')
    → (m >>= f) n ≡ f a n'
bind_ok {B = B} m f n n' a h =
    ap (λ r. elim r.0 as (λ x. Outcome B × Node) [ ok a ↦ f a r.1 | err e ↦ (err e, r.1) ]) h

remove_lem :
    (n : Node) (c : DeviceManifestComparisonResult) (x : String) (ids : List String)
    → n.device_manifest_result ≡ some c
    → filter (λ id. not (id == x)) c.local_missing.unknown_resources ≡ ids
    → remove_device_local_missing_resource x n
      ≡ (ok (is_empty ids), record n { device_manifest_result = some (waiting c ids) })
unfolding remove_device_local_missing_resource
remove_lem n c x ids r f = ground arith

module _ (env : Env) (online : env.online ≡ true) where
  add_lem :
      (n : Node) (d : ResourceSyncData) (t : ResourceTables)
      → save_resource_sync_data env.admits d n.resource_tables ≡ Repository.ok t
      → add_resource_sync env d device n ≡ (ok tt, record n { resource_tables = t })
  unfolding add_resource_sync folder_for_sync
  add_lem n d t s = ground arith

  abbrev finish : Bool → Action (Unit {0})
  finish empty = if empty then send_message env resource_addition_complete else pure tt

  abbrev handled : ConnectionType → ResourceSyncData → Node → Outcome (Unit {0}) × Node
  handled t d n = (add_resource_sync env d t >> (remove_missing t d.resource.id >>= finish)) n

  finished :
      (ids : List String) (n : Node)
      → finish (is_empty ids) n ≡ (
          if is_empty ids
          then (ok tt, record n { sent = push n.sent resource_addition_complete })
          else (ok tt, n))
  unfolding send_message
  finished [] n = rw online refl
  finished (x ∷ ids) n = refl

  step :
      (n : Node) (c : DeviceManifestComparisonResult) (d : ResourceSyncData) (t : ResourceTables)
      (ids : List String)
      → get_connection_type n ≡ device
      → n.device_manifest_result ≡ some c
      → filter (λ id. not (id == d.resource.id)) c.local_missing.unknown_resources ≡ ids
      → save_resource_sync_data env.admits d n.resource_tables ≡ Repository.ok t
      → process_resource_addition_request env d n ≡ (
          if is_empty ids
          then (
            ok tt,
            record (kept n t (waiting c ids)) { sent = push n.sent resource_addition_complete },
          )
          else (ok tt, kept n t (waiting c ids)))
  unfolding process_resource_addition_request
  step n c d t ids u r f s =
      let saved : Node = record n { resource_tables = t } in
      ap (λ k. handled k d n) u
      ∙ (bind_ok (add_resource_sync env d device)
            (λ x. remove_missing device d.resource.id >>= finish) n saved tt (add_lem n d t s)
          ∙ (bind_ok (remove_missing device d.resource.id) finish saved (kept n t (waiting c ids))
                (is_empty ids) (remove_lem saved c d.resource.id ids r f)
              ∙ finished ids (kept n t (waiting c ids))))

-- Where a device that can send waits for some resources of a device manifest, and requests for exactly
-- these come, each resource once, which are all saved, each request is handled, the tables are those
-- after the writes, nothing is missing any more, and one message was sent, that the addition is complete,
-- after the last request.
pub receive_all_complete :
    (env : Env) (n : Node) (c : DeviceManifestComparisonResult) (d : ResourceSyncData)
    (ds : List ResourceSyncData) (t : ResourceTables)
    → env.online ≡ true
    → get_connection_type n ≡ device
    → n.device_manifest_result ≡ some c
    → c.local_missing.unknown_resources ≡ data_ids (d ∷ ds)
    → Distinct (data_ids (d ∷ ds))
    → save_all env.admits (d ∷ ds) n.resource_tables ≡ Repository.ok t
    → receive_all env (d ∷ ds) n ≡ (
      ok tt,
      record n {
        resource_tables = t;
        device_manifest_result =
            some (record c { local_missing = record c.local_missing { unknown_resources = [] } });
        sent = push n.sent resource_addition_complete;
      },
    )
unfolding receive_all save_all get_connection_type
receive_all_complete env n c d [] t on u r m (f, e) s =
    elim (Result-cases (save_resource_sync_data env.admits d n.resource_tables)) [
      | inr (x, g) ↦ absurd (ground arith)
      | inl (t1, g) ↦
          let left =
            ap (filter (λ id. not (id == d.resource.id))) m ∙ filter_rest d.resource.id [] f in
          let same : t1 ≡ t = ground arith in
          let final = λ (x : ResourceTables). record (kept n x (waiting c [])) {
            sent = push n.sent resource_addition_complete;
          } in
          bind_ok (process_resource_addition_request env d) (λ x. receive_all env []) n (final t1)
            tt (step env on n c d t1 [] u r left g)
          ∙ ap (λ x. (ok tt, final x)) same
    ]
receive_all_complete env n c d (d' ∷ ds) t on u r m (f, e) s =
    elim (Result-cases (save_resource_sync_data env.admits d n.resource_tables)) [
      | inr (x, g) ↦ absurd (ground arith)
      | inl (t1, g) ↦
          let left =
            ap (filter (λ id. not (id == d.resource.id))) m
            ∙ filter_rest d.resource.id (data_ids (d' ∷ ds)) f in
          let next = kept n t1 (waiting c (data_ids (d' ∷ ds))) in
          bind_ok (process_resource_addition_request env d) (λ x. receive_all env (d' ∷ ds)) n next
            tt (step env on n c d t1 (data_ids (d' ∷ ds)) u r left g)
          ∙ receive_all_complete env next (waiting c (data_ids (d' ∷ ds))) d' ds t on u refl refl e
              (ground arith)
    ]
