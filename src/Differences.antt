-- ===== src/Differences.antt =====
-- The parts of the comparison of two manifests in services/src/sync_service.rs: of sets of ids, of the
-- devices of common users, of share records and of clocks. A `HashSet` is a list in which each element
-- stands once, whose order says nothing; a `HashMap` that is collected from a list is a search for the
-- last entry with the key.
use osvauld.Prelude.{
  String, ◌==◌, Bool, true, false, not, ◌&&◌, Option, none, some, List, [], ◌∷◌, map, if◌then◌else◌,
  eqb, all, is_empty, or_else, cons_some, contains, to_set, difference, intersection,
}
use osvauld.VectorClock.{ResourceVectorClock, has_device, find_device}
use osvauld.Manifest.{
  UserWithDeviceIds, ResourceManifestData, FolderManifestData, DeviceManifestRequestPayload,
}

pub record SetComparison : Type 0 where
  pub only_local : List String
  pub only_remote : List String
  pub common : List String

-- `iter().map(|x| (key(x), x)).collect::<HashMap<_, _>>().get(k)`
abbrev pub lookup : {A : Type 0} → (A → String) → List A → String → Option A
lookup key [] k = none
lookup key (x ∷ xs) k = or_else (lookup key xs k) (if key x == k then some x else none)

-- `if let (Some(x), Some(y)) = (…, …)`
abbrev pub both : {A B : Type 0} → Option A → Option B → Option (A × B)
both (some a) (some b) = some (a, b)
both (some a) none = none
both none o = none

abbrev pub user_key : UserWithDeviceIds → String
user_key u = u.user_id

abbrev pub resource_key : ResourceManifestData → String
resource_key r = r.resource_id

abbrev pub folder_key : FolderManifestData → String
folder_key f = f.folder_id

unfoldable pub compare_sets : List String → List String → SetComparison
compare_sets local_set remote_set = record {
  only_local = difference local_set remote_set;
  only_remote = difference remote_set local_set;
  common = intersection local_set remote_set;
}

-- The sets of the ids of the users, the devices, the resources and the folders.
abbrev pub create_comparison_sets :
    DeviceManifestRequestPayload → List String × List String × List String × List String
create_comparison_sets payload = (
  to_set (map user_key payload.other_users),
  to_set payload.known_device_ids,
  to_set (map resource_key payload.resources),
  to_set payload.folder_ids,
)

-- The devices of one user that only one side knows, where there are any.
unfoldable pub devices_of_user :
    String → UserWithDeviceIds → UserWithDeviceIds → Option UserWithDeviceIds
devices_of_user user_id this_user other_user =
    let devices = difference (to_set this_user.device_ids) (to_set other_user.device_ids) in
    if is_empty devices then none else some (record { user_id = user_id; device_ids = devices })

-- One round of the loop, added to what the later rounds give.
abbrev pub add_devices :
    String
    → Option (UserWithDeviceIds × UserWithDeviceIds)
    → List UserWithDeviceIds × List UserWithDeviceIds
    → List UserWithDeviceIds × List UserWithDeviceIds
add_devices user_id none rest = rest
add_devices user_id (some (local_user, remote_user)) rest = (
  cons_some (devices_of_user user_id local_user remote_user) rest.0,
  cons_some (devices_of_user user_id remote_user local_user) rest.1,
)

unfoldable pub compare_devices_for_common_users :
    List UserWithDeviceIds
    → List UserWithDeviceIds
    → List String
    → List UserWithDeviceIds × List UserWithDeviceIds
compare_devices_for_common_users local_payload remote_payload [] = ([], [])
compare_devices_for_common_users local_payload remote_payload (user_id ∷ user_ids) =
    add_devices user_id
      (both (lookup user_key local_payload user_id) (lookup user_key remote_payload user_id))
      (compare_devices_for_common_users local_payload remote_payload user_ids)

-- `==` of two sets.
unfoldable pub set_eq : List String → List String → Bool
set_eq xs ys = all (contains ys) xs && all (contains xs) ys

unfoldable pub compare_share_records : List String → List String → Bool
compare_share_records local_share_records remote_share_records =
    not (set_eq (to_set local_share_records) (to_set remote_share_records))

-- The first two loops: an entry whose device the other side lacks.
unfoldable pub lacks_device : List ResourceVectorClock → List ResourceVectorClock → Bool
lacks_device [] others = false
lacks_device (c ∷ cs) others =
    let rest = lacks_device cs others in if not (has_device c.device_id others) then true else rest

abbrev pub differs : ResourceVectorClock → Option ResourceVectorClock → Bool
differs local_clock none = false
differs local_clock (some remote_clock) = not (eqb local_clock.clock_value remote_clock.clock_value)

-- The third loop.
unfoldable pub has_mismatch : List ResourceVectorClock → List ResourceVectorClock → Bool
has_mismatch [] others = false
has_mismatch (c ∷ cs) others =
    let rest = has_mismatch cs others in
    if differs c (find_device c.device_id others) then true else rest

unfoldable pub vector_clocks_need_update :
    List ResourceVectorClock → List ResourceVectorClock → Bool
vector_clocks_need_update local_vector_clocks remote_vector_clocks =
    if lacks_device local_vector_clocks remote_vector_clocks
    then true
    else (if lacks_device remote_vector_clocks local_vector_clocks
        then true
        else has_mismatch local_vector_clocks remote_vector_clocks)

-- What one round of the loop decides for two entries of the same resource.
unfoldable pub needs_sync : ResourceManifestData → ResourceManifestData → Bool
needs_sync local_resource remote_resource =
    if compare_share_records local_resource.share_record_ids remote_resource.share_record_ids
    then true
    else vector_clocks_need_update local_resource.vector_clocks remote_resource.vector_clocks

abbrev pub needs_sync_both : Option (ResourceManifestData × ResourceManifestData) → Bool
needs_sync_both none = false
needs_sync_both (some (local_resource, remote_resource)) = needs_sync local_resource remote_resource

unfoldable pub compare_resources_for_common_resources :
    List ResourceManifestData → List ResourceManifestData → List String → List String
compare_resources_for_common_resources local_resources remote_resources [] = []
compare_resources_for_common_resources local_resources remote_resources (id ∷ ids) =
    let rest = compare_resources_for_common_resources local_resources remote_resources ids in
    if needs_sync_both
      (both (lookup resource_key local_resources id) (lookup resource_key remote_resources id))
    then id ∷ rest
    else rest
