-- ===== src/Compare.antt =====
-- The comparison of two peers' manifests: services/src/sync_service.rs. A `HashSet` is a list in which
-- each element stands once, whose order says nothing; a `HashMap` that is collected from a list is a
-- search for the last entry with the key. What the database returns as the local manifest is an
-- argument.
pub mod Common
pub mod Clocks
pub mod Devices
pub mod Resources
pub mod Folders
pub mod Mirror
pub mod UserMirror
use mathlib.Core.Option
use osvauld.Prelude.{
  String, not, ◌||◌, Option, none, some, List, [], ◌∷◌, map, if◌then◌else◌, is_empty, and_then,
  cons_some, to_set, difference, intersection,
}
use osvauld.Manifest.{
  FolderManifestData, DeviceManifestRequestPayload, UserManifestRequestPayload, FolderRecipientDiff,
  FolderComparisonResult, UserManifestComparisonResult, UserComparisonResult,
  ResourceComparisonResult, DeviceManifestComparisonResult,
}
use osvauld.Differences.{
  compare_devices_for_common_users, compare_resources_for_common_resources, compare_sets,
  create_comparison_sets, folder_key, lookup, resource_key, user_key,
}

unfoldable pub process_device_manifest_request :
    DeviceManifestRequestPayload → DeviceManifestRequestPayload → DeviceManifestComparisonResult
process_device_manifest_request local_payload remote_payload =
    let (local_users, local_devices, local_resources, local_folders) =
      create_comparison_sets local_payload in
    let (remote_users, remote_devices, remote_resources, remote_folders) =
      create_comparison_sets remote_payload in
    let users = compare_sets local_users remote_users in
    let devices = compare_sets local_devices remote_devices in
    let resources = compare_sets local_resources remote_resources in
    let folders = compare_sets local_folders remote_folders in
    let (only_local_has, only_remote_has) =
      compare_devices_for_common_users local_payload.other_users remote_payload.other_users
        users.common in
    record {
      local_missing = record {
        unknown_users = users.only_remote;
        unknown_devices_from_common_users = only_remote_has;
        unknown_devices_from_current_user = devices.only_remote;
        unknown_resources = resources.only_remote;
        unknown_folders = folders.only_remote;
      };
      remote_missing = record {
        unknown_users = users.only_local;
        unknown_devices_from_common_users = only_local_has;
        unknown_devices_from_current_user = devices.only_local;
        unknown_resources = resources.only_local;
        unknown_folders = folders.only_local;
      };
      resources_requiring_sync =
          compare_resources_for_common_resources local_payload.resources remote_payload.resources
            resources.common;
    }

unfoldable pub process_user_gaps :
    UserManifestRequestPayload → UserManifestRequestPayload → UserComparisonResult
process_user_gaps local_payload remote_payload =
    let local_user_ids = to_set (map user_key local_payload.users) in
    let remote_user_ids = to_set (map user_key remote_payload.users) in
    let common_users = intersection local_user_ids remote_user_ids in
    let (only_local_has, only_remote_has) =
      compare_devices_for_common_users local_payload.users remote_payload.users common_users in
    record {
      users_only_local_has = difference local_user_ids remote_user_ids;
      users_only_remote_has = difference remote_user_ids local_user_ids;
      common_users = common_users;
      devices_from_common_users_only_local_has = only_local_has;
      devices_from_common_users_only_remote_has = only_remote_has;
    }

unfoldable pub process_resource_gaps :
    UserManifestRequestPayload → UserManifestRequestPayload → ResourceComparisonResult
process_resource_gaps local_payload remote_payload =
    let local_resource_ids = to_set (map resource_key local_payload.resources) in
    let remote_resource_ids = to_set (map resource_key remote_payload.resources) in
    let common_resources = intersection local_resource_ids remote_resource_ids in
    record {
      resources_only_local_has = difference local_resource_ids remote_resource_ids;
      resources_only_remote_has = difference remote_resource_ids local_resource_ids;
      common_resources = common_resources;
      resources_requiring_sync =
          compare_resources_for_common_resources local_payload.resources remote_payload.resources
            (to_set common_resources);
    }

-- The recipients of one folder that only one side knows, where there are any.
unfoldable pub recipients_of_folder :
    String → FolderManifestData → FolderManifestData → Option FolderRecipientDiff
recipients_of_folder folder_id local_folder remote_folder =
    let local_recipients = to_set local_folder.recipient_user_ids in
    let remote_recipients = to_set remote_folder.recipient_user_ids in
    let recipients_only_local = difference local_recipients remote_recipients in
    let recipients_only_remote = difference remote_recipients local_recipients in
    if not (is_empty recipients_only_local) || not (is_empty recipients_only_remote)
    then some (record {
      folder_id = folder_id;
      recipients_only_local_knows = recipients_only_local;
      recipients_only_remote_knows = recipients_only_remote;
    })
    else none

-- The loop over the common folders; `none` is the panic of `unwrap`.
unfoldable pub compare_recipients :
    List FolderManifestData
    → List FolderManifestData
    → List String
    → Option (List FolderRecipientDiff)
compare_recipients local_folders remote_folders [] = some []
compare_recipients local_folders remote_folders (id ∷ ids) =
    and_then (lookup folder_key local_folders id) λ local_folder.
      and_then (lookup folder_key remote_folders id) λ remote_folder.
        Option.map (cons_some (recipients_of_folder id local_folder remote_folder))
          (compare_recipients local_folders remote_folders ids)

unfoldable pub process_folder_gaps :
    List FolderManifestData → List FolderManifestData → Option FolderComparisonResult
process_folder_gaps local_folders remote_folders =
    let local_folder_ids = to_set (map folder_key local_folders) in
    let remote_folder_ids = to_set (map folder_key remote_folders) in
    Option.map
      (λ differences. record {
        folders_only_local_has = difference local_folder_ids remote_folder_ids;
        folders_only_remote_has = difference remote_folder_ids local_folder_ids;
        folders_with_recipient_differences = differences;
      })
      (compare_recipients local_folders remote_folders
        (intersection local_folder_ids remote_folder_ids))

unfoldable pub process_user_manifest_request :
    UserManifestRequestPayload → UserManifestRequestPayload → Option UserManifestComparisonResult
process_user_manifest_request local_payload remote_payload =
    let user_gaps = process_user_gaps local_payload remote_payload in
    let resource_gaps = process_resource_gaps local_payload remote_payload in
    Option.map
      (λ folder_gaps. record {
        local_missing = record {
          unknown_users = user_gaps.users_only_remote_has;
          unknown_devices_from_common_users = user_gaps.devices_from_common_users_only_remote_has;
          unknown_resources = resource_gaps.resources_only_remote_has;
          unknown_folders = folder_gaps.folders_only_remote_has;
        };
        remote_missing = record {
          unknown_users = user_gaps.users_only_local_has;
          unknown_devices_from_common_users = user_gaps.devices_from_common_users_only_local_has;
          unknown_resources = resource_gaps.resources_only_local_has;
          unknown_folders = folder_gaps.folders_only_local_has;
        };
        resources_requiring_sync = resource_gaps.resources_requiring_sync;
        folders_requiring_recipient_sync = folder_gaps.folders_with_recipient_differences;
      })
      (process_folder_gaps local_payload.folders remote_payload.folders)
