-- ===== src/Manifest.antt =====
-- core/src/models/sync.rs, and the manifest types of core/src/models/{user,folder,resource}.rs: what
-- two peers tell each other that they have, and the differences that are found.
pub mod UserManifest
pub mod DeviceManifest
use osvauld.Prelude.{String, List, []}
use osvauld.VectorClock.{ResourceVectorClock}

pub record UserWithDeviceIds : Type 0 where
  pub user_id : String
  pub device_ids : List String

pub record ResourceManifestData : Type 0 where
  pub resource_id : String
  pub share_record_ids : List String
  pub vector_clocks : List ResourceVectorClock

pub record FolderManifestData : Type 0 where
  pub folder_id : String
  pub recipient_user_ids : List String

pub record DeviceManifestRequestPayload : Type 0 where
  pub known_device_ids : List String
  pub other_users : List UserWithDeviceIds
  pub folder_ids : List String
  pub resources : List ResourceManifestData

pub record UserManifestRequestPayload : Type 0 where
  pub users : List UserWithDeviceIds
  pub resources : List ResourceManifestData
  pub folders : List FolderManifestData

pub record FolderRecipientDiff : Type 0 where
  pub folder_id : String
  pub recipients_only_local_knows : List String
  pub recipients_only_remote_knows : List String

pub record FolderComparisonResult : Type 0 where
  pub folders_only_local_has : List String
  pub folders_only_remote_has : List String
  pub folders_with_recipient_differences : List FolderRecipientDiff

pub record UserManifestDifferences : Type 0 where
  pub unknown_users : List String
  pub unknown_devices_from_common_users : List UserWithDeviceIds
  pub unknown_resources : List String
  pub unknown_folders : List String

pub record UserManifestComparisonResult : Type 0 where
  pub local_missing : UserManifestDifferences
  pub remote_missing : UserManifestDifferences
  pub resources_requiring_sync : List String
  pub folders_requiring_recipient_sync : List FolderRecipientDiff

pub record UserComparisonResult : Type 0 where
  pub users_only_local_has : List String
  pub users_only_remote_has : List String
  pub common_users : List String
  pub devices_from_common_users_only_local_has : List UserWithDeviceIds
  pub devices_from_common_users_only_remote_has : List UserWithDeviceIds

pub record ResourceComparisonResult : Type 0 where
  pub resources_only_local_has : List String
  pub resources_only_remote_has : List String
  pub common_resources : List String
  pub resources_requiring_sync : List String

pub record DeviceManifestDifferences : Type 0 where
  pub unknown_users : List String
  pub unknown_devices_from_common_users : List UserWithDeviceIds
  pub unknown_devices_from_current_user : List String
  pub unknown_resources : List String
  pub unknown_folders : List String

pub record DeviceManifestComparisonResult : Type 0 where
  pub local_missing : DeviceManifestDifferences
  pub remote_missing : DeviceManifestDifferences
  pub resources_requiring_sync : List String

abbrev pub swap_recipients : FolderRecipientDiff → FolderRecipientDiff
swap_recipients diff = record {
  folder_id = diff.folder_id;
  recipients_only_local_knows = diff.recipients_only_remote_knows;
  recipients_only_remote_knows = diff.recipients_only_local_knows;
}
