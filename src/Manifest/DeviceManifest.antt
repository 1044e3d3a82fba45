-- ===== src/Manifest/DeviceManifest.antt =====
-- `DeviceManifestComparisonResult::inverse` of core/src/models/sync.rs.
use osvauld.Manifest.{DeviceManifestComparisonResult}

abbrev pub inverse : DeviceManifestComparisonResult → DeviceManifestComparisonResult
inverse r = record {
  local_missing = r.remote_missing;
  remote_missing = r.local_missing;
  resources_requiring_sync = r.resources_requiring_sync;
}
