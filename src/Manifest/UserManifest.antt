-- ===== src/Manifest/UserManifest.antt =====
-- `UserManifestComparisonResult::inverse` of core/src/models/sync.rs.
use osvauld.Prelude.{map}
use osvauld.Manifest.{UserManifestComparisonResult, swap_recipients}

abbrev pub inverse : UserManifestComparisonResult → UserManifestComparisonResult
inverse r = record {
  local_missing = r.remote_missing;
  remote_missing = r.local_missing;
  resources_requiring_sync = r.resources_requiring_sync;
  folders_requiring_recipient_sync = map swap_recipients r.folders_requiring_recipient_sync;
}
