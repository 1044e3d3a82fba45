-- ===== src/Compare/UserMirror.antt =====
-- `process_user_manifest_request` of services/src/sync_service.rs with
-- `UserManifestComparisonResult::inverse` of core/src/models/sync.rs: what the answer to a user
-- manifest says, seen from both sides.
use osvauld.Prelude.{
  String, ◌&&◌, some, List, [], ◌∷◌, map, to_set, contains-to_set, intersection, ◌≡◌, refl, sym, ap,
  ◌∙◌, subst, arith,
}
use osvauld.Manifest.{
  FolderRecipientDiff, swap_recipients, UserManifestRequestPayload, UserManifestComparisonResult,
}
use osvauld.Manifest.UserManifest
use osvauld.Differences.{lookup, both, user_key, resource_key, folder_key, needs_sync_both}
use osvauld.Compare.{process_user_gaps, process_resource_gaps, process_user_manifest_request}
use osvauld.Compare.Common.{contains-only, common-both, common-flip}
use osvauld.Compare.Devices.{only_first, compare_devices_lem}
use osvauld.Compare.Resources.{compare_resources_lem}
use osvauld.Compare.Folders
use osvauld.Compare.Folders.{tells, of_local, of_remote, process_folder_gaps-IsFolderGap}
use osvauld.Compare.Mirror.{Only, OnlyDevices, Unsynced, HasUniqueClocks, needs_sync_both_comm}

-- What a comparison says of the manifests of the side that makes it and of the other side.
pub record IsUserComparison (l r : UserManifestRequestPayload) (c : UserManifestComparisonResult)
    : Type 0 where
  pub users_local : Only c.local_missing.unknown_users (map user_key r.users) (map user_key l.users)
  pub users_remote :
      Only c.remote_missing.unknown_users (map user_key l.users) (map user_key r.users)
  pub devices_local : OnlyDevices c.local_missing.unknown_devices_from_common_users r.users l.users
  pub devices_remote :
      OnlyDevices c.remote_missing.unknown_devices_from_common_users l.users r.users
  pub resources_local :
      Only c.local_missing.unknown_resources
        (map resource_key r.resources)
        (map resource_key l.resources)
  pub resources_remote :
      Only c.remote_missing.unknown_resources
        (map resource_key l.resources)
        (map resource_key r.resources)
  pub folders_local :
      Only c.local_missing.unknown_folders (map folder_key r.folders) (map folder_key l.folders)
  pub folders_remote :
      Only c.remote_missing.unknown_folders (map folder_key l.folders) (map folder_key r.folders)
  pub unsynced : Unsynced c.resources_requiring_sync l.resources r.resources
  pub recipients_local :
      (folder user : String)
      → tells of_local c.folders_requiring_recipient_sync folder user
        ≡ Folders.only_first
            (both (lookup folder_key l.folders folder) (lookup folder_key r.folders folder))
            user
  pub recipients_remote :
      (folder user : String)
      → tells of_remote c.folders_requiring_recipient_sync folder user
        ≡ Folders.only_first
            (both (lookup folder_key r.folders folder) (lookup folder_key l.folders folder))
            user

process_resource_gaps-Unsynced :
    (l r : UserManifestRequestPayload)
    → Unsynced (process_resource_gaps l r).resources_requiring_sync l.resources r.resources
unfolding process_resource_gaps
process_resource_gaps-Unsynced l r a =
    let ids =
      intersection (to_set (map resource_key l.resources))
        (to_set (map resource_key r.resources)) in
    compare_resources_lem l.resources r.resources (to_set ids) a
    ∙ ap
        (λ b.
          b
          && needs_sync_both
              (both (lookup resource_key l.resources a) (lookup resource_key r.resources a)))
        (contains-to_set ids a)
    ∙ common-both resource_key l.resources r.resources a needs_sync_both refl

-- The answer to a user manifest is always made, and reports exactly what each side lacks.
pub process_user_manifest_request-IsUserComparison :
    (l r : UserManifestRequestPayload)
    → (c : UserManifestComparisonResult) × (process_user_manifest_request l r ≡ some c)
      × IsUserComparison l r c
unfolding process_user_manifest_request process_user_gaps process_resource_gaps
process_user_manifest_request-IsUserComparison l r =
    let ids = intersection (to_set (map user_key l.users)) (to_set (map user_key r.users)) in
    let (gaps, e, exact) = process_folder_gaps-IsFolderGap l.folders r.folders in
    (
      _,
      rw e refl,
      record {
        users_local = contains-only (map user_key r.users) (map user_key l.users);
        users_remote = contains-only (map user_key l.users) (map user_key r.users);
        devices_local = λ user device.
            (compare_devices_lem l.users r.users ids user device).1
            ∙ common-flip user_key l.users r.users user (λ o. only_first o device) refl;
        devices_remote = λ user device.
            (compare_devices_lem l.users r.users ids user device).0
            ∙ common-both user_key l.users r.users user (λ o. only_first o device) refl;
        resources_local =
            contains-only (map resource_key r.resources) (map resource_key l.resources);
        resources_remote =
            contains-only (map resource_key l.resources) (map resource_key r.resources);
        folders_local = exact.only_remote;
        folders_remote = exact.only_local;
        unsynced = process_resource_gaps-Unsynced l r;
        recipients_local = exact.recipients_local;
        recipients_remote = exact.recipients_remote;
      },
    )

tells_swapped :
    (ds : List FolderRecipientDiff) (folder user : String)
    → (tells of_local (map swap_recipients ds) folder user ≡ tells of_remote ds folder user)
      × (tells of_remote (map swap_recipients ds) folder user ≡ tells of_local ds folder user)
unfolding tells
tells_swapped [] folder user = (refl, refl)
tells_swapped (d ∷ ds) folder user =
    let (a, b) = tells_swapped ds folder user in (ground (arith, a), ground (arith, b))

-- Where every clock has one entry for a device, the inverse of a comparison is one as the other side
-- would have made it.
pub inverse-IsUserComparison :
    (l r : UserManifestRequestPayload) (c : UserManifestComparisonResult)
    → HasUniqueClocks l.resources
    → HasUniqueClocks r.resources
    → process_user_manifest_request l r ≡ some c
    → IsUserComparison r l (UserManifest.inverse c)
inverse-IsUserComparison l r c u v h =
    let (c', e, exact) = process_user_manifest_request-IsUserComparison l r in
    swapped (subst (IsUserComparison l r) (some_injective (sym e ∙ h)) exact)
  where
    some_injective : {A : Type 0} {a b : A} → some a ≡ some b → a ≡ b
    some_injective p = cc

    swapped : IsUserComparison l r c → IsUserComparison r l (UserManifest.inverse c)
    swapped x = record {
      users_local = x.users_remote;
      users_remote = x.users_local;
      devices_local = x.devices_remote;
      devices_remote = x.devices_local;
      resources_local = x.resources_remote;
      resources_remote = x.resources_local;
      folders_local = x.folders_remote;
      folders_remote = x.folders_local;
      unsynced = λ a. x.unsynced a ∙ needs_sync_both_comm l.resources r.resources a u v;
      recipients_local = λ folder user.
          (tells_swapped c.folders_requiring_recipient_sync folder user).0
          ∙ x.recipients_remote folder user;
      recipients_remote = λ folder user.
          (tells_swapped c.folders_requiring_recipient_sync folder user).1
          ∙ x.recipients_local folder user;
    }
