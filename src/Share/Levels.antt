-- ===== src/Share/Levels.antt =====
-- The texts of core/src/models/share_record.rs and the rows of persistance/src/models.rs.
use osvauld.Prelude.{◌≡◌, refl}
use osvauld.Share.{
  ShareOperation, share, revoke, PermissionLevel, read, write, admin, ShareRecord,
  operation_to_string, operation_from, level_to_string, level_from, to_model, to_domain,
}

operation_from-operation_to_string :
    (o : ShareOperation) → operation_from (operation_to_string o) ≡ o
operation_from-operation_to_string share = refl
operation_from-operation_to_string revoke = refl

level_from-level_to_string : (l : PermissionLevel) → level_from (level_to_string l) ≡ l
level_from-level_to_string read = refl
level_from-level_to_string write = refl
level_from-level_to_string admin = refl

-- A share record reads back from its row as it was.
pub to_domain-to_model : (r : ShareRecord) → to_domain (to_model r) ≡ r
unfolding to_domain to_model
to_domain-to_model r =
    rw
      (
        operation_from-operation_to_string r.operation_type,
        level_from-level_to_string r.permission_level,
      )
      refl
