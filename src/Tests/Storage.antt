-- ===== src/Tests/Storage.antt =====
-- Folders and resources, deleted and placed.
use osvauld.Prelude.{
  ℕ, String, ◌==◌, Bool, true, false, not, ◌&&◌, none, List, [], ◌∷◌, if◌then◌else◌, contains, ◌≡◌,
  refl,
}
use osvauld.Storage.{
  Folder, ResourceModel, Tables, folder_ids, find_all, soft_delete, user, placed, folder_for_sync,
}
use osvauld.Storage.Deletion.{live_in, soft_delete_lem, folder_for_sync-soft_delete}

abbrev folder : String → Bool → ℕ → Folder
folder id default_folder created_at = record {
  id = id;
  name = id;
  description = none;
  default_folder = default_folder;
  parent_folder_id = none;
  deleted = false;
  deleted_at = none;
  created_at = created_at;
  updated_at = created_at;
}

abbrev resource : String → String → ResourceModel
resource id folder_id = record {
  id = id;
  resource_type = "note";
  data_ = "";
  folder_id = folder_id;
  created_folder_id = folder_id;
  signature = "";
  favourite = false;
  created_by = "ann";
  last_accessed = 0;
  deleted = false;
  deleted_at = none;
  updated_at = 1;
  created_at = 1;
}

abbrev folders : List Folder
folders = folder "inbox" true 5 ∷ folder "work" false 6 ∷ []

abbrev resources : List ResourceModel
resources = resource "n1" "work" ∷ resource "n2" "inbox" ∷ []

abbrev tables : Tables
tables = record { folders = folders; resources = resources }

soft_delete_example :
    (contains (folder_ids (find_all (soft_delete "work" 9 tables).folders)) "inbox"
      ≡ contains (folder_ids (find_all folders)) "inbox" && not ("work" == "inbox"))
    × (live_in "inbox" (soft_delete "work" 9 tables).resources
        ≡ (if "work" == "inbox" then [] else live_in "inbox" resources))
soft_delete_example = soft_delete_lem "work" 9 tables "inbox"

-- Both folders are there, and "work" is deleted.
folder_for_sync-soft_delete_example :
    (folder_for_sync user "work" "inbox" (soft_delete "work" 9 tables).folders ≡ placed "work")
    × (contains (folder_ids (find_all (soft_delete "work" 9 tables).folders)) "work" ≡ false)
unfolding contains
folder_for_sync-soft_delete_example = folder_for_sync-soft_delete "work" "inbox" 9 tables refl
