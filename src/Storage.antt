-- ===== src/Storage.antt =====
-- The tables `folders` and `resources`, whose rows are those of persistance/src/models.rs, with the
-- calls of persistance/src/repositories/folder_repository.rs and resource_repository.rs that touch
-- these two tables only, and the choice of a folder for a received resource in
-- services/src/sync_service.rs. `now` is what `Local::now` returns.
pub mod Deletion
pub mod Placement
use osvauld.Prelude.{
  ℕ, String, ◌==◌, Bool, true, not, ◌&&◌, Option, none, some, List, [], ◌∷◌, map, if◌then◌else◌,
  leb, filter, find, push, contains,
}
use osvauld.Repository.{Result, ok, err, not_found, database_error, ◌>>=◌, first_or_not_found}

-- `Folder` of the core crate and `FolderModel` have the same fields, and the conversions copy them.
pub record Folder : Type 0 where
  pub id : String
  pub name : String
  pub description : Option String
  pub default_folder : Bool
  pub parent_folder_id : Option String
  pub deleted : Bool
  pub deleted_at : Option ℕ
  pub created_at : ℕ
  pub updated_at : ℕ

pub record ResourceModel : Type 0 where
  pub id : String
  pub resource_type : String
  pub data_ : String
  pub folder_id : String
  pub created_folder_id : String
  pub signature : String
  pub favourite : Bool
  pub created_by : String
  pub last_accessed : ℕ
  pub deleted : Bool
  pub deleted_at : Option ℕ
  pub updated_at : ℕ
  pub created_at : ℕ

pub record Tables : Type 0 where
  pub folders : List Folder
  pub resources : List ResourceModel

abbrev pub folder_ids : List Folder → List String
folder_ids = map λ f. f.id

-- The folders that are not deleted.
unfoldable pub find_all : List Folder → List Folder
find_all folders = filter (λ f. not f.deleted) folders

-- `folders::table.find(id)` asks for the id only.
unfoldable pub find_folder : String → List Folder → Result Folder
find_folder id folders = first_or_not_found (find (λ f. f.id == id) folders)

-- `order_by(created_at.asc()).first()`
unfoldable pub earliest : List Folder → Option Folder
earliest [] = none
earliest (f ∷ fs) = elim (earliest fs) [
  | none ↦ some f
  | some g ↦ if leb f.created_at g.created_at then some f else some g
]

unfoldable pub get_default_folder : List Folder → Result Folder
get_default_folder folders =
    first_or_not_found (earliest (filter (λ f. not f.deleted && f.default_folder) folders))

unfoldable pub get_folders_by_ids : List String → List Folder → List Folder
get_folders_by_ids ids folders = filter (λ f. contains ids f.id && not f.deleted) folders

-- `on_conflict(id).do_nothing()`
unfoldable pub add_folders_bulk : List Folder → List Folder → List Folder
add_folders_bulk [] folders = folders
add_folders_bulk (f ∷ fs) folders =
    add_folders_bulk fs (if contains (folder_ids folders) f.id then folders else push folders f)

abbrev pub delete_resource_row : ℕ → ResourceModel → ResourceModel
delete_resource_row now m = record m { deleted = true; deleted_at = some now; updated_at = now }

abbrev pub delete_folder_row : ℕ → Folder → Folder
delete_folder_row now f = record f { deleted = true; deleted_at = some now; updated_at = now }

-- The resources of the folder first, then the folder.
unfoldable pub soft_delete : String → ℕ → Tables → Tables
soft_delete folder_id now tables = record {
  resources =
      map (λ m. if m.folder_id == folder_id then delete_resource_row now m else m) tables.resources;
  folders = map (λ f. if f.id == folder_id then delete_folder_row now f else f) tables.folders;
}

unfoldable pub soft_delete_resource : String → ℕ → List ResourceModel → List ResourceModel
soft_delete_resource id now = map λ m. if m.id == id then delete_resource_row now m else m

unfoldable pub delete_resource : String → List ResourceModel → List ResourceModel
delete_resource id = filter λ m. not (m.id == id)

unfoldable pub find_by_id_raw : String → List ResourceModel → Result ResourceModel
find_by_id_raw id resources = first_or_not_found (find (λ m. m.id == id) resources)

unfoldable pub toggle_fav : String → ℕ → List ResourceModel → Result (List ResourceModel)
toggle_fav resource_id now resources =
    first_or_not_found (find (λ m. m.id == resource_id) resources) >>= λ current. ok (
      map
        (λ m.
          if m.id == resource_id
          then record m { favourite = not current.favourite; updated_at = now }
          else m)
        resources)

unfoldable pub update_last_accessed : String → ℕ → List ResourceModel → List ResourceModel
update_last_accessed resource_id now =
    map λ m. if m.id == resource_id then record m { last_accessed = now } else m

pub data ConnectionType : Type 0 where
  user device : ConnectionType

-- Where a received resource is put, or `SyncServiceError::DefaultFolderNotFound`.
pub data Placed : Type 0 where
  placed : String → Placed
  default_folder_not_found : Placed

abbrev pub place_default : Result Folder → Placed
place_default (ok f) = placed f.id
place_default (err e) = default_folder_not_found

-- The folder that `add_resource_sync` gives the resource before it is saved.
unfoldable pub folder_for_sync : ConnectionType → String → String → List Folder → Placed
folder_for_sync device folder_id created_folder_id folders = placed folder_id
folder_for_sync user folder_id created_folder_id folders = elim (find_folder folder_id folders) [
  | ok _ ↦ placed folder_id
  | err e ↦ elim e [
    | not_found ↦ elim (find_folder created_folder_id folders) [
      | ok _ ↦ placed created_folder_id
      | err _ ↦ place_default (get_default_folder folders)
    ]
    | database_error ↦ placed folder_id
  ]
]
