-- ===== src/Storage/Deletion.antt =====
-- `soft_delete` of persistance/src/repositories/folder_repository.rs, seen by the queries for what is
-- not deleted.
use osvauld.Prelude.{
  ℕ, String, ◌==◌, eq_iff, Bool-cases, not, ◌&&◌, ◌||◌, List, [], ◌∷◌, map, if◌then◌else◌, filter,
  contains, true, false, eq_refl, ap, ◌∙◌, ◌≡◌, refl, inl, inr, arith,
}
use osvauld.Storage.{
  Folder, ResourceModel, Tables, folder_ids, find_all, delete_folder_row, delete_resource_row, user,
  placed, folder_for_sync, soft_delete,
}
use osvauld.Storage.Placement.{folder_for_sync_lem}

-- The resources of a folder that are not deleted.
abbrev pub live_in : String → List ResourceModel → List ResourceModel
live_in folder_id = filter λ m. m.folder_id == folder_id && not m.deleted

contains-cons :
    (x : String) (xs : List String) (a : String) → contains (x ∷ xs) a ≡ (x == a) || contains xs a
unfolding contains
contains-cons x xs a = refl

live_folders :
    (id : String) (now : ℕ) (fs : List Folder) (a : String)
    → contains
        (folder_ids (find_all (map (λ f. if f.id == id then delete_folder_row now f else f) fs)))
        a
      ≡ contains (folder_ids (find_all fs)) a && not (id == a)
unfolding find_all
live_folders id now [] a = unfold contains in refl
live_folders id now (f ∷ fs) a = elim (Bool-cases (f.id == id)) [
  | inl t ↦ rw t (
      ground (
        arith,
        live_folders id now fs a,
        contains-cons f.id (folder_ids (filter (λ f. not f.deleted) fs)) a,
        eq_iff f.id id,
        eq_iff f.id a,
        eq_iff id a,
      ))
  | inr n ↦ rw n (
      ground (
        arith,
        live_folders id now fs a,
        contains-cons f.id (folder_ids (filter (λ f. not f.deleted) fs)) a,
        eq_iff f.id id,
        eq_iff f.id a,
        eq_iff id a,
        contains-cons f.id
            (folder_ids (
              filter (λ f. not f.deleted)
                (map (λ f. if f.id == id then delete_folder_row now f else f) fs)))
            a,
      ))
]

live_resources :
    (id : String) (now : ℕ) (rs : List ResourceModel) (a : String)
    → live_in a (map (λ m. if m.folder_id == id then delete_resource_row now m else m) rs)
      ≡ (if id == a then [] else live_in a rs)
live_resources id now [] a = ground arith
live_resources id now (m ∷ rs) a =
    ground
      (arith, live_resources id now rs a, eq_iff m.folder_id id, eq_iff m.folder_id a, eq_iff id a)

-- A deleted folder is no longer listed and has no live resource, and every other folder is listed and
-- has its live resources as before.
pub soft_delete_lem :
    (id : String) (now : ℕ) (t : Tables) (a : String)
    → (contains (folder_ids (find_all (soft_delete id now t).folders)) a
        ≡ contains (folder_ids (find_all t.folders)) a && not (id == a))
      × (live_in a (soft_delete id now t).resources
          ≡ (if id == a then [] else live_in a t.resources))
unfolding soft_delete
soft_delete_lem id now t a = (live_folders id now t.folders a, live_resources id now t.resources a)

folder_ids-deleted :
    (id : String) (now : ℕ) (fs : List Folder)
    → folder_ids (map (λ f. if f.id == id then delete_folder_row now f else f) fs) ≡ folder_ids fs
folder_ids-deleted id now [] = refl
folder_ids-deleted id now (f ∷ fs) = ground (arith, folder_ids-deleted id now fs)

-- Where a folder is there and is then deleted, a resource that another user sends for it is put in this
-- folder, which is not listed, whatever other folders there are.
pub folder_for_sync-soft_delete :
    (id created_folder_id : String) (now : ℕ) (t : Tables)
    → contains (folder_ids t.folders) id ≡ true
    → (folder_for_sync user id created_folder_id (soft_delete id now t).folders ≡ placed id)
      × (contains (folder_ids (find_all (soft_delete id now t).folders)) id ≡ false)
unfolding soft_delete
folder_for_sync-soft_delete id created_folder_id now t h =
    let there : contains (folder_ids (soft_delete id now t).folders) id ≡ true =
      ap (λ ids. contains ids id) (folder_ids-deleted id now t.folders) ∙ h in
    (
      ground (
        arith,
        (folder_for_sync_lem id created_folder_id (soft_delete id now t).folders).0,
        there,
      ),
      ground (arith, live_folders id now t.folders id, eq_refl id),
    )
