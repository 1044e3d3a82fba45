-- ===== src/Storage/Placement.antt =====
-- Where `add_resource_sync` of services/src/sync_service.rs puts a received resource.
use osvauld.Prelude.{
  ◌≤◌, String, ◌==◌, Bool, Bool-cases, true, false, not, ◌&&◌, ◌||◌, Option-cases, none, some, List,
  [], ◌∷◌, if◌then◌else◌, leb, filter, contains, ◌≡◌, refl, ◌⊎◌, ◌≢◌, inl, inr, arith, All, subst,
  eq_refl,
}
use osvauld.Repository.{ok, err, not_found, first_or_not_found}
use osvauld.Storage.{
  Folder, folder_ids, find_folder, earliest, get_default_folder, user, placed, place_default,
  default_folder_not_found, folder_for_sync,
}

contains-cons :
    (x : String) (xs : List String) (a : String) → contains (x ∷ xs) a ≡ (x == a) || contains xs a
unfolding contains
contains-cons x xs a = refl

find_folder-contains :
    (id : String) (fs : List Folder)
    → ((f : Folder) × (find_folder id fs ≡ ok f) × (contains (folder_ids fs) id ≡ true))
      ⊎ ((find_folder id fs ≡ err not_found) × (contains (folder_ids fs) id ≡ false))
unfolding find_folder
find_folder-contains id [] = inr (refl, unfold contains in refl)
find_folder-contains id (f ∷ fs) = elim (Bool-cases (f.id == id)) [
  | inl t ↦ inl (f, ground arith, ground (arith, contains-cons f.id (folder_ids fs) id))
  | inr n ↦ elim (find_folder-contains id fs) [
    | inl (g, e, c) ↦ inl (g, ground arith, ground (arith, contains-cons f.id (folder_ids fs) id))
    | inr (e, c) ↦ inr (ground arith, ground (arith, contains-cons f.id (folder_ids fs) id))
  ]
]

-- Membership, and that no folder of the list is older.
abbrev IsEarliest : List Folder → Folder → Type 0
IsEarliest fs g = (contains (folder_ids fs) g.id ≡ true) × All (λ f. g.created_at ≤ f.created_at) fs

All-older :
    (g h : Folder) (fs : List Folder)
    → g.created_at ≤ h.created_at
    → All (λ f. h.created_at ≤ f.created_at) fs
    → All (λ f. g.created_at ≤ f.created_at) fs
All-older g h [] b a = tt
All-older g h (f ∷ fs) b a = (omega (arith, a.0), All-older g h fs b a.1)

earliest-none : (f : Folder) (fs : List Folder) → earliest (f ∷ fs) ≢ none
unfolding earliest
earliest-none f fs h = elim (Option-cases (earliest fs)) [
  | inl n ↦ ground arith
  | inr (x, e) ↦ ground arith
]

first-IsEarliest :
    (f : Folder) (fs : List Folder)
    → All (λ x. f.created_at ≤ x.created_at) fs
    → IsEarliest (f ∷ fs) f
first-IsEarliest f fs a =
    (ground (arith, contains-cons f.id (folder_ids fs) f.id, eq_refl f.id), (omega arith, a))

earliest-IsEarliest : (fs : List Folder) (g : Folder) → earliest fs ≡ some g → IsEarliest fs g
earliest-IsEarliest [] g h = absurd (unfold earliest in ground arith)
earliest-IsEarliest (f ∷ []) g h =
    let same : f ≡ g = unfold earliest in ground arith in
    subst (IsEarliest (f ∷ [])) same (first-IsEarliest f [] tt)
earliest-IsEarliest (f ∷ y ∷ ys) g h = elim (Option-cases (earliest (y ∷ ys))) [
  | inl n ↦ absurd (earliest-none y ys n)
  | inr (x, e) ↦
      let (m, a) = earliest-IsEarliest (y ∷ ys) x e in
      elim (Bool-cases (leb f.created_at x.created_at)) [
        | inl t ↦
            subst (IsEarliest (f ∷ y ∷ ys)) (kept f (y ∷ ys) g x e h t)
              (first-IsEarliest f (y ∷ ys) (All-older f x (y ∷ ys) (ground arith) a))
        | inr n ↦
            subst (IsEarliest (f ∷ y ∷ ys)) (passed f (y ∷ ys) g x e h n)
              (ground (arith, m, contains-cons f.id (folder_ids (y ∷ ys)) x.id), (ground arith, a))
      ]
]
  where
    kept :
        (f : Folder) (fs : List Folder) (g x : Folder)
        → earliest fs ≡ some x
        → earliest (f ∷ fs) ≡ some g
        → leb f.created_at x.created_at ≡ true
        → f ≡ g
    kept f fs g x e h t = unfold earliest in ground arith

    passed :
        (f : Folder) (fs : List Folder) (g x : Folder)
        → earliest fs ≡ some x
        → earliest (f ∷ fs) ≡ some g
        → leb f.created_at x.created_at ≡ false
        → x ≡ g
    passed f fs g x e h t = unfold earliest in ground arith

abbrev pub live_default : Folder → Bool
live_default f = not f.deleted && f.default_folder

contains-default :
    (fs : List Folder) (a : String)
    → contains (folder_ids (filter live_default fs)) a ≡ true
    → contains (folder_ids fs) a ≡ true
contains-default [] a h = h
contains-default (f ∷ fs) a h = ground (
  arith,
  contains-cons f.id (folder_ids fs) a,
  contains-cons f.id (folder_ids (filter live_default fs)) a,
  contains-default fs a,
)

-- The default folder is the oldest of the live default folders, where there is one.
pub get_default_folder_lem :
    (fs : List Folder)
    → ((g : Folder) × (get_default_folder fs ≡ ok g)
        × (contains (folder_ids (filter live_default fs)) g.id ≡ true)
        × All (λ f. g.created_at ≤ f.created_at) (filter live_default fs))
      ⊎ ((get_default_folder fs ≡ err not_found) × (filter live_default fs ≡ []))
unfolding get_default_folder
get_default_folder_lem fs = go (filter live_default fs)
  where
    go :
        (ds : List Folder)
        → ((g : Folder) × (first_or_not_found (earliest ds) ≡ ok g)
            × (contains (folder_ids ds) g.id ≡ true)
            × All (λ f. g.created_at ≤ f.created_at) ds)
          ⊎ ((first_or_not_found (earliest ds) ≡ err not_found) × (ds ≡ []))
    go [] = inr (unfold earliest in refl, refl)
    go (d ∷ ds) = elim (Option-cases (earliest (d ∷ ds))) [
      | inl n ↦ absurd (earliest-none d ds n)
      | inr (g, e) ↦ let (m, a) = earliest-IsEarliest (d ∷ ds) g e in inl (g, ground arith, m, a)
    ]

-- A resource that another user sends is put in its folder if a row of it is there, deleted or not, else
-- in the folder that it was created in if a row of that is there, deleted or not, else in the default
-- folder. Where there is no live default folder either, the call fails.
pub folder_for_sync_lem :
    (folder_id created_folder_id : String) (fs : List Folder)
    → (folder_for_sync user folder_id created_folder_id fs ≡ (
        if contains (folder_ids fs) folder_id
        then placed folder_id
        else (if contains (folder_ids fs) created_folder_id
            then placed created_folder_id
            else place_default (get_default_folder fs))))
      × (((g : String) × (folder_for_sync user folder_id created_folder_id fs ≡ placed g)
            × (contains (folder_ids fs) g ≡ true))
          ⊎ ((folder_for_sync user folder_id created_folder_id fs ≡ default_folder_not_found)
              × (filter live_default fs ≡ [])))
unfolding folder_for_sync
folder_for_sync_lem a b fs = elim (find_folder-contains a fs) [
  | inl (f, e, c) ↦ (ground arith, inl (a, ground arith, c))
  | inr (e, c) ↦ elim (find_folder-contains b fs) [
    | inl (g, e', c') ↦ (ground arith, inl (b, ground arith, c'))
    | inr (e', c') ↦ elim (get_default_folder_lem fs) [
      | inl (g, d, m, _) ↦ (ground arith, inl (g.id, ground arith, contains-default fs g.id m))
      | inr (d, n) ↦ (ground arith, inr (ground arith, n))
    ]
  ]
]
