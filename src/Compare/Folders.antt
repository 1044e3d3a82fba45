-- ===== src/Compare/Folders.antt =====
-- `process_folder_gaps` of services/src/sync_service.rs: which recipients of common folders it
-- reports, and that `unwrap` meets no `None`.
use osvauld.Prelude.{
  String, ◌==◌, eq_refl, Bool, true, false, not, ◌&&◌, ◌||◌, Option, Option-cases, none, some, List,
  [], ◌∷◌, map, is_some, cons_some, contains, to_set, difference, intersection, contains-to_set,
  contains-difference, contains-intersection, ◌≡◌, refl, ap, ◌∙◌, inl, inr, arith,
}
use osvauld.Manifest.{FolderManifestData, FolderRecipientDiff, FolderComparisonResult}
use osvauld.Differences.{lookup, both, folder_key}
use osvauld.Compare.{recipients_of_folder, compare_recipients, process_folder_gaps}
use osvauld.Compare.Common.{contains-only, common-both, is_some-lookup, common-flip}
use osvauld.Compare.Devices.{is_empty-contains, or_and}

-- One side of the differences names the user as a recipient of the folder.
unfoldable pub tells :
    (FolderRecipientDiff → List String) → List FolderRecipientDiff → String → String → Bool
tells side [] folder_id user_id = false
tells side (d ∷ ds) folder_id user_id =
    (d.folder_id == folder_id && contains (side d) user_id) || tells side ds folder_id user_id

abbrev pub of_local : FolderRecipientDiff → List String
of_local d = d.recipients_only_local_knows

abbrev pub of_remote : FolderRecipientDiff → List String
of_remote d = d.recipients_only_remote_knows

-- The user is a recipient of the first of two folders and not of the second.
abbrev pub only_first : Option (FolderManifestData × FolderManifestData) → String → Bool
only_first none user_id = false
only_first (some (f, g)) user_id =
    contains f.recipient_user_ids user_id && not (contains g.recipient_user_ids user_id)

tells-recipients :
    (id : String) (f g : FolderManifestData) (ds : List FolderRecipientDiff) (folder user : String)
    → (tells of_local (cons_some (recipients_of_folder id f g) ds) folder user
        ≡ (id == folder && only_first (some (f, g)) user) || tells of_local ds folder user)
      × (tells of_remote (cons_some (recipients_of_folder id f g) ds) folder user
          ≡ (id == folder && only_first (some (g, f)) user) || tells of_remote ds folder user)
unfolding tells recipients_of_folder
tells-recipients id f g ds folder user =
    let xs = to_set f.recipient_user_ids in
    let ys = to_set g.recipient_user_ids in
    let a = contains-difference xs ys user in
    let b = contains-difference ys xs user in
    let c = contains-to_set f.recipient_user_ids user in
    let d = contains-to_set g.recipient_user_ids user in
    let e = is_empty-contains (difference xs ys) user in
    let h = is_empty-contains (difference ys xs) user in (ground arith, ground arith)

compare_recipients-cons :
    (ls rs : List FolderManifestData) (id : String) (ids : List String) (f g : FolderManifestData)
    (ds : List FolderRecipientDiff)
    → lookup folder_key ls id ≡ some f
    → lookup folder_key rs id ≡ some g
    → compare_recipients ls rs ids ≡ some ds
    → compare_recipients ls rs (id ∷ ids) ≡ some (cons_some (recipients_of_folder id f g) ds)
unfolding compare_recipients
compare_recipients-cons ls rs id ids f g ds p q r = rw (p, q, r) refl

compare_recipients_lem :
    (ls rs : List FolderManifestData) (ids : List String)
    → ((a : String)
        → contains ids a ≡ true
        → (is_some (lookup folder_key ls a) ≡ true) × (is_some (lookup folder_key rs a) ≡ true))
    → (ds : List FolderRecipientDiff) × (compare_recipients ls rs ids ≡ some ds)
      × ((folder user : String)
          → (tells of_local ds folder user
              ≡ contains ids folder
                && only_first
                    (both (lookup folder_key ls folder) (lookup folder_key rs folder))
                    user)
            × (tells of_remote ds folder user
                ≡ contains ids folder
                  && only_first
                      (both (lookup folder_key rs folder) (lookup folder_key ls folder))
                      user))
compare_recipients_lem ls rs [] h =
    ([], unfold compare_recipients in refl, λ folder user. unfold contains tells in (refl, refl))
compare_recipients_lem ls rs (id ∷ ids) h =
    let (ds, e, exact) = compare_recipients_lem ls rs ids (λ a m. h a (later a m)) in
    let (p, q) = h id (first id) in
    elim (Option-cases (lookup folder_key ls id)) [
      | inl n ↦ absurd (ground arith)
      | inr (f, i) ↦ elim (Option-cases (lookup folder_key rs id)) [
        | inl n ↦ absurd (ground arith)
        | inr (g, j) ↦ (
          cons_some (recipients_of_folder id f g) ds,
          compare_recipients-cons ls rs id ids f g ds i j e,
          λ folder user.
              let (a, b) = tells-recipients id f g ds folder user in
              let (c, d) = exact folder user in
              let there = λ (x : String). both (lookup folder_key ls x) (lookup folder_key rs x) in
              let back = λ (x : String). both (lookup folder_key rs x) (lookup folder_key ls x) in
              let fg : some (f, g) ≡ there id = rw (i, j) refl in
              let gf : some (g, f) ≡ back id = rw (i, j) refl in
              (
                a
                    ∙ ap (λ o. (id == folder && only_first o user) || tells of_local ds folder user)
                        fg
                    ∙ ap (λ r. (id == folder && only_first (there id) user) || r) c
                    ∙ or_and id folder ids (λ x. only_first (there x) user),
                b
                    ∙ ap
                        (λ o. (id == folder && only_first o user) || tells of_remote ds folder user)
                        gf
                    ∙ ap (λ r. (id == folder && only_first (back id) user) || r) d
                    ∙ or_and id folder ids (λ x. only_first (back x) user),
              ),
        )
      ]
    ]
  where
    later : (a : String) → contains ids a ≡ true → contains (id ∷ ids) a ≡ true
    later a m = unfold contains in ground arith

    first : (a : String) → contains (a ∷ ids) a ≡ true
    first a = unfold contains in ground (arith, eq_refl a)

-- What the two lists of folders differ in.
pub record IsFolderGap (ls rs : List FolderManifestData) (r : FolderComparisonResult) : Type 0 where
  pub only_local :
      (a : String)
      → contains r.folders_only_local_has a
        ≡ contains (map folder_key ls) a && not (contains (map folder_key rs) a)
  pub only_remote :
      (a : String)
      → contains r.folders_only_remote_has a
        ≡ contains (map folder_key rs) a && not (contains (map folder_key ls) a)
  pub recipients_local :
      (folder user : String)
      → tells of_local r.folders_with_recipient_differences folder user
        ≡ only_first (both (lookup folder_key ls folder) (lookup folder_key rs folder)) user
  pub recipients_remote :
      (folder user : String)
      → tells of_remote r.folders_with_recipient_differences folder user
        ≡ only_first (both (lookup folder_key rs folder) (lookup folder_key ls folder)) user

common-found :
    (ls rs : List FolderManifestData) (a : String)
    → contains (intersection (to_set (map folder_key ls)) (to_set (map folder_key rs))) a ≡ true
    → (is_some (lookup folder_key ls a) ≡ true) × (is_some (lookup folder_key rs a) ≡ true)
common-found ls rs a m =
    let both_sides =
      contains-intersection (to_set (map folder_key ls)) (to_set (map folder_key rs)) a in
    let left = contains-to_set (map folder_key ls) a in
    let right = contains-to_set (map folder_key rs) a in
    (ground (arith, is_some-lookup folder_key ls a), ground (arith, is_some-lookup folder_key rs a))

-- The call returns, and reports exactly the folders that one side lacks, and for a folder that both
-- have the recipients that one side lacks.
pub process_folder_gaps-IsFolderGap :
    (ls rs : List FolderManifestData)
    → (r : FolderComparisonResult) × (process_folder_gaps ls rs ≡ some r) × IsFolderGap ls rs r
unfolding process_folder_gaps
process_folder_gaps-IsFolderGap ls rs =
    let ids = intersection (to_set (map folder_key ls)) (to_set (map folder_key rs)) in
    let (ds, e, exact) = compare_recipients_lem ls rs ids (common-found ls rs) in
    (
      record {
        folders_only_local_has =
            difference (to_set (map folder_key ls)) (to_set (map folder_key rs));
        folders_only_remote_has =
            difference (to_set (map folder_key rs)) (to_set (map folder_key ls));
        folders_with_recipient_differences = ds;
      },
      rw e refl,
      record {
        only_local = contains-only (map folder_key ls) (map folder_key rs);
        only_remote = contains-only (map folder_key rs) (map folder_key ls);
        recipients_local = λ folder user.
            (exact folder user).0
            ∙ common-both folder_key ls rs folder (λ o. only_first o user) refl;
        recipients_remote = λ folder user.
            (exact folder user).1
            ∙ common-flip folder_key ls rs folder (λ o. only_first o user) refl;
      },
    )
