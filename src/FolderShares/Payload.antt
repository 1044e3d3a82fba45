-- ===== src/FolderShares/Payload.antt =====
-- The exchange of unknown folders: services/src/folder_service.rs.
use osvauld.Prelude.{
  String, ◌==◌, eq_iff, Bool, Bool-cases, true, false, ◌&&◌, ◌||◌, List, [], ◌∷◌, map, filter, push,
  contains, contains-push, All, ◌≡◌, refl, sym, ap, ◌∙◌, inl, inr, arith,
}
use osvauld.Repository.{ok}
use osvauld.Storage.{Folder, folder_ids, get_folders_by_ids}
use osvauld.Rows.{has_row, has_row-nil, has_row-filter, Inserted, insert_rows-Inserted}
use osvauld.FolderShares.{
  FolderShareRecord, FolderShareRows, FolderTables, share_id, is_share, get_records_by_folder_id,
  renamed, upsert_folder, save_folder_with_share_records, FolderWithShareRecords,
  create_unknown_folders_payload, process_unknown_folders_payload,
}

folder_ids-push :
    (f : Folder) (folders : List Folder)
    → folder_ids (push folders f) ≡ push (folder_ids folders) f.id
folder_ids-push f [] = refl
folder_ids-push f (x ∷ folders) = ap (λ xs. x.id ∷ xs) (folder_ids-push f folders)

renamed-id : (f row : Folder) → (renamed f row).id ≡ row.id
renamed-id f row = elim (Bool-cases (row.id == f.id)) [ inl t ↦ rw t refl | inr n ↦ rw n refl ]

folder_ids-renamed :
    (f : Folder) (folders : List Folder) → folder_ids (map (renamed f) folders) ≡ folder_ids folders
folder_ids-renamed f [] = refl
folder_ids-renamed f (x ∷ folders) = rw (renamed-id f x, folder_ids-renamed f folders) refl

contains-upsert_folder :
    (f : Folder) (folders : List Folder) (g : String)
    → contains (folder_ids (upsert_folder f folders)) g
      ≡ contains (folder_ids folders) g || f.id == g
unfolding upsert_folder
contains-upsert_folder f folders g = elim (Bool-cases (contains (folder_ids folders) f.id)) [
  | inr n ↦ rw n (
      ap (λ xs. contains xs g) (folder_ids-push f folders)
      ∙ contains-push (folder_ids folders) f.id g)
  | inl t ↦
      let here =
        λ (s : f.id == g ≡ true). ap (contains (folder_ids folders)) ((eq_iff f.id g).0 s) in
      rw (t, folder_ids-renamed f folders) (ground (arith, here))
]

-- The folders of a payload, and whether it has a record with this id.
abbrev pub sent_folders : List FolderWithShareRecords → List String
sent_folders = map λ p. p.folder.id

unfoldable pub sends : String → List FolderWithShareRecords → Bool
sends x [] = false
sends x (p ∷ ps) = has_row share_id x p.share_records || sends x ps

-- The records of one list, and then those of another test.
filter-or :
    (p q : FolderShareRecord → Bool) (x : String) (rows : FolderShareRows)
    → has_row share_id x (filter (λ r. p r || q r) rows)
      ≡ has_row share_id x (filter p rows) || has_row share_id x (filter q rows)
filter-or p q x [] = ground (arith, has_row-nil share_id x)
filter-or p q x (r ∷ rows) = ground (
  arith,
  has_row-filter share_id p x r rows,
  has_row-filter share_id q x r rows,
  has_row-filter share_id (λ y. p y || q y) x r rows,
  filter-or p q x rows,
)

filter_ext :
    {A : Type 0} (p q : A → Bool)
    → ((x : A) → p x ≡ q x)
    → (xs : List A) → filter p xs ≡ filter q xs
filter_ext p q h [] = refl
filter_ext p q h (x ∷ xs) = rw (h x, filter_ext p q h xs) refl

-- The shares of these folders.
abbrev pub shared_in : List String → FolderShareRecord → Bool
shared_in ids r = contains ids r.folder_id && is_share r

abbrev entry : FolderTables → Folder → FolderWithShareRecords
entry t f = record { folder = f; share_records = get_records_by_folder_id f.id t.shares }

filter_none : {A : Type 0} (xs : List A) → filter (λ x. false) xs ≡ []
filter_none [] = refl
filter_none (x ∷ xs) = filter_none xs

sends-entries :
    (x : String) (t : FolderTables) (folders : List Folder)
    → sends x (map (entry t) folders)
      ≡ has_row share_id x (filter (shared_in (folder_ids folders)) t.shares)
unfolding sends get_records_by_folder_id contains
sends-entries x t [] = rw (filter_none t.shares) (sym (has_row-nil share_id x))
sends-entries x t (f ∷ folders) =
    let here = λ (r : FolderShareRecord). r.folder_id == f.id && is_share r in
    let split : filter (shared_in (folder_ids (f ∷ folders))) t.shares
        ≡ filter (λ r. here r || shared_in (folder_ids folders) r) t.shares =
      filter_ext _ _ (λ r. ground (arith, eq_iff f.id r.folder_id, eq_iff r.folder_id f.id))
        t.shares in
    ap (λ b. has_row share_id x (filter here t.shares) || b) (sends-entries x t folders)
    ∙ sym
        (ap (has_row share_id x) split ∙ filter-or here (shared_in (folder_ids folders)) x t.shares)

module _ (admits : FolderShareRecord → Bool) where
  abbrev pub IsAdmitted : List FolderWithShareRecords → Type 0
  IsAdmitted = All λ p. All (λ r. admits r ≡ true) p.share_records

  saved :
      (f : Folder) (rs : List FolderShareRecord) (t : FolderTables)
      → All (λ r. admits r ≡ true) rs
      → (shares : FolderShareRows) × (save_folder_with_share_records admits f rs t
          ≡ ok (record { folders = upsert_folder f t.folders; shares = shares }))
        × Inserted share_id admits rs t.shares shares
  unfolding save_folder_with_share_records
  saved f rs t h =
      let (shares, e, i) = insert_rows-Inserted share_id admits rs t.shares h in
      (shares, rw e refl, i)

  -- A payload whose records are admitted is written whole.
  pub process-sent :
      (ps : List FolderWithShareRecords) (t : FolderTables)
      → IsAdmitted ps
      → (t' : FolderTables) × (process_unknown_folders_payload admits ps t ≡ (ok tt, t'))
        × ((g : String)
            → contains (folder_ids t'.folders) g
              ≡ contains (folder_ids t.folders) g || contains (sent_folders ps) g)
        × ((x : String) → has_row share_id x t'.shares ≡ has_row share_id x t.shares || sends x ps)
  unfolding process_unknown_folders_payload sends contains
  process-sent [] t h = (t, refl, λ g. ground arith, λ x. ground arith)
  process-sent (p ∷ ps) t (h, hs) =
      let f : Folder = record p.folder { default_folder = false } in
      let (shares, e, i) = saved f p.share_records t h in
      let mid : FolderTables = record { folders = upsert_folder f t.folders; shares = shares } in
      let (t', k, fs, rs) = process-sent ps mid hs in
      (
        t',
        rw (e, process_unknown_folders_payload) k,
        λ g. ground (arith, fs g, contains-upsert_folder f t.folders g),
        λ x. ground (arith, rs x, i.ids x),
      )

sent-create :
    (ids : List String) (t : FolderTables)
    → create_unknown_folders_payload ids t ≡ map (entry t) (get_folders_by_ids ids t.folders)
unfolding create_unknown_folders_payload get_folders_by_ids contains
sent-create [] t = ap (map (entry t)) (sym (filter_none t.folders))
sent-create (i ∷ ids) t = refl

sent_folders-entries :
    (t : FolderTables) (folders : List Folder)
    → sent_folders (map (entry t) folders) ≡ folder_ids folders
sent_folders-entries t [] = refl
sent_folders-entries t (f ∷ folders) = ap (λ xs. f.id ∷ xs) (sent_folders-entries t folders)

-- Where the receiver's foreign keys admit the shares of the sender's live folders among `ids`, the
-- payload that the sender makes for `ids` is processed without an error; then the receiver has its own
-- folders and these, and its own records and the shares of these folders, and no others.
pub process-create :
    (admits : FolderShareRecord → Bool) (ids : List String) (sender receiver : FolderTables)
    → IsAdmitted admits (create_unknown_folders_payload ids sender)
    → let live = folder_ids (get_folders_by_ids ids sender.folders) in
      (t' : FolderTables) × (process_unknown_folders_payload admits
          (create_unknown_folders_payload ids sender)
          receiver
        ≡ (ok tt, t'))
      × ((g : String)
          → contains (folder_ids t'.folders) g
            ≡ contains (folder_ids receiver.folders) g || contains live g)
      × ((x : String)
          → has_row share_id x t'.shares
            ≡ has_row share_id x receiver.shares
              || has_row share_id x (filter (shared_in live) sender.shares))
process-create admits ids sender receiver h =
    let live = get_folders_by_ids ids sender.folders in
    let (t', e, fs, rs) =
      process-sent admits (create_unknown_folders_payload ids sender) receiver h in
    (
      t',
      e,
      λ g.
          fs g
          ∙ ap (λ xs. contains (folder_ids receiver.folders) g || contains xs g)
              (ap sent_folders (sent-create ids sender) ∙ sent_folders-entries sender live),
      λ x.
          rs x
          ∙ ap (λ b. has_row share_id x receiver.shares || b)
              (ap (sends x) (sent-create ids sender) ∙ sends-entries x sender live),
    )
