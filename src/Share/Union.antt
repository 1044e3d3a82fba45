-- ===== src/Share/Union.antt =====
-- The share record exchange of network/src/p2p/resource_sync.rs leaves both peers with the records of
-- both.
use osvauld.Prelude.{
  String, ◌==◌, eq_iff, Bool, Bool-cases, true, false, not, ◌&&◌, ◌||◌, List, [], ◌∷◌,
  if◌then◌else◌, push, contains, contains-push, All, ◌≡◌, refl, ap, ◌∙◌, inl, inr, arith,
}
use osvauld.Repository.{ok}
use osvauld.Share.{
  ShareRecord, ShareRecordModel, to_model, to_domain, ShareRows, row_ids, record_ids,
  find_by_resource, insert_or_ignore, insert_all, save_many, lacking,
}

contains-cons :
    (x : String) (xs : List String) (a : String) → contains (x ∷ xs) a ≡ (x == a) || contains xs a
unfolding contains
contains-cons x xs a = refl

contains-nil : (a : String) → contains [] a ≡ false
unfolding contains
contains-nil a = refl

row_ids-push :
    (rows : ShareRows) (r : ShareRecord)
    → row_ids (push rows (to_model r)) ≡ push (row_ids rows) r.id
unfolding to_model
row_ids-push [] r = refl
row_ids-push (m ∷ rows) r = ap (λ xs. m.id ∷ xs) (row_ids-push rows r)

-- The ids of the records of one resource.
abbrev pub ids_of : String → ShareRows → List String
ids_of resource_id rows = record_ids (find_by_resource resource_id rows)

ids_of-cons :
    (r : String) (m : ShareRecordModel) (rows : ShareRows)
    → ids_of r (m ∷ rows) ≡ (if m.resource_id == r then m.id ∷ ids_of r rows else ids_of r rows)
unfolding find_by_resource to_domain
ids_of-cons r m rows = ground arith

ids_of-nil : (r : String) → ids_of r [] ≡ []
unfolding find_by_resource
ids_of-nil r = refl

ids_of-push :
    (r : String) (rows : ShareRows) (x : ShareRecord)
    → x.resource_id ≡ r
    → ids_of r (push rows (to_model x)) ≡ push (ids_of r rows) x.id
ids_of-push r [] x e =
    ids_of-cons r (to_model x) []
    ∙ rw (ids_of-nil r) (unfold to_model in ground (arith, e, eq_iff x.resource_id r))
ids_of-push r (m ∷ rows) x e =
    ids_of-cons r m (push rows (to_model x))
    ∙ rw (ids_of-cons r m rows, ids_of-push r rows x e) (ground arith)

abbrev pub OfResource : String → List ShareRecord → Type 0
OfResource r = All λ x. x.resource_id ≡ r

pub find-OfResource : (r : String) (rows : ShareRows) → OfResource r (find_by_resource r rows)
unfolding find_by_resource to_domain
find-OfResource r [] = tt
find-OfResource r (m ∷ rows) = elim (Bool-cases (m.resource_id == r)) [
  | inl t ↦ rw t ((eq_iff m.resource_id r).0 t, find-OfResource r rows)
  | inr f ↦ rw f (find-OfResource r rows)
]

pub All-lacking :
    (P : ShareRecord → Type 0) (ids : List String) (rs : List ShareRecord)
    → All P rs
    → All P (lacking ids rs)
All-lacking P ids [] a = tt
All-lacking P ids (x ∷ rs) a = elim (Bool-cases (contains ids x.id)) [
  | inl t ↦ rw t (All-lacking P ids rs a.1)
  | inr f ↦ rw f (a.0, All-lacking P ids rs a.1)
]

pub contains-lacking :
    (ids : List String) (rs : List ShareRecord) (a : String)
    → contains (record_ids (lacking ids rs)) a ≡ contains (record_ids rs) a && not (contains ids a)
contains-lacking ids [] a = ground (arith, contains-nil a)
contains-lacking ids (x ∷ rs) a =
    let here : x.id == a ≡ true → contains ids x.id ≡ contains ids a =
      λ t. ap (contains ids) ((eq_iff x.id a).0 t) in
    ground (
      arith,
      here,
      contains-cons x.id (record_ids rs) a,
      contains-cons x.id (record_ids (lacking ids rs)) a,
      contains-lacking ids rs a,
    )

module _ (admits : ShareRecordModel → Bool) where
  abbrev pub Admitted : List ShareRecord → Type 0
  Admitted = All λ x. admits (to_model x) ≡ true

  ignored :
      (x : ShareRecord) (rows : ShareRows)
      → contains (row_ids rows) x.id ≡ true
      → insert_or_ignore admits x rows ≡ ok rows
  unfolding insert_or_ignore
  ignored x rows h = rw h refl

  inserted :
      (x : ShareRecord) (rows : ShareRows)
      → contains (row_ids rows) x.id ≡ false
      → admits (to_model x) ≡ true
      → insert_or_ignore admits x rows ≡ ok (push rows (to_model x))
  unfolding insert_or_ignore
  inserted x rows h a = rw (h, a) refl

  -- What a batch adds to the ids of the table, and to those of the resource `r`.
  abbrev pub Adds : String → List ShareRecord → ShareRows → ShareRows → Type 0
  Adds r rs rows rows' =
      (a : String)
      → (contains (row_ids rows') a ≡ contains (row_ids rows) a || contains (record_ids rs) a)
        × (contains (ids_of r rows') a
            ≡ contains (ids_of r rows) a
              || (contains (record_ids rs) a && not (contains (row_ids rows) a)))

  pub insert_all-Adds :
      (r : String) (rs : List ShareRecord) (rows : ShareRows)
      → OfResource r rs
      → Admitted rs
      → (rows' : ShareRows) × (insert_all admits rs rows ≡ ok rows') × Adds r rs rows rows'
  unfolding insert_all
  insert_all-Adds r [] rows o d =
      (rows, refl, λ a. (ground (arith, contains-nil a), ground (arith, contains-nil a)))
  insert_all-Adds r (x ∷ rs) rows o d = elim (Bool-cases (contains (row_ids rows) x.id)) [
    | inl t ↦
        let (rows', e, adds) = insert_all-Adds r rs rows o.1 d.1 in
        (
          rows',
          rw (ignored x rows t) e,
          λ a.
              let (p, q) = adds a in
              let same : x.id == a ≡ true
                  → contains (row_ids rows) x.id ≡ contains (row_ids rows) a =
                λ h. ap (contains (row_ids rows)) ((eq_iff x.id a).0 h) in
              (
                ground (arith, p, t, same, contains-cons x.id (record_ids rs) a),
                ground (arith, q, t, same, contains-cons x.id (record_ids rs) a),
              ),
        )
    | inr f ↦
        let (rows', e, adds) = insert_all-Adds r rs (push rows (to_model x)) o.1 d.1 in
        (
          rows',
          rw (inserted x rows f d.0) e,
          λ a.
              let (p, q) = adds a in
              let same : x.id == a ≡ true
                  → contains (row_ids rows) x.id ≡ contains (row_ids rows) a =
                λ h. ap (contains (row_ids rows)) ((eq_iff x.id a).0 h) in
              let more =
                ap (λ xs. contains xs a) (row_ids-push rows x)
                ∙ contains-push (row_ids rows) x.id a in
              let also =
                ap (λ xs. contains xs a) (ids_of-push r rows x o.0)
                ∙ contains-push (ids_of r rows) x.id a in
              (
                ground (arith, p, more, contains-cons x.id (record_ids rs) a),
                ground (arith, q, f, same, more, also, contains-cons x.id (record_ids rs) a),
              ),
        )
  ]

  pub save_many-insert_all :
      (rs : List ShareRecord) (rows : ShareRows)
      → save_many admits rs rows ≡ insert_all admits rs rows
  unfolding save_many insert_all
  save_many-insert_all [] rows = refl
  save_many-insert_all (x ∷ rs) rows = refl
