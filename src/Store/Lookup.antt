-- ===== src/Store/Lookup.antt =====
-- What is read from the store after a write: persistance/src/repositories/store_repository.rs.
use osvauld.Prelude.{
  ℕ, String, ◌==◌, eq_iff, eq_refl, Bool-cases, true, false, Option, none, some, [], ◌∷◌, map,
  if◌then◌else◌, push, is_some, ◌≡◌, refl, sym, ap, subst, ◌∙◌, inl, inr, arith,
}
use osvauld.Repository.{ok}
use osvauld.Store.{
  StoreItem, StoreItems, item, get_value, insert_item, overwritten, upsert_item, Certificate,
  store_certificate, get_certificate,
}

-- The value of a key, where it has one.
unfoldable pub value_of : String → StoreItems → Option String
value_of key items = elim (item key items) [ none ↦ none | some i ↦ some i.value ]

pub get_value-value_of :
    (key v : String) (items : StoreItems) → value_of key items ≡ some v → get_value key items ≡ ok v
unfolding get_value value_of
get_value-value_of key v items h = ground arith

pub is_some-value_of :
    (key : String) (items : StoreItems) → is_some (value_of key items) ≡ is_some (item key items)
unfolding value_of
is_some-value_of key items = ground arith

value_of-cons :
    (key : String) (i : StoreItem) (items : StoreItems)
    → value_of key (i ∷ items) ≡ (if i.key == key then some i.value else value_of key items)
unfolding value_of
value_of-cons key i items = ground arith

value_of-nil : (key : String) → value_of key [] ≡ none
unfolding value_of
value_of-nil key = refl

value_of-push :
    (key k v : String) (now : ℕ) (items : StoreItems)
    → is_some (value_of k items) ≡ false
    → value_of key (push items (record { key = k; value = v; updated_at = now }))
      ≡ (if k == key then some v else value_of key items)
value_of-push key k v now [] h =
    value_of-cons key (record { key = k; value = v; updated_at = now }) []
value_of-push key k v now (i ∷ items) h = ground (
  arith,
  value_of-cons key i (push items (record { key = k; value = v; updated_at = now })),
  value_of-cons key i items,
  value_of-cons k i items,
  value_of-push key k v now items,
  eq_iff k key,
  eq_iff i.key k,
  eq_iff i.key key,
)

overwritten_other :
    (key k v : String) (now : ℕ) (items : StoreItems)
    → (k == key) ≡ false
    → value_of key (map (overwritten now k v) items) ≡ value_of key items
overwritten_other key k v now [] h = refl
overwritten_other key k v now (i ∷ items) h = ground (
  arith,
  value_of-cons key (overwritten now k v i) (map (overwritten now k v) items),
  value_of-cons key i items,
  overwritten_other key k v now items h,
  eq_iff i.key k,
  eq_iff i.key key,
  eq_iff k key,
)

overwritten_self :
    (k v : String) (now : ℕ) (items : StoreItems)
    → is_some (value_of k items) ≡ true
    → value_of k (map (overwritten now k v) items) ≡ some v
overwritten_self k v now [] h = absurd (ground (arith, value_of-nil k))
overwritten_self k v now (i ∷ items) h = ground (
  arith,
  value_of-cons k (overwritten now k v i) (map (overwritten now k v) items),
  value_of-cons k i items,
  overwritten_self k v now items,
)

-- The value of every key after an upsert.
pub value_of-upsert_item :
    (now : ℕ) (key k v : String) (items : StoreItems)
    → value_of key (upsert_item now k v items) ≡ (if k == key then some v else value_of key items)
unfolding upsert_item
value_of-upsert_item now key k v items = elim (Bool-cases (is_some (item k items))) [
  | inr f ↦ rw f (value_of-push key k v now items (is_some-value_of k items ∙ f))
  | inl t ↦ elim (Bool-cases (k == key)) [
    | inr n ↦ rw (t, n) (overwritten_other key k v now items n)
    | inl s ↦
        let self = overwritten_self k v now items (is_some-value_of k items ∙ t) in
        rw (t, s)
          (subst (λ y. value_of y (map (overwritten now k v) items) ≡ some v) ((eq_iff k key).0 s)
            self)
  ]
]

-- Reading a certificate that is stored under two keys.
pub get-store_certificate :
    (now : ℕ) (c : Certificate) (certificate_key salt_key : String) (items : StoreItems)
    → (salt_key == certificate_key) ≡ false
    → get_certificate certificate_key salt_key
        (store_certificate now c certificate_key salt_key items)
      ≡ ok (record c { public_key = "" })
unfolding get_certificate store_certificate
get-store_certificate now c certificate_key salt_key items n =
    let mid = upsert_item now certificate_key c.private_key items in
    let key =
      get_value-value_of certificate_key c.private_key (upsert_item now salt_key c.salt mid) (
        ground (
          arith,
          value_of-upsert_item now certificate_key salt_key c.salt mid,
          value_of-upsert_item now certificate_key certificate_key c.private_key items,
          eq_refl certificate_key,
        )) in
    let salt =
      get_value-value_of salt_key c.salt (upsert_item now salt_key c.salt mid)
        (ground (arith, value_of-upsert_item now salt_key salt_key c.salt mid, eq_refl salt_key)) in
    rw (key, salt) refl

pub value_of-insert_item :
    (now : ℕ) (key k v : String) (items items' : StoreItems)
    → insert_item now k v items ≡ ok items'
    → value_of key items' ≡ (if k == key then some v else value_of key items)
unfolding insert_item
value_of-insert_item now key k v items items' h = elim (Bool-cases (is_some (item k items))) [
  | inl t ↦ absurd (ground arith)
  | inr f ↦
      let done : push items (record { key = k; value = v; updated_at = now }) ≡ items' =
        ground arith in
      ap (value_of key) (sym done) ∙ value_of-push key k v now items (is_some-value_of k items ∙ f)
]

-- A key that has the same value is read the same way.
pub get_value_same :
    (key : String) (items items' : StoreItems)
    → value_of key items ≡ value_of key items'
    → get_value key items ≡ get_value key items'
unfolding get_value value_of
get_value_same key items items' h = ground arith
