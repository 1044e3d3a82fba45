-- ===== src/ResourceKeys/Writes.antt =====
-- What find_by_resource_and_user of persistance/src/repositories/resource_key_repository.rs finds after a
-- write of the repository.
use osvauld.Prelude.{
  String, ◌==◌, eq_iff, Bool, Bool-cases, true, false, not, ◌&&◌, ◌||◌, none, some, List, [], ◌∷◌,
  filter, contains, if◌then◌else◌, ◌≡◌, refl, ap, ◌∙◌, ◌⊎◌, inl, inr, arith, sym,
}
use osvauld.Repository.{ok, err, not_found, first_or_not_found}
use osvauld.ResourceKeys.{
  ResourceKey, KeyRows, key_ids, is_for, find_by_resource_and_user, delete_by_resource_id,
  delete_by_resource_and_user, save_key, add_resource_keys,
}
use osvauld.ResourceKeys.Lookup.{key_of, has_id, key_of-cons, key_of-nil}
use osvauld.ResourceKeys.Batch.{add-insert_each}
use osvauld.ResourceKeys.Gains.{IsAmong, KeepsOrGains, new-key_of, each-Gains}

key_of-deleted :
    (id r u : String) (rows : KeyRows)
    → key_of r u (filter (λ k. not (k.resource_id == id)) rows)
      ≡ (if id == r then none else key_of r u rows)
key_of-deleted id r u [] = ground (arith, key_of-nil r u)
key_of-deleted id r u (k ∷ rows) = ground (
  arith,
  key_of-deleted id r u rows,
  key_of-cons r u k rows,
  key_of-cons r u k (filter (λ k. not (k.resource_id == id)) rows),
  eq_iff k.resource_id id,
  eq_iff k.resource_id r,
  eq_iff id r,
)

key_of-deleted_one :
    (id user r u : String) (rows : KeyRows)
    → key_of r u (filter (λ k. not (is_for id user k)) rows)
      ≡ (if id == r && user == u then none else key_of r u rows)
key_of-deleted_one id user r u [] = ground (arith, key_of-nil r u)
key_of-deleted_one id user r u (k ∷ rows) = ground (
  arith,
  key_of-deleted_one id user r u rows,
  key_of-cons r u k rows,
  key_of-cons r u k (filter (λ k. not (is_for id user k)) rows),
  eq_iff k.resource_id id,
  eq_iff k.resource_id r,
  eq_iff id r,
  eq_iff k.user_id user,
  eq_iff k.user_id u,
  eq_iff user u,
)

-- The same of what the repository finds.
abbrev pub FindsOrGains : List ResourceKey → String → String → KeyRows → KeyRows → Type 0
FindsOrGains keys r u rows rows' =
    (find_by_resource_and_user r u rows' ≡ find_by_resource_and_user r u rows)
    ⊎ ((find_by_resource_and_user r u rows ≡ err not_found)
        × (k : ResourceKey) × IsAmong k keys
        × (has_id k.id rows ≡ false)
        × (is_for r u k ≡ true)
        × (find_by_resource_and_user r u rows' ≡ ok k))

finds :
    (keys : List ResourceKey) (r u : String) (rows rows' : KeyRows)
    → KeepsOrGains keys r u rows rows'
    → FindsOrGains keys r u rows rows'
unfolding find_by_resource_and_user key_of
finds keys r u rows rows' (inl s) = inl (ap first_or_not_found s)
finds keys r u rows rows' (inr (n, k, m, i, f, g)) =
    inr (ap first_or_not_found n, k, m, i, f, ap first_or_not_found g)

gone :
    (b : Bool) (r u : String) (rows : KeyRows)
    → first_or_not_found (if b then none else key_of r u rows)
      ≡ (if b then err not_found else find_by_resource_and_user r u rows)
unfolding find_by_resource_and_user key_of
gone true r u rows = refl
gone false r u rows = refl

branch :
    (b : Bool) (k : ResourceKey) (r u : String) (rows : KeyRows)
    → first_or_not_found (if b then some k else key_of r u rows)
      ≡ (if b then ok k else find_by_resource_and_user r u rows)
unfolding find_by_resource_and_user key_of
branch true k r u rows = refl
branch false k r u rows = refl

module _ (admits : ResourceKey → Bool) where
  pub data Step : KeyRows → KeyRows → Type 0 where
    saved :
        (k : ResourceKey) (rows rows' : KeyRows)
        → save_key admits k rows ≡ ok rows'
        → Step rows rows'
    added :
        (keys : List ResourceKey) (rows rows' : KeyRows)
        → add_resource_keys admits keys rows ≡ ok rows'
        → Step rows rows'
    deleted : (r : String) (rows : KeyRows) → Step rows (delete_by_resource_id r rows)
    deleted_one : (r u : String) (rows : KeyRows) → Step rows (delete_by_resource_and_user r u rows)

  saved-key_of :
      (k : ResourceKey) (rows rows' : KeyRows) (r u : String)
      → save_key admits k rows ≡ ok rows'
      → key_of r u rows' ≡ (if is_for r u k then some k else key_of r u rows)
  unfolding save_key
  saved-key_of k rows rows' r u e = elim (Bool-cases (contains (key_ids rows) k.id)) [
    | inl y ↦ absurd (ground arith)
    | inr h ↦ new-key_of admits k rows rows' r u (ground arith)
  ]

  -- What each write does to what `find_by_resource_and_user` returns.
  abbrev pub IsWritten : (rows rows' : KeyRows) → Step rows rows' → String → String → Type 0
  IsWritten _ _ (saved k rows rows' e) r u =
      find_by_resource_and_user r u rows'
      ≡ (if is_for r u k then ok k else find_by_resource_and_user r u rows)
  IsWritten _ _ (added keys rows rows' e) r u =
      FindsOrGains keys r u rows rows'
      × ((a : String) → has_id a rows' ≡ has_id a rows || contains (key_ids keys) a)
  IsWritten _ _ (deleted id rows) r u =
      find_by_resource_and_user r u (delete_by_resource_id id rows)
      ≡ (if id == r then err not_found else find_by_resource_and_user r u rows)
  IsWritten _ _ (deleted_one id user rows) r u =
      find_by_resource_and_user r u (delete_by_resource_and_user id user rows)
      ≡ (if id == r && user == u then err not_found else find_by_resource_and_user r u rows)

  -- After a write that succeeds, the repository finds: where a key was saved, this key for its resource
  -- and user; where keys were added, the key it found before or, where it found none, one of the added
  -- keys that is for the resource and user and whose id was not there, and the ids of all added keys are
  -- there, and no other new ones; where keys were deleted, none for the deleted resource, or for the
  -- deleted resource and user. For every other resource and user it finds what it found before.
  pub Step-IsWritten :
      (rows rows' : KeyRows) (s : Step rows rows') (r u : String) → IsWritten rows rows' s r u
  unfolding find_by_resource_and_user key_of delete_by_resource_id delete_by_resource_and_user
  Step-IsWritten _ _ (saved k rows rows' e) r u =
      ap first_or_not_found (saved-key_of k rows rows' r u e) ∙ branch (is_for r u k) k r u rows
  Step-IsWritten _ _ (added keys rows rows' e) r u =
      let (g, ids) =
        each-Gains admits keys rows rows' r u (sym (add-insert_each admits "" keys rows) ∙ e) in
      (finds keys r u rows rows' g, ids)
  Step-IsWritten _ _ (deleted id rows) r u =
      ap first_or_not_found (key_of-deleted id r u rows) ∙ gone (id == r) r u rows
  Step-IsWritten _ _ (deleted_one id user rows) r u =
      ap first_or_not_found (key_of-deleted_one id user r u rows)
      ∙ gone (id == r && user == u) r u rows
