-- ===== src/VectorClock/Loops.antt =====
-- The two loops of `ResourceVectorClock::merge` (core/src/models/vector_clock.rs), each list that
-- they build as one pass over the entries.
use osvauld.Prelude.{
  true, false, not, ◌&&◌, Option, none, some, List, [], ◌∷◌, ◌++◌, if◌then◌else◌, ltb, push,
  is_empty, cons_some, filter_map, ◌≡◌, refl, ◌∙◌, append-nil, append_assoc, arith,
}
use osvauld.VectorClock.{
  ResourceVectorClock, MergeResult, find_device, has_device, merge_entry, merge_remote, merge_local,
  no_difference, merge,
}

-- What each loop pushes for one entry of the list that it walks.
abbrev pub newer : List ResourceVectorClock → ResourceVectorClock → Option ResourceVectorClock
newer locals remote = elim (find_device remote.device_id locals) [
  | none ↦ none
  | some l ↦ if ltb l.clock_value remote.clock_value then some remote else none
]

abbrev pub absent : List ResourceVectorClock → ResourceVectorClock → Option ResourceVectorClock
absent locals remote = elim (find_device remote.device_id locals) [
  | none ↦ some remote
  | some l ↦ none
]

abbrev pub older : List ResourceVectorClock → ResourceVectorClock → Option ResourceVectorClock
older locals remote = elim (find_device remote.device_id locals) [
  | none ↦ none
  | some l ↦ if ltb remote.clock_value l.clock_value then some l else none
]

abbrev pub unknown : List ResourceVectorClock → ResourceVectorClock → Option ResourceVectorClock
unknown remotes local = if not (has_device local.device_id remotes) then some local else none

append-cons_some {ℓ} :
    {A : Type ℓ} (xs : List A) (o : Option A) (ys : List A)
    → (xs ++ cons_some o []) ++ ys ≡ xs ++ cons_some o ys
append-cons_some xs none ys = rw append-nil
append-cons_some xs (some a) ys = append_assoc xs (a ∷ []) ys

is_empty-push {ℓ} : {A : Type ℓ} (xs : List A) (a : A) → is_empty (push xs a) ≡ false
is_empty-push [] a = refl
is_empty-push (x ∷ xs) a = refl

module _ (locals : List ResourceVectorClock) where
  abbrev after_entry : MergeResult → ResourceVectorClock → MergeResult
  after_entry acc r = merge_entry acc r (find_device r.device_id locals)

  entry-update_local :
      (acc : MergeResult) (r : ResourceVectorClock)
      → (after_entry acc r).update_local ≡ acc.update_local ++ cons_some (newer locals r) []
  unfolding merge_entry
  entry-update_local acc r = ground (arith, append-nil acc.update_local)

  entry-add_local :
      (acc : MergeResult) (r : ResourceVectorClock)
      → (after_entry acc r).add_local ≡ acc.add_local ++ cons_some (absent locals r) []
  unfolding merge_entry
  entry-add_local acc r = ground (arith, append-nil acc.add_local)

  entry-update_remote :
      (acc : MergeResult) (r : ResourceVectorClock)
      → (after_entry acc r).update_remote ≡ acc.update_remote ++ cons_some (older locals r) []
  unfolding merge_entry
  entry-update_remote acc r = ground (arith, append-nil acc.update_remote)

  entry-add_remote :
      (acc : MergeResult) (r : ResourceVectorClock)
      → (after_entry acc r).add_remote ≡ acc.add_remote
  unfolding merge_entry
  entry-add_remote acc r = ground arith

  loop-update_local :
      (acc : MergeResult) (rs : List ResourceVectorClock)
      → (merge_remote locals acc rs).update_local ≡ acc.update_local ++ filter_map (newer locals) rs
  unfolding merge_remote
  loop-update_local acc [] = rw append-nil
  loop-update_local acc (r ∷ rs) =
      loop-update_local (after_entry acc r) rs
      ∙ rw (entry-update_local acc r) (append-cons_some acc.update_local (newer locals r) _)

  loop-add_local :
      (acc : MergeResult) (rs : List ResourceVectorClock)
      → (merge_remote locals acc rs).add_local ≡ acc.add_local ++ filter_map (absent locals) rs
  unfolding merge_remote
  loop-add_local acc [] = rw append-nil
  loop-add_local acc (r ∷ rs) =
      loop-add_local (after_entry acc r) rs
      ∙ rw (entry-add_local acc r) (append-cons_some acc.add_local (absent locals r) _)

  loop-update_remote :
      (acc : MergeResult) (rs : List ResourceVectorClock)
      → (merge_remote locals acc rs).update_remote
        ≡ acc.update_remote ++ filter_map (older locals) rs
  unfolding merge_remote
  loop-update_remote acc [] = rw append-nil
  loop-update_remote acc (r ∷ rs) =
      loop-update_remote (after_entry acc r) rs
      ∙ rw (entry-update_remote acc r) (append-cons_some acc.update_remote (older locals r) _)

  loop-add_remote :
      (acc : MergeResult) (rs : List ResourceVectorClock)
      → (merge_remote locals acc rs).add_remote ≡ acc.add_remote
  unfolding merge_remote
  loop-add_remote acc [] = refl
  loop-add_remote acc (r ∷ rs) = loop-add_remote (after_entry acc r) rs ∙ entry-add_remote acc r

module _ (remotes : List ResourceVectorClock) where
  abbrev after_local : MergeResult → ResourceVectorClock → MergeResult
  after_local acc l =
      if not (has_device l.device_id remotes)
      then record acc { add_remote = push acc.add_remote l; remote_needs_update = true }
      else acc

  local-fields :
      (acc : MergeResult) (ls : List ResourceVectorClock)
      → ((merge_local remotes acc ls).update_local ≡ acc.update_local)
        × ((merge_local remotes acc ls).add_local ≡ acc.add_local)
        × ((merge_local remotes acc ls).update_remote ≡ acc.update_remote)
        × ((merge_local remotes acc ls).local_needs_update ≡ acc.local_needs_update)
  unfolding merge_local
  local-fields acc [] = (refl, refl, refl, refl)
  local-fields acc (l ∷ ls) = ground (arith, local-fields (after_local acc l) ls)

  local-add_remote :
      (acc : MergeResult) (ls : List ResourceVectorClock)
      → (merge_local remotes acc ls).add_remote ≡ acc.add_remote ++ filter_map (unknown remotes) ls
  unfolding merge_local
  local-add_remote acc [] = rw append-nil
  local-add_remote acc (l ∷ ls) =
      local-add_remote (after_local acc l) ls
      ∙ rw entry (append-cons_some acc.add_remote (unknown remotes l) _)
    where
      entry : (after_local acc l).add_remote ≡ acc.add_remote ++ cons_some (unknown remotes l) []
      entry = ground (arith, append-nil acc.add_remote)

-- A side needs an update exactly when one of its two lists has an entry.
pub record IsFlagged (m : MergeResult) : Type 0 where
  pub of_local : m.local_needs_update ≡ not (is_empty m.update_local && is_empty m.add_local)
  pub of_remote : m.remote_needs_update ≡ not (is_empty m.update_remote && is_empty m.add_remote)

entry-IsFlagged :
    (m : MergeResult) (r : ResourceVectorClock) (o : Option ResourceVectorClock)
    → IsFlagged m
    → IsFlagged (merge_entry m r o)
unfolding merge_entry
entry-IsFlagged m r none h = ground (arith, is_empty-push m.add_local r)
entry-IsFlagged m r (some l) h =
    ground (arith, is_empty-push m.update_local r, is_empty-push m.update_remote l)

remote-IsFlagged :
    (locals : List ResourceVectorClock) (m : MergeResult) (rs : List ResourceVectorClock)
    → IsFlagged m
    → IsFlagged (merge_remote locals m rs)
unfolding merge_remote
remote-IsFlagged locals m [] h = h
remote-IsFlagged locals m (r ∷ rs) h =
    remote-IsFlagged locals (after_entry locals m r) rs (entry-IsFlagged m r _ h)

local-IsFlagged :
    (remotes : List ResourceVectorClock) (m : MergeResult) (ls : List ResourceVectorClock)
    → IsFlagged m
    → IsFlagged (merge_local remotes m ls)
unfolding merge_local
local-IsFlagged remotes m [] h = h
local-IsFlagged remotes m (l ∷ ls) h =
    local-IsFlagged remotes (after_local remotes m l) ls
      (ground (arith, is_empty-push m.add_remote l))

module _ (locals remotes : List ResourceVectorClock) where
  pub merge-update_local : (merge locals remotes).update_local ≡ filter_map (newer locals) remotes
  unfolding merge
  merge-update_local =
      (local-fields remotes _ locals).0 ∙ loop-update_local locals no_difference remotes

  pub merge-add_local : (merge locals remotes).add_local ≡ filter_map (absent locals) remotes
  unfolding merge
  merge-add_local = (local-fields remotes _ locals).1 ∙ loop-add_local locals no_difference remotes

  pub merge-update_remote : (merge locals remotes).update_remote ≡ filter_map (older locals) remotes
  unfolding merge
  merge-update_remote =
      (local-fields remotes _ locals).2 ∙ loop-update_remote locals no_difference remotes

  pub merge-add_remote : (merge locals remotes).add_remote ≡ filter_map (unknown remotes) locals
  unfolding merge
  merge-add_remote =
      local-add_remote remotes _ locals ∙ rw (loop-add_remote locals no_difference remotes) refl

  -- A merge flags a side as needing an update exactly when one of that side's two lists has an entry.
  pub merge-IsFlagged : IsFlagged (merge locals remotes)
  unfolding merge
  merge-IsFlagged =
      local-IsFlagged remotes _ locals (
        remote-IsFlagged locals no_difference remotes
          (record { of_local = refl; of_remote = refl }))
