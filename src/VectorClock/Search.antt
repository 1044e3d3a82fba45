-- ===== src/VectorClock/Search.antt =====
-- What `ResourceVectorClock::merge` (core/src/models/vector_clock.rs) reports for one device.
use osvauld.Prelude.{
  cons_some, All, Bool-cases, subst, ℕ, String, ◌==◌, eq_iff, false, Option, none, some, List, [],
  ◌∷◌, if◌then◌else◌, ltb, filter_map, and_then, is_some, Option-cases, ◌≡◌, refl, ◌∙◌, inl, inr,
  arith,
}
use mathlib.Core.Option
use osvauld.VectorClock.{ResourceVectorClock, find_device, has_device, merge}
use osvauld.VectorClock.Loops.{
  newer, absent, older, unknown, merge-update_local, merge-add_local, merge-update_remote,
  merge-add_remote,
}

-- Each device has one entry, as the table's UNIQUE (resource_id, device_id) has it.
abbrev pub IsUnique : List ResourceVectorClock → Type 0
IsUnique [] = Unit
IsUnique (e ∷ es) = (has_device e.device_id es ≡ false) × IsUnique es

pub has_device-find :
    (d : String) (es : List ResourceVectorClock) → has_device d es ≡ is_some (find_device d es)
unfolding has_device find_device
has_device-find d [] = refl
has_device-find d (e ∷ es) = ground (arith, has_device-find d es)

pub find_device-device_id :
    (d : String) (es : List ResourceVectorClock) (e : ResourceVectorClock)
    → find_device d es ≡ some e
    → e.device_id ≡ d
unfolding find_device
find_device-device_id d [] e h = ground arith
find_device-device_id d (x ∷ xs) e h =
    ground (arith, eq_iff x.device_id d, find_device-device_id d xs e)

pub find_device-cons :
    (d : String) (x : ResourceVectorClock) (xs : List ResourceVectorClock)
    → find_device d (x ∷ xs) ≡ (if x.device_id == d then some x else find_device d xs)
unfolding find_device
find_device-cons d x xs = refl

pub find_device_absent :
    (d : String) (es : List ResourceVectorClock) → has_device d es ≡ false → find_device d es ≡ none
find_device_absent d es h = ground (arith, has_device-find d es)

-- A pass that keeps the device of an entry or drops the entry acts on the entry of each device.
pub find_device-filter_map :
    (f : ResourceVectorClock → Option ResourceVectorClock)
    → ((r e : ResourceVectorClock) → f r ≡ some e → e.device_id ≡ r.device_id)
    → (d : String) (xs : List ResourceVectorClock) → IsUnique xs
    → find_device d (filter_map f xs) ≡ and_then (find_device d xs) f
find_device-filter_map f keeps d [] u = unfold find_device in refl
find_device-filter_map f keeps d (x ∷ xs) u = elim (Option-cases (f x)) [
  | inl e ↦ rw e (
      ground (
        arith,
        e,
        eq_iff x.device_id d,
        find_device-cons d x xs,
        find_device_absent x.device_id xs u.0,
        find_device-filter_map f keeps d xs u.1,
      ))
  | inr (y, e) ↦ rw e (
      ground (
        arith,
        e,
        keeps x y e,
        eq_iff x.device_id d,
        eq_iff y.device_id d,
        find_device-cons d x xs,
        find_device-cons d y (filter_map f xs),
        find_device-filter_map f keeps d xs u.1,
      ))
]

IsUnique-cons_some :
    (o : Option ResourceVectorClock) (ys : List ResourceVectorClock)
    → ((y : ResourceVectorClock) → o ≡ some y → has_device y.device_id ys ≡ false)
    → IsUnique ys
    → IsUnique (cons_some o ys)
IsUnique-cons_some none ys h u = u
IsUnique-cons_some (some y) ys h u = (h y refl, u)

pub IsUnique-filter_map :
    (f : ResourceVectorClock → Option ResourceVectorClock)
    → ((r e : ResourceVectorClock) → f r ≡ some e → e.device_id ≡ r.device_id)
    → (xs : List ResourceVectorClock) → IsUnique xs
    → IsUnique (filter_map f xs)
IsUnique-filter_map f keeps [] u = tt
IsUnique-filter_map f keeps (x ∷ xs) u =
    IsUnique-cons_some (f x) (filter_map f xs)
      (λ y e. rw (keeps x y e) (
        ground (
          arith,
          find_device-filter_map f keeps x.device_id xs u.1,
          has_device-find x.device_id (filter_map f xs),
          find_device_absent x.device_id xs u.0,
        )))
      (IsUnique-filter_map f keeps xs u.1)

pub All-find_device {κ} :
    (P : ResourceVectorClock → Type κ) (d : String) (es : List ResourceVectorClock)
    (e : ResourceVectorClock)
    → All P es
    → find_device d es ≡ some e
    → P e
All-find_device P d [] e a h = unfold find_device in cc
All-find_device P d (x ∷ es) e a h = elim (Bool-cases (x.device_id == d)) [
  | inl hit ↦ subst P (ground (arith, find_device-cons d x es)) a.0
  | inr miss ↦ All-find_device P d es e a.1 (ground (arith, find_device-cons d x es))
]

-- The value of a device in a clock; a device with no entry has none.
abbrev pub clock_of : List ResourceVectorClock → String → Option ℕ
clock_of es d = Option.map (λ e. e.clock_value) (find_device d es)

pub newer-device_id :
    (ls : List ResourceVectorClock) (r e : ResourceVectorClock)
    → newer ls r ≡ some e
    → e.device_id ≡ r.device_id
newer-device_id ls r e h = ground arith

pub absent-device_id :
    (ls : List ResourceVectorClock) (r e : ResourceVectorClock)
    → absent ls r ≡ some e
    → e.device_id ≡ r.device_id
absent-device_id ls r e h = ground arith

pub older-device_id :
    (ls : List ResourceVectorClock) (r e : ResourceVectorClock)
    → older ls r ≡ some e
    → e.device_id ≡ r.device_id
older-device_id ls r e h = ground (arith, find_device-device_id r.device_id ls e)

pub unknown-device_id :
    (rs : List ResourceVectorClock) (l e : ResourceVectorClock)
    → unknown rs l ≡ some e
    → e.device_id ≡ l.device_id
unknown-device_id rs l e h = ground arith

-- What the four lists hold for a device, from the two clocks' entries for it.
abbrev pub pick_update :
    Option ResourceVectorClock → Option ResourceVectorClock → Option ResourceVectorClock
pick_update (some old) (some new) = if ltb old.clock_value new.clock_value then some new else none
pick_update _ _ = none

abbrev pub pick_add :
    Option ResourceVectorClock → Option ResourceVectorClock → Option ResourceVectorClock
pick_add none (some new) = some new
pick_add _ _ = none

-- An entry that was found for a device `d` is looked up again under `d`.
newer_at :
    (ls : List ResourceVectorClock) (d : String) (o : Option ResourceVectorClock)
    → ((e : ResourceVectorClock) → o ≡ some e → e.device_id ≡ d)
    → and_then o (newer ls) ≡ pick_update (find_device d ls) o
newer_at ls d none h = ground arith
newer_at ls d (some e) h = rw (h e refl) (ground arith)

absent_at :
    (ls : List ResourceVectorClock) (d : String) (o : Option ResourceVectorClock)
    → ((e : ResourceVectorClock) → o ≡ some e → e.device_id ≡ d)
    → and_then o (absent ls) ≡ pick_add (find_device d ls) o
absent_at ls d none h = ground arith
absent_at ls d (some e) h = rw (h e refl) (ground arith)

older_at :
    (ls : List ResourceVectorClock) (d : String) (o : Option ResourceVectorClock)
    → ((e : ResourceVectorClock) → o ≡ some e → e.device_id ≡ d)
    → and_then o (older ls) ≡ pick_update o (find_device d ls)
older_at ls d none h = ground arith
older_at ls d (some e) h = rw (h e refl) (ground arith)

unknown_at :
    (rs : List ResourceVectorClock) (d : String) (o : Option ResourceVectorClock)
    → ((e : ResourceVectorClock) → o ≡ some e → e.device_id ≡ d)
    → and_then o (unknown rs) ≡ pick_add (find_device d rs) o
unknown_at rs d none h = ground arith
unknown_at rs d (some e) h = rw (h e refl) (ground (arith, has_device-find d rs))

module _ (locals remotes : List ResourceVectorClock) (d : String) where
  pub find-update_local :
      IsUnique remotes
      → find_device d (merge locals remotes).update_local
        ≡ pick_update (find_device d locals) (find_device d remotes)
  find-update_local u = rw (merge-update_local locals remotes) (
      find_device-filter_map (newer locals) (newer-device_id locals) d remotes u
      ∙ newer_at locals d _ (find_device-device_id d remotes))

  pub find-add_local :
      IsUnique remotes
      → find_device d (merge locals remotes).add_local
        ≡ pick_add (find_device d locals) (find_device d remotes)
  find-add_local u = rw (merge-add_local locals remotes) (
      find_device-filter_map (absent locals) (absent-device_id locals) d remotes u
      ∙ absent_at locals d _ (find_device-device_id d remotes))

  pub find-update_remote :
      IsUnique remotes
      → find_device d (merge locals remotes).update_remote
        ≡ pick_update (find_device d remotes) (find_device d locals)
  find-update_remote u = rw (merge-update_remote locals remotes) (
      find_device-filter_map (older locals) (older-device_id locals) d remotes u
      ∙ older_at locals d _ (find_device-device_id d remotes))

  pub find-add_remote :
      IsUnique locals
      → find_device d (merge locals remotes).add_remote
        ≡ pick_add (find_device d remotes) (find_device d locals)
  find-add_remote u = rw (merge-add_remote locals remotes) (
      find_device-filter_map (unknown remotes) (unknown-device_id remotes) d locals u
      ∙ unknown_at remotes d _ (find_device-device_id d locals))
