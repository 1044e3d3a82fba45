-- ===== src/ClockTable/Lookup.antt =====
-- The queries of persistance/src/repositories/vector_clock_repository.rs, read off the rows, and the
-- conversions of persistance/src/models.rs.
use mathlib.Core.Option
use osvauld.Prelude.{
  ℕ, ◌-◌, ◌^◌, ◌≤◌, ◌<◌, String, ◌==◌, eq_iff, Bool, not, ◌&&◌, Option, none, some, List, [], ◌∷◌,
  map, if◌then◌else◌, ltb, any, filter, is_empty, contains, contains-to_set, to_set,
  to_set-Distinct, Distinct, sym, ◌≡◌, refl, ◌↔◌, ◌⊎◌, inl, inr, arith, ◌∙◌, ap,
}
use osvauld.VectorClock.{ResourceVectorClock, find_device}
use osvauld.VectorClock.Search.{clock_of}
use osvauld.ClockTable.{
  ResourceVectorClockModel, to_i32, to_u64, from_domain, into_domain, Rows, is_at, row_at,
  get_vector_clocks_for_resource, is_news, count, check_if_device_needs_update,
  get_resource_ids_needing_updates,
}

-- The value of a device in the clock of a resource, as the table has it.
abbrev pub clock_at : String → String → Rows → Option ℕ
clock_at r d rows = Option.map (λ m. to_u64 m.clock_value) (row_at r d rows)

-- What a write of `v` reads back as.
abbrev pub stored : ℕ → ℕ
stored v = to_u64 (to_i32 v)

pub stored_lem : (v : ℕ) → v < 2 ^ 31 → stored v ≡ v
unfolding to_i32 to_u64
stored_lem v h = ground arith

stored_iff : (v : ℕ) → v < 2 ^ 64 → (stored v ≡ v) ↔ ((v < 2 ^ 31) ⊎ (2 ^ 64 - 2 ^ 31 ≤ v))
unfolding to_i32 to_u64
stored_iff v b = (λ h. ground arith, λ h. elim h [ inl a ↦ ground arith | inr a ↦ ground arith ])

-- An entry whose value is a `u64` reads back from the table as it was exactly when the value is
-- below 2^31, or is one of the top 2^31 values.
pub into_domain-from_domain :
    (c : ResourceVectorClock)
    → c.clock_value < 2 ^ 64
    → (into_domain (from_domain c) ≡ c)
      ↔ ((c.clock_value < 2 ^ 31) ⊎ (2 ^ 64 - 2 ^ 31 ≤ c.clock_value))
unfolding into_domain from_domain
into_domain-from_domain c b = (
  (λ h. (stored_iff c.clock_value b).0 (ap (λ e. e.clock_value) h)),
  λ h. rw ((stored_iff c.clock_value b).1 h) refl,
)

pub row_at-nil : (r d : String) → row_at r d [] ≡ none
unfolding row_at
row_at-nil r d = refl

pub row_at-cons :
    (r d : String) (m : ResourceVectorClockModel) (rows : Rows)
    → row_at r d (m ∷ rows) ≡ (if is_at r d m then some m else row_at r d rows)
unfolding row_at
row_at-cons r d m rows = refl

pub find_device-get :
    (r d : String) (rows : Rows)
    → find_device d (get_vector_clocks_for_resource r rows)
      ≡ Option.map into_domain (row_at r d rows)
unfolding find_device get_vector_clocks_for_resource row_at is_at into_domain
find_device-get r d [] = refl
find_device-get r d (m ∷ rows) = ground (arith, find_device-get r d rows)

pub clock_of-get :
    (r d : String) (rows : Rows)
    → clock_of (get_vector_clocks_for_resource r rows) d ≡ clock_at r d rows
unfolding into_domain
clock_of-get r d rows = rw (find_device-get r d rows) (ground arith)

is_empty-count : {A : Type 0} (xs : List A) → ltb 0 (count xs) ≡ not (is_empty xs)
is_empty-count [] = refl
is_empty-count (x ∷ xs) = ground arith

is_empty-to_set : (xs : List String) → is_empty (to_set xs) ≡ is_empty xs
unfolding to_set contains
is_empty-to_set [] = refl
is_empty-to_set (x ∷ xs) = ground (arith, contains-to_set xs x)

is_empty-map : {A B : Type 0} (f : A → B) (xs : List A) → is_empty (map f xs) ≡ is_empty xs
is_empty-map f [] = refl
is_empty-map f (x ∷ xs) = refl

-- A device is told that it needs an update exactly when some resource is listed for it.
pub check-get_resource_ids :
    (ids : List String) (last : ℕ) (d : String) (rows : Rows)
    → check_if_device_needs_update ids last d rows
      ≡ not (is_empty (get_resource_ids_needing_updates ids last d rows))
unfolding check_if_device_needs_update get_resource_ids_needing_updates
check-get_resource_ids ids last d rows =
    is_empty-count _ ∙ ap not (sym (is_empty-to_set _ ∙ is_empty-map _ _))

contains-map-any :
    (p : ResourceVectorClockModel → Bool) (r : String) (rows : Rows)
    → contains (map (λ m. m.resource_id) (filter p rows)) r
      ≡ any (λ m. p m && m.resource_id == r) rows
unfolding contains
contains-map-any p r [] = refl
contains-map-any p r (m ∷ rows) = ground (arith, contains-map-any p r rows, eq_iff m.resource_id r)

-- A resource is listed, once, exactly when it is asked for and another device wrote it since.
pub contains-get_resource_ids :
    (ids : List String) (last : ℕ) (d r : String) (rows : Rows)
    → (contains (get_resource_ids_needing_updates ids last d rows) r
        ≡ any (λ m. is_news ids last d m && m.resource_id == r) rows)
      × Distinct (get_resource_ids_needing_updates ids last d rows)
unfolding get_resource_ids_needing_updates
contains-get_resource_ids ids last d r rows =
    (contains-to_set _ r ∙ contains-map-any _ r rows, to_set-Distinct _)
