-- ===== src/ClockSync/Fitting.antt =====
-- Both batches of a vector clock merge (services/src/resource_service.rs) are acceptable to the
-- tables that they are meant for.
use osvauld.Prelude.{
  String, ◌==◌, eq_iff, Bool, true, none, List, [], ◌∷◌, All, All-filter_map, ◌≡◌, arith,
  Bool-cases, inl, inr,
}
use osvauld.VectorClock.{ResourceVectorClock, find_device, merge}
use osvauld.VectorClock.Loops.{
  newer, absent, older, unknown, merge-update_local, merge-add_local, merge-update_remote,
  merge-add_remote,
}
use osvauld.VectorClock.Search.{
  IsUnique, IsUnique-filter_map, All-find_device, has_device-find, newer-device_id,
  absent-device_id, older-device_id, unknown-device_id,
}
use osvauld.ClockTable.{
  ResourceVectorClockModel, from_domain, into_domain, Rows, row_at, get_vector_clocks_for_resource,
}
use osvauld.ClockTable.Lookup.{find_device-get}
use osvauld.ClockTable.Writes.{OfResource, ids}
use osvauld.ClockTable.Inserts.{FreshIds}
use osvauld.ClockTable.Update.{Fits}

pub get-OfResource :
    (r : String) (rows : Rows) → OfResource r (get_vector_clocks_for_resource r rows)
unfolding get_vector_clocks_for_resource into_domain
get-OfResource r [] = tt
get-OfResource r (m ∷ rows) = elim (Bool-cases (m.resource_id == r)) [
  | inl hit ↦ rw hit (ground (arith, eq_iff m.resource_id r), get-OfResource r rows)
  | inr miss ↦ rw miss (get-OfResource r rows)
]

module _ (admits : ResourceVectorClockModel → Bool) (r : String) (rows : Rows)
    (remotes : List ResourceVectorClock) where
  abbrev locals : List ResourceVectorClock
  locals = get_vector_clocks_for_resource r rows

  no_row : (d : String) → find_device d locals ≡ none → row_at r d rows ≡ none
  no_row d e = ground (arith, find_device-get r d rows)

  -- What a peer takes from the clocks `remotes` of another.
  pub Fits-local :
      OfResource r remotes
      → IsUnique remotes
      → All (λ c. admits (from_domain c) ≡ true) (merge locals remotes).add_local
      → FreshIds (merge locals remotes).add_local (ids rows)
      → Fits admits r (merge locals remotes).update_local (merge locals remotes).add_local rows
  Fits-local o u a f = record {
    updates_of =
        rw (merge-update_local locals remotes)
          (All-filter_map _ _ (newer locals) (λ x y p e. ground arith) remotes o);
    adds_of =
        rw (merge-add_local locals remotes)
          (All-filter_map _ _ (absent locals) (λ x y p e. ground arith) remotes o);
    updates_unique =
        rw (merge-update_local locals remotes)
          (IsUnique-filter_map (newer locals) (newer-device_id locals) remotes u);
    adds_unique =
        rw (merge-add_local locals remotes)
          (IsUnique-filter_map (absent locals) (absent-device_id locals) remotes u);
    admitted = a;
    fresh = f;
    no_row = rw (merge-add_local locals remotes) (
        All-filter_map _ _ (absent locals) (λ x y p e. no_row y.device_id (ground arith)) remotes
          o);
  }

module _ (admits : ResourceVectorClockModel → Bool) (r : String) (rows : Rows)
    (locals : List ResourceVectorClock) where
  abbrev remotes : List ResourceVectorClock
  remotes = get_vector_clocks_for_resource r rows

  -- What a peer with the rows `rows` is sent back by the peer with the clocks `locals`.
  pub Fits-remote :
      OfResource r locals
      → IsUnique locals
      → IsUnique remotes
      → All (λ c. admits (from_domain c) ≡ true) (merge locals remotes).add_remote
      → FreshIds (merge locals remotes).add_remote (ids rows)
      → Fits admits r (merge locals remotes).update_remote (merge locals remotes).add_remote rows
  Fits-remote o u v a f = record {
    updates_of = rw (merge-update_remote locals remotes) (
        All-filter_map _ _ (older locals)
          (λ x y p e. All-find_device _ x.device_id locals y o (ground arith)) remotes
          (get-OfResource r rows));
    adds_of =
        rw (merge-add_remote locals remotes)
          (All-filter_map _ _ (unknown remotes) (λ x y p e. ground arith) locals o);
    updates_unique =
        rw (merge-update_remote locals remotes)
          (IsUnique-filter_map (older locals) (older-device_id locals) remotes v);
    adds_unique =
        rw (merge-add_remote locals remotes)
          (IsUnique-filter_map (unknown remotes) (unknown-device_id remotes) locals u);
    admitted = a;
    fresh = f;
    no_row = rw (merge-add_remote locals remotes) (
        All-filter_map _ _ (unknown remotes)
          (λ x y p e.
            no_row admits r rows locals y.device_id
              (ground (arith, has_device-find y.device_id remotes)))
          locals o);
  }
