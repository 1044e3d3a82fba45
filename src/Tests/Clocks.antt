-- ===== src/Tests/Clocks.antt =====
-- The clocks of the two peers, exchanged, updated and searched.
use osvauld.Prelude.{
  ℕ, ◌≤◌, ◌<◌, ◌^◌, ◌-◌, String, ◌==◌, false, some, [], ◌∷◌, ◌≡◌, ◌↔◌, ◌⊎◌, refl, contains, or_else,
  if◌then◌else◌, ◌&&◌, arith,
}
use mathlib.Core.Option
use osvauld.Repository.{ok}
use osvauld.VectorClock.{
  ResourceVectorClock, find_device, has_device, merge, merge_remote, merge_local, merge_entry,
}
use osvauld.VectorClock.Search.{IsUnique}
use osvauld.ClockTable.{
  Rows, from_domain, into_domain, to_i32, to_u64, is_at, row_at, get_vector_clocks_for_resource,
  update_vector_clocks, increment_vector_clock, save_vector_clocks, conflicts, insert_row,
  insert_rows,
}
use osvauld.ClockTable.Lookup.{clock_at, stored, into_domain-from_domain}
use osvauld.ClockTable.Writes.{overwrite, ids}
use osvauld.ClockTable.Update.{Fits, update_vector_clocks_lem}
use osvauld.ClockTable.Keys.{IsTable}
use osvauld.ClockTable.Increment.{bump, increment_vector_clock_lem}
use osvauld.ClockTable.Reachable.{Reachable, empty, next, save_many, Reachable-IsUnique}
use osvauld.ClockSync.{exchange}
use osvauld.ClockSync.Converge.{CanExchange, join, exchange-join}
use osvauld.ClockSync.Settled.{exchange-settled}
use osvauld.Differences.{vector_clocks_need_update}
use osvauld.Tests.Data.{entry, row, rows_a, rows_b, admits_all, stamp}

can_exchange : CanExchange admits_all admits_all "note" rows_a rows_b
unfolding get_vector_clocks_for_resource into_domain to_u64 merge merge_remote merge_local
    merge_entry find_device has_device contains
can_exchange = record {
  unique_a = (refl, (refl, (refl, tt)));
  unique_b = (refl, (refl, (refl, tt)));
  small_a = (omega arith, (omega arith, (omega arith, tt)));
  small_b = (omega arith, (omega arith, (omega arith, tt)));
  fresh_a = (refl, tt);
  fresh_b = (refl, tt);
  admitted_a = (refl, tt);
  admitted_b = (refl, tt);
}

exchange-join_example :
    (rows_a' : Rows) × (rows_b' : Rows) × (exchange admits_all admits_all "note" rows_a rows_b
      ≡ ok (rows_a', rows_b'))
    × ((s d : String)
        → (clock_at s d rows_a' ≡ (
            if "note" == s
            then join (clock_at s d rows_a) (clock_at s d rows_b)
            else clock_at s d rows_a))
          × (clock_at s d rows_b' ≡ (
              if "note" == s
              then join (clock_at s d rows_a) (clock_at s d rows_b)
              else clock_at s d rows_b)))
exchange-join_example = exchange-join admits_all admits_all "note" rows_a rows_b can_exchange

rows_a-IsTable : IsTable rows_a
unfolding conflicts is_at
rows_a-IsTable = (refl, (refl, (refl, tt)))

rows_b-IsTable : IsTable rows_b
unfolding conflicts is_at
rows_b-IsTable = (refl, (refl, (refl, tt)))

exchange-settled_example :
    (rows_a' : Rows) × (rows_b' : Rows) × (exchange admits_all admits_all "note" rows_a rows_b
      ≡ ok (rows_a', rows_b'))
    × (vector_clocks_need_update
          (get_vector_clocks_for_resource "note" rows_a')
          (get_vector_clocks_for_resource "note" rows_b')
        ≡ false)
exchange-settled_example =
    exchange-settled admits_all admits_all "note" rows_a rows_b rows_a-IsTable rows_b-IsTable
      can_exchange

into_domain-from_domain_example :
    (into_domain (from_domain (entry "1" "laptop" 5)) ≡ entry "1" "laptop" 5)
    ↔ ((5 < 2 ^ 31) ⊎ (2 ^ 64 - 2 ^ 31 ≤ 5))
into_domain-from_domain_example = into_domain-from_domain (entry "1" "laptop" 5) (omega arith)

-- One update of a row that is there, and one new entry.
fits : Fits admits_all "note" (entry "9" "phone" 8 ∷ []) (entry "7" "desktop" 4 ∷ []) rows_a
unfolding has_device row_at is_at contains
fits = record {
  updates_of = (refl, tt);
  adds_of = (refl, tt);
  updates_unique = (refl, tt);
  adds_unique = (refl, tt);
  admitted = (refl, tt);
  fresh = (refl, tt);
  no_row = (refl, tt);
}

update_vector_clocks_example :
    (rows' : Rows) × (update_vector_clocks admits_all
        (entry "9" "phone" 8 ∷ [])
        (entry "7" "desktop" 4 ∷ [])
        rows_a
      ≡ ok rows')
    × ((s d : String)
        → clock_at s d rows' ≡ (
            if "note" == s
            then or_else
                (overwrite (find_device d (entry "9" "phone" 8 ∷ [])) (clock_at s d rows_a))
                (Option.map
                  (λ c. stored c.clock_value)
                  (find_device d (entry "7" "desktop" 4 ∷ [])))
            else clock_at s d rows_a))
update_vector_clocks_example =
    update_vector_clocks_lem admits_all "note" (entry "9" "phone" 8 ∷ [])
      (entry "7" "desktop" 4 ∷ []) rows_a fits

id_is_new : contains (ids rows_a) (stamp 1).0 ≡ false
unfolding contains
id_is_new = refl

value_is_small : (v : ℕ) → clock_at "note" "laptop" rows_a ≡ some v → v < 2 ^ 31 - 1
unfolding row_at is_at to_u64
value_is_small v h = ground arith

increment_vector_clock_example :
    (rows' : Rows) × (c : ResourceVectorClock) × (increment_vector_clock admits_all stamp 0 "note"
        "laptop" rows_a
      ≡ ok (rows', c))
    × (c.clock_value ≡ bump (clock_at "note" "laptop" rows_a))
    × ((s e : String)
        → clock_at s e rows' ≡ (
            if "note" == s && "laptop" == e
            then some (bump (clock_at "note" "laptop" rows_a))
            else clock_at s e rows_a))
increment_vector_clock_example =
    increment_vector_clock_lem admits_all stamp 0 "note" "laptop" rows_a rows_a-IsTable refl
      id_is_new value_is_small

saved :
    save_vector_clocks admits_all
      (entry "1" "laptop" 5 ∷ entry "2" "phone" 1 ∷ entry "3" "tablet" 2 ∷ [])
      []
    ≡ ok (row "1" "laptop" 5 ∷ row "2" "phone" 1 ∷ row "3" "tablet" 2 ∷ [])
unfolding save_vector_clocks insert_rows insert_row from_domain to_i32 conflicts is_at
saved = refl

reached : Reachable admits_all stamp rows_a
reached = next [] rows_a empty (
    save_many (entry "1" "laptop" 5 ∷ entry "2" "phone" 1 ∷ entry "3" "tablet" 2 ∷ []) [] rows_a
      saved)

Reachable-IsUnique_example :
    IsTable rows_a × ((r : String) → IsUnique (get_vector_clocks_for_resource r rows_a))
Reachable-IsUnique_example = Reachable-IsUnique admits_all stamp rows_a reached
