-- ===== src/Share/Exchange.antt =====
-- The share record exchange of network/src/p2p/resource_sync.rs, with the comparison of share records of
-- services/src/sync_service.rs.
use osvauld.Prelude.{
  String, Bool, true, false, ◌||◌, contains, contains-to_set, to_set, ◌≡◌, refl, arith,
}
use osvauld.Repository.{ok}
use osvauld.Share.{
  ShareRecordModel, ShareRows, row_ids, find_by_resource, lacking, insert_all, merge_share_records,
  add_share_records, exchange_records,
}
use osvauld.Share.Union.{
  ids_of, Admitted, find-OfResource, All-lacking, contains-lacking, insert_all-Adds,
  save_many-insert_all,
}
use osvauld.Differences.{compare_share_records}
use osvauld.Compare.Resources.{share_records-same}

-- What the two tables have to meet for the resource `r`: the foreign keys of the one side hold on the
-- other, and an id of a record of `r` is not that of a record of another resource on the other side.
pub record CanShare (admits_a admits_b : ShareRecordModel → Bool) (r : String)
    (rows_a rows_b : ShareRows) : Type 0 where
  pub admitted_a : Admitted admits_a (find_by_resource r rows_b)
  pub admitted_b : Admitted admits_b (find_by_resource r rows_a)
  pub own_a :
      (a : String)
      → contains (ids_of r rows_b) a ≡ true
      → contains (row_ids rows_a) a ≡ contains (ids_of r rows_a) a
  pub own_b :
      (a : String)
      → contains (ids_of r rows_a) a ≡ true
      → contains (row_ids rows_b) a ≡ contains (ids_of r rows_b) a

-- What one side takes of the records of the other.
taken :
    (admits : ShareRecordModel → Bool) (r : String) (rows others : ShareRows)
    → Admitted admits (find_by_resource r others)
    → ((a : String)
        → contains (ids_of r others) a ≡ true
        → contains (row_ids rows) a ≡ contains (ids_of r rows) a)
    → (rows' : ShareRows) × (insert_all admits
          (lacking (to_set (ids_of r rows)) (find_by_resource r others))
          rows
        ≡ ok rows')
      × ((a : String)
          → contains (ids_of r rows') a
            ≡ contains (ids_of r rows) a || contains (ids_of r others) a)
taken admits r rows others d own =
    let set = to_set (ids_of r rows) in
    let (rows', e, adds) =
      insert_all-Adds admits r (lacking set (find_by_resource r others)) rows
        (All-lacking (λ x. x.resource_id ≡ r) set (find_by_resource r others)
          (find-OfResource r others))
        (All-lacking _ set (find_by_resource r others) d) in
    (
      rows',
      e,
      λ a. ground (
        arith,
        (adds a).1,
        contains-lacking set (find_by_resource r others) a,
        contains-to_set (ids_of r rows) a,
        own a,
      ),
    )

-- The exchange succeeds. Then both sides have, for the resource, the share records of both, and the
-- comparison of their share records finds no difference.
pub exchange_records-union :
    (admits_a admits_b : ShareRecordModel → Bool) (r : String) (rows_a rows_b : ShareRows)
    → CanShare admits_a admits_b r rows_a rows_b
    → (rows_a' : ShareRows) × (rows_b' : ShareRows) × (exchange_records admits_a admits_b r rows_a
          rows_b
        ≡ ok (rows_a', rows_b'))
      × ((a : String)
          → (contains (ids_of r rows_a') a
              ≡ contains (ids_of r rows_a) a || contains (ids_of r rows_b) a)
            × (contains (ids_of r rows_b') a
                ≡ contains (ids_of r rows_b) a || contains (ids_of r rows_a) a))
      × (compare_share_records (ids_of r rows_a') (ids_of r rows_b') ≡ false)
unfolding exchange_records merge_share_records add_share_records
exchange_records-union admits_a admits_b r rows_a rows_b h =
    let (b, done_b, at_b) = taken admits_b r rows_b rows_a h.admitted_b h.own_b in
    let (a, done_a, at_a) = taken admits_a r rows_a rows_b h.admitted_a h.own_a in
    let save_b =
      save_many-insert_all admits_b (lacking (to_set (ids_of r rows_b)) (find_by_resource r rows_a))
        rows_b in
    let save_a =
      save_many-insert_all admits_a (lacking (to_set (ids_of r rows_a)) (find_by_resource r rows_b))
        rows_a in
    (
      a,
      b,
      rw (save_b, done_b, save_a, done_a) refl,
      (λ x. (at_a x, at_b x)),
      (share_records-same (ids_of r a) (ids_of r b)).1 (λ x. ground (arith, at_a x, at_b x)),
    )
