-- ===== src/Tests/Shares.antt =====
-- The share records of two peers, exchanged.
use osvauld.Prelude.{String, Bool, true, false, [], ◌∷◌, ◌||◌, contains, ◌≡◌, refl}
use osvauld.Repository.{ok}
use osvauld.Share.{
  ShareRecord, ShareRecordModel, ShareRows, share, write, to_model, to_domain, find_by_resource,
  exchange_records,
}
use osvauld.Share.Union.{ids_of}
use osvauld.Share.Exchange.{CanShare, exchange_records-union}
use osvauld.Differences.{compare_share_records}

abbrev shared : String → String → ShareRecord
shared id user = record {
  id = id;
  resource_id = "note";
  shared_by_user_id = "ann";
  recipient_user_id = user;
  permission_level = write;
  ucan_token = "token";
  ucan_cid = "cid";
  operation_type = share;
  created_at = 1;
  updated_at = 1;
}

abbrev row : String → String → ShareRecordModel
row id user = record {
  id = id;
  resource_id = "note";
  shared_by_user_id = "ann";
  recipient_user_id = user;
  permission_level = "write";
  ucan_token = "token";
  ucan_cid = "cid";
  operation_type = "share";
  created_at = 1;
  updated_at = 1;
}

abbrev shares_a : ShareRows
shares_a = row "1" "bob" ∷ row "2" "eve" ∷ []

abbrev shares_b : ShareRows
shares_b = row "1" "bob" ∷ row "3" "kim" ∷ []

abbrev admits_all : ShareRecordModel → Bool
admits_all row = true

can_share : CanShare admits_all admits_all "note" shares_a shares_b
unfolding find_by_resource to_domain to_model
can_share = record {
  admitted_a = (refl, (refl, tt));
  admitted_b = (refl, (refl, tt));
  own_a = λ a h. refl;
  own_b = λ a h. refl;
}

exchange_records-union_example :
    (rows_a' : ShareRows) × (rows_b' : ShareRows) × (exchange_records admits_all admits_all "note"
        shares_a shares_b
      ≡ ok (rows_a', rows_b'))
    × ((a : String)
        → (contains (ids_of "note" rows_a') a
            ≡ contains (ids_of "note" shares_a) a || contains (ids_of "note" shares_b) a)
          × (contains (ids_of "note" rows_b') a
              ≡ contains (ids_of "note" shares_b) a || contains (ids_of "note" shares_a) a))
    × (compare_share_records (ids_of "note" rows_a') (ids_of "note" rows_b') ≡ false)
exchange_records-union_example =
    exchange_records-union admits_all admits_all "note" shares_a shares_b can_share
