-- ===== src/Resources/Arrival.antt =====
-- A resource that a peer lacked, after it arrived: `get_resource_sync_data` and `save_resource_sync_data`
-- of persistance/src/repositories/resource_repository.rs.
use osvauld.Prelude.{
  String, ◌==◌, eq_iff, eq_refl, Bool-cases, true, Option-cases, some, List, [], ◌∷◌, ◌++◌, map,
  filter, find, push, contains, Distinct, ◌≡◌, refl, sym, ap, subst, ◌∙◌, inl, inr, arith,
}
use osvauld.Repository.{Result-cases, ok}
use osvauld.Manifest.{ResourceManifestData}
use osvauld.Storage.{ResourceModel}
use osvauld.ResourceKeys.{insert_each, find_by_resource_id}
use osvauld.VectorClock.Search.{clock_of}
use osvauld.Share.{ShareRecordModel, row_ids, record_ids, to_model, find_by_resource, insert_all}
use osvauld.ClockTable.{
  ResourceVectorClockModel, from_domain, into_domain, get_vector_clocks_for_resource,
}
use osvauld.Compare.Resources.{InSync}
use osvauld.Resources.{
  ResourceTables, ResourceSyncData, Admits, resource_ids, clock_ids, manifest_entries,
  get_resource_manifest_data, get_resource_sync_data, insert_resource, insert_clocks,
  save_resource_sync_data,
}
use osvauld.Resources.Appended.{
  filter-append, insert_clocks-append, insert_all-append, clocks_back, shares_back, Apart,
  sent_clock_ids, Stored,
}

found_id :
    (r : String) (resources : List ResourceModel) (m : ResourceModel)
    → find (λ x. x.id == r) resources ≡ some m
    → m.id ≡ r
found_id r [] m h = absurd (ground arith)
found_id r (x ∷ resources) m h = elim (Bool-cases (x.id == r)) [
  | inl t ↦
      let same : x ≡ m = ground arith in
      subst (λ (y : ResourceModel). y.id ≡ r) same ((eq_iff x.id r).0 t)
  | inr f ↦ found_id r resources m (ground arith)
]

-- What the data says of the rows it was read from.
record IsSyncData (r : String) (t : ResourceTables) (d : ResourceSyncData) : Type 0 where
  id : d.resource.id ≡ r
  shares : d.share_records ≡ find_by_resource r t.shares
  clocks : d.vector_clocks ≡ get_vector_clocks_for_resource r t.clocks

get_resource_sync_data-parts :
    (r : String) (t : ResourceTables) (d : ResourceSyncData)
    → get_resource_sync_data r t ≡ ok d
    → IsSyncData r t d
unfolding get_resource_sync_data
get_resource_sync_data-parts r t d h = elim (Option-cases (find (λ m. m.id == r) t.resources)) [
  | inl n ↦ absurd (ground arith)
  | inr (m, f) ↦
      let id = found_id r t.resources m f in
      let done : record {
        resource = m;
        resource_keys = find_by_resource_id m.id t.keys;
        share_records = find_by_resource m.id t.shares;
        vector_clocks = get_vector_clocks_for_resource m.id t.clocks;
      }
          ≡ d =
        ground arith in
      subst (IsSyncData r t) done (record {
        id = id;
        shares = ap (λ x. find_by_resource x t.shares) id;
        clocks = ap (λ x. get_vector_clocks_for_resource x t.clocks) id;
      })
]

resource_ids-push :
    (m : ResourceModel) (resources : List ResourceModel)
    → contains (resource_ids (push resources m)) m.id ≡ true
unfolding contains
resource_ids-push m [] = ground (arith, eq_refl m.id)
resource_ids-push m (x ∷ resources) = ground (arith, resource_ids-push m resources)

insert_resource-there :
    (admits : Admits) (m : ResourceModel) (rows rows' : List ResourceModel)
    → insert_resource admits m rows ≡ ok rows'
    → contains (resource_ids rows') m.id ≡ true
unfolding insert_resource
insert_resource-there admits m rows rows' h =
    elim (Bool-cases (contains (resource_ids rows) m.id)) [
      | inl t ↦
          let same : rows ≡ rows' = ground arith in
          ap (λ x. contains (resource_ids x) m.id) (sym same) ∙ t
      | inr f ↦
          let same : push rows m ≡ rows' = ground arith in
          ap (λ x. contains (resource_ids x) m.id) (sym same) ∙ resource_ids-push m rows
    ]

record IsSaved (admits : Admits) (d : ResourceSyncData) (t t' : ResourceTables) : Type 0 where
  resource : insert_resource admits d.resource t.resources ≡ ok t'.resources
  shares : insert_all admits.share d.share_records t.shares ≡ ok t'.shares
  clocks : insert_clocks admits d.vector_clocks t.clocks ≡ ok t'.clocks

save_resource_sync_data-parts :
    (admits : Admits) (d : ResourceSyncData) (t t' : ResourceTables)
    → save_resource_sync_data admits d t ≡ ok t'
    → IsSaved admits d t t'
unfolding save_resource_sync_data
save_resource_sync_data-parts admits d t t' h =
    elim (Result-cases (insert_resource admits d.resource t.resources)) [
      | inr (e, f) ↦ absurd (ground arith)
      | inl (rs, f) ↦ elim (Result-cases (insert_each admits.key d.resource_keys t.keys)) [
        | inr (e, g) ↦ absurd (ground arith)
        | inl (ks, g) ↦ elim (Result-cases (insert_all admits.share d.share_records t.shares)) [
          | inr (e, k) ↦ absurd (ground arith)
          | inl (ss, k) ↦ elim (Result-cases (insert_clocks admits d.vector_clocks t.clocks)) [
            | inr (e, l) ↦ absurd (ground arith)
            | inl (cs, l) ↦
                let done : record { resources = rs; keys = ks; shares = ss; clocks = cs } ≡ t' =
                  ground arith in
                subst (IsSaved admits d t) done (record { resource = f; shares = k; clocks = l })
          ]
        ]
      ]
    ]

-- The peer has nothing of the resource, and none of the ids that are sent; these are distinct.
pub record Lacks (r : String) (d : ResourceSyncData) (t : ResourceTables) : Type 0 where
  pub no_shares : filter (λ m. m.resource_id == r) t.shares ≡ []
  pub no_clocks : filter (λ m. m.resource_id == r) t.clocks ≡ []
  pub share_ids : Distinct (record_ids d.share_records)
  pub new_shares : Apart (record_ids d.share_records) (row_ids t.shares)
  pub entry_ids : Distinct (sent_clock_ids d.vector_clocks)
  pub new_clocks : Apart (sent_clock_ids d.vector_clocks) (clock_ids t.clocks)

-- Where a peer lacks a resource, the stored clock values of the other side are below 2^32, and what the
-- other side sends of the resource is saved, the peer has the resource, and each side makes one entry
-- for it in a manifest: the two are in sync, with the same share records and the same clock.
pub save_resource_sync_data-InSync :
    (admits : Admits) (r : String) (a b b' : ResourceTables) (d : ResourceSyncData)
    → Stored a.clocks
    → get_resource_sync_data r a ≡ ok d
    → Lacks r d b
    → save_resource_sync_data admits d b ≡ ok b'
    → (contains (resource_ids b'.resources) r ≡ true)
      × (e e' : ResourceManifestData) × (get_resource_manifest_data (some (r ∷ [])) a ≡ e ∷ [])
      × (get_resource_manifest_data (some (r ∷ [])) b' ≡ e' ∷ [])
      × InSync e' e
unfolding get_resource_manifest_data manifest_entries find_by_resource
    get_vector_clocks_for_resource
save_resource_sync_data-InSync admits r a b b' d s h l k =
    let p = get_resource_sync_data-parts r a d h in
    let q = save_resource_sync_data-parts admits d b b' k in
    let at_r = λ (m : ShareRecordModel). m.resource_id == r in
    let clock_at_r = λ (m : ResourceVectorClockModel). m.resource_id == r in
    let shares : row_ids (filter at_r b'.shares) ≡ row_ids (filter at_r a.shares) =
      ap (λ x. row_ids (filter at_r x))
        (insert_all-append admits d.share_records b.shares b'.shares q.shares l.share_ids
          l.new_shares)
      ∙ (ap row_ids (filter-append at_r b.shares (map to_model d.share_records))
          ∙ (ap (λ x. row_ids (x ++ filter at_r (map to_model d.share_records))) l.no_shares
              ∙ (ap (λ x. row_ids (filter at_r (map to_model x))) p.shares
                  ∙ shares_back r a.shares))) in
    let clocks : filter clock_at_r b'.clocks ≡ filter clock_at_r a.clocks =
      ap (filter clock_at_r) (
        insert_clocks-append admits d.vector_clocks b.clocks b'.clocks q.clocks l.entry_ids
          l.new_clocks)
      ∙ (filter-append clock_at_r b.clocks (map from_domain d.vector_clocks)
          ∙ (ap (λ x. x ++ filter clock_at_r (map from_domain d.vector_clocks)) l.no_clocks
              ∙ (ap (λ x. filter clock_at_r (map from_domain x)) p.clocks
                  ∙ clocks_back r a.clocks s))) in
    (
      ap (contains (resource_ids b'.resources)) (sym p.id)
          ∙ insert_resource-there admits d.resource b.resources b'.resources q.resource,
      _,
      _,
      refl,
      refl,
      record {
        records = λ x. ap (λ y. contains y x) shares;
        clocks = λ x. ap (λ y. clock_of (map into_domain y) x) clocks;
      },
    )
