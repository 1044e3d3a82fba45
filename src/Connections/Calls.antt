-- ===== src/Connections/Calls.antt =====
-- The calls of network/src/p2p/connection_manager.rs, read by its own queries.
use osvauld.Prelude.{
  String, ◌==◌, eq_iff, Bool-cases, true, false, not, ◌||◌, ◌&&◌, none, some, List, [], ◌∷◌,
  if◌then◌else◌, is_some, contains, contains-filter, ◌≡◌, refl, ap, ◌⊎◌, inl, inr, arith, eq_refl,
}
use osvauld.Connections.{
  ConnectionManager, ok, err, get, remove_key, insert_key, insert, remove, get_peer_connection,
  is_connection_active, check_established, begin_connecting, mark_as_connecting,
  remove_from_connecting, put_connection, insert_connection, add_pending_live_edit_request,
  get_and_clear_pending_live_edit_requests, already_established, already_connecting,
}

contains-cons :
    (x : String) (xs : List String) (a : String) → contains (x ∷ xs) a ≡ (x == a) || contains xs a
unfolding contains
contains-cons x xs a = refl

pub contains-insert :
    (id : String) (ids : List String) (a : String)
    → contains (insert id ids) a ≡ contains ids a || id == a
unfolding insert
contains-insert id ids a =
    let same : id == a ≡ true → contains ids id ≡ contains ids a =
      λ t. ap (contains ids) ((eq_iff id a).0 t) in
    ground (arith, same, contains-cons id ids a)

pub contains-remove :
    (id : String) (ids : List String) (a : String)
    → contains (remove id ids) a ≡ contains ids a && not (id == a)
unfolding remove
contains-remove id ids a =
    ground (arith, contains-filter (λ x. not (x == id)) ids a, eq_iff a id, eq_iff id a)

module _ {C : Type 0} where
  pub get-remove_key :
      (id a : String) (m : List (String × C))
      → get a (remove_key id m) ≡ (if id == a then none else get a m)
  unfolding get remove_key
  get-remove_key id a [] = ground arith
  get-remove_key id a ((k, c) ∷ m) =
      ground (arith, get-remove_key id a m, eq_iff k id, eq_iff k a, eq_iff id a)

  pub get-insert_key :
      (id : String) (c : C) (a : String) (m : List (String × C))
      → get a (insert_key id c m) ≡ (if id == a then some c else get a m)
  unfolding insert_key
  get-insert_key id c a m = unfold get in ground (arith, get-remove_key id a m)

  -- Marking succeeds exactly for an id that is neither established nor being made; then it is active,
  -- no other id changes, and marking it again fails.
  pub mark_as_connecting_lem :
      (id : String) (s : ConnectionManager C)
      → ((is_connection_active id s ≡ false)
          × ((s' : ConnectionManager C) × (mark_as_connecting id s ≡ ok s')
              × (mark_as_connecting id s' ≡ err already_connecting)
              × ((a : String) → is_connection_active a s' ≡ is_connection_active a s || id == a)))
        ⊎ ((is_connection_active id s ≡ true)
            × ((mark_as_connecting id s ≡ err already_established)
                ⊎ (mark_as_connecting id s ≡ err already_connecting)))
  unfolding is_connection_active mark_as_connecting check_established begin_connecting
  mark_as_connecting_lem id s = elim (Bool-cases (is_some (get id s.connections))) [
    | inl t ↦ inr (ground arith, inl (ground arith))
    | inr n ↦ elim (Bool-cases (contains s.connecting id)) [
      | inl t ↦ inr (ground arith, inr (ground arith))
      | inr f ↦ inl (
        ground arith,
        (
          record s { connecting = insert id s.connecting },
          ground arith,
          ground (arith, contains-insert id s.connecting id, eq_refl id),
          λ a. ground (arith, contains-insert id s.connecting a),
        ),
      )
    ]
  ]

  -- A connection that is inserted is the one that its id gives, it is no longer being made, and no
  -- other id changes.
  pub insert_connection_lem :
      (get_id : C → String) (c : C) (s : ConnectionManager C) (a : String)
      → (get_peer_connection a (insert_connection get_id c s)
          ≡ (if get_id c == a then ok c else get_peer_connection a s))
        × (contains (insert_connection get_id c s).connecting a
            ≡ contains s.connecting a && not (get_id c == a))
  unfolding insert_connection put_connection remove_from_connecting get_peer_connection
  insert_connection_lem get_id c s a = (
    ground (arith, get-insert_key (get_id c) c a s.connections),
    contains-remove (get_id c) s.connecting a,
  )

  -- A request is taken once: after a call for an id the next call for it finds none, unless the id was
  -- added again; the requests for other ids stay.
  pub get_and_clear_lem :
      (id : String) (s : ConnectionManager C)
      → let s' = (get_and_clear_pending_live_edit_requests id s).1 in
        ((get_and_clear_pending_live_edit_requests id s').0 ≡ false)
        × ((a : String)
            → contains s'.pending_live_edit_requests a
              ≡ contains s.pending_live_edit_requests a && not (id == a))
        × ((get_and_clear_pending_live_edit_requests id (add_pending_live_edit_request id s')).0
            ≡ true)
  unfolding get_and_clear_pending_live_edit_requests add_pending_live_edit_request
  get_and_clear_lem id s =
      let ids = s.pending_live_edit_requests in
      (
        ground (arith, contains-remove id ids id, eq_refl id),
        contains-remove id ids,
        ground (arith, contains-insert id (remove id ids) id, eq_refl id),
      )
