-- ===== src/Connections/Race.antt =====
-- Two calls of network/src/p2p/connection_manager.rs that overlap: `mark_as_connecting` gives up the
-- lock of the connections before it takes the lock of the set of ids.
use osvauld.Prelude.{
  String, eq_refl, true, false, ◌&&◌, none, some, is_some, contains, ◌≡◌, refl, arith,
}
use osvauld.Connections.{
  ConnectionManager, ok, err, get, insert, remove_key, is_connection_active, check_established,
  begin_connecting, mark_as_connecting, remove_from_connecting, put_connection, insert_connection,
  remove_connection, already_connecting,
}
use osvauld.Connections.Calls.{contains-insert, contains-remove, get-remove_key, get-insert_key}

-- If the connection of an inactive id is inserted between the two sections of a call that marks the
-- id, both succeed, and the id is established and being made. After the connection is removed the
-- id still counts as active, and it cannot be marked again.
pub mark-insert_connection :
    {C : Type 0} (get_id : C → String) (c : C) (s : ConnectionManager C)
    → is_connection_active (get_id c) s ≡ false
    → let id = get_id c in
      (s' : ConnectionManager C) × (s'' : ConnectionManager C) × (check_established id s ≡ ok tt)
      × (begin_connecting id (insert_connection get_id c s) ≡ ok s')
      × ((is_some (get id s'.connections) && contains s'.connecting id) ≡ true)
      × (remove_connection id s' ≡ ok s'')
      × (is_connection_active id s'' ≡ true)
      × (mark_as_connecting id s'' ≡ err already_connecting)
unfolding is_connection_active check_established begin_connecting mark_as_connecting
    remove_from_connecting put_connection insert_connection remove_connection
mark-insert_connection {C = C} get_id c s h =
    let id = get_id c in
    let t = insert_connection get_id c s in
    let gone : contains t.connecting id ≡ false =
      ground (arith, contains-remove id s.connecting id, eq_refl id) in
    let there : contains (insert id t.connecting) id ≡ true =
      ground (arith, contains-insert id t.connecting id, eq_refl id) in
    let found : get id t.connections ≡ some c =
      ground (arith, get-insert_key id c id s.connections, eq_refl id) in
    let lost : get id (remove_key id t.connections) ≡ none =
      ground (arith, get-remove_key id id t.connections, eq_refl id) in
    let s' : ConnectionManager C = record t { connecting = insert id t.connecting } in
    (
      s',
      record s' { connections = remove_key id t.connections },
      ground arith,
      rw gone refl,
      ground arith,
      rw found refl,
      ground arith,
      ground arith,
    )
