-- ===== src/Tests/Connections.antt =====
-- A manager whose connections are texts, each its own id.
use osvauld.Prelude.{String, true, false, ◌&&◌, is_some, contains, ◌≡◌, refl}
use osvauld.Connections.{
  ConnectionManager, ok, err, new, get, is_connection_active, check_established, begin_connecting,
  mark_as_connecting, insert_connection, remove_connection, put_connection, remove_from_connecting,
  insert_key, remove_key, remove, already_connecting,
}
use osvauld.Connections.Reachable.{
  Reachable, start, next, inserted, IsExclusive, Reachable-IsExclusive,
}
use osvauld.Connections.Race.{mark-insert_connection}

abbrev name : String → String
name c = c

abbrev one_call : ConnectionManager String
one_call = insert_connection name "ann:laptop" new

reached : Reachable name one_call
reached = next new one_call start (inserted "ann:laptop" new)

Reachable-IsExclusive_example : IsExclusive one_call
Reachable-IsExclusive_example = Reachable-IsExclusive name one_call reached

inactive : is_connection_active "bob:phone" one_call ≡ false
unfolding is_connection_active insert_connection put_connection remove_from_connecting insert_key
    remove_key remove get contains
inactive = refl

mark-insert_connection_example :
    (s' : ConnectionManager String) × (s'' : ConnectionManager String) × (check_established
        "bob:phone" one_call
      ≡ ok tt)
    × (begin_connecting "bob:phone" (insert_connection name "bob:phone" one_call) ≡ ok s')
    × ((is_some (get "bob:phone" s'.connections) && contains s'.connecting "bob:phone") ≡ true)
    × (remove_connection "bob:phone" s' ≡ ok s'')
    × (is_connection_active "bob:phone" s'' ≡ true)
    × (mark_as_connecting "bob:phone" s'' ≡ err already_connecting)
mark-insert_connection_example = mark-insert_connection name "bob:phone" one_call inactive
