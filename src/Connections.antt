-- ===== src/Connections.antt =====
-- network/src/p2p/connection_manager.rs: the established connections, those that are being made, and
-- the pending requests for live editing. A connection is of any type, with its id; the three fields
-- have a lock each, so a call is a sequence of atomic sections, one function each where there are two.
pub mod Calls
pub mod Reachable
pub mod Race
use osvauld.Prelude.{
  String, ◌==◌, Bool, true, not, Option, none, some, List, [], ◌∷◌, if◌then◌else◌, filter,
  cons_some, is_some, contains,
}

pub data ConnectionError : Type 0 where
  connection_not_found already_established already_connecting : ConnectionError

pub data Outcome (A : Type 0) : Type 0 where
  ok : A → Outcome A
  err : ConnectionError → Outcome A

pub record ConnectionManager (C : Type 0) : Type 0 where
  pub connections : List (String × C)
  pub connecting : List String
  pub pending_live_edit_requests : List String

module _ {C : Type 0} where
  -- `HashMap::get`, `remove` and `insert`.
  unfoldable pub get : String → List (String × C) → Option C
  get id [] = none
  get id ((k, c) ∷ m) = if k == id then some c else get id m

  unfoldable pub remove_key : String → List (String × C) → List (String × C)
  remove_key id [] = []
  remove_key id ((k, c) ∷ m) = let rest = remove_key id m in if k == id then rest else (k, c) ∷ rest

  unfoldable pub insert_key : String → C → List (String × C) → List (String × C)
  insert_key id c m = (id, c) ∷ remove_key id m

-- `HashSet::insert` and `remove`.
unfoldable pub insert : String → List String → List String
insert id ids = if contains ids id then ids else id ∷ ids

unfoldable pub remove : String → List String → List String
remove id ids = filter (λ x. not (x == id)) ids

module _ {C : Type 0} where
  abbrev pub new : ConnectionManager C
  new = record { connections = []; connecting = []; pending_live_edit_requests = [] }

  unfoldable pub get_peer_connection : String → ConnectionManager C → Outcome C
  get_peer_connection id s = elim (get id s.connections) [
    | some c ↦ ok c
    | none ↦ err connection_not_found
  ]

  unfoldable pub is_connection_active : String → ConnectionManager C → Bool
  is_connection_active id s =
      if is_some (get id s.connections) then true else contains s.connecting id

  -- The first section of `mark_as_connecting`, under the lock of the connections.
  unfoldable pub check_established : String → ConnectionManager C → Outcome (Unit {0})
  check_established id s = if is_some (get id s.connections) then err already_established else ok tt

  -- The second one, under the lock of the set of ids.
  unfoldable pub begin_connecting : String → ConnectionManager C → Outcome (ConnectionManager C)
  begin_connecting id s =
      if contains s.connecting id
      then err already_connecting
      else ok (record s { connecting = insert id s.connecting })

  unfoldable pub mark_as_connecting : String → ConnectionManager C → Outcome (ConnectionManager C)
  mark_as_connecting id s = elim (check_established id s) [
    | err e ↦ err e
    | ok _ ↦ begin_connecting id s
  ]

  unfoldable pub remove_from_connecting : String → ConnectionManager C → ConnectionManager C
  remove_from_connecting id s = record s { connecting = remove id s.connecting }

  -- The second section of `insert_connection`.
  unfoldable pub put_connection : String → C → ConnectionManager C → ConnectionManager C
  put_connection id c s = record s { connections = insert_key id c s.connections }

  unfoldable pub insert_connection : (C → String) → C → ConnectionManager C → ConnectionManager C
  insert_connection get_id c s = put_connection (get_id c) c (remove_from_connecting (get_id c) s)

  unfoldable pub remove_connection : String → ConnectionManager C → Outcome (ConnectionManager C)
  remove_connection id s =
      if is_some (get id s.connections)
      then ok (record s { connections = remove_key id s.connections })
      else err connection_not_found

  unfoldable pub get_connections_by_ids : List String → ConnectionManager C → List C
  get_connections_by_ids [] s = []
  get_connections_by_ids (id ∷ ids) s =
      cons_some (get id s.connections) (get_connections_by_ids ids s)

  unfoldable pub add_pending_live_edit_request : String → ConnectionManager C → ConnectionManager C
  add_pending_live_edit_request id s = record s {
    pending_live_edit_requests = insert id s.pending_live_edit_requests;
  }

  unfoldable pub get_and_clear_pending_live_edit_requests :
      String → ConnectionManager C → Bool × ConnectionManager C
  get_and_clear_pending_live_edit_requests id s = (
    contains s.pending_live_edit_requests id,
    record s { pending_live_edit_requests = remove id s.pending_live_edit_requests },
  )
