-- ===== src/Connections/Reachable.antt =====
-- The states that complete calls of network/src/p2p/connection_manager.rs lead to, one after the other.
use osvauld.Prelude.{
  String, ◌==◌, eq_iff, Bool-cases, true, false, ◌&&◌, is_some, contains, ◌≡◌, refl, ap, inl, inr,
  arith, subst,
}
use osvauld.Connections.{
  ConnectionManager, ok, new, get, insert, remove_key, check_established, begin_connecting,
  mark_as_connecting, remove_from_connecting, put_connection, insert_connection, remove_connection,
  add_pending_live_edit_request, get_and_clear_pending_live_edit_requests,
}
use osvauld.Connections.Calls.{contains-insert, contains-remove, get-remove_key, get-insert_key}

-- No id is established and being made at once.
abbrev pub IsExclusive : {C : Type 0} → ConnectionManager C → Type 0
IsExclusive s = (a : String) → (is_some (get a s.connections) && contains s.connecting a) ≡ false

module _ {C : Type 0} (get_id : C → String) where
  pub data Step : ConnectionManager C → ConnectionManager C → Type 0 where
    marked :
        (id : String) (s s' : ConnectionManager C) → mark_as_connecting id s ≡ ok s' → Step s s'
    unmarked : (id : String) (s : ConnectionManager C) → Step s (remove_from_connecting id s)
    inserted : (c : C) (s : ConnectionManager C) → Step s (insert_connection get_id c s)
    removed :
        (id : String) (s s' : ConnectionManager C) → remove_connection id s ≡ ok s' → Step s s'
    requested :
        (id : String) (s : ConnectionManager C) → Step s (add_pending_live_edit_request id s)
    cleared :
        (id : String) (s : ConnectionManager C)
        → Step s (get_and_clear_pending_live_edit_requests id s).1

  pub data Reachable : ConnectionManager C → Type 0 where
    start : Reachable new
    next : (s s' : ConnectionManager C) → Reachable s → Step s s' → Reachable s'

  marked-IsExclusive :
      (id : String) (s s' : ConnectionManager C)
      → mark_as_connecting id s ≡ ok s'
      → IsExclusive s
      → IsExclusive s'
  unfolding mark_as_connecting check_established begin_connecting
  marked-IsExclusive id s s' h x = elim (Bool-cases (is_some (get id s.connections))) [
    | inl t ↦ absurd (ground arith)
    | inr n ↦ elim (Bool-cases (contains s.connecting id)) [
      | inl t ↦ absurd (ground arith)
      | inr f ↦
          let same : record s { connecting = insert id s.connecting } ≡ s' = ground arith in
          subst IsExclusive same (λ a. free a n)
    ]
  ]
    where
      free :
          (a : String)
          → is_some (get id s.connections) ≡ false
          → (is_some (get a s.connections) && contains (insert id s.connecting) a) ≡ false
      free a n =
          let at : id == a ≡ true → is_some (get id s.connections) ≡ is_some (get a s.connections) =
            λ t. ap (λ y. is_some (get y s.connections)) ((eq_iff id a).0 t) in
          ground (arith, x a, at, n, contains-insert id s.connecting a)

  removed-IsExclusive :
      (id : String) (s s' : ConnectionManager C)
      → remove_connection id s ≡ ok s'
      → IsExclusive s
      → IsExclusive s'
  unfolding remove_connection
  removed-IsExclusive id s s' h x = elim (Bool-cases (is_some (get id s.connections))) [
    | inr n ↦ absurd (ground arith)
    | inl t ↦
        let same : record s { connections = remove_key id s.connections } ≡ s' = ground arith in
        subst IsExclusive same (λ a. ground (arith, x a, get-remove_key id a s.connections))
  ]

  Step-IsExclusive : (s s' : ConnectionManager C) → Step s s' → IsExclusive s → IsExclusive s'
  unfolding remove_from_connecting insert_connection put_connection add_pending_live_edit_request
      get_and_clear_pending_live_edit_requests
  Step-IsExclusive _ _ (marked id s s' h) x = marked-IsExclusive id s s' h x
  Step-IsExclusive _ _ (unmarked id s) x =
      λ a. ground (arith, x a, contains-remove id s.connecting a)
  Step-IsExclusive _ _ (inserted c s) x = λ a. ground (
    arith,
    x a,
    contains-remove (get_id c) s.connecting a,
    get-insert_key (get_id c) c a s.connections,
  )
  Step-IsExclusive _ _ (removed id s s' h) x = removed-IsExclusive id s s' h x
  Step-IsExclusive _ _ (requested id s) x = x
  Step-IsExclusive _ _ (cleared id s) x = x

  -- Where calls follow one another, no id is ever established and being made at once.
  pub Reachable-IsExclusive : (s : ConnectionManager C) → Reachable s → IsExclusive s
  Reachable-IsExclusive _ start a = unfold get contains in refl
  Reachable-IsExclusive _ (next s s' h t) a = Step-IsExclusive s s' t (Reachable-IsExclusive s h) a
