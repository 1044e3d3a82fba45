-- ===== src/Tests/Keys.antt =====
-- The resource keys of two peers.
use osvauld.Prelude.{
  String, ◌==◌, Bool, Bool-cases, true, false, [], ◌∷◌, or_else, is_some, ◌≡◌, refl, eq_iff,
  contains, inl, inr, arith, subst,
}
use osvauld.Repository.{ok, err, database_error}
use osvauld.ResourceKeys.{
  ResourceKey, KeyRows, add_resource_keys, exchange_keys, insert_each, insert_unless_there,
  insert_new,
}
use osvauld.ResourceKeys.Lookup.{IsTable, key_of, has_id}
use osvauld.ResourceKeys.Exchange.{IsCompatible, exchange_keys-union, exchange_keys-taken}
use osvauld.ResourceKeys.Writes.{Step, added, IsWritten, Step-IsWritten}

abbrev key_for : String → String → ResourceKey
key_for id user = record {
  id = id;
  resource_id = "note";
  user_id = user;
  encrypted_key = "cipher";
  is_owner = false;
  created_at = 1;
  updated_at = 1;
}

abbrev keys_a : KeyRows
keys_a = key_for "1" "ann" ∷ key_for "2" "bob" ∷ []

abbrev keys_b : KeyRows
keys_b = key_for "1" "ann" ∷ key_for "3" "kim" ∷ []

abbrev keys_c : KeyRows
keys_c = key_for "4" "bob" ∷ []

abbrev any_key : ResourceKey → Bool
any_key k = true

keys_a-IsTable : IsTable keys_a
unfolding key_of has_id contains
keys_a-IsTable = (refl, refl, (refl, refl, tt))

keys_b-IsTable : IsTable keys_b
unfolding key_of has_id contains
keys_b-IsTable = (refl, refl, (refl, refl, tt))

exchange_keys-taken_example :
    exchange_keys any_key any_key "note" keys_a keys_c ≡ err database_error
unfolding contains
exchange_keys-taken_example =
    exchange_keys-taken any_key any_key "note" "bob" keys_a keys_c (key_for "2" "bob")
      (key_for "4" "bob") keys_a-IsTable (unfold key_of in refl) (unfold key_of in refl)
      (unfold has_id in refl)

abbrev reached : KeyRows
reached = key_for "1" "ann" ∷ key_for "3" "kim" ∷ []

-- A batch of a key that is there and one that is not.
batch : Step any_key (key_for "1" "ann" ∷ []) reached
unfolding add_resource_keys insert_each insert_unless_there insert_new contains
batch = added (key_for "1" "ann" ∷ key_for "3" "kim" ∷ []) (key_for "1" "ann" ∷ []) reached refl

Step-IsWritten_example : IsWritten any_key (key_for "1" "ann" ∷ []) reached batch "note" "kim"
Step-IsWritten_example = Step-IsWritten any_key (key_for "1" "ann" ∷ []) reached batch "note" "kim"

IsCompatible-ab : IsCompatible "note" keys_a keys_b
unfolding key_of has_id contains
IsCompatible-ab u k h = elim (Bool-cases ("ann" == u)) [
  | inl t ↦
      let same : key_for "1" "ann" ≡ k = ground arith in
      subst (λ l. has_id l.id keys_b ≡ is_some (key_of "note" u keys_b)) same (rw t refl)
  | inr f ↦ elim (Bool-cases ("bob" == u)) [
    | inr g ↦ absurd (ground arith)
    | inl t ↦
        let same : key_for "2" "bob" ≡ k = ground arith in
        let bob : "bob" ≡ u = (eq_iff "bob" u).0 t in
        subst (λ l. has_id l.id keys_b ≡ is_some (key_of "note" u keys_b)) same
          (subst (λ y. false ≡ is_some (key_of "note" y keys_b)) bob refl)
  ]
]

IsCompatible-ba : IsCompatible "note" keys_b keys_a
unfolding key_of has_id contains
IsCompatible-ba u k h = elim (Bool-cases ("ann" == u)) [
  | inl t ↦
      let same : key_for "1" "ann" ≡ k = ground arith in
      subst (λ l. has_id l.id keys_a ≡ is_some (key_of "note" u keys_a)) same (rw t refl)
  | inr f ↦ elim (Bool-cases ("kim" == u)) [
    | inr g ↦ absurd (ground arith)
    | inl t ↦
        let same : key_for "3" "kim" ≡ k = ground arith in
        let kim : "kim" ≡ u = (eq_iff "kim" u).0 t in
        subst (λ l. has_id l.id keys_a ≡ is_some (key_of "note" u keys_a)) same
          (subst (λ y. false ≡ is_some (key_of "note" y keys_a)) kim refl)
  ]
]

exchange_keys-union_example :
    (rows_a' rows_b' : KeyRows) × (exchange_keys any_key any_key "note" keys_a keys_b
      ≡ ok (rows_a', rows_b'))
    × ((u : String)
        → (key_of "note" u rows_a' ≡ or_else (key_of "note" u keys_a) (key_of "note" u keys_b))
          × (key_of "note" u rows_b' ≡ or_else (key_of "note" u keys_b) (key_of "note" u keys_a)))
exchange_keys-union_example =
    exchange_keys-union any_key any_key "note" keys_a keys_b keys_a-IsTable keys_b-IsTable
      (refl, (refl, tt)) (refl, (refl, tt)) IsCompatible-ab IsCompatible-ba
