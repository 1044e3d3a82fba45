-- ===== src/Tests/Tokens.antt =====
-- A token library of two tokens: the owner issued `root` to Ann, and Ann issued `leaf` to Bob.
use osvauld.Prelude.{
  ℕ, String, ◌==◌, eq_iff, Bool-cases, true, false, Option, none, some, List, [], ◌∷◌, contains,
  is_some, ◌≡◌, ◌↔◌, inl, inr, refl, ap, ◌∙◌, if◌then◌else◌, arith,
}
use osvauld.Token.{
  Capability, Ucan, Result, ok, Library, strip_star, grants, check_capabilities, check_capability,
}
use osvauld.Ucan.{
  key_of_did, verify_did_key_match, validate_structure, get_ucan_cid, validate_audience, parent_of,
  try_proofs, by_proofs, validate_ucan_permission, proof_fact, nested_proof,
  validate_embedded_proof_chain, validate_connect_token, validate_authority_for_update,
}
use osvauld.Ucan.Parents.{IsRanked}
use osvauld.Ucan.Permission.{Chain, validate_ucan_permission-Chain}
use osvauld.Ucan.Granted.{
  Line, issued, one_proof, validate_ucan_permission-some, validate_ucan_permission_own,
}
use osvauld.Ucan.Embedded.{Embedded, IsNested, validate_embedded_proof_chain_lem}
use osvauld.Ucan.Connect.{MayConnect, validate_connect_token_lem}
use osvauld.Ucan.Authority.{validate_authority_for_update-Chain, validate_authority_for_update-Line}

abbrev cap : String → String → Capability
cap resource ability = record { resource = resource; ability = ability }

abbrev root_ucan : Ucan
root_ucan = record {
  issuer = "did:key:zO";
  audience = "did:key:zA";
  capabilities = cap "app:resource:*" "crud/update" ∷ cap "app:user-connect:owner" "use" ∷ [];
  proofs = none;
  facts = none;
}

-- It claims to read, not to update.
abbrev leaf_ucan : Ucan
leaf_ucan = record {
  issuer = "did:key:zA";
  audience = "did:key:zB";
  capabilities = cap "app:resource:n1" "crud/read" ∷ cap "app:user-connect:owner" "use" ∷ [];
  proofs = some ("cid-root" ∷ []);
  facts = some (("proof", some "root") ∷ []);
}

abbrev key : String → String → String → String → Option (List ℕ)
key owner ann head s =
    if s == owner then some (7 ∷ []) else (if s == ann then some (8 ∷ []) else some (9 ∷ []))

abbrev lib : Library
lib = record {
  parse =
      λ t. if t == "leaf" then some leaf_ucan else (if t == "root" then some root_ucan else none);
  validate = λ u. true;
  to_cid = λ u. if u.issuer == "did:key:zO" then some "cid-root" else some "cid-leaf";
  bs58_decode = λ s.
      if s == "O"
      then some (237 ∷ 1 ∷ 7 ∷ [])
      else (if s == "A" then some (237 ∷ 1 ∷ 8 ∷ []) else some (237 ∷ 1 ∷ 9 ∷ []));
  base64_decode = λ s.
      if s == "owner" then some (7 ∷ []) else (if s == "ann" then some (8 ∷ []) else some (9 ∷ []));
}

abbrev resolve : String → Option String
resolve cid = if cid == "cid-root" then some "root" else none

abbrev size : String → ℕ
size t = if t == "leaf" then 1 else 0

structure_leaf : validate_structure lib "leaf" ≡ ok leaf_ucan
unfolding validate_structure
structure_leaf = refl

leaf_token :
    (token : String)
    → (token == "leaf") ≡ true
    → (u : Ucan) → validate_structure lib token ≡ ok u
    → leaf_ucan ≡ u
unfolding validate_structure
leaf_token token t u h = ground arith

root_token :
    (token : String)
    → (token == "leaf") ≡ false
    → (u : Ucan) → validate_structure lib token ≡ ok u
    → root_ucan ≡ u
unfolding validate_structure
root_token token t u h = ground arith

nested_leaf : nested_proof lib leaf_ucan ≡ ok "root"
unfolding nested_proof proof_fact get_ucan_cid contains
nested_leaf = refl

nested_root : (nested : String) → nested_proof lib root_ucan ≡ ok nested → ⊥
unfolding nested_proof proof_fact
nested_root nested h = ground arith

smaller : IsNested lib size
smaller token nested u s n = elim (Bool-cases (token == "leaf")) [
  | inl t ↦
      let same : "root" ≡ nested =
        ground (arith, nested_leaf, ap (nested_proof lib) (leaf_token token t u s)) in
      rw (t, ← same) (omega arith)
  | inr f ↦ absurd (nested_root nested (ap (nested_proof lib) (root_token token f u s) ∙ n))
]

validate_embedded_proof_chain_example :
    (r : Result (Unit {0})) × (validate_embedded_proof_chain lib "owner" "owner" "app" 2 "leaf" none
      ≡ some r)
    × ((r ≡ ok tt) ↔ Embedded lib "owner" "owner" "app" "leaf" none)
validate_embedded_proof_chain_example =
    validate_embedded_proof_chain_lem lib "owner" "owner" "app" size smaller 2 "leaf" none
      (omega arith)

validate_connect_token_example :
    (validate_connect_token lib 2 "leaf" "bob" "owner" "owner" "app" ≡ some (ok true)) ↔ (
      (u : Ucan) × (validate_structure lib "leaf" ≡ ok u)
      × MayConnect lib "leaf" "bob" "owner" "owner" "app" u)
validate_connect_token_example =
    validate_connect_token_lem lib size smaller 2 "leaf" "bob" "owner" "owner" "app" (omega arith)

update_run :
    validate_authority_for_update lib 2 "leaf" "bob" "owner" "n1" "app" resolve ≡ some (ok true)
unfolding validate_authority_for_update validate_structure validate_audience verify_did_key_match
    key_of_did validate_ucan_permission by_proofs try_proofs parent_of check_capability
    check_capabilities grants strip_star
update_run = refl

validate_authority_for_update-Chain_example :
    (u : Ucan) × (validate_structure lib "leaf" ≡ ok u)
    × (verify_did_key_match lib u.audience "bob" ≡ ok tt)
    × Chain lib "owner" resolve "app:resource:n1" "crud/update" u
validate_authority_for_update-Chain_example =
    validate_authority_for_update-Chain lib resolve 2 "leaf" "bob" "owner" "n1" "app" update_run

held_by_bob : verify_did_key_match lib leaf_ucan.audience "bob" ≡ ok tt
unfolding verify_did_key_match key_of_did
held_by_bob = refl

line : Line lib "owner" resolve "app:resource:n1" "crud/update" 1 leaf_ucan
unfolding verify_did_key_match key_of_did validate_structure check_capability check_capabilities
    grants strip_star
line =
    one_proof 0 leaf_ucan root_ucan "cid-root" refl refl ("root", refl, refl, refl) refl
      (issued root_ucan refl)

validate_authority_for_update-Line_example :
    validate_authority_for_update lib 2 "leaf" "bob" "owner" "n1" "app" resolve ≡ some (ok true)
validate_authority_for_update-Line_example =
    validate_authority_for_update-Line lib resolve 1 2 "leaf" "bob" "owner" "n1" "app" leaf_ucan
      structure_leaf held_by_bob line (omega arith)

permission_run :
    validate_ucan_permission lib "owner" resolve "app:resource:n1" "crud/update" 2 leaf_ucan
    ≡ some (ok tt)
unfolding validate_structure verify_did_key_match key_of_did validate_ucan_permission by_proofs
    try_proofs parent_of check_capability check_capabilities grants strip_star
permission_run = refl

validate_ucan_permission-Chain_example :
    Chain lib "owner" resolve "app:resource:n1" "crud/update" leaf_ucan
validate_ucan_permission-Chain_example =
    validate_ucan_permission-Chain lib "owner" resolve "app:resource:n1" "crud/update" 2 leaf_ucan
      permission_run

-- A store as the creation of a resource leaves it: the owner's token for the resource is issued to the
-- owner, and Ann's token, from which Bob's is made, lists it.
abbrev own_ucan : Ucan
own_ucan = record root_ucan { audience = "did:key:zO" }

abbrev ann_ucan : Ucan
ann_ucan = record root_ucan { proofs = some ("cid-own" ∷ []) }

abbrev store_lib : Library
store_lib = record lib {
  parse = λ t.
      if t == "leaf"
      then some leaf_ucan
      else (if t == "root" then some ann_ucan else (if t == "own" then some own_ucan else none));
}

abbrev store : String → Option String
store cid =
    if cid == "cid-root" then some "root" else (if cid == "cid-own" then some "own" else none)

-- The owner's token would lead to itself, if it listed itself.
own_parent : parent_of store_lib store own_ucan "cid-own" ≡ some own_ucan
unfolding parent_of validate_structure
own_parent = refl

abbrev rank : Ucan → ℕ
rank u = if u.issuer == "did:key:zA" then 2 else (if is_some u.proofs then 1 else 0)

ranked : IsRanked store_lib store rank
unfolding parent_of validate_structure
ranked u p cids cid o m h = elim (Bool-cases (cid == "cid-root")) [
  | inl t ↦ elim (Bool-cases ("did:key:zA" == u.issuer)) [
    | inr f ↦ absurd (ground arith)
    | inl e ↦
        let same : ann_ucan ≡ p = ground arith in
        let held : "did:key:zA" ≡ u.issuer = (eq_iff "did:key:zA" u.issuer).0 e in
        rw (← same, ← held) (omega arith)
  ]
  | inr f ↦ elim (Bool-cases (cid == "cid-own")) [
    | inr g ↦ absurd (ground arith)
    | inl t ↦ elim (Bool-cases ("did:key:zO" == u.issuer)) [
      | inr g ↦ absurd (ground arith)
      | inl e ↦
          let same : own_ucan ≡ p = ground arith in
          let held : "did:key:zO" ≡ u.issuer = (eq_iff "did:key:zO" u.issuer).0 e in
          rw (← same, ← held, o) (omega arith)
    ]
  ]
]

validate_ucan_permission-some_example :
    (r : Result (Unit {0})) × (validate_ucan_permission store_lib "owner" store "app:resource:n1"
        "crud/update" 3 leaf_ucan
      ≡ some r)
validate_ucan_permission-some_example =
    validate_ucan_permission-some store_lib "owner" store "app:resource:n1" "crud/update" rank
      ranked 3 leaf_ucan (omega arith)

-- Bob's token without any capability.
validate_ucan_permission_own_example :
    validate_ucan_permission lib "owner" resolve "app:resource:n1" "crud/update" 2
      (record leaf_ucan { capabilities = [] })
    ≡ validate_ucan_permission lib "owner" resolve "app:resource:n1" "crud/update" 2 leaf_ucan
validate_ucan_permission_own_example =
    validate_ucan_permission_own lib "owner" resolve "app:resource:n1" "crud/update" [] 2 leaf_ucan
