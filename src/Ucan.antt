-- ===== src/Ucan.antt =====
-- The validation of capability tokens: crypto_utils/src/ucan_utils.rs and
-- crypto_utils/src/ucan_operations.rs. Parsing, signatures, the content id of a token and the two
-- decoders are library calls, the fields of `Token.Library`.
-- A chain of proofs is followed on fuel, and `none` means that the fuel ran out.
pub mod Capabilities
pub mod Parents
pub mod Permission
pub mod Granted
pub mod Embedded
pub mod Connect
pub mod Authority
use Prim.Native.String
use text.Mathlib.Text.{starts_with}
use osvauld.Prelude.{
  ℕ, zero, suc, String, ◌==◌, Bool, Option, none, some, List, [], ◌∷◌, if◌then◌else◌,
}
use osvauld.Token.{
  Library, Result, Ucan, as_audience, attempt, bytes_eq, check_capability, connect_resource,
  decoding_error, delegation_not_permitted, did_error, drop_two, err, find_fact, format_error,
  guard, invalid_issuer, is_ok, is_one_time_connect_token, lists_cid, matches_expected, ok, ok_or,
  parse_error, proof_chain_invalid, proof_required, public_key_mismatch, resource_uri,
  ucan_cid_convertion_failed, validation_error, with_true, ◌>>=◌,
}

module _ (lib : Library) where
  unfoldable pub key_of_did : String → Result (List ℕ)
  key_of_did did =
      if starts_with did "did:key:z"
      then (ok_or (lib.bs58_decode (String.slice did 9 (String.len did))) did_error >>= drop_two)
      else err format_error

  unfoldable pub verify_did_key_match : String → String → Result (Unit {0})
  verify_did_key_match did key_b64 = key_of_did did >>= λ key_from_did.
      ok_or (lib.base64_decode key_b64) decoding_error >>= λ key_from_b64.
      if bytes_eq key_from_did key_from_b64 then ok tt else err public_key_mismatch

  unfoldable pub validate_structure : String → Result Ucan
  validate_structure token = ok_or (lib.parse token) parse_error >>= λ ucan.
      if lib.validate ucan then ok ucan else err validation_error

  unfoldable pub get_ucan_cid : String → Result String
  get_ucan_cid token = ok_or (lib.parse token) parse_error >>= λ ucan.
      ok_or (lib.to_cid ucan) ucan_cid_convertion_failed

  unfoldable pub validate_audience : Ucan → String → Result (Unit {0})
  validate_audience ucan presenter_ucan_pub =
      as_audience (verify_did_key_match ucan.audience presenter_ucan_pub)

  -- The body of the loop for one proof: `none` goes on to the next proof.
  unfoldable pub parent_of : (String → Option String) → Ucan → String → Option Ucan
  parent_of resolve ucan cid = elim (resolve cid) [
    | none ↦ none
    | some token ↦ elim (validate_structure token) [
      | err _ ↦ none
      | ok parent ↦ if parent.audience == ucan.issuer then some parent else none
    ]
  ]

  module _ (verifier_ucan_pub : String) (resolve : String → Option String)
      (required_resource required_ability : String) where
    -- The loop over the proofs, around the recursive call `validate`.
    unfoldable pub try_proofs :
        (Ucan → Option (Result (Unit {0}))) → Ucan → List String → Option (Result (Unit {0}))
    try_proofs validate ucan [] = some (err proof_chain_invalid)
    try_proofs validate ucan (cid ∷ cids) =
        let rest = try_proofs validate ucan cids in
        elim (parent_of resolve ucan cid) [
          | none ↦ rest
          | some parent ↦ elim (check_capability parent required_resource required_ability) [
            | err _ ↦ some (err delegation_not_permitted)
            | ok _ ↦ elim (validate parent) [
              | none ↦ none
              | some (ok _) ↦ some (ok tt)
              | some (err _) ↦ rest
            ]
          ]
        ]

    -- The step for the proofs of a token that the verifier did not issue.
    unfoldable pub by_proofs :
        (Ucan → Option (Result (Unit {0})))
        → Ucan
        → Option (List String)
        → Option (Result (Unit {0}))
    by_proofs validate ucan none = some (err proof_required)
    by_proofs validate ucan (some []) = some (err proof_required)
    by_proofs validate ucan (some (cid ∷ cids)) = try_proofs validate ucan (cid ∷ cids)

    unfoldable pub validate_ucan_permission : ℕ → Ucan → Option (Result (Unit {0}))
    validate_ucan_permission zero ucan = none
    validate_ucan_permission (suc fuel) ucan =
        let delegated = by_proofs (validate_ucan_permission fuel) ucan ucan.proofs in
        elim (verify_did_key_match ucan.issuer verifier_ucan_pub) [
          | ok _ ↦ some (ok tt)
          | err e ↦ elim e [ public_key_mismatch ↦ delegated | other ↦ some (err other) ]
        ]

  -- `facts.get("proof").as_str()`
  unfoldable pub proof_fact : Ucan → Option String
  proof_fact ucan = elim ucan.facts [ none ↦ none | some facts ↦ find_fact facts ]

  -- The link from a token to the one that is embedded in it.
  unfoldable pub nested_proof : Ucan → Result String
  unfolding proof_fact
  nested_proof ucan = ok_or (proof_fact ucan) proof_chain_invalid >>= λ nested.
      get_ucan_cid nested >>= λ cid.
      if lists_cid ucan.proofs cid then ok nested else err proof_chain_invalid

  module _ (target_user_id target_user_ucan_pub domain : String) where
    -- The checks of one token of the chain, before it is compared with the root.
    unfoldable pub check_link : String → Option String → Result Ucan
    check_link token expected_issuer_did = validate_structure token >>= λ proof_ucan.
        guard (matches_expected expected_issuer_did proof_ucan.audience) invalid_issuer >>= λ _.
        check_capability proof_ucan (connect_resource domain target_user_id) "use" >>= λ _.
        ok proof_ucan

    unfoldable pub validate_embedded_proof_chain :
        ℕ → String → Option String → Option (Result (Unit {0}))
    validate_embedded_proof_chain zero token expected_issuer_did = none
    validate_embedded_proof_chain (suc fuel) token expected_issuer_did =
        attempt (check_link token expected_issuer_did) λ proof_ucan.
          if is_ok (verify_did_key_match proof_ucan.issuer target_user_ucan_pub)
          then some (ok tt)
          else attempt (nested_proof proof_ucan)
              λ nested. validate_embedded_proof_chain fuel nested (some proof_ucan.issuer)

  -- crypto_utils/src/ucan_operations.rs
  unfoldable pub validate_connect_token :
      ℕ → String → String → String → String → String → Option (Result Bool)
  validate_connect_token fuel token presenter_ucan_pub verifier_ucan_pub verifier_user_id domain =
      attempt (validate_structure token) λ ucan. with_true (
        if is_one_time_connect_token ucan domain
        then some (
            verify_did_key_match ucan.issuer verifier_ucan_pub >>= λ _.
            check_capability ucan (connect_resource domain verifier_user_id) "use")
        else attempt (validate_audience ucan presenter_ucan_pub) λ _.
          validate_embedded_proof_chain verifier_user_id verifier_ucan_pub domain fuel token none)

  unfoldable pub validate_authority_for_update :
      ℕ
      → String
      → String
      → String
      → String
      → String
      → (String → Option String)
      → Option (Result Bool)
  validate_authority_for_update fuel token peer_ucan_pub root_ucan_pub resource_id domain resolve =
      attempt (validate_structure token) λ ucan. attempt (validate_audience ucan peer_ucan_pub) λ _.
        with_true (
          validate_ucan_permission root_ucan_pub resolve (resource_uri domain resource_id)
            "crud/update" fuel ucan)
