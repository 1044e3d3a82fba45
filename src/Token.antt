-- ===== src/Token.antt =====
-- A capability token, the errors of crypto_utils/src/ucan_utils.rs, and the tests on capabilities, facts
-- and keys that its functions make. Parsing, signatures, the content id of a token and the two decoders
-- are library calls, the fields of `Library`; a `Ucan` is what its accessors return.
use Prim.Native.String
use Prim.Native.Char.{code}
use text.Mathlib.Text.{starts_with}
use osvauld.Prelude.{
  ℕ, String, ◌==◌, Bool, true, false, ◌&&◌, Option, none, some, List, [], ◌∷◌, if◌then◌else◌, eqb,
  any, contains,
}

pub record Capability : Type 0 where
  pub resource : String
  pub ability : String

-- A fact is a name and, if its JSON value is a text, that text.
pub record Ucan : Type 0 where
  pub issuer : String
  pub audience : String
  pub capabilities : List Capability
  pub proofs : Option (List String)
  pub facts : Option (List (String × Option String))

pub data UcanError : Type 0 where
  decoding_error format_error did_error parse_error validation_error : UcanError
  invalid_audience public_key_mismatch capability_not_found proof_required : UcanError
  proof_chain_invalid ucan_cid_convertion_failed delegation_not_permitted invalid_issuer : UcanError

pub data Result {ℓ} (A : Type ℓ) : Type ℓ where
  ok : A → Result A
  err : UcanError → Result A

infixl 5 ◌>>=◌
abbrev pub ◌>>=◌ {ℓ κ} : {A : Type ℓ} {B : Type κ} → Result A → (A → Result B) → Result B
ok a >>= f = f a
err e >>= f = err e

abbrev pub guard : Bool → UcanError → Result (Unit {0})
guard true e = ok tt
guard false e = err e

abbrev pub ok_or {ℓ} : {A : Type ℓ} → Option A → UcanError → Result A
ok_or none e = err e
ok_or (some a) e = ok a

-- `?` in a function that may also run out of fuel.
abbrev pub attempt {ℓ κ} :
    {A : Type ℓ} {B : Type κ} → Result A → (A → Option (Result B)) → Option (Result B)
attempt (ok a) f = f a
attempt (err e) f = some (err e)

abbrev pub is_mismatch : UcanError → Bool
is_mismatch public_key_mismatch = true
is_mismatch _ = false

abbrev pub is_ok {ℓ} : {A : Type ℓ} → Result A → Bool
is_ok (ok a) = true
is_ok (err e) = false

-- `validate` is the check of the signature and of the time window, at the time of the call.
pub record Library : Type 0 where
  pub parse : String → Option Ucan
  pub validate : Ucan → Bool
  pub to_cid : Ucan → Option String
  pub bs58_decode : String → Option (List ℕ)
  pub base64_decode : String → Option (List ℕ)

-- `if resource.ends_with('*') { let prefix = &resource[..resource.len() - 1]; … }`
unfoldable pub strip_star : String → Option String
strip_star String.[] = none
strip_star (String.◌∷◌ c String.[]) = if eqb (code c) b'*' then some String.[] else none
strip_star (String.◌∷◌ c (String.◌∷◌ d s)) = elim (strip_star (String.◌∷◌ d s)) [
  | none ↦ none
  | some p ↦ some (String.◌∷◌ c p)
]

-- What one capability grants, and the loop over all.
unfoldable pub grants : Capability → String → String → Bool
grants capability required_resource required_ability =
    if capability.ability == required_ability
    then elim (strip_star capability.resource) [
      | some prefix ↦ starts_with required_resource prefix
      | none ↦ capability.resource == required_resource
    ]
    else false

unfoldable pub check_capabilities : List Capability → String → String → Result (Unit {0})
check_capabilities [] required_resource required_ability = err capability_not_found
check_capabilities (c ∷ cs) required_resource required_ability =
    let rest = check_capabilities cs required_resource required_ability in
    if grants c required_resource required_ability then ok tt else rest

unfoldable pub check_capability : Ucan → String → String → Result (Unit {0})
check_capability ucan = check_capabilities ucan.capabilities

abbrev pub connect_resource : String → String → String
connect_resource domain user_id = String.◌++◌ domain (String.◌++◌ ":user-connect:" user_id)

abbrev pub resource_uri : String → String → String
resource_uri domain resource_id = String.◌++◌ domain (String.◌++◌ ":resource:" resource_id)

abbrev pub find_fact : List (String × Option String) → Option String
find_fact [] = none
find_fact ((name, value) ∷ facts) = if name == "proof" then value else find_fact facts

unfoldable pub is_one_time_connect_token : Ucan → String → Bool
is_one_time_connect_token ucan domain =
    let required_prefix = String.◌++◌ domain ":user-connect" in
    ucan.audience == "*"
    && any (λ cap. starts_with cap.resource required_prefix && cap.ability == "use")
        ucan.capabilities

abbrev pub bytes_eq : List ℕ → List ℕ → Bool
bytes_eq [] [] = true
bytes_eq (x ∷ xs) (y ∷ ys) = eqb x y && bytes_eq xs ys
bytes_eq _ _ = false

-- `if decoded.len() <= 2 { error }`, then `decoded[2..]`.
abbrev pub drop_two : List ℕ → Result (List ℕ)
drop_two (a ∷ b ∷ c ∷ rest) = ok (c ∷ rest)
drop_two _ = err format_error

-- A mismatch of the keys is reported as a wrong audience.
abbrev pub as_audience : Result (Unit {0}) → Result (Unit {0})
as_audience (ok _) = ok tt
as_audience (err e) = if is_mismatch e then err invalid_audience else err e

abbrev pub matches_expected : Option String → String → Bool
matches_expected none audience = true
matches_expected (some did) audience = audience == did

abbrev pub lists_cid : Option (List String) → String → Bool
lists_cid none cid = true
lists_cid (some cids) cid = contains cids cid

abbrev pub with_true : Option (Result (Unit {0})) → Option (Result Bool)
with_true none = none
with_true (some (ok _)) = some (ok true)
with_true (some (err e)) = some (err e)
