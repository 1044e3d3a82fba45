-- ===== src/Ucan/Capabilities.antt =====
-- `check_capability` of crypto_utils/src/ucan_utils.rs: what a list of capabilities grants.
use Prim.Native.String
use Prim.Native.String.append
use Prim.Native.Char.{Char, code}
use text.Mathlib.Text.{starts_with}
use text.Mathlib.TextBridge.{IsPrefix}
use text.Mathlib.TextLemmas.{cons-append, nil-append}
use text.Mathlib.TextEquality.{starts_with_iff, Char-path}
use osvauld.Prelude.{
  String, eq_iff, Bool-cases, true, Option-cases, some, List, [], ◌∷◌, eqb, ◌≡◌, refl, sym, ap, ◌∙◌,
  ◌↔◌, ◌⊎◌, inl, inr, arith,
}
use osvauld.Token.{
  Capability, Ucan, ok, err, capability_not_found, strip_star, grants, check_capabilities,
  check_capability,
}

-- A resource pattern covers a resource: it is that resource, or what stands before its final star is
-- a prefix of it.
abbrev pub Covers : String → String → Type 0
Covers pattern_ resource =
    (pattern_ ≡ resource)
    ⊎ ((prefix : String) × (pattern_ ≡ String.◌++◌ prefix "*") × IsPrefix prefix resource)

abbrev pub Any : (Capability → Type 0) → List Capability → Type 0
Any P [] = ⊥
Any P (c ∷ cs) = P c ⊎ Any P cs

strip_star-cons :
    (c d : Char) (s p : String)
    → strip_star (String.◌∷◌ d s) ≡ some p
    → strip_star (String.◌∷◌ c (String.◌∷◌ d s)) ≡ some (String.◌∷◌ c p)
unfolding strip_star
strip_star-cons c d s p h = ground arith

strip_star-append : (p : String) → strip_star (String.◌++◌ p "*") ≡ some p
strip_star-append String.[] = unfold strip_star in refl
strip_star-append (String.◌∷◌ c String.[]) =
    ap strip_star (cons-append c "" "*" ∙ ap (String.◌∷◌ c) (nil-append "*"))
    ∙ unfold strip_star in refl
strip_star-append (String.◌∷◌ c (String.◌∷◌ d s)) =
    ap strip_star (cons-append c (String.◌∷◌ d s) "*" ∙ ap (String.◌∷◌ c) (cons-append d s "*"))
    ∙ strip_star-cons c d (String.◌++◌ s "*") (String.◌∷◌ d s)
        (sym (ap strip_star (cons-append d s "*")) ∙ strip_star-append (String.◌∷◌ d s))

star_char : (c : Char) → code c ≡ b'*' → String.◌∷◌ c String.[] ≡ "*"
star_char c e = ap (λ x. String.◌∷◌ x String.[]) (Char-path c "*" e)

strip_star_sound : (s p : String) → strip_star s ≡ some p → s ≡ String.◌++◌ p "*"
unfolding strip_star
strip_star_sound String.[] p e = cc
strip_star_sound (String.◌∷◌ c String.[]) p e = elim (Bool-cases (eqb (code c) b'*')) [
  | inl t ↦
      let q : p ≡ String.[] = ground arith in
      star_char c (ground arith) ∙ rw q (sym (nil-append "*"))
  | inr f ↦ absurd (ground arith)
]
strip_star_sound (String.◌∷◌ c (String.◌∷◌ d s)) p e =
    elim (Option-cases (strip_star (String.◌∷◌ d s))) [
      | inl n ↦ absurd (ground arith)
      | inr (q, f) ↦
          let r : p ≡ String.◌∷◌ c q = ground arith in
          ap (String.◌∷◌ c) (strip_star_sound (String.◌∷◌ d s) q f)
          ∙ rw r (sym (cons-append c q "*"))
    ]

-- One capability grants a request exactly when it has the ability and covers the resource.
grants-Covers :
    (c : Capability) (r a : String)
    → (grants c r a ≡ true) ↔ ((c.ability ≡ a) × Covers c.resource r)
unfolding grants
grants-Covers c r a = (sound, complete)
  where
    sound : grants c r a ≡ true → (c.ability ≡ a) × Covers c.resource r
    sound h = (
      ground (arith, eq_iff c.ability a),
      elim (Option-cases (strip_star c.resource)) [
        | inl n ↦ inl (ground (arith, eq_iff c.resource r))
        | inr (p, e) ↦
            inr (p, strip_star_sound c.resource p e, (starts_with_iff r p).0 (ground arith))
      ],
    )

    complete : (c.ability ≡ a) × Covers c.resource r → grants c r a ≡ true
    complete (e, inl same) = elim (Option-cases (strip_star c.resource)) [
      | inl n ↦ ground (arith, eq_iff c.ability a, eq_iff c.resource r)
      | inr (p, f) ↦
          let start : starts_with r p ≡ true =
            (starts_with_iff r p).1 ("*", sym (strip_star_sound c.resource p f) ∙ same) in
          ground (arith, eq_iff c.ability a)
    ]
    complete (e, inr (p, f, below)) =
        let star : strip_star c.resource ≡ some p = rw f (strip_star-append p) in
        let start : starts_with r p ≡ true = (starts_with_iff r p).1 below in
        ground (arith, eq_iff c.ability a)

check_capabilities-Any :
    (cs : List Capability) (r a : String)
    → (check_capabilities cs r a ≡ ok tt) ↔ Any (λ c. (c.ability ≡ a) × Covers c.resource r) cs
unfolding check_capabilities
check_capabilities-Any [] r a = (λ h. cc, λ h. absurd h)
check_capabilities-Any (c ∷ cs) r a = elim (Bool-cases (grants c r a)) [
  | inl t ↦ rw t (λ _. inl ((grants-Covers c r a).0 t), λ _. refl)
  | inr f ↦ rw f (
    λ h. inr ((check_capabilities-Any cs r a).0 h),
    λ h. elim h [
      | inl g ↦ absurd (ground (arith, f, (grants-Covers c r a).1 g))
      | inr t ↦ (check_capabilities-Any cs r a).1 t
    ],
  )
]

check_capabilities-error :
    (cs : List Capability) (r a : String)
    → (check_capabilities cs r a ≡ ok tt) ⊎ (check_capabilities cs r a ≡ err capability_not_found)
unfolding check_capabilities
check_capabilities-error [] r a = inr refl
check_capabilities-error (c ∷ cs) r a = ground (arith, check_capabilities-error cs r a)

-- A token passes the check exactly when one of its capabilities has the ability and covers the
-- resource; otherwise the error is `CapabilityNotFound`.
pub check_capability-Covers :
    (u : Ucan) (r a : String)
    → ((check_capability u r a ≡ ok tt)
        ↔ Any (λ c. (c.ability ≡ a) × Covers c.resource r) u.capabilities)
      × ((check_capability u r a ≡ ok tt) ⊎ (check_capability u r a ≡ err capability_not_found))
unfolding check_capability
check_capability-Covers u r a =
    (check_capabilities-Any u.capabilities r a, check_capabilities-error u.capabilities r a)
