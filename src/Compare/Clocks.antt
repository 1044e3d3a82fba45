-- ===== src/Compare/Clocks.antt =====
-- `vector_clocks_need_update` of services/src/sync_service.rs: when two vector clocks are equal.
use osvauld.Prelude.{
  String, ◌==◌, eq_iff, Bool-cases, true, false, ◌||◌, Option-cases, some, List, [], ◌∷◌, is_some,
  ◌≡◌, refl, sym, ap, ◌∙◌, ◌↔◌, inl, inr, arith, eq_refl,
}
use osvauld.VectorClock.{ResourceVectorClock, has_device, find_device}
use osvauld.VectorClock.Search.{IsUnique, clock_of, has_device-find, find_device-cons}
use osvauld.Differences.{lacks_device, has_mismatch, vector_clocks_need_update}

has_device-cons :
    (d : String) (c : ResourceVectorClock) (cs : List ResourceVectorClock)
    → has_device d (c ∷ cs) ≡ ((c.device_id == d) || has_device d cs)
unfolding has_device
has_device-cons d c cs = refl

lacks_device-has :
    (cs os : List ResourceVectorClock)
    → lacks_device cs os ≡ false
    → (d : String) → has_device d cs ≡ true
    → has_device d os ≡ true
unfolding lacks_device
lacks_device-has [] os h d m = absurd (unfold has_device in ground arith)
lacks_device-has (c ∷ cs) os h d m =
    let here : c.device_id == d ≡ true → has_device c.device_id os ≡ has_device d os =
      λ t. ap (λ y. has_device y os) ((eq_iff c.device_id d).0 t) in
    elim (Bool-cases (c.device_id == d)) [
      | inl t ↦ ground (arith, here t)
      | inr f ↦ lacks_device-has cs os (ground arith) d (ground (arith, has_device-cons d c cs))
    ]

has-lacks_device :
    (cs os : List ResourceVectorClock)
    → ((d : String) → has_device d cs ≡ true → has_device d os ≡ true)
    → lacks_device cs os ≡ false
unfolding lacks_device
has-lacks_device [] os h = refl
has-lacks_device (c ∷ cs) os h =
    let rest = has-lacks_device cs os (λ d m. h d (ground (arith, has_device-cons d c cs))) in
    ground (arith, h c.device_id, has_device-cons c.device_id c cs, eq_refl c.device_id)

has_mismatch-equal :
    (cs os : List ResourceVectorClock)
    → has_mismatch cs os ≡ false
    → (d : String) (c o : ResourceVectorClock) → find_device d cs ≡ some c
    → find_device d os ≡ some o
    → c.clock_value ≡ o.clock_value
unfolding has_mismatch
has_mismatch-equal [] os h d c o e f = absurd (unfold find_device in ground arith)
has_mismatch-equal (x ∷ xs) os h d c o e f = elim (Bool-cases (x.device_id == d)) [
  | inl t ↦
      let same : find_device x.device_id os ≡ some o =
        ap (λ y. find_device y os) ((eq_iff x.device_id d).0 t) ∙ f in
      let first : x ≡ c = ground (arith, find_device-cons d x xs) in
      let values : x.clock_value ≡ o.clock_value = ground arith in
      ap (λ y. y.clock_value) (sym first) ∙ values
  | inr t ↦
      has_mismatch-equal xs os (ground arith) d c o (ground (arith, find_device-cons d x xs)) f
]

find_device-later :
    (x : ResourceVectorClock) (xs : List ResourceVectorClock) (d : String) (c : ResourceVectorClock)
    → has_device x.device_id xs ≡ false
    → find_device d xs ≡ some c
    → find_device d (x ∷ xs) ≡ some c
find_device-later x xs d c n e = elim (Bool-cases (x.device_id == d)) [
  | inl t ↦
      let moved : has_device x.device_id xs ≡ has_device d xs =
        ap (λ y. has_device y xs) ((eq_iff x.device_id d).0 t) in
      absurd (ground (arith, moved, has_device-find d xs))
  | inr f ↦ ground (arith, find_device-cons d x xs)
]

equal-has_mismatch :
    (cs os : List ResourceVectorClock)
    → IsUnique cs
    → ((d : String) (c o : ResourceVectorClock)
        → find_device d cs ≡ some c
        → find_device d os ≡ some o
        → c.clock_value ≡ o.clock_value)
    → has_mismatch cs os ≡ false
unfolding has_mismatch
equal-has_mismatch [] os u h = refl
equal-has_mismatch (x ∷ xs) os u h =
    let rest =
      equal-has_mismatch xs os u.1 (λ d c o e f. h d c o (find_device-later x xs d c u.0 e) f) in
    let first : find_device x.device_id (x ∷ xs) ≡ some x =
      ground (arith, find_device-cons x.device_id x xs, eq_refl x.device_id) in
    elim (Option-cases (find_device x.device_id os)) [
      | inl n ↦ ground arith
      | inr (o, e) ↦ ground (arith, h x.device_id x o first e)
    ]

find_device-is_some :
    (d : String) (es : List ResourceVectorClock) → has_device d es ≡ is_some (clock_of es d)
find_device-is_some d es = ground (arith, has_device-find d es)

needs_parts :
    (ls rs : List ResourceVectorClock)
    → (vector_clocks_need_update ls rs ≡ false)
      ↔ ((lacks_device ls rs ≡ false) × (lacks_device rs ls ≡ false) × (has_mismatch ls rs ≡ false))
unfolding vector_clocks_need_update
needs_parts ls rs = (λ h. (ground arith, ground arith, ground arith), λ (a, b, c). ground arith)

-- Where the local clock has one entry for a device, the comparison asks for no update exactly when
-- every device has the same value, or no entry, on both sides.
pub vector_clocks_need_update_lem :
    (ls rs : List ResourceVectorClock)
    → IsUnique ls
    → (vector_clocks_need_update ls rs ≡ false) ↔ ((d : String) → clock_of ls d ≡ clock_of rs d)
vector_clocks_need_update_lem ls rs u = (sound, complete)
  where
    sound : vector_clocks_need_update ls rs ≡ false → (d : String) → clock_of ls d ≡ clock_of rs d
    sound h d =
        let (a, b, c) = (needs_parts ls rs).0 h in
        let there = lacks_device-has ls rs a d in
        let back = lacks_device-has rs ls b d in
        elim (Option-cases (find_device d ls)) [
          | inl n ↦ elim (Option-cases (find_device d rs)) [
            | inl m ↦ ground arith
            | inr (o, f) ↦ absurd (ground (arith, back, has_device-find d ls, has_device-find d rs))
          ]
          | inr (x, e) ↦ elim (Option-cases (find_device d rs)) [
            | inl m ↦ absurd (ground (arith, there, has_device-find d ls, has_device-find d rs))
            | inr (o, f) ↦ ground (arith, has_mismatch-equal ls rs c d x o e f)
          ]
        ]

    complete :
        ((d : String) → clock_of ls d ≡ clock_of rs d) → vector_clocks_need_update ls rs ≡ false
    complete h = (needs_parts ls rs).1 (
      has-lacks_device ls rs
          (λ d m. ground (arith, h d, find_device-is_some d ls, find_device-is_some d rs)),
      has-lacks_device rs ls
          (λ d m. ground (arith, h d, find_device-is_some d ls, find_device-is_some d rs)),
      equal-has_mismatch ls rs u (λ d c o e f. ground (arith, h d)),
    )
