-- ===== src/Prelude/Lists.antt =====
-- Lists searched and filtered by Boolean tests, under the library's names.
use mathlib.Core.Path.{◌≡◌, refl}
use mathlib.Core.Bool.{Bool, true, false, ◌&&◌, ◌||◌}
use mathlib.Core.Option.{Option, none, some}
use mathlib.Core.List.{List, [], ◌∷◌, ◌++◌}
use osvauld.Prelude.Tests.{if◌then◌else◌}

module _ {ℓ} {A : Type ℓ} where
  abbrev pub filter : (A → Bool) → List A → List A
  filter p [] = []
  filter p (x ∷ xs) = let rest = filter p xs in if p x then x ∷ rest else rest

  abbrev pub any : (A → Bool) → List A → Bool
  any p [] = false
  any p (x ∷ xs) = p x || any p xs

  abbrev pub all : (A → Bool) → List A → Bool
  all p [] = true
  all p (x ∷ xs) = p x && all p xs

  -- `iter().find(p)`
  abbrev pub find : (A → Bool) → List A → Option A
  find p [] = none
  find p (x ∷ xs) = let rest = find p xs in if p x then some x else rest

  abbrev pub is_empty : List A → Bool
  is_empty [] = true
  is_empty (x ∷ xs) = false

  -- `vec.push(x)`
  abbrev pub push : List A → A → List A
  push xs x = xs ++ (x ∷ [])

  abbrev pub is_some : Option A → Bool
  is_some none = false
  is_some (some a) = true

  abbrev pub All {κ} : (A → Type κ) → List A → Type κ
  All P [] = Unit
  All P (x ∷ xs) = P x × All P xs

abbrev pub and_then {ℓ κ} : {A : Type ℓ} {B : Type κ} → Option A → (A → Option B) → Option B
and_then none f = none
and_then (some a) f = f a

abbrev pub or_else {ℓ} : {A : Type ℓ} → Option A → Option A → Option A
or_else none b = b
or_else (some a) b = some a

abbrev pub cons_some {ℓ} : {B : Type ℓ} → Option B → List B → List B
cons_some none ys = ys
cons_some (some y) ys = y ∷ ys

abbrev pub filter_map {ℓ κ} : {A : Type ℓ} {B : Type κ} → (A → Option B) → List A → List B
filter_map f [] = []
filter_map f (x ∷ xs) = cons_some (f x) (filter_map f xs)

All-cons_some {κ ν} :
    {B : Type κ} (Q : B → Type ν) (o : Option B) (ys : List B)
    → ((y : B) → o ≡ some y → Q y)
    → All Q ys
    → All Q (cons_some o ys)
All-cons_some Q none ys h a = a
All-cons_some Q (some y) ys h a = (h y refl, a)

pub All-filter_map {ℓ κ μ ν} :
    {A : Type ℓ} {B : Type κ} (P : A → Type μ) (Q : B → Type ν) (f : A → Option B)
    → ((x : A) (y : B) → P x → f x ≡ some y → Q y)
    → (xs : List A) → All P xs
    → All Q (filter_map f xs)
All-filter_map P Q f h [] a = tt
All-filter_map P Q f h (x ∷ xs) a =
    All-cons_some Q (f x) (filter_map f xs) (λ y. h x y a.0) (All-filter_map P Q f h xs a.1)
