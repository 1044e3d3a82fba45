-- ===== src/Prelude/Texts.antt =====
-- Identifiers are texts that the program only compares. Sets of identifiers are lists.
use Prim.Native.String.{String}
use text.Mathlib.Text.{◌==◌}
use text.Mathlib.TextEquality.{eq_iff}
use mathlib.Core.Path.{◌≡◌, refl}
use mathlib.Core.Bool.{Bool, false, not, ◌&&◌, ◌||◌}
use mathlib.Core.List.{List, [], ◌∷◌}
use native.Mathlib.Omega.{arith}
use osvauld.Prelude.Tests.{if◌then◌else◌}
use osvauld.Prelude.Lists.{filter, push}

pub eq_comm : (s t : String) → (s == t) ≡ (t == s)
eq_comm s t = ground (arith, eq_iff s t, eq_iff t s)

-- `HashSet::contains`.
unfoldable pub contains : List String → String → Bool
contains [] a = false
contains (x ∷ xs) a = x == a || contains xs a

-- `iter().collect::<HashSet<_>>()`: each element once.
unfoldable pub to_set : List String → List String
to_set [] = []
to_set (x ∷ xs) = let rest = to_set xs in if contains rest x then rest else x ∷ rest

-- `&a - &b` and `&a & &b` of two sets.
unfoldable pub difference : List String → List String → List String
difference xs ys = filter (λ x. not (contains ys x)) xs

unfoldable pub intersection : List String → List String → List String
intersection xs ys = filter (λ x. contains ys x) xs

-- No element stands twice.
abbrev pub Distinct : List String → Type 0
Distinct [] = Unit
Distinct (x ∷ xs) = (contains xs x ≡ false) × Distinct xs

pub contains-to_set : (xs : List String) (a : String) → contains (to_set xs) a ≡ contains xs a
unfolding contains to_set
contains-to_set [] a = refl
contains-to_set (x ∷ xs) a = ground (arith, contains-to_set xs a, contains-to_set xs x, eq_iff x a)

pub to_set-Distinct : (xs : List String) → Distinct (to_set xs)
unfolding to_set
to_set-Distinct [] = tt
to_set-Distinct (x ∷ xs) = ground (arith, to_set-Distinct xs)

-- A filter keeps an element by the test on that element.
pub contains-filter :
    (p : String → Bool) (xs : List String) (a : String)
    → contains (filter p xs) a ≡ contains xs a && p a
unfolding contains
contains-filter p [] a = refl
contains-filter p (x ∷ xs) a = ground (arith, contains-filter p xs a, eq_iff x a)

pub contains-difference :
    (xs ys : List String) (a : String)
    → contains (difference xs ys) a ≡ contains xs a && not (contains ys a)
unfolding difference
contains-difference xs ys a = contains-filter (λ x. not (contains ys x)) xs a

pub contains-intersection :
    (xs ys : List String) (a : String)
    → contains (intersection xs ys) a ≡ contains xs a && contains ys a
unfolding intersection
contains-intersection xs ys a = contains-filter (λ x. contains ys x) xs a

pub contains-push :
    (xs : List String) (x a : String) → contains (push xs x) a ≡ contains xs a || x == a
unfolding contains
contains-push [] x a = ground arith
contains-push (y ∷ xs) x a = ground (arith, contains-push xs x a)

pub push-Distinct :
    (xs : List String) (x : String) → contains xs x ≡ false → Distinct xs → Distinct (push xs x)
unfolding contains
push-Distinct [] x h d = (refl, tt)
push-Distinct (y ∷ xs) x h (n, d) =
    (ground (arith, eq_comm x y, contains-push xs x y), push-Distinct xs x (ground arith) d)
