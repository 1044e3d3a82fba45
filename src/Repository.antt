-- ===== src/Repository.antt =====
-- core/src/repositories/mod.rs: what a repository call returns. The texts of the messages are left
-- out. A call that fails leaves the tables as they were: it is one statement or one transaction.
use osvauld.Prelude.{arith, Option, none, some, ◌≡◌, refl, ◌⊎◌, inl, inr}

pub data RepositoryError : Type 0 where
  database_error not_found : RepositoryError

pub data Result {ℓ} (A : Type ℓ) : Type ℓ where
  ok : A → Result A
  err : RepositoryError → Result A

infixl 5 ◌>>=◌
abbrev pub ◌>>=◌ {ℓ κ} : {A : Type ℓ} {B : Type κ} → Result A → (A → Result B) → Result B
ok a >>= f = f a
err e >>= f = err e

-- `.first(conn)`, with `NotFound` where no row fits.
abbrev pub first_or_not_found {ℓ} : {A : Type ℓ} → Option A → Result A
first_or_not_found none = err not_found
first_or_not_found (some a) = ok a

pub Result-cases {ℓ} :
    {A : Type ℓ} (r : Result A) → ((a : A) × (r ≡ ok a)) ⊎ ((e : RepositoryError) × (r ≡ err e))
Result-cases (ok a) = inl (a, refl)
Result-cases (err e) = inr (e, refl)

-- The two halves of a sequence that succeeds.
pub >>=-ok {ℓ κ} :
    {A : Type ℓ} {B : Type κ} (m : Result A) (f : A → Result B) (b : B)
    → (m >>= f) ≡ ok b
    → (a : A) × (m ≡ ok a) × (f a ≡ ok b)
>>=-ok (ok a) f b h = (a, refl, h)
>>=-ok (err e) f b h = absurd (ground arith)

pub ok_injective {ℓ} : {A : Type ℓ} {a b : A} → ok a ≡ ok b → a ≡ b
ok_injective h = cc
