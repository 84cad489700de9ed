-- ===== src/Base/Result.antt =====
-- Errors as values, and the monad of an operation on a state that may fail and keeps its effects.
use mathlib.Core.Bool.{Bool, true, false}
use mathlib.Core.Path.{◌≡◌, refl}
use mathlib.Core.Logic.{◌⊎◌, inl, inr}
use Prim.Native.String.{String}
use text.Mathlib.Text.{◌==◌ as str_eq}

-- An error by what the callers distinguish: the text of `errors.New`, a missing record of the
-- database layer, a failure of the database driver, and an error with a prefix by `%w`.
pub data Error : Type 0 where
  failure : String → Error
  not_found : String → Error
  driver_failure : String → Error
  wrapped : String → Error → Error

-- `errors.Is` against a missing record of this name.
abbrev pub is_not_found : String → Error → Bool
is_not_found entity (failure s) = false
is_not_found entity (not_found s) = str_eq s entity
is_not_found entity (driver_failure s) = false
is_not_found entity (wrapped s e) = is_not_found entity e

pub data Result {ℓ} (A : Type ℓ) : Type ℓ where
  ok : A → Result A
  err : Error → Result A

abbrev pub is_ok {ℓ} : {A : Type ℓ} → Result A → Bool
is_ok (ok a) = true
is_ok (err e) = false

pub Result-cases {ℓ} :
    {A : Type ℓ} (r : Result A) → ((a : A) × (r ≡ ok a)) ⊎ ((e : Error) × (r ≡ err e))
Result-cases (ok a) = inl (a, refl)
Result-cases (err e) = inr (e, refl)

abbrev pub M : Type 0 → Type 0 → Type 0
M S A = S → Result A × S

module _ {S : Type 0} where
  infixl 5 ◌>>=◌ ◌>>◌
  abbrev pub ◌>>=◌ : {A B : Type 0} → M S A → (A → M S B) → M S B
  ◌>>=◌ m f s = let (r, s') = m s in elim r [ ok a ↦ f a s' | err e ↦ (err e, s') ]

  abbrev pub ◌>>◌ : {B : Type 0} → M S (Unit {0}) → M S B → M S B
  m >> k = m >>= λ _. k
