-- ===== src/Common/Results.antt =====
-- Results of fallible code: a value or an error.
use mathlib.Core.Path.{◌≡◌, refl}
use mathlib.Core.Bool.{Bool, true, false}
use mathlib.Core.Option.{Option, none, some}

pub data Result {ℓ} (E A : Type ℓ) : Type ℓ where
  ok : A → Result E A
  err : E → Result E A

module _ {ℓ} {E A B : Type ℓ} where
  infixl 5 ◌>>=◌ ◌>>◌
  abbrev pub ◌>>=◌ : Result E A → (A → Result E B) → Result E B
  err problem >>= next = err problem
  ok value >>= next = next value

  abbrev pub ◌>>◌ : Result E A → Result E B → Result E B
  first >> second = first >>= λ _. second

  pub >>=-eq-ok :
      {last : B} (first : Result E A) (next : A → Result E B)
      → (first >>= next) ≡ ok last
      → (value : A) × (first ≡ ok value) × (next value ≡ ok last)
  >>=-eq-ok (err problem) next ended = cc
  >>=-eq-ok (ok value) next ended = (value, refl, ended)

module _ {E : Type 0} where
  -- `if !b { return e }`
  abbrev pub check : Bool → E → Result E (Unit {0})
  check false problem = err problem
  check true problem = ok tt

  abbrev pub or_err : {A : Type 0} → Option A → E → Result E A
  or_err none problem = err problem
  or_err (some value) problem = ok value
