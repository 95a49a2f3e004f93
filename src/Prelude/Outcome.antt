-- ===== src/Prelude/Outcome.antt =====
-- Python code that returns or raises: `err` carries the exception. An operation on stored state
-- keeps what it wrote before a raise, so the state comes back beside the error too.
use mathlib.Core.Path.{◌≡◌, refl}
use mathlib.Core.Logic.{◌⊎◌, inl, inr}
use mathlib.Core.Bool.{Bool, true, false}

pub data Result (E A : Type 0) : Type 0 where
  err : E → Result E A
  ok : A → Result E A

-- `if not test: raise exception`
abbrev pub require : {E : Type 0} → Bool → E → Result E (Unit {0})
require false exception = err exception
require true exception = ok tt

module _ {E A B : Type 0} where
  infixl 5 ◌>>◌ ◌>>=◌
  abbrev pub ◌>>=◌ : Result E A → (A → Result E B) → Result E B
  err exception >>= rest = err exception
  ok value >>= rest = rest value

  abbrev pub ◌>>◌ : Result E A → Result E B → Result E B
  first >> rest = first >>= λ _. rest

  -- Where the whole returns, its first part did.
  pub >>=-returns :
      (first : Result E A) (rest : A → Result E B) {b : B}
      → (first >>= rest) ≡ ok b
      → (a : A) × (first ≡ ok a) × (rest a ≡ ok b)
  >>=-returns (err exception) rest returns = cc
  >>=-returns (ok value) rest returns = (value, refl, returns)

module _ {E A : Type 0} where
  abbrev pub is_ok : Result E A → Bool
  is_ok (ok a) = true
  is_ok (err e) = false

  pub Result-cases : (r : Result E A) → ((a : A) × (r ≡ ok a)) ⊎ ((e : E) × (r ≡ err e))
  Result-cases (ok a) = inl (a, refl)
  Result-cases (err e) = inr (e, refl)
