-- ===== src/Prelude/Lists.antt =====
-- Lists measured by native numbers, Boolean searches through lists, and predicates by recursion.
use Prim.Native.Nat.{ℕ, suc, ◌+◌}
use mathlib.Core.Path.{◌≡◌, refl}
use mathlib.Core.Bool.{Bool, true, false, ◌&&◌, ◌||◌}
use mathlib.Core.Option.{Option, none, some}
use mathlib.Core.List.{List, [], ◌∷◌, ◌++◌}
use native.Mathlib.Omega.{arith}
use nortropic_runtime.Prelude.Tests.{if◌then◌else◌}

module _ {ℓ} {A : Type ℓ} where
  abbrev pub length : List A → ℕ
  length [] = 0
  length (x ∷ xs) = suc (length xs)

  pub length-append : (xs ys : List A) → length (xs ++ ys) ≡ length xs + length ys
  length-append [] ys = omega arith
  length-append (x ∷ xs) ys = omega (arith, length-append xs ys)

  -- Python's `any(test(x) for x in xs)` and `all(...)`.
  abbrev pub any : (A → Bool) → List A → Bool
  any test [] = false
  any test (x ∷ xs) = test x || any test xs

  abbrev pub all : (A → Bool) → List A → Bool
  all test [] = true
  all test (x ∷ xs) = test x && all test xs

  -- `next((x for x in xs if test(x)), None)`
  abbrev pub find : (A → Bool) → List A → Option A
  find test [] = none
  find test (x ∷ xs) = if test x then some x else find test xs

  pub any-append :
      (test : A → Bool) (xs ys : List A) → any test (xs ++ ys) ≡ (any test xs || any test ys)
  any-append test [] ys = refl
  any-append test (x ∷ xs) ys = ground (arith, any-append test xs ys)

  -- A predicate that holds of every member.
  abbrev pub All {κ} : (A → Type κ) → List A → Type κ
  All P [] = Unit
  All P (x ∷ xs) = P x × All P xs

  pub All-snoc {κ} : (P : A → Type κ) (xs : List A) (x : A) → All P xs → P x → All P (xs ++ x ∷ [])
  All-snoc P [] x h p = (p, tt)
  All-snoc P (y ∷ xs) x h p = (h.0, All-snoc P xs x h.1 p)

  -- `sum(1 for x in xs if test(x))`
  abbrev pub count_if : (A → Bool) → List A → ℕ
  count_if test [] = 0
  count_if test (x ∷ xs) = let rest = count_if test xs in if test x then suc rest else rest

  pub count_if-append :
      (test : A → Bool) (xs ys : List A)
      → count_if test (xs ++ ys) ≡ count_if test xs + count_if test ys
  count_if-append test [] ys = omega arith
  count_if-append test (x ∷ xs) ys = ground (arith, count_if-append test xs ys)

  pub count_if-of_any : (test : A → Bool) (xs : List A) → any test xs ≡ false → count_if test xs ≡ 0
  count_if-of_any test [] h = refl
  count_if-of_any test (x ∷ xs) h = ground (arith, count_if-of_any test xs)

  pub find-any :
      (test : A → Bool) (xs : List A) (x : A) → find test xs ≡ some x → any test xs ≡ true
  find-any test [] x h = cc
  find-any test (y ∷ ys) x h = ground (arith, find-any test ys x)

  pub find_holds : (test : A → Bool) (xs : List A) (x : A) → find test xs ≡ some x → test x ≡ true
  find_holds test [] x h = cc
  find_holds test (y ∷ ys) x h = ground (arith, find_holds test ys x)
