-- ===== src/Prelude/Decimal.antt =====
-- The decimal text of a number is read back as that number, so that two numbers never share one.
use Prim.Native.Nat.{ℕ, zero, suc, ◌+◌, ◌*◌, ◌/◌, ◌%◌, ◌-◌, ◌≤◌, ◌<◌}
use Prim.Native.Char.{code}
use Prim.Native.String.{String}
use mathlib.Core.Path.{◌≡◌, refl, sym, ap, ◌∙◌}
use mathlib.Core.Logic.{inl, inr}
use native.Mathlib.Omega.{arith}
use text.Mathlib.TextLemmas.{nil-append, cons-append}
use nortropic_runtime.Prelude.Tests.{ltb, Bool-cases}
use nortropic_runtime.Prelude.Text.{concat, digit, decimal, decimal_within}

-- The number that the digits of a text continue.
unfoldable scan : String → ℕ → ℕ
scan String.[] a = a
scan (String.◌∷◌ c s) a = scan s (a * 10 + (code c - 48))

scan-concat : (s t : String) (a : ℕ) → scan (concat s t) a ≡ scan t (scan s a)
unfolding scan
scan-concat String.[] t a = ap (λ u. scan u a) (nil-append t)
scan-concat (String.◌∷◌ c s) t a =
    ap (λ u. scan u a) (cons-append c s t) ∙ scan-concat s t (a * 10 + (code c - 48))

scan-digit : (n a : ℕ) → n < 10 → scan (digit n) a ≡ a * 10 + n
unfolding scan
scan-digit zero a h = refl
scan-digit (suc zero) a h = refl
scan-digit (suc (suc zero)) a h = refl
scan-digit (suc (suc (suc zero))) a h = refl
scan-digit (suc (suc (suc (suc zero)))) a h = refl
scan-digit (suc (suc (suc (suc (suc zero))))) a h = refl
scan-digit (suc (suc (suc (suc (suc (suc zero)))))) a h = refl
scan-digit (suc (suc (suc (suc (suc (suc (suc zero))))))) a h = refl
scan-digit (suc (suc (suc (suc (suc (suc (suc (suc zero)))))))) a h = refl
scan-digit (suc (suc (suc (suc (suc (suc (suc (suc (suc zero))))))))) a h = refl
scan-digit (suc (suc (suc (suc (suc (suc (suc (suc (suc (suc n)))))))))) a h = absurd (omega arith)

scan-decimal_within : (fuel n : ℕ) → n ≤ fuel → scan (decimal_within fuel n) 0 ≡ n
unfolding decimal_within
scan-decimal_within zero n h = scan-digit n 0 (omega arith) ∙ omega arith
scan-decimal_within (suc fuel) n h = elim (Bool-cases (ltb n 10)) [
  | inl e ↦ rw e (scan-digit n 0 (ground arith) ∙ omega arith)
  | inr e ↦
      let below : n / 10 ≤ fuel = ground arith in
      let small : n % 10 < 10 = omega arith in
      let rest = scan-decimal_within fuel (n / 10) below in
      rw (e, scan-concat, rest, scan-digit (n % 10) (n / 10) small) (omega arith)
]

pub decimal-injective : (n m : ℕ) → decimal n ≡ decimal m → n ≡ m
unfolding decimal
decimal-injective n m h =
    sym (scan-decimal_within n n (omega arith))
    ∙ ap (λ s. scan s 0) h
    ∙ scan-decimal_within m m (omega arith)
