-- ===== src/Prelude/Dict.antt =====
-- Python's `dict` with text keys, in insertion order: a key that is set again keeps its place.
use Prim.Native.String.{String}
use mathlib.Core.Path.{◌≡◌, refl}
use mathlib.Core.Bool.{Bool, true, false}
use mathlib.Core.Option.{Option, none, some}
use mathlib.Core.List.{List, [], ◌∷◌, ◌++◌}
use native.Mathlib.Omega.{arith}
use text.Mathlib.Text.{◌==◌}
use text.Mathlib.TextEquality.{eq_iff}
use nortropic_runtime.Prelude.Tests.{if◌then◌else◌}

abbrev pub Dict {ℓ} : Type ℓ → Type ℓ
Dict V = List (String × V)

module _ {ℓ} {V : Type ℓ} where
  -- `d.get(k)`
  unfoldable pub get : Dict V → String → Option V
  get [] k = none
  get ((j, v) ∷ d) k = if j == k then some v else get d k

  -- `d[k] = v`
  unfoldable pub put : Dict V → String → V → Dict V
  put [] k v = (k, v) ∷ []
  put ((j, w) ∷ d) k v = if j == k then (j, v) ∷ d else (j, w) ∷ put d k v

  -- `k in d`
  abbrev pub is_key : Dict V → String → Bool
  is_key d k = elim (get d k) [ none ↦ false | some _ ↦ true ]

  pub get-put :
      (d : Dict V) (k j : String) (v : V) → get (put d k v) j ≡ (if k == j then some v else get d j)
  unfolding get put
  get-put [] k j v = refl
  get-put ((i, w) ∷ d) k j v = ground (arith, eq_iff k j, eq_iff i k, eq_iff i j, get-put d k j v)

  -- What stands before stays in front.
  pub get-append : (d e : Dict V) (k : String) (v : V) → get d k ≡ some v → get (d ++ e) k ≡ some v
  unfolding get
  get-append [] e k v h = cc
  get-append ((j, w) ∷ d) e k v h = ground (arith, get-append d e k v)

  pub get-append_of_none : (d e : Dict V) (k : String) → get d k ≡ none → get (d ++ e) k ≡ get e k
  unfolding get
  get-append_of_none [] e k h = refl
  get-append_of_none ((j, w) ∷ d) e k h = ground (arith, get-append_of_none d e k)
