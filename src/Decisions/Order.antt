-- ===== src/Decisions/Order.antt =====
-- The test `retained` of runtime/decision_guard.py and the order of the tokens.
use nortropic_runtime.Prelude.{
  String, ◌≡◌, refl, sym, subst, ◌∙◌, Bool, true, false, some, inl, inr, List, [], ◌∷◌, str_eq,
  eq_iff, Bool-cases, Option-cases, ◌⊎◌, arith,
}
use nortropic_runtime.Prelude.Text.{words}
use nortropic_runtime.Decisions.Retained.{consume, retained_tokens, retained}

-- The tokens of the first list stand in the second, in their order.
pub data IsSubsequence : List String → List String → Type 0 where
  ends : (ts : List String) → IsSubsequence [] ts
  keeps :
      {ss ts : List String} → (t : String) → IsSubsequence ss ts → IsSubsequence (t ∷ ss) (t ∷ ts)
  skips : {ss ts : List String} → (t : String) → IsSubsequence ss ts → IsSubsequence ss (t ∷ ts)

consumed :
    (t : String) (new rest ss : List String)
    → consume t new ≡ some rest
    → IsSubsequence ss rest
    → IsSubsequence (t ∷ ss) new
unfolding consume
consumed t [] rest ss e s = absurd (ground arith)
consumed t (n ∷ new) rest ss e s = elim (Bool-cases (str_eq n t)) [
  | inl same ↦
      let e' : some new ≡ some rest = sym (rw (same) refl) ∙ e in
      let q : new ≡ rest = cc in
      let p : n ≡ t = (eq_iff n t).0 same in
      subst (λ x. IsSubsequence (t ∷ ss) (x ∷ new)) (sym p)
        (keeps t (subst (IsSubsequence ss) (sym q) s))
  | inr other ↦ skips n (consumed t new rest ss (sym (rw (other) refl) ∙ e) s)
]

tail_of : (t : String) (ss ts : List String) → IsSubsequence (t ∷ ss) ts → IsSubsequence ss ts
tail_of t ss [] s = elim s [ ]
tail_of t ss (u ∷ ts) (keeps _ s) = skips u s
tail_of t ss (u ∷ ts) (skips _ s) = skips u (tail_of t ss ts s)

found :
    (t : String) (ss new : List String)
    → IsSubsequence (t ∷ ss) new
    → (rest : List String) × (consume t new ≡ some rest) × IsSubsequence ss rest
unfolding consume
found t ss [] s = elim s [ ]
found t ss (u ∷ new) (keeps _ s) = (new, ground (arith, eq_iff t t), s)
found t ss (u ∷ new) (skips _ s) = elim (Bool-cases (str_eq u t)) [
  | inl same ↦ (new, rw (same) refl, tail_of t ss new s)
  | inr other ↦ let (rest, e, s') = found t ss new s in (rest, rw (other) e, s')
]

kept : (ss ts : List String) → retained_tokens ss ts ≡ true → IsSubsequence ss ts
unfolding retained_tokens
kept [] ts h = ends ts
kept (t ∷ ss) ts h = elim (Option-cases (consume t ts)) [
  | inl e ↦ absurd (ground (arith, e))
  | inr (rest, e) ↦ consumed t ts rest ss e (kept ss rest (ground (arith, e)))
]

accepted : (ss ts : List String) → IsSubsequence ss ts → retained_tokens ss ts ≡ true
unfolding retained_tokens
accepted [] ts s = refl
accepted (t ∷ ss) ts s =
    let (rest, e, s') = found t ss ts s in rw (e, retained_tokens) (accepted ss rest s')

refutes : (b : Bool) → b ≡ false → b ≡ true → ⊥
refutes b p q = absurd (ground arith)

-- For every two texts: the test accepts the new one where the words of the old one stand among the
-- words of the new one in the same order, so that nothing but whitespace was removed or moved, and
-- it refuses the new one where they do not.
pub retained-IsSubsequence :
    (old new : String)
    → ((retained old new ≡ true) × IsSubsequence (words old) (words new))
      ⊎ ((retained old new ≡ false) × (¬ IsSubsequence (words old) (words new)))
unfolding retained
retained-IsSubsequence old new = elim (Bool-cases (retained_tokens (words old) (words new))) [
  | inl e ↦ inl (e, kept (words old) (words new) e)
  | inr e ↦ inr (
    e,
    λ s. refutes (retained_tokens (words old) (words new)) e (accepted (words old) (words new) s),
  )
]
