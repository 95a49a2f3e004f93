-- ===== src/Gate/Terminal.antt =====
-- What a verdict of runtime/review.py rests on.
use nortropic_runtime.Prelude.{
  String, ◌≡◌, refl, sym, ap, subst, ◌∙◌, Bool, true, false, inl, inr, List, [], ◌∷◌, ◌++◌, ◌&&◌,
  ◌||◌, not, length, count_if, Bool-cases, Result, ok, err, >>=-returns, require, arith,
  if◌then◌else◌,
}
use nortropic_runtime.Value.{
  Value, null, bool, int, text, list, dict, Items, nil, cons, get_field, is_dict, eq,
}
use nortropic_runtime.Gate.Require.{equals}
use nortropic_runtime.Gate.Guards.{equals_lem}
use nortropic_runtime.Gate.Verdict.{
  Invalid, invalid, is_text_list, has_findings, is_judgement, validated, is_terminal, is_false,
  is_success, terminals, one_terminal, read_text, read_all, claude_response, verdict,
}

required_true : (b : Bool) (e : Invalid) (u : Unit {0}) → require b e ≡ ok u → b ≡ true
required_true true e u h = refl
required_true false e u h = absurd (ground arith)

only_success :
    (test : Bool) (x t : Value)
    → (if test then ok x else err (invalid "Missing review response")) ≡ ok t
    → (x ≡ t) × (test ≡ true)
only_success true x t h = (cc, refl)
only_success false x t h = absurd (ground arith)

only_one :
    (ts : List Value) (t : Value) → one_terminal ts ≡ ok t → (ts ≡ t ∷ []) × (is_success t ≡ true)
only_one [] t h = absurd (ground arith)
only_one (x ∷ []) t h =
    let (same, success) = only_success (is_success x) x t h in
    (ap (λ y. y ∷ []) same, sym (ap is_success same) ∙ success)
only_one (x ∷ y ∷ ts) t h = absurd (ground arith)

judged :
    (v r : Value)
    → validated v ≡ ok r
    → (v ≡ r)
      × (is_judgement v ≡ true)
      × ((equals (get_field v "verdict") "approved"
            && has_findings (get_field v "blocking_findings"))
          ≡ false)
unfolding validated
judged v r h =
    let (u, h1, h2) =
      >>=-returns (require (is_judgement v) (invalid "Invalid or unjudgeable review response")) _
        h in
    let (w, h3, h4) =
      >>=-returns
        (require
          (not (
            equals (get_field v "verdict") "approved"
            && has_findings (get_field v "blocking_findings")))
          (invalid "Conflicting approval with blocking findings"))
        _ h2 in
    let same : v ≡ r = cc in
    let consistent = required_true _ _ w h3 in
    (same, required_true _ _ u h1, ground (arith, consistent))

-- How often an event of a run says that it is the result.
abbrev is_result : Value → Bool
is_result e = equals (get_field e "type") "result"

-- The one terminal among the events: its own fields, and nothing of its kind before or after.
pub record IsOnly (t : Value) (events : List Value) : Type 0 where
  pub before : List Value
  pub after : List Value
  pub split : events ≡ before ++ t ∷ after
  pub alone : count_if is_result events ≡ 1
  pub result : get_field t "type" ≡ text "result"
  pub no_error : get_field t "is_error" ≡ bool false
  pub subtype : get_field t "subtype" ≡ text "success"
  pub reason : get_field t "terminal_reason" ≡ text "completed"

result_is_dict : (e : Value) → is_result e ≡ is_terminal e
unfolding get_field eq
result_is_dict (dict fs) = refl
result_is_dict null = refl
result_is_dict (bool _) = refl
result_is_dict (int _) = refl
result_is_dict (text _) = refl
result_is_dict (list _) = refl

terminals_count : (es : List Value) → count_if is_result es ≡ length (terminals es)
unfolding terminals
terminals_count [] = refl
terminals_count (e ∷ es) = ground (arith, result_is_dict e, terminals_count es)

terminals_split :
    (es : List Value) (t : Value) (ts : List Value)
    → terminals es ≡ t ∷ ts
    → (before : List Value) × (after : List Value) × (es ≡ before ++ t ∷ after)
      × (is_terminal t ≡ true)
unfolding terminals
terminals_split [] t ts h = absurd (cc)
terminals_split (e ∷ es) t ts h = elim (Bool-cases (is_terminal e)) [
  | inl f ↦
      let h' : e ∷ terminals es ≡ t ∷ ts = sym (rw (f, terminals) refl) ∙ h in
      let same : e ≡ t = cc in ([], es, ap (λ x. x ∷ es) same, ap is_terminal (sym same) ∙ f)
  | inr f ↦
      let h' : terminals es ≡ t ∷ ts = sym (rw (f, terminals) refl) ∙ h in
      let (before, after, e', g) = terminals_split es t ts h' in
      (e ∷ before, after, ap (λ x. e ∷ x) e', g)
]

false_of : (v : Value) → is_false v ≡ true → v ≡ bool false
false_of (bool false) h = refl
false_of (bool true) h = cc
false_of null h = cc
false_of (int _) h = cc
false_of (text _) h = cc
false_of (list _) h = cc
false_of (dict _) h = cc

from_one :
    (events : List Value) (t : Value)
    → terminals events ≡ t ∷ []
    → is_success t ≡ true
    → IsOnly t events
from_one events t one success =
    let (before, after, split, terminal) = terminals_split events t [] one in
    record {
      before = before;
      after = after;
      split = split;
      alone = terminals_count events ∙ ap length one;
      result = equals_lem (get_field t "type") "result" (ground (arith, terminal));
      no_error = false_of (get_field t "is_error") (ground (arith, success));
      subtype = equals_lem (get_field t "subtype") "success" (ground (arith, success));
      reason = equals_lem (get_field t "terminal_reason") "completed" (ground (arith, success));
    }

-- Approved without blocking findings, rejected or inconclusive.
pub data IsConclusion : (verdict findings : Value) → Type 0 where
  approves : IsConclusion (text "approved") (list nil)
  rejects : (findings : Items) → IsConclusion (text "rejected") (list findings)
  leaves_open : (findings : Items) → IsConclusion (text "inconclusive") (list findings)

findings_of : (v : Value) → is_text_list v ≡ true → (vs : Items) × (v ≡ list vs)
findings_of (list vs) h = (vs, refl)
findings_of null h = cc
findings_of (bool _) h = cc
findings_of (int _) h = cc
findings_of (text _) h = cc
findings_of (dict _) h = cc

approved_alone :
    (vs : Items) → has_findings (list vs) ≡ false → IsConclusion (text "approved") (list vs)
approved_alone nil h = approves
approved_alone (cons v vs) h = absurd (ground arith)

conclude :
    (w f : Value) (vs : Items)
    → f ≡ list vs
    → (equals w "approved" || equals w "rejected" || equals w "inconclusive") ≡ true
    → (equals w "approved" && has_findings f) ≡ false
    → IsConclusion w f
conclude w f vs e known consistent = elim (Bool-cases (equals w "approved")) [
  | inl a ↦
      let none_found : has_findings (list vs) ≡ false =
        ap has_findings (sym e) ∙ ground (arith, a, consistent) in
      subst (λ x. IsConclusion x f) (sym (equals_lem w "approved" a))
        (subst (IsConclusion (text "approved")) (sym e) (approved_alone vs none_found))
  | inr a ↦ elim (Bool-cases (equals w "rejected")) [
    | inl b ↦
        subst (λ x. IsConclusion x f) (sym (equals_lem w "rejected" b))
          (subst (IsConclusion (text "rejected")) (sym e) (rejects vs))
    | inr b ↦
        subst (λ x. IsConclusion x f)
          (sym (equals_lem w "inconclusive" (ground (arith, a, b, known))))
          (subst (IsConclusion (text "inconclusive")) (sym e) (leaves_open vs))
  ]
]

concludes :
    (v : Value)
    → is_judgement v ≡ true
    → (equals (get_field v "verdict") "approved" && has_findings (get_field v "blocking_findings"))
      ≡ false
    → IsConclusion (get_field v "verdict") (get_field v "blocking_findings")
unfolding is_judgement
concludes v form consistent =
    let (vs, e) = findings_of (get_field v "blocking_findings") (ground (arith, form)) in
    conclude (get_field v "verdict") (get_field v "blocking_findings") vs e (ground (arith, form))
      consistent

module _ (loads loads_strict : String → Result Invalid Value) where
  -- The terminal repeats the verdict as a text, and the two are equal.
  abbrev pub IsRepeated : Value → Value → Type 0
  IsRepeated t r =
      (s : String) × (w : Value) × (get_field t "result" ≡ text s)
      × (loads_strict s ≡ ok w)
      × (eq w r ≡ true)

  text_of :
      (v w : Value)
      → read_text loads loads_strict v ≡ ok w
      → (s : String) × (v ≡ text s) × (loads_strict s ≡ ok w)
  text_of (text s) w h = (s, refl, h)
  text_of null w h = absurd (ground arith)
  text_of (bool _) w h = absurd (ground arith)
  text_of (int _) w h = absurd (ground arith)
  text_of (list _) w h = absurd (ground arith)
  text_of (dict _) w h = absurd (ground arith)

  responded :
      (events : List Value) (r : Value)
      → claude_response loads loads_strict events ≡ ok r
      → (t : Value) × IsOnly t events × (get_field t "structured_output" ≡ r) × IsRepeated t r
  unfolding claude_response
  responded events r h =
      let (t, h1, h2) = >>=-returns (one_terminal (terminals events)) _ h in
      let (one, success) = only_one (terminals events) t h1 in
      let (u, h3, h4) =
        >>=-returns
          (require (is_dict (get_field t "structured_output")) (invalid "Missing review response"))
          _ h2 in
      let (w, h5, h6) = >>=-returns (read_text loads loads_strict (get_field t "result")) _ h4 in
      let (x, h7, h8) =
        >>=-returns
          (require (eq w (get_field t "structured_output"))
            (invalid "Conflicting structured review response"))
          _ h6 in
      let same : get_field t "structured_output" ≡ r = cc in
      let (s, shown, read) = text_of (get_field t "result") w h5 in
      (
        t,
        from_one events t one success,
        same,
        (s, w, shown, read, ap (eq w) (sym same) ∙ required_true _ _ x h7),
      )

  -- Whatever JSON the two readers take from a line: where a verdict of the provider claude comes
  -- back, every line was read, and exactly one of the events is of the type result. That one is no
  -- error and reports success and completion; the verdict is its structured output, which its text
  -- repeats. The verdict is approved without blocking findings, rejected or inconclusive, and has
  -- the form of a judgement.
  pub verdict_of_terminal :
      (lines : List String) (r : Value)
      → verdict loads loads_strict lines "claude" ≡ ok r
      → (events : List Value) × (t : Value) × (read_all loads_strict lines ≡ ok events)
        × IsOnly t events
        × (get_field t "structured_output" ≡ r)
        × IsRepeated t r
        × IsConclusion (get_field r "verdict") (get_field r "blocking_findings")
        × (is_judgement r ≡ true)
  unfolding verdict
  verdict_of_terminal lines r h =
      let (events, h1, h2) = >>=-returns (read_all loads_strict lines) _ h in
      let (found, h3, h4) = >>=-returns (claude_response loads loads_strict events) _ h2 in
      let (t, only, output, repeated) = responded events found h3 in
      let (same, form, consistent) = judged found r h4 in
      (
        events,
        t,
        h1,
        only,
        output ∙ same,
        subst (IsRepeated t) same repeated,
        subst (λ v. IsConclusion (get_field v "verdict") (get_field v "blocking_findings")) same
            (concludes found form consistent),
        ap is_judgement (sym same) ∙ form,
      )
