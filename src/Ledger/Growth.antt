-- ===== src/Ledger/Growth.antt =====
-- The files of the ledger in runtime/failure_ledger.py only grow.
use nortropic_runtime.Prelude.{
  ℕ, suc, length, String, ◌≡◌, refl, subst, sym, ap, ◌∙◌, Bool, none, some, Bool-cases,
  Result-cases, inl, inr, List, [], ◌∷◌, ◌++◌, arith, ok, any, require, >>=-returns, str_eq,
}
use mathlib.Core.List.{append-nil, append_assoc}
use nortropic_runtime.Prelude.Dict.{Dict, get, get-append}
use nortropic_runtime.Value.{Value, null, bool, is_true, get_field}
use nortropic_runtime.Ledger.Cases.{refused, clean_cases}
use nortropic_runtime.Ledger.Records.{Files, as_cases, ending, begin_record, begins}
use nortropic_runtime.Ledger.Operations.{
  link, check_begin, beginning, begin, end_record, finish, require_publishable,
}
use nortropic_runtime.Ledger.Classify.{
  classes, named_failure, case_at, require_if, check_intermittent, class_record, classify,
}
use nortropic_runtime.Ledger.Observation.{
  cases_of, returncode_of, terminal_of, valid_observation, consume,
}
use nortropic_runtime.Ledger.History.{
  Command, begins_run, finishes_run, classifies_case, consumes, step, run,
}

-- The later dictionary is the earlier one and what was added at its end.
abbrev pub IsLonger : Dict Value → Dict Value → Type 0
IsLonger d e = (more : Dict Value) × (e ≡ d ++ more)

pub record Grows (f g : Files) : Type 0 where
  pub begun : IsLonger f.begun g.begun
  pub finished : IsLonger f.finished g.finished

same_dict : (d : Dict Value) → IsLonger d d
same_dict d = ([], sym (append-nil d))

longer_trans : (a b c : Dict Value) → IsLonger a b → IsLonger b c → IsLonger a c
longer_trans a b c (m, p) (n, q) = (m ++ n, q ∙ ap (λ x. x ++ n) p ∙ append_assoc a m n)

pub Grows-refl : (f : Files) → Grows f f
Grows-refl f = record { begun = same_dict f.begun; finished = same_dict f.finished }

pub Grows-trans : (f g h : Files) → Grows f g → Grows g h → Grows f h
Grows-trans f g h p q = record {
  begun = longer_trans f.begun g.begun h.begun p.begun q.begun;
  finished = longer_trans f.finished g.finished h.finished p.finished q.finished;
}

pub link_lem :
    (d e : Dict Value) (identifier : String) (v : Value)
    → link d identifier v ≡ ok e
    → (get d identifier ≡ none) × (e ≡ d ++ (identifier, v) ∷ [])
unfolding link
link_lem d e identifier v h = ground arith

-- What a longer dictionary had, it has.
pub get-IsLonger :
    (d e : Dict Value) (k : String) (v : Value) → IsLonger d e → get d k ≡ some v → get e k ≡ some v
get-IsLonger d e k v (more, p) h = rw p (get-append d more k v h)

module _ (digest : Value → String) (is_unsafe : Value → Bool)
    (digest_of_name : Value → String) where
  -- What a run that begins went through.
  pub begin_lem :
      (commit phase source : String) (diagnostic : Value) (identifier now : String) (f g : Files)
      → begin digest is_unsafe digest_of_name commit phase source diagnostic identifier now f ≡ ok g
      → (previous : List Value) × (begins f commit ≡ ok previous)
        × (check_begin digest is_unsafe digest_of_name f commit phase diagnostic previous ≡ ok tt)
        × (get f.begun identifier ≡ none)
        × (g ≡ record f {
          begun =
              f.begun
              ++ (
                identifier,
                beginning identifier commit phase source diagnostic (suc (length previous)) now,
              )
                ∷ [];
        })
  unfolding begin
  begin_lem commit phase source diagnostic identifier now f g h =
      elim (Result-cases (begins f commit)) [
        | inr (x, e) ↦ absurd (ground arith)
        | inl (previous, e) ↦
            elim (Result-cases
              (check_begin digest is_unsafe digest_of_name f commit phase diagnostic previous)) [
                | inr (x, c) ↦ absurd (ground arith)
                | inl (_, c) ↦
                    let v =
                      beginning identifier commit phase source diagnostic (suc (length previous))
                        now in
                    elim (Result-cases (link f.begun identifier v)) [
                      | inr (x, l) ↦ absurd (ground arith)
                      | inl (begun, l) ↦
                          let (fresh, added) = link_lem f.begun begun identifier v l in
                          let same : g ≡ record f { begun = begun } = ground arith in
                          (previous, e, c, fresh, same ∙ ap (λ b. record f { begun = b }) added)
                    ]
              ]
      ]

  begin-Grows :
      (commit phase source : String) (diagnostic : Value) (identifier now : String) (f g : Files)
      → begin digest is_unsafe digest_of_name commit phase source diagnostic identifier now f ≡ ok g
      → Grows f g
  begin-Grows commit phase source diagnostic identifier now f g h =
      let (previous, _, _, _, e) = begin_lem commit phase source diagnostic identifier now f g h in
      subst (Grows f) (sym e) (record { begun = (_, refl); finished = same_dict f.finished })

  pub finish_lem :
      (identifier : String) (cases returncode complete observation terminal : Value) (now : String)
      (f g : Files) (v : Value)
      → finish digest is_unsafe digest_of_name identifier cases returncode complete observation
          terminal now f
        ≡ ok (v, g)
      → (finished : Dict Value) × (g ≡ record f { finished = finished })
        × IsLonger f.finished finished
  unfolding finish
  finish_lem identifier cases returncode complete observation terminal now f g v h =
      elim (Result-cases (clean_cases is_unsafe digest_of_name cases)) [
        | inr (x, e) ↦ absurd (ground arith)
        | inl (rows, e) ↦ elim (Result-cases (begin_record f identifier)) [
          | inr (x, b) ↦ absurd (ground arith)
          | inl (begun, b) ↦
              let w =
                end_record digest is_unsafe digest_of_name identifier begun rows returncode complete
                  terminal observation now in
              elim (Result-cases (link f.finished identifier w)) [
                | inr (x, l) ↦ absurd (ground arith)
                | inl (finished, l) ↦
                    let (_, added) = link_lem f.finished finished identifier w l in
                    let same : g ≡ record f { finished = finished } = ground arith in
                    (finished, same, (_, added))
              ]
        ]
      ]

  finish-Grows :
      (identifier : String) (cases returncode complete observation terminal : Value) (now : String)
      (f g : Files) (v : Value)
      → finish digest is_unsafe digest_of_name identifier cases returncode complete observation
          terminal now f
        ≡ ok (v, g)
      → Grows f g
  finish-Grows identifier cases returncode complete observation terminal now f g v h =
      let (finished, same, longer) =
        finish_lem identifier cases returncode complete observation terminal now f g v h in
      subst (Grows f) (sym same) (record { begun = same_dict f.begun; finished = longer })

  pub classify_lem :
      (identifier : String) (order : ℕ) (category : String) (intermittent : Bool)
      (name now : String) (f g : Files) (v : Value)
      → classify digest is_unsafe digest_of_name identifier order category intermittent name now f
        ≡ ok (v, g)
      → (classified : Dict Value) × (g ≡ record f { classified = classified })
  unfolding classify
  classify_lem identifier order category intermittent name now f g v h =
      let (_, _, h1) =
        >>=-returns
          (require (any (str_eq category) classes) (refused "Invalid failure classification")) _
          h in
      let (begun, _, h2) = >>=-returns (begin_record f identifier) _ h1 in
      let (ended, _, h3) = >>=-returns (ending digest is_unsafe digest_of_name f begun) _ h2 in
      let (cases, _, h4) = >>=-returns (as_cases (get_field ended "cases")) _ h3 in
      let (failure, _, h5) = >>=-returns (named_failure (case_at cases order)) _ h4 in
      let (_, _, h6) =
        >>=-returns
          (require_if intermittent (check_intermittent digest is_unsafe digest_of_name f begun)) _
          h5 in
      let (classified, _, h7) =
        >>=-returns
          (link f.classified name (
            class_record digest is_unsafe digest_of_name begun ended order category intermittent
              now))
          _ h6 in
      (classified, ground (arith, h7))

  classify-Grows :
      (identifier : String) (order : ℕ) (category : String) (intermittent : Bool)
      (name now : String) (f g : Files) (v : Value)
      → classify digest is_unsafe digest_of_name identifier order category intermittent name now f
        ≡ ok (v, g)
      → Grows f g
  classify-Grows identifier order category intermittent name now f g v h =
      let (classified, same) =
        classify_lem identifier order category intermittent name now f g v h in
      subst (Grows f) (sym same)
        (record { begun = same_dict f.begun; finished = same_dict f.finished })

  consume-Grows :
      (manifest_digest : Value → String) (commit phase source : String) (r expected : Value)
      (identifier now : String) (f : Files)
      → Grows f
          (consume manifest_digest digest is_unsafe digest_of_name commit phase source r expected
            identifier now f).1
  unfolding consume
  consume-Grows manifest_digest commit phase source r expected identifier now f =
      elim (Result-cases (require_publishable digest is_unsafe digest_of_name f commit)) [
        | inr (x, e) ↦ rw (e, consume) (Grows-refl f)
        | inl (_, e) ↦
            elim (Result-cases
              (begin digest is_unsafe digest_of_name commit phase source null identifier now f)) [
                | inr (x, b) ↦ rw (e, b, consume) (Grows-refl f)
                | inl (begun, b) ↦
                    let grows = begin-Grows commit phase source null identifier now f begun b in
                    let valid = bool (valid_observation manifest_digest r expected) in
                    elim (Result-cases (
                      finish digest is_unsafe digest_of_name identifier (cases_of r)
                        (returncode_of r) valid null (terminal_of r) now begun)) [
                          | inr (x, c) ↦ rw (e, b, c, consume) grows
                          | inl ((v, finished), c) ↦
                              let later = Grows-trans f begun finished grows (
                                finish-Grows identifier (cases_of r) (returncode_of r) valid null
                                  (terminal_of r) now begun finished v c) in
                              elim (Bool-cases (is_true (get_field v "passed"))) [
                                | inl p ↦ rw (e, b, c, p, consume) later
                                | inr p ↦ rw (e, b, c, p, consume) later
                              ]
                        ]
              ]
      ]

  step-Grows :
      (manifest_digest : Value → String) (c : Command) (f : Files)
      → Grows f (step digest is_unsafe digest_of_name manifest_digest c f)
  unfolding step
  step-Grows manifest_digest (begins_run commit phase source d identifier now) f =
      elim (Result-cases
        (begin digest is_unsafe digest_of_name commit phase source d identifier now f)) [
          | inr (x, e) ↦ rw (e, step) (Grows-refl f)
          | inl (g, e) ↦ rw (e, step) (begin-Grows commit phase source d identifier now f g e)
        ]
  step-Grows manifest_digest (finishes_run identifier cases code complete o t now) f =
      elim (Result-cases
        (finish digest is_unsafe digest_of_name identifier cases code complete o t now f)) [
          | inr (x, e) ↦ rw (e, step) (Grows-refl f)
          | inl ((v, g), e) ↦
              rw (e, step) (finish-Grows identifier cases code complete o t now f g v e)
        ]
  step-Grows manifest_digest (classifies_case identifier order category i name now) f =
      elim (Result-cases
        (classify digest is_unsafe digest_of_name identifier order category i name now f)) [
          | inr (x, e) ↦ rw (e, step) (Grows-refl f)
          | inl ((v, g), e) ↦
              rw (e, step) (classify-Grows identifier order category i name now f g v e)
        ]
  step-Grows manifest_digest (consumes commit phase source r expected identifier now) f =
      consume-Grows manifest_digest commit phase source r expected identifier now f

  pub run-Grows :
      (manifest_digest : Value → String) (cs : List Command) (f : Files)
      → Grows f (run digest is_unsafe digest_of_name manifest_digest cs f)
  unfolding run
  run-Grows manifest_digest [] f = Grows-refl f
  run-Grows manifest_digest (c ∷ cs) f =
      let g = step digest is_unsafe digest_of_name manifest_digest c f in
      Grows-trans f g _ (step-Grows manifest_digest c f) (run-Grows manifest_digest cs g)
