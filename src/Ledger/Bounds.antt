-- ===== src/Ledger/Bounds.antt =====
-- That every operation of runtime/failure_ledger.py keeps the limits on the runs of a commit.
use nortropic_runtime.Prelude.{
  suc, ◌≤◌, String, ◌≡◌, refl, sym, subst, ap, ◌∙◌, Bool, true, false, leb, Bool-cases,
  Result-cases, inl, inr, List, [], ◌∷◌, ◌&&◌, any, count_if, count_if-append, count_if-of_any,
  length, arith, Result, ok, require, >>=-returns, ◌>>=◌, ◌>>◌, str_eq, eq_iff, if◌then◌else◌,
}
use nortropic_runtime.Prelude.Dict.{Dict}
use nortropic_runtime.Value.{Value, null, bool, is_true, get_field}
use nortropic_runtime.Ledger.Cases.{Refusal, refused}
use nortropic_runtime.Ledger.Records.{
  Files, ending, begin_record, begin_records, has_commit, select, are_distinct, begins,
}
use nortropic_runtime.Ledger.Operations.{
  is_in_phase, check_diagnostic, run_text, check_begin, beginning, begin, finish,
  require_publishable,
}
use nortropic_runtime.Ledger.Classify.{classify}
use nortropic_runtime.Ledger.Observation.{
  cases_of, returncode_of, terminal_of, valid_observation, consume,
}
use nortropic_runtime.Ledger.History.{
  Command, begins_run, finishes_run, classifies_case, consumes, step, run,
}
use nortropic_runtime.Ledger.Growth.{begin_lem, finish_lem, classify_lem}
use nortropic_runtime.Ledger.Permanent.{ok-injective}
use nortropic_runtime.Ledger.Limits.{IsLimited, begins-added, beginning_lem}

abbrev pub empty : Files
empty = record { begun = []; finished = []; classified = [] }

empty-IsLimited : IsLimited empty
unfolding begins begin_records select are_distinct
empty-IsLimited commit rows h =
    let none_listed : rows ≡ [] = sym (ok-injective [] rows h) in
    rw none_listed (omega arith, omega arith)

begin_records-same :
    (f g : Files) (listed : Dict Value)
    → f.begun ≡ g.begun
    → begin_records f listed ≡ begin_records g listed
unfolding begin_records begin_record
begin_records-same f g [] e = refl
begin_records-same f g ((k, v) ∷ listed) e =
    rw (begin_records-same f g listed e, e, begin_records, begin_record) refl

same-IsLimited : (f g : Files) → f.begun ≡ g.begun → IsLimited f → IsLimited g
unfolding begins
same-IsLimited f g e limited commit rows h =
    let listed = ap (begin_records f) e ∙ begin_records-same f g g.begun e in
    limited commit rows (
      subst
        (λ (r : Result Refusal (List Value)).
          (r >>= λ vs.
          (require (are_distinct (select commit vs)) (refused "Duplicate attempt binding")
            >> ok (select commit vs)))
          ≡ ok rows)
        (sym listed) h)

module _ (digest : Value → String) (is_unsafe : Value → Bool)
    (digest_of_name : Value → String) where
  diagnostic_lem :
      (f : Files) (commit : String) (diagnostic : Value) (previous : List Value)
      → check_diagnostic digest is_unsafe digest_of_name f commit diagnostic previous ≡ ok tt
      → leb 2 (count_if (is_in_phase "diagnostic") previous) ≡ false
  unfolding check_diagnostic
  diagnostic_lem f commit diagnostic previous h =
      let (run_name, _, h1) = >>=-returns (run_text diagnostic) _ h in
      let (original, _, h2) = >>=-returns (begin_record f run_name) _ h1 in
      let (failure, _, h3) = >>=-returns (ending digest is_unsafe digest_of_name f original) _ h2 in
      ground (arith, h3)

  -- What the checks leave for the counts.
  check_begin_lem :
      (f : Files) (commit phase : String) (diagnostic : Value) (previous : List Value)
      → check_begin digest is_unsafe digest_of_name f commit phase diagnostic previous ≡ ok tt
      → (str_eq phase "measurement" ≡ true → any (is_in_phase "measurement") previous ≡ false)
        × (str_eq phase "diagnostic" ≡ true
            → leb 2 (count_if (is_in_phase "diagnostic") previous) ≡ false)
  unfolding check_begin
  check_begin_lem f commit phase diagnostic previous h =
      ((λ m. ground arith), (λ d. diagnostic_lem f commit diagnostic previous (ground arith)))

  count_added :
      (name : String) (commit other phase : String) (v : Value)
      → has_commit other v ≡ str_eq commit other
      → is_in_phase name v ≡ str_eq phase name
      → count_if (is_in_phase name) (select other (v ∷ []))
        ≡ (if str_eq commit other && str_eq phase name then 1 else 0)
  unfolding select
  count_added name commit other phase v c p = ground (arith, c, p)

  begin-IsLimited :
      (commit phase source : String) (diagnostic : Value) (identifier now : String) (f g : Files)
      → begin digest is_unsafe digest_of_name commit phase source diagnostic identifier now f ≡ ok g
      → IsLimited f
      → IsLimited g
  begin-IsLimited commit phase source diagnostic identifier now f g h limited other rows listed =
      let (previous, had, checks, fresh, added) =
        begin_lem digest is_unsafe digest_of_name commit phase source diagnostic identifier now f g
          h in
      let v = beginning identifier commit phase source diagnostic (suc (length previous)) now in
      let (before, hb, e) =
        begins-added f g other identifier v rows (ap (λ (x : Files). x.begun) added) fresh listed in
      let (c, p) =
        beginning_lem identifier commit phase source diagnostic (suc (length previous)) now other in
      let (one, two) = limited other before hb in
      let (measured, diagnosed) = check_begin_lem f commit phase diagnostic previous checks in
      let counted = λ (name : String).
        ap (count_if (is_in_phase name)) e
        ∙ count_if-append (is_in_phase name) before (select other (v ∷ [])) in
      let new = λ (name : String). count_added name commit other phase v c (p name) in
      elim (Bool-cases (str_eq commit other)) [
        | inl same ↦
            let key = (eq_iff commit other).0 same in
            let this : previous ≡ before =
              ok-injective previous before (sym had ∙ ap (begins f) key ∙ hb) in
            let measured' =
              subst
                (λ xs.
                  str_eq phase "measurement" ≡ true → any (is_in_phase "measurement") xs ≡ false)
                this measured in
            let diagnosed' =
              subst
                (λ xs.
                  str_eq phase "diagnostic" ≡ true
                  → leb 2 (count_if (is_in_phase "diagnostic") xs) ≡ false)
                this diagnosed in
            (
              ground (
                arith,
                counted "measurement",
                new "measurement",
                count_if-of_any (is_in_phase "measurement") before,
              ),
              ground (arith, counted "diagnostic", new "diagnostic"),
            )
        | inr other_commit ↦ (
          ground (arith, counted "measurement", new "measurement"),
          ground (arith, counted "diagnostic", new "diagnostic"),
        )
      ]

  finish-IsLimited :
      (identifier : String) (cases code complete o t : Value) (now : String) (f g : Files)
      (v : Value)
      → finish digest is_unsafe digest_of_name identifier cases code complete o t now f ≡ ok (v, g)
      → IsLimited f
      → IsLimited g
  finish-IsLimited identifier cases code complete o t now f g v h limited =
      let (_, same, _) =
        finish_lem digest is_unsafe digest_of_name identifier cases code complete o t now f g v h in
      same-IsLimited f g (sym (ap (λ (x : Files). x.begun) same)) limited

  consume-IsLimited :
      (manifest_digest : Value → String) (commit phase source : String) (r expected : Value)
      (identifier now : String) (f : Files)
      → IsLimited f
      → IsLimited
          (consume manifest_digest digest is_unsafe digest_of_name commit phase source r expected
            identifier now f).1
  unfolding consume
  consume-IsLimited manifest_digest commit phase source r expected identifier now f limited =
      elim (Result-cases (require_publishable digest is_unsafe digest_of_name f commit)) [
        | inr (x, e) ↦ rw (e, consume) limited
        | inl (_, e) ↦
            elim (Result-cases
              (begin digest is_unsafe digest_of_name commit phase source null identifier now f)) [
                | inr (x, b) ↦ rw (e, b, consume) limited
                | inl (begun, b) ↦
                    let kept =
                      begin-IsLimited commit phase source null identifier now f begun b limited in
                    let valid = bool (valid_observation manifest_digest r expected) in
                    elim (Result-cases (
                      finish digest is_unsafe digest_of_name identifier (cases_of r)
                        (returncode_of r) valid null (terminal_of r) now begun)) [
                          | inr (x, c) ↦ rw (e, b, c, consume) kept
                          | inl ((v, finished), c) ↦
                              let later =
                                finish-IsLimited identifier (cases_of r) (returncode_of r) valid
                                  null (terminal_of r) now begun finished v c kept in
                              elim (Bool-cases (is_true (get_field v "passed"))) [
                                | inl p ↦ rw (e, b, c, p, consume) later
                                | inr p ↦ rw (e, b, c, p, consume) later
                              ]
                        ]
              ]
      ]

  step-IsLimited :
      (manifest_digest : Value → String) (c : Command) (f : Files)
      → IsLimited f
      → IsLimited (step digest is_unsafe digest_of_name manifest_digest c f)
  unfolding step
  step-IsLimited manifest_digest (begins_run commit phase source d identifier now) f limited =
      elim (Result-cases
        (begin digest is_unsafe digest_of_name commit phase source d identifier now f)) [
          | inr (x, e) ↦ rw (e, step) limited
          | inl (g, e) ↦
              rw (e, step) (begin-IsLimited commit phase source d identifier now f g e limited)
        ]
  step-IsLimited manifest_digest (finishes_run identifier cases code complete o t now) f limited =
      elim (Result-cases
        (finish digest is_unsafe digest_of_name identifier cases code complete o t now f)) [
          | inr (x, e) ↦ rw (e, step) limited
          | inl ((v, g), e) ↦
              rw (e, step) (finish-IsLimited identifier cases code complete o t now f g v e limited)
        ]
  step-IsLimited manifest_digest (classifies_case identifier order category i name now) f limited =
      elim (Result-cases
        (classify digest is_unsafe digest_of_name identifier order category i name now f)) [
          | inr (x, e) ↦ rw (e, step) limited
          | inl ((v, g), e) ↦
              let (_, same) =
                classify_lem digest is_unsafe digest_of_name identifier order category i name now f
                  g v e in
              rw (e, step) (same-IsLimited f g (sym (ap (λ (x : Files). x.begun) same)) limited)
        ]
  step-IsLimited manifest_digest (consumes commit phase source r expected identifier now) f
        limited =
      consume-IsLimited manifest_digest commit phase source r expected identifier now f limited

  run-IsLimited :
      (manifest_digest : Value → String) (cs : List Command) (f : Files)
      → IsLimited f
      → IsLimited (run digest is_unsafe digest_of_name manifest_digest cs f)
  unfolding run
  run-IsLimited manifest_digest [] f limited = limited
  run-IsLimited manifest_digest (c ∷ cs) f limited =
      run-IsLimited manifest_digest cs (step digest is_unsafe digest_of_name manifest_digest c f)
        (step-IsLimited manifest_digest c f limited)

  -- From an empty ledger, whatever operations follow: of the runs that the ledger lists for a commit
  -- at most one is a whole measurement and at most two are diagnostics.
  pub runs_are_limited :
      (manifest_digest : Value → String) (cs : List Command) (commit : String) (rows : List Value)
      → begins (run digest is_unsafe digest_of_name manifest_digest cs empty) commit ≡ ok rows
      → (count_if (is_in_phase "measurement") rows ≤ 1)
        × (count_if (is_in_phase "diagnostic") rows ≤ 2)
  runs_are_limited manifest_digest cs = run-IsLimited manifest_digest cs empty empty-IsLimited
