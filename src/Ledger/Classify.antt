-- ===== src/Ledger/Classify.antt =====
-- `classify` of runtime/failure_ledger.py: what a failure is called afterwards.
use nortropic_runtime.Prelude.{
  ℕ, zero, suc, String, Bool, true, false, Option, none, some, List, [], ◌∷◌, ◌&&◌, not, any, ltb,
  Result, ok, err, require, ◌>>=◌, ◌>>◌, str_eq, if◌then◌else◌,
}
use nortropic_runtime.Value.{
  Value, bool, int, pos, text, dict, field, end, eq, get_field, is_true, as_text,
}
use nortropic_runtime.Task.Revision.{step_at}
use nortropic_runtime.Ledger.Cases.{Refusal, refused}
use nortropic_runtime.Ledger.Records.{
  Files, identifier_of, is_success, as_cases, begin_record, ending,
}
use nortropic_runtime.Ledger.Operations.{link, is_in_phase}

abbrev pub classes : List String
classes = "fixtur" ∷ "ordning" ∷ "produkt" ∷ "infrastruktur" ∷ "okänd" ∷ []

-- Runs whose failures are never intermittent.
abbrev sealed_phases : List String
sealed_phases = "sealed" ∷ "host" ∷ "measurement" ∷ "dry-run" ∷ "publication" ∷ []

-- `value < other` on stored attempt numbers.
abbrev is_below : Value → Value → Bool
is_below (int (pos m)) (int (pos n)) = ltb m n
is_below _ _ = false

abbrev parent_name : Value → Result Refusal String
parent_name value = elim (as_text (get_field value "diagnostic_of")) [
  | none ↦ err (refused "Invalid ledger record")
  | some s ↦ ok s
]

-- The case of that number, counted from 1.
abbrev pub case_at : List Value → ℕ → Option Value
case_at cases zero = none
case_at cases (suc n) = step_at cases n

-- The case exists and is no success.
abbrev pub named_failure : Option Value → Result Refusal Value
named_failure none = err (refused "The named failure does not exist")
named_failure (some case) =
    if is_success case then err (refused "The named failure does not exist") else ok case

abbrev pub require_if : Bool → Result Refusal (Unit {0}) → Result Refusal (Unit {0})
require_if true test = test
require_if false test = ok tt

module _ (digest : Value → String) (is_unsafe : Value → Bool)
    (digest_of_name : Value → String) where
  -- From a diagnostic to the run that it is about: each step goes to an earlier failed attempt on the
  -- same commit. `left` is how many runs may still be seen, of two.
  unfoldable pub ancestor : ℕ → List String → Files → Value → Value → Result Refusal Value
  ancestor zero seen files begun original =
      if is_in_phase "diagnostic" original
      then err (refused "Invalid diagnostic ancestry")
      else ok original
  ancestor (suc left) seen files begun original =
      let next = (do
        require (not (any (str_eq (identifier_of original)) seen))
            (refused "Invalid diagnostic ancestry")
        name ← parent_name original
        parent ← begin_record files name
        failure ← ending digest is_unsafe digest_of_name files parent
        require
            (eq (get_field parent "commit") (get_field begun "commit")
              && is_below (get_field parent "attempt") (get_field original "attempt")
              && not (is_true (get_field failure "passed")))
            (refused "Invalid diagnostic ancestry")
        ancestor left (identifier_of original ∷ seen) files begun parent) in
      if is_in_phase "diagnostic" original then next else ok original

  -- A failure may be called intermittent in a regression run alone.
  unfoldable pub check_intermittent : Files → Value → Result Refusal (Unit {0})
  unfolding ancestor
  check_intermittent files begun = do
    original ← ancestor 2 [] files begun begun
    require (not (any (λ phase. is_in_phase phase original) sealed_phases))
        (refused "Sealed suites and host controls cannot be called intermittent")

  unfoldable pub class_record : Value → Value → ℕ → String → Bool → String → Value
  class_record begun ended order category intermittent now = dict (
      field "run" (get_field begun "id") (
        field "attempt" (get_field begun "attempt") (
          field "commit" (get_field begun "commit") (
            field "finish_sha256" (text (digest ended)) (
              field "case_order" (int (pos order)) (
                field "classification" (text category)
                  (field "intermittent" (bool intermittent) (field "at" (text now) end))))))))

  unfoldable pub classify :
      (identifier : String) (order : ℕ) (category : String) (intermittent : Bool)
      (name now : String)
      → Files
      → Result Refusal (Value × Files)
  unfolding check_intermittent class_record
  classify identifier order category intermittent name now files = do
    require (any (str_eq category) classes) (refused "Invalid failure classification")
    begun ← begin_record files identifier
    ended ← ending digest is_unsafe digest_of_name files begun
    cases ← as_cases (get_field ended "cases")
    failure ← named_failure (case_at cases order)
    require_if intermittent (check_intermittent files begun)
    let value = class_record begun ended order category intermittent now
    classified ← link files.classified name value
    ok (value, record files { classified = classified })
