-- ===== src/Tests/Ledger.antt =====
-- Runs on one commit in the ledger of runtime/failure_ledger.py.
use nortropic_runtime.Prelude.{
  ◌≤◌, String, ◌≡◌, ◌≢◌, refl, Bool, true, false, List, [], ◌∷◌, count_if, ok,
}
use nortropic_runtime.Prelude.Dict.{get}
use nortropic_runtime.Prelude.Text.{is_hex, is_hex_codes}
use nortropic_runtime.Value.{
  Value, null, bool, text, int, pos, list, dict, nil, cons, end, field, find_field, put_field,
  get_field, is_true, eq,
}
use nortropic_runtime.Gate.Recovery.{set_field}
use nortropic_runtime.Task.Validate.{has_field}
use nortropic_runtime.Ledger.Cases.{
  is_mask_text, is_retained_name, is_plain_file, is_duration, safe_name, safe_file, clean_case,
  clean_all, clean_cases,
}
use nortropic_runtime.Ledger.Records.{
  Files, identifier_of, is_run, is_beginning, read, begin_record, are_same_cases, has_passed,
  is_end, checked_end, ending, begin_records, select, are_distinct, begins,
}
use nortropic_runtime.Ledger.Operations.{
  link, is_in_phase, check_diagnostic, check_begin, beginning, begin, end_record, finish,
  all_passed, publishable,
}
use nortropic_runtime.Ledger.History.{Command, begins_run, finishes_run, step, run}
use nortropic_runtime.Ledger.Permanent.{IsGreen, failure_is_permanent, publishable_needs_all}
use nortropic_runtime.Ledger.Bounds.{empty, runs_are_limited}

abbrev sha : String
sha = "00000000000000000000000000000000000000000000000000000000000000ff"

abbrev commit : String
commit = "0123456789abcdef0123456789abcdef01234567"

abbrev digest : Value → String
digest v = sha

abbrev is_unsafe : Value → Bool
is_unsafe v = false

abbrev first : String
first = "0123456789abcdef0123456789abcdef"

abbrev second : String
second = "fedcba9876543210fedcba9876543210"

abbrev case_of : String → Value
case_of status = dict (field "name" (text "tests.test_a") (field "status" (text status) end))

abbrev cases_of : String → Value
cases_of status = list (cons (case_of status) nil)

-- Everything that these runs compute with.
machine : Unit {0}
unfolding run step begin check_begin check_diagnostic beginning finish end_record link publishable
    all_passed begins begin_records select are_distinct begin_record is_beginning is_run read ending
    checked_end is_end are_same_cases has_passed clean_cases clean_all clean_case safe_name
    safe_file is_mask_text is_retained_name is_plain_file is_duration has_field set_field put_field
    get get_field find_field eq is_hex is_hex_codes
machine = tt

abbrev history : String → List Command
history status =
    begins_run commit "measurement" sha null first "t0"
    ∷ finishes_run first (cases_of status) (int (pos 0)) (bool true) null null "t1"
    ∷ []

abbrev later : List Command
later =
    begins_run commit "measurement" sha null second "t2"
    ∷ begins_run commit "diagnostic" sha (text first) second "t3"
    ∷ finishes_run second (cases_of "success") (int (pos 0)) (bool true) null null "t4"
    ∷ []

abbrev failed : Files
failed = run digest is_unsafe digest digest (history "failure") empty

abbrev begun : Value
begun = beginning first commit "measurement" sha null 1 "t0"

abbrev ended : Value
ended =
    end_record digest is_unsafe digest first begun
      (dict (
          field "order" (int (pos 1)) (
            field "name" (text "tests.test_a") (
              field "file" null (
                field "seconds" null
                  (field "status" (text "failure") (field "classification" (text "okänd") end))))))
        ∷ [])
      (int (pos 0)) (bool true) null null "t1"

failure_is_permanent_example :
    publishable digest is_unsafe digest (run digest is_unsafe digest digest later failed) commit
    ≢ ok true
unfolding machine
failure_is_permanent_example =
    failure_is_permanent digest is_unsafe digest digest failed later commit first begun ended refl
      refl refl refl

abbrev passed : Files
passed = run digest is_unsafe digest digest (history "success") empty

publishable_needs_all_example :
    (e : Value) × (read passed.finished (identifier_of begun) ≡ ok e)
    × (ending digest is_unsafe digest passed begun ≡ ok e)
    × (is_true (get_field e "passed") ≡ true)
    × IsGreen e
unfolding machine
publishable_needs_all_example =
    publishable_needs_all digest is_unsafe digest passed commit first begun refl refl refl

abbrev runs : List Value
runs = begun ∷ beginning second commit "diagnostic" sha (text first) 2 "t3" ∷ []

runs_are_limited_example :
    (count_if (is_in_phase "measurement") runs ≤ 1) × (count_if (is_in_phase "diagnostic") runs ≤ 2)
unfolding machine
runs_are_limited_example =
    runs_are_limited digest is_unsafe digest digest
      (begins_run commit "measurement" sha null first "t0"
        ∷ finishes_run first (cases_of "failure") (int (pos 0)) (bool true) null null "t1"
        ∷ later)
      commit runs refl
