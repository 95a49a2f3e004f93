-- ===== src/Ledger/Operations.antt =====
-- The operations of `Ledger` in runtime/failure_ledger.py, each under the ledger's lock. A new
-- identifier (`uuid.uuid4().hex`) and the time are given to the operation.
use nortropic_runtime.Prelude.{
  ℕ, suc, String, Bool, true, false, none, some, List, [], ◌∷◌, ◌++◌, ◌&&◌, ◌||◌, not, any, all,
  length, leb, ◌==◌, count_if, Result, ok, err, require, ◌>>=◌, ◌>>◌, str_eq, if◌then◌else◌,
}
use nortropic_runtime.Prelude.Dict.{Dict, get}
use nortropic_runtime.Prelude.Text.{is_hex}
use nortropic_runtime.Value.{
  Value, null, bool, int, pos, text, list, dict, field, end, eq, get_field, is_true, text_and,
}
use nortropic_runtime.Gate.Require.{equals, is_int}
use nortropic_runtime.Gate.Recovery.{set_field}
use nortropic_runtime.Workflow.Requests.{of_list}
use nortropic_runtime.Ledger.Cases.{Refusal, refused, file_exists, clean_cases}
use nortropic_runtime.Ledger.Records.{
  Files, is_phase, is_success, begin_record, ending, begins, has_commit,
}

-- `write`: a record is linked to its name, which never replaces one that is there.
unfoldable pub link : Dict Value → String → Value → Result Refusal (Dict Value)
link files identifier value = elim (get files identifier) [
  | none ↦ ok (files ++ (identifier, value) ∷ [])
  | some _ ↦ err file_exists
]

abbrev pub is_in_phase : String → Value → Bool
is_in_phase phase value = equals (get_field value "phase") phase

-- The identifier, where it is the text of a run.
abbrev pub run_text : Value → Result Refusal String
run_text (text s) =
    if is_hex 32 s then ok s else err (refused "A diagnostic needs an explicit failed run")
run_text _ = err (refused "A diagnostic needs an explicit failed run")

abbrev is_null : Value → Bool
is_null null = true
is_null _ = false

-- `None`, or a Boolean.
abbrev is_optional : Value → Bool
is_optional null = true
is_optional (bool _) = true
is_optional _ = false

abbrev is_boolean : Value → Bool
is_boolean (bool _) = true
is_boolean _ = false

abbrev is_not_false : Value → Bool
is_not_false (bool false) = false
is_not_false _ = true

-- The stored beginning.
unfoldable pub beginning : String → String → String → String → Value → ℕ → String → Value
beginning identifier commit phase source_sha256 diagnostic_of attempt now = dict (
    field "schema" (text "nortropic-test-run/1") (
      field "id" (text identifier) (
        field "commit" (text commit) (
          field "attempt" (int (pos attempt)) (
            field "phase" (text phase) (
              field "source_sha256" (text source_sha256)
                (field "diagnostic_of" diagnostic_of (field "started_at" (text now) end))))))))

module _ (digest : Value → String) (is_unsafe : Value → Bool)
    (digest_of_name : Value → String) where
  -- A diagnostic names a failed run on the commit, and at most two are booked for it.
  unfoldable pub check_diagnostic : Files → String → Value → List Value → Result Refusal (Unit {0})
  check_diagnostic files commit diagnostic_of previous = do
    run ← run_text diagnostic_of
    original ← begin_record files run
    failure ← ending digest is_unsafe digest_of_name files original
    require (has_commit commit original && not (is_true (get_field failure "passed")))
        (refused "The diagnostic must bind a failed run on this commit")
    require (not (leb 2 (count_if (is_in_phase "diagnostic") previous)))
        (refused "Two diagnostic reruns already booked for this commit")

  -- What a new run needs besides its own fields.
  unfoldable pub check_begin :
      Files → String → String → Value → List Value → Result Refusal (Unit {0})
  unfolding check_diagnostic
  check_begin files commit phase diagnostic_of previous = do
    require (not (str_eq phase "measurement" && any (is_in_phase "measurement") previous))
        (refused "A repeated whole suite must be an explicit diagnostic")
    if str_eq phase "diagnostic"
        then check_diagnostic files commit diagnostic_of previous
        else require (is_null diagnostic_of) (refused "Only a diagnostic names a prior run")

  unfoldable pub begin :
      (commit phase source_sha256 : String) (diagnostic_of : Value) (identifier now : String)
      → Files
      → Result Refusal Files
  unfolding check_begin beginning
  begin commit phase source_sha256 diagnostic_of identifier now files = do
    require (is_hex 40 commit && is_phase (text phase) && is_hex 64 source_sha256)
        (refused "Invalid run binding")
    previous ← begins files commit
    check_begin files commit phase diagnostic_of previous
    begun ←
        link files.begun identifier (
          beginning identifier commit phase source_sha256 diagnostic_of (suc (length previous)) now)
    ok (record files { begun = begun })

  -- The stored end.
  unfoldable pub end_record :
      String → Value → List Value → Value → Value → Value → Value → String → Value
  end_record identifier begun rows returncode complete terminal_successful observation now =
      let plain = dict (
        field "id" (text identifier) (
          field "begin_sha256" (text (digest begun)) (
            field "finished_at" (text now) (
              field "cases" (list (of_list rows)) (
                field "returncode" returncode (
                  field "complete" (bool (is_true complete)) (
                    field "passed"
                      (bool (
                        eq returncode (int (pos 0))
                        && is_true complete
                        && is_not_false terminal_successful
                        && not (length rows == 0)
                        && all is_success rows))
                      (field "repair_proven"
                        (if is_in_phase "diagnostic" begun then bool false else null) end)))))))) in
      let reported =
        if is_null terminal_successful
        then plain
        else set_field plain "terminal_successful" terminal_successful in
      if is_null observation then reported else set_field reported "observation_sha256" observation

  unfoldable pub finish :
      (identifier : String) (cases returncode complete observation terminal_successful : Value)
      (now : String)
      → Files
      → Result Refusal (Value × Files)
  unfolding end_record
  finish identifier cases returncode complete observation terminal_successful now files = do
    require (is_int returncode && is_boolean complete && is_optional terminal_successful)
        (refused "Invalid terminal observation")
    require (is_null observation || text_and (is_hex 64) observation)
        (refused "Invalid primary observation binding")
    rows ← clean_cases is_unsafe digest_of_name cases
    begun ← begin_record files identifier
    let value =
        end_record identifier begun rows returncode complete terminal_successful observation now
    finished ← link files.finished identifier value
    ok (value, record files { finished = finished })

  -- The loop of `publishable`: an end that is missing or refused is as good as a failed one.
  unfoldable pub all_passed : Files → List Value → Bool
  all_passed files [] = true
  all_passed files (run ∷ runs) =
      let rest = all_passed files runs in
      elim (ending digest is_unsafe digest_of_name files run) [
        | err _ ↦ false
        | ok e ↦ is_true (get_field e "passed") && rest
      ]

  unfoldable pub publishable : Files → String → Result Refusal Bool
  unfolding all_passed
  publishable files commit = do runs ← begins files commit; ok (all_passed files runs)

  unfoldable pub require_publishable : Files → String → Result Refusal (Unit {0})
  unfolding publishable
  require_publishable files commit = do
    answer ← publishable files commit
    require answer (
        refused
          "An earlier failed or unfinished run remains on this commit; a green rerun is not a repair")
