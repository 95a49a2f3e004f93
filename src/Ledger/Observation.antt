-- ===== src/Ledger/Observation.antt =====
-- `valid_observation` and `Ledger.consume` of runtime/failure_ledger.py: the one run of a sealed
-- measurement, and its entry in the ledger. Durations are whole seconds.
use nortropic_runtime.Prelude.{
  ℕ, suc, String, Bool, true, false, none, some, List, [], ◌∷◌, ◌&&◌, not, any, all, length, ◌==◌,
  Result, ok, err, if◌then◌else◌,
}
use nortropic_runtime.Prelude.Text.{codes, eq_codes, is_hex}
use nortropic_runtime.Value.{
  Value, null, bool, int, pos, text, list, dict, nil, field, end, eq, get_field, is_dict, is_true,
  as_list, text_and,
}
use nortropic_runtime.Gate.Require.{equals, is_int}
use nortropic_runtime.Scope.Contract.{split_path}
use nortropic_runtime.Task.Validate.{has_field}
use nortropic_runtime.Workflow.Requests.{of_list}
use nortropic_runtime.Ledger.Cases.{Refusal, refused}
use nortropic_runtime.Ledger.Records.{Files, is_success, is_positive, same_bool}
use nortropic_runtime.Ledger.Operations.{begin, finish, require_publishable}

abbrev is_false : Value → Bool
is_false (bool false) = true
is_false _ = false

abbrev is_boolean : Value → Bool
is_boolean (bool _) = true
is_boolean _ = false

abbrev is_text : Value → Bool
is_text (text _) = true
is_text _ = false

abbrev is_natural : Value → Bool
is_natural (int (pos _)) = true
is_natural _ = false

abbrev starts_at_root : List ℕ → Bool
starts_at_root [] = false
starts_at_root (c ∷ cs) = c == b'/'

-- `record.get('cases', [])`
abbrev pub cases_of : Value → Value
cases_of r = if has_field r "cases" then get_field r "cases" else list nil

-- `record.get('returncode', 1)`
abbrev pub returncode_of : Value → Value
returncode_of r = if has_field r "returncode" then get_field r "returncode" else int (pos 1)

-- The report of the terminal, where it is a Boolean.
abbrev pub terminal_of : Value → Value
terminal_of r =
    if is_boolean (get_field r "terminal_successful")
    then get_field r "terminal_successful"
    else null

-- The fields of the boundary and the files whose digests they carry.
abbrev bound_files : List (String × String)
bound_files =
    ("script_sha256", "scripts/matning_provanvandare.py")
    ∷ ("observer_sha256", "runtime/measurement_observer.py")
    ∷ ("queue_sha256", "scripts/measurement_queue.py")
    ∷ []

-- The measurement ran the adopted code, as another user than its owner.
unfoldable pub is_bound_boundary : Value → Value → Bool
is_bound_boundary boundary expected =
    is_dict expected
    && is_dict boundary
    && all
        (λ pair.
          text_and (is_hex 64) (get_field expected pair.1)
          && eq (get_field boundary pair.0) (get_field expected pair.1))
        bound_files
    && is_positive (get_field boundary "owner_uid")
    && is_positive (get_field boundary "test_uid")
    && not (eq (get_field boundary "owner_uid") (get_field boundary "test_uid"))

-- The reports of the producer, beside its cases.
unfoldable pub is_closed_record : Value → Bool
is_closed_record r =
    is_true (get_field r "credential_free_execution")
    && is_int (get_field r "case_timing_schema")
    && eq (get_field r "case_timing_schema") (int (pos 3))
    && equals (get_field r "observation_kind") "owner-received-events/1"
    && is_true (get_field r "protected_primary_files")
    && is_true (get_field r "shared_interpreter_state")
    && is_true (get_field r "complete")
    && is_true (get_field r "cleanup_verified")
    && is_false (get_field r "timed_out")
    && is_false (get_field r "overflow")
    && eq (get_field r "fixture_errors") (list nil)
    && is_boolean (get_field r "terminal_successful")
    && is_boolean (get_field r "passed")
    && is_int (get_field r "returncode")
    && is_positive (get_field r "test_count")

abbrev is_relative_file : Value → Bool
is_relative_file (text s) =
    let cs = codes s in
    not (starts_at_root cs) && not (any (eq_codes (codes "..")) (split_path [] cs))
is_relative_file _ = false

-- The cases are numbered from `n` on, with a duration, a name and a relative file each.
unfoldable pub are_timed_cases : ℕ → List Value → Bool
are_timed_cases n [] = true
are_timed_cases n (case ∷ cases) =
    is_dict case
    && is_int (get_field case "order")
    && eq (get_field case "order") (int (pos n))
    && is_natural (get_field case "seconds")
    && is_text (get_field case "name")
    && is_relative_file (get_field case "file")
    && are_timed_cases (suc n) cases

-- No name stands twice.
unfoldable pub are_named_apart : List Value → Bool
are_named_apart [] = true
are_named_apart (case ∷ cases) =
    not (any (λ c. eq (get_field case "name") (get_field c "name")) cases) && are_named_apart cases

-- The manifest of the cases: what was to run.
abbrev manifest_rows : List Value → List Value
manifest_rows [] = []
manifest_rows (case ∷ cases) =
    dict (
      field "id" (get_field case "order")
        (field "name" (get_field case "name") (field "file" (get_field case "file") end)))
    ∷ manifest_rows cases

-- SHA-256 over the canonical text of the manifest.
module _ (manifest_digest : Value → String) where
  unfoldable pub are_valid_cases : Value → List Value → Bool
  are_valid_cases r cases =
      eq (get_field r "test_count") (int (pos (length cases)))
      && are_timed_cases 1 cases
      && are_named_apart cases
      && equals (get_field r "manifest_sha256")
          (manifest_digest (list (of_list (manifest_rows cases))))
      && same_bool (is_true (get_field r "passed")) (
          eq (get_field r "returncode") (int (pos 0))
          && is_true (get_field r "terminal_successful")
          && all is_success cases)

  unfoldable pub valid_observation : Value → Value → Bool
  unfolding are_valid_cases
  valid_observation r expected =
      is_bound_boundary (get_field r "credential_boundary") expected
      && is_closed_record r
      && elim (as_list (get_field r "cases")) [
        | none ↦ false
        | some cases ↦ are_valid_cases r cases
      ]

  module _ (digest : Value → String) (is_unsafe : Value → Bool)
      (digest_of_name : Value → String) where
    -- The measurement is entered as a run of its own, which passes or is refused.
    unfoldable pub consume :
        (commit phase source_sha256 : String) (r expected : Value) (identifier now : String)
        → Files
        → Result Refusal String × Files
    consume commit phase source_sha256 r expected identifier now files =
        elim (require_publishable digest is_unsafe digest_of_name files commit) [
          | err e ↦ (err e, files)
          | ok _ ↦
              elim (begin digest is_unsafe digest_of_name commit phase source_sha256 null identifier
                now files) [
                  | err e ↦ (err e, files)
                  | ok begun ↦
                      elim (finish digest is_unsafe digest_of_name identifier (cases_of r)
                        (returncode_of r) (bool (valid_observation r expected)) null (terminal_of r)
                        now begun) [
                          | err e ↦ (err e, begun)
                          | ok (result, finished) ↦
                              if is_true (get_field result "passed")
                              then (ok identifier, finished)
                              else (
                                err (refused "Sealed measurement failed or lacks case timing"),
                                finished,
                              )
                        ]
                ]
        ]
