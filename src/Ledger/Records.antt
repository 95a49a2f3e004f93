-- ===== src/Ledger/Records.antt =====
-- The records of runtime/failure_ledger.py and how they are read back: `begin_record`, `ending`,
-- `begins`. A file's name is an identifier and one of three kinds; each kind is a dictionary here.
-- Owners, permissions and links of the files are left out.
use nortropic_runtime.Prelude.{
  String, Bool, true, false, none, some, List, [], ◌∷◌, ◌&&◌, ◌||◌, not, any, all, length, leb, ltb,
  ◌^◌, ◌==◌, Result, ok, err, require, ◌>>=◌, ◌>>◌, if◌then◌else◌,
}
use nortropic_runtime.Prelude.Dict.{Dict, get}
use nortropic_runtime.Prelude.Text.{is_hex}
use nortropic_runtime.Value.{
  Value, null, bool, int, pos, text, list, eq, get_field, is_dict, is_true, items, as_text,
  text_and,
}
use nortropic_runtime.Gate.Require.{equals, is_int}
use nortropic_runtime.Task.Validate.{has_field}
use nortropic_runtime.Ledger.Cases.{Refusal, refused, file_not_found, clean_cases}

pub record Files : Type 0 where
  pub begun : Dict Value
  pub finished : Dict Value
  pub classified : Dict Value

abbrev phases : List String
phases =
    "measurement" ∷ "dry-run" ∷ "publication" ∷ "sealed" ∷ "host" ∷ "diagnostic" ∷ "regression" ∷ []

abbrev pub is_phase : Value → Bool
is_phase v = any (equals v) phases

-- `int` of at least 1.
abbrev pub is_positive : Value → Bool
is_positive (int (pos n)) = leb 1 n
is_positive _ = false

-- `RUN.fullmatch(str(value))`
unfoldable pub is_run : Value → Bool
is_run (text s) = is_hex 32 s
is_run (int (pos n)) = leb (10 ^ 31) n && ltb n (10 ^ 32)
is_run _ = false

abbrev is_null : Value → Bool
is_null null = true
is_null _ = false

abbrev is_boolean : Value → Bool
is_boolean (bool _) = true
is_boolean _ = false

abbrev is_text : Value → Bool
is_text (text _) = true
is_text _ = false

-- The conditions on the stored beginning of a run.
unfoldable pub is_beginning : String → Value → Bool
is_beginning identifier value =
    is_dict value
    && equals (get_field value "schema") "nortropic-test-run/1"
    && equals (get_field value "id") identifier
    && text_and (is_hex 40) (get_field value "commit")
    && is_phase (get_field value "phase")
    && text_and (is_hex 64) (get_field value "source_sha256")
    && is_positive (get_field value "attempt")
    && is_text (get_field value "started_at")
    && (if equals (get_field value "phase") "diagnostic"
        then is_run (get_field value "diagnostic_of")
        else is_null (get_field value "diagnostic_of"))

-- `read`: the name is checked before the file.
unfoldable pub read : Dict Value → String → Result Refusal Value
read files identifier =
    if is_hex 32 identifier
    then elim (get files identifier) [ none ↦ err file_not_found | some v ↦ ok v ]
    else err (refused "Invalid ledger record")

unfoldable pub begin_record : Files → String → Result Refusal Value
begin_record files identifier = do
  value ← read files.begun identifier
  require (is_beginning identifier value) (refused "Invalid beginning binding")
  ok value

-- `value['id']` of a beginning, which is a text.
abbrev pub identifier_of : Value → String
identifier_of value = elim (as_text (get_field value "id")) [ none ↦ "" | some s ↦ s ]

-- Every case is as it was cleaned.
unfoldable pub are_same_cases : List Value → List Value → Bool
are_same_cases (original ∷ cases) (checked ∷ rows) =
    is_int (get_field original "order")
    && all (λ key. eq (get_field original key) (get_field checked key))
        ("order" ∷ "name" ∷ "file" ∷ "seconds" ∷ "status" ∷ [])
    && are_same_cases cases rows
are_same_cases _ _ = true

abbrev pub is_success : Value → Bool
is_success case = equals (get_field case "status") "success"

-- `value is False`
abbrev pub is_false : Value → Bool
is_false (bool false) = true
is_false _ = false

abbrev pub same_bool : Bool → Bool → Bool
same_bool true b = b
same_bool false b = not b

abbrev pub as_cases : Value → Result Refusal (List Value)
as_cases (list cases) = ok (items cases)
as_cases _ = err (refused "Invalid terminal cases")

-- The recomputed success: by the primary fields alone.
unfoldable pub has_passed : Value → List Value → Bool
has_passed end cases =
    eq (get_field end "returncode") (int (pos 0))
    && is_true (get_field end "complete")
    && not (is_false (get_field end "terminal_successful"))
    && not (length cases == 0)
    && all is_success cases

abbrev is_optional_boolean : Value → Bool
is_optional_boolean end =
    not (has_field end "terminal_successful") || is_boolean (get_field end "terminal_successful")

abbrev pub is_optional_digest : Value → Bool
is_optional_digest end =
    not (has_field end "observation_sha256")
    || text_and (is_hex 64) (get_field end "observation_sha256")

-- The fields of the stored end of a run.
unfoldable pub is_end : (Value → String) → Value → Value → Bool
is_end digest begin end =
    is_dict end
    && eq (get_field end "id") (get_field begin "id")
    && equals (get_field end "begin_sha256") (digest begin)
    && is_int (get_field end "returncode")
    && is_boolean (get_field end "complete")
    && is_boolean (get_field end "passed")
    && is_optional_boolean end
    && is_text (get_field end "finished_at")

module _ (digest : Value → String) (is_unsafe : Value → Bool)
    (digest_of_name : Value → String) where
  -- The stored end, with its success computed again.
  unfoldable pub checked_end : Value → Value → Result Refusal Value
  checked_end begin end = do
    require (is_end digest begin end) (refused "Invalid terminal binding")
    require (is_optional_digest end) (refused "Invalid primary observation binding")
    cases ← as_cases (get_field end "cases")
    rows ← clean_cases is_unsafe digest_of_name (get_field end "cases")
    require (are_same_cases cases rows) (refused "Invalid terminal case binding")
    require (same_bool (is_true (get_field end "passed")) (has_passed end cases))
        (refused "Terminal success contradicts primary fields")
    ok end

  unfoldable pub ending : Files → Value → Result Refusal Value
  unfolding checked_end
  ending files begin = do end ← read files.finished (identifier_of begin); checked_end begin end

-- `[begin_record(name) for name in ...]`
unfoldable pub begin_records : Files → Dict Value → Result Refusal (List Value)
begin_records files [] = ok []
begin_records files ((identifier, _) ∷ rest) = do
  value ← begin_record files identifier
  values ← begin_records files rest
  ok (value ∷ values)

abbrev pub has_commit : String → Value → Bool
has_commit commit value = equals (get_field value "commit") commit

-- `[r for r in rows if r['commit'] == commit]`
unfoldable pub select : String → List Value → List Value
select commit [] = []
select commit (v ∷ vs) =
    let rest = select commit vs in if has_commit commit v then v ∷ rest else rest

-- `len({r['attempt'] for r in selected}) == len(selected)`
unfoldable pub are_distinct : List Value → Bool
are_distinct [] = true
are_distinct (v ∷ vs) =
    not (any (λ w. eq (get_field v "attempt") (get_field w "attempt")) vs) && are_distinct vs

unfoldable pub begins : Files → String → Result Refusal (List Value)
begins files commit = do
  rows ← begin_records files files.begun
  require (are_distinct (select commit rows)) (refused "Duplicate attempt binding")
  ok (select commit rows)
