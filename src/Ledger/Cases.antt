-- ===== src/Ledger/Cases.antt =====
-- `safe_name` and `clean_cases` of runtime/failure_ledger.py. Durations are whole seconds. Where the
-- source raises a TypeError on a value of another type, the value is refused here.
use nortropic_runtime.Prelude.{
  ℕ, suc, String, Bool, true, false, List, [], ◌∷◌, ◌++◌, ◌&&◌, ◌||◌, not, any, all, length, leb,
  ltb, ◌==◌, Result, ok, err, ◌>>=◌, if◌then◌else◌,
}
use nortropic_runtime.Prelude.Text.{codes, concat, is_hex_codes, eq_codes}
use nortropic_runtime.Value.{
  Value, null, int, pos, text, list, dict, field, end, get_field, is_dict, items,
}
use nortropic_runtime.Gate.Require.{equals}
use nortropic_runtime.Scope.Contract.{split_path}

-- `Refused` with its message, a file that is not there, and one that is.
pub data Refusal : Type 0 where
  refused : String → Refusal
  file_not_found file_exists : Refusal

abbrev is_letter : ℕ → Bool
is_letter c = (leb b'A' c && leb c b'Z') || (leb b'a' c && leb c b'z')

abbrev is_digit : ℕ → Bool
is_digit c = leb b'0' c && leb c b'9'

abbrev is_word : ℕ → Bool
is_word c = is_letter c || is_digit c || c == b'_'

-- `[A-Za-z_][A-Za-z0-9_]*`
abbrev is_python_name : List ℕ → Bool
is_python_name [] = false
is_python_name (c ∷ cs) = (is_letter c || c == b'_') && all is_word cs

-- The parts between the dots.
abbrev split_dots : List ℕ → List ℕ → List (List ℕ)
split_dots part [] = part ∷ []
split_dots part (c ∷ cs) =
    let next = split_dots [] cs in
    let longer = split_dots (part ++ c ∷ []) cs in if c == b'.' then part ∷ next else longer

-- A dotted name of 2 to 21 parts.
abbrev is_dotted_name : List ℕ → Bool
is_dotted_name cs =
    let parts = split_dots [] cs in
    leb 2 (length parts) && leb (length parts) 21 && all is_python_name parts

-- `[a-z][a-z0-9-]{0,59}`
abbrev is_plain_name : List ℕ → Bool
is_plain_name [] = false
is_plain_name (c ∷ cs) =
    leb b'a' c
    && leb c b'z'
    && leb (length cs) 59
    && all (λ x. (leb b'a' x && leb x b'z') || is_digit x || x == b'-') cs

-- `masked-[0-9a-f]{64}`
abbrev is_mask : List ℕ → Bool
is_mask (m ∷ a ∷ s ∷ k ∷ e ∷ d ∷ dash ∷ cs) =
    eq_codes (m ∷ a ∷ s ∷ k ∷ e ∷ d ∷ dash ∷ []) (codes "masked-") && is_hex_codes 64 cs
is_mask _ = false

unfoldable pub is_mask_text : Value → Bool
is_mask_text (text s) = is_mask (codes s)
is_mask_text _ = false

unfoldable pub is_retained_name : Value → Bool
is_retained_name (text s) =
    let cs = codes s in (is_dotted_name cs || is_plain_name cs) && leb (length cs) 512
is_retained_name _ = false

abbrev is_file_character : ℕ → Bool
is_file_character c = is_word c || c == b'.' || c == b'/' || c == b'-'

abbrev starts_at_root : List ℕ → Bool
starts_at_root [] = false
starts_at_root (c ∷ cs) = c == b'/'

-- A relative path of plain characters that does not go up.
unfoldable pub is_plain_file : Value → Bool
is_plain_file (text s) =
    let cs = codes s in
    not (length cs == 0)
    && all is_file_character cs
    && not (starts_at_root cs)
    && not (any (eq_codes (codes "..")) (split_path [] cs))
is_plain_file _ = false

abbrev statuses : List String
statuses = "success" ∷ "failure" ∷ "error" ∷ "timeout" ∷ "skipped" ∷ "unknown" ∷ []

unfoldable pub is_duration : Value → Bool
is_duration null = true
is_duration (int (pos n)) = true
is_duration _ = false

abbrev is_null : Value → Bool
is_null null = true
is_null _ = false

-- What the private policy finds in `str(value)`, and the digest of `str(value)`.
module _ (is_unsafe : Value → Bool) (digest_of_name : Value → String) where
  abbrev masked : Value → Value
  masked v = text (concat "masked-" (digest_of_name v))

  unfoldable pub safe_name : Value → Result Refusal Value
  safe_name v =
      if is_mask_text v
      then (if is_unsafe v
          then err (refused "A display digest collides with private policy")
          else ok v)
      else if not (is_unsafe v) && is_retained_name v
      then ok v
      else ok (masked v)

  unfoldable pub safe_file : Value → Value
  safe_file v =
      if is_null v then v else if is_plain_file v && not (is_unsafe v) then v else masked v

  -- One case, with its number.
  unfoldable pub clean_case : ℕ → Value → Result Refusal Value
  unfolding safe_name safe_file
  clean_case index case =
      if not (is_dict case && any (equals (get_field case "status")) statuses)
      then err (refused "Invalid test observation")
      else if not (is_duration (get_field case "seconds"))
      then err (refused "Invalid test duration")
      else do
        name ← safe_name (get_field case "name")
        ok (
            dict (
              field "order" (int (pos (suc index))) (
                field "name" name (
                  field "file" (safe_file (get_field case "file")) (
                    field "seconds" (get_field case "seconds") (
                      field "status" (get_field case "status") (
                        field "classification"
                          (if equals (get_field case "status") "success"
                            then null
                            else text "okänd")
                          end)))))))

  unfoldable pub clean_all : ℕ → List Value → Result Refusal (List Value)
  unfolding clean_case
  clean_all index [] = ok []
  clean_all index (case ∷ cases) = do
    row ← clean_case index case
    rows ← clean_all (suc index) cases
    ok (row ∷ rows)

  unfoldable pub clean_cases : Value → Result Refusal (List Value)
  unfolding clean_all
  clean_cases (list cases) =
      if ltb 100000 (length (items cases))
      then err (refused "Invalid case list")
      else clean_all 0 (items cases)
  clean_cases _ = err (refused "Invalid case list")
