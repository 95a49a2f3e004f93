-- ===== src/Scope/Contract.antt =====
-- `validate_contract` of runtime/development_scope.py, on a contract that has exactly the required
-- keys, each of its type: that is what the record's fields say.
use nortropic_runtime.Prelude.{
  arith, ℕ, ◌+◌, String, ◌≡◌, Bool, true, false, List, [], ◌∷◌, ◌++◌, map, ◌&&◌, ◌||◌, not, leb,
  ◌==◌, all, any, length, Result, ok, require, ◌>>=◌, ◌>>◌, str_eq, if◌then◌else◌,
}
use nortropic_runtime.Prelude.Dict.{Dict}
use nortropic_runtime.Prelude.Text.{codes, eq_codes, is_hex, is_identifier}

-- `ScopeClosed` with its message, a `KeyError`, and an exception of a callback.
pub data Error : Type 0 where
  closed : String → Error
  key_error : String → Error
  callback_raised : Error

pub record Contract : Type 0 where
  pub schema : ℕ
  pub id : String
  pub target : String
  pub authority_sha256 : String
  pub acceptance_sha256 : String
  pub runtime_revision : String
  pub office_revision : String
  pub work : Dict (List String)
  pub model_calls : ℕ
  pub implementation_attempts : ℕ

-- `str.casefold` on the ASCII texts that the path pattern admits.
abbrev casefold : List ℕ → List ℕ
casefold cs = map (λ c. if leb b'A' c && leb c b'Z' then c + 32 else c) cs

-- `path.split('/')`, the current part collected in order.
abbrev pub split_path : List ℕ → List ℕ → List (List ℕ)
split_path part [] = part ∷ []
split_path part (c ∷ cs) =
    let next = split_path [] cs in
    let longer = split_path (part ++ c ∷ []) cs in if c == b'/' then part ∷ next else longer

abbrev is_path_character : ℕ → Bool
is_path_character c =
    (leb b'A' c && leb c b'Z')
    || (leb b'a' c && leb c b'z')
    || (leb b'0' c && leb c b'9')
    || c == b'_'
    || c == b'.'
    || c == b'/'
    || c == b'-'

-- `re.fullmatch('tools/[A-Za-z0-9_./-]+', path)`
abbrev pub matches_path : List ℕ → Bool
matches_path (t ∷ o ∷ o' ∷ l ∷ s ∷ slash ∷ c ∷ cs) =
    eq_codes (t ∷ o ∷ o' ∷ l ∷ s ∷ slash ∷ []) (codes "tools/") && all is_path_character (c ∷ cs)
matches_path _ = false

abbrev pub is_dot_part : List ℕ → Bool
is_dot_part part = eq_codes part [] || eq_codes part (codes ".") || eq_codes part (codes "..")

-- The path itself; that it does not overlap an earlier one is tested beside it.
is_work_path : List ℕ → Bool
is_work_path cs =
    matches_path cs
    && not (any is_dot_part (split_path [] cs))
    && not (eq_codes (casefold cs) (codes "tools/kontor.py"))
    && not (eq_codes (casefold cs) (codes "tools/assignment_preparation.py"))

-- The inner loop: `seen` grows by each path.
check_paths : List (List ℕ) → List String → Result Error (List (List ℕ))
unfolding is_work_path
check_paths seen [] = ok seen
check_paths seen (path ∷ paths) =
    let folded = casefold (codes path) in
    require (is_work_path (codes path) && not (any (eq_codes folded) seen))
      (closed "Unsafe or overlapping logical work path")
    >> check_paths (folded ∷ seen) paths

is_empty : List String → Bool
is_empty [] = true
is_empty (_ ∷ _) = false

-- The outer loop over the deliverables.
unfoldable pub check_work : List (List ℕ) → Dict (List String) → Result Error (Unit {0})
unfolding check_paths is_empty
check_work seen [] = ok tt
check_work seen ((key, paths) ∷ work) =
    require (is_identifier key) (closed "Invalid scoped identity")
    >> require (not (str_eq key "goal") && not (is_empty paths))
        (closed "Explicit logical work paths required")
    >> (check_paths seen paths >>= λ seen'. check_work seen' work)

unfoldable pub validate_contract : Contract → Result Error (Unit {0})
validate_contract c = do
  require (c.schema == 1) (closed "Unsupported contract")
  require (str_eq c.id "office-ap11" && str_eq c.target "Nortropic/nortropic-projektkontor")
      (closed "Only the accepted AP11 Office application is supported")
  require
      (is_hex 64 c.authority_sha256
        && is_hex 64 c.acceptance_sha256
        && is_hex 40 c.runtime_revision
        && is_hex 40 c.office_revision)
      (closed "Unbound accepted input")
  require (c.model_calls == 48 && c.implementation_attempts == 6)
      (closed "The accepted resource ceilings cannot be changed")
  require (length c.work == 2) (closed "Exactly two accepted logical deliverables required")
  check_work [] c.work

pub validate_contract_ceilings :
    (c : Contract)
    → validate_contract c ≡ ok tt
    → (c.model_calls ≡ 48) × (c.implementation_attempts ≡ 6) × (length c.work ≡ 2)
unfolding validate_contract
validate_contract_ceilings c h = ground arith
