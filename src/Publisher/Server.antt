-- ===== src/Publisher/Server.antt =====
-- `require_protection`, `require_checks`, `require_base` and `reconcile` of `Publisher` in
-- runtime/integration.py: what the server's answers must show.
use nortropic_runtime.Prelude.{
  ℕ, String, Bool, true, false, Option, none, some, List, [], ◌∷◌, ◌&&◌, not, all, length, leb,
  ◌==◌, Result, ok, err, str_eq, if◌then◌else◌,
}
use nortropic_runtime.Prelude.Text.{concat, words, is_hex}
use nortropic_runtime.Value.{
  Value, null, bool, int, pos, text, dict, field, end, eq, get_field, is_dict, is_true, is_truthy,
  as_list, text_and,
}
use nortropic_runtime.Gate.Require.{equals, is_int}
use nortropic_runtime.Workflow.Requests.{fetch}
use nortropic_runtime.Publisher.Remote.{
  Request, git, api, Closed, closed, raised, Asks, ◌>>=◌, ◌>>◌, give, lift, require, ask,
}
use nortropic_runtime.Publisher.Inspect.{as_string, are_same, git_text}

-- The App of each of the two mandatory checks.
pub record Issuers : Type 0 where
  pub tests : ℕ
  pub review : ℕ

unfoldable pub same_issuers : Issuers → Issuers → Bool
same_issuers a b = a.tests == b.tests && a.review == b.review

-- The entry of one check among the two, which is named once.
abbrev pub has_context : String → Value → Bool
has_context name entry = equals (get_field entry "context") name

-- A whole number above 0.
abbrev pub app_number : Value → Option ℕ
app_number (int (pos n)) = if leb 1 n then some n else none
app_number _ = none

abbrev pub app_of : Value → Option ℕ
app_of entry = app_number (get_field entry "app_id")

abbrev pub both : Option ℕ → Option ℕ → Option Issuers
both (some t) (some r) = some (record { tests = t; review = r })
both _ _ = none

abbrev pub trusted : Option Issuers → Result Closed Issuers
trusted none = err (closed "Mandatory checks lack an explicit trusted server App issuer")
trusted (some issuers) = ok issuers

-- Exactly two entries, one for the tests and one for the review, in either order.
unfoldable pub issuers_of : List Value → Result Closed Issuers
issuers_of (a ∷ b ∷ []) =
    if not (is_dict a && is_dict b)
    then err (closed "Exact mandatory server checks are missing or ambiguous")
    else if has_context "runtime/tests" a && has_context "runtime/review" b
    then trusted (both (app_of a) (app_of b))
    else if has_context "runtime/review" a && has_context "runtime/tests" b
    then trusted (both (app_of b) (app_of a))
    else err (closed "Exact mandatory server checks are missing or ambiguous")
issuers_of _ = err (closed "Exact mandatory server checks are missing or ambiguous")

-- `enabled(name)`
abbrev enabled : Value → String → Value
enabled protection name = get_field (get_field protection name) "enabled"

abbrev pub is_false : Value → Bool
is_false (bool false) = true
is_false _ = false

-- The rules of the main branch that must be in force.
unfoldable pub is_protected : Value → Bool
is_protected protection =
    is_true (get_field (get_field protection "required_status_checks") "strict")
    && is_true (enabled protection "enforce_admins")
    && is_false (enabled protection "allow_force_pushes")
    && is_false (enabled protection "allow_deletions")
    && is_true (enabled protection "required_linear_history")
    && is_dict (get_field protection "required_pull_request_reviews")

abbrev pub entries_of : Value → List Value
entries_of checks = elim (as_list (get_field checks "checks")) [ none ↦ [] | some es ↦ es ]

abbrev is_positive : Value → Bool
is_positive (int (pos n)) = leb 1 n
is_positive _ = false

-- A key that must be there.
abbrev pub present : Option Value → Result Closed Value
present none = err raised
present (some v) = ok v

-- The one run of that name is the App's own success on the very commit and binding.
unfoldable pub is_verified : String → String → ℕ → Value → Bool
is_verified candidate binding issuer found =
    is_dict (get_field found "app")
    && is_int (get_field (get_field found "app") "id")
    && eq (get_field (get_field found "app") "id") (int (pos issuer))
    && equals (get_field found "head_sha") candidate
    && equals (get_field found "status") "completed"
    && equals (get_field found "conclusion") "success"
    && equals (get_field found "external_id") binding
    && is_positive (get_field found "id")

-- `[run for run in runs if run.get('name') == name]`
unfoldable pub named_runs : String → List Value → List Value
named_runs name [] = []
named_runs name (r ∷ rs) =
    let rest = named_runs name rs in if equals (get_field r "name") name then r ∷ rest else rest

unfoldable pub check_run : String → String → String → ℕ → List Value → Result Closed Value
check_run candidate binding name issuer runs = elim (named_runs name runs) [
  | found ∷ [] ↦
      if is_verified candidate binding issuer found
      then ok (
          dict (
            field "app_id" (int (pos issuer)) (
              field "check_run_id" (get_field found "id")
                (field "head_sha" (text candidate) (field "binding" (text binding) end)))))
      else err (closed (concat "Mandatory check lacks trusted exact-head success: " name))
  | _ ↦ err (closed (concat "Mandatory check-run missing or ambiguous: " name))
]

-- The runs of a complete answer.
abbrev pub runs_of : Value → Result Closed (List Value)
runs_of result = elim (as_list (get_field result "check_runs")) [
  | none ↦ err (closed "Check-run readback is incomplete or malformed")
  | some runs ↦
      if is_int (get_field result "total_count")
        && eq (get_field result "total_count") (int (pos (length runs)))
        && all is_dict runs
      then ok runs
      else err (closed "Check-run readback is incomplete or malformed")
]

module _ (answer : List Request → Request → Result Closed Value) where
  unfoldable pub require_protection : Asks Issuers
  require_protection = do
    protection ← ask answer (api "branches/main/protection" "GET" null)
    require (is_dict protection && is_dict (get_field protection "required_status_checks"))
        "Required server protection is not active"
    issuers ← lift (issuers_of (entries_of (get_field protection "required_status_checks")))
    require (is_protected protection) "Required server protection is not active"
    give issuers

  unfoldable pub require_checks : String → Issuers → String → Asks Value
  require_checks candidate issuers binding = do
    result ← ask answer (
        api (concat "commits/" (concat candidate "/check-runs?filter=latest&per_page=100")) "GET"
          null)
    runs ← lift (runs_of result)
    tests ← lift (check_run candidate binding "runtime/tests" issuers.tests runs)
    review ← lift (check_run candidate binding "runtime/review" issuers.review runs)
    give (dict (field "runtime/tests" tests (field "runtime/review" review end)))

  unfoldable pub require_base : String → Asks (Unit {0})
  require_base base = do
    ask answer (git ("fetch" ∷ "origin" ∷ "main" ∷ []))
    main ← git_text answer ("rev-parse" ∷ "refs/remotes/origin/main" ∷ [])
    require (str_eq main base) "Remote main changed; new candidate/test/review required"

  -- The merge on the server is one commit on the base, with the tree that was tested.
  unfoldable pub reconcile : Value → String → String → String → Asks Value
  reconcile pr candidate base tree = do
    require
        (is_truthy (get_field pr "merged")
          && equals (get_field (get_field pr "head") "sha") candidate)
        "Remote merge is missing or has wrong head"
    require (text_and (is_hex 40) (get_field pr "merge_commit_sha")) "Missing exact merge identity"
    merged ← as_string (get_field pr "merge_commit_sha")
    ask answer (git ("fetch" ∷ "origin" ∷ "main" ∷ []))
    ask answer (git ("merge-base" ∷ "--is-ancestor" ∷ merged ∷ "refs/remotes/origin/main" ∷ []))
    parents ← git_text answer ("rev-list" ∷ "--parents" ∷ "-n" ∷ "1" ∷ merged ∷ [])
    require (are_same (words parents) (merged ∷ base ∷ []))
        "Squash integration base does not match accepted base"
    found ← git_text answer ("rev-parse" ∷ concat merged "^{tree}" ∷ [])
    require (str_eq found tree) "Integrated tree differs from tested/reviewed candidate"
    url ← lift (present (fetch pr "html_url"))
    give (
        dict (
          field "merged" (bool true) (
            field "candidate" (text candidate) (
              field "merge_commit" (text merged)
                (field "tree" (text tree) (field "url" url end))))))
