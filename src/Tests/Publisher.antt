-- ===== src/Tests/Publisher.antt =====
-- The publisher of runtime/integration.py against a server that agrees to everything.
use nortropic_runtime.Prelude.{
  String, ◌≡◌, refl, Bool, true, false, List, [], ◌∷◌, ◌++◌, Result, ok, str_eq, if◌then◌else◌,
}
use nortropic_runtime.Prelude.Text.{concat, words, decimal, is_identifier, is_hex}
use nortropic_runtime.Workflow.Requests.{fetch}
use nortropic_runtime.Value.{
  Value, null, text, list, dict, bool, int, pos, nil, cons, end, field, get_field, find_field,
  put_field, eq,
}
use nortropic_runtime.Gate.Require.{
  runtime, is_git_identity, is_whole, is_same_subject, is_finished, require_evidence,
  require_subject, require_decisions, require_gate,
}
use nortropic_runtime.Gate.Recovery.{set_field}
use nortropic_runtime.Publisher.Remote.{
  Request, git, api, Closed, Log, is_method, ◌>>=◌, give, lift, require, ask,
}
use nortropic_runtime.Publisher.Inspect.{
  inspect_candidate, inspect_paths, inspect_path, is_within_scope, as_string,
}
use nortropic_runtime.Publisher.Server.{
  same_issuers, reconcile, require_protection, require_checks, require_base, issuers_of,
  is_protected, is_verified, named_runs, check_run,
}
use nortropic_runtime.Publisher.Publish.{
  publish, merge_body, check_binding, find_pull, one_match, number_of, open_new, open_pull,
  pull_request, choose, publish_new, merge_checked,
}
use nortropic_runtime.Publisher.Safety.{IsMerge, publish-IsMerge}

abbrev hex64 : String
hex64 = "00000000000000000000000000000000000000000000000000000000000000ff"

abbrev base_commit : String
base_commit = "0123456789abcdef0123456789abcdef01234567"

abbrev candidate_commit : String
candidate_commit = "89abcdef0123456789abcdef0123456789abcdef"

abbrev merge_commit : String
merge_commit = "00000000000000000000000000000000000000aa"

abbrev digest : Value → String
digest v = hex64

abbrev str : Value → String
str v = ""

abbrev task : Value
task = dict (
    field "target" (text runtime) (
      field "id" (text "task-1") (
        field "base" (text base_commit) (
          field "steps" (list (cons (dict (field "provider" (text "codex") end)) nil)) (
            field "acceptance_sha256" (text hex64)
              (field "allowed_paths" (list (cons (text "a.py") nil)) end))))))

abbrev subject : Value
subject = dict (
    field "task_id" (text "task-1") (
      field "task_sha256" (text hex64) (
        field "base" (text base_commit) (
          field "candidate" (text candidate_commit) (
            field "completed_steps" (list (cons (int (pos 0)) nil)) (
              field "acceptance_sha256" (text hex64)
                (field "implementation_runs" (list (cons (text "run-1") nil)) end)))))))

abbrev evidence : Value
evidence = dict (
    field "task_id" (text "task-1") (
      field "task_sha256" (text hex64) (
        field "candidate" (text candidate_commit) (
          field "acceptance_sha256" (text hex64) (
            field "scope" (text "whole_task") (
              field "terminal_status" (text "completed")
                (field "passed" (bool true) (field "reviewer_run" (text "run-2") end))))))))

abbrev approval : Value
approval = set_field (set_field evidence "verdict" (text "approved")) "blocking_findings" (list nil)

abbrev flag : Bool → Value
flag b = dict (field "enabled" (bool b) end)

abbrev context : String → Value
context name = dict (field "context" (text name) (field "app_id" (int (pos 5)) end))

abbrev protection : Value
protection = dict (
    field "required_status_checks"
      (dict (
        field "strict" (bool true) (
          field "checks"
            (list (cons (context "runtime/tests") (cons (context "runtime/review") nil))) end)))
      (field "enforce_admins" (flag true) (
        field "allow_force_pushes" (flag false) (
          field "allow_deletions" (flag false) (
            field "required_linear_history" (flag true)
              (field "required_pull_request_reviews" (dict end) end))))))

abbrev check : String → Value
check name = dict (
    field "name" (text name) (
      field "app" (dict (field "id" (int (pos 5)) end)) (
        field "head_sha" (text candidate_commit) (
          field "status" (text "completed") (
            field "conclusion" (text "success") (
              field "external_id" (text (concat "nortropic-check/1:" hex64))
                (field "id" (int (pos 9)) end)))))))

abbrev checks : Value
checks = dict (
    field "total_count" (int (pos 2)) (
      field "check_runs" (list (cons (check "runtime/tests") (cons (check "runtime/review") nil)))
        end))

-- The pull request, which is also the answer to its opening and to the merge.
abbrev pull : Value
pull = dict (
    field "number" (int (pos 7)) (
      field "head" (dict (field "sha" (text candidate_commit) end)) (
        field "base" (dict (field "ref" (text "main") end)) (
          field "merged" (bool true)
            (field "merge_commit_sha" (text merge_commit) (field "html_url" (text "url") end))))))

abbrev parents_of : List String → String
parents_of (_ ∷ _ ∷ _ ∷ commit ∷ []) = concat commit (concat " " base_commit)
parents_of _ = ""

-- Git's answers by the command.
abbrev git_answer : List String → Value
git_answer (command ∷ args) =
    if str_eq command "rev-list"
    then text (parents_of args)
    else if str_eq command "diff"
    then text "a.py"
    else if str_eq command "ls-tree"
    then text "100644 blob 1234"
    else text base_commit
git_answer [] = null

abbrev server_answer : String → Value
server_answer path =
    if str_eq path "branches/main/protection"
    then protection
    else if str_eq path (concat "pulls?state=all&head=Nortropic:runtime/" candidate_commit)
    then list nil
    else if str_eq path
        (concat "commits/" (concat candidate_commit "/check-runs?filter=latest&per_page=100"))
    then checks
    else pull

abbrev answer : Log → Request → Result Closed Value
answer log (git args) = ok (git_answer args)
answer log (api path method body) = ok (server_answer path)
answer log _ = ok (text base_commit)

abbrev before_merge : Log → Log
before_merge [] = []
before_merge (r ∷ rs) = let rest = before_merge rs in if is_method "PUT" r then [] else r ∷ rest

abbrev after_merge : Log → Log
after_merge [] = []
after_merge (r ∷ rs) = let rest = after_merge rs in if is_method "PUT" r then rs else rest

abbrev all_asked : Log
all_asked = (publish digest str answer runtime task subject evidence approval []).1

abbrev merge : Request
merge = api "pulls/7/merge" "PUT" (merge_body candidate_commit)

merges : all_asked ≡ before_merge all_asked ++ merge ∷ after_merge all_asked
unfolding publish ◌>>=◌ give lift require ask inspect_candidate inspect_paths inspect_path
    is_within_scope as_string require_protection require_checks require_base issuers_of is_protected
    is_verified named_runs check_run check_binding find_pull one_match number_of open_new open_pull
    pull_request choose publish_new merge_checked require_gate require_subject require_evidence
    require_decisions is_git_identity is_whole is_same_subject is_finished get_field find_field
    put_field set_field eq is_identifier is_hex words fetch decimal same_issuers reconcile
merges = refl

publish-IsMerge_example :
    IsMerge digest answer task subject evidence approval (before_merge all_asked) merge
publish-IsMerge_example =
    publish-IsMerge digest str answer runtime task subject evidence approval
      (before_merge all_asked) merge (after_merge all_asked) merges refl
