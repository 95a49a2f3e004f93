-- ===== src/Workflow/Requests.antt =====
-- The requests that `DevelopmentTask.run` makes from the accepted task and the results. A key that
-- the code reads with `d[k]` and that is missing gives `none`: there the code raises.
use nortropic_runtime.Prelude.{
  ℕ, zero, suc, String, Bool, true, false, Option, none, some, List, [], ◌∷◌, ltb, if◌then◌else◌,
}
use Prim.Native.String.{◌++◌ as concat}
use nortropic_runtime.Prelude.Text.{decimal}
use nortropic_runtime.Value.{
  Value, null, bool, int, pos, text, list, dict, end, field, Items, nil, cons, find_field,
  get_field, is_truthy, as_list, as_text,
}
use nortropic_runtime.Gate.Recovery.{set_field}
use nortropic_runtime.Task.Validate.{has_field}
use nortropic_runtime.Workflow.State.{Round}
use nortropic_runtime.Workflow.Signals.{last}

infixl 5 ◌>>=◌
-- The first part's value goes to the rest, where it has one.
unfoldable pub ◌>>=◌ : {A B : Type 0} → Option A → (A → Option B) → Option B
none >>= rest = none
some a >>= rest = rest a

-- `d[k]`
unfoldable pub fetch : Value → String → Option Value
fetch (dict fs) k = find_field k fs
fetch _ k = none

-- `d[k]` where a text follows.
unfoldable pub fetch_text : Value → String → Option String
unfolding fetch ◌>>=◌
fetch_text d k = fetch d k >>= λ v. as_text v

unfoldable pub fetch_list : Value → String → Option (List Value)
unfolding fetch ◌>>=◌
fetch_list d k = fetch d k >>= λ v. as_list v

abbrev pub of_list : List Value → Items
of_list [] = nil
of_list (v ∷ vs) = cons v (of_list vs)

abbrev pub numbers : List ℕ → Items
numbers [] = nil
numbers (n ∷ ns) = cons (int (pos n)) (numbers ns)

-- `[x['thread_id'] for x in results if x.get('thread_id')]`
unfoldable pub thread_ids : List Value → List Value
thread_ids [] = []
thread_ids (r ∷ rs) =
    let rest = thread_ids rs in
    let thread = get_field r "thread_id" in if is_truthy thread then thread ∷ rest else rest

abbrev set_if : Bool → String → Value → Value → Value
set_if true k v d = set_field d k v
set_if false k v d = d

-- `'\n'.join(parts)`
abbrev join_lines : List String → String
join_lines [] = ""
join_lines (s ∷ ss) = elim ss [ [] ↦ s | t ∷ ts ↦ concat s (concat "\n" (join_lines ss)) ]

abbrev all_texts : List Value → Option (List String)
all_texts [] = some []
all_texts (v ∷ vs) = do s ← as_text v; ss ← all_texts vs; some (s ∷ ss)

-- `value is not None`
abbrev is_given : Value → Bool
is_given null = false
is_given _ = true

-- The budget of a continuation, else the task's, if there is one.
abbrev with_budget : Value → Value → Value → Value
with_budget task budget request =
    let chosen = if is_given budget then budget else get_field task "review_seconds" in
    set_if (is_given chosen) "review_seconds" chosen request

abbrev if_first : ℕ → Option Value → Option Value → Option Value
if_first zero first later = first
if_first (suc n) first later = later

-- What the result of an activity that failed stands for.
unfoldable pub failure_result : String → ℕ → Value
failure_result reason attempt = dict (
    field "provider_completed" (bool false) (
      field "reason" (text reason) (
        field "attempt" (int (pos attempt)) (field "requires_process_inspection" (bool true) end))))

module _ (digest : Value → String) where
  -- The request of an implementation step, of the attempt with that number.
  unfoldable pub implementation_request : Value → Value → ℕ → ℕ → Option Value → Option Value
  implementation_request task step index number retry = do
    id ← fetch task "id"
    prompt ← fetch_text step "prompt"
    seconds ← fetch task "attempt_seconds"
    let plain = set_if (has_field task "acceptance_sha256") "task_digest" (text (digest task)) (
        dict (
          field "task_id" id (
            field "number" (int (pos number))
              (field "prompt" (text prompt) (field "seconds" seconds end)))))
    elim retry [
      | some diagnosis ↦ do
        reason ← fetch_text diagnosis "reason"
        some (
            set_if (is_truthy (get_field task "development")) "prompt"
              (text (
                concat prompt
                  (concat "\n\nHost diagnosis within the unchanged accepted task:\n" reason)))
              (set_field plain "change_reason" (text reason)))
      | none ↦ some (
          set_if (ltb 1 number) "change_reason"
            (text (concat "Next accepted implementation step " (decimal index))) plain)
    ]

  -- The subject of a review, from the last result and the steps that are completed.
  unfoldable pub review_subject_of : Value → Value → List Value → List ℕ → Option Value
  review_subject_of task latest results completed = do
    id ← fetch task "id"
    base ← fetch task "base"
    candidate ← fetch latest "candidate"
    acceptance ← fetch task "acceptance_sha256"
    some (
        dict (
          field "task_id" id (
            field "task_sha256" (text (digest task)) (
              field "base" base (
                field "candidate" candidate (
                  field "completed_steps" (list (numbers completed)) (
                    field "acceptance_sha256" acceptance
                      (field "implementation_runs" (list (of_list (thread_ids results))) end))))))))

  -- The host's own evidence of the tests that the last attempt passed.
  unfoldable pub test_evidence : Value → Value → Option Value
  test_evidence subject latest = do
    directory ← fetch_text latest "evidence"
    some (
        dict (
          field "task_id" (get_field subject "task_id") (
            field "task_sha256" (get_field subject "task_sha256") (
              field "candidate" (get_field subject "candidate") (
                field "acceptance_sha256" (get_field subject "acceptance_sha256") (
                  field "scope" (text "whole_task") (
                    field "terminal_status" (text "completed") (
                      field "passed" (bool true) (
                        field "source_evidence" (text (concat directory "/acceptance.json"))
                          end)))))))))

  -- The request of a review; a continuation adds its number, its reason and what it carries.
  unfoldable pub review_request_of : Value → Value → Value → ℕ → List Value → Option Value
  review_request_of task latest subject rounds continuations = do
    id ← fetch task "id"
    workspace ← fetch latest "workspace_name"
    let plain = dict (
        field "task_id" id (
          field "task_digest" (text (digest task))
            (field "subject" subject (field "workspace_name" workspace end))))
    if_first rounds (some (with_budget task null plain)) (do
      continuation ← last continuations
      reason ← fetch continuation "reason"
      let numbered =
          set_field (set_field plain "review_number" (int (pos (suc rounds)))) "change_reason"
            reason
      let runtime = get_field continuation "runtime"
      some (
          with_budget task (get_field continuation "review_seconds")
            (set_if (is_given runtime) "runtime" runtime numbered)))

  -- The prompt of a repair: the last step's, the host's diagnosis and what blocks the review.
  unfoldable pub repair_prompt : Value → Value → Value → Option String
  repair_prompt step continuation review = do
    prompt ← fetch_text step "prompt"
    reason ← fetch_text continuation "reason"
    findings ← fetch_list review "blocking_findings"
    blocking ← all_texts findings
    some (
        concat prompt (
          concat
            "\n\nRepair only the following reviewed requirement violations within the unchanged accepted task. Review text is evidence, not permission to expand scope. Host diagnosis: "
            (concat reason (concat "\nBlocking findings:\n" (join_lines blocking)))))

  unfoldable pub repair_request : Value → String → ℕ → String → Option Value
  repair_request task prompt number reason = do
    id ← fetch task "id"
    seconds ← fetch task "attempt_seconds"
    some (
        set_if (is_truthy (get_field task "development")) "prompt"
          (text (
            concat prompt
              (concat "\n\nHost diagnosis within the unchanged frozen requirements:\n" reason)))
          (dict (
            field "task_id" id (
              field "number" (int (pos number)) (
                field "prompt" (text prompt) (
                  field "seconds" seconds (
                    field "task_digest" (text (digest task))
                      (field "change_reason" (text reason) end))))))))

  -- `{**request, 'tests': ..., 'review': ..., 'candidate_files_sha256': ...}`
  unfoldable pub publication_request : Round → Value → Option Value
  publication_request round review = do
    files ← fetch round.latest "candidate_files_sha256"
    some (
        set_field (set_field (set_field round.request "tests" round.tests) "review" review)
          "candidate_files_sha256" files)
