-- ===== src/Tests/Workflow.antt =====
-- One task through runtime/workflow.py: a failed attempt, a retry, a review that approves, and the
-- publication.
use nortropic_runtime.Prelude.{String, refl, true, List, [], ◌∷◌}
use nortropic_runtime.Prelude.Text.{is_identifier, is_hex, has_words, decimal}
use nortropic_runtime.Value.{
  Value, text, list, dict, bool, int, pos, nil, cons, end, field, find_field, put_field, get_field,
  eq,
}
use nortropic_runtime.Gate.Require.{
  runtime, is_git_identity, is_whole, is_same_subject, is_finished, require_evidence,
  require_subject, require_decisions, require_gate,
}
use nortropic_runtime.Gate.Recovery.{set_field}
use nortropic_runtime.Task.Validate.{has_field}
use nortropic_runtime.Task.Revision.{step_at}
use nortropic_runtime.Workflow.State.{
  Task, Event, start, retry, returned, failed, proceed, timer, initial,
}
use nortropic_runtime.Workflow.Signals.{last, retry_after_diagnosis, accepts_retry}
use nortropic_runtime.Workflow.Requests.{
  ◌>>=◌, fetch, fetch_text, fetch_list, thread_ids, failure_result, implementation_request,
  review_subject_of, test_evidence, review_request_of, publication_request,
}
use nortropic_runtime.Workflow.Steps.{
  or_raise, is_accepted_result, reviewer_runs, is_repeated, begin_attempt, begin_review, enter_step,
  finish_attempt, begin_publication, decide_review, finish_review,
}
use nortropic_runtime.Workflow.Run.{
  is_admitted, wait_for_capacity, wake, complete, retry_step, run_on, finish, finish_failed,
  take_result, begin, step, run,
}
use nortropic_runtime.Workflow.Approval.{HasApproval}
use nortropic_runtime.Workflow.Published.{publication_needs_approval}
use nortropic_runtime.Prelude.{length, ◌+◌, ◌≡◌}
use nortropic_runtime.Workflow.Attempts.{pending}
use nortropic_runtime.Workflow.Counted.{attempts_are_results}
use nortropic_runtime.Workflow.Waiting.{IsIdle, no_unasked_retry}

abbrev hex64 : String
hex64 = "00000000000000000000000000000000000000000000000000000000000000ff"

abbrev digest : Value → String
digest v = hex64

abbrev task : Value
task = dict (
    field "target" (text runtime) (
      field "id" (text "task-1") (
        field "base" (text "0123456789abcdef0123456789abcdef01234567") (
          field "steps"
            (list
              (cons (dict (field "provider" (text "codex") (field "prompt" (text "go") end))) nil))
            (field "attempt_seconds" (int (pos 60))
              (field "acceptance_sha256" (text hex64) end))))))

abbrev result : Value
result = dict (
    field "provider_completed" (bool true) (
      field "phase_acceptance_passed" (bool true) (
        field "candidate" (text "89abcdef0123456789abcdef0123456789abcdef") (
          field "candidate_files_sha256" (text hex64) (
            field "evidence" (text "runs")
              (field "workspace_name" (text "w") (field "thread_id" (text "run-1") end)))))))

abbrev approval : Value
approval = dict (
    field "task_id" (text "task-1") (
      field "task_sha256" (text hex64) (
        field "candidate" (text "89abcdef0123456789abcdef0123456789abcdef") (
          field "acceptance_sha256" (text hex64) (
            field "scope" (text "whole_task") (
              field "terminal_status" (text "completed") (
                field "verdict" (text "approved") (
                  field "blocking_findings" (list nil)
                    (field "reviewer_run" (text "run-2") end)))))))))

abbrev request : Value
request = dict (field "expected_attempt" (int (pos 1)) (field "reason" (text "fixed") end))

abbrev stale : Value
stale = dict (field "expected_attempt" (int (pos 7)) (field "reason" (text "again") end))

-- Everything that these runs compute with.
machine : Unit {0}
unfolding run step begin take_result finish finish_failed run_on retry_step complete wake
    wait_for_capacity is_admitted finish_review decide_review begin_publication finish_attempt
    enter_step begin_review begin_attempt is_repeated reviewer_runs is_accepted_result or_raise
    publication_request review_request_of test_evidence review_subject_of implementation_request
    failure_result thread_ids fetch_list fetch_text fetch ◌>>=◌ accepts_retry retry_after_diagnosis
    last initial step_at has_field set_field require_decisions require_subject require_evidence
    require_gate is_finished is_same_subject is_whole is_git_identity eq get_field put_field
    find_field decimal has_words is_hex is_identifier
machine = tt

abbrev events : List Event
events =
    start task
    ∷ failed "timeout"
    ∷ retry request
    ∷ proceed
    ∷ returned result
    ∷ returned approval
    ∷ returned (text "merged")
    ∷ []

publication_needs_approval_example : HasApproval digest (run digest events initial)
unfolding machine
publication_needs_approval_example = publication_needs_approval digest events refl

abbrev stopped : Task
stopped = run digest (start task ∷ failed "timeout" ∷ []) initial

abbrev noise : List Event
noise = retry stale ∷ proceed ∷ returned result ∷ timer ∷ proceed ∷ []

no_unasked_retry_example : IsIdle stopped (run digest noise stopped)
unfolding machine
no_unasked_retry_example = no_unasked_retry digest stopped noise refl refl refl

attempts_are_results_example :
    (run digest events initial).attempts
    ≡ length (run digest events initial).results + pending (run digest events initial).position
unfolding machine
attempts_are_results_example = attempts_are_results digest events refl
