-- ===== src/Tests/Gate.antt =====
-- The gate of runtime/integration.py on one task and its evidence.
use nortropic_runtime.Prelude.{String, ◌≡◌, ◌≢◌, refl, true, false, ok}
use nortropic_runtime.Prelude.Text.{is_identifier, is_hex, has_words}
use nortropic_runtime.Value.{
  Value, text, list, dict, bool, int, pos, nil, cons, end, field, find_field, put_field, get_field,
  eq,
}
use nortropic_runtime.Gate.Require.{
  runtime, targets, is_git_identity, is_whole, is_same_subject, is_finished, is_member,
  require_evidence, require_subject, require_decisions, require_gate,
}
use nortropic_runtime.Gate.Recovery.{repair, set_field, is_rejection, recovery_kind}
use nortropic_runtime.Gate.Passed.{IsPassed, gate-IsPassed}
use nortropic_runtime.Gate.Approval.{approval_is_of_one_candidate, repair_follows_rejection}

abbrev hex64 : String
hex64 = "00000000000000000000000000000000000000000000000000000000000000ff"

abbrev base_commit : String
base_commit = "0123456789abcdef0123456789abcdef01234567"

abbrev candidate_commit : String
candidate_commit = "89abcdef0123456789abcdef0123456789abcdef"

abbrev digest : Value → String
digest v = hex64

abbrev task : Value
task = dict (
    field "target" (text runtime) (
      field "id" (text "task-1") (
        field "base" (text base_commit) (
          field "steps" (list (cons (dict (field "provider" (text "codex") end)) nil))
            (field "acceptance_sha256" (text hex64) end)))))

abbrev subject : Value
subject = dict (
    field "task_id" (text "task-1") (
      field "task_sha256" (text hex64) (
        field "base" (text base_commit) (
          field "candidate" (text candidate_commit) (
            field "completed_steps" (list (cons (int (pos 0)) nil)) (
              field "acceptance_sha256" (text hex64)
                (field "implementation_runs" (list (cons (text "run-1") nil)) end)))))))

abbrev evidence : Value
evidence = dict (
    field "task_id" (text "task-1") (
      field "task_sha256" (text hex64) (
        field "candidate" (text candidate_commit) (
          field "acceptance_sha256" (text hex64) (
            field "scope" (text "whole_task") (
              field "terminal_status" (text "completed")
                (field "passed" (bool true) (field "reviewer_run" (text "run-2") end))))))))

abbrev approval : Value
approval = set_field (set_field evidence "verdict" (text "approved")) "blocking_findings" (list nil)

abbrev rejection : Value
rejection =
    set_field
      (set_field (set_field evidence "verdict" (text "rejected")) "blocking_findings"
        (list (cons (text "no test") nil)))
      "summary" (text "incomplete")

-- The same commit, implemented by two runs.
abbrev other_subject : Value
other_subject =
    set_field subject "implementation_runs" (list (cons (text "run-1") (cons (text "run-3") nil)))

approved_gate : require_gate digest task subject evidence approval targets ≡ ok tt
unfolding require_gate require_subject require_evidence require_decisions is_git_identity is_whole
    is_same_subject is_finished get_field find_field put_field set_field eq is_identifier is_hex
approved_gate = refl

other_gate : require_gate digest task other_subject evidence approval targets ≡ ok tt
unfolding require_gate require_subject require_evidence require_decisions is_git_identity is_whole
    is_same_subject is_finished get_field find_field put_field set_field eq is_identifier is_hex
other_gate = refl

rejected_repair : recovery_kind digest task subject evidence rejection ≡ repair
unfolding recovery_kind is_rejection require_gate require_subject require_evidence require_decisions
    is_git_identity is_whole is_same_subject is_finished get_field find_field put_field set_field eq
    is_identifier is_hex has_words
rejected_repair = refl

gate-IsPassed_example : IsPassed digest task subject evidence approval
gate-IsPassed_example = gate-IsPassed digest task subject evidence approval targets approved_gate

approval_is_of_one_candidate_example :
    (digest task ≡ digest task)
    × (get_field subject "candidate" ≡ get_field other_subject "candidate")
approval_is_of_one_candidate_example =
    approval_is_of_one_candidate digest approval task subject evidence task other_subject evidence
      targets targets approved_gate other_gate

repair_follows_rejection_example :
    (require_gate digest task subject evidence rejection targets ≢ ok tt)
    × (get_field rejection "verdict" ≡ text "rejected")
    × (get_field rejection "candidate" ≡ get_field subject "candidate")
    × (is_finished rejection ≡ true)
    × (is_member (get_field rejection "reviewer_run") (get_field subject "implementation_runs")
        ≡ false)
    × (get_field evidence "passed" ≡ bool true)
repair_follows_rejection_example =
    repair_follows_rejection digest task subject evidence rejection rejected_repair
