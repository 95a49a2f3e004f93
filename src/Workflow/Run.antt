-- ===== src/Workflow/Run.antt =====
-- The events that the engine delivers to `DevelopmentTask`, and `execute_activity` with its capacity
-- waits: an activity that reports no capacity is asked again when a timer has run.
use nortropic_runtime.Prelude.{
  ℕ, String, Bool, true, false, none, some, List, [], ◌∷◌, ◌++◌, ◌&&◌, ◌||◌, length, if◌then◌else◌,
}
use nortropic_runtime.Value.{Value, text, dict, field, end, get_field, is_truthy}
use nortropic_runtime.Task.Validate.{has_field}
use nortropic_runtime.Task.Revision.{step_at}
use nortropic_runtime.Workflow.State.{
  waiting_capacity, completed, waiting_publication_reconciliation, no_reason, given, Position,
  at_start, at_end, at_access, at_diagnosis, at_execution, at_review, at_decision, at_repair,
  at_repair_diagnosis, at_publication, at_reconciliation, Task, Event, start, retry, reconcile,
  continue, resume, returned, failed, proceed, timer,
}
use nortropic_runtime.Workflow.Signals.{
  retry_after_diagnosis, reconcile_publication, continue_after_review, resume_after_access,
}
use nortropic_runtime.Workflow.Requests.{◌>>=◌, fetch, fetch_list, failure_result}
use nortropic_runtime.Workflow.Steps.{
  or_raise, begin_attempt, enter_step, finish_attempt, begin_publication, finish_review,
  begin_repair, continue_review, finish_repair,
}

-- Whether the awaited activity may report that there is no capacity: in the finite development, and
-- for a review with a budget.
unfoldable pub is_admitted : Position → Value → Bool
is_admitted (at_review round) task =
    is_truthy (get_field task "development") || has_field round.request "review_seconds"
is_admitted _ task = is_truthy (get_field task "development")

abbrev pub is_awaiting : Position → Bool
is_awaiting (at_execution _ _) = true
is_awaiting (at_review _) = true
is_awaiting (at_repair _ _) = true
is_awaiting (at_publication _) = true
is_awaiting _ = false

-- The wait for capacity: the phase is kept aside until the timer has run.
unfoldable pub wait_for_capacity : Value → Task → Task
wait_for_capacity result w = or_raise w (do
  capacity ← fetch result "capacity"
  reason ← fetch capacity "reason"
  some (record w {
    phase = waiting_capacity;
    waiting_reason = given reason;
    sleeping = some w.phase;
  }))

unfoldable pub wake : Task → Task
wake w = elim w.sleeping [
  | none ↦ w
  | some phase ↦ record w { phase = phase; waiting_reason = no_reason; sleeping = none }
]

unfoldable pub complete : Value → Task → Task
complete result w = record w { integration = result; phase = completed; position = at_end }

abbrev pub is_asleep : Task → Bool
is_asleep w = elim w.sleeping [ none ↦ false | some _ ↦ true ]

module _ (digest : Value → String) where
  -- The step's loop goes on with the task that was accepted instead.
  unfoldable pub resume_step : ℕ → Value → Task → Task
  unfolding begin_attempt
  resume_step index task w = or_raise w (do
    continuation ← fetch task "continuation"
    steps ← fetch_list task "steps"
    step ← step_at steps index
    some (
        begin_attempt digest index step (record w {
          accepted_task = task;
          continuations = w.continuations ++ continuation ∷ [];
          access_request = none;
        })))

  unfoldable pub retry_step : ℕ → Task → Task
  unfolding begin_attempt
  retry_step index w = or_raise w (do
    steps ← fetch_list w.accepted_task "steps"
    step ← step_at steps index
    some (begin_attempt digest index step w))

  -- The condition that `run` waits for is tested, and where it holds `run` goes on.
  unfoldable pub run_on : Position → Task → Task
  unfolding resume_step retry_step continue_review begin_repair begin_publication
  run_on (at_access index) w = elim w.access_request [
    | none ↦ w
    | some task ↦ resume_step index task w
  ]
  run_on (at_diagnosis index) w = elim w.retry_request [ none ↦ w | some _ ↦ retry_step index w ]
  run_on (at_decision round) w = elim w.review_request [
    | none ↦ w
    | some continuation ↦ continue_review digest round continuation w
  ]
  run_on (at_repair_diagnosis r) w = elim w.retry_request [
    | none ↦ w
    | some _ ↦ begin_repair digest r w
  ]
  run_on (at_reconciliation publication) w = elim w.reconciliation [
    | none ↦ w
    | some _ ↦ begin_publication digest publication w
  ]
  run_on _ w = w

  -- What follows the activity that `run` awaits, with its result.
  unfoldable pub finish : Position → Value → Task → Task
  unfolding finish_attempt finish_review finish_repair complete
  finish (at_execution index request) result w = finish_attempt digest index result w
  finish (at_review round) result w = finish_review digest round result w
  finish (at_repair r request) result w = finish_repair digest r result w
  finish (at_publication publication) result w = complete result w
  finish _ result w = w

  -- What follows an activity that failed for this reason.
  unfoldable pub finish_failed : Position → String → Task → Task
  unfolding finish_attempt finish_review finish_repair
  finish_failed (at_execution index request) reason w =
      finish_attempt digest index (failure_result reason w.attempts) w
  finish_failed (at_review round) reason w =
      finish_review digest round
        (dict (field "terminal_status" (text "incomplete") (field "reason" (text reason) end))) w
  finish_failed (at_repair r request) reason w =
      finish_repair digest r (failure_result reason w.attempts) w
  finish_failed (at_publication publication) reason w = record w {
    phase = waiting_publication_reconciliation;
    waiting_reason = given (text reason);
    position = at_reconciliation publication;
  }
  finish_failed _ reason w = w

  unfoldable pub take_result : Value → Task → Task
  unfolding is_admitted wait_for_capacity finish
  take_result result w =
      if is_awaiting w.position
        && is_admitted w.position w.accepted_task
        && is_truthy (get_field result "capacity_wait")
      then wait_for_capacity result w
      else finish w.position result w

  -- The first event: `run` begins on the accepted task.
  unfoldable pub begin : Position → Value → Task → Task
  unfolding enter_step
  begin at_start task w = or_raise w (do
    steps ← fetch_list task "steps"
    some (enter_step digest 0 (record w { accepted_task = task; step_count = length steps })))
  begin _ task w = w

  unfoldable pub step : Event → Task → Task
  unfolding begin retry_after_diagnosis reconcile_publication continue_after_review
      resume_after_access run_on take_result finish_failed wake
  step (start task) w = begin w.position task w
  step (retry request) w = retry_after_diagnosis request w
  step (reconcile request) w = reconcile_publication request w
  step (continue request) w = continue_after_review digest request w
  step (resume revised) w = resume_after_access digest revised w
  step (returned result) w = if is_asleep w then w else take_result result w
  step (failed reason) w = if is_asleep w then w else finish_failed w.position reason w
  step proceed w = run_on w.position w
  step timer w = wake w

  unfoldable pub run : List Event → Task → Task
  unfolding step
  run [] w = w
  run (e ∷ es) w = run es (step e w)
