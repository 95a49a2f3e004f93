-- ===== src/Development/Run.antt =====
-- The events of FiniteDevelopment and FiniteAssessment in runtime/development_workflow.py: the
-- signals, the loop of `step` with its waits, and the waits of run.
use nortropic_runtime.Prelude.{
  String, Bool, true, false, none, some, List, [], ◌∷◌, ◌++◌, ◌&&◌, if◌then◌else◌,
}
use nortropic_runtime.Prelude.Text.{has_words}
use nortropic_runtime.Value.{
  Value, int, pos, text, dict, field, end, get_field, is_truthy, text_and,
}
use nortropic_runtime.Workflow.Requests.{◌>>=◌, fetch}
use nortropic_runtime.Development.State.{
  Work, Program, development, assessment, Phase, waiting_host_diagnosis, waiting_capacity,
  waiting_control, waiting_interactive_session_end, waiting_whole_goal_evidence,
  verifying_preserved_delivery, Stage, interactive, delivering, Position, at_start, raised,
  at_activity, at_diagnosis, at_sleep, at_host, at_child_start, at_child, at_signal, at_answer,
  at_poll, Parent, Event, start, host_state_changed, continue_after_diagnosis, returned, failed,
  proceed, timer,
}
use nortropic_runtime.Development.Steps.{
  or_raise, is_terminal, wait_to_poll, execute_step, begin_step, repeat_step, follow, next_work,
  continue_from,
}

abbrev pub is_waiting_diagnosis : Phase → Bool
is_waiting_diagnosis waiting_host_diagnosis = true
is_waiting_diagnosis _ = false

-- `continue_after_diagnosis`
unfoldable pub take_diagnosis : Value → Parent → Parent
take_diagnosis reason p =
    if is_waiting_diagnosis p.phase && text_and has_words reason
    then record p { continuation = some reason }
    else p

-- The activity failed: the host's diagnosis is waited for.
unfoldable pub fail_step : Stage → Value → String → Parent → Parent
fail_step stage request reason p = record p {
  phase = waiting_host_diagnosis;
  reason = text reason;
  position = at_diagnosis stage request;
}

-- The diagnosis of a child is noted, and the child is followed on.
unfoldable pub note_answer : Work → Value → Value → Parent → Parent
unfolding wait_to_poll
note_answer work task reason p = or_raise p (do
  id ← fetch task "id"
  some (
      wait_to_poll work task (record p {
        continuations = p.continuations ++ dict (field "child" id (field "reason" reason end)) ∷ [];
        continuation = none;
      })))

module _ (program : Program) (identity : String) where
  -- The result of the activity: one of the waits, or the end of `step`.
  unfoldable pub take_result : Stage → Value → Value → Parent → Parent
  unfolding continue_from
  take_result stage request result p =
      if is_truthy (get_field result "capacity_wait")
      then or_raise p (do
        reason ← fetch result "reason"
        some (record p {
          phase = waiting_capacity;
          reason = reason;
          position = at_sleep stage request;
        }))
      else if is_truthy (get_field result "interactive_wait")
      then record p { phase = waiting_interactive_session_end; position = at_sleep stage request }
      else if is_truthy (get_field result "proof_wait")
      then or_raise p (do
        reason ← fetch result "reason"
        some (record p {
          phase = waiting_whole_goal_evidence;
          reason = reason;
          position = at_host stage request;
        }))
      else if is_truthy (get_field result "control_wait")
      then or_raise p (do
        control ← fetch result "control"
        some (
            let q = record p { phase = waiting_control; reason = control } in
            if is_terminal control
            then continue_from identity stage result q
            else record q { position = at_host stage request }))
      else continue_from identity stage result p

  -- A fresh key after a diagnosis.
  unfoldable pub resume_step : Stage → Value → Value → Parent → Parent
  unfolding repeat_step
  resume_step stage request reason p = repeat_step identity stage request (record p {
    continuations =
        p.continuations
        ++ dict (field "sequence" (int (pos p.sequence)) (field "reason" reason end)) ∷ [];
    continuation = none;
  })

  unfoldable pub begin : Program → String → Parent → Parent
  unfolding begin_step
  begin development expected p =
      begin_step identity interactive "interactive" end
        (record p { expected = expected; phase = waiting_interactive_session_end })
  begin assessment expected p =
      begin_step identity delivering "preserved-delivery" end
        (record p { expected = expected; phase = verifying_preserved_delivery })

  unfoldable pub start_run : Position → String → Parent → Parent
  unfolding begin
  start_run at_start expected p = begin program expected p
  start_run _ expected p = p

  unfoldable pub take : Position → Value → Parent → Parent
  unfolding take_result wait_to_poll next_work
  take (at_activity stage request) result p = take_result stage request result p
  take (at_child_start work task) result p = or_raise p (do
    id ← fetch task "id"
    some (follow identity work task (record p { children = p.children ++ id ∷ [] })))
  take (at_child work task) result p = next_work identity work result p
  take (at_signal work task) result p = wait_to_poll work task p
  take _ result p = p

  -- An activity that failed is diagnosed; a child that failed ends run with its exception.
  unfoldable pub fail : Position → String → Parent → Parent
  unfolding fail_step
  fail (at_activity stage request) reason p = fail_step stage request reason p
  fail (at_child_start work task) reason p = record p { position = raised }
  fail (at_child work task) reason p = record p { position = raised }
  fail (at_signal work task) reason p = record p { position = raised }
  fail _ reason p = p

  unfoldable pub run_on : Position → Parent → Parent
  unfolding execute_step resume_step note_answer
  run_on (at_diagnosis stage request) p = elim p.continuation [
    | none ↦ p
    | some reason ↦ resume_step stage request reason p
  ]
  run_on (at_host stage request) p = if p.wake then execute_step stage request p else p
  run_on (at_answer work task) p = elim p.continuation [
    | none ↦ p
    | some reason ↦ note_answer work task reason p
  ]
  run_on _ p = p

  -- A sleep or the time limit of `host_wait` has run.
  unfoldable pub wake_up : Position → Parent → Parent
  unfolding execute_step follow
  wake_up (at_sleep stage request) p = execute_step stage request p
  wake_up (at_host stage request) p = execute_step stage request p
  wake_up (at_poll work task) p = follow identity work task p
  wake_up _ p = p

  unfoldable pub step : Event → Parent → Parent
  unfolding start_run take_diagnosis take fail run_on wake_up
  step (start expected) p = start_run p.position expected p
  step host_state_changed p = record p { wake = true }
  step (continue_after_diagnosis reason) p = take_diagnosis reason p
  step (returned result) p = take p.position result p
  step (failed reason) p = fail p.position reason p
  step proceed p = run_on p.position p
  step timer p = wake_up p.position p

  unfoldable pub run : List Event → Parent → Parent
  unfolding step
  run [] p = p
  run (e ∷ es) p = run es (step e p)
