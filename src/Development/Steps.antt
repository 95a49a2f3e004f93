-- ===== src/Development/Steps.antt =====
-- What `run` of FiniteDevelopment and of FiniteAssessment in runtime/development_workflow.py does from
-- one call of `step` to the next.
use nortropic_runtime.Prelude.{
  ℕ, suc, String, Bool, false, Option, none, some, [], ◌∷◌, ◌++◌, ◌&&◌, ◌||◌, str_eq, if◌then◌else◌,
}
use nortropic_runtime.Prelude.Text.{concat, decimal}
use nortropic_runtime.Value.{
  Value, null, text, dict, Fields, field, end, get_field, is_true, is_truthy,
}
use nortropic_runtime.Gate.Require.{equals}
use nortropic_runtime.Gate.Recovery.{set_field}
use nortropic_runtime.Workflow.Requests.{◌>>=◌, fetch}
use nortropic_runtime.Development.State.{
  Work, reconciliation, handoff, Phase, insufficient, preparation_not_approved, freezing_task,
  reviewing_preparation, preserved_delivery_incomplete, awaiting_whole_goal_review, completed,
  whole_goal_not_approved, stopped, waiting_host_diagnosis, preparing, following, diagnosing, Stage,
  interactive, delivering, concluding, proposing, reviewing, freezing, controlling, observing,
  recovering, at_end, raised, at_activity, at_child_start, at_child, at_signal, at_answer, at_poll,
  execute, start_child, cancel_child, signal_child, Parent,
}

abbrev application : String
application = "office-ap11"

unfoldable pub key_prefix : String → String
key_prefix identity = if str_eq identity application then "step-" else concat identity "-step-"

abbrev name_of : Work → String
name_of reconciliation = "reconciliation"
name_of handoff = "handoff"

-- `self.phase = ...; return self.state()`
unfoldable pub finish : Phase → Parent → Parent
finish phase p = record p { phase = phase; position = at_end }

unfoldable pub finish_with : Phase → Value → Parent → Parent
finish_with phase reason p = record p { phase = phase; reason = reason; position = at_end }

abbrev pub or_raise : Parent → Option Parent → Parent
or_raise p none = record p { position = raised }
or_raise p (some q) = q

abbrev pub is_terminal : Value → Bool
is_terminal control = equals control "stopped" || equals control "revoked"

unfoldable pub wait_to_poll : Work → Value → Parent → Parent
wait_to_poll work task p = record p { position = at_poll work task }

-- `child.signal(name, request)`
unfoldable pub signal : Work → Value → String → Value → Parent → Parent
signal work task name request p = record p {
  effects = p.effects ++ signal_child task name request ∷ [];
  position = at_signal work task;
}

-- `child.cancel()`
unfoldable pub cancel : Value → Parent → Parent
cancel task p = record p { effects = p.effects ++ cancel_child task ∷ [] }

-- `start_child_workflow` with the task's id.
unfoldable pub start_task : Work → Value → Parent → Parent
start_task work task p = or_raise p (do
  id ← fetch task "id"
  some (record p {
    effects = p.effects ++ start_child task ∷ [];
    position = at_child_start work task;
  }))

-- One turn of step's loop: the activity is executed.
unfoldable pub execute_step : Stage → Value → Parent → Parent
execute_step stage request p = record p {
  wake = false;
  effects = p.effects ++ execute p.sequence request ∷ [];
  position = at_activity stage request;
}

-- `step(operation, **fields)`, for the run of an identity.
module _ (identity : String) where
  unfoldable pub key_of : ℕ → String
  unfolding key_prefix
  key_of n = concat (key_prefix identity) (decimal n)

  unfoldable pub begin_step : Stage → String → Fields → Parent → Parent
  unfolding execute_step key_of
  begin_step stage operation fields p =
      execute_step stage
        (dict (
          field "contract_sha256" (text p.expected) (
            field "operation" (text operation)
              (field "key" (text (key_of (suc p.sequence))) fields))))
        (record p { sequence = suc p.sequence })

  -- A consumed side effect is not replayed: a fresh key.
  unfoldable pub repeat_step : Stage → Value → Parent → Parent
  unfolding execute_step key_of
  repeat_step stage request p =
      execute_step stage (set_field request "key" (text (key_of (suc p.sequence))))
        (record p { sequence = suc p.sequence })

  unfoldable pub prepare : Work → Value → Parent → Parent
  unfolding begin_step
  prepare work revision p =
      begin_step (proposing work) "propose"
        (field "work" (text (name_of work)) (field "revision_request" revision end))
        (record p { phase = preparing work })

  unfoldable pub review_draft : Work → Value → Parent → Parent
  unfolding begin_step finish_with
  review_draft work draft p =
      if is_truthy (get_field draft "hold") || is_truthy (get_field draft "control_wait")
      then finish_with insufficient draft p
      else begin_step (reviewing work draft) "review" (field "draft" draft end)
          (record p { phase = reviewing_preparation })

  -- Approved, or rejected with findings that lead to a new draft.
  unfoldable pub decide_draft : Work → Value → Value → Parent → Parent
  unfolding begin_step prepare finish_with
  decide_draft work draft review p =
      if is_true (get_field review "approved")
      then or_raise p (do
        shown ← fetch review "review"
        some (
            begin_step (freezing work draft review) "freeze"
              (field "draft" draft (field "review" shown end))
              (record p { phase = freezing_task })))
      else if equals (get_field (get_field review "decision") "verdict") "rejected"
          && is_truthy (get_field (get_field review "decision") "blocking_findings")
      then or_raise p (do
        shown ← fetch review "review"
        some (prepare work (dict (field "draft" draft (field "review" shown end))) p))
      else finish_with preparation_not_approved review p

  unfoldable pub begin_child : Work → Value → Parent → Parent
  unfolding start_task finish_with
  begin_child work frozen p = elim (fetch frozen "task") [
    | none ↦ finish_with stopped frozen p
    | some task ↦ start_task work task p
  ]

  unfoldable pub follow : Work → Value → Parent → Parent
  unfolding begin_step
  follow work task p =
      begin_step (controlling work task) "control" end (record p { phase = following work })

  unfoldable pub observe : Work → Value → Value → Parent → Parent
  unfolding begin_step finish_with cancel
  observe work task control p = or_raise p (do
    state ← fetch control "control"
    id ← fetch task "id"
    some (
        if is_terminal state
        then finish_with stopped state (cancel task p)
        else begin_step (observing work task) "observe" (field "task_id" id end) p))

  -- The child's phase decides; an uncertain remote mutation requires actual readback.
  unfoldable pub look_at_child : Work → Value → Value → Parent → Parent
  unfolding begin_step wait_to_poll
  look_at_child work task observed p = or_raise p (do
    state ← fetch observed "child"
    phase ← fetch state "phase"
    id ← fetch task "id"
    some (
        if equals phase "completed"
        then record p { position = at_child work task }
        else if equals phase "waiting_diagnosis" || equals phase "waiting_review"
        then begin_step (recovering work task state) "diagnose" (field "task_id" id end)
            (record p { phase = diagnosing work })
        else if equals phase "waiting_publication_reconciliation"
        then record p {
          phase = waiting_host_diagnosis;
          reason = state;
          position = at_answer work task;
        }
        else wait_to_poll work task p))

  unfoldable pub recover : Work → Value → Value → Parent → Parent
  unfolding signal cancel finish
  recover work task recovery p =
      let action = get_field recovery "action" in
      let control = get_field recovery "control" in
      if equals action "repair" || equals action "review_only"
      then or_raise p (do
        request ← fetch recovery "request"
        some (signal work task "continue_after_review" request p))
      else if equals action "retry"
      then or_raise p (do
        request ← fetch recovery "request"
        some (signal work task "retry_after_diagnosis" request p))
      else if is_terminal control
      then finish stopped (cancel task p)
      else record p {
        phase = waiting_host_diagnosis;
        reason = recovery;
        position = at_answer work task;
      }

  unfoldable pub conclude : Parent → Parent
  unfolding begin_step
  conclude p =
      begin_step concluding "final-review" end (record p { phase = awaiting_whole_goal_review })

  -- The child's result, and the next work.
  unfoldable pub next_work : Work → Value → Parent → Parent
  unfolding prepare conclude
  next_work reconciliation result p =
      prepare handoff null (record p { results = p.results ++ result ∷ [] })
  next_work handoff result p = conclude (record p { results = p.results ++ result ∷ [] })

  unfoldable pub finish_review : Value → Parent → Parent
  finish_review final p = record p {
    final = some final;
    phase =
        if is_true (get_field final "whole_goal_complete")
        then completed
        else whole_goal_not_approved;
    position = at_end;
  }

  unfoldable pub check_delivery : Value → Parent → Parent
  unfolding finish_with conclude
  check_delivery delivered p =
      if is_truthy (get_field delivered "control_wait")
      then finish_with stopped delivered p
      else if is_truthy (get_field delivered "complete")
      then conclude p
      else finish_with preserved_delivery_incomplete delivered p

  unfoldable pub begin_works : Value → Parent → Parent
  unfolding finish_with review_draft
  begin_works first p =
      if is_truthy (get_field first "control_wait")
      then finish_with stopped first p
      else review_draft reconciliation first (record p { phase = preparing reconciliation })

  -- What follows the call of `step` that returned this.
  unfoldable pub continue_from : Stage → Value → Parent → Parent
  unfolding begin_works review_draft decide_draft begin_child observe look_at_child recover
      check_delivery finish_review
  continue_from interactive result p = begin_works result p
  continue_from (proposing work) draft p = review_draft work draft p
  continue_from (reviewing work draft) review p = decide_draft work draft review p
  continue_from (freezing work draft review) frozen p = begin_child work frozen p
  continue_from (controlling work task) control p = observe work task control p
  continue_from (observing work task) observed p = look_at_child work task observed p
  continue_from (recovering work task state) recovery p = recover work task recovery p
  continue_from delivering delivered p = check_delivery delivered p
  continue_from concluding final p = finish_review final p
