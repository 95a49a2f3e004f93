-- ===== src/Workflow/Steps.antt =====
-- `DevelopmentTask.run` and `execute_activity`, cut at the awaits: each function runs the code from
-- one await to the next. The time limits given to the engine are left out.
use nortropic_runtime.Prelude.{
  ℕ, suc, String, Bool, Option, none, some, List, [], ◌∷◌, ◌++◌, ◌&&◌, not, any, ltb, length,
  Result, ok, err, if◌then◌else◌,
}
use nortropic_runtime.Value.{Value, text, eq, get_field, is_dict, is_true, is_truthy}
use nortropic_runtime.Gate.Require.{GateClosed, gate_closed, equals, targets, require_gate}
use nortropic_runtime.Gate.Recovery.{Kind, review_only, recovery_kind}
use nortropic_runtime.Task.Revision.{step_at}
use nortropic_runtime.Workflow.State.{
  waiting_access, waiting_diagnosis, reviewing, waiting_review, publishing, running, no_reason,
  given, gate, Review, Round, Repair, raised, at_access, at_diagnosis, at_execution, at_review,
  at_decision, at_repair, at_repair_diagnosis, at_publication, Task,
}
use nortropic_runtime.Workflow.Signals.{last}
use nortropic_runtime.Workflow.Requests.{
  ◌>>=◌, fetch_text, fetch_list, implementation_request, review_subject_of, test_evidence,
  review_request_of, repair_prompt, repair_request, publication_request,
}

-- Where the code raises, the engine keeps the state and repeats the raise.
unfoldable pub or_raise : Task → Option Task → Task
or_raise w none = record w { position = raised }
or_raise w (some next) = next

-- Both reports of a result that a step needs.
unfoldable pub is_accepted_result : Value → Bool
is_accepted_result result =
    is_true (get_field result "provider_completed")
    && is_true (get_field result "phase_acceptance_passed")

-- The runs of the reviewers so far.
unfoldable pub reviewer_runs : List Review → List Value
reviewer_runs [] = []
reviewer_runs (r ∷ rs) =
    let rest = reviewer_runs rs in
    if is_dict r.result then get_field r.result "reviewer_run" ∷ rest else rest

unfoldable pub is_repeated : Value → List Review → Bool
is_repeated result earlier = any (eq (get_field result "reviewer_run")) (reviewer_runs earlier)

-- The result is accepted, of another commit and with other files than the reviewed one.
unfoldable pub is_repaired : Round → Value → Bool
is_repaired round result =
    is_accepted_result result
    && not (eq (get_field result "candidate") (get_field round.subject "candidate"))
    && not (
        eq (get_field result "candidate_files_sha256")
          (get_field round.latest "candidate_files_sha256"))

module _ (digest : Value → String) where
  -- An attempt at the step with that index begins.
  unfoldable pub begin_attempt : ℕ → Value → Task → Task
  begin_attempt index step w = or_raise w (do
    provider ← fetch_text step "provider"
    request ←
        implementation_request digest w.accepted_task step index (suc w.attempts) w.retry_request
    some (record w {
      attempts = suc w.attempts;
      phase = running provider;
      waiting_reason = no_reason;
      retry_request = none;
      position = at_execution index request;
    }))

  -- A round of review of the last result begins.
  unfoldable pub begin_review : Task → Task
  begin_review w = or_raise w (do
    latest ← last w.results
    subject ← review_subject_of digest w.accepted_task latest w.results w.completed_steps
    tests ← test_evidence digest subject latest
    request ←
        review_request_of digest w.accepted_task latest subject (length w.reviews)
          w.review_continuations
    some (record w {
      review_subject = some subject;
      phase = reviewing;
      waiting_reason = no_reason;
      position =
          at_review
            (record { latest = latest; request = request; subject = subject; tests = tests });
    }))

  -- The head of the loop over the steps.
  unfoldable pub enter_step : ℕ → Task → Task
  unfolding begin_attempt begin_review
  enter_step index w =
      if ltb index w.step_count
      then or_raise w (do
        steps ← fetch_list w.accepted_task "steps"
        step ← step_at steps index
        some (
            if is_truthy (get_field step "waiting_reason")
            then record w {
              step_index = index;
              phase = waiting_access;
              waiting_reason = given (get_field step "waiting_reason");
              position = at_access index;
            }
            else begin_attempt index step (record w { step_index = index })))
      else begin_review w

  -- The step's activity has ended with this result.
  unfoldable pub finish_attempt : ℕ → Value → Task → Task
  unfolding enter_step
  finish_attempt index result w =
      let w = record w { results = w.results ++ result ∷ [] } in
      if is_accepted_result result
      then enter_step (suc index) (record w { completed_steps = w.completed_steps ++ index ∷ [] })
      else record w {
        phase = waiting_diagnosis;
        waiting_reason =
            given (text "Phase incomplete or failed; preserved evidence, no automatic repetition");
        position = at_diagnosis index;
      }

  unfoldable pub begin_publication : Value → Task → Task
  begin_publication publication w = record w {
    publication_attempts = suc w.publication_attempts;
    phase = publishing;
    waiting_reason = no_reason;
    reconciliation = none;
    position = at_publication publication;
  }

  -- The gate, and then that the reviewer's run is a new one.
  unfoldable pub decide_review : Round → Value → Task → Result GateClosed (Unit {0})
  decide_review round result w =
      elim (require_gate digest w.accepted_task round.subject round.tests result targets) [
        | err e ↦ err e
        | ok _ ↦
            if is_repeated result w.reviews
            then err (gate_closed "Fresh independent review run required")
            else ok tt
      ]

  unfoldable pub recovery_of : Round → Value → Task → Kind
  recovery_of round result w =
      if is_dict result && is_repeated result w.reviews
      then review_only
      else recovery_kind digest w.accepted_task round.subject round.tests result

  -- The review's activity has ended with this result.
  unfoldable pub finish_review : Round → Value → Task → Task
  unfolding decide_review recovery_of begin_publication
  finish_review round result w =
      let reviews =
        w.reviews
        ++ record { subject = round.subject; tests = round.tests; result = result } ∷ [] in
      elim (decide_review round result w) [
        | ok _ ↦
            let w = record w { review = result; reviews = reviews } in
            or_raise w (do
              publication ← publication_request digest round result
              some (begin_publication publication w))
        | err e ↦ record w {
          review = result;
          reviews = reviews;
          phase = waiting_review;
          waiting_reason = gate e;
          review_recovery = some (recovery_of round result w);
          position = at_decision round;
        }
      ]

  -- A repair attempt begins.
  unfoldable pub begin_repair : Repair → Task → Task
  begin_repair r w = or_raise w (do
    provider ← fetch_text r.step "provider"
    reason ← elim w.retry_request [
      | none ↦ fetch_text r.continuation "reason"
      | some diagnosis ↦ fetch_text diagnosis "reason"
    ]
    request ← repair_request digest w.accepted_task r.prompt (suc w.attempts) reason
    some (record w {
      attempts = suc w.attempts;
      phase = running provider;
      waiting_reason = no_reason;
      retry_request = none;
      position = at_repair r request;
    }))

  -- The operator continues after a review: another review, or a repair in the last step.
  unfoldable pub continue_review : Round → Value → Task → Task
  unfolding begin_review begin_repair
  continue_review round continuation w =
      let w = record w {
        review_request = none;
        review_continuations = w.review_continuations ++ continuation ∷ [];
      } in
      if equals (get_field continuation "action") "review_only"
      then begin_review w
      else or_raise w (do
        steps ← fetch_list w.accepted_task "steps"
        step ← last steps
        prompt ← repair_prompt digest step continuation w.review
        some (
            begin_repair
              (record { round = round; step = step; prompt = prompt; continuation = continuation })
              w))

  unfoldable pub finish_repair : Repair → Value → Task → Task
  unfolding begin_review is_repaired
  finish_repair r result w =
      let w = record w { results = w.results ++ result ∷ [] } in
      if is_repaired r.round result then begin_review w else record w {
        phase = waiting_diagnosis;
        waiting_reason =
            given (
              text "Review repair failed or produced no new candidate; inspect preserved evidence");
        position = at_repair_diagnosis r;
      }
