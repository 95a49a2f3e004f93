-- ===== src/Workflow/Published.antt =====
-- That every step of `DevelopmentTask` keeps the approval behind a publication.
use nortropic_runtime.Prelude.{
  ℕ, String, ◌≡◌, refl, ap, Bool, true, false, Bool-cases, Option-cases, inl, inr, List, [], ◌∷◌,
  if◌then◌else◌, ◌&&◌,
}
use nortropic_runtime.Value.{Value, is_truthy, get_field}
use nortropic_runtime.Workflow.State.{
  Position, at_start, at_end, raised, at_access, at_diagnosis, at_execution, at_review, at_decision,
  at_repair, at_repair_diagnosis, at_publication, at_reconciliation, Task, Event, start, retry,
  reconcile, continue, resume, returned, failed, proceed, timer, initial,
}
use nortropic_runtime.Workflow.Signals.{
  retry_after_diagnosis, reconcile_publication, continue_after_review, resume_after_access,
}
use nortropic_runtime.Workflow.Steps.{begin_publication}
use nortropic_runtime.Workflow.Run.{
  is_admitted, is_awaiting, wait_for_capacity, wake, complete, resume_step, retry_step, run_on,
  finish, finish_failed, take_result, begin, step, run,
}
use nortropic_runtime.Workflow.Unpublished.{
  is_published, bind-Every, or_raise_lem, IsUnpublished, begin_attempt-IsUnpublished,
  enter_step-IsUnpublished, finish_attempt-IsUnpublished, begin_repair-IsUnpublished,
  continue_review-IsUnpublished, finish_repair-IsUnpublished,
}
use nortropic_runtime.Workflow.Approval.{
  HasApproval, IsSound, unpublished-IsSound, same-IsSound, finish_review-IsSound,
}

module _ (digest : Value → String) where
  resume_step-IsSound :
      (index : ℕ) (task : Value) (w : Task) → IsSound digest (resume_step digest index task w)
  unfolding resume_step
  resume_step-IsSound index task w = unpublished-IsSound digest _ (
      or_raise_lem IsUnpublished w _ refl (
        bind-Every IsUnpublished _ _ (λ continuation. bind-Every IsUnpublished _ _ (λ steps.
          bind-Every IsUnpublished _ _ (λ s. begin_attempt-IsUnpublished digest index s _)))))

  retry_step-IsSound : (index : ℕ) (w : Task) → IsSound digest (retry_step digest index w)
  unfolding retry_step
  retry_step-IsSound index w = unpublished-IsSound digest _ (
      or_raise_lem IsUnpublished w _ refl (
        bind-Every IsUnpublished _ _ (λ steps.
          bind-Every IsUnpublished _ _ (λ s. begin_attempt-IsUnpublished digest index s _))))

  begin-IsSound :
      (p : Position) (task : Value) (w : Task)
      → IsSound digest w
      → IsSound digest (begin digest p task w)
  unfolding begin
  begin-IsSound at_start task w h = unpublished-IsSound digest _ (
      or_raise_lem IsUnpublished w _ refl
        (bind-Every IsUnpublished _ _ (λ steps. enter_step-IsUnpublished digest 0 _)))
  begin-IsSound at_end task w h = h
  begin-IsSound raised task w h = h
  begin-IsSound (at_access _) task w h = h
  begin-IsSound (at_diagnosis _) task w h = h
  begin-IsSound (at_execution _ _) task w h = h
  begin-IsSound (at_review _) task w h = h
  begin-IsSound (at_decision _) task w h = h
  begin-IsSound (at_repair _ _) task w h = h
  begin-IsSound (at_repair_diagnosis _) task w h = h
  begin-IsSound (at_publication _) task w h = h
  begin-IsSound (at_reconciliation _) task w h = h

  run_on-IsSound :
      (p : Position) (w : Task)
      → w.position ≡ p
      → IsSound digest w
      → IsSound digest (run_on digest p w)
  unfolding run_on begin_publication
  run_on-IsSound at_start w e h = h
  run_on-IsSound at_end w e h = h
  run_on-IsSound raised w e h = h
  run_on-IsSound (at_execution _ _) w e h = h
  run_on-IsSound (at_review _) w e h = h
  run_on-IsSound (at_repair _ _) w e h = h
  run_on-IsSound (at_publication _) w e h = h
  run_on-IsSound (at_access index) w e h = elim (Option-cases w.access_request) [
    | inl f ↦ rw (f, run_on) h
    | inr (task, f) ↦ rw (f, run_on) (resume_step-IsSound index task w)
  ]
  run_on-IsSound (at_diagnosis index) w e h = elim (Option-cases w.retry_request) [
    | inl f ↦ rw (f, run_on) h
    | inr (task, f) ↦ rw (f, run_on) (retry_step-IsSound index w)
  ]
  run_on-IsSound (at_decision round) w e h = elim (Option-cases w.review_request) [
    | inl f ↦ rw (f, run_on) h
    | inr (c, f) ↦
        rw (f, run_on)
          (unpublished-IsSound digest _ (continue_review-IsUnpublished digest round c w))
  ]
  run_on-IsSound (at_repair_diagnosis r) w e h = elim (Option-cases w.retry_request) [
    | inl f ↦ rw (f, run_on) h
    | inr (c, f) ↦
        rw (f, run_on) (unpublished-IsSound digest _ (begin_repair-IsUnpublished digest r w))
  ]
  run_on-IsSound (at_reconciliation publication) w e h = elim (Option-cases w.reconciliation) [
    | inl f ↦ rw (f, run_on) h
    | inr (c, f) ↦
        rw (f, run_on)
          (same-IsSound digest w (begin_publication digest publication w) h refl refl
            (ap is_published e))
  ]

  finish-IsSound :
      (p : Position) (result : Value) (w : Task)
      → w.position ≡ p
      → IsSound digest w
      → IsSound digest (finish digest p result w)
  unfolding finish complete
  finish-IsSound (at_execution index _) result w e h =
      unpublished-IsSound digest _ (finish_attempt-IsUnpublished digest index result w)
  finish-IsSound (at_review round) result w e h = finish_review-IsSound digest round result w
  finish-IsSound (at_repair r _) result w e h =
      unpublished-IsSound digest _ (finish_repair-IsUnpublished digest r result w)
  finish-IsSound (at_publication p) result w e h =
      same-IsSound digest w (complete result w) h refl refl (ap is_published e)
  finish-IsSound at_start result w e h = h
  finish-IsSound at_end result w e h = h
  finish-IsSound raised result w e h = h
  finish-IsSound (at_access _) result w e h = h
  finish-IsSound (at_diagnosis _) result w e h = h
  finish-IsSound (at_decision _) result w e h = h
  finish-IsSound (at_repair_diagnosis _) result w e h = h
  finish-IsSound (at_reconciliation _) result w e h = h

  finish_failed-IsSound :
      (p : Position) (reason : String) (w : Task)
      → w.position ≡ p
      → IsSound digest w
      → IsSound digest (finish_failed digest p reason w)
  unfolding finish_failed
  finish_failed-IsSound (at_execution index _) reason w e h =
      unpublished-IsSound digest _ (finish_attempt-IsUnpublished digest index _ w)
  finish_failed-IsSound (at_review round) reason w e h = finish_review-IsSound digest round _ w
  finish_failed-IsSound (at_repair r _) reason w e h =
      unpublished-IsSound digest _ (finish_repair-IsUnpublished digest r _ w)
  finish_failed-IsSound (at_publication p) reason w e h =
      same-IsSound digest w _ h refl refl (ap is_published e)
  finish_failed-IsSound at_start reason w e h = h
  finish_failed-IsSound at_end reason w e h = h
  finish_failed-IsSound raised reason w e h = h
  finish_failed-IsSound (at_access _) reason w e h = h
  finish_failed-IsSound (at_diagnosis _) reason w e h = h
  finish_failed-IsSound (at_decision _) reason w e h = h
  finish_failed-IsSound (at_repair_diagnosis _) reason w e h = h
  finish_failed-IsSound (at_reconciliation _) reason w e h = h

  wait_for_capacity-IsSound :
      (result : Value) (w : Task) → IsSound digest w → IsSound digest (wait_for_capacity result w)
  unfolding wait_for_capacity
  wait_for_capacity-IsSound result w h =
      or_raise_lem (IsSound digest) w _ (unpublished-IsSound digest _ refl) (
        bind-Every (IsSound digest) _ _ (λ capacity.
          bind-Every (IsSound digest) _ _ (λ reason. same-IsSound digest w _ h refl refl refl)))

  take_result-IsSound :
      (result : Value) (w : Task) → IsSound digest w → IsSound digest (take_result digest result w)
  unfolding take_result
  take_result-IsSound result w h =
      elim (Bool-cases (
        is_awaiting w.position
        && is_admitted w.position w.accepted_task
        && is_truthy (get_field result "capacity_wait"))) [
          | inl e ↦ rw (e, take_result) (wait_for_capacity-IsSound result w h)
          | inr e ↦ rw (e, take_result) (finish-IsSound w.position result w refl h)
        ]

  wake-IsSound : (w : Task) → IsSound digest w → IsSound digest (wake w)
  unfolding wake
  wake-IsSound w h = elim (Option-cases w.sleeping) [
    | inl e ↦ rw (e, wake) h
    | inr (p, e) ↦ rw (e, wake) (same-IsSound digest w _ h refl refl refl)
  ]

  -- A handler that sets its own field, or nothing.
  handler-IsSound :
      (accepts : Bool) (w v : Task)
      → IsSound digest w
      → IsSound digest v
      → IsSound digest (if accepts then v else w)
  handler-IsSound true w v h k = k
  handler-IsSound false w v h k = h

  step-IsSound : (e : Event) (w : Task) → IsSound digest w → IsSound digest (step digest e w)
  unfolding step retry_after_diagnosis reconcile_publication continue_after_review
      resume_after_access
  step-IsSound (start task) w h = begin-IsSound w.position task w h
  step-IsSound (retry r) w h = handler-IsSound _ w _ h (same-IsSound digest w _ h refl refl refl)
  step-IsSound (reconcile r) w h =
      handler-IsSound _ w _ h (same-IsSound digest w _ h refl refl refl)
  step-IsSound (continue r) w h = handler-IsSound _ w _ h (same-IsSound digest w _ h refl refl refl)
  step-IsSound (resume r) w h = handler-IsSound _ w _ h (same-IsSound digest w _ h refl refl refl)
  step-IsSound (returned result) w h = handler-IsSound _ _ w (take_result-IsSound result w h) h
  step-IsSound (failed reason) w h =
      handler-IsSound _ _ w (finish_failed-IsSound w.position reason w refl h) h
  step-IsSound proceed w h = run_on-IsSound w.position w refl h
  step-IsSound timer w h = wake-IsSound w h

  run-IsSound : (es : List Event) (w : Task) → IsSound digest w → IsSound digest (run digest es w)
  unfolding run
  run-IsSound [] w h = h
  run-IsSound (e ∷ es) w h = run-IsSound es (step digest e w) (step-IsSound e w h)

  -- Whatever events the engine delivers, and in whatever order: a task that is being published, waits
  -- for the reconciliation of its publication or is completed has a last review that passes the gate
  -- for the accepted task, by a reviewer's run that no earlier review has.
  pub publication_needs_approval :
      (es : List Event)
      → is_published (run digest es initial).position ≡ true
      → HasApproval digest (run digest es initial)
  unfolding initial
  publication_needs_approval es = run-IsSound es initial (unpublished-IsSound digest initial refl)
