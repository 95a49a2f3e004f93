-- ===== src/Workflow/Counted.antt =====
-- That every event keeps the count of the attempts of `DevelopmentTask`.
use nortropic_runtime.Prelude.{
  ℕ, String, ◌≡◌, refl, ap, Bool, true, false, Bool-cases, Option-cases, inl, inr, List, [], ◌∷◌,
  if◌then◌else◌, ◌&&◌,
}
use nortropic_runtime.Value.{Value, is_truthy, get_field}
use nortropic_runtime.Workflow.State.{
  Position, at_start, at_end, raised, at_access, at_diagnosis, at_execution, at_review, at_decision,
  at_repair, at_repair_diagnosis, at_publication, at_reconciliation, Task, Event, start, retry,
  reconcile, continue, resume, returned, failed, proceed, timer, initial,
}
use nortropic_runtime.Workflow.Signals.{
  retry_after_diagnosis, reconcile_publication, continue_after_review, resume_after_access,
}
use nortropic_runtime.Workflow.Steps.{begin_publication}
use nortropic_runtime.Workflow.Run.{
  is_admitted, is_awaiting, wait_for_capacity, wake, complete, resume_step, retry_step, run_on,
  finish, finish_failed, take_result, begin, step, run,
}
use nortropic_runtime.Workflow.Signals.{
  accepts_retry, accepts_reconciliation, accepts_review, accepts_access,
}
use nortropic_runtime.Workflow.Run.{is_asleep}
use nortropic_runtime.Prelude.{length, ◌+◌, ℕ, ◌∙◌, arith, sym, ap, some}
use nortropic_runtime.Workflow.Unpublished.{bind-Every, or_raise_lem}
use nortropic_runtime.Workflow.Attempts.{
  pending, is_raised, IsCounted, IsSettled, begin_attempt-IsCounted, enter_step-IsCounted,
  finish_attempt-IsCounted, finish_review-IsCounted, begin_repair-IsCounted,
  continue_review-IsCounted, finish_repair-IsCounted,
}

count_at :
    (p : Position) (w : Task)
    → w.position ≡ p
    → is_raised p ≡ false
    → IsCounted w
    → w.attempts ≡ length w.results + pending p
count_at p w e f h = h (ap is_raised e ∙ f) ∙ ap (λ q. length w.results + pending q) e

position-IsSettled :
    (p : Position) (w : Task)
    → w.position ≡ p
    → is_raised p ≡ false
    → pending p ≡ 0
    → IsCounted w
    → IsSettled w
position-IsSettled p w e f z h = omega (arith, count_at p w e f h)

same-IsCounted :
    (w v : Task)
    → IsCounted w
    → w.attempts ≡ v.attempts
    → w.results ≡ v.results
    → w.position ≡ v.position
    → IsCounted v
same-IsCounted w v h a r p live =
    sym a
    ∙ h (ap is_raised p ∙ live)
    ∙ ap (λ rs. length rs + pending w.position) r
    ∙ ap (λ q. length v.results + pending q) p

module _ (digest : Value → String) where
  resume_step-IsCounted :
      (index : ℕ) (task : Value) (w : Task)
      → IsSettled w
      → IsCounted (resume_step digest index task w)
  unfolding resume_step
  resume_step-IsCounted index task w h =
      or_raise_lem IsCounted w _ (λ r. cc)
        (bind-Every IsCounted _ _ (λ c.
          bind-Every IsCounted _ _
            (λ steps. bind-Every IsCounted _ _ (λ s. begin_attempt-IsCounted digest index s _ h))))

  retry_step-IsCounted :
      (index : ℕ) (w : Task) → IsSettled w → IsCounted (retry_step digest index w)
  unfolding retry_step
  retry_step-IsCounted index w h =
      or_raise_lem IsCounted w _ (λ r. cc)
        (bind-Every IsCounted _ _
          (λ steps. bind-Every IsCounted _ _ (λ s. begin_attempt-IsCounted digest index s w h)))

  begin-IsCounted :
      (p : Position) (task : Value) (w : Task)
      → w.position ≡ p
      → IsCounted w
      → IsCounted (begin digest p task w)
  unfolding begin
  begin-IsCounted at_start task w e h =
      or_raise_lem IsCounted w _ (λ r. cc)
        (bind-Every IsCounted _ _
          (λ steps. enter_step-IsCounted digest 0 _ (position-IsSettled at_start w e refl refl h)))
  begin-IsCounted at_end task w e h = h
  begin-IsCounted raised task w e h = h
  begin-IsCounted (at_access _) task w e h = h
  begin-IsCounted (at_diagnosis _) task w e h = h
  begin-IsCounted (at_execution _ _) task w e h = h
  begin-IsCounted (at_review _) task w e h = h
  begin-IsCounted (at_decision _) task w e h = h
  begin-IsCounted (at_repair _ _) task w e h = h
  begin-IsCounted (at_repair_diagnosis _) task w e h = h
  begin-IsCounted (at_publication _) task w e h = h
  begin-IsCounted (at_reconciliation _) task w e h = h

  run_on-IsCounted :
      (p : Position) (w : Task) → w.position ≡ p → IsCounted w → IsCounted (run_on digest p w)
  unfolding run_on begin_publication
  run_on-IsCounted at_start w e h = h
  run_on-IsCounted at_end w e h = h
  run_on-IsCounted raised w e h = h
  run_on-IsCounted (at_execution _ _) w e h = h
  run_on-IsCounted (at_review _) w e h = h
  run_on-IsCounted (at_repair _ _) w e h = h
  run_on-IsCounted (at_publication _) w e h = h
  run_on-IsCounted (at_access i) w e h = elim (Option-cases w.access_request) [
    | inl f ↦ rw (f, run_on) h
    | inr (x, f) ↦
        rw (f, run_on)
          (resume_step-IsCounted i x w (position-IsSettled (at_access i) w e refl refl h))
  ]
  run_on-IsCounted (at_diagnosis i) w e h = elim (Option-cases w.retry_request) [
    | inl f ↦ rw (f, run_on) h
    | inr (x, f) ↦
        rw (f, run_on)
          (retry_step-IsCounted i w (position-IsSettled (at_diagnosis i) w e refl refl h))
  ]
  run_on-IsCounted (at_decision d) w e h = elim (Option-cases w.review_request) [
    | inl f ↦ rw (f, run_on) h
    | inr (x, f) ↦
        rw (f, run_on)
          (continue_review-IsCounted digest d x w
            (position-IsSettled (at_decision d) w e refl refl h))
  ]
  run_on-IsCounted (at_repair_diagnosis r) w e h = elim (Option-cases w.retry_request) [
    | inl f ↦ rw (f, run_on) h
    | inr (x, f) ↦
        rw (f, run_on)
          (begin_repair-IsCounted digest r w
            (position-IsSettled (at_repair_diagnosis r) w e refl refl h))
  ]
  run_on-IsCounted (at_reconciliation q) w e h = elim (Option-cases w.reconciliation) [
    | inl f ↦ rw (f, run_on) h
    | inr (x, f) ↦
        rw (f, run_on)
          (λ _. omega (arith, position-IsSettled (at_reconciliation q) w e refl refl h))
  ]

  finish-IsCounted :
      (p : Position) (result : Value) (w : Task)
      → w.position ≡ p
      → IsCounted w
      → IsCounted (finish digest p result w)
  unfolding finish complete
  finish-IsCounted (at_execution i q) result w e h =
      finish_attempt-IsCounted digest i result w (count_at (at_execution i q) w e refl h)
  finish-IsCounted (at_review r) result w e h =
      finish_review-IsCounted digest r result w (position-IsSettled (at_review r) w e refl refl h)
  finish-IsCounted (at_repair r q) result w e h =
      finish_repair-IsCounted digest r result w (count_at (at_repair r q) w e refl h)
  finish-IsCounted (at_publication q) result w e h =
      λ _. omega (arith, position-IsSettled (at_publication q) w e refl refl h)
  finish-IsCounted at_start result w e h = h
  finish-IsCounted at_end result w e h = h
  finish-IsCounted raised result w e h = h
  finish-IsCounted (at_access _) result w e h = h
  finish-IsCounted (at_diagnosis _) result w e h = h
  finish-IsCounted (at_decision _) result w e h = h
  finish-IsCounted (at_repair_diagnosis _) result w e h = h
  finish-IsCounted (at_reconciliation _) result w e h = h

  finish_failed-IsCounted :
      (p : Position) (reason : String) (w : Task)
      → w.position ≡ p
      → IsCounted w
      → IsCounted (finish_failed digest p reason w)
  unfolding finish_failed
  finish_failed-IsCounted (at_execution i q) reason w e h =
      finish_attempt-IsCounted digest i _ w (count_at (at_execution i q) w e refl h)
  finish_failed-IsCounted (at_review r) reason w e h =
      finish_review-IsCounted digest r _ w (position-IsSettled (at_review r) w e refl refl h)
  finish_failed-IsCounted (at_repair r q) reason w e h =
      finish_repair-IsCounted digest r _ w (count_at (at_repair r q) w e refl h)
  finish_failed-IsCounted (at_publication q) reason w e h =
      λ _. omega (arith, position-IsSettled (at_publication q) w e refl refl h)
  finish_failed-IsCounted at_start reason w e h = h
  finish_failed-IsCounted at_end reason w e h = h
  finish_failed-IsCounted raised reason w e h = h
  finish_failed-IsCounted (at_access _) reason w e h = h
  finish_failed-IsCounted (at_diagnosis _) reason w e h = h
  finish_failed-IsCounted (at_decision _) reason w e h = h
  finish_failed-IsCounted (at_repair_diagnosis _) reason w e h = h
  finish_failed-IsCounted (at_reconciliation _) reason w e h = h

  wait_for_capacity-IsCounted :
      (result : Value) (w : Task) → IsCounted w → IsCounted (wait_for_capacity result w)
  unfolding wait_for_capacity
  wait_for_capacity-IsCounted result w h =
      or_raise_lem IsCounted w _ (λ r. cc)
        (bind-Every IsCounted _ _ (λ capacity. bind-Every IsCounted _ _ (λ reason. h)))

  take_result-IsCounted :
      (result : Value) (w : Task) → IsCounted w → IsCounted (take_result digest result w)
  unfolding take_result
  take_result-IsCounted result w h =
      elim (Bool-cases (
        is_awaiting w.position
        && is_admitted w.position w.accepted_task
        && is_truthy (get_field result "capacity_wait"))) [
          | inl e ↦ rw (e, take_result) (wait_for_capacity-IsCounted result w h)
          | inr e ↦ rw (e, take_result) (finish-IsCounted w.position result w refl h)
        ]

  wake-IsCounted : (w : Task) → IsCounted w → IsCounted (wake w)
  unfolding wake
  wake-IsCounted w h = elim (Option-cases w.sleeping) [
    | inl e ↦ rw (e, wake) h
    | inr (p, e) ↦ rw (e, wake) h
  ]

  branch-IsCounted :
      (test : Bool) (v w : Task) → IsCounted v → IsCounted w → IsCounted (if test then v else w)
  branch-IsCounted true v w h k = h
  branch-IsCounted false v w h k = k

  step-IsCounted : (e : Event) (w : Task) → IsCounted w → IsCounted (step digest e w)
  unfolding step retry_after_diagnosis reconcile_publication continue_after_review
      resume_after_access
  step-IsCounted (start task) w h = begin-IsCounted w.position task w refl h
  step-IsCounted (retry r) w h =
      branch-IsCounted (accepts_retry r w) (record w { retry_request = some r }) w h h
  step-IsCounted (reconcile r) w h =
      branch-IsCounted (accepts_reconciliation r w) (record w { reconciliation = some r }) w h h
  step-IsCounted (continue r) w h =
      branch-IsCounted (accepts_review digest r w) (record w { review_request = some r }) w h h
  step-IsCounted (resume r) w h =
      branch-IsCounted (accepts_access digest r w) (record w { access_request = some r }) w h h
  step-IsCounted (returned result) w h =
      branch-IsCounted (is_asleep w) w (take_result digest result w) h
        (take_result-IsCounted result w h)
  step-IsCounted (failed reason) w h =
      branch-IsCounted (is_asleep w) w (finish_failed digest w.position reason w) h
        (finish_failed-IsCounted w.position reason w refl h)
  step-IsCounted proceed w h = run_on-IsCounted w.position w refl h
  step-IsCounted timer w h = wake-IsCounted w h

  run-IsCounted : (es : List Event) (w : Task) → IsCounted w → IsCounted (run digest es w)
  unfolding run
  run-IsCounted [] w h = h
  run-IsCounted (e ∷ es) w h = run-IsCounted es (step digest e w) (step-IsCounted e w h)

  -- Whatever events the engine delivers: unless the code has raised, the number of the attempt is the
  -- number of results, and one more while an attempt of a step or of a repair runs.
  pub attempts_are_results :
      (es : List Event)
      → is_raised (run digest es initial).position ≡ false
      → (run digest es initial).attempts
        ≡ length (run digest es initial).results + pending (run digest es initial).position
  unfolding initial
  attempts_are_results es = run-IsCounted es initial (λ _. refl)
