-- ===== src/Workflow/Waiting.antt =====
-- A failed attempt of `DevelopmentTask` is repeated on request alone.
use nortropic_runtime.Prelude.{
  ℕ, String, ◌≡◌, refl, sym, ap, ◌∙◌, Bool, true, false, Option-cases, inl, inr, none, some, List,
  [], ◌∷◌, ◌&&◌, any, arith, if◌then◌else◌,
}
use nortropic_runtime.Value.{Value, int, pos, eq, get_field, is_reason}
use nortropic_runtime.Workflow.State.{
  Position, at_start, at_end, raised, at_access, at_diagnosis, at_execution, at_review, at_decision,
  at_repair, at_repair_diagnosis, at_publication, at_reconciliation, Task, Event, start, retry,
  reconcile, continue, resume, returned, failed, proceed, timer,
}
use nortropic_runtime.Workflow.Signals.{
  accepts_retry, accepts_reconciliation, accepts_review, accepts_access, retry_after_diagnosis,
  reconcile_publication, continue_after_review, resume_after_access,
}
use nortropic_runtime.Workflow.Run.{
  is_awaiting, wake, run_on, finish, finish_failed, take_result, is_asleep, begin, step, run,
}

abbrev pub needs_diagnosis : Position → Bool
needs_diagnosis (at_diagnosis _) = true
needs_diagnosis (at_repair_diagnosis _) = true
needs_diagnosis _ = false

-- A request for a retry that names this attempt and gives a reason.
abbrev pub asks_retry : ℕ → Event → Bool
asks_retry n (retry request) =
    eq (get_field request "expected_attempt") (int (pos n))
    && is_reason (get_field request "reason")
asks_retry n _ = false

-- Nothing has begun since.
pub record IsIdle (w v : Task) : Type 0 where
  pub position : v.position ≡ w.position
  pub attempts : v.attempts ≡ w.attempts
  pub results : v.results ≡ w.results
  pub retry_request : v.retry_request ≡ none

module _ (digest : Value → String) (w : Task) where
  moved :
      (v u : Task)
      → IsIdle w v
      → v.position ≡ u.position
      → v.attempts ≡ u.attempts
      → v.results ≡ u.results
      → v.retry_request ≡ u.retry_request
      → IsIdle w u
  moved v u h p a r q = record {
    position = sym p ∙ h.position;
    attempts = sym a ∙ h.attempts;
    results = sym r ∙ h.results;
    retry_request = sym q ∙ h.retry_request;
  }

  begin_idle :
      (p : Position) (task : Value) (v : Task)
      → needs_diagnosis p ≡ true
      → begin digest p task v ≡ v
  unfolding begin
  begin_idle (at_diagnosis _) task v h = refl
  begin_idle (at_repair_diagnosis _) task v h = refl
  begin_idle at_start task v h = cc
  begin_idle at_end task v h = cc
  begin_idle raised task v h = cc
  begin_idle (at_access _) task v h = cc
  begin_idle (at_execution _ _) task v h = cc
  begin_idle (at_review _) task v h = cc
  begin_idle (at_decision _) task v h = cc
  begin_idle (at_repair _ _) task v h = cc
  begin_idle (at_publication _) task v h = cc
  begin_idle (at_reconciliation _) task v h = cc

  finish_idle :
      (p : Position) (result : Value) (v : Task)
      → needs_diagnosis p ≡ true
      → (finish digest p result v ≡ v) × (is_awaiting p ≡ false)
  unfolding finish
  finish_idle (at_diagnosis _) result v h = (refl, refl)
  finish_idle (at_repair_diagnosis _) result v h = (refl, refl)
  finish_idle at_start result v h = cc
  finish_idle at_end result v h = cc
  finish_idle raised result v h = cc
  finish_idle (at_access _) result v h = cc
  finish_idle (at_execution _ _) result v h = cc
  finish_idle (at_review _) result v h = cc
  finish_idle (at_decision _) result v h = cc
  finish_idle (at_repair _ _) result v h = cc
  finish_idle (at_publication _) result v h = cc
  finish_idle (at_reconciliation _) result v h = cc

  finish_failed_idle :
      (p : Position) (reason : String) (v : Task)
      → needs_diagnosis p ≡ true
      → finish_failed digest p reason v ≡ v
  unfolding finish_failed
  finish_failed_idle (at_diagnosis _) reason v h = refl
  finish_failed_idle (at_repair_diagnosis _) reason v h = refl
  finish_failed_idle at_start reason v h = cc
  finish_failed_idle at_end reason v h = cc
  finish_failed_idle raised reason v h = cc
  finish_failed_idle (at_access _) reason v h = cc
  finish_failed_idle (at_execution _ _) reason v h = cc
  finish_failed_idle (at_review _) reason v h = cc
  finish_failed_idle (at_decision _) reason v h = cc
  finish_failed_idle (at_repair _ _) reason v h = cc
  finish_failed_idle (at_publication _) reason v h = cc
  finish_failed_idle (at_reconciliation _) reason v h = cc

  run_on_idle :
      (p : Position) (v : Task)
      → needs_diagnosis p ≡ true
      → v.retry_request ≡ none
      → run_on digest p v ≡ v
  unfolding run_on
  run_on_idle (at_diagnosis _) v h e = ground arith
  run_on_idle (at_repair_diagnosis _) v h e = ground arith
  run_on_idle at_start v h e = cc
  run_on_idle at_end v h e = cc
  run_on_idle raised v h e = cc
  run_on_idle (at_access _) v h e = cc
  run_on_idle (at_execution _ _) v h e = cc
  run_on_idle (at_review _) v h e = cc
  run_on_idle (at_decision _) v h e = cc
  run_on_idle (at_repair _ _) v h e = cc
  run_on_idle (at_publication _) v h e = cc
  run_on_idle (at_reconciliation _) v h e = cc

  take_result_idle :
      (result : Value) (v : Task)
      → needs_diagnosis v.position ≡ true
      → take_result digest result v ≡ v
  unfolding take_result
  take_result_idle result v h =
      let (same, not_awaiting) = finish_idle v.position result v h in
      rw (not_awaiting, take_result) same

  retry_idle :
      (request : Value) (v : Task)
      → asks_retry v.attempts (retry request) ≡ false
      → retry_after_diagnosis request v ≡ v
  unfolding retry_after_diagnosis accepts_retry
  retry_idle request v h = ground arith

  handler-IsIdle :
      (accepts : Bool) (v u : Task) → IsIdle w v → IsIdle w u → IsIdle w (if accepts then u else v)
  handler-IsIdle true v u h k = k
  handler-IsIdle false v u h k = h

  step-IsIdle :
      (e : Event) (v : Task)
      → needs_diagnosis w.position ≡ true
      → asks_retry w.attempts e ≡ false
      → IsIdle w v
      → IsIdle w (step digest e v)
  unfolding step reconcile_publication continue_after_review resume_after_access wake
  step-IsIdle e v waits asks h =
      let waiting : needs_diagnosis v.position ≡ true = ap needs_diagnosis h.position ∙ waits in
      let quiet : asks_retry v.attempts e ≡ false = ap (λ n. asks_retry n e) h.attempts ∙ asks in
      elim e as (λ e. asks_retry v.attempts e ≡ false → IsIdle w (step digest e v)) [
        | start task ↦ λ _. rw (begin_idle v.position task v waiting, step) h
        | retry request ↦ λ q. rw (retry_idle request v q, step) h
        | reconcile r ↦ λ _.
            handler-IsIdle (accepts_reconciliation r v) v (record v { reconciliation = some r }) h
              (moved v (record v { reconciliation = some r }) h refl refl refl refl)
        | continue r ↦ λ _.
            handler-IsIdle (accepts_review digest r v) v (record v { review_request = some r }) h
              (moved v (record v { review_request = some r }) h refl refl refl refl)
        | resume r ↦ λ _.
            handler-IsIdle (accepts_access digest r v) v (record v { access_request = some r }) h
              (moved v (record v { access_request = some r }) h refl refl refl refl)
        | returned result ↦
            λ _. rw (take_result_idle result v waiting, step) (handler-IsIdle (is_asleep v) v v h h)
        | failed reason ↦ λ _.
            rw (finish_failed_idle v.position reason v waiting, step)
              (handler-IsIdle (is_asleep v) v v h h)
        | proceed ↦ λ _. rw (run_on_idle v.position v waiting h.retry_request, step) h
        | timer ↦ λ _. elim (Option-cases v.sleeping) [
          | inl f ↦ rw (f, wake) h
          | inr (p, f) ↦ rw (f, wake) (moved v _ h refl refl refl refl)
        ]
      ]
        quiet

  run-IsIdle :
      (es : List Event) (v : Task)
      → needs_diagnosis w.position ≡ true
      → any (asks_retry w.attempts) es ≡ false
      → IsIdle w v
      → IsIdle w (run digest es v)
  unfolding run
  run-IsIdle [] v waits asks h = h
  run-IsIdle (e ∷ es) v waits asks h =
      run-IsIdle es (step digest e v) waits (ground arith) (step-IsIdle e v waits (ground arith) h)

  -- A task that waits for a diagnosis begins nothing by itself: as long as no signal asks for a retry
  -- that names the attempt that failed and gives a reason, every sequence of events, stale requests
  -- and late results included, leaves it waiting there, with the same attempts and results.
  pub no_unasked_retry :
      (es : List Event)
      → needs_diagnosis w.position ≡ true
      → w.retry_request ≡ none
      → any (asks_retry w.attempts) es ≡ false
      → IsIdle w (run digest es w)
  no_unasked_retry es waits fresh asks =
      run-IsIdle es w waits asks
        (record { position = refl; attempts = refl; results = refl; retry_request = fresh })
