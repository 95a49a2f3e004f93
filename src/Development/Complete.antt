-- ===== src/Development/Complete.antt =====
-- Every event of FiniteDevelopment in runtime/development_workflow.py keeps the account of the two
-- works, up to the phase `completed`.
use nortropic_runtime.Prelude.{
  ℕ, suc, String, ◌≡◌, refl, ap, ◌∙◌, subst, true, Option, none, some, List, [], ◌∷◌, ◌++◌, ◌&&◌,
  length, arith,
}
use nortropic_runtime.Prelude.Text.{has_words}
use nortropic_runtime.Value.{Value, null, field, end, text, get_field, is_true, is_truthy, text_and}
use nortropic_runtime.Workflow.Requests.{fetch}
use nortropic_runtime.Development.State.{
  Work, reconciliation, handoff, development, preparing, completed, waiting_interactive_session_end,
  waiting_control, awaiting_whole_goal_review, proposing, concluding, Stage, interactive, Position,
  at_start, at_end, raised, at_activity, at_diagnosis, at_sleep, at_host, at_child_start, at_child,
  at_signal, at_answer, at_poll, Parent, initial, Event, start, host_state_changed,
  continue_after_diagnosis, returned, failed, proceed, timer,
}
use nortropic_runtime.Development.Steps.{
  is_terminal, wait_to_poll, execute_step, repeat_step, prepare, conclude, follow, begin_step,
  next_work,
}
use nortropic_runtime.Development.Run.{
  is_waiting_diagnosis, take_diagnosis, fail_step, note_answer, take_result, resume_step, begin,
  start_run, take, fail, run_on, wake_up, step, run,
}
use nortropic_runtime.Development.Works.{
  done, IsForStage, IsFor, IsEnded, IsSound, begin_step-IsSound, bind-IsSound, if-IsSound,
  follow-IsSound, wait_to_poll-IsSound, continue_from-IsSound,
}

length-snoc : (vs : List Value) (v : Value) (n : ℕ) → length vs ≡ n → length (vs ++ v ∷ []) ≡ suc n
length-snoc [] v n h = ground (arith)
length-snoc (w ∷ vs) v n h = ap suc (length-snoc vs v (length vs) refl) ∙ ap suc h

placed_at :
    (position : Position) (p : Parent)
    → p.position ≡ position
    → IsSound p
    → IsFor position (length p.results) (length p.children)
      × IsEnded p.phase p.results p.children p.final
unfolding IsSound
placed_at position p e (placed, ended) =
    (subst (λ x. IsFor x (length p.results) (length p.children)) e placed, ended)

module _ (identity : String) where
  take_result-IsSound :
      (stage : Stage) (request result : Value) (p : Parent)
      → IsForStage stage (length p.results) (length p.children)
      → IsEnded p.phase p.results p.children p.final
      → IsSound (take_result development identity stage request result p)
  unfolding take_result IsSound
  take_result-IsSound stage request result p h e =
      if-IsSound (is_truthy (get_field result "capacity_wait")) _ _
        (bind-IsSound p (fetch result "reason") _ e (λ reason. (h, tt)))
        (if-IsSound (is_truthy (get_field result "interactive_wait")) _ _ (h, tt)
          (if-IsSound (is_truthy (get_field result "proof_wait")) _ _
            (bind-IsSound p (fetch result "reason") _ e (λ reason. (h, tt)))
            (if-IsSound (is_truthy (get_field result "control_wait")) _ _
              (bind-IsSound p (fetch result "control") _ e (λ control.
                if-IsSound (is_terminal control) _ _
                  (continue_from-IsSound identity stage result
                    (record p { phase = waiting_control; reason = control }) h tt)
                  (h, tt)))
              (continue_from-IsSound identity stage result p h e))))

  next_work-IsSound :
      (work : Work) (result : Value) (p : Parent)
      → length p.results ≡ done work
      → length p.children ≡ suc (done work)
      → IsSound (next_work identity work result p)
  unfolding next_work prepare conclude
  next_work-IsSound reconciliation result p r c =
      begin_step-IsSound identity (proposing handoff) "propose"
        (field "work" (text "handoff") (field "revision_request" null end))
        (record p { results = p.results ++ result ∷ []; phase = preparing handoff })
        (length-snoc p.results result 0 r, c) tt
  next_work-IsSound handoff result p r c =
      begin_step-IsSound identity concluding "final-review" end
        (record p { results = p.results ++ result ∷ []; phase = awaiting_whole_goal_review })
        (length-snoc p.results result 1 r, c) tt

  take-IsSound :
      (position : Position) (result : Value) (p : Parent)
      → p.position ≡ position
      → IsSound p
      → IsSound (take development identity position result p)
  unfolding take follow begin_step execute_step IsSound
  take-IsSound (at_activity stage request) result p e s =
      let (h, ended) = placed_at (at_activity stage request) p e s in
      take_result-IsSound stage request result p h ended
  take-IsSound (at_child_start work task) result p e s =
      let ((r, c), ended) = placed_at (at_child_start work task) p e s in
      bind-IsSound p (fetch task "id") _ ended
        (λ id. ((r, length-snoc p.children id (done work) c), tt))
  take-IsSound (at_child work task) result p e s =
      let ((r, c), ended) = placed_at (at_child work task) p e s in
      next_work-IsSound work result p r c
  take-IsSound (at_signal work task) result p e s =
      let ((r, c), ended) = placed_at (at_signal work task) p e s in
      wait_to_poll-IsSound identity work p r ended c task
  take-IsSound at_start result p e s = s
  take-IsSound at_end result p e s = s
  take-IsSound raised result p e s = s
  take-IsSound (at_diagnosis _ _) result p e s = s
  take-IsSound (at_sleep _ _) result p e s = s
  take-IsSound (at_host _ _) result p e s = s
  take-IsSound (at_answer _ _) result p e s = s
  take-IsSound (at_poll _ _) result p e s = s

  fail-IsSound :
      (position : Position) (reason : String) (p : Parent)
      → p.position ≡ position
      → IsSound p
      → IsSound (fail development identity position reason p)
  unfolding fail fail_step IsSound
  fail-IsSound (at_activity stage request) reason p e s =
      let (h, ended) = placed_at (at_activity stage request) p e s in (h, tt)
  fail-IsSound (at_child_start _ _) reason p e (h, ended) = (tt, ended)
  fail-IsSound (at_child _ _) reason p e (h, ended) = (tt, ended)
  fail-IsSound (at_signal _ _) reason p e (h, ended) = (tt, ended)
  fail-IsSound at_start reason p e s = s
  fail-IsSound at_end reason p e s = s
  fail-IsSound raised reason p e s = s
  fail-IsSound (at_diagnosis _ _) reason p e s = s
  fail-IsSound (at_sleep _ _) reason p e s = s
  fail-IsSound (at_host _ _) reason p e s = s
  fail-IsSound (at_answer _ _) reason p e s = s
  fail-IsSound (at_poll _ _) reason p e s = s

  resume_step-IsSound :
      (stage : Stage) (request : Value) (found : Option Value) (p : Parent)
      → IsForStage stage (length p.results) (length p.children)
      → IsSound p
      → IsSound (elim found [
        | none ↦ p
        | some reason ↦ resume_step development identity stage request reason p
      ])
  unfolding resume_step repeat_step execute_step IsSound
  resume_step-IsSound stage request none p h s = s
  resume_step-IsSound stage request (some reason) p h (placed, ended) = (h, ended)

  note_answer-IsSound :
      (work : Work) (task : Value) (found : Option Value) (p : Parent)
      → length p.results ≡ done work
      → length p.children ≡ suc (done work)
      → IsSound p
      → IsSound (elim found [ none ↦ p | some reason ↦ note_answer work task reason p ])
  unfolding note_answer wait_to_poll IsSound
  note_answer-IsSound work task none p r c s = s
  note_answer-IsSound work task (some reason) p r c (placed, ended) =
      bind-IsSound p (fetch task "id") _ ended (λ id. ((r, c), ended))

  execute_step-IsSound :
      (stage : Stage) (request : Value) (p : Parent)
      → IsForStage stage (length p.results) (length p.children)
      → IsSound p
      → IsSound (execute_step stage request p)
  unfolding execute_step IsSound
  execute_step-IsSound stage request p h (placed, ended) = (h, ended)

  run_on-IsSound :
      (position : Position) (p : Parent)
      → p.position ≡ position
      → IsSound p
      → IsSound (run_on development identity position p)
  unfolding run_on
  run_on-IsSound (at_diagnosis stage request) p e s =
      resume_step-IsSound stage request p.continuation p
        (placed_at (at_diagnosis stage request) p e s).0 s
  run_on-IsSound (at_host stage request) p e s =
      if-IsSound p.wake _ _
        (execute_step-IsSound stage request p (placed_at (at_host stage request) p e s).0 s) s
  run_on-IsSound (at_answer work task) p e s =
      let ((r, c), ended) = placed_at (at_answer work task) p e s in
      note_answer-IsSound work task p.continuation p r c s
  run_on-IsSound at_start p e s = s
  run_on-IsSound at_end p e s = s
  run_on-IsSound raised p e s = s
  run_on-IsSound (at_activity _ _) p e s = s
  run_on-IsSound (at_sleep _ _) p e s = s
  run_on-IsSound (at_child_start _ _) p e s = s
  run_on-IsSound (at_child _ _) p e s = s
  run_on-IsSound (at_signal _ _) p e s = s
  run_on-IsSound (at_poll _ _) p e s = s

  wake_up-IsSound :
      (position : Position) (p : Parent)
      → p.position ≡ position
      → IsSound p
      → IsSound (wake_up development identity position p)
  unfolding wake_up
  wake_up-IsSound (at_sleep stage request) p e s =
      execute_step-IsSound stage request p (placed_at (at_sleep stage request) p e s).0 s
  wake_up-IsSound (at_host stage request) p e s =
      execute_step-IsSound stage request p (placed_at (at_host stage request) p e s).0 s
  wake_up-IsSound (at_poll work task) p e s =
      let ((r, c), ended) = placed_at (at_poll work task) p e s in
      follow-IsSound identity work p r ended c task
  wake_up-IsSound at_start p e s = s
  wake_up-IsSound at_end p e s = s
  wake_up-IsSound raised p e s = s
  wake_up-IsSound (at_activity _ _) p e s = s
  wake_up-IsSound (at_diagnosis _ _) p e s = s
  wake_up-IsSound (at_child_start _ _) p e s = s
  wake_up-IsSound (at_child _ _) p e s = s
  wake_up-IsSound (at_signal _ _) p e s = s
  wake_up-IsSound (at_answer _ _) p e s = s

  start-IsSound :
      (position : Position) (expected : String) (p : Parent)
      → p.position ≡ position
      → IsSound p
      → IsSound (start_run development identity position expected p)
  unfolding start_run begin
  start-IsSound at_start expected p e s =
      begin_step-IsSound identity interactive "interactive" end
        (record p { expected = expected; phase = waiting_interactive_session_end })
        (placed_at at_start p e s).0 tt
  start-IsSound at_end expected p e s = s
  start-IsSound raised expected p e s = s
  start-IsSound (at_activity _ _) expected p e s = s
  start-IsSound (at_diagnosis _ _) expected p e s = s
  start-IsSound (at_sleep _ _) expected p e s = s
  start-IsSound (at_host _ _) expected p e s = s
  start-IsSound (at_child_start _ _) expected p e s = s
  start-IsSound (at_child _ _) expected p e s = s
  start-IsSound (at_signal _ _) expected p e s = s
  start-IsSound (at_answer _ _) expected p e s = s
  start-IsSound (at_poll _ _) expected p e s = s

  diagnosis-IsSound : (reason : Value) (p : Parent) → IsSound p → IsSound (take_diagnosis reason p)
  unfolding take_diagnosis IsSound
  diagnosis-IsSound reason p s =
      if-IsSound (is_waiting_diagnosis p.phase && text_and has_words reason) _ _ s s

  step-IsSound :
      (event : Event) (p : Parent) → IsSound p → IsSound (step development identity event p)
  unfolding step IsSound
  step-IsSound (start expected) p s = start-IsSound p.position expected p refl s
  step-IsSound host_state_changed p s = s
  step-IsSound (continue_after_diagnosis reason) p s = diagnosis-IsSound reason p s
  step-IsSound (returned result) p s = take-IsSound p.position result p refl s
  step-IsSound (failed reason) p s = fail-IsSound p.position reason p refl s
  step-IsSound proceed p s = run_on-IsSound p.position p refl s
  step-IsSound timer p s = wake_up-IsSound p.position p refl s

  run-IsSound :
      (events : List Event) (p : Parent) → IsSound p → IsSound (run development identity events p)
  unfolding run
  run-IsSound [] p s = s
  run-IsSound (e ∷ es) p s = run-IsSound es (step development identity e p) (step-IsSound e p s)

initial-IsSound : IsSound initial
unfolding IsSound initial
initial-IsSound = ((refl, refl), tt)

-- Whatever the engine, the host and the children do, in any order: when a finite development reaches
-- the phase `completed`, it has started two children, has collected the results of two, and the final
-- review that it keeps says that the whole goal is complete.
pub completed_has_both_works :
    (identity : String) (events : List Event)
    → (run development identity events initial).phase ≡ completed
    → let p = run development identity events initial in
      (length p.results ≡ 2)
      × (length p.children ≡ 2)
      × ((f : Value) × (p.final ≡ some f) × (is_true (get_field f "whole_goal_complete") ≡ true))
unfolding IsSound
completed_has_both_works identity events e =
    let p = run development identity events initial in
    let (placed, ended) = run-IsSound identity events initial initial-IsSound in
    subst (λ phase. IsEnded phase p.results p.children p.final) e ended
