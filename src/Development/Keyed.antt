-- ===== src/Development/Keyed.antt =====
-- Every event of runtime/development_workflow.py keeps the count of the steps.
use nortropic_runtime.Prelude.{
  suc, String, ◌≡◌, refl, ap, sym, subst, Option, none, some, List, [], ◌∷◌, ◌++◌, ◌∙◌, arith, ◌&&◌,
}
use nortropic_runtime.Prelude.Text.{has_words}
use nortropic_runtime.Value.{Value, null, text, field, end, get_field, is_truthy, dict, text_and}
use nortropic_runtime.Gate.Recovery.{set_field}
use nortropic_runtime.Gate.Approval.{find_field-put_field}
use nortropic_runtime.Workflow.Requests.{fetch}
use nortropic_runtime.Development.State.{
  Work, reconciliation, handoff, Program, development, assessment, interactive, delivering,
  waiting_interactive_session_end, verifying_preserved_delivery, Stage, Position, at_start, at_end,
  raised, at_activity, at_diagnosis, at_sleep, at_host, at_child_start, at_child, at_signal,
  at_answer, at_poll, execute, Parent, Event, start, host_state_changed, continue_after_diagnosis,
  returned, failed, proceed, timer,
}
use nortropic_runtime.Development.Steps.{is_terminal, key_of, execute_step, repeat_step, next_work}
use nortropic_runtime.Development.Run.{
  is_waiting_diagnosis, take_diagnosis, fail_step, note_answer, take_result, resume_step, begin,
  start_run, take, fail, run_on, wake_up, step, run,
}
use nortropic_runtime.Development.Keys.{
  IsCounted, fresh, again, IsHeld, IsLogged, IsKeyed, prepare-IsKeyed, follow-IsKeyed,
  conclude-IsKeyed, begin_step-IsKeyed, bind-IsKeyed, if-IsKeyed, wait_to_poll-IsKeyed,
  continue_from-IsKeyed,
}

module _ (program : Program) (identity : String) where
  logged : (p : Parent) → IsKeyed identity p → IsLogged identity p.effects p.sequence
  unfolding IsLogged IsKeyed
  logged p (r, c, held) = (r, c)

  take_result-IsKeyed :
      (stage : Stage) (request result : Value) (p : Parent)
      → p.position ≡ at_activity stage request
      → IsKeyed identity p
      → IsKeyed identity (take_result program identity stage request result p)
  unfolding take_result IsKeyed IsLogged
  take_result-IsKeyed stage request result p e (r, c, held) =
      let held' = subst (λ x. IsHeld identity p.sequence x r) e held in
      if-IsKeyed identity (is_truthy (get_field result "capacity_wait")) _ _
        (bind-IsKeyed identity p (fetch result "reason") _ (r, c) (λ reason. (r, c, held')))
        (if-IsKeyed identity (is_truthy (get_field result "interactive_wait")) _ _ (r, c, held')
          (if-IsKeyed identity (is_truthy (get_field result "proof_wait")) _ _
            (bind-IsKeyed identity p (fetch result "reason") _ (r, c) (λ reason. (r, c, held')))
            (if-IsKeyed identity (is_truthy (get_field result "control_wait")) _ _
              (bind-IsKeyed identity p (fetch result "control") _ (r, c)
                (λ control.
                  if-IsKeyed identity (is_terminal control) _ _
                    (continue_from-IsKeyed identity stage result _ (r, c)) (r, c, held')))
              (continue_from-IsKeyed identity stage result p (r, c)))))

  execute_step-IsKeyed :
      (stage : Stage) (request r : Value) (p : Parent)
      → IsCounted identity p.effects p.sequence r
      → (request ≡ r) × (get_field r "key" ≡ text (key_of identity p.sequence))
      → IsKeyed identity (execute_step stage request p)
  unfolding execute_step IsKeyed
  execute_step-IsKeyed stage request r p c (e, names) = (
    r,
    subst (λ x. IsCounted identity (p.effects ++ execute p.sequence x ∷ []) p.sequence r) (sym e)
        (again names c),
    (e, names),
  )

  key_of_set :
      (request w : Value) (k : String)
      → get_field request "key" ≡ text k
      → get_field (set_field request "key" w) "key" ≡ w
  unfolding get_field set_field
  key_of_set (dict fs) w k h = ground (arith, find_field-put_field fs "key" "key" w)
  key_of_set _ w k h = absurd (ground arith)

  resume_step-IsKeyed :
      (stage : Stage) (request r reason : Value) (p : Parent)
      → IsCounted identity p.effects p.sequence r
      → (request ≡ r) × (get_field r "key" ≡ text (key_of identity p.sequence))
      → IsKeyed identity (resume_step program identity stage request reason p)
  unfolding resume_step repeat_step execute_step IsKeyed
  resume_step-IsKeyed stage request r reason p c (e, names) =
      let next =
        key_of_set request (text (key_of identity (suc p.sequence))) (key_of identity p.sequence)
          (ap (λ x. get_field x "key") e ∙ names) in
      (_, fresh _ next c, (refl, next))

  IsHeld-as :
      (position : Position) (p : Parent)
      → p.position ≡ position
      → IsKeyed identity p
      → (r : Value) × IsCounted identity p.effects p.sequence r
        × IsHeld identity p.sequence position r
  unfolding IsKeyed
  IsHeld-as position p e (r, c, held) = (r, c, subst (λ x. IsHeld identity p.sequence x r) e held)

  begun-IsKeyed :
      (class : Program) (expected : String) (p : Parent)
      → IsLogged identity p.effects p.sequence
      → IsKeyed identity (begin program identity class expected p)
  unfolding begin
  begun-IsKeyed development expected p h =
      begin_step-IsKeyed identity interactive "interactive" end
        (record p { expected = expected; phase = waiting_interactive_session_end }) h
  begun-IsKeyed assessment expected p h =
      begin_step-IsKeyed identity delivering "preserved-delivery" end
        (record p { expected = expected; phase = verifying_preserved_delivery }) h

  take-IsKeyed :
      (position : Position) (result : Value) (p : Parent)
      → p.position ≡ position
      → IsKeyed identity p
      → IsKeyed identity (take program identity position result p)
  unfolding take next_work
  take-IsKeyed (at_activity stage request) result p e h =
      take_result-IsKeyed stage request result p e h
  take-IsKeyed (at_child_start work task) result p e h =
      bind-IsKeyed identity p (fetch task "id") _ (logged p h) (λ id.
        follow-IsKeyed identity work task (record p { children = p.children ++ id ∷ [] })
          (logged p h))
  take-IsKeyed (at_child reconciliation task) result p e h =
      prepare-IsKeyed identity handoff null (record p { results = p.results ++ result ∷ [] })
        (logged p h)
  take-IsKeyed (at_child handoff task) result p e h =
      conclude-IsKeyed identity (record p { results = p.results ++ result ∷ [] }) (logged p h)
  take-IsKeyed (at_signal work task) result p e h =
      wait_to_poll-IsKeyed identity work task p (logged p h)
  take-IsKeyed at_start result p e h = h
  take-IsKeyed at_end result p e h = h
  take-IsKeyed raised result p e h = h
  take-IsKeyed (at_diagnosis _ _) result p e h = h
  take-IsKeyed (at_sleep _ _) result p e h = h
  take-IsKeyed (at_host _ _) result p e h = h
  take-IsKeyed (at_answer _ _) result p e h = h
  take-IsKeyed (at_poll _ _) result p e h = h

  fail-IsKeyed :
      (position : Position) (reason : String) (p : Parent)
      → p.position ≡ position
      → IsKeyed identity p
      → IsKeyed identity (fail program identity position reason p)
  unfolding fail fail_step IsKeyed
  fail-IsKeyed (at_activity stage request) reason p e (r, c, held) =
      (r, c, subst (λ x. IsHeld identity p.sequence x r) e held)
  fail-IsKeyed (at_child_start _ _) reason p e (r, c, held) = (r, c, tt)
  fail-IsKeyed (at_child _ _) reason p e (r, c, held) = (r, c, tt)
  fail-IsKeyed (at_signal _ _) reason p e (r, c, held) = (r, c, tt)
  fail-IsKeyed at_start reason p e h = h
  fail-IsKeyed at_end reason p e h = h
  fail-IsKeyed raised reason p e h = h
  fail-IsKeyed (at_diagnosis _ _) reason p e h = h
  fail-IsKeyed (at_sleep _ _) reason p e h = h
  fail-IsKeyed (at_host _ _) reason p e h = h
  fail-IsKeyed (at_answer _ _) reason p e h = h
  fail-IsKeyed (at_poll _ _) reason p e h = h

  diagnosed-IsKeyed :
      (stage : Stage) (request r : Value) (found : Option Value) (p : Parent)
      → IsKeyed identity p
      → IsCounted identity p.effects p.sequence r
      → (request ≡ r) × (get_field r "key" ≡ text (key_of identity p.sequence))
      → IsKeyed identity (elim found [
        | none ↦ p
        | some reason ↦ resume_step program identity stage request reason p
      ])
  diagnosed-IsKeyed stage request r none p h c e = h
  diagnosed-IsKeyed stage request r (some reason) p h c e =
      resume_step-IsKeyed stage request r reason p c e

  answered-IsKeyed :
      (work : Work) (task : Value) (found : Option Value) (p : Parent)
      → IsKeyed identity p
      → IsKeyed identity (elim found [ none ↦ p | some reason ↦ note_answer work task reason p ])
  unfolding note_answer
  answered-IsKeyed work task none p h = h
  answered-IsKeyed work task (some reason) p h =
      bind-IsKeyed identity p (fetch task "id") _ (logged p h) (λ id.
        wait_to_poll-IsKeyed identity work task
          (record p {
            continuations =
                p.continuations ++ dict (field "child" id (field "reason" reason end)) ∷ [];
            continuation = none;
          })
          (logged p h))

  run_on-IsKeyed :
      (position : Position) (p : Parent)
      → p.position ≡ position
      → IsKeyed identity p
      → IsKeyed identity (run_on program identity position p)
  unfolding run_on
  run_on-IsKeyed (at_diagnosis stage request) p e h =
      let (r, c, held) = IsHeld-as (at_diagnosis stage request) p e h in
      diagnosed-IsKeyed stage request r p.continuation p h c held
  run_on-IsKeyed (at_host stage request) p e h =
      let (r, c, held) = IsHeld-as (at_host stage request) p e h in
      if-IsKeyed identity p.wake _ _ (execute_step-IsKeyed stage request r p c held) h
  run_on-IsKeyed (at_answer work task) p e h = answered-IsKeyed work task p.continuation p h
  run_on-IsKeyed at_start p e h = h
  run_on-IsKeyed at_end p e h = h
  run_on-IsKeyed raised p e h = h
  run_on-IsKeyed (at_activity _ _) p e h = h
  run_on-IsKeyed (at_sleep _ _) p e h = h
  run_on-IsKeyed (at_child_start _ _) p e h = h
  run_on-IsKeyed (at_child _ _) p e h = h
  run_on-IsKeyed (at_signal _ _) p e h = h
  run_on-IsKeyed (at_poll _ _) p e h = h

  wake_up-IsKeyed :
      (position : Position) (p : Parent)
      → p.position ≡ position
      → IsKeyed identity p
      → IsKeyed identity (wake_up program identity position p)
  unfolding wake_up
  wake_up-IsKeyed (at_sleep stage request) p e h =
      let (r, c, held) = IsHeld-as (at_sleep stage request) p e h in
      execute_step-IsKeyed stage request r p c held
  wake_up-IsKeyed (at_host stage request) p e h =
      let (r, c, held) = IsHeld-as (at_host stage request) p e h in
      execute_step-IsKeyed stage request r p c held
  wake_up-IsKeyed (at_poll work task) p e h = follow-IsKeyed identity work task p (logged p h)
  wake_up-IsKeyed at_start p e h = h
  wake_up-IsKeyed at_end p e h = h
  wake_up-IsKeyed raised p e h = h
  wake_up-IsKeyed (at_activity _ _) p e h = h
  wake_up-IsKeyed (at_diagnosis _ _) p e h = h
  wake_up-IsKeyed (at_child_start _ _) p e h = h
  wake_up-IsKeyed (at_child _ _) p e h = h
  wake_up-IsKeyed (at_signal _ _) p e h = h
  wake_up-IsKeyed (at_answer _ _) p e h = h

  start-IsKeyed :
      (position : Position) (expected : String) (p : Parent)
      → IsKeyed identity p
      → IsKeyed identity (start_run program identity position expected p)
  unfolding start_run
  start-IsKeyed at_start expected p h = begun-IsKeyed program expected p (logged p h)
  start-IsKeyed at_end expected p h = h
  start-IsKeyed raised expected p h = h
  start-IsKeyed (at_activity _ _) expected p h = h
  start-IsKeyed (at_diagnosis _ _) expected p h = h
  start-IsKeyed (at_sleep _ _) expected p h = h
  start-IsKeyed (at_host _ _) expected p h = h
  start-IsKeyed (at_child_start _ _) expected p h = h
  start-IsKeyed (at_child _ _) expected p h = h
  start-IsKeyed (at_signal _ _) expected p h = h
  start-IsKeyed (at_answer _ _) expected p h = h
  start-IsKeyed (at_poll _ _) expected p h = h

  diagnosis-IsKeyed :
      (reason : Value) (p : Parent)
      → IsKeyed identity p
      → IsKeyed identity (take_diagnosis reason p)
  unfolding take_diagnosis IsKeyed
  diagnosis-IsKeyed reason p h =
      if-IsKeyed identity (is_waiting_diagnosis p.phase && text_and has_words reason) _ _ h h

  step-IsKeyed :
      (event : Event) (p : Parent)
      → IsKeyed identity p
      → IsKeyed identity (step program identity event p)
  unfolding step IsKeyed
  step-IsKeyed (start expected) p h = start-IsKeyed p.position expected p h
  step-IsKeyed host_state_changed p h = h
  step-IsKeyed (continue_after_diagnosis reason) p h = diagnosis-IsKeyed reason p h
  step-IsKeyed (returned result) p h = take-IsKeyed p.position result p refl h
  step-IsKeyed (failed reason) p h = fail-IsKeyed p.position reason p refl h
  step-IsKeyed proceed p h = run_on-IsKeyed p.position p refl h
  step-IsKeyed timer p h = wake_up-IsKeyed p.position p refl h

  pub run-IsKeyed :
      (events : List Event) (p : Parent)
      → IsKeyed identity p
      → IsKeyed identity (run program identity events p)
  unfolding run
  run-IsKeyed [] p h = h
  run-IsKeyed (e ∷ es) p h = run-IsKeyed es (step program identity e p) (step-IsKeyed e p h)
