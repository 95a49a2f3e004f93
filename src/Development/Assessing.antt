-- ===== src/Development/Assessing.antt =====
-- FiniteAssessment of runtime/development_workflow.py: what it asks for, over every list of events.
use nortropic_runtime.Prelude.{
  ℕ, suc, String, ◌≡◌, refl, ◌∙◌, subst, Bool, true, false, Option, none, some, inl, inr, ◌⊎◌, List,
  [], ◌∷◌, ◌++◌, ◌&&◌, if◌then◌else◌,
}
use nortropic_runtime.Prelude.Text.{has_words}
use nortropic_runtime.Value.{
  Value, Fields, text, dict, field, end, find_field, get_field, is_truthy, text_and, int, pos,
}
use nortropic_runtime.Gate.Recovery.{set_field}
use nortropic_runtime.Gate.Approval.{get_field-set_field}
use nortropic_runtime.Workflow.Requests.{◌>>=◌, fetch}
use nortropic_runtime.Development.State.{
  assessment, waiting_control, verifying_preserved_delivery, awaiting_whole_goal_review, Stage,
  interactive, delivering, concluding, proposing, reviewing, freezing, controlling, observing,
  recovering, Position, at_start, at_end, raised, at_activity, at_diagnosis, at_sleep, at_host,
  at_child_start, at_child, at_signal, at_answer, at_poll, Effect, execute, Parent, initial, Event,
  start, host_state_changed, continue_after_diagnosis, returned, failed, proceed, timer,
}
use nortropic_runtime.Development.Steps.{
  or_raise, is_terminal, finish_with, key_of, execute_step, begin_step, repeat_step, conclude,
  finish_review, check_delivery, continue_from,
}
use nortropic_runtime.Development.Run.{
  is_waiting_diagnosis, take_diagnosis, fail_step, take_result, resume_step, begin, start_run, take,
  fail, run_on, wake_up, step, run,
}

-- An activity of the two that an assessment counts; no child is touched.
abbrev pub IsReview : Effect → Type 0
IsReview (execute _ request) =
    (get_field request "operation" ≡ text "preserved-delivery")
    ⊎ (get_field request "operation" ≡ text "final-review")
IsReview _ = ⊥

abbrev AreReviews : List Effect → Type 0
AreReviews [] = Unit {0}
AreReviews (e ∷ es) = IsReview e × AreReviews es

abbrev IsOwn : Stage → Value → Type 0
IsOwn delivering request = get_field request "operation" ≡ text "preserved-delivery"
IsOwn concluding request = get_field request "operation" ≡ text "final-review"
IsOwn _ request = ⊥

abbrev IsInside : Position → Type 0
IsInside at_start = Unit {0}
IsInside at_end = Unit {0}
IsInside raised = Unit {0}
IsInside (at_activity stage request) = IsOwn stage request
IsInside (at_diagnosis stage request) = IsOwn stage request
IsInside (at_sleep stage request) = IsOwn stage request
IsInside (at_host stage request) = IsOwn stage request
IsInside _ = ⊥

unfoldable IsAssessing : Parent → Type 0
IsAssessing p = IsInside p.position × AreReviews p.effects

AreReviews-snoc :
    (es : List Effect) (e : Effect) → AreReviews es → IsReview e → AreReviews (es ++ e ∷ [])
AreReviews-snoc [] e h this = (this, tt)
AreReviews-snoc (x ∷ es) e (first, h) this = (first, AreReviews-snoc es e h this)

own-IsReview :
    (stage : Stage) (n : ℕ) (request : Value) → IsOwn stage request → IsReview (execute n request)
own-IsReview delivering n request h = inl h
own-IsReview concluding n request h = inr h
own-IsReview interactive n request h = absurd h
own-IsReview (proposing _) n request h = absurd h
own-IsReview (reviewing _ _) n request h = absurd h
own-IsReview (freezing _ _ _) n request h = absurd h
own-IsReview (controlling _ _) n request h = absurd h
own-IsReview (observing _ _) n request h = absurd h
own-IsReview (recovering _ _ _) n request h = absurd h

execute_step-IsAssessing :
    (stage : Stage) (request : Value) (p : Parent)
    → IsOwn stage request
    → AreReviews p.effects
    → IsAssessing (execute_step stage request p)
unfolding IsAssessing execute_step
execute_step-IsAssessing stage request p own h =
    (own, AreReviews-snoc p.effects _ h (own-IsReview stage p.sequence request own))

keeps_operation :
    (request w : Value) (name : String)
    → get_field request "operation" ≡ text name
    → get_field (set_field request "key" w) "operation" ≡ text name
keeps_operation request w name h = get_field-set_field request "key" "operation" w refl ∙ h

IsOwn-set :
    (stage : Stage) (request w : Value)
    → IsOwn stage request
    → IsOwn stage (set_field request "key" w)
IsOwn-set delivering request w h = keeps_operation request w "preserved-delivery" h
IsOwn-set concluding request w h = keeps_operation request w "final-review" h
IsOwn-set interactive request w h = absurd h
IsOwn-set (proposing _) request w h = absurd h
IsOwn-set (reviewing _ _) request w h = absurd h
IsOwn-set (freezing _ _ _) request w h = absurd h
IsOwn-set (controlling _ _) request w h = absurd h
IsOwn-set (observing _ _) request w h = absurd h
IsOwn-set (recovering _ _ _) request w h = absurd h

if-IsAssessing :
    (test : Bool) (p q : Parent)
    → IsAssessing p
    → IsAssessing q
    → IsAssessing (if test then p else q)
if-IsAssessing true p q hp hq = hp
if-IsAssessing false p q hp hq = hq

bind-IsAssessing :
    {A : Type 0} (p : Parent) (first : Option A) (rest : A → Option Parent)
    → AreReviews p.effects
    → ((a : A) → IsAssessing (or_raise p (rest a)))
    → IsAssessing (or_raise p (first >>= rest))
unfolding ◌>>=◌ IsAssessing
bind-IsAssessing p none rest h next = (tt, h)
bind-IsAssessing p (some a) rest h next = next a

IsInside-at :
    (position : Position) (p : Parent)
    → p.position ≡ position
    → IsAssessing p
    → IsInside position × AreReviews p.effects
unfolding IsAssessing
IsInside-at position p e (inside, h) = (subst IsInside e inside, h)

module _ (identity : String) where
  begin_step-IsAssessing :
      (stage : Stage) (operation : String) (fields : Fields) (p : Parent)
      → ((r : Value) → get_field r "operation" ≡ text operation → IsOwn stage r)
      → AreReviews p.effects
      → IsAssessing (begin_step identity stage operation fields p)
  unfolding begin_step get_field find_field
  begin_step-IsAssessing stage operation fields p own h =
      execute_step-IsAssessing stage _ (record p { sequence = suc p.sequence }) (own _ refl) h

  conclude-IsAssessing : (p : Parent) → AreReviews p.effects → IsAssessing (conclude identity p)
  unfolding conclude
  conclude-IsAssessing p h =
      begin_step-IsAssessing concluding "final-review" end
        (record p { phase = awaiting_whole_goal_review }) (λ r e. e) h

  continue_from-IsAssessing :
      (stage : Stage) (request result : Value) (p : Parent)
      → IsOwn stage request
      → AreReviews p.effects
      → IsAssessing (continue_from identity stage result p)
  unfolding continue_from check_delivery finish_review finish_with IsAssessing
  continue_from-IsAssessing delivering request result p own h =
      if-IsAssessing (is_truthy (get_field result "control_wait")) _ _ (tt, h)
        (if-IsAssessing (is_truthy (get_field result "complete")) _ _ (conclude-IsAssessing p h)
          (tt, h))
  continue_from-IsAssessing concluding request result p own h = (tt, h)
  continue_from-IsAssessing interactive request result p own h = absurd own
  continue_from-IsAssessing (proposing _) request result p own h = absurd own
  continue_from-IsAssessing (reviewing _ _) request result p own h = absurd own
  continue_from-IsAssessing (freezing _ _ _) request result p own h = absurd own
  continue_from-IsAssessing (controlling _ _) request result p own h = absurd own
  continue_from-IsAssessing (observing _ _) request result p own h = absurd own
  continue_from-IsAssessing (recovering _ _ _) request result p own h = absurd own

  take_result-IsAssessing :
      (stage : Stage) (request result : Value) (p : Parent)
      → IsOwn stage request
      → AreReviews p.effects
      → IsAssessing (take_result assessment identity stage request result p)
  unfolding take_result IsAssessing
  take_result-IsAssessing stage request result p own h =
      if-IsAssessing (is_truthy (get_field result "capacity_wait")) _ _
        (bind-IsAssessing p (fetch result "reason") _ h (λ reason. (own, h)))
        (if-IsAssessing (is_truthy (get_field result "interactive_wait")) _ _ (own, h)
          (if-IsAssessing (is_truthy (get_field result "proof_wait")) _ _
            (bind-IsAssessing p (fetch result "reason") _ h (λ reason. (own, h)))
            (if-IsAssessing (is_truthy (get_field result "control_wait")) _ _
              (bind-IsAssessing p (fetch result "control") _ h (λ control.
                if-IsAssessing (is_terminal control) _ _
                  (continue_from-IsAssessing stage request result
                    (record p { phase = waiting_control; reason = control }) own h)
                  (own, h)))
              (continue_from-IsAssessing stage request result p own h))))

  resume_step-IsAssessing :
      (stage : Stage) (request : Value) (found : Option Value) (p : Parent)
      → IsOwn stage request
      → IsAssessing p
      → IsAssessing (elim found [
        | none ↦ p
        | some reason ↦ resume_step assessment identity stage request reason p
      ])
  unfolding resume_step repeat_step IsAssessing
  resume_step-IsAssessing stage request none p own s = s
  resume_step-IsAssessing stage request (some reason) p own (inside, h) =
      execute_step-IsAssessing stage
        (set_field request "key" (text (key_of identity (suc p.sequence))))
        (record p {
          continuations =
              p.continuations
              ++ dict (field "sequence" (int (pos p.sequence)) (field "reason" reason end)) ∷ [];
          continuation = none;
          sequence = suc p.sequence;
        })
        (IsOwn-set stage request _ own) h

  take-IsAssessing :
      (position : Position) (result : Value) (p : Parent)
      → p.position ≡ position
      → IsAssessing p
      → IsAssessing (take assessment identity position result p)
  unfolding take
  take-IsAssessing at_start result p e s = s
  take-IsAssessing at_end result p e s = s
  take-IsAssessing raised result p e s = s
  take-IsAssessing (at_activity stage request) result p e s =
      let (own, h) = IsInside-at (at_activity stage request) p e s in
      take_result-IsAssessing stage request result p own h
  take-IsAssessing (at_diagnosis stage request) result p e s = s
  take-IsAssessing (at_sleep stage request) result p e s = s
  take-IsAssessing (at_host stage request) result p e s = s
  take-IsAssessing (at_child_start _ _) result p e s =
      absurd (IsInside-at (at_child_start _ _) p e s).0
  take-IsAssessing (at_child _ _) result p e s = absurd (IsInside-at (at_child _ _) p e s).0
  take-IsAssessing (at_signal _ _) result p e s = absurd (IsInside-at (at_signal _ _) p e s).0
  take-IsAssessing (at_answer _ _) result p e s = absurd (IsInside-at (at_answer _ _) p e s).0
  take-IsAssessing (at_poll _ _) result p e s = absurd (IsInside-at (at_poll _ _) p e s).0

  fail-IsAssessing :
      (position : Position) (reason : String) (p : Parent)
      → p.position ≡ position
      → IsAssessing p
      → IsAssessing (fail assessment identity position reason p)
  unfolding fail fail_step IsAssessing
  fail-IsAssessing at_start reason p e s = s
  fail-IsAssessing at_end reason p e s = s
  fail-IsAssessing raised reason p e s = s
  fail-IsAssessing (at_activity stage request) reason p e s =
      IsInside-at (at_activity stage request) p e s
  fail-IsAssessing (at_diagnosis stage request) reason p e s = s
  fail-IsAssessing (at_sleep stage request) reason p e s = s
  fail-IsAssessing (at_host stage request) reason p e s = s
  fail-IsAssessing (at_child_start _ _) reason p e s =
      absurd (IsInside-at (at_child_start _ _) p e s).0
  fail-IsAssessing (at_child _ _) reason p e s = absurd (IsInside-at (at_child _ _) p e s).0
  fail-IsAssessing (at_signal _ _) reason p e s = absurd (IsInside-at (at_signal _ _) p e s).0
  fail-IsAssessing (at_answer _ _) reason p e s = absurd (IsInside-at (at_answer _ _) p e s).0
  fail-IsAssessing (at_poll _ _) reason p e s = absurd (IsInside-at (at_poll _ _) p e s).0

  run_on-IsAssessing :
      (position : Position) (p : Parent)
      → p.position ≡ position
      → IsAssessing p
      → IsAssessing (run_on assessment identity position p)
  unfolding run_on
  run_on-IsAssessing at_start p e s = s
  run_on-IsAssessing at_end p e s = s
  run_on-IsAssessing raised p e s = s
  run_on-IsAssessing (at_activity stage request) p e s = s
  run_on-IsAssessing (at_diagnosis stage request) p e s =
      let (own, h) = IsInside-at (at_diagnosis stage request) p e s in
      resume_step-IsAssessing stage request p.continuation p own s
  run_on-IsAssessing (at_sleep stage request) p e s = s
  run_on-IsAssessing (at_host stage request) p e s =
      let (own, h) = IsInside-at (at_host stage request) p e s in
      if-IsAssessing p.wake _ _ (execute_step-IsAssessing stage request p own h) s
  run_on-IsAssessing (at_child_start _ _) p e s = absurd (IsInside-at (at_child_start _ _) p e s).0
  run_on-IsAssessing (at_child _ _) p e s = absurd (IsInside-at (at_child _ _) p e s).0
  run_on-IsAssessing (at_signal _ _) p e s = absurd (IsInside-at (at_signal _ _) p e s).0
  run_on-IsAssessing (at_answer _ _) p e s = absurd (IsInside-at (at_answer _ _) p e s).0
  run_on-IsAssessing (at_poll _ _) p e s = absurd (IsInside-at (at_poll _ _) p e s).0

  wake_up-IsAssessing :
      (position : Position) (p : Parent)
      → p.position ≡ position
      → IsAssessing p
      → IsAssessing (wake_up assessment identity position p)
  unfolding wake_up
  wake_up-IsAssessing at_start p e s = s
  wake_up-IsAssessing at_end p e s = s
  wake_up-IsAssessing raised p e s = s
  wake_up-IsAssessing (at_activity stage request) p e s = s
  wake_up-IsAssessing (at_diagnosis stage request) p e s = s
  wake_up-IsAssessing (at_sleep stage request) p e s =
      let (own, h) = IsInside-at (at_sleep stage request) p e s in
      execute_step-IsAssessing stage request p own h
  wake_up-IsAssessing (at_host stage request) p e s =
      let (own, h) = IsInside-at (at_host stage request) p e s in
      execute_step-IsAssessing stage request p own h
  wake_up-IsAssessing (at_child_start _ _) p e s = absurd (IsInside-at (at_child_start _ _) p e s).0
  wake_up-IsAssessing (at_child _ _) p e s = absurd (IsInside-at (at_child _ _) p e s).0
  wake_up-IsAssessing (at_signal _ _) p e s = absurd (IsInside-at (at_signal _ _) p e s).0
  wake_up-IsAssessing (at_answer _ _) p e s = absurd (IsInside-at (at_answer _ _) p e s).0
  wake_up-IsAssessing (at_poll _ _) p e s = absurd (IsInside-at (at_poll _ _) p e s).0

  start_run-IsAssessing :
      (position : Position) (expected : String) (p : Parent)
      → IsAssessing p
      → IsAssessing (start_run assessment identity position expected p)
  unfolding start_run begin IsAssessing
  start_run-IsAssessing at_start expected p (inside, h) =
      begin_step-IsAssessing delivering "preserved-delivery" end
        (record p { expected = expected; phase = verifying_preserved_delivery }) (λ r e. e) h
  start_run-IsAssessing at_end expected p s = s
  start_run-IsAssessing raised expected p s = s
  start_run-IsAssessing (at_activity _ _) expected p s = s
  start_run-IsAssessing (at_diagnosis _ _) expected p s = s
  start_run-IsAssessing (at_sleep _ _) expected p s = s
  start_run-IsAssessing (at_host _ _) expected p s = s
  start_run-IsAssessing (at_child_start _ _) expected p s = s
  start_run-IsAssessing (at_child _ _) expected p s = s
  start_run-IsAssessing (at_signal _ _) expected p s = s
  start_run-IsAssessing (at_answer _ _) expected p s = s
  start_run-IsAssessing (at_poll _ _) expected p s = s

  diagnosis-IsAssessing :
      (reason : Value) (p : Parent) → IsAssessing p → IsAssessing (take_diagnosis reason p)
  unfolding take_diagnosis IsAssessing
  diagnosis-IsAssessing reason p s =
      if-IsAssessing (is_waiting_diagnosis p.phase && text_and has_words reason) _ _ s s

  step-IsAssessing :
      (event : Event) (p : Parent) → IsAssessing p → IsAssessing (step assessment identity event p)
  unfolding step IsAssessing
  step-IsAssessing (start expected) p s = start_run-IsAssessing p.position expected p s
  step-IsAssessing host_state_changed p s = s
  step-IsAssessing (continue_after_diagnosis reason) p s = diagnosis-IsAssessing reason p s
  step-IsAssessing (returned result) p s = take-IsAssessing p.position result p refl s
  step-IsAssessing (failed reason) p s = fail-IsAssessing p.position reason p refl s
  step-IsAssessing proceed p s = run_on-IsAssessing p.position p refl s
  step-IsAssessing timer p s = wake_up-IsAssessing p.position p refl s

  run-IsAssessing :
      (events : List Event) (p : Parent)
      → IsAssessing p
      → IsAssessing (run assessment identity events p)
  unfolding run
  run-IsAssessing [] p s = s
  run-IsAssessing (e ∷ es) p s =
      run-IsAssessing es (step assessment identity e p) (step-IsAssessing e p s)

IsReview-at :
    (es before rest : List Effect) (effect : Effect)
    → AreReviews es
    → es ≡ before ++ effect ∷ rest
    → IsReview effect
IsReview-at [] [] rest effect h e = absurd (cc)
IsReview-at [] (b ∷ before) rest effect h e = absurd (cc)
IsReview-at (x ∷ es) [] rest effect (first, h) e = let q : x ≡ effect = cc in subst IsReview q first
IsReview-at (x ∷ es) (b ∷ before) rest effect (first, h) e =
    let q : es ≡ before ++ effect ∷ rest = cc in IsReview-at es before rest effect h q

-- Whatever happens, in any order: everything that a finite assessment asks of the engine is an
-- activity of one of two operations, the look at the preserved delivery or the final review. It
-- starts, cancels and signals no child, and freezes, proposes and reviews nothing.
pub run-IsReview :
    (identity : String) (events : List Event) (before : List Effect) (effect : Effect)
    (rest : List Effect)
    → (run assessment identity events initial).effects ≡ before ++ effect ∷ rest
    → IsReview effect
unfolding IsAssessing initial
run-IsReview identity events before effect rest e =
    IsReview-at _ before rest effect (run-IsAssessing identity events initial (tt, tt)).1 e
