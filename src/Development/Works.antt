-- ===== src/Development/Works.antt =====
-- The two works of FiniteDevelopment in runtime/development_workflow.py: how many children run has
-- started and collected wherever it waits.
use nortropic_runtime.Prelude.{
  ℕ, suc, String, ◌≡◌, refl, Bool, true, false, Option, none, some, List, inl, inr, length,
  Bool-cases, if◌then◌else◌,
}
use nortropic_runtime.Value.{Value, Fields, get_field, is_true}
use nortropic_runtime.Workflow.Requests.{◌>>=◌, fetch}
use nortropic_runtime.Development.State.{
  Work, reconciliation, handoff, Phase, completed, stopped, preparing, Stage, interactive,
  delivering, concluding, proposing, reviewing, freezing, controlling, observing, recovering,
  Position, at_start, at_end, raised, at_activity, at_diagnosis, at_sleep, at_host, at_child_start,
  at_child, at_signal, at_answer, at_poll, Parent,
}
use nortropic_runtime.Development.Steps.{
  or_raise, finish, finish_with, wait_to_poll, signal, start_task, execute_step, begin_step,
  prepare, review_draft, decide_draft, begin_child, follow, observe, look_at_child, recover,
  finish_review, begin_works, continue_from,
}

-- The works before this one.
abbrev pub done : Work → ℕ
done reconciliation = 0
done handoff = 1

-- The results and the children that belong to a call of `step`; a build never asks for the
-- preserved delivery.
abbrev pub IsForStage : Stage → ℕ → ℕ → Type 0
IsForStage interactive r c = (r ≡ 0) × (c ≡ 0)
IsForStage delivering r c = ⊥
IsForStage concluding r c = (r ≡ 2) × (c ≡ 2)
IsForStage (proposing work) r c = (r ≡ done work) × (c ≡ done work)
IsForStage (reviewing work _) r c = (r ≡ done work) × (c ≡ done work)
IsForStage (freezing work _ _) r c = (r ≡ done work) × (c ≡ done work)
IsForStage (controlling work _) r c = (r ≡ done work) × (c ≡ suc (done work))
IsForStage (observing work _) r c = (r ≡ done work) × (c ≡ suc (done work))
IsForStage (recovering work _ _) r c = (r ≡ done work) × (c ≡ suc (done work))

abbrev pub IsFor : Position → ℕ → ℕ → Type 0
IsFor at_start r c = (r ≡ 0) × (c ≡ 0)
IsFor at_end r c = Unit {0}
IsFor raised r c = Unit {0}
IsFor (at_activity stage _) r c = IsForStage stage r c
IsFor (at_diagnosis stage _) r c = IsForStage stage r c
IsFor (at_sleep stage _) r c = IsForStage stage r c
IsFor (at_host stage _) r c = IsForStage stage r c
IsFor (at_child_start work _) r c = (r ≡ done work) × (c ≡ done work)
IsFor (at_child work _) r c = (r ≡ done work) × (c ≡ suc (done work))
IsFor (at_signal work _) r c = (r ≡ done work) × (c ≡ suc (done work))
IsFor (at_answer work _) r c = (r ≡ done work) × (c ≡ suc (done work))
IsFor (at_poll work _) r c = (r ≡ done work) × (c ≡ suc (done work))

-- What the phase `completed` stands for.
abbrev pub IsEnded : Phase → List Value → List Value → Option Value → Type 0
IsEnded completed rs cs final =
    (length rs ≡ 2)
    × (length cs ≡ 2)
    × ((f : Value) × (final ≡ some f) × (is_true (get_field f "whole_goal_complete") ≡ true))
IsEnded _ rs cs final = Unit {0}

unfoldable pub IsSound : Parent → Type 0
IsSound p =
    IsFor p.position (length p.results) (length p.children)
    × IsEnded p.phase p.results p.children p.final

pub finish-IsSound :
    (phase : Phase) (p : Parent)
    → IsEnded phase p.results p.children p.final
    → IsSound (finish phase p)
unfolding IsSound finish
finish-IsSound phase p h = (tt, h)

pub finish_with-IsSound :
    (phase : Phase) (reason : Value) (p : Parent)
    → IsEnded phase p.results p.children p.final
    → IsSound (finish_with phase reason p)
unfolding IsSound finish_with
finish_with-IsSound phase reason p h = (tt, h)

pub raise-IsSound :
    (p : Parent)
    → IsEnded p.phase p.results p.children p.final
    → IsSound (record p { position = raised })
unfolding IsSound
raise-IsSound p h = (tt, h)

pub begin_step-IsSound :
    (identity : String) (stage : Stage) (operation : String) (fields : Fields) (p : Parent)
    → IsForStage stage (length p.results) (length p.children)
    → IsEnded p.phase p.results p.children p.final
    → IsSound (begin_step identity stage operation fields p)
unfolding IsSound begin_step execute_step
begin_step-IsSound identity stage operation fields p h e = (h, e)

pub bind-IsSound :
    {A : Type 0} (p : Parent) (first : Option A) (rest : A → Option Parent)
    → IsEnded p.phase p.results p.children p.final
    → ((a : A) → IsSound (or_raise p (rest a)))
    → IsSound (or_raise p (first >>= rest))
unfolding ◌>>=◌
bind-IsSound p none rest h next = raise-IsSound p h
bind-IsSound p (some a) rest h next = next a

pub if-IsSound :
    (test : Bool) (p q : Parent) → IsSound p → IsSound q → IsSound (if test then p else q)
if-IsSound true p q hp hq = hp
if-IsSound false p q hp hq = hq

ruleset rules = (
  finish-IsSound, finish_with-IsSound, raise-IsSound, begin_step-IsSound, bind-IsSound, if-IsSound,
)

module _ (identity : String) (work : Work) (p : Parent)
    (results_done : length p.results ≡ done work)
    (e : IsEnded p.phase p.results p.children p.final) where
  module _ (children_done : length p.children ≡ done work) where
    review_draft-IsSound : (draft : Value) → IsSound (review_draft identity work draft p)
    unfolding review_draft
    review_draft-IsSound draft = search (rules, tt) depth 8

    decide_draft-IsSound :
        (draft review : Value) → IsSound (decide_draft identity work draft review p)
    unfolding decide_draft prepare
    decide_draft-IsSound draft review = search (rules, tt) depth 10

    start_task-IsSound : (task : Value) → IsSound (start_task work task p)
    unfolding start_task IsSound
    start_task-IsSound task =
        bind-IsSound p (fetch task "id") _ e (λ id. ((results_done, children_done), e))

    begun-IsSound :
        (frozen : Value) (found : Option Value)
        → IsSound (elim found [
          | none ↦ finish_with stopped frozen p
          | some task ↦ start_task work task p
        ])
    begun-IsSound frozen none = finish_with-IsSound stopped frozen p tt
    begun-IsSound frozen (some task) = start_task-IsSound task

    begin_child-IsSound : (frozen : Value) → IsSound (begin_child identity work frozen p)
    unfolding begin_child
    begin_child-IsSound frozen = begun-IsSound frozen (fetch frozen "task")

  module _ (children_done : length p.children ≡ suc (done work)) where
    observe-IsSound : (task control : Value) → IsSound (observe identity work task control p)
    unfolding observe
    observe-IsSound task control = search (rules, tt) depth 8

    pub follow-IsSound : (task : Value) → IsSound (follow identity work task p)
    unfolding follow
    follow-IsSound task = search (rules, tt) depth 8

    pub wait_to_poll-IsSound : (task : Value) → IsSound (wait_to_poll work task p)
    unfolding wait_to_poll IsSound
    wait_to_poll-IsSound task = ((results_done, children_done), e)

    signal-IsSound :
        (task : Value) (name : String) (request : Value) → IsSound (signal work task name request p)
    unfolding signal IsSound
    signal-IsSound task name request = ((results_done, children_done), e)

    look_at_child-IsSound :
        (task observed : Value) → IsSound (look_at_child identity work task observed p)
    unfolding look_at_child IsSound
    look_at_child-IsSound task observed = search (rules, wait_to_poll-IsSound, tt) depth 12

    recover-IsSound : (task recovery : Value) → IsSound (recover identity work task recovery p)
    unfolding recover IsSound
    recover-IsSound task recovery = search (rules, signal-IsSound, tt) depth 12

begin_works-IsSound :
    (identity : String) (first : Value) (p : Parent)
    → length p.results ≡ 0
    → length p.children ≡ 0
    → IsSound (begin_works identity first p)
unfolding begin_works
begin_works-IsSound identity first p r c =
    if-IsSound _ _ _ (finish_with-IsSound stopped first p tt) (
      review_draft-IsSound identity reconciliation (record p { phase = preparing reconciliation }) r
        tt c first)

finish_review-IsSound :
    (identity : String) (final : Value) (p : Parent)
    → length p.results ≡ 2
    → length p.children ≡ 2
    → IsSound (finish_review identity final p)
unfolding finish_review IsSound
finish_review-IsSound identity final p r c =
    elim (Bool-cases (is_true (get_field final "whole_goal_complete"))) [
      | inl e ↦ rw (e) (tt, (r, c, (final, refl, e)))
      | inr e ↦ rw (e) (tt, tt)
    ]

pub continue_from-IsSound :
    (identity : String) (stage : Stage) (result : Value) (p : Parent)
    → IsForStage stage (length p.results) (length p.children)
    → IsEnded p.phase p.results p.children p.final
    → IsSound (continue_from identity stage result p)
unfolding continue_from
continue_from-IsSound identity interactive result p (r, c) e =
    begin_works-IsSound identity result p r c
continue_from-IsSound identity (proposing work) draft p (r, c) e =
    review_draft-IsSound identity work p r e c draft
continue_from-IsSound identity (reviewing work draft) review p (r, c) e =
    decide_draft-IsSound identity work p r e c draft review
continue_from-IsSound identity (freezing work draft review) frozen p (r, c) e =
    begin_child-IsSound identity work p r e c frozen
continue_from-IsSound identity (controlling work task) control p (r, c) e =
    observe-IsSound identity work p r e c task control
continue_from-IsSound identity (observing work task) observed p (r, c) e =
    look_at_child-IsSound identity work p r e c task observed
continue_from-IsSound identity (recovering work task state) recovery p (r, c) e =
    recover-IsSound identity work p r e c task recovery
continue_from-IsSound identity delivering delivered p h e = absurd h
continue_from-IsSound identity concluding final p (r, c) e =
    finish_review-IsSound identity final p r c
