-- ===== src/Development/Keys.antt =====
-- The counted steps of runtime/development_workflow.py: what the sequence of every executed activity
-- stands for.
use nortropic_runtime.Prelude.{
  ℕ, suc, String, ◌≡◌, refl, Bool, true, false, Option, none, some, List, ◌||◌, [], ◌∷◌, ◌++◌,
  if◌then◌else◌,
}
use nortropic_runtime.Value.{Value, text, Fields, field, end, find_field, get_field}
use nortropic_runtime.Gate.Require.{equals}
use nortropic_runtime.Workflow.Requests.{◌>>=◌, fetch}
use nortropic_runtime.Development.State.{
  Work, Phase, stopped, diagnosing, interactive, delivering, concluding, proposing, reviewing,
  freezing, controlling, observing, recovering, Stage, Position, raised, at_activity, at_diagnosis,
  at_sleep, at_host, Effect, execute, start_child, cancel_child, signal_child, Parent,
}
use nortropic_runtime.Development.Steps.{
  or_raise, finish, finish_with, wait_to_poll, signal, cancel, start_task, key_of, execute_step,
  begin_step, prepare, review_draft, decide_draft, begin_child, follow, observe, look_at_child,
  recover, conclude, finish_review, check_delivery, begin_works, continue_from,
}

-- The record of the engine grows by the same request again, or by one under the next sequence.
pub data IsCounted (identity : String) : List Effect → ℕ → Value → Type 0 where
  nothing : (r : Value) → IsCounted identity [] 0 r
  fresh :
      {es : List Effect} {n : ℕ} {r : Value}
      → (next : Value) → get_field next "key" ≡ text (key_of identity (suc n))
      → IsCounted identity es n r
      → IsCounted identity (es ++ execute (suc n) next ∷ []) (suc n) next
  again :
      {es : List Effect} {n : ℕ} {r : Value}
      → get_field r "key" ≡ text (key_of identity n)
      → IsCounted identity es n r
      → IsCounted identity (es ++ execute n r ∷ []) n r
  starts :
      {es : List Effect} {n : ℕ} {r : Value}
      → (task : Value) → IsCounted identity es n r
      → IsCounted identity (es ++ start_child task ∷ []) n r
  cancels :
      {es : List Effect} {n : ℕ} {r : Value}
      → (task : Value) → IsCounted identity es n r
      → IsCounted identity (es ++ cancel_child task ∷ []) n r
  signals :
      {es : List Effect} {n : ℕ} {r : Value}
      → (task : Value) → (name : String) → (request : Value) → IsCounted identity es n r
      → IsCounted identity (es ++ signal_child task name request ∷ []) n r

-- The request that `step` holds is the last one.
abbrev pub IsHeld : String → ℕ → Position → Value → Type 0
IsHeld identity n (at_activity stage request) r =
    (request ≡ r) × (get_field r "key" ≡ text (key_of identity n))
IsHeld identity n (at_diagnosis stage request) r =
    (request ≡ r) × (get_field r "key" ≡ text (key_of identity n))
IsHeld identity n (at_sleep stage request) r =
    (request ≡ r) × (get_field r "key" ≡ text (key_of identity n))
IsHeld identity n (at_host stage request) r =
    (request ≡ r) × (get_field r "key" ≡ text (key_of identity n))
IsHeld identity n _ r = Unit {0}

unfoldable pub IsLogged : String → List Effect → ℕ → Type 0
IsLogged identity es n = (r : Value) × IsCounted identity es n r

unfoldable pub IsKeyed : String → Parent → Type 0
unfolding IsLogged
IsKeyed identity p =
    (r : Value) × IsCounted identity p.effects p.sequence r
    × IsHeld identity p.sequence p.position r

module _ (identity : String) where
  finish-IsKeyed :
      (phase : Phase) (p : Parent)
      → IsLogged identity p.effects p.sequence
      → IsKeyed identity (finish phase p)
  unfolding IsLogged IsKeyed finish
  finish-IsKeyed phase p (r, c) = (r, c, tt)

  finish_with-IsKeyed :
      (phase : Phase) (reason : Value) (p : Parent)
      → IsLogged identity p.effects p.sequence
      → IsKeyed identity (finish_with phase reason p)
  unfolding IsLogged IsKeyed finish_with
  finish_with-IsKeyed phase reason p (r, c) = (r, c, tt)

  pub wait_to_poll-IsKeyed :
      (work : Work) (task : Value) (p : Parent)
      → IsLogged identity p.effects p.sequence
      → IsKeyed identity (wait_to_poll work task p)
  unfolding IsLogged IsKeyed wait_to_poll
  wait_to_poll-IsKeyed work task p (r, c) = (r, c, tt)

  signal-IsKeyed :
      (work : Work) (task : Value) (name : String) (request : Value) (p : Parent)
      → IsLogged identity p.effects p.sequence
      → IsKeyed identity (signal work task name request p)
  unfolding IsLogged IsKeyed signal
  signal-IsKeyed work task name request p (r, c) = (r, signals task name request c, tt)

  cancel-IsLogged :
      (task : Value) (p : Parent)
      → IsLogged identity p.effects p.sequence
      → IsLogged identity (cancel task p).effects (cancel task p).sequence
  unfolding IsLogged cancel
  cancel-IsLogged task p (r, c) = (r, cancels task c)

  pub begin_step-IsKeyed :
      (stage : Stage) (operation : String) (fields : Fields) (p : Parent)
      → IsLogged identity p.effects p.sequence
      → IsKeyed identity (begin_step identity stage operation fields p)
  unfolding IsLogged IsKeyed begin_step execute_step get_field find_field
  begin_step-IsKeyed stage operation fields p (r, c) = (_, fresh _ refl c, (refl, refl))

  pub raise-IsKeyed :
      (p : Parent)
      → IsLogged identity p.effects p.sequence
      → IsKeyed identity (record p { position = raised })
  unfolding IsLogged IsKeyed
  raise-IsKeyed p (r, c) = (r, c, tt)

  pub bind-IsKeyed :
      {A : Type 0} (p : Parent) (first : Option A) (rest : A → Option Parent)
      → IsLogged identity p.effects p.sequence
      → ((a : A) → IsKeyed identity (or_raise p (rest a)))
      → IsKeyed identity (or_raise p (first >>= rest))
  unfolding ◌>>=◌
  bind-IsKeyed p none rest h next = raise-IsKeyed p h
  bind-IsKeyed p (some a) rest h next = next a

  pub if-IsKeyed :
      (test : Bool) (p q : Parent)
      → IsKeyed identity p
      → IsKeyed identity q
      → IsKeyed identity (if test then p else q)
  if-IsKeyed true p q hp hq = hp
  if-IsKeyed false p q hp hq = hq

  ruleset steps = (
    finish-IsKeyed, finish_with-IsKeyed, wait_to_poll-IsKeyed, signal-IsKeyed, cancel-IsLogged,
    begin_step-IsKeyed, raise-IsKeyed, bind-IsKeyed, if-IsKeyed,
  )

  pub prepare-IsKeyed :
      (work : Work) (revision : Value) (p : Parent)
      → IsLogged identity p.effects p.sequence
      → IsKeyed identity (prepare identity work revision p)
  unfolding prepare
  prepare-IsKeyed work revision p h = search (steps) depth 4

  pub follow-IsKeyed :
      (work : Work) (task : Value) (p : Parent)
      → IsLogged identity p.effects p.sequence
      → IsKeyed identity (follow identity work task p)
  unfolding follow
  follow-IsKeyed work task p h = search (steps) depth 4

  pub conclude-IsKeyed :
      (p : Parent) → IsLogged identity p.effects p.sequence → IsKeyed identity (conclude identity p)
  unfolding conclude
  conclude-IsKeyed p h = search (steps) depth 4

  decide_draft-IsKeyed :
      (work : Work) (draft review : Value) (p : Parent)
      → IsLogged identity p.effects p.sequence
      → IsKeyed identity (decide_draft identity work draft review p)
  unfolding decide_draft prepare
  decide_draft-IsKeyed work draft review p h = search (steps) depth 10

  review_draft-IsKeyed :
      (work : Work) (draft : Value) (p : Parent)
      → IsLogged identity p.effects p.sequence
      → IsKeyed identity (review_draft identity work draft p)
  unfolding review_draft
  review_draft-IsKeyed work draft p h = search (steps) depth 10

  observe-IsKeyed :
      (work : Work) (task control : Value) (p : Parent)
      → IsLogged identity p.effects p.sequence
      → IsKeyed identity (observe identity work task control p)
  unfolding observe
  observe-IsKeyed work task control p h = search (steps) depth 10

  recover-IsKeyed :
      (work : Work) (task recovery : Value) (p : Parent)
      → IsLogged identity p.effects p.sequence
      → IsKeyed identity (recover identity work task recovery p)
  unfolding recover IsKeyed
  recover-IsKeyed work task recovery p h = search (steps) depth 10

  check_delivery-IsKeyed :
      (delivered : Value) (p : Parent)
      → IsLogged identity p.effects p.sequence
      → IsKeyed identity (check_delivery identity delivered p)
  unfolding check_delivery conclude
  check_delivery-IsKeyed delivered p h = search (steps) depth 10

  begin_works-IsKeyed :
      (first : Value) (p : Parent)
      → IsLogged identity p.effects p.sequence
      → IsKeyed identity (begin_works identity first p)
  unfolding begin_works
  begin_works-IsKeyed first p h = search (steps, review_draft-IsKeyed) depth 10

  start_task-IsKeyed :
      (work : Work) (task : Value) (p : Parent)
      → IsLogged identity p.effects p.sequence
      → IsKeyed identity (start_task work task p)
  unfolding start_task IsLogged IsKeyed
  start_task-IsKeyed work task p (r, c) =
      bind-IsKeyed p (fetch task "id") _ (r, c) (λ id. (r, starts task c, tt))

  begun-IsKeyed :
      (work : Work) (frozen : Value) (found : Option Value) (p : Parent)
      → IsLogged identity p.effects p.sequence
      → IsKeyed identity
          (elim found [ none ↦ finish_with stopped frozen p | some task ↦ start_task work task p ])
  begun-IsKeyed work frozen none p h = finish_with-IsKeyed stopped frozen p h
  begun-IsKeyed work frozen (some task) p h = start_task-IsKeyed work task p h

  begin_child-IsKeyed :
      (work : Work) (frozen : Value) (p : Parent)
      → IsLogged identity p.effects p.sequence
      → IsKeyed identity (begin_child identity work frozen p)
  unfolding begin_child
  begin_child-IsKeyed work frozen p h = begun-IsKeyed work frozen (fetch frozen "task") p h

  look_at_child-IsKeyed :
      (work : Work) (task observed : Value) (p : Parent)
      → IsLogged identity p.effects p.sequence
      → IsKeyed identity (look_at_child identity work task observed p)
  unfolding look_at_child IsLogged IsKeyed
  look_at_child-IsKeyed work task observed p (r, c) =
      bind-IsKeyed p (fetch observed "child") _ (r, c)
        (λ state.
          bind-IsKeyed p (fetch state "phase") _ (r, c)
            (λ phase.
              bind-IsKeyed p (fetch task "id") _ (r, c)
                (λ id.
                  if-IsKeyed (equals phase "completed") _ _ (r, c, tt)
                    (if-IsKeyed (equals phase "waiting_diagnosis" || equals phase "waiting_review")
                      _ _
                      (begin_step-IsKeyed (recovering work task state) "diagnose"
                        (field "task_id" id end) (record p { phase = diagnosing work }) (r, c))
                      (if-IsKeyed (equals phase "waiting_publication_reconciliation") _ _ (r, c, tt)
                        (wait_to_poll-IsKeyed work task p (r, c)))))))

  finish_review-IsKeyed :
      (final : Value) (p : Parent)
      → IsLogged identity p.effects p.sequence
      → IsKeyed identity (finish_review identity final p)
  unfolding finish_review IsLogged IsKeyed
  finish_review-IsKeyed final p (r, c) = (r, c, tt)

  pub continue_from-IsKeyed :
      (stage : Stage) (result : Value) (p : Parent)
      → IsLogged identity p.effects p.sequence
      → IsKeyed identity (continue_from identity stage result p)
  unfolding continue_from
  continue_from-IsKeyed interactive result p h = begin_works-IsKeyed result p h
  continue_from-IsKeyed (proposing work) draft p h = review_draft-IsKeyed work draft p h
  continue_from-IsKeyed (reviewing work draft) review p h =
      decide_draft-IsKeyed work draft review p h
  continue_from-IsKeyed (freezing work draft review) frozen p h =
      begin_child-IsKeyed work frozen p h
  continue_from-IsKeyed (controlling work task) control p h = observe-IsKeyed work task control p h
  continue_from-IsKeyed (observing work task) observed p h =
      look_at_child-IsKeyed work task observed p h
  continue_from-IsKeyed (recovering work task state) recovery p h =
      recover-IsKeyed work task recovery p h
  continue_from-IsKeyed delivering delivered p h = check_delivery-IsKeyed delivered p h
  continue_from-IsKeyed concluding final p h = finish_review-IsKeyed final p h
