-- ===== src/Workflow/Attempts.antt =====
-- The attempts of `DevelopmentTask` of runtime/workflow.py, counted by their results.
use nortropic_runtime.Prelude.{
  ℕ, suc, ◌+◌, ltb, String, ◌≡◌, Bool, true, false, Bool-cases, Result-cases, inl, inr, [], ◌∷◌,
  ◌++◌, length, length-append, arith,
}
use nortropic_runtime.Value.{Value, is_truthy, get_field}
use nortropic_runtime.Gate.Require.{equals}
use nortropic_runtime.Workflow.State.{
  Round, Repair, Position, raised, at_execution, at_repair, Task,
}
use nortropic_runtime.Workflow.Steps.{
  is_accepted_result, is_repaired, decide_review, begin_attempt, begin_review, enter_step,
  finish_attempt, finish_review, begin_publication, begin_repair, continue_review, finish_repair,
}
use nortropic_runtime.Workflow.Unpublished.{bind-Every, or_raise_lem}

-- The attempt that runs has no result yet.
abbrev pub pending : Position → ℕ
pending (at_execution _ _) = 1
pending (at_repair _ _) = 1
pending _ = 0

abbrev pub is_raised : Position → Bool
is_raised raised = true
is_raised _ = false

abbrev pub IsCounted : Task → Type 0
IsCounted w = is_raised w.position ≡ false → w.attempts ≡ length w.results + pending w.position

abbrev pub IsSettled : Task → Type 0
IsSettled w = w.attempts ≡ length w.results

module _ (digest : Value → String) where
  raised-IsCounted : (w : Task) → IsCounted (record w { position = raised })
  raised-IsCounted w h = cc

  pub begin_attempt-IsCounted :
      (index : ℕ) (step : Value) (w : Task)
      → IsSettled w
      → IsCounted (begin_attempt digest index step w)
  unfolding begin_attempt
  begin_attempt-IsCounted index step w h = or_raise_lem IsCounted w _ (raised-IsCounted w) (
      bind-Every IsCounted _ _ (λ provider. bind-Every IsCounted _ _ (λ request. λ _. omega arith)))

  pub begin_review-IsCounted : (w : Task) → IsSettled w → IsCounted (begin_review digest w)
  unfolding begin_review
  begin_review-IsCounted w h = or_raise_lem IsCounted w _ (raised-IsCounted w) (
      bind-Every IsCounted _ _ (λ latest. bind-Every IsCounted _ _ (λ subject.
        bind-Every IsCounted _ _
          (λ tests. bind-Every IsCounted _ _ (λ request. λ _. omega arith)))))

  pub enter_step-IsCounted :
      (index : ℕ) (w : Task) → IsSettled w → IsCounted (enter_step digest index w)
  unfolding enter_step
  enter_step-IsCounted index w h = elim (Bool-cases (ltb index w.step_count)) [
    | inl e ↦
        rw (e, enter_step)
          (or_raise_lem IsCounted w _ (raised-IsCounted w) (
            bind-Every IsCounted _ _ (λ steps. bind-Every IsCounted _ _ (λ step.
              elim (Bool-cases (is_truthy (get_field step "waiting_reason"))) [
                | inl f ↦ rw f (λ _. omega arith)
                | inr f ↦
                    rw f (begin_attempt-IsCounted index step (record w { step_index = index }) h)
              ]))))
    | inr e ↦ rw (e, enter_step) (begin_review-IsCounted w h)
  ]

  -- The result of the pending attempt settles the count.
  result-IsSettled :
      (result : Value) (w : Task)
      → w.attempts ≡ length w.results + 1
      → w.attempts ≡ length (w.results ++ result ∷ [])
  result-IsSettled result w h = omega (arith, length-append w.results (result ∷ []))

  pub finish_attempt-IsCounted :
      (index : ℕ) (result : Value) (w : Task)
      → w.attempts ≡ length w.results + 1
      → IsCounted (finish_attempt digest index result w)
  unfolding finish_attempt
  finish_attempt-IsCounted index result w h =
      let settled = result-IsSettled result w h in
      elim (Bool-cases (is_accepted_result result)) [
        | inl e ↦ rw (e, finish_attempt) (enter_step-IsCounted (suc index) _ settled)
        | inr e ↦ rw (e, finish_attempt) (λ _. omega arith)
      ]

  pub finish_review-IsCounted :
      (round : Round) (result : Value) (w : Task)
      → IsSettled w
      → IsCounted (finish_review digest round result w)
  unfolding finish_review begin_publication
  finish_review-IsCounted round result w h =
      elim (Result-cases (decide_review digest round result w)) [
        | inl (_, e) ↦
            rw (e, finish_review)
              (or_raise_lem IsCounted _ _ (raised-IsCounted w)
                (bind-Every IsCounted _ _ (λ publication. λ _. omega arith)))
        | inr (x, e) ↦ rw (e, finish_review) (λ _. omega arith)
      ]

  pub begin_repair-IsCounted :
      (r : Repair) (w : Task) → IsSettled w → IsCounted (begin_repair digest r w)
  unfolding begin_repair
  begin_repair-IsCounted r w h = or_raise_lem IsCounted w _ (raised-IsCounted w) (
      bind-Every IsCounted _ _ (λ provider.
        bind-Every IsCounted _ _
          (λ reason. bind-Every IsCounted _ _ (λ request. λ _. omega arith))))

  pub continue_review-IsCounted :
      (round : Round) (continuation : Value) (w : Task)
      → IsSettled w
      → IsCounted (continue_review digest round continuation w)
  unfolding continue_review
  continue_review-IsCounted round continuation w h =
      elim (Bool-cases (equals (get_field continuation "action") "review_only")) [
        | inl e ↦ rw (e, continue_review) (begin_review-IsCounted _ h)
        | inr e ↦
            rw (e, continue_review)
              (or_raise_lem IsCounted _ _ (λ r. cc)
                (bind-Every IsCounted _ _ (λ steps.
                  bind-Every IsCounted _ _
                    (λ step. bind-Every IsCounted _ _ (λ prompt. begin_repair-IsCounted _ _ h)))))
      ]

  pub finish_repair-IsCounted :
      (r : Repair) (result : Value) (w : Task)
      → w.attempts ≡ length w.results + 1
      → IsCounted (finish_repair digest r result w)
  unfolding finish_repair
  finish_repair-IsCounted r result w h =
      let settled = result-IsSettled result w h in
      elim (Bool-cases (is_repaired r.round result)) [
        | inl e ↦ rw (e, finish_repair) (begin_review-IsCounted _ settled)
        | inr e ↦ rw (e, finish_repair) (λ _. omega arith)
      ]
