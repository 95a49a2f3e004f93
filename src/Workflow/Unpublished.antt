-- ===== src/Workflow/Unpublished.antt =====
-- Which parts of `DevelopmentTask.run` can lead to a publication: of all but `finish_review`, none.
use nortropic_runtime.Prelude.{
  ℕ, suc, ltb, String, ◌≡◌, refl, Bool, true, false, Bool-cases, inl, inr, Option, none, some,
}
use nortropic_runtime.Value.{Value, is_truthy, get_field}
use nortropic_runtime.Workflow.State.{
  Round, Repair, Position, at_end, raised, at_publication, at_reconciliation, Task,
}
use nortropic_runtime.Workflow.Requests.{◌>>=◌}
use nortropic_runtime.Workflow.Steps.{
  or_raise, is_accepted_result, begin_attempt, begin_review, enter_step, finish_attempt,
  begin_repair, continue_review, is_repaired, finish_repair,
}
use nortropic_runtime.Gate.Require.{equals}

-- From `at_publication` on, the work of the models is done.
abbrev pub is_published : Position → Bool
is_published (at_publication _) = true
is_published (at_reconciliation _) = true
is_published at_end = true
is_published _ = false

-- A predicate on the value, where there is one.
abbrev pub Every : {A : Type 0} → (A → Type 0) → Option A → Type 0
Every P none = Unit
Every P (some a) = P a

pub bind-Every :
    {A B : Type 0} (P : B → Type 0) (o : Option A) (f : A → Option B)
    → ((a : A) → Every P (f a))
    → Every P (o >>= f)
unfolding ◌>>=◌
bind-Every P none f h = tt
bind-Every P (some a) f h = h a

pub or_raise_lem :
    (P : Task → Type 0) (w : Task) (o : Option Task)
    → P (record w { position = raised })
    → Every P o
    → P (or_raise w o)
unfolding or_raise
or_raise_lem P w none h every = h
or_raise_lem P w (some v) h every = every

abbrev pub IsUnpublished : Task → Type 0
IsUnpublished w = is_published w.position ≡ false

module _ (digest : Value → String) where
  pub begin_attempt-IsUnpublished :
      (index : ℕ) (step : Value) (w : Task) → IsUnpublished (begin_attempt digest index step w)
  unfolding begin_attempt
  begin_attempt-IsUnpublished index step w =
      or_raise_lem IsUnpublished w _ refl
        (bind-Every IsUnpublished _ _ (λ provider. bind-Every IsUnpublished _ _ (λ request. refl)))

  pub begin_review-IsUnpublished : (w : Task) → IsUnpublished (begin_review digest w)
  unfolding begin_review
  begin_review-IsUnpublished w = or_raise_lem IsUnpublished w _ refl (
      bind-Every IsUnpublished _ _ (λ latest. bind-Every IsUnpublished _ _ (λ subject.
        bind-Every IsUnpublished _ _ (λ tests. bind-Every IsUnpublished _ _ (λ request. refl)))))

  pub enter_step-IsUnpublished : (index : ℕ) (w : Task) → IsUnpublished (enter_step digest index w)
  unfolding enter_step
  enter_step-IsUnpublished index w = elim (Bool-cases (ltb index w.step_count)) [
    | inl e ↦ rw e (
        or_raise_lem IsUnpublished w _ refl (
          bind-Every IsUnpublished _ _ (λ steps. bind-Every IsUnpublished _ _ (λ step.
            elim (Bool-cases (is_truthy (get_field step "waiting_reason"))) [
              | inl f ↦ rw f refl
              | inr f ↦
                  rw f (begin_attempt-IsUnpublished index step (record w { step_index = index }))
            ]))))
    | inr e ↦ rw e (begin_review-IsUnpublished w)
  ]

  pub finish_attempt-IsUnpublished :
      (index : ℕ) (result : Value) (w : Task) → IsUnpublished (finish_attempt digest index result w)
  unfolding finish_attempt
  finish_attempt-IsUnpublished index result w = elim (Bool-cases (is_accepted_result result)) [
    | inl e ↦ rw e (enter_step-IsUnpublished (suc index) _)
    | inr e ↦ rw e refl
  ]

  pub begin_repair-IsUnpublished : (r : Repair) (w : Task) → IsUnpublished (begin_repair digest r w)
  unfolding begin_repair
  begin_repair-IsUnpublished r w = or_raise_lem IsUnpublished w _ refl (
      bind-Every IsUnpublished _ _ (λ provider.
        bind-Every IsUnpublished _ _ (λ reason. bind-Every IsUnpublished _ _ (λ request. refl))))

  pub continue_review-IsUnpublished :
      (round : Round) (continuation : Value) (w : Task)
      → IsUnpublished (continue_review digest round continuation w)
  unfolding continue_review
  continue_review-IsUnpublished round continuation w =
      elim (Bool-cases (equals (get_field continuation "action") "review_only")) [
        | inl e ↦ rw e (begin_review-IsUnpublished _)
        | inr e ↦ rw e (
            or_raise_lem IsUnpublished _ _ refl (
              bind-Every IsUnpublished _ _ (λ steps.
                bind-Every IsUnpublished _ _ (λ step.
                  bind-Every IsUnpublished _ _ (λ prompt. begin_repair-IsUnpublished _ _)))))
      ]

  pub finish_repair-IsUnpublished :
      (r : Repair) (result : Value) (w : Task) → IsUnpublished (finish_repair digest r result w)
  unfolding finish_repair
  finish_repair-IsUnpublished r result w = elim (Bool-cases (is_repaired r.round result)) [
    | inl e ↦ rw e (begin_review-IsUnpublished _)
    | inr e ↦ rw e refl
  ]
