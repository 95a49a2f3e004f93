-- ===== src/Workflow/Approval.antt =====
-- What stands behind a publication by `DevelopmentTask` of runtime/workflow.py, and that a review is
-- the way to it.
use nortropic_runtime.Prelude.{
  String, ◌≡◌, refl, ◌∙◌, subst, sym, true, false, Result-cases, inl, inr, List, [], ◌∷◌, ◌++◌,
  arith, ok,
}
use nortropic_runtime.Value.{Value}
use nortropic_runtime.Gate.Require.{targets, require_gate}
use nortropic_runtime.Workflow.State.{Review, Round, Task}
use nortropic_runtime.Workflow.Steps.{is_repeated, decide_review, begin_publication, finish_review}
use nortropic_runtime.Workflow.Unpublished.{is_published, bind-Every, or_raise_lem, IsUnpublished}

module _ (digest : Value → String) where
  -- The last review passed the gate, and its reviewer's run is none of the earlier reviews'.
  pub record HasApproval (w : Task) : Type 0 where
    pub earlier : List Review
    pub final : Review
    pub reviews : w.reviews ≡ earlier ++ final ∷ []
    pub gate :
        require_gate digest w.accepted_task final.subject final.tests final.result targets ≡ ok tt
    pub fresh : is_repeated final.result earlier ≡ false

  abbrev pub IsSound : Task → Type 0
  IsSound w = is_published w.position ≡ true → HasApproval w

  pub unpublished-IsSound : (w : Task) → IsUnpublished w → IsSound w
  unpublished-IsSound w h published = cc

  -- What is published stays so while the task and its reviews stay.
  pub same-IsSound :
      (w v : Task)
      → IsSound w
      → w.reviews ≡ v.reviews
      → w.accepted_task ≡ v.accepted_task
      → is_published w.position ≡ is_published v.position
      → IsSound v
  same-IsSound w v h reviews task position published =
      let a = h (position ∙ published) in
      record {
        earlier = a.earlier;
        final = a.final;
        reviews = sym reviews ∙ a.reviews;
        gate =
            subst
              (λ t.
                require_gate digest t a.final.subject a.final.tests a.final.result targets ≡ ok tt)
              task a.gate;
        fresh = a.fresh;
      }

  decision_lem :
      (round : Round) (result : Value) (w : Task)
      → decide_review digest round result w ≡ ok tt
      → (require_gate digest w.accepted_task round.subject round.tests result targets ≡ ok tt)
        × (is_repeated result w.reviews ≡ false)
  unfolding decide_review
  decision_lem round result w h =
      elim (Result-cases
        (require_gate digest w.accepted_task round.subject round.tests result targets)) [
          | inl (_, e) ↦ (e, ground arith)
          | inr (x, e) ↦ absurd (ground arith)
        ]

  pub finish_review-IsSound :
      (round : Round) (result : Value) (w : Task) → IsSound (finish_review digest round result w)
  unfolding finish_review begin_publication
  finish_review-IsSound round result w = elim (Result-cases (decide_review digest round result w)) [
    | inl (_, e) ↦
        rw (e, finish_review)
          (or_raise_lem IsSound _ _ (unpublished-IsSound _ refl) (
            bind-Every IsSound _ _ (λ publication. λ published. record {
              earlier = w.reviews;
              final = record { subject = round.subject; tests = round.tests; result = result };
              reviews = refl;
              gate = (decision_lem round result w e).0;
              fresh = (decision_lem round result w e).1;
            })))
    | inr (x, e) ↦ rw (e, finish_review) (unpublished-IsSound _ refl)
  ]
