-- ===== src/Gate/Approval.antt =====
-- What an approval and a rejection permit: `require_gate` of runtime/integration.py and
-- `recovery_kind` of runtime/review.py.
use nortropic_runtime.Prelude.{
  String, ◌≡◌, ◌≢◌, refl, sym, ◌∙◌, true, false, some, List, arith, ok, Result-cases, Bool-cases,
  inl, inr, str_eq, eq_iff, if◌then◌else◌,
}
use nortropic_runtime.Value.{
  Value, null, bool, text, list, dict, nil, Fields, end, field, find_field, put_field, get_field,
  eq,
}
use nortropic_runtime.Gate.Require.{
  targets, is_git_identity, is_same_subject, is_finished, is_member, require_gate,
}
use nortropic_runtime.Gate.Recovery.{repair, set_field, approved_copy, is_rejection, recovery_kind}
use nortropic_runtime.Gate.Guards.{gate-IsRead, equals_lem, is_git_identity-eq}

text-injective : (a b : String) → text a ≡ text b → a ≡ b
text-injective a b h = cc

rejected-ne-approved : text "rejected" ≢ text "approved"
rejected-ne-approved e =
    let f : false ≡ true = (eq_iff "rejected" "approved").1 (text-injective _ _ e) in cc

commit_lem :
    (evidence subject : Value)
    → is_git_identity (get_field subject "candidate") ≡ true
    → is_same_subject evidence subject ≡ true
    → get_field evidence "candidate" ≡ get_field subject "candidate"
unfolding is_same_subject
commit_lem evidence subject commit same = is_git_identity-eq _ _ commit (ground arith)

task_lem :
    (evidence subject : Value) (d : String)
    → get_field subject "task_sha256" ≡ text d
    → is_same_subject evidence subject ≡ true
    → get_field evidence "task_sha256" ≡ text d
unfolding is_same_subject
task_lem evidence subject d bound same =
    let e : eq (get_field evidence "task_sha256") (text d) ≡ true = rw (sym bound) (ground arith) in
    equals_lem _ _ e

-- One review lets through one task and one commit only: where the gate passes twice with the same
-- review, both tasks have the same digest and both subjects the same candidate.
pub approval_is_of_one_candidate :
    (digest : Value → String) (review : Value)
    (task subject tests other_task other_subject other_tests : Value)
    (allowed other_allowed : List String)
    → require_gate digest task subject tests review allowed ≡ ok tt
    → require_gate digest other_task other_subject other_tests review other_allowed ≡ ok tt
    → (digest task ≡ digest other_task)
      × (get_field subject "candidate" ≡ get_field other_subject "candidate")
approval_is_of_one_candidate digest review task subject tests other_task other_subject other_tests
      allowed other_allowed h k =
    let p = gate-IsRead digest task subject tests review allowed h in
    let q = gate-IsRead digest other_task other_subject other_tests review other_allowed k in
    let a = task_lem review subject (digest task) p.bound p.reviewed_subject in
    let b = task_lem review other_subject (digest other_task) q.bound q.reviewed_subject in
    (
      text-injective _ _ (sym a ∙ b),
      sym (commit_lem review subject p.commit p.reviewed_subject)
          ∙ commit_lem review other_subject q.commit q.reviewed_subject,
    )

pub find_field-put_field :
    (fs : Fields) (k j : String) (v : Value)
    → find_field j (put_field fs k v) ≡ (if str_eq k j then some v else find_field j fs)
unfolding find_field put_field
find_field-put_field end k j v = refl
find_field-put_field (field i w fs) k j v =
    ground (arith, eq_iff k j, eq_iff i k, eq_iff i j, find_field-put_field fs k j v)

-- Another key keeps its value.
pub get_field-set_field :
    (v : Value) (k j : String) (w : Value)
    → str_eq k j ≡ false
    → get_field (set_field v k w) j ≡ get_field v j
unfolding get_field set_field
get_field-set_field (dict fs) k j w h = ground (arith, find_field-put_field fs k j w)
get_field-set_field null k j w h = refl
get_field-set_field (bool _) k j w h = refl
get_field-set_field (Value.int _) k j w h = refl
get_field-set_field (text _) k j w h = refl
get_field-set_field (list _) k j w h = refl

-- The copy differs from the review in its two decisions alone.
approved_copy_lem :
    (review : Value) (j : String)
    → str_eq "verdict" j ≡ false
    → str_eq "blocking_findings" j ≡ false
    → get_field (approved_copy review) j ≡ get_field review j
approved_copy_lem review j h k =
    get_field-set_field (set_field review "verdict" (text "approved")) "blocking_findings" j
      (list nil) k
    ∙ get_field-set_field review "verdict" j (text "approved") h

module _ (digest : Value → String) (task subject tests review : Value) where
  repair_lem :
      recovery_kind digest task subject tests review ≡ repair
      → (is_rejection review ≡ true)
        × (require_gate digest task subject tests (approved_copy review) targets ≡ ok tt)
  unfolding recovery_kind
  repair_lem h = elim (Bool-cases (is_rejection review)) [
    | inl e ↦
        elim (Result-cases
          (require_gate digest task subject tests (approved_copy review) targets)) [
            | inl (_, f) ↦ (e, f)
            | inr (x, f) ↦ absurd (ground arith)
          ]
    | inr e ↦ absurd (ground arith)
  ]

  rejected_lem : is_rejection review ≡ true → get_field review "verdict" ≡ text "rejected"
  unfolding is_rejection
  rejected_lem h = equals_lem _ _ (ground arith)

  -- Where a review asks for a repair, it is a rejection that the gate does not let through, of this
  -- very candidate, finished over the whole task by a run that implemented none of it, and the tests
  -- had passed.
  pub repair_follows_rejection :
      recovery_kind digest task subject tests review ≡ repair
      → (require_gate digest task subject tests review targets ≢ ok tt)
        × (get_field review "verdict" ≡ text "rejected")
        × (get_field review "candidate" ≡ get_field subject "candidate")
        × (is_finished review ≡ true)
        × (is_member (get_field review "reviewer_run") (get_field subject "implementation_runs")
            ≡ false)
        × (get_field tests "passed" ≡ bool true)
  unfolding is_finished
  repair_follows_rejection h =
      let (rejection, passes) = repair_lem h in
      let p = gate-IsRead digest task subject tests (approved_copy review) targets passes in
      let same = approved_copy_lem review in
      let rejected = rejected_lem rejection in
      (
        (λ k.
            rejected-ne-approved
              (sym rejected ∙ (gate-IsRead digest task subject tests review targets k).approved)),
        rejected,
        sym (same "candidate" refl refl)
            ∙ commit_lem (approved_copy review) subject p.commit p.reviewed_subject,
        rw (sym (same "terminal_status" refl refl), sym (same "scope" refl refl)) p.reviewed,
        rw (sym (same "reviewer_run" refl refl)) p.independent,
        p.tests_passed,
      )
