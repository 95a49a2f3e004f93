-- ===== src/Gate/Passed.antt =====
-- What `require_gate` of runtime/integration.py establishes where it passes, in the fields of the task, the
-- subject, the tests and the review.
use nortropic_runtime.Prelude.{
  String, ◌≡◌, ◌≢◌, refl, sym, ap, ◌∙◌, Bool, true, false, List, [], ◌∷◌, any, arith, ok, eq_iff,
}
use nortropic_runtime.Prelude.Text.{is_identifier, is_hex}
use nortropic_runtime.Value.{
  Value, null, bool, int, pos, negsuc, text, list, dict, Items, nil, items, eq, get_field, text_and,
  is_nonempty_text,
}
use nortropic_runtime.Gate.Require.{
  is_git_identity, is_run_list, is_member, is_same_subject, is_finished, range_of, require_subject,
  require_decisions, require_gate,
}
use nortropic_runtime.Gate.Guards.{equals_lem, is_git_identity-eq, gate_passes, gate-IsRead}

-- Evidence over the whole task, of this task, this commit and this acceptance.
pub record IsEvidence (digest : Value → String) (task subject evidence : Value) : Type 0 where
  pub completed : get_field evidence "terminal_status" ≡ text "completed"
  pub whole : get_field evidence "scope" ≡ text "whole_task"
  pub of_task : get_field evidence "task_id" ≡ get_field task "id"
  pub of_digest : get_field evidence "task_sha256" ≡ text (digest task)
  pub of_commit : get_field evidence "candidate" ≡ get_field subject "candidate"
  pub of_acceptance : get_field evidence "acceptance_sha256" ≡ get_field task "acceptance_sha256"

-- The value is none of the list.
pub data IsAbsent (v : Value) : List Value → Type 0 where
  nowhere : IsAbsent v []
  elsewhere : (w : Value) → (ws : List Value) → v ≢ w → IsAbsent v ws → IsAbsent v (w ∷ ws)

-- Two different commits, every step of the task in order, both evidences on them, both favourable, and
-- a reviewer who implemented nothing.
pub record IsPassed (digest : Value → String) (task subject tests review : Value) : Type 0 where
  pub commit : is_git_identity (get_field subject "candidate") ≡ true
  pub changed : get_field subject "candidate" ≢ get_field subject "base"
  pub based : get_field subject "base" ≡ get_field task "base"
  pub bound : get_field subject "task_sha256" ≡ text (digest task)
  pub steps : Items
  pub accepted : get_field task "steps" ≡ list steps
  pub finished : get_field subject "completed_steps" ≡ list (range_of 0 (items steps))
  pub tested : IsEvidence digest task subject tests
  pub reviewed : IsEvidence digest task subject review
  pub tests_passed : get_field tests "passed" ≡ bool true
  pub approved : get_field review "verdict" ≡ text "approved"
  pub unblocked : get_field review "blocking_findings" ≡ list nil
  pub runs : Items
  pub implemented : get_field subject "implementation_runs" ≡ list runs
  pub reviewer : String
  pub reviewed_by : get_field review "reviewer_run" ≡ text reviewer
  pub independent : IsAbsent (text reviewer) (items runs)

-- A text is equal to itself alone.
text_eq : (v w : Value) (test : String → Bool) → text_and test w ≡ true → eq v w ≡ true → v ≡ w
text_eq v (text s) test i h = equals_lem v s h
text_eq v null test i h = absurd (ground arith)
text_eq v (bool _) test i h = absurd (ground arith)
text_eq v (int _) test i h = absurd (ground arith)
text_eq v (list _) test i h = absurd (ground arith)
text_eq v (dict _) test i h = absurd (ground arith)

eq-text_left : (s : String) (w : Value) → eq (text s) w ≡ true → text s ≡ w
unfolding eq
eq-text_left s (text t) h = ap text ((eq_iff s t).0 h)
eq-text_left s null h = cc
eq-text_left s (bool _) h = cc
eq-text_left s (int _) h = cc
eq-text_left s (list _) h = cc
eq-text_left s (dict _) h = cc

accepted_text :
    (v w : Value) (test : String → Bool) → text_and test v ≡ true → eq v w ≡ true → v ≡ w
accepted_text (text s) w test i h = eq-text_left s w h
accepted_text null w test i h = absurd (ground arith)
accepted_text (bool _) w test i h = absurd (ground arith)
accepted_text (int _) w test i h = absurd (ground arith)
accepted_text (list _) w test i h = absurd (ground arith)
accepted_text (dict _) w test i h = absurd (ground arith)

text_of : (v : Value) → is_nonempty_text v ≡ true → (s : String) × (v ≡ text s)
text_of (text s) h = (s, refl)
text_of null h = absurd (ground arith)
text_of (bool _) h = absurd (ground arith)
text_of (int _) h = absurd (ground arith)
text_of (list _) h = absurd (ground arith)
text_of (dict _) h = absurd (ground arith)

runs_of : (v : Value) → is_run_list v ≡ true → (vs : Items) × (v ≡ list vs)
runs_of (list vs) h = (vs, refl)
runs_of null h = absurd (ground arith)
runs_of (bool _) h = absurd (ground arith)
runs_of (int _) h = absurd (ground arith)
runs_of (text _) h = absurd (ground arith)
runs_of (dict _) h = absurd (ground arith)

eq-text : (s : String) → eq (text s) (text s) ≡ true
unfolding eq
eq-text s = ground (arith, eq_iff s s)

absent : (s : String) (vs : List Value) → any (eq (text s)) vs ≡ false → IsAbsent (text s) vs
absent s [] h = nowhere
absent s (v ∷ vs) h =
    elsewhere v vs
      (λ e.
        let f : eq (text s) v ≡ true = ap (eq (text s)) (sym e) ∙ eq-text s in
        absurd (ground arith))
      (absent s vs (ground arith))

-- An identity of a commit on the left is equal to itself alone too.
eq-identity : (v w : Value) → is_git_identity v ≡ true → eq v w ≡ true → v ≡ w
unfolding eq is_git_identity
eq-identity (text s) (text t) g h = ap text ((eq_iff s t).0 h)
eq-identity (int (pos m)) (int (pos n)) g h = ap (λ k. int (pos k)) (ground arith)
eq-identity (int (pos m)) (bool true) g h = ground arith
eq-identity (int (pos m)) (bool false) g h = ground arith
eq-identity (text s) null g h = cc
eq-identity (text s) (bool _) g h = cc
eq-identity (text s) (int _) g h = cc
eq-identity (text s) (list _) g h = cc
eq-identity (text s) (dict _) g h = cc
eq-identity (int (pos m)) null g h = cc
eq-identity (int (pos m)) (int (negsuc n)) g h = cc
eq-identity (int (pos m)) (text _) g h = cc
eq-identity (int (pos m)) (list _) g h = cc
eq-identity (int (pos m)) (dict _) g h = cc
eq-identity (int (negsuc m)) w g h = cc
eq-identity null w g h = cc
eq-identity (bool _) w g h = cc
eq-identity (list _) w g h = cc
eq-identity (dict _) w g h = cc

-- A commit's identity is equal to itself.
identity-eq : (v : Value) → is_git_identity v ≡ true → eq v v ≡ true
unfolding eq is_git_identity
identity-eq (text s) g = eq-text s
identity-eq (int (pos n)) g = ground arith
identity-eq (int (negsuc n)) g = cc
identity-eq null g = cc
identity-eq (bool _) g = cc
identity-eq (list _) g = cc
identity-eq (dict _) g = cc

differs : (v w : Value) → is_git_identity v ≡ true → eq v w ≡ false → v ≢ w
differs v w g h e =
    let f : eq v w ≡ true = ap (eq v) (sym e) ∙ identity-eq v g in absurd (ground arith)

module _ (digest : Value → String) (task subject tests review : Value) (allowed : List String) where
  -- The identities that the subject carries.
  subject_fields :
      require_subject digest task subject allowed ≡ ok tt
      → (text_and is_identifier (get_field task "id") ≡ true)
        × (eq (get_field subject "task_id") (get_field task "id") ≡ true)
        × (is_git_identity (get_field subject "base") ≡ true)
        × (eq (get_field subject "base") (get_field task "base") ≡ true)
        × (text_and (is_hex 64) (get_field subject "acceptance_sha256") ≡ true)
        × (eq (get_field subject "acceptance_sha256") (get_field task "acceptance_sha256") ≡ true)
        × (is_run_list (get_field subject "implementation_runs") ≡ true)
  unfolding require_subject
  subject_fields h = ground arith

  reviewer_given :
      require_decisions digest subject tests review ≡ ok tt
      → is_nonempty_text (get_field review "reviewer_run") ≡ true
  unfolding require_decisions
  reviewer_given h = ground arith

  same_fields :
      (evidence : Value)
      → is_same_subject evidence subject ≡ true
      → (eq (get_field evidence "task_id") (get_field subject "task_id") ≡ true)
        × (eq (get_field evidence "task_sha256") (get_field subject "task_sha256") ≡ true)
        × (eq (get_field evidence "candidate") (get_field subject "candidate") ≡ true)
        × (eq (get_field evidence "acceptance_sha256") (get_field subject "acceptance_sha256")
            ≡ true)
  unfolding is_same_subject
  same_fields evidence h = ground arith

  finished_fields :
      (evidence : Value)
      → is_finished evidence ≡ true
      → (get_field evidence "terminal_status" ≡ text "completed")
        × (get_field evidence "scope" ≡ text "whole_task")
  unfolding is_finished
  finished_fields evidence h =
      (equals_lem _ "completed" (ground arith), equals_lem _ "whole_task" (ground arith))

  accepted-IsEvidence :
      (evidence : Value)
      → require_subject digest task subject allowed ≡ ok tt
      → is_git_identity (get_field subject "candidate") ≡ true
      → get_field subject "task_sha256" ≡ text (digest task)
      → is_finished evidence ≡ true
      → is_same_subject evidence subject ≡ true
      → IsEvidence digest task subject evidence
  accepted-IsEvidence evidence s commit bound done same =
      let (is_id, id, _, _, is_acceptance, acceptance, _) = subject_fields s in
      let (e_id, e_digest, e_commit, e_acceptance) = same_fields evidence same in
      let (status, whole) = finished_fields evidence done in
      let id' =
        text_eq (get_field subject "task_id") (get_field task "id") is_identifier is_id id in
      record {
        completed = status;
        whole = whole;
        of_task =
            text_eq (get_field evidence "task_id") (get_field subject "task_id") is_identifier
              (ap (text_and is_identifier) id' ∙ is_id) e_id
            ∙ id';
        of_digest =
            equals_lem (get_field evidence "task_sha256") (digest task)
              (ap (eq (get_field evidence "task_sha256")) (sym bound) ∙ e_digest);
        of_commit = is_git_identity-eq _ _ commit e_commit;
        of_acceptance =
            text_eq _ _ (is_hex 64) is_acceptance e_acceptance
            ∙ accepted_text (get_field subject "acceptance_sha256")
                (get_field task "acceptance_sha256") (is_hex 64) is_acceptance acceptance;
      }

  -- Where the gate passes: the subject's commit is a commit's identity and not its base, which is the
  -- task's; the subject carries the digest of the task; its completed steps are all the steps of the
  -- task in order; the tests and the review are both completed over the whole task and both carry the
  -- task's id and digest, the subject's commit and the task's acceptance; the tests passed, the review
  -- approved without findings, and its reviewer's run is none of the implementation's.
  pub gate-IsPassed :
      require_gate digest task subject tests review allowed ≡ ok tt
      → IsPassed digest task subject tests review
  gate-IsPassed h =
      let (s, _, _, d) = gate_passes digest task subject tests review allowed h in
      let p = gate-IsRead digest task subject tests review allowed h in
      let (_, _, is_base, base, _, _, is_runs) = subject_fields s in
      let (runs, listed) = runs_of _ is_runs in
      let (reviewer, by) = text_of _ (reviewer_given d) in
      record {
        commit = p.commit;
        changed = differs _ _ p.commit p.changed;
        based = eq-identity _ _ is_base base;
        bound = p.bound;
        steps = p.steps;
        accepted = p.accepted;
        finished = p.finished;
        tested = accepted-IsEvidence tests s p.commit p.bound p.tested p.tested_subject;
        reviewed = accepted-IsEvidence review s p.commit p.bound p.reviewed p.reviewed_subject;
        tests_passed = p.tests_passed;
        approved = p.approved;
        unblocked = p.unblocked;
        runs = runs;
        implemented = listed;
        reviewer = reviewer;
        reviewed_by = by;
        independent = absent reviewer (items runs) (
            sym (ap (λ v. is_member v (list runs)) by)
            ∙ ap (is_member (get_field review "reviewer_run")) (sym listed)
            ∙ p.independent);
      }
