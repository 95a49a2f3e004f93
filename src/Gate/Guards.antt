-- ===== src/Gate/Guards.antt =====
-- The guards of `require_gate` of runtime/integration.py that hold where it passes.
use nortropic_runtime.Prelude.{
  Result-cases, inl, inr, ℕ, suc, all, String, ◌≡◌, refl, ap, true, false, List, [], ◌∷◌, arith, ok,
  eq_iff,
}
use nortropic_runtime.Value.{
  Value, null, bool, int, text, list, dict, pos, negsuc, Items, nil, cons, eq, eq_items, get_field,
  is_true, items,
}
use nortropic_runtime.Gate.Require.{
  equals, is_int, is_git_identity, is_whole, range_of, is_same_subject, is_finished, is_member,
  require_evidence, require_subject, require_decisions, require_gate,
}

pub equals_lem : (v : Value) (s : String) → equals v s ≡ true → v ≡ text s
unfolding eq
equals_lem (text t) s h = ap text ((eq_iff t s).0 h)
equals_lem null s h = cc
equals_lem (bool true) s h = cc
equals_lem (bool false) s h = cc
equals_lem (int n) s h = cc
equals_lem (list vs) s h = cc
equals_lem (dict fs) s h = cc

-- An identity of a commit is equal to itself alone.
pub is_git_identity-eq : (v w : Value) → is_git_identity w ≡ true → eq v w ≡ true → v ≡ w
unfolding eq is_git_identity
is_git_identity-eq (text t) (text s) g h = ap text ((eq_iff t s).0 h)
is_git_identity-eq (int (pos m)) (int (pos n)) g h = ap (λ k. int (pos k)) (ground arith)
is_git_identity-eq (bool true) (int (pos n)) g h = ground arith
is_git_identity-eq (bool false) (int (pos n)) g h = ground arith
is_git_identity-eq null (text s) g h = cc
is_git_identity-eq null (int n) g h = cc
is_git_identity-eq (bool true) (text s) g h = cc
is_git_identity-eq (bool false) (text s) g h = cc
is_git_identity-eq (int n) (text s) g h = cc
is_git_identity-eq (int (negsuc m)) (int (pos n)) g h = cc
is_git_identity-eq (text t) (int (pos n)) g h = cc
is_git_identity-eq (list vs) (text s) g h = cc
is_git_identity-eq (list vs) (int n) g h = cc
is_git_identity-eq (dict vs) (text s) g h = cc
is_git_identity-eq (dict vs) (int n) g h = cc
is_git_identity-eq v (int (negsuc n)) g h = cc
is_git_identity-eq v null g h = cc
is_git_identity-eq v (bool b) g h = cc
is_git_identity-eq v (list b) g h = cc
is_git_identity-eq v (dict b) g h = cc

ints_lem :
    (cs : Items) (n : ℕ) (ss : List Value)
    → all is_int (items cs) ≡ true
    → eq_items cs (range_of n ss) ≡ true
    → cs ≡ range_of n ss
unfolding eq
ints_lem nil n [] a h = refl
ints_lem nil n (s ∷ ss) a h = cc
ints_lem (cons c cs) n [] a h = cc
ints_lem (cons (int (pos m)) cs) n (s ∷ ss) a h =
    let e : m ≡ n = ground arith in
    let rest = ints_lem cs (suc n) ss (ground arith) (ground arith) in cc
ints_lem (cons (int (negsuc m)) cs) n (s ∷ ss) a h = ground arith
ints_lem (cons null cs) n (s ∷ ss) a h = cc
ints_lem (cons (bool b) cs) n (s ∷ ss) a h = cc
ints_lem (cons (text b) cs) n (s ∷ ss) a h = cc
ints_lem (cons (list b) cs) n (s ∷ ss) a h = cc
ints_lem (cons (dict b) cs) n (s ∷ ss) a h = cc

-- A list is whole when the completed steps are all the steps, counted from 0.
pub is_whole_lem :
    (steps completed : Value)
    → is_whole steps completed ≡ true
    → (ss : Items) × (steps ≡ list ss) × (completed ≡ list (range_of 0 (items ss)))
unfolding is_whole
is_whole_lem (list ss) (list cs) h =
    (ss, refl, ap list (ints_lem cs 0 (items ss) (ground arith) (ground arith)))
is_whole_lem (list ss) null h = cc
is_whole_lem (list ss) (bool _) h = cc
is_whole_lem (list ss) (int _) h = cc
is_whole_lem (list ss) (text _) h = cc
is_whole_lem (list ss) (dict _) h = cc
is_whole_lem null v h = cc
is_whole_lem (bool _) v h = cc
is_whole_lem (int _) v h = cc
is_whole_lem (text _) v h = cc
is_whole_lem (dict _) v h = cc

pub true_lem : (v : Value) → is_true v ≡ true → v ≡ bool true
true_lem (bool b) h = ap bool h
true_lem null h = cc
true_lem (int _) h = cc
true_lem (text _) h = cc
true_lem (list _) h = cc
true_lem (dict _) h = cc

pub nil_lem : (v : Value) → eq v (list nil) ≡ true → v ≡ list nil
unfolding eq
nil_lem (list nil) h = refl
nil_lem (list (cons _ _)) h = cc
nil_lem null h = cc
nil_lem (bool b) h = ground arith
nil_lem (int _) h = cc
nil_lem (text _) h = cc
nil_lem (dict _) h = cc

-- What the gate has established where it passes.
pub record IsRead (digest : Value → String) (task subject tests review : Value) : Type 0 where
  pub commit : is_git_identity (get_field subject "candidate") ≡ true
  pub changed : eq (get_field subject "candidate") (get_field subject "base") ≡ false
  pub bound : get_field subject "task_sha256" ≡ text (digest task)
  pub steps : Items
  pub accepted : get_field task "steps" ≡ list steps
  pub finished : get_field subject "completed_steps" ≡ list (range_of 0 (items steps))
  pub tested : is_finished tests ≡ true
  pub tested_subject : is_same_subject tests subject ≡ true
  pub reviewed : is_finished review ≡ true
  pub reviewed_subject : is_same_subject review subject ≡ true
  pub tests_passed : get_field tests "passed" ≡ bool true
  pub approved : get_field review "verdict" ≡ text "approved"
  pub unblocked : get_field review "blocking_findings" ≡ list nil
  pub independent :
      is_member (get_field review "reviewer_run") (get_field subject "implementation_runs") ≡ false

module _ (digest : Value → String) (task subject tests review : Value) (allowed : List String) where
  pub subject_passes :
      require_subject digest task subject allowed ≡ ok tt
      → (is_git_identity (get_field subject "candidate") ≡ true)
        × (eq (get_field subject "candidate") (get_field subject "base") ≡ false)
        × (equals (get_field subject "task_sha256") (digest task) ≡ true)
        × (is_whole (get_field task "steps") (get_field subject "completed_steps") ≡ true)
  unfolding require_subject
  subject_passes h = ground arith

  evidence_passes :
      (name : String) (evidence : Value)
      → require_evidence name subject evidence ≡ ok tt
      → (is_finished evidence ≡ true) × (is_same_subject evidence subject ≡ true)
  unfolding require_evidence
  evidence_passes name evidence h = ground arith

  pub decisions_pass :
      require_decisions digest subject tests review ≡ ok tt
      → (is_true (get_field tests "passed") ≡ true)
        × (equals (get_field review "verdict") "approved" ≡ true)
        × (eq (get_field review "blocking_findings") (list nil) ≡ true)
        × (is_member (get_field review "reviewer_run") (get_field subject "implementation_runs")
            ≡ false)
  unfolding require_decisions
  decisions_pass h = ground arith

  pub gate_passes :
      require_gate digest task subject tests review allowed ≡ ok tt
      → (require_subject digest task subject allowed ≡ ok tt)
        × (require_evidence "tests" subject tests ≡ ok tt)
        × (require_evidence "review" subject review ≡ ok tt)
        × (require_decisions digest subject tests review ≡ ok tt)
  unfolding require_gate
  gate_passes h = elim (Result-cases (require_subject digest task subject allowed)) [
    | inl (_, e) ↦ elim (Result-cases (require_evidence "tests" subject tests)) [
      | inl (_, f) ↦ elim (Result-cases (require_evidence "review" subject review)) [
        | inl (_, g) ↦ ground arith
        | inr (x, g) ↦ ground arith
      ]
      | inr (x, f) ↦ ground arith
    ]
    | inr (x, e) ↦ ground arith
  ]

  pub gate-IsRead :
      require_gate digest task subject tests review allowed ≡ ok tt
      → IsRead digest task subject tests review
  gate-IsRead h =
      let (s, t, r, d) = gate_passes h in
      let (commit, changed, bound, whole) = subject_passes s in
      let (t_done, t_same) = evidence_passes "tests" tests t in
      let (r_done, r_same) = evidence_passes "review" review r in
      let (tested, verdict, unblocked, independent) = decisions_pass d in
      let (steps, accepted, finished) = is_whole_lem _ _ whole in
      record {
        commit = commit;
        changed = changed;
        bound = equals_lem _ _ bound;
        steps = steps;
        accepted = accepted;
        finished = finished;
        tested = t_done;
        tested_subject = t_same;
        reviewed = r_done;
        reviewed_subject = r_same;
        tests_passed = true_lem _ tested;
        approved = equals_lem _ _ verdict;
        unblocked = nil_lem _ unblocked;
        independent = independent;
      }
