-- ===== src/Task/Bounds.antt =====
-- The seconds of a review, bounded for every task that runtime/task.py accepts.
use nortropic_runtime.Prelude.{
  ℕ, ◌≤◌, ◌<◌, ◌+◌, ◌==◌, length, List, some, ◌∙◌, sym, subst, if◌then◌else◌, String, ◌≡◌, refl,
  true, false, Bool-cases, Option-cases, Result-cases, inl, inr, leb, arith, ok, is_ok,
}
use nortropic_runtime.Value.{
  Value, null, bool, int, text, list, dict, pos, negsuc, find_field, get_field, is_truthy, as_list,
}
use nortropic_runtime.Task.Budget.{is_given, review_budget, review_frames, model_seconds}
use nortropic_runtime.Task.Validate.{
  has_field, is_within, is_review_bounded, is_development_task, is_frozen, is_valid, is_valid_with,
}
use nortropic_runtime.Task.Activity.{len, activity_seconds, review_activity}

review_budget_lem : (v : Value) (n : ℕ) → review_budget v ≡ ok n → (180 ≤ n) × (n ≤ 900)
unfolding review_budget
review_budget_lem (int (pos m)) n h = ground arith
review_budget_lem (int (negsuc m)) n h = cc
review_budget_lem null n h = cc
review_budget_lem (bool _) n h = cc
review_budget_lem (text _) n h = cc
review_budget_lem (list _) n h = cc
review_budget_lem (dict _) n h = cc

absent_lem : (v : Value) (k : String) → has_field v k ≡ false → get_field v k ≡ null
unfolding has_field get_field
absent_lem (dict fs) k h = elim (Option-cases (find_field k fs)) [
  | inl e ↦ rw (e, get_field) refl
  | inr (v, e) ↦ absurd (ground arith)
]
absent_lem null k h = refl
absent_lem (bool _) k h = refl
absent_lem (int _) k h = refl
absent_lem (text _) k h = refl
absent_lem (list _) k h = refl

is_valid_lem :
    (task : Value)
    → is_valid task ≡ true
    → (is_within 1 3600 (get_field task "attempt_seconds") ≡ true)
      × (is_review_bounded task ≡ true)
      × ((paths : List Value) × (as_list (get_field task "allowed_paths") ≡ some paths)
          × (is_frozen task paths ≡ true))
unfolding is_valid is_valid_with
is_valid_lem task h = elim (Option-cases (as_list (get_field task "allowed_paths"))) [
  | inl e ↦ absurd (ground arith)
  | inr (paths, e) ↦ elim (Option-cases (as_list (get_field task "steps"))) [
    | inl f ↦ absurd (ground arith)
    | inr (steps, f) ↦ (ground arith, ground arith, (paths, e, ground arith))
  ]
]

within_lem :
    (v : Value) → is_within 1 3600 v ≡ true → (n : ℕ) × (v ≡ int (pos n)) × (1 ≤ n) × (n ≤ 3600)
within_lem (int (pos n)) h = (n, refl, ground arith, ground arith)
within_lem (int (negsuc m)) h = cc
within_lem null h = cc
within_lem (bool _) h = cc
within_lem (text _) h = cc
within_lem (list _) h = cc
within_lem (dict _) h = cc

-- Without a budget of its own.
plain_seconds :
    (task : Value) (n : ℕ)
    → get_field task "review_seconds" ≡ null
    → get_field task "attempt_seconds" ≡ int (pos n)
    → 1 ≤ n
    → (m : ℕ) × (model_seconds task null ≡ ok m)
      × (1 ≤ m)
      × (m ≤ (if is_truthy (get_field task "development") then 300 else 180))
unfolding model_seconds
plain_seconds task n none_given e low =
    elim (Bool-cases (is_truthy (get_field task "development"))) [
      | inl d ↦
          rw (none_given, e, d, model_seconds)
            (elim (Bool-cases (leb 300 n)) [
              | inl f ↦ (300, rw f refl, omega arith, omega arith)
              | inr f ↦ (n, rw f refl, low, ground arith)
            ])
      | inr d ↦
          rw (none_given, e, d, model_seconds)
            (elim (Bool-cases (leb 180 n)) [
              | inl f ↦ (180, rw f refl, omega arith, omega arith)
              | inr f ↦ (n, rw f refl, low, ground arith)
            ])
    ]

given_lem : (v : Value) (n : ℕ) → review_budget v ≡ ok n → is_given v ≡ true
unfolding review_budget
given_lem null n h = cc
given_lem (bool _) n h = refl
given_lem (int _) n h = refl
given_lem (text _) n h = refl
given_lem (list _) n h = refl
given_lem (dict _) n h = refl

-- With the task's own budget, which the finite development does not admit.
budget_seconds :
    (task : Value) (n : ℕ)
    → get_field task "development" ≡ null
    → review_budget (get_field task "review_seconds") ≡ ok n
    → model_seconds task null ≡ ok n
unfolding model_seconds
budget_seconds task n no_development h =
    ground (arith, given_lem (get_field task "review_seconds") n)

rule_lem :
    (task : Value)
    → is_review_bounded task ≡ true
    → has_field task "review_seconds" ≡ true
    → (is_ok (review_budget (get_field task "review_seconds")) ≡ true)
      × (has_field task "development" ≡ false)
unfolding is_review_bounded
rule_lem task h k = ground arith

len_lem : (v : Value) (paths : List Value) → as_list v ≡ some paths → len v ≡ ok (length paths)
len_lem (list vs) paths h = cc
len_lem null paths h = cc
len_lem (bool _) paths h = cc
len_lem (text _) paths h = cc
len_lem (int _) paths h = cc
len_lem (dict _) paths h = cc

missing_lem : (v : Value) (paths : List Value) → as_list v ≡ some paths → v ≡ null → ⊥
missing_lem v paths h e =
    let f : as_list null ≡ some paths = subst (λ w. as_list w ≡ some paths) e h in absurd (cc)

kept_lem :
    (v : Value) (k : String) (w : Value) → get_field v k ≡ w → (w ≡ null → ⊥) → has_field v k ≡ true
kept_lem v k w h given = elim (Bool-cases (has_field v k)) [
  | inl e ↦ e
  | inr e ↦ absurd (given (sym h ∙ absent_lem v k e))
]

-- The finite development of an accepted task has two paths and at most 480 seconds.
development_lem :
    (task : Value) (paths : List Value) (n : ℕ)
    → get_field task "attempt_seconds" ≡ int (pos n)
    → is_frozen task paths ≡ true
    → has_field task "development" ≡ true
    → (length paths == 2 ≡ true) × (leb 1 n ≡ true) × (leb n 480 ≡ true)
unfolding is_frozen is_development_task
development_lem task paths n e f d =
    let g : is_within 1 480 (get_field task "attempt_seconds") ≡ true = ground arith in
    let g' : is_within 1 480 (int (pos n)) ≡ true = subst (λ v. is_within 1 480 v ≡ true) e g in
    (ground arith, ground arith, ground arith)

-- There the activity has its own time.
development_activity :
    (task : Value) (paths : List Value) (n : ℕ)
    → get_field task "review_seconds" ≡ null
    → is_truthy (get_field task "development") ≡ true
    → has_field task "development" ≡ true
    → as_list (get_field task "allowed_paths") ≡ some paths
    → get_field task "attempt_seconds" ≡ int (pos n)
    → is_frozen task paths ≡ true
    → review_activity task (get_field task "review_seconds") ≡ ok 360
unfolding review_activity activity_seconds
development_activity task paths n none_given t d h e f =
    let (two, low, high) = development_lem task paths n e f d in
    let has_paths : has_field task "allowed_paths" ≡ true =
      kept_lem task "allowed_paths" _ refl (λ q. absurd (missing_lem _ paths h q)) in
    let has_time : has_field task "attempt_seconds" ≡ true =
      kept_lem task "attempt_seconds" _ e (λ q. cc) in
    rw (none_given, t, d, has_paths, has_time, len_lem _ paths h, two, e, low, high) refl

truthy_lem :
    (task : Value)
    → is_truthy (get_field task "development") ≡ true
    → has_field task "development" ≡ true
truthy_lem task t = kept_lem task "development" _ refl (λ q.
    let u : is_truthy null ≡ true = subst (λ w. is_truthy w ≡ true) q t in absurd (ground arith))

-- Elsewhere it is the one that the request asks for.
plain_activity :
    (task : Value)
    → get_field task "review_seconds" ≡ null
    → is_truthy (get_field task "development") ≡ false
    → review_activity task (get_field task "review_seconds") ≡ ok 210
unfolding review_activity review_frames
plain_activity task none_given t = rw (none_given, t) refl

budget_activity :
    (task : Value) (v : Value) (n : ℕ)
    → get_field task "review_seconds" ≡ v
    → get_field task "development" ≡ null
    → review_budget v ≡ ok n
    → review_activity task v ≡ ok (n + 30)
unfolding review_budget review_activity review_frames
budget_activity task (int (pos m)) n e d h = let q : m ≡ n = ground arith in rw (d, q) refl
budget_activity task (int (negsuc m)) n e d h = cc
budget_activity task null n e d h = cc
budget_activity task (bool _) n e d h = cc
budget_activity task (text _) n e d h = cc
budget_activity task (list _) n e d h = cc
budget_activity task (dict _) n e d h = cc

-- The bound of the model is the same if the request repeats the task's budget.
own_seconds :
    (task : Value) (n : ℕ)
    → get_field task "development" ≡ null
    → review_budget (get_field task "review_seconds") ≡ ok n
    → model_seconds task (get_field task "review_seconds") ≡ ok n
unfolding model_seconds
own_seconds task n no_development h = ground (arith, given_lem (get_field task "review_seconds") n)

-- For every accepted task, the first review, whose request has the task's own budget if there is
-- one, gets both of its times: `model_seconds` returns some seconds from 1 to 900 for the model, with
-- that request and without it, and the time of the activity is longer than the host waits for
-- that model, also where the finite development replaces it.
pub review_of_valid_task :
    (task : Value)
    → is_valid task ≡ true
    → (n : ℕ) × (model_seconds task null ≡ ok n)
      × (model_seconds task (get_field task "review_seconds") ≡ ok n)
      × (1 ≤ n)
      × (n ≤ 900)
      × ((a : ℕ) × (review_activity task (get_field task "review_seconds") ≡ ok a)
          × ((review_frames n).host < a))
unfolding review_frames
review_of_valid_task task valid =
    let (within, rule, (paths, h, frozen)) = is_valid_lem task valid in
    let (a, e, low, high) = within_lem (get_field task "attempt_seconds") within in
    elim (Bool-cases (has_field task "review_seconds")) [
      | inl f ↦
          let (granted, no_development) = rule_lem task rule f in
          let none_bound = absent_lem task "development" no_development in
          elim (Result-cases (review_budget (get_field task "review_seconds"))) [
            | inl (n, g) ↦
                let (l, u) = review_budget_lem _ n g in
                (
                  n,
                  budget_seconds task n none_bound g,
                  own_seconds task n none_bound g,
                  omega arith,
                  u,
                  (n + 30, budget_activity task _ n refl none_bound g, omega arith),
                )
            | inr (x, g) ↦ absurd (ground arith)
          ]
      | inr f ↦
          let absent = absent_lem task "review_seconds" f in
          let (n, g, l, u) = plain_seconds task a absent e low in
          let g' : model_seconds task (get_field task "review_seconds") ≡ ok n =
            subst (λ v. model_seconds task v ≡ ok n) (sym absent) g in
          elim (Bool-cases (is_truthy (get_field task "development"))) [
            | inl t ↦ (
              n,
              g,
              g',
              l,
              ground arith,
              (
                360,
                development_activity task paths a absent t (truthy_lem task t) h e frozen,
                ground arith,
              ),
            )
            | inr t ↦ (n, g, g', l, ground arith, (210, plain_activity task absent t, ground arith))
          ]
    ]
