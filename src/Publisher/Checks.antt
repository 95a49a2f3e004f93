-- ===== src/Publisher/Checks.antt =====
-- What the answer that `require_checks` of runtime/integration.py's Publisher accepts has in it.
use nortropic_runtime.Prelude.{
  ℕ, String, ◌≡◌, refl, sym, subst, ◌∙◌, true, false, Bool-cases, Option-cases, List, [], ◌∷◌, ◌++◌,
  length, inl, inr, ◌⊎◌, ◌≢◌, str_eq, eq_iff, Result, ok, arith,
}
use nortropic_runtime.Prelude.Text.{concat}
use nortropic_runtime.Value.{
  Value, null, bool, int, pos, negsuc, text, list, dict, Items, items, eq, get_field, as_list,
}
use nortropic_runtime.Gate.Require.{equals, is_int}
use nortropic_runtime.Gate.Guards.{equals_lem}
use nortropic_runtime.Publisher.Remote.{Request, api, Closed, Log, lift, ask}
use nortropic_runtime.Publisher.Server.{
  Issuers, is_verified, named_runs, check_run, runs_of, require_checks,
}
use nortropic_runtime.Publisher.Returns.{
  asks-returns, ask-returns, lift-returns, give-returns, as_list_lem,
}

-- The App's own success on the commit, for the binding.
pub record IsSuccess (candidate binding name : String) (issuer : ℕ) (run : Value) : Type 0 where
  pub named : get_field run "name" ≡ text name
  pub issued : get_field (get_field run "app") "id" ≡ int (pos issuer)
  pub at_head : get_field run "head_sha" ≡ text candidate
  pub completed : get_field run "status" ≡ text "completed"
  pub succeeded : get_field run "conclusion" ≡ text "success"
  pub bound : get_field run "external_id" ≡ text binding

-- No run of that name.
pub data HasNoRun (name : String) : List Value → Type 0 where
  no_runs : HasNoRun name []
  other_run :
      (r : Value)
      → (rs : List Value) → get_field r "name" ≢ text name
      → HasNoRun name rs
      → HasNoRun name (r ∷ rs)

-- The one of that name in the list.
pub data IsOnlyRun (name : String) (run : Value) : List Value → Type 0 where
  here : (rs : List Value) → HasNoRun name rs → IsOnlyRun name run (run ∷ rs)
  there :
      (r : Value)
      → (rs : List Value) → get_field r "name" ≢ text name
      → IsOnlyRun name run rs
      → IsOnlyRun name run (r ∷ rs)

-- The whole answer of the server, with one success of each App.
pub record AreSuccesses (candidate binding : String) (issuers : Issuers) (result : Value)
    : Type 0 where
  pub runs : Items
  pub listed : get_field result "check_runs" ≡ list runs
  pub complete : get_field result "total_count" ≡ int (pos (length (items runs)))
  pub tests : Value
  pub tested : IsSuccess candidate binding "runtime/tests" issuers.tests tests
  pub only_tests : IsOnlyRun "runtime/tests" tests (items runs)
  pub review : Value
  pub reviewed : IsSuccess candidate binding "runtime/review" issuers.review review
  pub only_review : IsOnlyRun "runtime/review" review (items runs)

equal_number : (v : Value) (n : ℕ) → is_int v ≡ true → eq v (int (pos n)) ≡ true → v ≡ int (pos n)
unfolding eq
equal_number (int (pos m)) n i h = let p : n ≡ m = ground arith in cc
equal_number (int (negsuc m)) n i h = cc
equal_number null n i h = absurd (ground arith)
equal_number (bool _) n i h = absurd (ground arith)
equal_number (text _) n i h = absurd (ground arith)
equal_number (list _) n i h = absurd (ground arith)
equal_number (dict _) n i h = absurd (ground arith)

verified_run :
    (candidate binding name : String) (issuer : ℕ) (run : Value)
    → equals (get_field run "name") name ≡ true
    → is_verified candidate binding issuer run ≡ true
    → IsSuccess candidate binding name issuer run
unfolding is_verified
verified_run candidate binding name issuer run n h = record {
  named = equals_lem _ name n;
  issued = equal_number _ issuer (ground arith) (ground arith);
  at_head = equals_lem _ candidate (ground arith);
  completed = equals_lem _ "completed" (ground arith);
  succeeded = equals_lem _ "success" (ground arith);
  bound = equals_lem _ binding (ground arith);
}

differs : (v : Value) (s : String) → equals v s ≡ false → v ≢ text s
unfolding eq
differs v s h p =
    let f : equals (text s) s ≡ false = subst (λ w. equals w s ≡ false) p h in
    let t : str_eq s s ≡ true = (eq_iff s s).1 refl in absurd (ground arith)

absent_run : (name : String) (runs : List Value) → named_runs name runs ≡ [] → HasNoRun name runs
unfolding named_runs
absent_run name [] h = no_runs
absent_run name (r ∷ rs) h = elim (Bool-cases (equals (get_field r "name") name)) [
  | inl e ↦ absurd (cc)
  | inr e ↦
      let f : named_runs name rs ≡ [] = ground arith in
      other_run r rs (differs _ name e) (absent_run name rs f)
]

-- The only run is the one that the list of that name has.
sole_run :
    (name : String) (runs : List Value) (run : Value)
    → named_runs name runs ≡ run ∷ []
    → IsOnlyRun name run runs × (equals (get_field run "name") name ≡ true)
unfolding named_runs
sole_run name [] run h = absurd (cc)
sole_run name (r ∷ rs) run h = elim (Bool-cases (equals (get_field r "name") name)) [
  | inl e ↦
      let f : r ∷ named_runs name rs ≡ run ∷ [] = ground arith in
      let p : r ≡ run = cc in
      let q : named_runs name rs ≡ [] = cc in
      (
        subst (λ x. IsOnlyRun name run (x ∷ rs)) (sym p) (here rs (absent_run name rs q)),
        subst (λ x. equals (get_field x "name") name ≡ true) p e,
      )
  | inr e ↦
      let f : named_runs name rs ≡ run ∷ [] = ground arith in
      let (o, n) = sole_run name rs run f in (there r rs (differs _ name e) o, n)
]

one_run :
    (found : List Value)
    → ((r : Value) × (found ≡ r ∷ []))
      ⊎ ((found ≡ []) ⊎ ((a : Value) × (b : Value) × (rest : List Value) × (found ≡ a ∷ b ∷ rest)))
one_run [] = inr (inl refl)
one_run (r ∷ []) = inl (r, refl)
one_run (a ∷ b ∷ rest) = inr (inr (a, b, rest, refl))

check_run-returns :
    (candidate binding name : String) (issuer : ℕ) (runs : List Value) (out : Value)
    → check_run candidate binding name issuer runs ≡ ok out
    → (run : Value) × IsSuccess candidate binding name issuer run × IsOnlyRun name run runs
unfolding check_run
check_run-returns candidate binding name issuer runs out h = elim (one_run (named_runs name runs)) [
  | inl (run, e) ↦
      let (o, n) = sole_run name runs run e in
      let v : is_verified candidate binding issuer run ≡ true = ground arith in
      (run, verified_run candidate binding name issuer run n v, o)
  | inr (inl e) ↦ absurd (ground arith)
  | inr (inr (a, b, rest, e)) ↦ absurd (ground arith)
]

runs_of-returns :
    (result : Value) (runs : List Value)
    → runs_of result ≡ ok runs
    → (vs : Items) × (get_field result "check_runs" ≡ list vs)
      × (items vs ≡ runs)
      × (get_field result "total_count" ≡ int (pos (length runs)))
runs_of-returns result runs h = elim (Option-cases (as_list (get_field result "check_runs"))) [
  | inl e ↦ absurd (ground arith)
  | inr (vs, e) ↦
      let same : vs ≡ runs = ground arith in
      let (items_of, listed, of) = as_list_lem (get_field result "check_runs") vs e in
      let count : get_field result "total_count" ≡ int (pos (length vs)) =
        equal_number _ (length vs) (ground arith) (ground arith) in
      (
        items_of,
        listed,
        of ∙ same,
        subst (λ rs. get_field result "total_count" ≡ int (pos (length rs))) same count,
      )
]

abbrev pub read_checks : String → Request
read_checks candidate =
    api (concat "commits/" (concat candidate "/check-runs?filter=latest&per_page=100")) "GET" null

-- The server's answer has a success of each App, and no other run of its name.
pub require_checks-returns :
    (answer : Log → Request → Result Closed Value) (candidate binding : String) (issuers : Issuers)
    (log : Log) (verified : Value) (l : Log)
    → require_checks answer candidate issuers binding log ≡ (ok verified, l)
    → (result : Value) × (answer log (read_checks candidate) ≡ ok result)
      × (l ≡ log ++ read_checks candidate ∷ [])
      × AreSuccesses candidate binding issuers result
unfolding require_checks
require_checks-returns answer candidate binding issuers log verified l h =
    let (result, l1, e1, h1) =
      asks-returns (ask answer (read_checks candidate)) _ log verified l h in
    let (runs, l2, e2, h2) = asks-returns (lift (runs_of result)) _ l1 verified l h1 in
    let (t, l3, e3, h3) =
      asks-returns (lift (check_run candidate binding "runtime/tests" issuers.tests runs)) _ l2
        verified l h2 in
    let (r, l4, e4, h4) =
      asks-returns (lift (check_run candidate binding "runtime/review" issuers.review runs)) _ l3
        verified l h3 in
    let (seen, at1) = ask-returns answer (read_checks candidate) log result l1 e1 in
    let (read, at2) = lift-returns (runs_of result) l1 runs l2 e2 in
    let (one, at3) = lift-returns _ l2 t l3 e3 in
    let (two, at4) = lift-returns _ l3 r l4 e4 in
    let (vs, listed, same, total) = runs_of-returns result runs read in
    let (a, tested, only_a) =
      check_run-returns candidate binding "runtime/tests" issuers.tests runs t one in
    let (b, reviewed, only_b) =
      check_run-returns candidate binding "runtime/review" issuers.review runs r two in
    (
      result,
      seen,
      give-returns _ l4 verified l h4 ∙ at4 ∙ at3 ∙ at2 ∙ at1,
      record {
        runs = vs;
        listed = listed;
        complete =
            subst (λ rs. get_field result "total_count" ≡ int (pos (length rs))) (sym same) total;
        tests = a;
        tested = tested;
        only_tests = subst (IsOnlyRun "runtime/tests" a) (sym same) only_a;
        review = b;
        reviewed = reviewed;
        only_review = subst (IsOnlyRun "runtime/review" b) (sym same) only_b;
      },
    )
