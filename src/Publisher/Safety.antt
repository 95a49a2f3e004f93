-- ===== src/Publisher/Safety.antt =====
-- Every merge that `Publisher._publish` of runtime/integration.py asks for.
use nortropic_runtime.Prelude.{
  String, ◌≡◌, refl, true, false, [], ◌∷◌, ◌++◌, Result, ok, err, arith,
}
use nortropic_runtime.Prelude.Text.{concat}
use nortropic_runtime.Value.{Value, text, get_field}
use nortropic_runtime.Gate.Require.{GateClosed, targets, require_gate}
use nortropic_runtime.Gate.Passed.{IsPassed, gate-IsPassed}
use nortropic_runtime.Publisher.Remote.{
  Request, api, require_history, Closed, gate, raised, Log, is_method, lift, ask,
}
use nortropic_runtime.Publisher.Inspect.{as_string, inspect_candidate}
use nortropic_runtime.Publisher.Server.{Issuers, require_protection}
use nortropic_runtime.Publisher.Publish.{gate_result, merge_body, pulls, find_pull, publish}
use nortropic_runtime.Publisher.Traces.{
  IsPermitted, IsPermitted-nil, IsSafe, lift-IsSafe, bind-IsSafe, bind_step,
}
use nortropic_runtime.Publisher.Quiet
use nortropic_runtime.Publisher.Merge.{IsReady, choose-IsSafe}

-- A merge of the subject's own commit, behind the gate and the last look.
pub record IsMerge (digest : Value → String) (answer : Log → Request → Result Closed Value)
    (task subject tests review : Value) (before : Log) (r : Request) : Type 0 where
  pub candidate : String
  pub base : String
  pub issuers : Issuers
  pub number : String
  pub is_gated : require_gate digest task subject tests review targets ≡ ok tt
  pub is_passed : IsPassed digest task subject tests review
  pub is_candidate : get_field subject "candidate" ≡ text candidate
  pub is_base : get_field subject "base" ≡ text base
  pub is_ready : IsReady digest answer task subject review candidate base issuers before
  pub is_put : r ≡ api (concat (pulls number) "/merge") "PUT" (merge_body candidate)

as_string_ok :
    (v : Value) (log : Log) (s : String) (l : Log) → as_string v log ≡ (ok s, l) → v ≡ text s
unfolding as_string lift
as_string_ok (text t) log s l h = cc
as_string_ok _ log s l h = let e : err raised ≡ ok s = cc in absurd (ground arith)

gate_ok :
    (result : Result GateClosed (Unit {0})) (log : Log) (u : Unit {0}) (l : Log)
    → lift (gate_result result) log ≡ (ok u, l)
    → result ≡ ok tt
unfolding lift
gate_ok (ok _) log u l h = refl
gate_ok (err x) log u l h = let e : err (gate x) ≡ ok u = cc in absurd (ground arith)

module _ (digest str : Value → String) (answer : Log → Request → Result Closed Value)
    (repository : String) (task subject tests review : Value) where
  Permits : Log → Request → Type 0
  Permits before r =
      is_method "PUT" r ≡ true → IsMerge digest answer task subject tests review before r

  quiet : (log : Log) (r : Request) → is_method "PUT" r ≡ false → Permits log r
  unfolding Permits
  quiet log r reads puts = absurd (ground arith)

  publish-IsPermitted :
      IsPermitted Permits (publish digest str answer repository task subject tests review []).1
  unfolding publish IsSafe Permits
  publish-IsPermitted =
      bind_step Permits (lift (gate_result (require_gate digest task subject tests review targets)))
        _ [] (lift-IsSafe Permits _ [] (IsPermitted-nil Permits))
        (λ u l0 e0 h0.
          bind_step Permits (as_string (get_field subject "candidate")) _ l0
            (Quiet.as_string-IsSafe Permits quiet _ l0 h0)
            (λ candidate l1 e1 h1.
              bind_step Permits (as_string (get_field subject "base")) _ l1
                (Quiet.as_string-IsSafe Permits quiet _ l1 h1)
                (λ base l2 e2 h2.
                  bind-IsSafe Permits (ask answer (require_history candidate)) _
                    (Quiet.history-IsSafe Permits quiet answer candidate)
                    (λ v.
                      bind-IsSafe Permits (inspect_candidate answer repository task subject) _
                        (Quiet.inspect_candidate-IsSafe Permits quiet answer repository task
                          subject)
                        (λ tree.
                          bind-IsSafe Permits (require_protection answer) _
                            (Quiet.require_protection-IsSafe Permits quiet answer)
                            (λ issuers.
                              bind-IsSafe Permits
                                (find_pull digest str answer (concat "runtime/" candidate)) _
                                (Quiet.find_pull-IsSafe Permits quiet answer digest str _)
                                (λ existing.
                                  choose-IsSafe digest str answer task subject review candidate base
                                    issuers Permits quiet
                                    (λ before number ready is_put. record {
                                      candidate = candidate;
                                      base = base;
                                      issuers = issuers;
                                      number = number;
                                      is_gated = gate_ok _ [] u l0 e0;
                                      is_passed =
                                          gate-IsPassed digest task subject tests review targets
                                            (gate_ok _ [] u l0 e0);
                                      is_candidate = as_string_ok _ l0 candidate l1 e1;
                                      is_base = as_string_ok _ l1 base l2 e2;
                                      is_ready = ready;
                                      is_put = refl;
                                    })
                                    tree (concat "runtime/" candidate) existing))))
                    l2 h2)))

-- Whatever Git, the server and the guards answer to each request, when the publisher asks the
-- server for a merge, the gate has accepted the same task, subject, tests and review, so that they have
-- all that `IsPassed` names; the merge names
-- the subject's own candidate; and the requests just before it were, in this order: a fetch of the main
-- branch, a look at it that showed the subject's base, a look at the protection that showed its
-- rules in force (strict, for administrators too, no forced push, no deletion, linear) and the two
-- mandatory checks with their Apps, a look at the checks that showed one run of each name, by that
-- App, completed with success on the candidate and bound to this task, subject and review, and the
-- permission of the permanent ledger.
pub publish-IsMerge :
    (digest str : Value → String) (answer : Log → Request → Result Closed Value)
    (repository : String) (task subject tests review : Value) (before : Log) (r : Request)
    (rest : Log)
    → (publish digest str answer repository task subject tests review []).1 ≡ before ++ r ∷ rest
    → is_method "PUT" r ≡ true
    → IsMerge digest answer task subject tests review before r
unfolding Permits
publish-IsMerge digest str answer repository task subject tests review before r rest h is_put =
    publish-IsPermitted digest str answer repository task subject tests review before r rest h
      is_put
