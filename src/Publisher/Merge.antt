-- ===== src/Publisher/Merge.antt =====
-- What `Publisher._publish` of runtime/integration.py has seen when it asks the server to merge.
use nortropic_runtime.Prelude.{String, ◌≡◌, subst, ◌∙◌, false, ◌&&◌, [], ◌∷◌, ◌++◌, Result, ok}
use nortropic_runtime.Prelude.Text.{concat}
use nortropic_runtime.Value.{Value, text, dict, field, end, get_field, is_true, is_truthy}
use nortropic_runtime.Publisher.Remote.{
  Request, api, require_history, Closed, Log, is_method, ◌>>=◌, ◌>>◌, give, require, ask,
}
use nortropic_runtime.Publisher.Server.{
  Issuers, same_issuers, require_protection, require_checks, require_base,
}
use nortropic_runtime.Publisher.Publish.{
  is_merged, merge_body, pulls, check_binding, merge_checked, publish_new, recover_merged, choose,
}
use nortropic_runtime.Publisher.Returns.{
  fetch_main, read_main, ask-returns, require-returns, require_base-returns,
}
use nortropic_runtime.Publisher.Checks.{AreSuccesses, read_checks, require_checks-returns}
use nortropic_runtime.Publisher.Protection.{
  AreRules, AreMandatory, read_protection, same_issuers-eq, require_protection-returns,
}
use nortropic_runtime.Publisher.Traces.{
  IsPermitted, IsPermitted-snoc, IsSafe, give-IsSafe, lift-IsSafe, require-IsSafe, bind-IsSafe,
  bind_step,
}
use nortropic_runtime.Publisher.Quiet

-- The requests since the last look at the base, one after the other, and what they showed.
pub record IsReady (digest : Value → String) (answer : Log → Request → Result Closed Value)
    (task subject review : Value) (candidate base : String) (issuers : Issuers) (before : Log)
    : Type 0 where
  pub start : Log
  pub at_base : answer (start ++ fetch_main ∷ []) read_main ≡ ok (text base)
  pub based : Log
  pub is_based : based ≡ (start ++ fetch_main ∷ []) ++ read_main ∷ []
  pub protection : Value
  pub protected : answer based read_protection ≡ ok protection
  pub rules : AreRules protection
  pub mandatory : AreMandatory issuers protection
  pub looked : Log
  pub is_looked : looked ≡ based ++ read_protection ∷ []
  pub result : Value
  pub checked : answer looked (read_checks candidate) ≡ ok result
  pub successes :
      AreSuccesses candidate
        (concat "nortropic-check/1:" (
          digest (
            dict (
              field "target" (get_field task "target") (
                field "task"
                  (text (digest task))
                  (field "subject" subject (field "review" (text (digest review)) end)))))))
        issuers
        result
  pub verified : Log
  pub is_verified : verified ≡ looked ++ read_checks candidate ∷ []
  pub permission : Value
  pub permitted : answer verified (require_history candidate) ≡ ok permission
  pub is_last : before ≡ verified ++ require_history candidate ∷ []

-- What the requests of `merge_checked` before the merge have shown.
ready_lem :
    (digest str : Value → String) (answer : Log → Request → Result Closed Value)
    (task subject review : Value) (candidate base : String) (issuers : Issuers)
    (start based looked same checked before : Log) (u v : Unit {0}) (now : Issuers)
    (verified permission : Value)
    → require_base answer base start ≡ (ok u, based)
    → require_protection answer based ≡ (ok now, looked)
    → require (same_issuers now issuers) "Mandatory server issuers changed during issuance" looked
      ≡ (ok v, same)
    → require_checks answer candidate issuers
        (check_binding digest str answer task subject review)
        same
      ≡ (ok verified, checked)
    → ask answer (require_history candidate) checked ≡ (ok permission, before)
    → IsReady digest answer task subject review candidate base issuers before
unfolding check_binding
ready_lem digest str answer task subject review candidate base issuers start based looked same
      checked before u v now verified permission e1 e2 e3 e4 e5 =
    let (at_base, is_based) = require_base-returns answer base start u based e1 in
    let (protection, protected, is_looked, rules, mandatory) =
      require_protection-returns answer based now looked e2 in
    let (equal, stays) = require-returns (same_issuers now issuers) _ looked v same e3 in
    let (result, seen, is_verified, successes) =
      require_checks-returns answer candidate _ issuers same verified checked e4 in
    let (permitted, is_last) =
      ask-returns answer (require_history candidate) checked permission before e5 in
    record {
      start = start;
      at_base = at_base;
      based = based;
      is_based = is_based;
      protection = protection;
      protected = protected;
      rules = rules;
      mandatory =
          subst (λ i. AreMandatory i protection) (same_issuers-eq now issuers equal) mandatory;
      looked = same;
      is_looked = stays ∙ is_looked;
      result = result;
      checked = seen;
      successes = successes;
      verified = checked;
      is_verified = is_verified;
      permission = permission;
      permitted = permitted;
      is_last = is_last;
    }

module _ (digest str : Value → String) (answer : Log → Request → Result Closed Value)
    (task subject review : Value) (candidate base : String) (issuers : Issuers)
    (P : Log → Request → Type 0)
    (quiet : (log : Log) (r : Request) → is_method "PUT" r ≡ false → P log r)
    (merges : (before : Log) (number : String)
      → IsReady digest answer task subject review candidate base issuers before
      → P before (api (concat (pulls number) "/merge") "PUT" (merge_body candidate))) where
  ruleset steps = (give-IsSafe, lift-IsSafe, require-IsSafe, bind-IsSafe)

  put-IsPermitted :
      (number : String) (checks : Value) (before : Log)
      → IsPermitted P before
      → IsReady digest answer task subject review candidate base issuers before
      → IsPermitted P
          ((ask answer (api (concat (pulls number) "/merge") "PUT" (merge_body candidate))
              >>= λ merged.
                  require
                    (is_true (get_field merged "merged"))
                    "Server did not confirm merge; reconcile before any retry"
                  >> give checks)
            before).1
  unfolding ask IsSafe
  put-IsPermitted number checks before h ready =
      bind_step P (ask answer (api (concat (pulls number) "/merge") "PUT" (merge_body candidate))) _
        before (IsPermitted-snoc P before _ h (merges before number ready))
        (λ merged l e h'.
          bind-IsSafe P
            (require (is_true (get_field merged "merged"))
              "Server did not confirm merge; reconcile before any retry")
            (λ u. give checks) (require-IsSafe P _ _) (λ u. give-IsSafe P checks) l h')

  merge_checked-IsSafe :
      (number : String)
      → IsSafe P (merge_checked digest str answer task subject review candidate base issuers number)
  unfolding IsSafe merge_checked
  merge_checked-IsSafe number start h =
      bind_step P (require_base answer base) _ start
        (Quiet.require_base-IsSafe P quiet answer base start h)
        (λ u based e1 h1.
          bind_step P (require_protection answer) _ based
            (Quiet.require_protection-IsSafe P quiet answer based h1)
            (λ now looked e2 h2.
              bind_step P (require _ _) _ looked (require-IsSafe P _ _ looked h2) (λ v same e3 h3.
                bind_step P
                  (require_checks answer candidate issuers
                    (check_binding digest str answer task subject review))
                  _ same (Quiet.require_checks-IsSafe P quiet answer candidate issuers _ same h3)
                  (λ verified checked e4 h4.
                    bind_step P (ask answer (require_history candidate)) _ checked
                      (Quiet.history-IsSafe P quiet answer candidate checked h4)
                      (λ permitted before e5 h5. put-IsPermitted number verified before h5 (
                        ready_lem digest str answer task subject review candidate base issuers start
                          based looked same checked before u v now verified permitted e1 e2 e3 e4
                          e5))))))

  -- From the push on there is no other merge.
  publish_new-IsSafe :
      (tree branch : String) (existing : Value)
      → IsSafe P (
          publish_new digest str answer task subject review candidate base tree branch issuers
            existing)
  unfolding publish_new
  publish_new-IsSafe tree branch existing =
      search
        (
          steps,
          Quiet.git-IsSafe P quiet answer,
          Quiet.get-IsSafe P quiet answer,
          Quiet.history-IsSafe P quiet answer,
          Quiet.issue-IsSafe P quiet answer,
          Quiet.require_base-IsSafe P quiet answer,
          Quiet.require_protection-IsSafe P quiet answer,
          Quiet.reconcile-IsSafe P quiet answer,
          Quiet.open_pull-IsSafe P quiet answer,
          merge_checked-IsSafe,
        )
        depth 32

  pub choose-IsSafe :
      (tree branch : String) (existing : Value)
      → IsSafe P
          (choose digest str answer task subject review candidate base tree branch issuers existing)
  unfolding choose recover_merged
  choose-IsSafe tree branch pr =
      Quiet.if-IsSafe P quiet (is_truthy pr && is_merged pr) _ _
        (search
          (steps, Quiet.require_checks-IsSafe P quiet answer, Quiet.reconcile-IsSafe P quiet answer)
          depth 10)
        (bind-IsSafe P _ _ (require-IsSafe P _ _) (λ u. publish_new-IsSafe tree branch pr))
