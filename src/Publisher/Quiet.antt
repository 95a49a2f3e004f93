-- ===== src/Publisher/Quiet.antt =====
-- The steps of `Publisher` in runtime/integration.py that only look, or push: none of them merges.
use nortropic_runtime.Prelude.{
  String, ◌≡◌, refl, Bool, true, false, Option, none, some, List, [], ◌∷◌, Result, if◌then◌else◌,
}
use nortropic_runtime.Value.{Value, null, text}
use nortropic_runtime.Publisher.Remote.{
  Request, git, api, require_origin, require_deletion, require_content, require_history,
  issue_checks, Closed, Log, is_method, Asks, ◌>>=◌, give, lift, ask,
}
use nortropic_runtime.Publisher.Inspect.{as_string, inspect_path, inspect_paths, inspect_candidate}
use nortropic_runtime.Publisher.Server.{
  Issuers, require_protection, require_checks, require_base, reconcile,
}
use nortropic_runtime.Publisher.Publish.{
  number_of, pulls, find_pull, pull_request, is_none, open_new, open_pull,
}
use nortropic_runtime.Publisher.Traces.{
  IsSafe, give-IsSafe, lift-IsSafe, require-IsSafe, bind-IsSafe, ask-IsSafe,
}

module _ (P : Log → Request → Type 0)
    (quiet : (log : Log) (r : Request) → is_method "PUT" r ≡ false → P log r) where
  pub as_string-IsSafe : (v : Value) → IsSafe P (as_string v)
  unfolding as_string
  as_string-IsSafe (text s) = lift-IsSafe P _
  as_string-IsSafe _ = lift-IsSafe P _

  pub if-IsSafe :
      {A : Type 0} (test : Bool) (m n : Asks A)
      → IsSafe P m
      → IsSafe P n
      → IsSafe P (if test then m else n)
  if-IsSafe true m n f g = f
  if-IsSafe false m n f g = g

  module _ (answer : Log → Request → Result Closed Value) where
    quiet-IsSafe : (r : Request) → is_method "PUT" r ≡ false → IsSafe P (ask answer r)
    quiet-IsSafe r e = ask-IsSafe P answer r (λ log. quiet log r e)

    pub git-IsSafe : (args : List String) → IsSafe P (ask answer (git args))
    git-IsSafe args = quiet-IsSafe (git args) refl

    pub get-IsSafe : (path : String) (body : Value) → IsSafe P (ask answer (api path "GET" body))
    get-IsSafe path body = quiet-IsSafe (api path "GET" body) refl

    pub post-IsSafe : (path : String) (body : Value) → IsSafe P (ask answer (api path "POST" body))
    post-IsSafe path body = quiet-IsSafe (api path "POST" body) refl

    origin-IsSafe : IsSafe P (ask answer require_origin)
    origin-IsSafe = quiet-IsSafe require_origin refl

    deletion-IsSafe : (b p : String) → IsSafe P (ask answer (require_deletion b p))
    deletion-IsSafe b p = quiet-IsSafe (require_deletion b p) refl

    content-IsSafe : (b c : String) → IsSafe P (ask answer (require_content b c))
    content-IsSafe b c = quiet-IsSafe (require_content b c) refl

    pub history-IsSafe : (c : String) → IsSafe P (ask answer (require_history c))
    history-IsSafe c = quiet-IsSafe (require_history c) refl

    pub issue-IsSafe : (t s r : Value) → IsSafe P (ask answer (issue_checks t s r))
    issue-IsSafe t s r = quiet-IsSafe (issue_checks t s r) refl

    ruleset steps = (
      give-IsSafe, lift-IsSafe, require-IsSafe, bind-IsSafe, as_string-IsSafe, git-IsSafe,
      get-IsSafe, post-IsSafe, origin-IsSafe, deletion-IsSafe, content-IsSafe, history-IsSafe,
      issue-IsSafe,
    )

    pub require_base-IsSafe : (base : String) → IsSafe P (require_base answer base)
    unfolding require_base
    require_base-IsSafe base = search (steps) depth 12

    pub require_protection-IsSafe : IsSafe P (require_protection answer)
    unfolding require_protection
    require_protection-IsSafe = search (steps) depth 12

    pub require_checks-IsSafe :
        (candidate : String) (issuers : Issuers) (binding : String)
        → IsSafe P (require_checks answer candidate issuers binding)
    unfolding require_checks
    require_checks-IsSafe candidate issuers binding = search (steps) depth 16

    pub reconcile-IsSafe :
        (pr : Value) (candidate base tree : String)
        → IsSafe P (reconcile answer pr candidate base tree)
    unfolding reconcile
    reconcile-IsSafe pr candidate base tree = search (steps) depth 30

    inspect_path-IsSafe :
        (base candidate path : String) → IsSafe P (inspect_path answer base candidate path)
    unfolding inspect_path
    inspect_path-IsSafe base candidate path = search (steps, if-IsSafe) depth 12

    inspect_paths-IsSafe :
        (base candidate : String) (paths : List String)
        → IsSafe P (inspect_paths answer base candidate paths)
    unfolding inspect_paths
    inspect_paths-IsSafe base candidate [] = give-IsSafe P tt
    inspect_paths-IsSafe base candidate (path ∷ paths) =
        bind-IsSafe P _ _ (inspect_path-IsSafe base candidate path)
          (λ a. inspect_paths-IsSafe base candidate paths)

    pub inspect_candidate-IsSafe :
        (repository : String) (task subject : Value)
        → IsSafe P (inspect_candidate answer repository task subject)
    unfolding inspect_candidate
    inspect_candidate-IsSafe repository task subject = search (steps, inspect_paths-IsSafe) depth 24

    found-IsSafe :
        (str : Value → String) (first : Option Value)
        → IsSafe P (elim first [
          | none ↦ give null
          | some m ↦ do number ← lift (number_of str m); ask answer (api (pulls number) "GET" null)
        ])
    found-IsSafe str none = give-IsSafe P null
    found-IsSafe str (some m) = search (steps) depth 8

    pub find_pull-IsSafe :
        (digest str : Value → String) (branch : String)
        → IsSafe P (find_pull digest str answer branch)
    unfolding find_pull
    find_pull-IsSafe digest str branch = search (steps, found-IsSafe) depth 8

    open_new-IsSafe :
        (digest str : Value → String) (task subject review : Value) (candidate branch : String)
        → IsSafe P (open_new digest str answer task subject review candidate branch)
    unfolding open_new pull_request
    open_new-IsSafe digest str task subject review candidate branch = search (steps) depth 24

    pub open_pull-IsSafe :
        (digest str : Value → String) (task subject review : Value) (candidate branch : String)
        (existing : Value)
        → IsSafe P (open_pull digest str answer task subject review candidate branch existing)
    unfolding open_pull
    open_pull-IsSafe digest str task subject review candidate branch existing =
        if-IsSafe (is_none existing)
          (open_new digest str answer task subject review candidate branch) (give existing)
          (open_new-IsSafe digest str task subject review candidate branch) (give-IsSafe P existing)
