-- ===== src/Publisher/Remote.antt =====
-- What `Publisher` asks of Git, of the server and of the host's own guards. The requests are a log;
-- what comes back is a parameter, which may depend on every request before.
use nortropic_runtime.Prelude.{
  String, Bool, true, false, List, [], ◌∷◌, ◌++◌, not, Result, ok, err, str_eq, if◌then◌else◌,
}
use nortropic_runtime.Value.{Value}
use nortropic_runtime.Gate.Require.{GateClosed}

-- `git` is `Publisher.git` with its arguments, `api` is `Publisher.api`. The content and decision
-- guards, the deletion guard, the permanent ledger and the issuing of checks are asked as a whole.
pub data Request : Type 0 where
  git : List String → Request
  api : (path method : String) → Value → Request
  require_origin : Request
  require_deletion : (base path : String) → Request
  require_content : (base candidate : String) → Request
  require_history : String → Request
  issue_checks : Value → Value → Value → Request

-- `GateClosed` with its message or from the gate, or another exception of a request or of a missing
-- key.
pub data Closed : Type 0 where
  closed : String → Closed
  gate : GateClosed → Closed
  raised : Closed

abbrev pub Log : Type 0
Log = List Request

-- `Publisher.git('push', ...)`
abbrev pub is_push : Request → Bool
is_push (git (command ∷ _)) = str_eq command "push"
is_push _ = false

abbrev pub is_method : String → Request → Bool
is_method name (api path method body) = str_eq method name
is_method name _ = false

-- What changes the server: a push, or a call with another method than GET.
abbrev pub is_effect : Request → Bool
is_effect (git (command ∷ _)) = str_eq command "push"
is_effect (api path method body) = not (str_eq method "GET")
is_effect (issue_checks _ _ _) = true
is_effect _ = false

-- A computation that asks: what it returns or raises, and the log with its requests at the end.
abbrev pub Asks : Type 0 → Type 0
Asks A = Log → Result Closed A × Log

infixl 5 ◌>>=◌ ◌>>◌
abbrev pub after : {A B : Type 0} → Result Closed A × Log → (A → Asks B) → Result Closed B × Log
after (ok a, log) rest = rest a log
after (err e, log) rest = (err e, log)

unfoldable pub ◌>>=◌ : {A B : Type 0} → Asks A → (A → Asks B) → Asks B
(first >>= rest) log = after (first log) rest

abbrev pub ◌>>◌ : {A B : Type 0} → Asks A → Asks B → Asks B
first >> rest = first >>= λ _. rest

unfoldable pub give : {A : Type 0} → A → Asks A
give a log = (ok a, log)

unfoldable pub lift : {A : Type 0} → Result Closed A → Asks A
lift r log = (r, log)

unfoldable pub require : Bool → String → Asks (Unit {0})
unfolding lift
require test message = lift (if test then ok tt else err (closed message))

module _ (answer : Log → Request → Result Closed Value) where
  unfoldable pub ask : Request → Asks Value
  ask request log = (answer log request, log ++ request ∷ [])
