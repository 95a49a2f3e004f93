-- ===== src/Scope/Guards.antt =====
-- The tests of `reserve`, `launch` and the other operations of runtime/development_scope.py on the
-- computed state: what an operation requires before it appends to the journal.
use nortropic_runtime.Prelude.{
  String, Bool, true, false, Option, none, some, List, [], ◌∷◌, ◌&&◌, ◌||◌, not, leb, any, find,
  length, Result, ok, err, require, ◌>>◌, str_eq, if◌then◌else◌,
}
use nortropic_runtime.Prelude.Dict.{get, is_key}
use nortropic_runtime.Scope.Contract.{Error, closed, key_error, Contract}
use nortropic_runtime.Scope.Journal.{
  Binding, Control, active, paused, stopped, revoked, quota, exhausted, Role, driver,
  preparation_review, implementation, review, diagnosis, final_review, Call,
}
use nortropic_runtime.Scope.State.{State}

-- The names under which callers pass a control or a role.
unfoldable pub control_of : String → Option Control
control_of value =
    if str_eq value "active"
    then some active
    else if str_eq value "paused"
    then some paused
    else if str_eq value "stopped"
    then some stopped
    else if str_eq value "revoked"
    then some revoked
    else if str_eq value "quota"
    then some quota
    else if str_eq value "exhausted"
    then some exhausted
    else none

unfoldable pub role_of : String → Option Role
role_of value =
    if str_eq value "driver"
    then some driver
    else if str_eq value "preparation-review"
    then some preparation_review
    else if str_eq value "implementation"
    then some implementation
    else if str_eq value "review"
    then some review
    else if str_eq value "diagnosis"
    then some diagnosis
    else if str_eq value "final-review"
    then some final_review
    else none

abbrev pub is_active : Control → Bool
is_active active = true
is_active _ = false

-- `state['control'] in ('active', 'paused')`
abbrev pub is_open : Control → Bool
is_open active = true
is_open paused = true
is_open _ = false

-- `state['control'] in ('stopped', 'revoked', 'exhausted')`
abbrev pub is_terminal : Control → Bool
is_terminal stopped = true
is_terminal revoked = true
is_terminal exhausted = true
is_terminal _ = false

abbrev pub is_review : Role → Bool
is_review review = true
is_review _ = false

abbrev pub is_implementation : Role → Bool
is_implementation implementation = true
is_implementation _ = false

-- `control == 'active' or (control == 'paused' and role == 'review')`
abbrev pub admits : Control → Role → Bool
admits active role = true
admits paused role = is_review role
admits _ role = false

-- `bound and bound['work'] == work and bound['task_sha256'] == task_digest`, for the task's binding.
abbrev pub is_bound : State → Option String → String → Option String → Bool
is_bound s none work sha256 = false
is_bound s (some t) work none = false
is_bound s (some t) work (some sha256) = elim (get s.tasks t) [
  | none ↦ false
  | some b ↦ str_eq b.work work && str_eq b.task_sha256 sha256
]

-- A started implementation call of that task.
abbrev pub is_started_child : State → Option String → Call → Bool
is_started_child s none e = false
is_started_child s (some t) e =
    elim e.task [ none ↦ false | some t' ↦ str_eq t' t ]
    && is_implementation e.role
    && any (λ n. str_eq n e.nonce) s.started

abbrev pub eq_paths : Option (List String) → List String → Bool
eq_paths none paths = false
eq_paths (some []) [] = true
eq_paths (some (p ∷ ps)) (q ∷ qs) = str_eq p q && eq_paths (some ps) qs
eq_paths (some _) _ = false

-- What `bind_task` requires under the lock: the deliverable is accepted, its paths are the accepted
-- ones, the task is new, and the deliverable is not integrated.
unfoldable pub is_remaining : Binding → List String → State → Contract → Bool
is_remaining b paths s contract =
    is_active s.control
    && is_key contract.work b.work
    && eq_paths (get contract.work b.work) paths
    && not (is_key s.tasks b.task)
    && not (is_key s.integrated b.work)

-- The guards of `reserve` under the lock, in order, up to the ceilings.
unfoldable pub check_reserve : Call → Option String → State → Contract → Result Error (Unit {0})
check_reserve e sha256 s contract = do
  require (is_key contract.work e.work || str_eq e.work "goal")
      (closed "Unknown logical work cannot reset resources")
  require (not (any (λ c. str_eq c.nonce e.nonce) s.calls))
      (closed "Launch reservation already spent; no redelivery")
  require (admits s.control e.role) (closed "New model work is paused or stopped")
  require
      (not (is_implementation e.role || is_review e.role)
        || (is_bound s e.task e.work sha256 && not (is_key s.integrated e.work)))
      (closed "Model call is not bound to remaining accepted task")
  require (not (is_review e.role) || any (is_started_child s e.task) s.calls)
      (closed "No started child implementation to review")

-- `exhausted`: at the ceiling of all calls, or of the implementations of one deliverable.
unfoldable pub is_exhausted : Call → State → Contract → Result Error Bool
is_exhausted e s contract =
    let over = leb contract.model_calls (length s.calls) in
    if is_implementation e.role
    then elim (get s.implementations e.work) [
      | none ↦ if over then ok true else err (key_error e.work)
      | some n ↦ ok (over || leb contract.implementation_attempts n)
    ]
    else ok over

-- The guards of `launch`, for the call that carries the nonce.
unfoldable pub check_launch : String → State → Result Error (Unit {0})
check_launch nonce s = elim (find (λ c. str_eq c.nonce nonce) s.calls) [
  | none ↦ err (closed "Start needs a unique consumed reservation")
  | some c ↦ do
    require (not (any (λ n. str_eq n nonce) s.launches))
        (closed "Start needs a unique consumed reservation")
    require (admits s.control c.role) (closed "Reserved start is now paused or stopped")
    require (not (is_key s.integrated c.work)) (closed "Reserved work has already been integrated")
]
