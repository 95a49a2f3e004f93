-- ===== src/Scope/Operations.antt =====
-- The operations of `Scope` in runtime/development_scope.py, each a transaction under the lock: it
-- checks the files, computes the state, and returns or raises. A raise keeps what was appended.
use nortropic_runtime.Prelude.{
  String, Bool, true, false, Option, none, some, List, ◌&&◌, not, Result, ok, err, require, ◌>>◌,
  if◌then◌else◌,
}
use nortropic_runtime.Prelude.Dict.{get, is_key}
use nortropic_runtime.Prelude.Text.{has_words, is_identifier, is_hex}
use nortropic_runtime.Value.{Value, is_dict, is_truthy, eq}
use nortropic_runtime.Scope.Contract.{Error, closed, callback_raised}
use nortropic_runtime.Scope.Journal.{
  Control, exhausted, Call, Binding, Integration, control, task, call, launch, started, integrated,
  effect_start, effect_result, Store, Digests, locked, append, next_row,
}
use nortropic_runtime.Scope.State.{State, begun, completed, state}
use nortropic_runtime.Scope.Guards.{
  control_of, role_of, is_open, is_terminal, is_bound, is_remaining, check_reserve, is_exhausted,
  check_launch,
}

unfoldable pub run_body :
    {A : Type 0}
    → (State → Store → Result Error A × Store)
    → Store
    → Result Error State
    → Result Error A × Store
run_body body store (err e) = (err e, store)
run_body body store (ok s) = body s store

module _ (digests : Digests) (expected : String) where
  open digests use {of_effect}

  -- `with self.locked() as (contract, records): state = self.state(contract, records)`
  unfoldable pub transact :
      {A : Type 0} → (State → Store → Result Error A × Store) → Store → Result Error A × Store
  unfolding run_body
  transact body store =
      run_body body store (locked digests expected store >> state store.contract store.rows)

  -- `inspect`
  unfoldable pub inspect : Store → Result Error State × Store
  unfolding transact
  inspect = transact (λ s store. (ok s, store))

  unfoldable pub set_control : Control → String → State → Store → Result Error (Unit {0}) × Store
  set_control value reason s store =
      if is_terminal s.control
      then (err (closed "Terminal gate cannot be reopened"), store)
      else (ok tt, append digests expected (control value reason) store)

  -- `control`: the value and the reason are checked before the lock is taken.
  unfoldable pub change_control : String → Value → Store → Result Error (Unit {0}) × Store
  unfolding transact set_control
  change_control value (Value.text reason) store = elim (control_of value) [
    | none ↦ (err (closed "Explicit scoped control and reason required"), store)
    | some v ↦
        if has_words reason
        then transact (set_control v reason) store
        else (err (closed "Explicit scoped control and reason required"), store)
  ]
  change_control value reason store =
      (err (closed "Explicit scoped control and reason required"), store)

  unfoldable pub add_binding :
      Binding → List String → State → Store → Result Error (Unit {0}) × Store
  add_binding b paths s store =
      if is_remaining b paths s store.contract
      then (ok tt, append digests expected (task b) store)
      else (err (closed "New task is outside remaining accepted work"), store)

  unfoldable pub bind_task : Binding → List String → Store → Result Error (Unit {0}) × Store
  unfolding transact add_binding
  bind_task b paths store =
      if not (is_identifier b.task)
      then (err (closed "Invalid scoped identity"), store)
      else if is_hex 64 b.task_sha256 && is_hex 64 b.review_sha256
      then transact (add_binding b paths) store
      else (err (closed "Frozen task and separate review must be bound"), store)

  unfoldable pub spend : Call → Result Error Bool → Store → Result Error String × Store
  spend e (err x) store = (err x, store)
  spend e (ok true) store = (
    err (closed "Accepted resource ceiling reached"),
    append digests expected (control exhausted "Accepted launch ceiling reached") store,
  )
  spend e (ok false) store = (
    ok (next_row digests expected store.rows (call e)).sha256,
    append digests expected (call e) store,
  )

  unfoldable pub reserve_locked : Call → Option String → State → Store → Result Error String × Store
  unfolding spend check_reserve is_exhausted
  reserve_locked e sha256 s store = elim (check_reserve e sha256 s store.contract) [
    | err x ↦ (err x, store)
    | ok _ ↦ spend e (is_exhausted e s store.contract) store
  ]

  -- `reserve` returns the new row's digest.
  unfoldable pub reserve :
      (work role nonce : String) (task_id task_digest : Option String)
      → Store
      → Result Error String × Store
  unfolding transact reserve_locked
  reserve work role nonce task_id task_digest store =
      if not (is_identifier nonce)
      then (err (closed "Invalid scoped identity"), store)
      else elim (role_of role) [
        | none ↦ (err (closed "Unqualified model role"), store)
        | some r ↦
            transact
              (reserve_locked (record { work = work; role = r; nonce = nonce; task = task_id })
                task_digest)
              store
      ]

  -- The launcher runs between the two rows; `false` is an exception of its own.
  unfoldable pub start_process : String → Bool → Store → Result Error (Unit {0}) × Store
  start_process nonce true store = (
    ok tt,
    append digests expected (started nonce) (append digests expected (launch nonce) store),
  )
  start_process nonce false store =
      (err callback_raised, append digests expected (launch nonce) store)

  unfoldable pub launch_locked : String → Bool → State → Store → Result Error (Unit {0}) × Store
  unfolding check_launch start_process
  launch_locked nonce spawns s store = elim (check_launch nonce s) [
    | err x ↦ (err x, store)
    | ok _ ↦ start_process nonce spawns store
  ]

  unfoldable pub launch_call : String → Bool → Store → Result Error (Unit {0}) × Store
  unfolding transact launch_locked
  launch_call nonce spawns = transact (launch_locked nonce spawns)

  -- `permit_publication`
  unfoldable pub permit_publication :
      (work task_id task_digest : String) → Store → Result Error (Unit {0}) × Store
  unfolding transact
  permit_publication work task_id task_digest = transact λ s store. (
    require
        (is_open s.control
          && is_bound s (some task_id) work (some task_digest)
          && not (is_key s.integrated work))
        (closed "Publication not permitted for this accepted work"),
    store,
  )

  unfoldable pub integrate : Integration → String → State → Store → Result Error (Unit {0}) × Store
  integrate e task_digest s store =
      if is_bound s (some e.task) e.work (some task_digest)
        && is_dict e.receipt
        && is_truthy e.receipt
      then elim (get s.integrated e.work) [
        | none ↦ (ok tt, append digests expected (integrated e) store)
        | some before ↦ (
          require (eq before.receipt e.receipt)
              (closed "Conflicting integration; preserve and reconcile"),
          store,
        )
      ]
      else (err (closed "Unbound integration receipt"), store)

  unfoldable pub record_integration :
      Integration → (task_digest : String) → Store → Result Error (Unit {0}) × Store
  unfolding transact integrate
  record_integration e task_digest = transact (integrate e task_digest)

  -- The callback runs between the two rows; `none` is an exception of its own.
  unfoldable pub run_effect :
      (identity work task_id : String) → Value → Option Value → Store → Result Error Value × Store
  run_effect identity work task_id operation none store = (
    err callback_raised,
    append digests expected (effect_start identity work task_id operation) store,
  )
  run_effect identity work task_id operation (some result) store = (
    ok result,
    append digests expected (effect_result identity work task_id result)
        (append digests expected (effect_start identity work task_id operation) store),
  )

  unfoldable pub effect_locked :
      (work task_id task_digest : String)
      → Value
      → Option Value
      → State
      → Store
      → Result Error Value × Store
  unfolding run_effect
  effect_locked work task_id task_digest operation response s store =
      let identity = of_effect task_id task_digest operation in
      if is_bound s (some task_id) work (some task_digest)
      then elim (get s.effects identity) [
        | some (completed result) ↦ (ok result, store)
        | some begun ↦
            (err (closed "Uncertain remote effect; read-only reconciliation required"), store)
        | none ↦
            if is_open s.control && not (is_key s.integrated work)
            then run_effect identity work task_id operation response store
            else (err (closed "New publication effect is paused or stopped"), store)
      ]
      else (err (closed "Publication effect is not bound to an accepted task"), store)

  -- `publication_effect`, with what the remote operation answers when it is called.
  unfoldable pub publication_effect :
      (work task_id task_digest : String)
      → Value
      → Option Value
      → Store
      → Result Error Value × Store
  unfolding transact effect_locked
  publication_effect work task_id task_digest operation response =
      transact (effect_locked work task_id task_digest operation response)
