-- ===== src/Scope/Commands.antt =====
-- Any sequence of operations of runtime/development_scope.py, with any arguments and any answers
-- of the processes and remote operations that they call, on one scope.
use nortropic_runtime.Prelude.{
  String, ◌≡◌, refl, ◌∙◌, Bool, Option, List, [], ◌∷◌, ok, >>=-returns, arith, subst,
}
use nortropic_runtime.Value.{Value}
use nortropic_runtime.Scope.Contract.{Contract, validate_contract}
use nortropic_runtime.Scope.Journal.{
  Binding, Integration, Store, Digests, check_rows, append, opened, initialize,
}
use nortropic_runtime.Scope.State.{State, initial, apply_all, state}
use nortropic_runtime.Scope.Operations.{
  change_control, bind_task, reserve, launch_call, record_integration, publication_effect,
}
use nortropic_runtime.Scope.Invariant.{initial-Inv}
use nortropic_runtime.Scope.Moves.{Moves, here, Moves-trans}
use nortropic_runtime.Scope.Soundness.{IsSoundAt, Leads}
use nortropic_runtime.Scope.Soundness.Gate.{change_control-Leads, bind_task-Leads}
use nortropic_runtime.Scope.Soundness.Calls.{reserve-Leads, launch_call-Leads}
use nortropic_runtime.Scope.Soundness.Publication.{
  record_integration-Leads, publication_effect-Leads,
}

pub data Command : Type 0 where
  change : (value : String) (reason : Value) → Command
  bind : Binding → (paths : List String) → Command
  spend : (work role nonce : String) (task_id task_digest : Option String) → Command
  start : (nonce : String) (spawns : Bool) → Command
  integrate : Integration → (task_digest : String) → Command
  publish :
      (work task_id task_digest : String) (operation : Value) (response : Option Value) → Command

module _ (digests : Digests) (expected : String) where
  unfoldable pub step : Command → Store → Store
  step (change value reason) store = (change_control digests expected value reason store).1
  step (bind b paths) store = (bind_task digests expected b paths store).1
  step (spend work role nonce task_id task_digest) store =
      (reserve digests expected work role nonce task_id task_digest store).1
  step (start nonce spawns) store = (launch_call digests expected nonce spawns store).1
  step (integrate e task_digest) store = (record_integration digests expected e task_digest store).1
  step (publish work task_id task_digest operation response) store =
      (publication_effect digests expected work task_id task_digest operation response store).1

  unfoldable pub run : List Command → Store → Store
  unfolding step
  run [] store = store
  run (c ∷ cs) store = run cs (step c store)

  step-Leads :
      (c : Command) (store : Store) (s : State)
      → IsSoundAt digests expected store s
      → Leads digests expected s (step c store)
  unfolding step
  step-Leads (change value reason) store s h =
      change_control-Leads digests expected store s h value reason
  step-Leads (bind b paths) store s h = bind_task-Leads digests expected store s h b paths
  step-Leads (spend work role nonce task_id task_digest) store s h =
      reserve-Leads digests expected store s h work role nonce task_id task_digest
  step-Leads (start nonce spawns) store s h =
      launch_call-Leads digests expected store s h nonce spawns
  step-Leads (integrate e task_digest) store s h =
      record_integration-Leads digests expected store s h e task_digest
  step-Leads (publish work task_id task_digest operation response) store s h =
      publication_effect-Leads digests expected store s h work task_id task_digest operation
        response

  contract-step : (c : Command) (store : Store) → (step c store).contract ≡ store.contract
  unfolding step change_control bind_task reserve launch_call record_integration publication_effect
      append
  contract-step (change value (Value.text reason)) store = ground arith
  contract-step (change value _) store = refl
  contract-step (bind b paths) store = ground arith
  contract-step (spend work role nonce task_id task_digest) store = ground arith
  contract-step (start nonce spawns) store = ground arith
  contract-step (integrate e task_digest) store = ground arith
  contract-step (publish work task_id task_digest operation response) store = ground arith

  pub run-Leads :
      (cs : List Command) (store : Store) (s : State)
      → IsSoundAt digests expected store s
      → (s' : State) × IsSoundAt digests expected (run cs store) s'
        × Moves store.contract s s'
        × ((run cs store).contract ≡ store.contract)
  unfolding run
  run-Leads [] store s h = (s, h, here, refl)
  run-Leads (c ∷ cs) store s h =
      let (t, sound, moves) = step-Leads c store s h in
      let (u, sound', moves', same) = run-Leads cs (step c store) t sound in
      let e = contract-step c store in
      (
        u,
        sound',
        Moves-trans store.contract (subst (λ k. Moves k s t) e moves)
            (subst (λ k. Moves k t u) e moves'),
        same ∙ e,
      )

-- A new scope, and its state.
pub initialize-IsSoundAt :
    (digests : Digests) (c : Contract) (store : Store)
    → initialize digests c ≡ ok store
    → IsSoundAt digests (digests.of_contract c) store (initial c)
      × (store.contract ≡ c)
      × (validate_contract c ≡ ok tt)
unfolding initialize state check_rows apply_all
initialize-IsSoundAt digests c store h =
    let (_, valid, e) = >>=-returns (validate_contract c) (λ _. ok (opened digests c)) h in
    let same : opened digests c ≡ store = cc e in
    subst
      (λ s.
        IsSoundAt digests (digests.of_contract c) s (initial c)
        × (s.contract ≡ c)
        × (validate_contract c ≡ ok tt))
      same
      (
        record {
          chained = record { valid = valid; pinned = refl; linked = refl; counted = refl };
          folded = refl;
          inv = initial-Inv c;
        },
        refl,
        valid,
      )
