-- ===== src/Scope/Crash.antt =====
-- A crash in the middle of `append` in runtime/development_scope.py.
use nortropic_runtime.Prelude.{String, ◌≡◌, refl, false, List, [], ◌∷◌, arith, ok, is_ok}
use nortropic_runtime.Value.{Value}
use nortropic_runtime.Scope.Contract.{Contract}
use nortropic_runtime.Scope.Journal.{
  Event, Store, Digests, locked, next_row, advance_head, initialize,
}
use nortropic_runtime.Scope.Operations.{
  change_control, bind_task, reserve, launch_call, record_integration, publication_effect,
}
use nortropic_runtime.Scope.Chain.{crash_locks}
use nortropic_runtime.Scope.Commands.{
  Command, change, bind, spend, start, integrate, publish, step, run,
}
use nortropic_runtime.Scope.Guarantees.{reached}

module _ (digests : Digests) (expected : String) where
  -- Files that `locked` refuses are left alone.
  step_refused :
      (command : Command) (store : Store)
      → is_ok (locked digests expected store) ≡ false
      → step digests expected command store ≡ store
  unfolding step change_control bind_task reserve launch_call record_integration publication_effect
  step_refused (change value (Value.text reason)) store h = ground arith
  step_refused (change value _) store h = refl
  step_refused (bind b paths) store h = ground arith
  step_refused (spend work role nonce task_id task_digest) store h = ground arith
  step_refused (start nonce spawns) store h = ground arith
  step_refused (integrate e task_digest) store h = ground arith
  step_refused (publish work task_id task_digest operation response) store h = ground arith

  run_refused :
      (commands : List Command) (store : Store)
      → is_ok (locked digests expected store) ≡ false
      → run digests expected commands store ≡ store
  unfolding run
  run_refused [] store h = refl
  run_refused (command ∷ commands) store h =
      rw (step_refused command store h) (run_refused commands store h)

-- If the host stops after `append` has replaced the head and before it has written the row, the
-- scope is unavailable: no sequence of operations changes its files again. So nothing that the
-- journal recorded as spent before is given back.
pub crash_is_final :
    (digests : Digests) (c : Contract) (store : Store) (before after : List Command) (event : Event)
    → initialize digests c ≡ ok store
    → let expected = digests.of_contract c in
      let files = run digests expected before store in
      let crashed = advance_head (next_row digests expected files.rows event) files in
      run digests expected after crashed ≡ crashed
crash_is_final digests c store before after event opens =
    let (_, h, _) = reached digests c store before opens in
    run_refused digests (digests.of_contract c) after _
      (crash_locks digests (digests.of_contract c) event _ h.chained)
