-- ===== src/Scope/Soundness/Gate.antt =====
-- `control` and `bind_task` of runtime/development_scope.py take only moves.
use nortropic_runtime.Prelude.{
  String, ◌≡◌, Bool, true, false, List, ◌&&◌, not, arith, Bool-cases, Option-cases, inl, inr,
}
use nortropic_runtime.Prelude.Dict.{is_key}
use nortropic_runtime.Prelude.Text.{has_words, is_identifier, is_hex}
use nortropic_runtime.Value.{Value}
use nortropic_runtime.Scope.Contract.{Contract}
use nortropic_runtime.Scope.Journal.{Control, Binding, Event, control, task, Store, Digests, append}
use nortropic_runtime.Scope.State.{State}
use nortropic_runtime.Scope.Guards.{control_of, is_terminal, is_active, is_remaining}
use nortropic_runtime.Scope.Operations.{set_control, change_control, add_binding, bind_task}
use nortropic_runtime.Scope.Moves
use nortropic_runtime.Scope.Moves.{Move, here}
use nortropic_runtime.Scope.Soundness.{IsSoundAt, Leads, append-Leads, transact-Leads}

-- The tests of `bind_task` that its move needs, out of all five.
is_remaining_facts :
    (b : Binding) (paths : List String) (s : State) (c : Contract)
    → is_remaining b paths s c ≡ true
    → (is_active s.control ≡ true) × (is_key c.work b.work ≡ true) × (is_key s.tasks b.task ≡ false)
unfolding is_remaining
is_remaining_facts b paths s c h = binding_tests _ _ _ _ _ h
  where
    binding_tests :
        (p q r t u : Bool)
        → (p && q && r && not t && u) ≡ true
        → (p ≡ true) × (q ≡ true) × (t ≡ false)
    binding_tests p q r t u h' = ground arith

module _ (digests : Digests) (expected : String) (store : Store) (s : State)
    (h : IsSoundAt digests expected store s) where
  -- Nothing is appended.
  stay : Leads digests expected s store
  stay = (s, h, here)

  -- One event is appended.
  move :
      (e : Event)
      → Move store.contract s e
      → Leads digests expected s (append digests expected e store)
  move e m = append-Leads digests expected e store s s h here m

  set_control-Leads :
      (v : Control) (reason : String)
      → Leads digests expected s (set_control digests expected v reason s store).1
  unfolding set_control
  set_control-Leads v reason = elim (Bool-cases (is_terminal s.control)) [
    | inl e ↦ rw (e, set_control) stay
    | inr e ↦ rw (e, set_control) (move (control v reason) (Moves.change v reason e))
  ]

  pub change_control-Leads :
      (value : String) (reason : Value)
      → Leads digests expected s (change_control digests expected value reason store).1
  unfolding change_control
  change_control-Leads value (Value.text reason) = elim (Option-cases (control_of value)) [
    | inl e ↦ rw (e, change_control) stay
    | inr (v, e) ↦
        rw (e, change_control)
          (elim (Bool-cases (has_words reason)) [
            | inl w ↦ rw w (
                transact-Leads digests expected (set_control digests expected v reason) store s h
                  (set_control-Leads v reason))
            | inr w ↦ rw w stay
          ])
  ]
  change_control-Leads value _ = stay

  add_binding-Leads :
      (b : Binding) (paths : List String)
      → Leads digests expected s (add_binding digests expected b paths s store).1
  unfolding add_binding
  add_binding-Leads b paths = elim (Bool-cases (is_remaining b paths s store.contract)) [
    | inl e ↦
        let (live, known, fresh) = is_remaining_facts b paths s store.contract e in
        rw (e, add_binding) (move (task b) (Moves.bind b live known fresh))
    | inr e ↦ rw (e, add_binding) stay
  ]

  pub bind_task-Leads :
      (b : Binding) (paths : List String)
      → Leads digests expected s (bind_task digests expected b paths store).1
  unfolding bind_task
  bind_task-Leads b paths = elim (Bool-cases (is_identifier b.task)) [
    | inl i ↦
        rw (i, bind_task)
          (elim (Bool-cases (is_hex 64 b.task_sha256 && is_hex 64 b.review_sha256)) [
            | inl x ↦ rw x (
                transact-Leads digests expected (add_binding digests expected b paths) store s h
                  (add_binding-Leads b paths))
            | inr x ↦ rw x stay
          ])
    | inr i ↦ rw (i, bind_task) stay
  ]
