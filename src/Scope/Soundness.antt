-- ===== src/Scope/Soundness.antt =====
-- Every operation of runtime/development_scope.py leaves files that the next one accepts, whose
-- journal adds up to a state with the invariant; also when it raises.
pub mod Gate
pub mod Calls
pub mod Publication
use nortropic_runtime.Prelude.{
  ℕ, suc, ◌+◌, ◌≤◌, ◌<◌, String, ◌≡◌, subst, refl, sym, ◌∙◌, Bool, true, false, Option, none, some,
  List, [], ◌∷◌, ◌++◌, ◌&&◌, not, any, find, find-any, find_holds, arith, count_if, count_if-append,
  eq_iff, Result, ok, err, Result-cases, >>=-returns, ◌>>=◌, ◌>>◌, require, Bool-cases,
  Option-cases, inl, inr, if◌then◌else◌,
}
use nortropic_runtime.Prelude.Dict.{get, is_key}
use nortropic_runtime.Prelude.Text.{has_words, is_identifier, is_hex}
use nortropic_runtime.Value.{Value}
use nortropic_runtime.Scope.Contract.{Error, Contract}
use nortropic_runtime.Scope.Journal.{
  Control, exhausted, Role, Call, Binding, Integration, Event, control, call, launch, started,
  integrated, effect_start, effect_result, task, Row, Store, Digests, locked, append, next_row,
  initialize,
}
use nortropic_runtime.Scope.State.{State, Effect, begun, completed, apply, state, state-snoc}
use nortropic_runtime.Scope.Guards.{
  control_of, role_of, is_terminal, is_active, is_bound, eq_paths, check_reserve, is_exhausted,
  check_launch,
}
use nortropic_runtime.Scope.Operations.{
  run_body, transact, set_control, change_control, add_binding, bind_task, spend, reserve_locked,
  reserve, start_process, launch_locked, launch_call, integrate, record_integration, run_effect,
  effect_locked, publication_effect,
}
use nortropic_runtime.Scope.Chain.{IsChained, append-IsChained}
use nortropic_runtime.Scope.Invariant.{Inv}
use nortropic_runtime.Scope.Moves.{Move, Moves, here, next, move-Keeps}
use nortropic_runtime.Scope.Reserved.{call-Keeps, check_launch_facts}

module _ (digests : Digests) (expected : String) where
  -- The files are accepted, and the journal adds up to `s`, which has the invariant.
  pub record IsSoundAt (store : Store) (s : State) : Type 0 where
    pub chained : IsChained digests expected store
    pub folded : state store.contract store.rows ≡ ok s
    pub inv : Inv store.contract s

  -- The files are accepted, and their journal took moves from the state `s` on.
  abbrev pub Leads : State → Store → Type 0
  Leads s store = (s' : State) × IsSoundAt store s' × Moves store.contract s s'

  -- The files after one more event, which is a move to the state `s'`.
  pub append-IsSoundAt :
      (e : Event) (store : Store) (s s' : State)
      → IsSoundAt store s
      → Move store.contract s e
      → apply s e ≡ ok s'
      → IsSoundAt (append digests expected e store) s'
  unfolding append
  append-IsSoundAt e store s s' h move steps =
      let (t, also, inv) = move-Keeps store.contract s h.inv move in
      record {
        chained = append-IsChained digests expected e store h.chained;
        folded =
            state-snoc store.contract store.rows (next_row digests expected store.rows e) h.folded
            ∙ steps;
        inv = subst (Inv store.contract) (cc (also, steps)) inv;
      }

  -- One more event, where it is a move.
  pub append-Leads :
      (e : Event) (store : Store) (r s : State)
      → IsSoundAt store s
      → Moves store.contract r s
      → Move store.contract s e
      → Leads r (append digests expected e store)
  unfolding append
  append-Leads e store r s h before move =
      let (s', steps, inv) = move-Keeps store.contract s h.inv move in
      (s', append-IsSoundAt e store s s' h move steps, next e before move steps)

  run_body-Leads :
      {A : Type 0} (body : State → Store → Result Error A × Store) (store : Store) (s : State)
      → IsSoundAt store s
      → Leads s (body s store).1
      → (r : Result Error State) → ((s' : State) → r ≡ ok s' → s' ≡ s)
      → Leads s (run_body body store r).1
  unfolding run_body
  run_body-Leads body store s h keeps (err e) same = (s, h, here)
  run_body-Leads body store s h keeps (ok s') same = rw (same s' refl) keeps

  -- A transaction takes the moves that its body takes from the state the journal adds up to.
  pub transact-Leads :
      {A : Type 0} (body : State → Store → Result Error A × Store) (store : Store) (s : State)
      → IsSoundAt store s
      → Leads s (body s store).1
      → Leads s (transact digests expected body store).1
  unfolding transact
  transact-Leads body store s h keeps =
      run_body-Leads body store s h keeps
        (locked digests expected store >> state store.contract store.rows)
        λ s' e.
          let (_, _, is_state) =
            >>=-returns (locked digests expected store) (λ _. state store.contract store.rows) e in
          cc (is_state, h.folded)
