-- ===== src/Scope/Soundness/Calls.antt =====
-- `reserve` and `launch` of runtime/development_scope.py take only moves.
use nortropic_runtime.Prelude.{
  String, ◌≡◌, refl, Bool, true, false, Option, [], ◌∷◌, count_if-append, arith, eq_iff, Result, ok,
  err, Result-cases, Bool-cases, Option-cases, inl, inr,
}
use nortropic_runtime.Prelude.Text.{is_identifier}
use nortropic_runtime.Scope.Contract.{Error}
use nortropic_runtime.Scope.Journal.{
  exhausted, Call, Event, control, call, launch, started, Store, Digests, append,
}
use nortropic_runtime.Scope.State.{State, apply}
use nortropic_runtime.Scope.Guards.{role_of, is_terminal, check_reserve, is_exhausted, check_launch}
use nortropic_runtime.Scope.Operations.{
  spend, reserve_locked, reserve, start_process, launch_locked, launch_call,
}
use nortropic_runtime.Scope.Invariant.{is_text, launched}
use nortropic_runtime.Scope.Reserved.{check_launch_facts}
use nortropic_runtime.Scope.Moves
use nortropic_runtime.Scope.Moves.{Move, here, next}
use nortropic_runtime.Scope.Soundness.{
  IsSoundAt, Leads, append-IsSoundAt, append-Leads, transact-Leads,
}

module _ (digests : Digests) (expected : String) (store : Store) (s : State)
    (h : IsSoundAt digests expected store s) where
  -- Nothing is appended.
  stay : Leads digests expected s store
  stay = (s, h, here)

  -- One event is appended.
  move :
      (e : Event)
      → Move store.contract s e
      → Leads digests expected s (append digests expected e store)
  move e m = append-Leads digests expected e store s s h here m

  -- A reservation is refused at the ceiling only while the control is open, so that the control
  -- can be changed.
  exhausts :
      (e : Call) (sha256 : Option String)
      → check_reserve e sha256 s store.contract ≡ ok tt
      → is_terminal s.control ≡ false
  unfolding check_reserve
  exhausts e sha256 passes = ground arith

  spend-Leads :
      (e : Call) (sha256 : Option String)
      → check_reserve e sha256 s store.contract ≡ ok tt
      → (r : Result Error Bool) → is_exhausted e s store.contract ≡ r
      → Leads digests expected s (spend digests expected e r store).1
  unfolding spend
  spend-Leads e sha256 passes (err x) p = stay
  spend-Leads e sha256 passes (ok true) p =
      move (control exhausted "Accepted launch ceiling reached")
        (Moves.change exhausted "Accepted launch ceiling reached" (exhausts e sha256 passes))
  spend-Leads e sha256 passes (ok false) p = move (call e) (Moves.reserve e sha256 passes p)

  reserve_locked-Leads :
      (e : Call) (sha256 : Option String)
      → Leads digests expected s (reserve_locked digests expected e sha256 s store).1
  unfolding reserve_locked
  reserve_locked-Leads e sha256 = elim (Result-cases (check_reserve e sha256 s store.contract)) [
    | inl (u, p) ↦
        rw (p, reserve_locked) (spend-Leads e sha256 p (is_exhausted e s store.contract) refl)
    | inr (x, p) ↦ rw (p, reserve_locked) stay
  ]

  pub reserve-Leads :
      (work role nonce : String) (task_id task_digest : Option String)
      → Leads digests expected s
          (reserve digests expected work role nonce task_id task_digest store).1
  unfolding reserve
  reserve-Leads work role nonce task_id task_digest = elim (Bool-cases (is_identifier nonce)) [
    | inl i ↦
        rw (i, reserve)
          (elim (Option-cases (role_of role)) [
            | inl e ↦ rw (e, reserve) stay
            | inr (r, e) ↦
                rw (e, reserve)
                  (let c : Call = record { work = work; role = r; nonce = nonce; task = task_id } in
                    transact-Leads digests expected (reserve_locked digests expected c task_digest)
                      store s h (reserve_locked-Leads c task_digest))
          ])
    | inr i ↦ rw (i, reserve) stay
  ]

  start_process-Leads :
      (n : String) (spawns : Bool)
      → check_launch n s ≡ ok tt
      → Leads digests expected s (start_process digests expected n spawns store).1
  unfolding start_process
  start_process-Leads n true passes =
      let m = Moves.begin_launch n passes in
      let (_, fresh) = check_launch_facts n s passes in
      append-Leads digests expected (started n) (append digests expected (launch n) store) s
        (launched s n)
        (append-IsSoundAt digests expected (launch n) store s (launched s n) h m
          (unfold apply in refl))
        (unfold append apply in next (launch n) here m refl)
        (unfold append in
          Moves.report_start n (
            ground (
              arith,
              count_if-append (is_text n) s.launches (n ∷ []),
              eq_iff n n,
              h.inv.spent.started_launched n,
            )))
  start_process-Leads n false passes = move (launch n) (Moves.begin_launch n passes)

  launch_locked-Leads :
      (n : String) (spawns : Bool)
      → Leads digests expected s (launch_locked digests expected n spawns s store).1
  unfolding launch_locked
  launch_locked-Leads n spawns = elim (Result-cases (check_launch n s)) [
    | inl (u, p) ↦ rw (p, launch_locked) (start_process-Leads n spawns p)
    | inr (x, p) ↦ rw (p, launch_locked) stay
  ]

  pub launch_call-Leads :
      (n : String) (spawns : Bool)
      → Leads digests expected s (launch_call digests expected n spawns store).1
  unfolding launch_call
  launch_call-Leads n spawns =
      transact-Leads digests expected (launch_locked digests expected n spawns) store s h
        (launch_locked-Leads n spawns)
