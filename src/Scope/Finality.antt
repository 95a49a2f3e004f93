-- ===== src/Scope/Finality.antt =====
-- What a scope of runtime/development_scope.py never takes back, over any sequence of operations.
use nortropic_runtime.Prelude.{
  ◌≤◌, String, ◌≡◌, ◌≢◌, refl, subst, ◌∙◌, true, Option, none, some, List, arith, Result, ok,
  Result-cases, Option-cases, Bool-cases, inl, inr,
}
use nortropic_runtime.Prelude.Dict.{get}
use nortropic_runtime.Value.{Value}
use nortropic_runtime.Scope.Contract.{Error, Contract}
use nortropic_runtime.Scope.Journal.{Integration, Store, Digests, locked, initialize}
use nortropic_runtime.Scope.State.{State, Effect, begun, completed}
use nortropic_runtime.Scope.Guards.{is_terminal, is_bound}
use nortropic_runtime.Scope.Operations.{
  transact, integrate, record_integration, effect_locked, publication_effect,
}
use nortropic_runtime.Scope.Chain.{locked_of_IsChained}
use nortropic_runtime.Scope.Soundness.{IsSoundAt}
use nortropic_runtime.Scope.Commands.{Command, run, run-Leads}
use nortropic_runtime.Scope.Guarantees.{HasState, reached}
use nortropic_runtime.Scope.Lasting.{IsKept, IsLater, Moves-IsLater}

-- Where the files are sound, a transaction runs its body on the state they add up to.
transact-of_IsSoundAt :
    {A : Type 0} (digests : Digests) (expected : String)
    (body : State → Store → Result Error A × Store) (store : Store) (s : State)
    → IsSoundAt digests expected store s
    → digests.journal_bytes store.rows ≤ 1048576
    → transact digests expected body store ≡ body s store
unfolding transact
transact-of_IsSoundAt digests expected body store s h fits =
    rw (locked_of_IsChained digests expected store h.chained fits, h.folded)

-- Whether or not the files are accepted, a body that leaves them alone does.
transact-unchanged :
    {A : Type 0} (digests : Digests) (expected : String)
    (body : State → Store → Result Error A × Store) (store : Store) (s : State)
    → IsSoundAt digests expected store s
    → (body s store).1 ≡ store
    → (transact digests expected body store).1 ≡ store
unfolding transact
transact-unchanged digests expected body store s h same =
    elim (Result-cases (locked digests expected store)) [
      | inl (u, e) ↦ rw (e, h.folded) same
      | inr (x, e) ↦ rw e
    ]

-- Where two bodies agree on that state, so do their transactions.
transact-alike :
    {A : Type 0} (digests : Digests) (expected : String)
    (body other : State → Store → Result Error A × Store) (store : Store) (s : State)
    → IsSoundAt digests expected store s
    → body s store ≡ other s store
    → transact digests expected body store ≡ transact digests expected other store
unfolding transact
transact-alike digests expected body other store s h same =
    elim (Result-cases (locked digests expected store)) [
      | inl (u, e) ↦ rw (e, h.folded) same
      | inr (x, e) ↦ rw e refl
    ]

module _ (digests : Digests) (c : Contract) (store : Store) (cs more : List Command)
    (s : State) where
  abbrev pinned : String
  pinned = digests.of_contract c

  -- The files after the first operations, and after the later ones.
  abbrev pub earlier : Store
  earlier = run digests pinned cs store

  abbrev pub later : Store
  later = run digests pinned more earlier

  pub later_state :
      initialize digests c ≡ ok store
      → HasState earlier s
      → (u : State) × IsSoundAt digests pinned later u × IsLater s u
  later_state opens has =
      let (r, h, same) = reached digests c store cs opens in
      let (u, h', moves, _) = run-Leads digests pinned more earlier r h in
      let e : r ≡ s = cc (h.folded, has) in
      (u, h', subst (λ x. IsLater x u) e (Moves-IsLater earlier.contract r u moves))

  -- Once the control of a scope is stopped, revoked or exhausted, no sequence of operations changes
  -- the control, reserves or launches a call, or binds a task.
  pub terminal_control_is_final :
      initialize digests c ≡ ok store
      → HasState earlier s
      → is_terminal s.control ≡ true
      → (u : State) × HasState later u
        × (u.control ≡ s.control)
        × (u.calls ≡ s.calls)
        × (u.launches ≡ s.launches)
        × (u.tasks ≡ s.tasks)
  terminal_control_is_final opens has terminal =
      let (u, h, keeps) = later_state opens has in
      let (a, b, d, e) = keeps.closed terminal in (u, h.folded, a, b, d, e)

  effect_locked-unchanged :
      (w t sha256 : String) (operation : Value) (response : Option Value) (u : State)
      (files : Store)
      → get u.effects (digests.of_effect t sha256 operation) ≢ none
      → (effect_locked digests pinned w t sha256 operation response u files).1 ≡ files
  unfolding effect_locked
  effect_locked-unchanged w t sha256 operation response u files h = ground arith

  IsKept-ne-none : (x y : Option Effect) → x ≢ none → IsKept x y → y ≢ none
  IsKept-ne-none none y h k = absurd (h refl)
  IsKept-ne-none (some begun) y h k = k
  IsKept-ne-none (some (completed v)) y h k = λ e. ground arith

  -- Started, the operation is not called: no answer of the remote side makes a difference.
  effect_locked-alike :
      (w t sha256 : String) (operation : Value) (response other : Option Value) (u : State)
      (files : Store)
      → get u.effects (digests.of_effect t sha256 operation) ≢ none
      → effect_locked digests pinned w t sha256 operation response u files
        ≡ effect_locked digests pinned w t sha256 operation other u files
  unfolding effect_locked
  effect_locked-alike w t sha256 operation response other u files h =
      elim (Bool-cases (is_bound u (some t) w (some sha256))) [
        | inr e ↦ rw (e, effect_locked) refl
        | inl e ↦ elim (Option-cases (get u.effects (digests.of_effect t sha256 operation))) [
          | inl f ↦ absurd (h f)
          | inr (begun, f) ↦ rw (e, effect_locked) (rw (f, effect_locked) refl)
          | inr (completed v, f) ↦ rw (e, effect_locked) (rw (f, effect_locked) refl)
        ]
      ]

  -- A remote operation whose start is recorded is never called again: after any later operations, a
  -- publication effect of the same task, digest and operation appends nothing, and what it returns
  -- or raises is the same whatever the remote side would answer, or if it would not answer at all.
  pub effect_runs_once :
      initialize digests c ≡ ok store
      → HasState earlier s
      → (w t sha256 : String) (operation : Value) (response other : Option Value)
      → get s.effects (digests.of_effect t sha256 operation) ≢ none
      → ((publication_effect digests pinned w t sha256 operation response later).1 ≡ later)
        × (publication_effect digests pinned w t sha256 operation response later
            ≡ publication_effect digests pinned w t sha256 operation other later)
  unfolding publication_effect
  effect_runs_once opens has w t sha256 operation response other started =
      let (u, h, keeps) = later_state opens has in
      let still =
        IsKept-ne-none _ _ started (keeps.effects (digests.of_effect t sha256 operation)) in
      (
        transact-unchanged digests pinned
            (effect_locked digests pinned w t sha256 operation response) later u h
            (effect_locked-unchanged w t sha256 operation response u later still),
        transact-alike digests pinned (effect_locked digests pinned w t sha256 operation response)
            (effect_locked digests pinned w t sha256 operation other) later u h
            (effect_locked-alike w t sha256 operation response other u later still),
      )

  bound_later :
      (u : State) (w t sha256 : String)
      → IsLater s u
      → is_bound s (some t) w (some sha256) ≡ true
      → is_bound u (some t) w (some sha256) ≡ true
  bound_later u w t sha256 keeps h = elim (Option-cases (get s.tasks t)) [
    | inl e ↦ absurd (ground arith)
    | inr (b, e) ↦ ground (arith, keeps.tasks t b e)
  ]

  effect_locked-completed :
      (w t sha256 : String) (operation v : Value) (response : Option Value) (u : State)
      (files : Store)
      → is_bound u (some t) w (some sha256) ≡ true
      → get u.effects (digests.of_effect t sha256 operation) ≡ some (completed v)
      → effect_locked digests pinned w t sha256 operation response u files ≡ (ok v, files)
  unfolding effect_locked
  effect_locked-completed w t sha256 operation v response u files b h =
      rw (b, effect_locked) (rw (h, effect_locked))

  -- Once the result of a remote operation is recorded, the same effect of the same accepted task
  -- returns that result after any later operations, without calling the remote side or appending,
  -- as long as the journal's file is within its limit of size.
  pub effect_result_is_final :
      initialize digests c ≡ ok store
      → HasState earlier s
      → (w t sha256 : String) (operation v : Value) (response : Option Value)
      → is_bound s (some t) w (some sha256) ≡ true
      → get s.effects (digests.of_effect t sha256 operation) ≡ some (completed v)
      → digests.journal_bytes later.rows ≤ 1048576
      → publication_effect digests pinned w t sha256 operation response later ≡ (ok v, later)
  unfolding publication_effect
  effect_result_is_final opens has w t sha256 operation v response b done fits =
      let (u, h, keeps) = later_state opens has in
      let i = digests.of_effect t sha256 operation in
      transact-of_IsSoundAt digests pinned
        (effect_locked digests pinned w t sha256 operation response) later u h fits
      ∙ effect_locked-completed w t sha256 operation v response u later
          (bound_later u w t sha256 keeps b)
          (subst (λ o. IsKept o (get u.effects i)) done (keeps.effects i))

  integrate-again :
      (e before : Integration) (sha256 : String) (u : State) (files : Store)
      → get u.integrated e.work ≡ some before
      → (integrate digests pinned e sha256 u files).1 ≡ files
  unfolding integrate
  integrate-again e before sha256 u files h = ground arith

  -- Once a deliverable is integrated, its receipt stays: no sequence of operations replaces it, and
  -- another integration of it appends nothing.
  pub integration_is_final :
      initialize digests c ≡ ok store
      → HasState earlier s
      → (e before : Integration) (sha256 : String) → get s.integrated e.work ≡ some before
      → (u : State) × HasState later u
        × (get u.integrated e.work ≡ some before)
        × ((record_integration digests pinned e sha256 later).1 ≡ later)
  unfolding record_integration
  integration_is_final opens has e before sha256 done =
      let (u, h, keeps) = later_state opens has in
      let still = keeps.integrated e.work before done in
      (
        u,
        h.folded,
        still,
        transact-unchanged digests pinned (integrate digests pinned e sha256) later u h
            (integrate-again e before sha256 u later still),
      )
