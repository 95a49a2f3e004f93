-- ===== src/Scope/Guarantees.antt =====
-- What a scope of runtime/development_scope.py promises over any sequence of its operations.
use nortropic_runtime.Prelude.{
  ◌≤◌, String, ◌≡◌, subst, ◌∙◌, true, List, any, length, count_if, arith, ok, Option-cases, inl,
  inr,
}
use nortropic_runtime.Prelude.Dict.{get, is_key}
use nortropic_runtime.Scope.Contract.{Contract, validate_contract_ceilings}
use nortropic_runtime.Scope.Journal.{Store, Digests, initialize}
use nortropic_runtime.Scope.State.{State, initial, state}
use nortropic_runtime.Scope.Invariant.{is_attempt, has_nonce, is_text, Inv}
use nortropic_runtime.Scope.Soundness.{IsSoundAt}
use nortropic_runtime.Scope.Commands.{Command, run, run-Leads, initialize-IsSoundAt}

-- The state that the journal of a store adds up to.
abbrev pub HasState : Store → State → Type 0
HasState store s = state store.contract store.rows ≡ ok s

module _ (digests : Digests) (c : Contract) (store : Store) (cs : List Command) where
  abbrev pub after : Store
  after = run digests (digests.of_contract c) cs store

  pub reached :
      initialize digests c ≡ ok store
      → (s : State) × IsSoundAt digests (digests.of_contract c) after s × (after.contract ≡ c)
  reached opens =
      let (sound, same, valid) = initialize-IsSoundAt digests c store opens in
      let (s, h, moves, keeps) =
        run-Leads digests (digests.of_contract c) cs store (initial c) sound in
      (s, h, keeps ∙ same)

  attempts_le :
      (s : State)
      → Inv c s
      → (w : String) → is_key c.work w ≡ true
      → count_if (is_attempt w) s.calls ≤ c.implementation_attempts
  attempts_le s inv w key = elim (Option-cases (get s.implementations w)) [
    | inl e ↦ absurd (ground (arith, inv.counts.known_work w))
    | inr (n, e) ↦ omega (arith, inv.counts.counted w n e, inv.counts.attempts_bound w n e)
  ]

  -- Whatever operations run on a new scope, with any arguments and outcomes, the journal adds up to
  -- a state with at most 48 model calls in all and at most 6 implementation calls for each of the
  -- accepted deliverables.
  pub run_ceilings :
      initialize digests c ≡ ok store
      → (s : State) × HasState after s
        × (length s.calls ≤ 48)
        × ((w : String) → is_key c.work w ≡ true → count_if (is_attempt w) s.calls ≤ 6)
  run_ceilings opens =
      let (s, h, same) = reached opens in
      let (_, _, valid) = initialize-IsSoundAt digests c store opens in
      let (calls, attempts, _) = validate_contract_ceilings c valid in
      let inv = subst (λ k. Inv k s) same h.inv in
      (
        s,
        h.folded,
        omega (arith, inv.counts.calls_bound),
        λ w key. omega (arith, attempts_le s inv w key),
      )

  -- Whatever operations run on a new scope, each nonce is reserved at most once, launched at most
  -- once, reported as started no more often than launched, and launched only where it is reserved.
  pub run_spends_once :
      initialize digests c ≡ ok store
      → (s : State) × HasState after s
        × ((n : String)
            → (count_if (has_nonce n) s.calls ≤ 1)
              × (count_if (is_text n) s.launches ≤ 1)
              × (count_if (is_text n) s.started ≤ count_if (is_text n) s.launches)
              × (any (is_text n) s.launches ≡ true → any (has_nonce n) s.calls ≡ true))
  run_spends_once opens =
      let (s, h, _) = reached opens in
      (
        s,
        h.folded,
        λ n. (
          h.inv.spent.reserved_once n,
          h.inv.spent.launched_once n,
          h.inv.spent.started_launched n,
          h.inv.spent.launched_reserved n,
        ),
      )
