-- ===== src/Scope/Soundness/Publication.antt =====
-- `record_integration` and `publication_effect` of runtime/development_scope.py take only moves.
use nortropic_runtime.Prelude.{
  String, refl, Option, none, some, ◌&&◌, not, arith, eq_iff, Bool-cases, Option-cases, inl, inr,
}
use nortropic_runtime.Prelude.Dict.{get, put, is_key, get-put}
use nortropic_runtime.Value.{Value, is_dict, is_truthy}
use nortropic_runtime.Scope.Journal.{
  Integration, Event, integrated, effect_start, effect_result, Store, Digests, append,
}
use nortropic_runtime.Scope.State.{State, begun, completed, apply}
use nortropic_runtime.Scope.Guards.{is_open, is_bound}
use nortropic_runtime.Scope.Operations.{
  integrate, record_integration, run_effect, effect_locked, publication_effect,
}
use nortropic_runtime.Scope.Moves
use nortropic_runtime.Scope.Moves.{Move, here, next}
use nortropic_runtime.Scope.Soundness.{
  IsSoundAt, Leads, append-IsSoundAt, append-Leads, transact-Leads,
}

module _ (digests : Digests) (expected : String) (store : Store) (s : State)
    (h : IsSoundAt digests expected store s) where
  -- Nothing is appended.
  stay : Leads digests expected s store
  stay = (s, h, here)

  -- One event is appended.
  move :
      (e : Event)
      → Move store.contract s e
      → Leads digests expected s (append digests expected e store)
  move e m = append-Leads digests expected e store s s h here m

  integrate-Leads :
      (e : Integration) (sha256 : String)
      → Leads digests expected s (integrate digests expected e sha256 s store).1
  unfolding integrate
  integrate-Leads e sha256 =
      elim (Bool-cases (
        is_bound s (some e.task) e.work (some sha256)
        && is_dict e.receipt
        && is_truthy e.receipt)) [
          | inl b ↦
              rw (b, integrate)
                (elim (Option-cases (get s.integrated e.work)) [
                  | inl g ↦ rw (g, integrate) (move (integrated e) (Moves.integrate e g))
                  | inr (before, g) ↦ rw (g, integrate) stay
                ])
          | inr b ↦ rw (b, integrate) stay
        ]

  pub record_integration-Leads :
      (e : Integration) (sha256 : String)
      → Leads digests expected s (record_integration digests expected e sha256 store).1
  unfolding record_integration
  record_integration-Leads e sha256 =
      transact-Leads digests expected (integrate digests expected e sha256) store s h
        (integrate-Leads e sha256)

  run_effect-Leads :
      (i w t : String) (operation : Value) (response : Option Value)
      → Move store.contract s (effect_start i w t operation)
      → Leads digests expected s (run_effect digests expected i w t operation response store).1
  unfolding run_effect
  run_effect-Leads i w t operation none m = move (effect_start i w t operation) m
  run_effect-Leads i w t operation (some result) m =
      let s' = record s { effects = put s.effects i begun } in
      append-Leads digests expected (effect_result i w t result)
        (append digests expected (effect_start i w t operation) store) s s'
        (append-IsSoundAt digests expected (effect_start i w t operation) store s s' h m
          (unfold apply in refl))
        (unfold append apply in next (effect_start i w t operation) here m refl)
        (unfold append in
          Moves.end_effect i w t result (ground (arith, get-put s.effects i i begun, eq_iff i i)))

  effect_locked-Leads :
      (w t sha256 : String) (operation : Value) (response : Option Value)
      → Leads digests expected s
          (effect_locked digests expected w t sha256 operation response s store).1
  unfolding effect_locked
  effect_locked-Leads w t sha256 operation response =
      let i = digests.of_effect t sha256 operation in
      elim (Bool-cases (is_bound s (some t) w (some sha256))) [
        | inl b ↦
            rw (b, effect_locked)
              (elim (Option-cases (get s.effects i)) [
                | inl g ↦
                    rw (g, effect_locked)
                      (elim (Bool-cases (is_open s.control && not (is_key s.integrated w))) [
                        | inl o ↦ rw o (
                            run_effect-Leads i w t operation response
                              (Moves.begin_effect i w t operation g (ground arith) (ground arith)))
                        | inr o ↦ rw o stay
                      ])
                | inr (completed _, g) ↦ rw (g, effect_locked) stay
                | inr (begun, g) ↦ rw (g, effect_locked) stay
              ])
        | inr b ↦ rw (b, effect_locked) stay
      ]

  pub publication_effect-Leads :
      (w t sha256 : String) (operation : Value) (response : Option Value)
      → Leads digests expected s
          (publication_effect digests expected w t sha256 operation response store).1
  unfolding publication_effect
  publication_effect-Leads w t sha256 operation response =
      transact-Leads digests expected (effect_locked digests expected w t sha256 operation response)
        store s h (effect_locked-Leads w t sha256 operation response)
