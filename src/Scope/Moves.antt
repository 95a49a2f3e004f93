-- ===== src/Scope/Moves.antt =====
-- The abstract specification of runtime/development_scope.py: which events may follow which state.
-- The operations, hash chain and files included, only take such moves (Scope/Soundness).
use nortropic_runtime.Prelude.{
  ◌<◌, String, ◌≡◌, true, false, Option, none, some, count_if, arith, ok,
}
use nortropic_runtime.Prelude.Dict.{get, is_key}
use nortropic_runtime.Value.{Value}
use nortropic_runtime.Scope.Contract.{Contract}
use nortropic_runtime.Scope.Journal.{
  Control, Call, Binding, Integration, Event, control, call, launch, started, integrated,
  effect_start, effect_result, task,
}
use nortropic_runtime.Scope.State.{State, begun, apply}
use nortropic_runtime.Scope.Guards.{
  is_terminal, is_active, is_open, check_reserve, is_exhausted, check_launch,
}
use nortropic_runtime.Scope.Invariant.{
  is_text, Inv, Keeps, launched, control-Keeps, task-Keeps, integrated-Keeps, effect_start-Keeps,
  effect_result-Keeps, launch_keeps, started-Keeps,
}
use nortropic_runtime.Scope.Reserved.{call-Keeps, check_launch_facts}

pub data Move (c : Contract) (s : State) : Event → Type 0 where
  change :
      (v : Control) (reason : String) → is_terminal s.control ≡ false → Move c s (control v reason)
  bind :
      (b : Binding)
      → is_active s.control ≡ true
      → is_key c.work b.work ≡ true
      → is_key s.tasks b.task ≡ false
      → Move c s (task b)
  reserve :
      (e : Call) (sha256 : Option String)
      → check_reserve e sha256 s c ≡ ok tt
      → is_exhausted e s c ≡ ok false
      → Move c s (call e)
  begin_launch : (n : String) → check_launch n s ≡ ok tt → Move c s (launch n)
  report_start :
      (n : String)
      → count_if (is_text n) s.started < count_if (is_text n) s.launches
      → Move c s (started n)
  integrate : (e : Integration) → get s.integrated e.work ≡ none → Move c s (integrated e)
  begin_effect :
      (i w t : String) (operation : Value)
      → get s.effects i ≡ none
      → is_open s.control ≡ true
      → is_key s.integrated w ≡ false
      → Move c s (effect_start i w t operation)
  end_effect :
      (i w t : String) (result : Value)
      → get s.effects i ≡ some begun
      → Move c s (effect_result i w t result)

-- A run of moves.
pub data Moves (c : Contract) (s : State) : State → Type 0 where
  here : Moves c s s
  next : {t u : State} (e : Event) → Moves c s t → Move c t e → apply t e ≡ ok u → Moves c s u

pub move-Keeps : (c : Contract) (s : State) {e : Event} → Inv c s → Move c s e → Keeps c s e
unfolding apply
move-Keeps c s inv (change v reason h) = control-Keeps c s inv v reason
move-Keeps c s inv (bind b _ h _) = task-Keeps c s inv b h
move-Keeps c s inv (reserve e sha256 passes left) = call-Keeps c s inv e sha256 passes left
move-Keeps c s inv (begin_launch n h) =
    let (reserved, fresh) = check_launch_facts n s h in
    (launched s n, ground arith, launch_keeps c s inv n reserved fresh)
move-Keeps c s inv (report_start n h) = started-Keeps c s inv n h
move-Keeps c s inv (integrate e h) = integrated-Keeps c s inv e
move-Keeps c s inv (begin_effect i w t v _ _ _) = effect_start-Keeps c s inv i w t v
move-Keeps c s inv (end_effect i w t v _) = effect_result-Keeps c s inv i w t v

-- A property of two states that no move breaks holds along a run.
pub Moves-induction :
    (c : Contract) (P : State → Type 0)
    → ((s u : State) (e : Event) → Move c s e → apply s e ≡ ok u → P s → P u)
    → {s t : State} → Moves c s t
    → P s
    → P t
Moves-induction c P keeps here p = p
Moves-induction c P keeps (next {t} e m move steps) p =
    keeps t _ e move steps (Moves-induction c P keeps m p)

pub Moves-trans : (c : Contract) {s t u : State} → Moves c s t → Moves c t u → Moves c s u
Moves-trans c m here = m
Moves-trans c m (next e r move steps) = next e (Moves-trans c m r) move steps
