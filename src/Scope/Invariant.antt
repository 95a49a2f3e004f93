-- ===== src/Scope/Invariant.antt =====
-- What holds of the state that a journal of runtime/development_scope.py adds up to, and that each
-- kind of event which an operation appends keeps it.
use nortropic_runtime.Prelude.{
  ℕ, ◌≤◌, ◌<◌, String, ◌≡◌, refl, Bool, true, false, none, some, List, [], ◌∷◌, ◌++◌, ◌&&◌, any,
  length, any-append, count_if, count_if-append, count_if-of_any, arith, str_eq, eq_iff, ok,
  if◌then◌else◌,
}
use nortropic_runtime.Prelude.Dict.{Dict, get, put, is_key, get-put}
use nortropic_runtime.Scope.Contract.{Contract}
use nortropic_runtime.Scope.Journal.{
  Control, Call, Binding, Integration, Event, control, task, started, integrated, effect_start,
  effect_result,
}
use nortropic_runtime.Value.{Value}
use nortropic_runtime.Scope.State.{begun, completed, State, zeros, initial, apply}
use nortropic_runtime.Scope.Guards.{is_implementation}

-- An implementation call for that deliverable.
abbrev pub is_attempt : String → Call → Bool
is_attempt w e = is_implementation e.role && str_eq e.work w

abbrev pub has_nonce : String → Call → Bool
has_nonce n e = str_eq e.nonce n

abbrev pub is_text : String → String → Bool
is_text n m = str_eq m n

-- The ceilings: `implementations` counts the implementation calls of each deliverable.
pub record IsCounted (c : Contract) (calls : List Call) (counts : Dict ℕ) : Type 0 where
  pub known_work : (w : String) → is_key counts w ≡ is_key c.work w
  pub calls_bound : length calls ≤ c.model_calls
  pub counted : (w : String) (n : ℕ) → get counts w ≡ some n → n ≡ count_if (is_attempt w) calls
  pub attempts_bound : (w : String) (n : ℕ) → get counts w ≡ some n → n ≤ c.implementation_attempts

-- A nonce is reserved once, launched once and only where it is reserved, and started only then.
pub record IsSpent (calls : List Call) (launches started : List String) : Type 0 where
  pub reserved_once : (n : String) → count_if (has_nonce n) calls ≤ 1
  pub launched_once : (n : String) → count_if (is_text n) launches ≤ 1
  pub launched_reserved :
      (n : String) → any (is_text n) launches ≡ true → any (has_nonce n) calls ≡ true
  pub started_launched : (n : String) → count_if (is_text n) started ≤ count_if (is_text n) launches

-- Every bound task is of an accepted deliverable.
abbrev pub IsKnown : Contract → Dict Binding → Type 0
IsKnown c tasks = (t : String) (b : Binding) → get tasks t ≡ some b → is_key c.work b.work ≡ true

pub record Inv (c : Contract) (s : State) : Type 0 where
  pub counts : IsCounted c s.calls s.implementations
  pub spent : IsSpent s.calls s.launches s.started
  pub known : IsKnown c s.tasks

get-zeros :
    (work : Dict (List String)) (w : String)
    → get (zeros work) w ≡ (if is_key work w then some 0 else none)
unfolding get
get-zeros [] w = refl
get-zeros ((k, _) ∷ work) w = ground (arith, get-zeros work w)

pub initial-Inv : (c : Contract) → Inv c (initial c)
unfolding initial get
initial-Inv c = record {
  counts = record {
    known_work = λ w. ground (arith, get-zeros c.work w);
    calls_bound = omega arith;
    counted = λ w n h. ground (arith, get-zeros c.work w);
    attempts_bound = λ w n h. ground (arith, get-zeros c.work w);
  };
  spent = record {
    reserved_once = λ n. omega arith;
    launched_once = λ n. omega arith;
    launched_reserved = λ n h. cc;
    started_launched = λ n. omega arith;
  };
  known = λ t b h. cc;
}

-- The state after an event, where the loop of `state` gets through it with the invariant kept.
abbrev pub Keeps : Contract → State → Event → Type 0
Keeps c s e = (s' : State) × (apply s e ≡ ok s') × Inv c s'

-- The state after a row that records a launch.
abbrev pub launched : State → String → State
launched s n = record s { launches = s.launches ++ n ∷ [] }

module _ (c : Contract) (s : State) (inv : Inv c s) where
  pub control-Keeps : (v : Control) (reason : String) → Keeps c s (control v reason)
  unfolding apply
  control-Keeps v reason = (
    record s { control = v },
    refl,
    record { counts = inv.counts; spent = inv.spent; known = inv.known },
  )

  pub task-Keeps : (b : Binding) → is_key c.work b.work ≡ true → Keeps c s (task b)
  unfolding apply
  task-Keeps b h = (
    record s { tasks = put s.tasks b.task b },
    refl,
    record {
      counts = inv.counts;
      spent = inv.spent;
      known = λ t b' e. ground (arith, get-put s.tasks b.task t b, inv.known t b');
    },
  )

  pub integrated-Keeps : (e : Integration) → Keeps c s (integrated e)
  unfolding apply
  integrated-Keeps e = (
    record s { integrated = put s.integrated e.work e },
    refl,
    record { counts = inv.counts; spent = inv.spent; known = inv.known },
  )

  pub effect_start-Keeps : (i w t : String) (v : Value) → Keeps c s (effect_start i w t v)
  unfolding apply
  effect_start-Keeps i w t v = (
    record s { effects = put s.effects i begun },
    refl,
    record { counts = inv.counts; spent = inv.spent; known = inv.known },
  )

  pub effect_result-Keeps : (i w t : String) (v : Value) → Keeps c s (effect_result i w t v)
  unfolding apply
  effect_result-Keeps i w t v = (
    record s { effects = put s.effects i (completed v) },
    refl,
    record { counts = inv.counts; spent = inv.spent; known = inv.known },
  )

  pub launch_keeps :
      (n : String)
      → any (has_nonce n) s.calls ≡ true
      → any (is_text n) s.launches ≡ false
      → Inv c (launched s n)
  launch_keeps n reserved fresh = record {
    counts = inv.counts;
    spent = record {
      reserved_once = inv.spent.reserved_once;
      launched_once = λ m. ground (
        arith,
        count_if-append (is_text m) s.launches (n ∷ []),
        count_if-of_any (is_text n) s.launches,
        eq_iff n m,
        inv.spent.launched_once m,
      );
      launched_reserved = λ m h. ground (
        arith,
        any-append (is_text m) s.launches (n ∷ []),
        eq_iff n m,
        inv.spent.launched_reserved m,
      );
      started_launched = λ m.
          omega
            (arith, count_if-append (is_text m) s.launches (n ∷ []), inv.spent.started_launched m);
    };
    known = inv.known;
  }

  pub started-Keeps :
      (n : String)
      → count_if (is_text n) s.started < count_if (is_text n) s.launches
      → Keeps c s (started n)
  unfolding apply
  started-Keeps n h = (
    record s { started = s.started ++ n ∷ [] },
    refl,
    record {
      counts = inv.counts;
      spent = record {
        reserved_once = inv.spent.reserved_once;
        launched_once = inv.spent.launched_once;
        launched_reserved = inv.spent.launched_reserved;
        started_launched = λ m. ground (
          arith,
          count_if-append (is_text m) s.started (n ∷ []),
          eq_iff n m,
          inv.spent.started_launched m,
        );
      };
      known = inv.known;
    },
  )
