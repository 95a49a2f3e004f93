-- ===== src/Scope/State.antt =====
-- `Scope.state` of runtime/development_scope.py: the state that the journal's events add up to.
use nortropic_runtime.Prelude.{
  ℕ, ◌+◌, String, ◌≡◌, refl, none, some, List, [], ◌∷◌, ◌++◌, Result, ok, err, ◌>>=◌,
}
use nortropic_runtime.Prelude.Dict.{Dict, get, put}
use nortropic_runtime.Value.{Value}
use nortropic_runtime.Scope.Contract.{Error, key_error, Contract}
use nortropic_runtime.Scope.Journal.{
  Control, active, implementation, Call, Binding, Integration, Event, control, task, call, launch,
  started, integrated, effect_start, effect_result, Row,
}

-- The last event of one effect.
pub data Effect : Type 0 where
  begun : Effect
  completed : Value → Effect

pub record State : Type 0 where
  pub control : Control
  pub calls : List Call
  pub launches : List String
  pub started : List String
  pub tasks : Dict Binding
  pub implementations : Dict ℕ
  pub integrated : Dict Integration
  pub effects : Dict Effect

-- `{key: 0 for key in contract['work']}`
abbrev pub zeros : Dict (List String) → Dict ℕ
zeros [] = []
zeros ((k, _) ∷ work) = (k, 0) ∷ zeros work

unfoldable pub initial : Contract → State
initial c = record {
  control = active;
  calls = [];
  launches = [];
  started = [];
  tasks = [];
  implementations = zeros c.work;
  integrated = [];
  effects = [];
}

-- `result['implementations'][e['work']] += 1`, for an implementation call alone.
unfoldable pub count_call : Call → Dict ℕ → Result Error (Dict ℕ)
count_call e counts = elim e.role [
  | implementation ↦ elim (get counts e.work) [
    | none ↦ err (key_error e.work)
    | some n ↦ ok (put counts e.work (n + 1))
  ]
  | _ ↦ ok counts
]

-- The body of the loop, one clause to a kind of event.
unfoldable pub apply : State → Event → Result Error State
apply s (control value reason) = ok (record s { control = value })
apply s (task e) = ok (record s { tasks = put s.tasks e.task e })
apply s (call e) = count_call e s.implementations >>= λ counts.
    ok (record s { calls = s.calls ++ e ∷ []; implementations = counts })
apply s (launch nonce) = ok (record s { launches = s.launches ++ nonce ∷ [] })
apply s (started nonce) = ok (record s { started = s.started ++ nonce ∷ [] })
apply s (integrated e) = ok (record s { integrated = put s.integrated e.work e })
apply s (effect_start identity _ _ _) = ok (record s { effects = put s.effects identity begun })
apply s (effect_result identity _ _ result) =
    ok (record s { effects = put s.effects identity (completed result) })

unfoldable pub apply_all : State → List Row → Result Error State
apply_all s [] = ok s
apply_all s (row ∷ rows) = apply s row.event >>= λ s'. apply_all s' rows

unfoldable pub state : Contract → List Row → Result Error State
state c rows = apply_all (initial c) rows

apply_all-snoc :
    (s : State) (rows : List Row) (row : Row)
    → apply_all s (rows ++ row ∷ []) ≡ (apply_all s rows >>= λ s'. apply s' row.event)
unfolding apply_all
apply_all-snoc s [] row = elim (apply s row.event) as (λ r. (r >>= λ s'. ok s') ≡ r) [
  | ok _ ↦ refl
  | err _ ↦ refl
]
apply_all-snoc s (first ∷ rows) row =
    elim (apply s first.event)
      as (λ r.
        (r >>= λ s'. apply_all s' (rows ++ row ∷ []))
        ≡ ((r >>= λ s'. apply_all s' rows) >>= λ s'. apply s' row.event)) [
          | ok s' ↦ apply_all-snoc s' rows row
          | err _ ↦ refl
        ]

-- One more event is one more step from the state before it.
pub state-snoc :
    (c : Contract) (rows : List Row) (row : Row) {s : State}
    → state c rows ≡ ok s
    → state c (rows ++ row ∷ []) ≡ apply s row.event
unfolding state
state-snoc c rows row h = rw (apply_all-snoc, h)
