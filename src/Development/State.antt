-- ===== src/Development/State.antt =====
-- The fields of `FiniteDevelopment` of runtime/development_workflow.py, and the awaits of its run.
use nortropic_runtime.Prelude.{ℕ, String, Bool, false, Option, none, List, []}
use nortropic_runtime.Value.{Value, null}

-- The two works of the accepted scope.
pub data Work : Type 0 where
  reconciliation handoff : Work

-- The class: the build, or a further assessment of what it delivered.
pub data Program : Type 0 where
  development assessment : Program

pub data Phase : Type 0 where
  accepted waiting_interactive_session_end waiting_host_diagnosis waiting_capacity : Phase
  waiting_whole_goal_evidence waiting_control : Phase
  reviewing_preparation insufficient preparation_not_approved freezing_task : Phase
  verifying_preserved_delivery preserved_delivery_incomplete : Phase
  awaiting_whole_goal_review completed whole_goal_not_approved stopped : Phase
  preparing following diagnosing : Work → Phase

-- The call of `step` that run awaits, with run's local variables: the draft, its review, the task of
-- the child and its last observed state.
pub data Stage : Type 0 where
  interactive delivering concluding : Stage
  proposing : Work → Stage
  reviewing : Work → (draft : Value) → Stage
  freezing : Work → (draft review : Value) → Stage
  controlling observing : Work → (task : Value) → Stage
  recovering : Work → (task state : Value) → Stage

-- Where run is suspended: in a call of `step` at the activity, at the wait for a diagnosis, at a
-- sleep or at `host_wait`; or at the child: its start, its end, a signal to it, a diagnosis, the sleep.
-- At `raised` an exception has left run; nothing follows, and the fields stay as they were when the
-- engine last resumed run.
pub data Position : Type 0 where
  at_start at_end raised : Position
  at_activity at_diagnosis at_sleep at_host : Stage → (request : Value) → Position
  at_child_start at_child at_signal at_answer at_poll : Work → (task : Value) → Position

-- What is asked of the engine: an activity under a sequence, a child, its cancellation, a signal.
pub data Effect : Type 0 where
  execute : (sequence : ℕ) → (request : Value) → Effect
  start_child cancel_child : (task : Value) → Effect
  signal_child : (task : Value) → (name : String) → (request : Value) → Effect

-- `effects` is not a field of the class: it is what the engine has recorded.
pub record Parent : Type 0 where
  pub expected : String
  pub phase : Phase
  pub sequence : ℕ
  pub children : List Value
  pub results : List Value
  pub reason : Value
  pub continuation : Option Value
  pub continuations : List Value
  pub final : Option Value
  pub wake : Bool
  pub position : Position
  pub effects : List Effect

-- `__init__`
unfoldable pub initial : Parent
initial = record {
  expected = "";
  phase = accepted;
  sequence = 0;
  children = [];
  results = [];
  reason = null;
  continuation = none;
  continuations = [];
  final = none;
  wake = false;
  position = at_start;
  effects = [];
}

-- What the engine delivers. `returned` and `failed` end the awaited activity, child or call to a
-- child; `proceed` resumes run where the condition that it waits for holds.
pub data Event : Type 0 where
  start : String → Event
  host_state_changed : Event
  continue_after_diagnosis : Value → Event
  returned : Value → Event
  failed : String → Event
  proceed timer : Event
