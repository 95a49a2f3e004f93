-- ===== src/Workflow/State.antt =====
-- The fields of `DevelopmentTask`, and where its `run` is suspended.
use nortropic_runtime.Prelude.{ℕ, String, Option, none, List, []}
use nortropic_runtime.Value.{Value, null}
use nortropic_runtime.Gate.Require.{GateClosed}
use nortropic_runtime.Gate.Recovery.{Kind}

-- `phase`; the provider of a running step is part of the text.
pub data Phase : Type 0 where
  accepted waiting_access waiting_diagnosis reviewing waiting_review publishing : Phase
  waiting_publication_reconciliation waiting_capacity completed : Phase
  running : String → Phase

-- `waiting_reason`: nothing, a value, or the message of the gate's exception.
pub data Reason : Type 0 where
  no_reason : Reason
  given : Value → Reason
  gate : GateClosed → Reason

-- One entry of `reviews`.
pub record Review : Type 0 where
  pub subject : Value
  pub tests : Value
  pub result : Value

-- The local variables of a round of review: the last result, and what is made from it.
pub record Round : Type 0 where
  pub latest : Value
  pub request : Value
  pub subject : Value
  pub tests : Value

-- The local variables of a repair.
pub record Repair : Type 0 where
  pub round : Round
  pub step : Value
  pub prompt : String
  pub continuation : Value

-- The await at which `run` is suspended. At `raised` the code has raised on a value that a validated
-- task or an activity's result does not have; the engine repeats that and nothing follows.
pub data Position : Type 0 where
  at_start at_end raised : Position
  at_access at_diagnosis : ℕ → Position
  at_execution : ℕ → Value → Position
  at_review at_decision : Round → Position
  at_repair : Repair → Value → Position
  at_repair_diagnosis : Repair → Position
  at_publication at_reconciliation : Value → Position

pub record Task : Type 0 where
  pub phase : Phase
  pub attempts : ℕ
  pub results : List Value
  pub waiting_reason : Reason
  pub retry_request : Option Value
  pub review : Value
  pub integration : Value
  pub reconciliation : Option Value
  pub publication_attempts : ℕ
  pub access_request : Option Value
  pub accepted_task : Value
  pub step_index : ℕ
  pub continuations : List Value
  pub reviews : List Review
  pub review_request : Option Value
  pub review_subject : Option Value
  pub review_recovery : Option Kind
  pub review_continuations : List Value
  pub completed_steps : List ℕ
  pub step_count : ℕ
  pub position : Position
  pub sleeping : Option Phase

-- `__init__`
unfoldable pub initial : Task
initial = record {
  phase = accepted;
  attempts = 0;
  results = [];
  waiting_reason = no_reason;
  retry_request = none;
  review = null;
  integration = null;
  reconciliation = none;
  publication_attempts = 0;
  access_request = none;
  accepted_task = null;
  step_index = 0;
  continuations = [];
  reviews = [];
  review_request = none;
  review_subject = none;
  review_recovery = none;
  review_continuations = [];
  completed_steps = [];
  step_count = 0;
  position = at_start;
  sleeping = none;
}

-- What the engine delivers. `proceed` resumes `run` where the condition that it waits for holds; the
-- handlers of signals that arrived together all run before it.
pub data Event : Type 0 where
  start retry reconcile continue resume returned : Value → Event
  failed : String → Event
  proceed timer : Event
