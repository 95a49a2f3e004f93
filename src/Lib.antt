-- ===== src/Lib.antt =====
-- Nortropic Runtime: the decisions of the host that lets models work on accepted tasks.
--
-- A task is accepted once, with its base commit, its steps and its limits. The host runs the steps,
-- collects test evidence and an independent review, and publishes the candidate when the gate lets it
-- through. Calls of models within a finite development are reserved first, in a journal that only
-- grows.
--
--   Prelude     lists, texts, results and dictionaries as Python has them, over the native numbers
--   Value       the values read from JSON, `==` and `get` on them
--   Scope       runtime/development_scope.py: Contract is validate_contract, Journal is initialize,
--               locked and append, State is state, Guards and Operations are the methods of Scope.
--               Moves is the abstract account of what one journal row may change, and Soundness shows
--               that every method makes such a move or none. Commands runs sequences of methods;
--               Guarantees, Finality and Crash are about those sequences
--   Gate        runtime/integration.py and runtime/review.py: Verdict is verdict with validated and
--               claude_response, Terminal what it rests on; Require is require_gate, Recovery is
--               recovery_kind, Guards, Passed and Approval say what their answers establish
--   Task        runtime/task.py, runtime/revision.py and runtime/development_binding.py: Validate is
--               validate, Revision is require_revision, both as the test whether they return; Budget
--               is the seconds of one review, Activity the time of an activity, also in
--               runtime/workflow.py, Bounds relates the two, Binding is for_task on the active
--               configuration
--   Workflow    runtime/workflow.py: State is the fields of DevelopmentTask and the awaits of its run,
--               Signals its four signal handlers, Requests what it asks of the activities, Steps and
--               Run the code between two awaits. The engine's events come one at a time; a signal's
--               handler and the main coroutine are separate events, so that all their orders occur
--   Ledger      runtime/failure_ledger.py: Cases is clean_cases, Records reads the records back, Operations
--               begins and finishes runs, Classify and Observation and Host are classify, consume and
--               require_host. History runs sequences of them; Growth, Permanent, Limits and Bounds are
--               about those sequences
--   Publisher   class Publisher of runtime/integration.py: Remote is what it asks, Inspect is
--               inspect_candidate, Server is require_protection, require_checks, require_base and
--               reconcile, Publish is _publish. An answer may depend on every request before it. Where
--               the code would call get on an answer that is not a dictionary, the model reads an empty
--               one: the call ends with an exception either way. str() of what is neither a text nor a
--               whole number is a parameter. Returns, Checks and
--               Protection say what the looks have seen; Traces, Quiet, Merge and Safety are about the
--               sequence of requests
--   Development runtime/development_workflow.py: State is the fields of FiniteDevelopment, the awaits of its
--               run and what it asks of the engine, Steps the code between two calls of step, Run the
--               loop of step, the signals and the events. FiniteAssessment is the same machine with
--               another first step. Keys, Keyed and Unique are about the keys of the steps, Works and
--               Complete about the two works, Assessing about the assessment
--   Choice      runtime/development_model.py and scripts/model_choice.py: Selection is executors, models,
--               efforts and watch, Apply is triple, apply_choice, only_choice_differs and choice_of, Only
--               says what apply_choice leaves as it was. str() of what is neither a text nor a
--               dictionary is a parameter; the texts of triple's exceptions leave out the option's name
--   Watch       Admission is admission of runtime/development_capacity.py, Control is operate of
--               runtime/obligation.py, Assessment is the run of PrivateAssessment in
--               runtime/private_workflow.py; Fits, Stopped and Chain are about them. The reading of a
--               text as an instant, the native schedule and the stages are parameters
--   Decisions   runtime/decision_guard.py: Retained is retained, Order what it decides
--   Tests       concrete inputs, and the theorems applied to them
--
-- Stored files are records that an operation takes and returns; where it raises, the files come back
-- beside the exception, as it left them. The host's file lock admits one operation at a time, so an
-- execution is a sequence of operations, and a crash is a state between two writes of `append`.
--
-- Parameters: the digests (SHA-256 over canonical JSON, of the contract, of a journal row, of a remote
-- operation and of a task) and the length in bytes of the journal. No theorem assumes that the digests
-- differ where their inputs do.
--
-- Fuel is used for the decimal digits of a number alone, which takes the number itself. Every other
-- loop of the modelled code runs over a finite list, or is a sequence of the engine's events.
--
-- Not modelled: fractional numbers in JSON, which the evidence of the gate does not have; file
-- permissions, symbolic links, Git, GitHub and the processes of the models; the engine's time limits.
-- Where the code of the workflow raises on a key that a validated task or an activity's result has,
-- the model stops at a position of its own, and where the handler of a revision raises an exception
-- that it does not catch, the model refuses the signal.
pub mod Prelude
pub mod Value
pub mod Scope
pub mod Gate
pub mod Task
pub mod Workflow
pub mod Ledger
pub mod Publisher
pub mod Development
pub mod Choice
pub mod Watch
pub mod Decisions
pub mod Tests
