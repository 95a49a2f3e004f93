-- ===== src/Tests/Scope.antt =====
-- A scope of two deliverables in use: runtime/development_scope.py.
use nortropic_runtime.Prelude.{
  ◌≤◌, String, ◌≡◌, refl, true, none, some, List, [], ◌∷◌, length, any, count_if, arith, ok,
}
use nortropic_runtime.Prelude.Dict.{get, put, is_key}
use nortropic_runtime.Prelude.Text.{is_identifier, is_hex, has_words}
use nortropic_runtime.Value.{Value, field, end}
use nortropic_runtime.Scope.Contract.{Contract, validate_contract, check_work}
use nortropic_runtime.Scope.Journal.{
  Binding, Integration, Store, Digests, is_next, check_rows, locked, next_row, advance_head, append,
  initialize, opened, control, stopped, paused, Role,
}
use nortropic_runtime.Scope.State.{State, completed, initial, apply, count_call, apply_all, state}
use nortropic_runtime.Scope.Guards.{
  control_of, role_of, is_remaining, check_reserve, is_exhausted, check_launch,
}
use nortropic_runtime.Scope.Operations.{
  change_control, bind_task, reserve, launch_call, record_integration, publication_effect,
  permit_publication, inspect,
}
use nortropic_runtime.Scope.Invariant.{is_attempt, has_nonce, is_text}
use nortropic_runtime.Scope.Commands.{
  Command, change, bind, spend, start, integrate, publish, step, run,
}
use nortropic_runtime.Scope.Guarantees.{HasState, run_ceilings, run_spends_once}
use nortropic_runtime.Scope.Finality.{
  terminal_control_is_final, effect_runs_once, effect_result_is_final, integration_is_final,
}
use nortropic_runtime.Scope.Crash.{crash_is_final}

abbrev hex64 : String
hex64 = "0123456789abcdef0123456789abcdef0123456789abcdef0123456789abcdef"

abbrev hex40 : String
hex40 = "0123456789abcdef0123456789abcdef01234567"

abbrev contract : Contract
contract = record {
  schema = 1;
  id = "office-ap11";
  target = "Nortropic/nortropic-projektkontor";
  authority_sha256 = hex64;
  acceptance_sha256 = hex64;
  runtime_revision = hex40;
  office_revision = hex40;
  work = ("reconciliation", "tools/a.py" ∷ []) ∷ ("handoff", "tools/b.py" ∷ []) ∷ [];
  model_calls = 48;
  implementation_attempts = 6;
}

-- Digests that are easy to follow: of a row, the one before it; of an effect, its task.
abbrev digests : Digests
digests = record {
  of_contract = λ c. "contract";
  of_row = λ n previous e. previous;
  of_effect = λ t d operation. t;
  journal_bytes = λ rows. length rows;
}

-- Everything that a run of commands computes with.
machine : Unit {0}
unfolding run step change_control bind_task reserve launch_call record_integration
    publication_effect inspect permit_publication locked is_next check_rows append initialize state
    apply_all apply count_call initial validate_contract check_work is_identifier is_hex has_words
    get put control_of role_of is_remaining check_reserve is_exhausted check_launch
machine = tt

opens : initialize digests contract ≡ ok (opened digests contract)
unfolding machine
opens = refl

abbrev binding : Binding
binding = record { work = "handoff"; task = "task-1"; task_sha256 = hex64; review_sha256 = hex64 }

-- A task is bound, implemented and reviewed; one effect of its publication is recorded, another one
-- is lost; it is integrated.
abbrev script : List Command
script =
    bind binding ("tools/b.py" ∷ [])
    ∷ spend "handoff" "implementation" "call-1" (some "task-1") (some hex64)
    ∷ start "call-1" true
    ∷ change "paused" (Value.text "look")
    ∷ spend "handoff" "review" "call-2" (some "task-1") (some hex64)
    ∷ spend "handoff" "diagnosis" "call-3" none none
    ∷ publish "handoff" "task-1" hex64 (Value.text "push") (some (Value.text "pushed"))
    ∷ []

abbrev files : Store
files = run digests "contract" script (opened digests contract)

abbrev reached_state : State
reached_state = record {
  control = paused;
  calls =
      record {
        work = "handoff";
        role = Role.implementation;
        nonce = "call-1";
        task = some "task-1";
      }
      ∷ record { work = "handoff"; role = Role.review; nonce = "call-2"; task = some "task-1" }
      ∷ [];
  launches = "call-1" ∷ [];
  started = "call-1" ∷ [];
  tasks = ("task-1", binding) ∷ [];
  implementations = ("reconciliation", 0) ∷ ("handoff", 1) ∷ [];
  integrated = [];
  effects = ("task-1", completed (Value.text "pushed")) ∷ [];
}

files_state : HasState files reached_state
unfolding machine
files_state = refl

run_ceilings_example :
    (s : State) × HasState files s
    × (length s.calls ≤ 48)
    × ((w : String) → is_key contract.work w ≡ true → count_if (is_attempt w) s.calls ≤ 6)
run_ceilings_example = run_ceilings digests contract (opened digests contract) script opens

run_spends_once_example :
    (s : State) × HasState files s
    × ((n : String)
        → (count_if (has_nonce n) s.calls ≤ 1)
          × (count_if (is_text n) s.launches ≤ 1)
          × (count_if (is_text n) s.started ≤ count_if (is_text n) s.launches)
          × (any (is_text n) s.launches ≡ true → any (has_nonce n) s.calls ≡ true))
run_spends_once_example = run_spends_once digests contract (opened digests contract) script opens

abbrev stop : List Command
stop = change "stopped" (Value.text "done") ∷ []

abbrev stopped_state : State
stopped_state = record (initial contract) { control = stopped }

stop_state : HasState (run digests "contract" stop (opened digests contract)) stopped_state
unfolding machine
stop_state = refl

terminal_control_is_final_example :
    (u : State) × HasState
      (run digests "contract" script (run digests "contract" stop (opened digests contract)))
      u
    × (u.control ≡ stopped)
    × (u.calls ≡ [])
    × (u.launches ≡ [])
    × (u.tasks ≡ [])
unfolding initial
terminal_control_is_final_example =
    terminal_control_is_final digests contract (opened digests contract) stop script stopped_state
      opens stop_state refl

effect_runs_once_example :
    ((publication_effect digests "contract" "handoff" "task-1" hex64
        (Value.text "push")
        none
        (run digests "contract" stop files)).1
      ≡ run digests "contract" stop files)
    × (publication_effect digests "contract" "handoff" "task-1" hex64
          (Value.text "push")
          none
          (run digests "contract" stop files)
        ≡ publication_effect digests "contract" "handoff" "task-1" hex64
            (Value.text "push")
            (some (Value.text "pushed twice"))
            (run digests "contract" stop files))
unfolding get
effect_runs_once_example =
    effect_runs_once digests contract (opened digests contract) script stop reached_state opens
      files_state "handoff" "task-1" hex64 (Value.text "push") none
      (some (Value.text "pushed twice")) (ground arith)

later_rows : digests.journal_bytes (run digests "contract" stop files).rows ≤ 1048576
unfolding machine
later_rows = omega arith

effect_result_is_final_example :
    publication_effect digests "contract" "handoff" "task-1" hex64
      (Value.text "push")
      none
      (run digests "contract" stop files)
    ≡ (ok (Value.text "pushed"), run digests "contract" stop files)
unfolding get
effect_result_is_final_example =
    effect_result_is_final digests contract (opened digests contract) script stop reached_state
      opens files_state "handoff" "task-1" hex64 (Value.text "push") (Value.text "pushed") none refl
      refl later_rows

abbrev receipt : Value
receipt = Value.dict (field "merged" (Value.bool true) end)

abbrev integration : Integration
integration = record { work = "handoff"; task = "task-1"; receipt = receipt }

abbrev done : List Command
done = bind binding ("tools/b.py" ∷ []) ∷ integrate integration hex64 ∷ []

abbrev done_state : State
done_state = record (initial contract) {
  tasks = ("task-1", binding) ∷ [];
  integrated = ("handoff", integration) ∷ [];
}

done-HasState : HasState (run digests "contract" done (opened digests contract)) done_state
unfolding machine
done-HasState = refl

integration_is_final_example :
    (u : State) × HasState
      (run digests "contract" stop (run digests "contract" done (opened digests contract)))
      u
    × (get u.integrated "handoff" ≡ some integration)
    × ((record_integration digests "contract" integration hex64
          (run digests "contract" stop (run digests "contract" done (opened digests contract)))).1
        ≡ run digests "contract" stop (run digests "contract" done (opened digests contract)))
unfolding get
integration_is_final_example =
    integration_is_final digests contract (opened digests contract) done stop done_state opens
      done-HasState integration integration hex64 refl

crash_is_final_example :
    let event = control paused "look" in
    let crashed = advance_head (next_row digests "contract" files.rows event) files in
    run digests "contract" script crashed ≡ crashed
crash_is_final_example =
    crash_is_final digests contract (opened digests contract) script script (control paused "look")
      opens
