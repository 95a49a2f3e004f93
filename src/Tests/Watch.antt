-- ===== src/Tests/Watch.antt =====
-- The watch of runtime/development_capacity.py, runtime/private_workflow.py and runtime/obligation.py on
-- concrete schedules.
use nortropic_runtime.Prelude.{
  ℕ, ◌≤◌, String, ◌≡◌, refl, ◌⊎◌, Bool, true, false, Option, none, some, List, [], ◌∷◌, Result, ok,
  err, str_eq, if◌then◌else◌,
}
use nortropic_runtime.Value.{
  Value, null, text, bool, list, dict, field, end, nil, cons, get_field, find_field, put_field, eq,
}
use nortropic_runtime.Gate.Recovery.{set_field}
use nortropic_runtime.Watch.Admission.{free, admit_before, admission}
use nortropic_runtime.Watch.Fits.{IsFree, admission-IsFree}
use nortropic_runtime.Watch.Assessment.{
  Role, intake, analysis, review, report, Failure, Round, is_due, run,
}
use nortropic_runtime.Watch.Chain.{IsRecorded, needs_model, is_analysed, models_as_needed}
use nortropic_runtime.Watch.Control.{
  Action, resume, pause, status, stop, Native, IsDocumented, is_stopped, operate, operate_all,
}
use nortropic_runtime.Watch.Stopped.{stop_is_lasting}

-- Observed a second ago; the next occurrence is in an hour.
abbrev parse : String → Option ℕ
parse s =
    if str_eq s "observed" then some 1000000 else if str_eq s "next" then some 3600000000 else none

abbrev observation : Value
observation = dict (
    field "obligation" (text "office-python-temporal") (
      field "paused" (bool false) (
        field "running" (list nil) (
          field "observed_at" (text "observed")
            (field "next_action_times" (list (cons (text "next") nil)) end)))))

admitted :
    admission parse observation 2000000 1800
    ≡ ok (free "Full bounded activity fits before native watch")
unfolding admission admit_before get_field find_field eq
admitted = refl

admission-IsFree_example :
    (1 ≤ 1800)
    × (1800 ≤ 3900)
    × IsFree parse 2000000 1800
        (get_field observation "running")
        (get_field observation "paused")
        (get_field observation "next_action_times")
admission-IsFree_example =
    admission-IsFree parse observation 2000000 1800
      (free "Full bounded activity fits before native watch") admitted refl

-- Every stage completes, and the intake needs a model.
abbrev perform : Role → Value → Result Failure Value
perform role outcomes =
    ok (dict (field "needs_model" (bool true) (field "completed" (bool true) end)))

abbrev last_of : Result Failure Round → Round
last_of (ok round) = round
last_of (err e) = record { outcomes = null; asked = [] }

finished : run perform ≡ ok (last_of (run perform))
unfolding run is_due set_field put_field get_field find_field
finished = refl

models_as_needed_example :
    let last = last_of (run perform) in
    IsRecorded (perform intake (dict end)) (get_field last.outcomes "intake")
    × (((needs_model last.outcomes ≡ false) × (last.asked ≡ intake ∷ report ∷ []))
        ⊎ ((needs_model last.outcomes ≡ true)
            × IsRecorded
                (perform analysis (dict (field "intake" (get_field last.outcomes "intake") end)))
                (get_field last.outcomes "analysis")
            × (((is_analysed last.outcomes ≡ false)
                  × (last.asked ≡ intake ∷ analysis ∷ report ∷ []))
                ⊎ ((is_analysed last.outcomes ≡ true)
                    × (last.asked ≡ intake ∷ analysis ∷ review ∷ report ∷ [])))))
models_as_needed_example = models_as_needed perform (last_of (run perform)) finished

-- A schedule that is its pause and its note.
abbrev native : Native (Bool × String)
native = record {
  is_paused = λ s. s.0;
  note = λ s. s.1;
  has_running = λ s. false;
  create = λ definition s. ok s;
  update = λ definition s. (true, "explicitly installed paused");
  unpause = λ note s. (false, note);
  pause_with = λ note s. (true, note);
  cancel_running = λ s. (ok tt, s);
}

documented : IsDocumented native
documented = record {
  pauses = λ note s. refl;
  notes = λ note s. refl;
  stays_paused = λ s. refl;
  keeps_note = λ s. refl;
}

abbrev later : List (Action × Value)
later = (resume, null) ∷ (pause, null) ∷ (resume, null) ∷ (status, null) ∷ []

stop_is_lasting_example :
    let s = operate_all native later (operate native stop null (false, "")).1 in
    (native.is_paused s ≡ true) × (is_stopped (native.note s) ≡ true)
stop_is_lasting_example = stop_is_lasting native documented null later (false, "") refl
