-- ===== src/Tests/Development.antt =====
-- Runs of the workflows of runtime/development_workflow.py.
use nortropic_runtime.Prelude.{ℕ, String, ◌≡◌, refl, inr, true, some, List, [], ◌∷◌, length}
use nortropic_runtime.Prelude.Text.{has_words}
use nortropic_runtime.Value.{Value, text, bool, dict, field, end, get_field, find_field, is_true}
use nortropic_runtime.Value.{eq}
use nortropic_runtime.Workflow.Requests.{fetch, ◌>>=◌}
use nortropic_runtime.Development.State.{
  development, assessment, completed, execute, initial, Event, start, returned, failed, proceed,
  timer, continue_after_diagnosis,
}
use nortropic_runtime.Development.Steps
use nortropic_runtime.Development.Run
use nortropic_runtime.Development.Unique.{one_request_for_a_key}
use nortropic_runtime.Development.Complete.{completed_has_both_works}
use nortropic_runtime.Development.Assessing.{IsReview, run-IsReview}

abbrev flag : String → Value
flag name = dict (field name (bool true) end)

abbrev draft : Value
draft = dict (field "goal" (text "one page") end)

abbrev approved : Value
approved = dict (field "approved" (bool true) (field "review" (text "fine") end))

abbrev task : Value
task = dict (field "id" (text "task-1") end)

abbrev frozen : Value
frozen = dict (field "task" task end)

abbrev running : Value
running = dict (field "control" (text "active") end)

abbrev observed : Value
observed = dict (field "child" (dict (field "phase" (text "completed") end)) end)

-- One work, from the review of its draft to the child's result.
abbrev work : List Event → List Event
work rest =
    returned approved
    ∷ returned frozen
    ∷ returned task
    ∷ returned running
    ∷ returned observed
    ∷ returned (text "done")
    ∷ rest

abbrev capacity : Value
capacity = dict (field "capacity_wait" (bool true) (field "reason" (text "full") end))

abbrev both : List Event
both =
    start "contract"
    ∷ returned draft
    ∷ work (returned draft ∷ work (returned (flag "whole_goal_complete") ∷ []))

both_complete : (Run.run development "office-ap11" both initial).phase ≡ completed
unfolding Run.run initial get_field find_field fetch ◌>>=◌ eq
both_complete = refl

completed_has_both_works_example :
    let p = Run.run development "office-ap11" both initial in
    (length p.results ≡ 2)
    × (length p.children ≡ 2)
    × ((f : Value) × (p.final ≡ some f) × (is_true (get_field f "whole_goal_complete") ≡ true))
completed_has_both_works_example = completed_has_both_works "office-ap11" both both_complete

-- No capacity at first: the same activity is executed again.
abbrev waited : List Event
waited = start "contract" ∷ returned capacity ∷ timer ∷ []

abbrev first_request : Value
first_request = dict (
    field "contract_sha256" (text "contract") (
      field "operation" (text "preserved-delivery")
        (field "key" (text (Steps.key_of "ap12" 1)) end)))

asked_twice :
    (Run.run assessment "ap12" waited initial).effects
    ≡ execute 1 first_request ∷ execute 1 first_request ∷ []
unfolding Run.run initial get_field find_field fetch ◌>>=◌ eq
asked_twice = refl

one_request_for_a_key_example :
    (◌≡◌ {A = ℕ} 1 1)
    × (first_request ≡ first_request)
    × (get_field first_request "key" ≡ text (Steps.key_of "ap12" 1))
one_request_for_a_key_example =
    one_request_for_a_key assessment "ap12" waited 1 1 first_request first_request
      ([], execute 1 first_request ∷ [], asked_twice)
      (execute 1 first_request ∷ [], [], asked_twice) (inr refl)

run-IsReview_example : IsReview (execute 1 first_request)
run-IsReview_example =
    run-IsReview "ap12" waited [] (execute 1 first_request) (execute 1 first_request ∷ [])
      asked_twice

-- The key that a failed activity is asked again under is a new one.
asked_anew :
    (Run.run development "office-ap11"
      (start "contract"
        ∷ failed "lost"
        ∷ continue_after_diagnosis (text "look again")
        ∷ proceed
        ∷ [])
      initial).sequence
    ≡ 2
unfolding Run.run initial has_words
asked_anew = refl
