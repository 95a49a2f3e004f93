-- ===== src/Tests/Choice.antt =====
-- The choice of scripts/model_choice.py on one configuration.
use nortropic_runtime.Prelude.{String, ◌≡◌, refl, true, Result, ok, err}
use nortropic_runtime.Prelude.Text.{split_when}
use nortropic_runtime.Value.{
  Value, null, text, dict, field, end, get_field, find_field, put_field, is_dict, eq,
}
use nortropic_runtime.Gate.Recovery.{set_field}
use nortropic_runtime.Task.Validate.{has_field}
use nortropic_runtime.Choice.Selection.{executors}
use nortropic_runtime.Choice.Apply.{
  Refusal, strip, aside, only_choice_differs, remove_field, pop, triple, apply_runtime,
  apply_choice,
}
use nortropic_runtime.Choice.Only.{apply_choice-only_choice_differs}

abbrev str : Value → String
str v = ""

abbrev config : Value
config = dict (
    field "files" (dict end)
      (field "development" (dict (field "scope" (text "s") (field "models" (dict end) end))) end))

-- One triple for every role.
abbrev requested : Value
requested = dict (field "runtime" (text "claude/claude-opus-5/high") end)

abbrev value_of : Result Refusal Value → Value
value_of (ok v) = v
value_of (err e) = null

abbrev applied : Value
applied = value_of (apply_choice str config requested)

applies : apply_choice str config requested ≡ ok applied
unfolding apply_choice apply_runtime triple split_when set_field put_field get_field find_field
applies = refl

apply_choice-only_choice_differs_example :
    (aside applied ≡ aside config)
    × (is_dict (get_field applied "development") ≡ true)
    × (only_choice_differs config applied ≡ only_choice_differs config config)
apply_choice-only_choice_differs_example =
    apply_choice-only_choice_differs str config requested applied applies

-- Every role is then driven by the executor that was asked for.
driven :
    executors applied
    ≡ ok (
        dict (
          field "interactive" (text "claude") (
            field "driver" (text "claude") (
              field "preparation-review" (text "claude") (
                field "diagnosis" (text "claude") (
                  field "final-review" (text "claude") (
                    field "implementation"
                      (text "claude")
                      (field "review" (text "claude") end))))))))
unfolding executors apply_choice apply_runtime triple split_when set_field put_field get_field
    find_field has_field
driven = refl

-- The check accepts it: the two are equal with the choice set aside.
only_the_choice : only_choice_differs config applied ≡ ok tt
unfolding only_choice_differs aside strip pop remove_field eq apply_choice apply_runtime triple
    split_when set_field put_field get_field find_field
only_the_choice = refl
