-- ===== src/Watch/Assessment.antt =====
-- `PrivateAssessment.run` of runtime/private_workflow.py. What an activity returns or raises is a
-- parameter, which may depend on the outcomes before.
use nortropic_runtime.Prelude.{
  String, Bool, true, false, List, [], ◌∷◌, ◌++◌, ◌&&◌, Result, ok, err, if◌then◌else◌,
}
use nortropic_runtime.Value.{Value, text, bool, dict, field, end, get_field, is_truthy}
use nortropic_runtime.Gate.Recovery.{set_field}

pub data Role : Type 0 where
  intake analysis review report : Role

abbrev pub roles : List Role
roles = intake ∷ analysis ∷ review ∷ report ∷ []

abbrev pub name_of : Role → String
name_of intake = "intake"
name_of analysis = "analysis"
name_of review = "review"
name_of report = "report"

-- `CancelledError`, or another exception by the name of its class.
pub data Failure : Type 0 where
  cancelled : Failure
  unavailable : String → Failure

pub record Round : Type 0 where
  pub outcomes : Value
  pub asked : List Role

abbrev needs_model : Value → Bool
needs_model outcomes = is_truthy (get_field (get_field outcomes "intake") "needs_model")

abbrev is_analysed : Value → Bool
is_analysed outcomes = is_truthy (get_field (get_field outcomes "analysis") "completed")

-- The roles that are not passed over.
unfoldable pub is_due : Role → Value → Bool
is_due intake outcomes = true
is_due analysis outcomes = needs_model outcomes
is_due review outcomes = needs_model outcomes && is_analysed outcomes
is_due report outcomes = true

-- The outcome of a stage; a cancellation ends the round.
abbrev pub note : Role → Result Failure Value → Round → Result Failure Round
note role (ok outcome) round = ok (record {
  outcomes = set_field round.outcomes (name_of role) outcome;
  asked = round.asked ++ role ∷ [];
})
note role (err cancelled) round = err cancelled
note role (err (unavailable reason)) round = ok (record {
  outcomes =
      set_field round.outcomes (name_of role)
        (dict (field "completed" (bool false) (field "reason" (text reason) end)));
  asked = round.asked ++ role ∷ [];
})

abbrev pub continue : Result Failure Round → (Round → Result Failure Round) → Result Failure Round
continue (ok round) next = next round
continue (err e) next = err e

module _ (perform : Role → Value → Result Failure Value) where
  abbrev pub do_role : Role → Round → Result Failure Round
  do_role role round =
      if is_due role round.outcomes then note role (perform role round.outcomes) round else ok round

  abbrev pub do_roles : List Role → Round → Result Failure Round
  do_roles [] round = ok round
  do_roles (role ∷ rest) round = continue (do_role role round) (λ next. do_roles rest next)

  unfoldable pub run : Result Failure Round
  run = do_roles roles (record { outcomes = dict end; asked = [] })
