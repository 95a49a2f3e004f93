-- ===== src/Tests/Verdict.antt =====
-- A stream of events of runtime/review.py with one terminal result.
use nortropic_runtime.Prelude.{
  String, ◌≡◌, refl, true, false, List, [], ◌∷◌, Result, ok, str_eq, if◌then◌else◌,
}
use nortropic_runtime.Prelude.Text.{has_words}
use nortropic_runtime.Value.{
  Value, text, bool, list, dict, field, end, nil, get_field, find_field, eq,
}
use nortropic_runtime.Task.Validate.{has_field}
use nortropic_runtime.Gate.Verdict.{
  Invalid, is_judgement, validated, terminals, read_all, claude_response, verdict,
}
use nortropic_runtime.Gate.Terminal.{IsOnly, IsRepeated, IsConclusion, verdict_of_terminal}

abbrev judgement : Value
judgement = dict (
    field "verdict" (text "approved") (
      field "blocking_findings" (list nil)
        (field "summary" (text "fine") (field "limitations" (list nil) end))))

abbrev terminal : Value
terminal = dict (
    field "type" (text "result") (
      field "is_error" (bool false) (
        field "subtype" (text "success") (
          field "terminal_reason" (text "completed")
            (field "structured_output" judgement (field "result" (text "judgement") end))))))

-- The lines by name.
abbrev reads : String → Result Invalid Value
reads line = if str_eq line "judgement" then ok judgement else ok terminal

approved : verdict reads reads ("terminal" ∷ []) "claude" ≡ ok judgement
unfolding verdict claude_response terminals validated is_judgement get_field find_field has_field eq
    has_words
approved = refl

verdict_of_terminal_example :
    (events : List Value) × (t : Value) × (read_all reads ("terminal" ∷ []) ≡ ok events)
    × IsOnly t events
    × (get_field t "structured_output" ≡ judgement)
    × IsRepeated reads reads t judgement
    × IsConclusion (get_field judgement "verdict") (get_field judgement "blocking_findings")
    × (is_judgement judgement ≡ true)
verdict_of_terminal_example = verdict_of_terminal reads reads ("terminal" ∷ []) judgement approved
