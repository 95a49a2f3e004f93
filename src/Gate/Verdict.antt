-- ===== src/Gate/Verdict.antt =====
-- `verdict` of runtime/review.py: the answer of a review in its stream of events, before the gate looks at
-- it. The reading of JSON is a parameter, with and without the hook `strict_object`.
use nortropic_runtime.Prelude.{
  String, Bool, true, false, List, [], ◌∷◌, ◌&&◌, ◌||◌, all, any, length, ◌==◌, none, some, Result,
  ok, err, if◌then◌else◌, ◌>>=◌, ◌>>◌, require, str_eq, not,
}
use nortropic_runtime.Value.{
  Value, null, bool, text, list, dict, Fields, field, end, items, find_field, get_field, is_dict,
  is_reason, put_field, eq,
}
use nortropic_runtime.Gate.Require.{equals}
use nortropic_runtime.Task.Validate.{has_field}

-- `ValueError` with its message.
pub data Invalid : Type 0 where
  invalid : String → Invalid

abbrev required : List String
required = "verdict" ∷ "blocking_findings" ∷ "summary" ∷ "limitations" ∷ []

abbrev names_among : List String → Fields → Bool
names_among names end = true
names_among names (field k v fs) = any (λ n. str_eq n k) names && names_among names fs

-- `set(result) == set(SCHEMA['required'])`
abbrev has_exactly : List String → Value → Bool
has_exactly names (dict fs) = names_among names fs && all (has_field (dict fs)) names
has_exactly names _ = false

abbrev pub is_text_list : Value → Bool
is_text_list (list vs) = all is_reason (items vs)
is_text_list _ = false

abbrev pub has_findings : Value → Bool
has_findings (list vs) = not (length (items vs) == 0)
has_findings _ = false

unfoldable pub is_judgement : Value → Bool
is_judgement result =
    has_exactly required result
    && (equals (get_field result "verdict") "approved"
        || equals (get_field result "verdict") "rejected"
        || equals (get_field result "verdict") "inconclusive")
    && is_text_list (get_field result "blocking_findings")
    && is_text_list (get_field result "limitations")
    && is_reason (get_field result "summary")

unfoldable pub validated : Value → Result Invalid Value
validated result = do
  require (is_judgement result) (invalid "Invalid or unjudgeable review response")
  require
      (not (
        equals (get_field result "verdict") "approved"
        && has_findings (get_field result "blocking_findings")))
      (invalid "Conflicting approval with blocking findings")
  ok result

-- A key that comes twice is refused.
unfoldable pub strict_object : Fields → Fields → Result Invalid Fields
strict_object result end = ok result
strict_object result (field k v rest) =
    let later = strict_object (put_field result k v) rest in
    elim (find_field k result) [ none ↦ later | some _ ↦ err (invalid "Duplicate review JSON key") ]

abbrev pub is_terminal : Value → Bool
is_terminal e = is_dict e && equals (get_field e "type") "result"

unfoldable pub terminals : List Value → List Value
terminals [] = []
terminals (e ∷ es) = let rest = terminals es in if is_terminal e then e ∷ rest else rest

abbrev pub is_false : Value → Bool
is_false (bool false) = true
is_false _ = false

abbrev pub is_success : Value → Bool
is_success t =
    is_false (get_field t "is_error")
    && equals (get_field t "subtype") "success"
    && equals (get_field t "terminal_reason") "completed"

abbrev pub one_terminal : List Value → Result Invalid Value
one_terminal (t ∷ []) = if is_success t then ok t else err (invalid "Missing review response")
one_terminal _ = err (invalid "Missing review response")

-- The text of the last message of the agent.
abbrev messages : List Value → List Value
messages [] = []
messages (e ∷ es) =
    let rest = messages es in
    if equals (get_field e "type") "item.completed"
      && equals (get_field (get_field e "item") "type") "agent_message"
    then get_field (get_field e "item") "text" ∷ rest
    else rest

abbrev last_message : List Value → Value
last_message [] = null
last_message (m ∷ []) = m
last_message (_ ∷ m ∷ ms) = last_message (m ∷ ms)

abbrev pub read_all : (String → Result Invalid Value) → List String → Result Invalid (List Value)
read_all read [] = ok []
read_all read (line ∷ lines) = do e ← read line; es ← read_all read lines; ok (e ∷ es)

module _ (loads loads_strict : String → Result Invalid Value) where
  abbrev pub read_text : Value → Result Invalid Value
  read_text (text s) = loads_strict s
  read_text _ = err (invalid "Conflicting structured review response")

  unfoldable pub claude_response : List Value → Result Invalid Value
  unfolding terminals
  claude_response events = do
    terminal ← one_terminal (terminals events)
    require (is_dict (get_field terminal "structured_output")) (invalid "Missing review response")
    repeated ← read_text (get_field terminal "result")
    require (eq repeated (get_field terminal "structured_output"))
        (invalid "Conflicting structured review response")
    ok (get_field terminal "structured_output")

  abbrev codex_message : Value → Result Invalid Value
  codex_message (text s) = loads_strict s
  codex_message _ = err (invalid "Missing review response")

  unfoldable pub verdict : List String → String → Result Invalid Value
  unfolding claude_response validated
  verdict lines provider =
      if str_eq provider "claude"
      then (do
        events ← read_all loads_strict lines
        result ← claude_response events
        validated result)
      else if str_eq provider "codex"
      then (do
        events ← read_all loads lines
        result ← codex_message (last_message (messages events))
        validated result)
      else err (invalid "Unsupported review provider")
