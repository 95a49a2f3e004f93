-- ===== src/Gate/Require.antt =====
-- `require_gate` of runtime/integration.py. The digest of a JSON value (SHA-256 over its canonical
-- text) is a parameter.
use nortropic_runtime.Prelude.{
  find, none, some, ℕ, suc, ◌^◌, String, Bool, true, false, List, [], ◌∷◌, ◌&&◌, not, any, all, leb,
  ltb, Result, require, ◌>>◌,
}
use nortropic_runtime.Prelude.Text.{is_identifier, is_hex}
use nortropic_runtime.Value.{
  Value, text, int, pos, list, eq, get_field, is_dict, text_and, is_nonempty_text, is_true, Items,
  nil, cons, eq_items, items,
}

-- `GateClosed` with its message, or with what its message is made from.
pub data GateClosed : Type 0 where
  gate_closed : String → GateClosed
  not_an_identity : String → GateClosed
  unfinished : String → Value → GateClosed
  mismatched : String → String → GateClosed

abbrev pub runtime : String
runtime = "Nortropic/nortropic-runtime"

abbrev pub office : String
office = "Nortropic/nortropic-projektkontor"

-- `TARGETS` of runtime/targets.py.
abbrev pub targets : List String
targets = runtime ∷ office ∷ []

-- `value == 'text'`
abbrev pub equals : Value → String → Bool
equals v s = eq v (text s)

-- `re.fullmatch('[0-9a-f]{40}', str(value))`: a text of that form, or an integer of forty digits.
unfoldable pub is_git_identity : Value → Bool
is_git_identity (text s) = is_hex 40 s
is_git_identity (int (pos n)) = leb (10 ^ 39) n && ltb n (10 ^ 40)
is_git_identity _ = false

-- `type(value) is int`
abbrev pub is_int : Value → Bool
is_int (int _) = true
is_int _ = false

-- The integers from `n` on, one for each element of the list: `list(range(len(steps)))` from 0.
abbrev pub range_of : ℕ → List Value → Items
range_of n [] = nil
range_of n (_ ∷ vs) = cons (int (pos n)) (range_of (suc n) vs)

-- Every step is completed, and in order.
unfoldable pub is_whole : Value → Value → Bool
is_whole (list steps) (list completed) =
    all is_dict (items steps)
    && not (eq_items steps nil)
    && all is_int (items completed)
    && eq_items completed (range_of 0 (items steps))
is_whole _ _ = false

-- A list with elements, each a text with characters.
abbrev pub is_run_list : Value → Bool
is_run_list (list (cons v vs)) = is_nonempty_text v && all is_nonempty_text (items vs)
is_run_list _ = false

-- `value in runs`
abbrev pub is_member : Value → Value → Bool
is_member v (list vs) = any (eq v) (items vs)
is_member v _ = false

abbrev binding_fields : List String
binding_fields = "task_id" ∷ "task_sha256" ∷ "candidate" ∷ "acceptance_sha256" ∷ []

-- The evidence is of this subject, in the four fields that bind it.
unfoldable pub is_same_subject : Value → Value → Bool
is_same_subject evidence subject =
    all (λ key. eq (get_field evidence key) (get_field subject key)) binding_fields

-- The first of the four fields that differs.
abbrev first_mismatch : Value → Value → String
first_mismatch evidence subject =
    elim (find (λ key. not (eq (get_field evidence key) (get_field subject key))) binding_fields) [
      | none ↦ ""
      | some key ↦ key
    ]

unfoldable pub is_finished : Value → Bool
is_finished evidence =
    equals (get_field evidence "terminal_status") "completed"
    && equals (get_field evidence "scope") "whole_task"

-- The body of the loop over the tests and the review.
unfoldable pub require_evidence : String → Value → Value → Result GateClosed (Unit {0})
require_evidence name subject evidence = do
  require (is_dict evidence && is_finished evidence)
      (unfinished name (get_field evidence "terminal_status"))
  require (is_same_subject evidence subject) (mismatched name (first_mismatch evidence subject))

module _ (digest : Value → String) where
  -- The checks of the task and the subject, before the evidence is read.
  unfoldable pub require_subject : Value → Value → List String → Result GateClosed (Unit {0})
  require_subject task subject allowed = do
    require (any (equals (get_field task "target")) allowed)
        (gate_closed "Target is outside the authorized project")
    require (text_and is_identifier (get_field task "id"))
        (gate_closed "Accepted task ID missing or invalid")
    require (is_git_identity (get_field subject "base")) (not_an_identity "base")
    require (is_git_identity (get_field subject "candidate")) (not_an_identity "candidate")
    require (not (eq (get_field subject "candidate") (get_field subject "base")))
        (gate_closed "No candidate change")
    require
        (eq (get_field subject "task_id") (get_field task "id")
          && equals (get_field subject "task_sha256") (digest task)
          && eq (get_field subject "base") (get_field task "base"))
        (gate_closed "Task identity does not match frozen subject")
    require (is_whole (get_field task "steps") (get_field subject "completed_steps"))
        (gate_closed "Whole accepted task is not complete")
    require
        (text_and (is_hex 64) (get_field subject "acceptance_sha256")
          && eq (get_field subject "acceptance_sha256") (get_field task "acceptance_sha256"))
        (gate_closed "Frozen acceptance identity missing")
    require (is_run_list (get_field subject "implementation_runs"))
        (gate_closed "Implementation run identity missing")

  -- The decisions: the tests passed, the review approved, and another run wrote it.
  unfoldable pub require_decisions : Value → Value → Value → Result GateClosed (Unit {0})
  require_decisions subject tests review = do
    require (is_true (get_field tests "passed")) (gate_closed "Required tests did not pass")
    require
        (equals (get_field review "verdict") "approved"
          && eq (get_field review "blocking_findings") (list nil))
        (gate_closed "Required review did not approve")
    require
        (is_nonempty_text (get_field review "reviewer_run")
          && not (
              is_member (get_field review "reviewer_run")
                (get_field subject "implementation_runs")))
        (gate_closed "Independent review run missing")

  unfoldable pub require_gate :
      Value → Value → Value → Value → List String → Result GateClosed (Unit {0})
  require_gate task subject tests review allowed = do
    require (is_dict task && is_dict subject && is_dict tests && is_dict review)
        (gate_closed "Missing or non-object mandatory evidence")
    require_subject task subject allowed
    require_evidence "tests" subject tests
    require_evidence "review" subject review
    require_decisions subject tests review
