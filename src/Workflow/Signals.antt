-- ===== src/Workflow/Signals.antt =====
-- The four signal handlers of `DevelopmentTask`. A signal's request is a dict.
use nortropic_runtime.Prelude.{
  String, Bool, true, false, Option, none, some, List, [], ◌∷◌, ◌&&◌, ◌||◌, not, length, is_ok,
  if◌then◌else◌,
}
use nortropic_runtime.Value.{
  Value, null, int, pos, text, eq, get_field, is_dict, is_reason, as_text,
}
use nortropic_runtime.Gate.Require.{equals}
use nortropic_runtime.Gate.Recovery.{Kind, review_only, repair}
use nortropic_runtime.Task.Budget.{review_budget}
use nortropic_runtime.Task.Validate.{is_valid}
use nortropic_runtime.Task.Revision.{is_revision}
use nortropic_runtime.Workflow.State.{
  Phase, waiting_access, waiting_diagnosis, waiting_review, waiting_publication_reconciliation,
  Task,
}

-- `xs[-1]`
unfoldable pub last : List Value → Option Value
last [] = none
last (v ∷ vs) = let rest = last vs in elim rest [ none ↦ some v | some w ↦ some w ]

abbrev pub is_some : {A : Type 0} → Option A → Bool
is_some none = false
is_some (some a) = true

abbrev is_waiting_diagnosis : Phase → Bool
is_waiting_diagnosis waiting_diagnosis = true
is_waiting_diagnosis _ = false

abbrev is_waiting_publication : Phase → Bool
is_waiting_publication waiting_publication_reconciliation = true
is_waiting_publication _ = false

abbrev is_waiting_review : Phase → Bool
is_waiting_review waiting_review = true
is_waiting_review _ = false

abbrev is_waiting_access : Phase → Bool
is_waiting_access waiting_access = true
is_waiting_access _ = false

unfoldable pub accepts_retry : Value → Task → Bool
accepts_retry request w =
    is_waiting_diagnosis w.phase
    && eq (get_field request "expected_attempt") (int (pos w.attempts))
    && is_reason (get_field request "reason")

unfoldable pub retry_after_diagnosis : Value → Task → Task
retry_after_diagnosis request w =
    if accepts_retry request w then record w { retry_request = some request } else w

unfoldable pub accepts_reconciliation : Value → Task → Bool
unfolding last
accepts_reconciliation request w = elim (last w.results) [
  | none ↦ false
  | some result ↦
      is_waiting_publication w.phase
      && eq (get_field request "candidate") (get_field result "candidate")
      && is_reason (get_field request "reason")
]

unfoldable pub reconcile_publication : Value → Task → Task
reconcile_publication request w =
    if accepts_reconciliation request w then record w { reconciliation = some request } else w

abbrev pub kind_name : Option Kind → Value
kind_name none = null
kind_name (some review_only) = text "review_only"
kind_name (some repair) = text "repair"

abbrev is_null : Value → Bool
is_null null = true
is_null _ = false

abbrev is_review_only : Option Kind → Bool
is_review_only (some review_only) = true
is_review_only _ = false

-- A budget or a runtime binding belongs to a review alone, and is of its form.
unfoldable pub is_review_extra : Value → Task → Bool
is_review_extra request w =
    let budget = get_field request "review_seconds" in
    let runtime = get_field request "runtime" in
    (is_null budget && is_null runtime)
    || (is_review_only w.review_recovery
        && equals (get_field request "action") "review_only"
        && (is_null budget || is_ok (review_budget budget))
        && (is_null runtime
            || (is_dict runtime
                && eq (get_field runtime "accepted") (get_field w.accepted_task "runtime_revision")
                && is_some (as_text (get_field runtime "used")))))

module _ (digest : Value → String) where
  -- `expected`: the request names the task, the commit, the review, the attempt and the action.
  unfoldable pub is_expected_review : Value → Value → Task → Bool
  is_expected_review request subject w =
      equals (get_field request "task_sha256") (digest w.accepted_task)
      && eq (get_field request "candidate") (get_field subject "candidate")
      && eq (get_field request "review_number") (int (pos (length w.reviews)))
      && eq (get_field request "expected_attempt") (int (pos w.attempts))
      && eq (get_field request "action") (kind_name w.review_recovery)
      && is_reason (get_field request "reason")

  unfoldable pub accepts_review : Value → Task → Bool
  accepts_review request w = elim w.review_subject [
    | none ↦ false
    | some subject ↦
        is_waiting_review w.phase
        && not (is_some w.review_request)
        && is_review_extra request w
        && is_expected_review request subject w
  ]

  unfoldable pub continue_after_review : Value → Task → Task
  continue_after_review request w =
      if accepts_review request w then record w { review_request = some request } else w

  unfoldable pub accepts_access : Value → Task → Bool
  accepts_access revised w =
      is_waiting_access w.phase
      && not (is_some w.access_request)
      && is_valid revised
      && is_revision digest w.accepted_task revised w.step_index w.attempts

  unfoldable pub resume_after_access : Value → Task → Task
  resume_after_access revised w =
      if accepts_access revised w then record w { access_request = some revised } else w
