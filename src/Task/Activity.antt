-- ===== src/Task/Activity.antt =====
-- How long an activity of a task may run: `activity_seconds` of runtime/development_binding.py, and the
-- two places of runtime/workflow.py that set `start_to_close_timeout` of a review.
use nortropic_runtime.Prelude.{
  ℕ, Bool, true, false, Option, none, some, ◌&&◌, not, leb, length, ◌==◌, Result, ok, err, ◌>>=◌,
  if◌then◌else◌,
}
use nortropic_runtime.Prelude.Text.{codes}
use nortropic_runtime.Value.{
  Value, null, bool, int, pos, negsuc, text, list, dict, items, count_fields, get_field, is_truthy,
}
use nortropic_runtime.Task.Budget.{
  BudgetError, scope_closed, key_error, review_frames, review_model_seconds,
}
use nortropic_runtime.Task.Validate.{has_field}

pub data Kind : Type 0 where
  implementation : Kind
  review : Kind
  publication : Kind

abbrev seconds_of : Kind → ℕ
seconds_of implementation = 1500
seconds_of review = 360
seconds_of publication = 1500

-- `len(value)`; what has no length raises `TypeError`.
abbrev pub len : Value → Result BudgetError ℕ
len (list vs) = ok (length (items vs))
len (text s) = ok (length (codes s))
len (dict fs) = ok (count_fields fs)
len _ = err (key_error "len")

-- `len(task.get('allowed_paths', []))`
abbrev path_count : Value → Result BudgetError ℕ
path_count task =
    if has_field task "allowed_paths" then len (get_field task "allowed_paths") else ok 0

-- `1 <= value <= 480`; what is no number raises `TypeError`.
abbrev is_short : Value → Result BudgetError Bool
is_short (int (pos n)) = ok (leb 1 n && leb n 480)
is_short (int (negsuc _)) = ok false
is_short (bool b) = ok b
is_short _ = err (key_error "attempt_seconds")

-- `1 <= task.get('attempt_seconds', 0) <= 480`
abbrev is_short_attempt : Value → Result BudgetError Bool
is_short_attempt task =
    if has_field task "attempt_seconds"
    then is_short (get_field task "attempt_seconds")
    else ok false

abbrev unqualified : BudgetError
unqualified = scope_closed "Only the bounded two-file finite child profile is qualified"

-- `activity_seconds(task, kind)`; no answer is `None`.
unfoldable pub activity_seconds : Value → Kind → Result BudgetError (Option ℕ)
activity_seconds task kind = if not (has_field task "development") then ok none else do
  count ← path_count task
  short ← (if count == 2 then is_short_attempt task else ok false)
  if short then ok (some (seconds_of kind)) else err unqualified

-- `review_frames(request.get('review_seconds', REVIEW_MODEL_SECONDS))['activity']`, where the request
-- has the budget unless that is `None`. The sum with what is no number raises `TypeError`, and the
-- sum with a negative one, which `validate` refuses, is no time.
abbrev requested_activity : Value → Result BudgetError ℕ
requested_activity null = ok (review_frames review_model_seconds).activity
requested_activity (int (pos n)) = ok (review_frames n).activity
requested_activity (bool true) = ok (review_frames 1).activity
requested_activity (bool false) = ok (review_frames 0).activity
requested_activity _ = err (key_error "review_seconds")

-- `timedelta(seconds=None)` raises `TypeError`.
abbrev timedelta : Option ℕ → Result BudgetError ℕ
timedelta (some seconds) = ok seconds
timedelta none = err (key_error "seconds")

-- The time of a review's activity, first as the request has it, and replaced in the finite
-- development.
unfoldable pub review_activity : Value → Value → Result BudgetError ℕ
unfolding activity_seconds
review_activity task budget = do
  requested ← requested_activity budget
  if is_truthy (get_field task "development")
      then (do own ← activity_seconds task review; timedelta own)
      else ok requested
