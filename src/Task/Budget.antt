-- ===== src/Task/Budget.antt =====
-- The seconds of one review: `review_budget`, `review_frames`, `review_observation` and
-- `model_seconds` of runtime/development_binding.py. Times are whole seconds.
use nortropic_runtime.Prelude.{
  ℕ, ◌+◌, ◌*◌, String, Bool, true, false, ◌&&◌, ◌||◌, leb, Result, ok, err, ◌>>=◌, if◌then◌else◌,
}
use nortropic_runtime.Value.{Value, null, int, pos, get_field, is_truthy}

pub data BudgetError : Type 0 where
  value_error : String → BudgetError
  scope_closed : String → BudgetError
  key_error : String → BudgetError

abbrev pub review_model_seconds : ℕ
review_model_seconds = 180

abbrev development_review_model_seconds : ℕ
development_review_model_seconds = 300

abbrev host_margin_seconds : ℕ
host_margin_seconds = 15

abbrev activity_margin_seconds : ℕ
activity_margin_seconds = 30

abbrev watch_run_seconds : ℕ
watch_run_seconds = 1200

abbrev capacity_poll_seconds : ℕ
capacity_poll_seconds = 30

abbrev observation_margin_seconds : ℕ
observation_margin_seconds = 60

-- A whole number from 180 to 900.
unfoldable pub review_budget : Value → Result BudgetError ℕ
review_budget (int (pos n)) =
    if leb 180 n && leb n 900
    then ok n
    else err (value_error "A review budget is a whole number of seconds within 180..900")
review_budget _ = err (value_error "A review budget is a whole number of seconds within 180..900")

pub record Frames : Type 0 where
  pub model : ℕ
  pub host : ℕ
  pub activity : ℕ

unfoldable pub review_frames : ℕ → Frames
review_frames seconds = record {
  model = seconds;
  host = seconds + host_margin_seconds;
  activity = seconds + activity_margin_seconds;
}

unfoldable pub review_observation : ℕ → ℕ
unfolding review_frames
review_observation seconds =
    let activity = (review_frames seconds).activity in
    let admission = activity + 60 + watch_run_seconds + 2 * capacity_poll_seconds in
    admission + activity + observation_margin_seconds

-- `d.get(key) is not None`
abbrev pub is_given : Value → Bool
is_given null = false
is_given _ = true

abbrev min_of : ℕ → ℕ → ℕ
min_of a b = if leb a b then a else b

-- `task['attempt_seconds']`, a whole number in every validated task.
abbrev attempt_seconds : Value → Result BudgetError ℕ
attempt_seconds (int (pos n)) = ok n
attempt_seconds _ = err (key_error "attempt_seconds")

-- `model_seconds(task, 'review', budget)`; no budget is `None`.
unfoldable pub model_seconds : Value → Value → Result BudgetError ℕ
unfolding review_budget
model_seconds task budget =
    let development = is_truthy (get_field task "development") in
    let own = get_field task "review_seconds" in
    if development && (is_given budget || is_given own)
    then err (scope_closed "The finite development profile keeps its own review bound")
    else if is_given budget
    then review_budget budget
    else if is_given own
    then review_budget own
    else do
      n ← attempt_seconds (get_field task "attempt_seconds")
      ok (min_of (if development then development_review_model_seconds else review_model_seconds) n)
