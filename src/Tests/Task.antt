-- ===== src/Tests/Task.antt =====
-- One task that runtime/task.py accepts.
use nortropic_runtime.Prelude.{ℕ, ◌≤◌, ◌<◌, ◌≡◌, refl, true, ok}
use nortropic_runtime.Prelude.Text.{is_identifier, is_hex}
use nortropic_runtime.Value.{
  Value, null, text, list, dict, int, pos, nil, cons, end, field, find_field, get_field, eq,
}
use nortropic_runtime.Gate.Require.{runtime}
use nortropic_runtime.Task.Budget.{review_budget, review_frames, model_seconds}
use nortropic_runtime.Task.Validate.{
  has_field, is_source_path, is_office_task, is_development_task, is_located, has_steps,
  is_review_bounded, is_frozen, is_valid_with, is_valid,
}
use nortropic_runtime.Task.Activity.{review_activity}
use nortropic_runtime.Task.Bounds.{review_of_valid_task}

abbrev task : Value
task = dict (
    field "id" (text "task-1") (
      field "target" (text runtime) (
        field "base" (text "0123456789abcdef0123456789abcdef01234567") (
          field "allowed_paths" (list (cons (text "tools/a.py") nil)) (
            field "attempt_seconds" (int (pos 3600)) (
              field "automatic_retries" (int (pos 0)) (
                field "review_seconds" (int (pos 600)) (
                  field "steps"
                    (list (
                      cons (dict (field "provider" (text "codex") (field "prompt" (text "go") end)))
                        nil))
                    (field "acceptance_sha256"
                      (text "00000000000000000000000000000000000000000000000000000000000000ff")
                      end)))))))))

task_is_valid : is_valid task ≡ true
unfolding is_valid is_valid_with is_located has_steps is_review_bounded is_frozen is_source_path
    is_office_task is_development_task has_field get_field find_field eq review_budget is_identifier
    is_hex
task_is_valid = refl

review_of_valid_task_example :
    (n : ℕ) × (model_seconds task null ≡ ok n)
    × (model_seconds task (get_field task "review_seconds") ≡ ok n)
    × (1 ≤ n)
    × (n ≤ 900)
    × ((a : ℕ) × (review_activity task (get_field task "review_seconds") ≡ ok a)
        × ((review_frames n).host < a))
review_of_valid_task_example = review_of_valid_task task task_is_valid
