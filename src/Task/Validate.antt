-- ===== src/Task/Validate.antt =====
-- `validate` of runtime/task.py, as the test whether it returns: it raises on every other value.
use nortropic_runtime.Prelude.{
  ℕ, ◌^◌, String, Bool, true, false, none, some, List, [], ◌∷◌, ◌&&◌, ◌||◌, not, any, all, length,
  leb, ◌==◌, is_ok,
}
use nortropic_runtime.Prelude.Text.{codes, is_hex, is_identifier}
use nortropic_runtime.Value.{
  Value, int, pos, text, dict, eq, get_field, find_field, count_fields, is_truthy, is_dict, as_list,
  text_and, is_nonempty_text,
}
use nortropic_runtime.Gate.Require.{equals, targets, office}
use nortropic_runtime.Scope.Contract.{matches_path, split_path, is_dot_part}
use nortropic_runtime.Task.Budget.{review_budget}

-- `key in task`
unfoldable pub has_field : Value → String → Bool
has_field (dict fs) k = elim (find_field k fs) [ none ↦ false | some _ ↦ true ]
has_field _ k = false

-- The two patterns 'tools/...' and the split into parts.
unfoldable pub is_source_path : Value → Bool
is_source_path v =
    text_and (λ s. let cs = codes s in matches_path cs && not (any is_dot_part (split_path [] cs)))
      v

-- No element equals an earlier one.
abbrev is_distinct : List Value → Bool
is_distinct [] = true
is_distinct (v ∷ vs) = not (any (eq v) vs) && is_distinct vs

abbrev is_provider : Value → Bool
is_provider v = equals v "codex" || equals v "claude"

abbrev is_step : Value → Bool
is_step step =
    is_dict step
    && is_provider (get_field step "provider")
    && is_nonempty_text (get_field step "prompt")

abbrev pub is_within : ℕ → ℕ → Value → Bool
is_within low high (int (pos n)) = leb low n && leb n high
is_within low high _ = false

-- The additional requirements of a task in the office repository.
unfoldable pub is_office_task : Value → List Value → List Value → Bool
is_office_task task paths steps =
    text_and (is_hex 40) (get_field task "runtime_revision")
    && not (is_truthy (get_field task "continuation"))
    && not (any (λ s. is_truthy (get_field s "waiting_reason")) steps)
    && not (any (λ p. equals p "tools/kontor.py") paths)

-- `str(value)` matches the pattern; a number of 64 digits does so too.
is_contract_digest : Value → Bool
is_contract_digest (text s) = is_hex 64 s
is_contract_digest (int (pos n)) = leb (10 ^ 63) n && not (leb (10 ^ 64) n)
is_contract_digest _ = false

-- `re.fullmatch('[a-z0-9][a-z0-9-]{0,79}', str(value))`
is_work_name : Value → Bool
is_work_name (text s) = is_identifier s
is_work_name (int (pos n)) = not (leb (10 ^ 80) n)
is_work_name _ = false

-- `set(binding) == {'contract_sha256', 'work'}`
abbrev has_exactly_two : Value → Bool
has_exactly_two (dict fs) =
    count_fields fs == 2 && has_field (dict fs) "contract_sha256" && has_field (dict fs) "work"
has_exactly_two _ = false

-- The finite development profile.
unfoldable pub is_development_task : Value → List Value → Bool
unfolding is_contract_digest is_work_name
is_development_task task paths =
    let binding = get_field task "development" in
    equals (get_field task "target") office
    && is_dict binding
    && has_exactly_two binding
    && is_contract_digest (get_field binding "contract_sha256")
    && is_work_name (get_field binding "work")
    && length paths == 2
    && is_within 1 480 (get_field task "attempt_seconds")

-- `value == 0`
abbrev is_zero_number : Value → Bool
is_zero_number v = eq v (int (pos 0))

-- The task's names, its target and base, and its paths.
unfoldable pub is_located : Value → List Value → List Value → Bool
unfolding is_source_path is_office_task
is_located task paths steps =
    text_and is_identifier (get_field task "id")
    && any (equals (get_field task "target")) targets
    && text_and (is_hex 40) (get_field task "base")
    && not (length paths == 0)
    && is_distinct paths
    && all is_source_path paths
    && (not (equals (get_field task "target") office) || is_office_task task paths steps)

-- The steps, each by an explicit provider, and no automatic retries.
unfoldable pub has_steps : Value → List Value → Bool
has_steps task steps =
    is_zero_number (get_field task "automatic_retries")
    && not (length steps == 0)
    && all is_step steps
    && (not (has_field task "review_provider") || is_provider (get_field task "review_provider"))

-- A budget of the review is of its form, and not beside the finite development profile.
unfoldable pub is_review_bounded : Value → Bool
is_review_bounded task =
    not (has_field task "review_seconds")
    || (is_ok (review_budget (get_field task "review_seconds"))
        && not (has_field task "development"))

-- The acceptance is frozen, and the binding of a finite development is of its form.
unfoldable pub is_frozen : Value → List Value → Bool
unfolding is_development_task
is_frozen task paths =
    text_and (is_hex 64) (get_field task "acceptance_sha256")
    && (not (has_field task "development") || is_development_task task paths)

-- The tests on a task whose paths and steps are lists.
unfoldable pub is_valid_with : Value → List Value → List Value → Bool
is_valid_with task paths steps =
    is_located task paths steps
    && is_within 1 3600 (get_field task "attempt_seconds")
    && has_steps task steps
    && is_review_bounded task
    && is_frozen task paths

unfoldable pub is_valid : Value → Bool
unfolding is_valid_with
is_valid task = elim (as_list (get_field task "allowed_paths")) [
  | none ↦ false
  | some paths ↦ elim (as_list (get_field task "steps")) [
    | none ↦ false
    | some steps ↦ is_valid_with task paths steps
  ]
]
