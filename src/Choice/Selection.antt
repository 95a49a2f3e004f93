-- ===== src/Choice/Selection.antt =====
-- `executors`, `models`, `efforts` and `watch` of runtime/development_model.py: the choice in a release's
-- configuration.
use nortropic_runtime.Prelude.{
  ℕ, String, Bool, true, false, none, some, List, [], ◌∷◌, ◌&&◌, ◌||◌, not, any, all, length, leb,
  ◌==◌, Result, ok, err, ◌>>◌, require, str_eq, if◌then◌else◌,
}
use nortropic_runtime.Prelude.Text.{codes}
use nortropic_runtime.Value.{
  Value, null, text, dict, Fields, field, end, find_field, get_field, is_dict, is_truthy, text_and,
}
use nortropic_runtime.Task.Validate.{has_field}

pub data ScopeClosed : Type 0 where
  closed : String → ScopeClosed

abbrev pub roles : List String
roles =
    "interactive" ∷ "driver" ∷ "preparation-review" ∷ "diagnosis" ∷ "final-review"
    ∷ "implementation" ∷ "review" ∷ []

abbrev pub names_of_executors : List String
names_of_executors = "codex" ∷ "claude" ∷ []

abbrev claude_model : String
claude_model = "claude-fable-5-1"

abbrev claude_effort : String
claude_effort = "medium"

abbrev codex_model : String
codex_model = "gpt-6-astra"

abbrev codex_effort : String
codex_effort = "high"

abbrev is_between : ℕ → ℕ → ℕ → Bool
is_between low high c = leb low c && leb c high

abbrev is_alphanumeric : ℕ → Bool
is_alphanumeric c = is_between b'a' b'z' c || is_between b'A' b'Z' c || is_between b'0' b'9' c

abbrev is_name_code : ℕ → Bool
is_name_code c = is_alphanumeric c || c == b'.' || c == b'_' || c == b'-'

abbrev is_name_codes : List ℕ → Bool
is_name_codes [] = false
is_name_codes (c ∷ cs) = is_alphanumeric c && leb (length cs) 63 && all is_name_code cs

-- `\A[A-Za-z0-9][A-Za-z0-9._-]{0,63}\Z`
unfoldable pub is_model_name : String → Bool
is_model_name s = is_name_codes (codes s)

-- `\A[a-z]{1,16}\Z`
unfoldable pub is_effort_name : String → Bool
is_effort_name s =
    let cs = codes s in leb 1 (length cs) && leb (length cs) 16 && all (is_between b'a' b'z') cs

-- `value or {}`
abbrev pub or_empty : Value → Value
or_empty v = if is_truthy v then v else dict end

-- `d.get(k, default)`
abbrev pub get_or : Value → String → Value → Value
get_or (dict fs) k default = elim (find_field k fs) [ none ↦ default | some v ↦ v ]
get_or _ k default = default

abbrev pub is_one_of : List String → String → Bool
is_one_of names k = any (λ n. str_eq n k) names

abbrev all_fields : (String → Value → Bool) → Fields → Bool
all_fields test end = true
all_fields test (field k v fs) = test k v && all_fields test fs

abbrev are_fields : (String → Value → Bool) → Value → Bool
are_fields test (dict fs) = all_fields test fs
are_fields test _ = false

abbrev is_executor : Value → Bool
is_executor v = text_and (is_one_of names_of_executors) v

-- No misspelt key beside the choice.
abbrev is_well_placed : String → String → Value → Value → Bool
is_well_placed plural singular config development =
    not (has_field config plural)
    && not (has_field config singular)
    && is_dict development
    && not (has_field development singular)

abbrev for_roles : List String → Value → Fields
for_roles [] chosen = end
for_roles (role ∷ rest) chosen =
    field role (get_or chosen role (text "codex")) (for_roles rest chosen)

unfoldable pub executors : Value → Result ScopeClosed Value
executors config = do
  let development = or_empty (get_field config "development")
  require (is_well_placed "executors" "executor" config development)
      (closed "Invalid explicit executor selection")
  let chosen = get_or development "executors" (dict end)
  require (are_fields (λ role v. is_one_of roles role && is_executor v) chosen)
      (closed "Invalid explicit executor selection")
  ok (dict (for_roles roles chosen))

abbrev of_executors : String → String → Value → Value
of_executors claude codex chosen = dict (
    field "claude" (get_or chosen "claude" (text claude))
      (field "codex" (get_or chosen "codex" (text codex)) end))

unfoldable pub models : Value → Result ScopeClosed Value
models config = do
  let development = or_empty (get_field config "development")
  require (is_well_placed "models" "model" config development)
      (closed "Invalid explicit model selection")
  let chosen = get_or development "models" (dict end)
  require (are_fields (λ k v. is_one_of names_of_executors k && text_and is_model_name v) chosen)
      (closed "Invalid explicit model selection")
  ok (of_executors claude_model codex_model chosen)

unfoldable pub efforts : Value → Result ScopeClosed Value
efforts config = do
  let development = or_empty (get_field config "development")
  require (is_well_placed "efforts" "effort" config development)
      (closed "Invalid explicit effort selection")
  let chosen = get_or development "efforts" (dict end)
  require (are_fields (λ k v. is_one_of names_of_executors k && text_and is_effort_name v) chosen)
      (closed "Invalid explicit effort selection")
  ok (of_executors claude_effort codex_effort chosen)

abbrev watch_of : Value → Value → Value → Value
watch_of executor model effort =
    dict (field "executor" executor (field "model" model (field "effort" effort end)))

abbrev triple_keys : List String
triple_keys = "executor" ∷ "model" ∷ "effort" ∷ []

-- `set(value) == {'executor', 'model', 'effort'}`
abbrev pub has_triple_keys : Value → Bool
has_triple_keys v = are_fields (λ k _. is_one_of triple_keys k) v && all (has_field v) triple_keys

abbrev is_watch : Value → Bool
is_watch chosen =
    has_triple_keys chosen
    && is_executor (get_field chosen "executor")
    && text_and is_model_name (get_field chosen "model")
    && text_and is_effort_name (get_field chosen "effort")

-- The choice of the watch: one complete triple, or the recorded one.
abbrev chosen_watch : Value → Result ScopeClosed Value
chosen_watch null = ok (watch_of (text "codex") (text codex_model) (text codex_effort))
chosen_watch chosen =
    if is_watch chosen
    then ok (
        watch_of (get_field chosen "executor") (get_field chosen "model")
          (get_field chosen "effort"))
    else err (closed "Invalid explicit watch selection")

unfoldable pub watch : Value → Result ScopeClosed Value
watch config = do
  require (not (has_field (get_field config "development") "watch"))
      (closed "Invalid explicit watch selection")
  chosen_watch (get_field config "watch")
