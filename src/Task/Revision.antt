-- ===== src/Task/Revision.antt =====
-- `require_revision` of runtime/revision.py, as the test whether it returns.
use nortropic_runtime.Prelude.{
  ℕ, zero, suc, String, Bool, true, false, Option, none, some, List, [], ◌∷◌, ◌&&◌, not, any,
  length, ltb, ◌==◌, str_eq, if◌then◌else◌,
}
use nortropic_runtime.Value.{
  Value, int, pos, dict, Fields, end, field, eq, get_field, is_reason, is_truthy, as_list,
}
use nortropic_runtime.Gate.Require.{equals}

abbrev mutable : List String
mutable = "base" ∷ "acceptance" ∷ "acceptance_sha256" ∷ "brief" ∷ "continuation" ∷ "steps" ∷ []

-- `{k: v for k, v in fields.items() if k not in mutable}`
unfoldable pub fixed_fields : Fields → Fields
fixed_fields end = end
fixed_fields (field k v fs) =
    let rest = fixed_fields fs in if any (λ key. str_eq k key) mutable then rest else field k v rest

unfoldable pub fixed_part : Value → Value
fixed_part (dict fs) = dict (fixed_fields fs)
fixed_part other = other

unfoldable pub remove_field : String → Fields → Fields
remove_field k end = end
remove_field k (field j v fs) =
    let rest = remove_field k fs in if str_eq j k then rest else field j v rest

-- `expected.pop('waiting_reason', None)`
unfoldable pub without_wait : Value → Value
without_wait (dict fs) = dict (remove_field "waiting_reason" fs)
without_wait other = other

-- Every step but the one at `index` is unchanged, and that one loses its wait; `i` counts.
unfoldable pub are_same_steps : ℕ → ℕ → List Value → List Value → Bool
are_same_steps index i (a ∷ old) (b ∷ new) =
    (if i == index then eq b (without_wait a) else eq b a) && are_same_steps index (suc i) old new
are_same_steps index i _ _ = true

unfoldable pub step_at : List Value → ℕ → Option Value
step_at [] n = none
step_at (v ∷ vs) n = elim n [ zero ↦ some v | suc m ↦ step_at vs m ]

-- The qualified transition: the step at `index` is Claude's, and the revised one does not wait.
abbrev is_qualified : List Value → List Value → ℕ → Bool
is_qualified old new index = elim (step_at old index) [
  | none ↦ false
  | some a ↦ elim (step_at new index) [
    | none ↦ false
    | some b ↦
        equals (get_field a "provider") "claude" && not (is_truthy (get_field b "waiting_reason"))
  ]
]

abbrev is_bound_continuation : (Value → String) → Value → Value → ℕ → Bool
is_bound_continuation digest original info attempt =
    equals (get_field info "previous_task_sha256") (digest original)
    && eq (get_field info "expected_attempt") (int (pos attempt))
    && is_reason (get_field info "reason")
    && is_reason (get_field info "evidence")

unfoldable pub is_revision : (Value → String) → Value → Value → ℕ → ℕ → Bool
is_revision digest original revised index attempt =
    is_bound_continuation digest original (get_field revised "continuation") attempt
    && eq (fixed_part original) (fixed_part revised)
    && elim (as_list (get_field original "steps")) [
      | none ↦ false
      | some old ↦ elim (as_list (get_field revised "steps")) [
        | none ↦ false
        | some new ↦
            length old == length new
            && ltb index (length old)
            && are_same_steps index 0 old new
            && is_qualified old new index
      ]
    ]
