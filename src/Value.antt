-- ===== src/Value.antt =====
-- The values that the program reads from JSON: tasks, subjects, test evidence, reviews, receipts.
-- A key is read as Python reads it (`d.get(k)`), and `==` is Python's: `True` equals 1, and the
-- order of keys does not matter. Fractional numbers do not occur in the evidence and are left out.
mod Equality
unfoldable pub use Equality.*
use nortropic_runtime.Prelude.{
  ℕ, zero, suc, String, Bool, true, false, Option, none, some, List, [], ◌∷◌, ◌&&◌, not, any, all,
  str_eq, if◌then◌else◌,
}
use nortropic_runtime.Prelude.Text.{has_words}
use Equality.{
  Value, null, bool, int, text, list, dict, Items, nil, cons, Fields, end, field, find_field,
}

-- `value.get(key)` on a dict. `None` and a missing key are the same answer.
unfoldable pub get_field : Value → String → Value
get_field (dict fs) k = elim (find_field k fs) [ none ↦ null | some v ↦ v ]
get_field _ k = null

-- `isinstance(value, dict)`
abbrev pub is_dict : Value → Bool
is_dict (dict _) = true
is_dict _ = false

abbrev pub items : Items → List Value
items nil = []
items (cons v vs) = v ∷ items vs

abbrev pub texts : List String → Items
texts [] = nil
texts (t ∷ ts) = cons (text t) (texts ts)

-- The elements, where `isinstance(value, list)`.
abbrev pub as_list : Value → Option (List Value)
as_list (list vs) = some (items vs)
as_list _ = none

-- The text, where `isinstance(value, str)`.
abbrev pub as_text : Value → Option String
as_text (text s) = some s
as_text _ = none

-- A test on the text, where `isinstance(value, str)`.
abbrev pub text_and : (String → Bool) → Value → Bool
text_and test (text s) = test s
text_and test _ = false

-- `isinstance(value, str) and value.strip()`
abbrev pub is_reason : Value → Bool
is_reason v = text_and has_words v

-- `isinstance(value, str) and value`
abbrev pub is_nonempty_text : Value → Bool
is_nonempty_text v = text_and (λ s. not (str_eq s "")) v

-- `value is True`
abbrev pub is_true : Value → Bool
is_true (bool b) = b
is_true _ = false

-- `bool(value)`
abbrev pub is_truthy : Value → Bool
is_truthy null = false
is_truthy (bool b) = b
is_truthy (int n) = not (is_zero n)
is_truthy (text s) = not (str_eq s "")
is_truthy (list nil) = false
is_truthy (list (cons _ _)) = true
is_truthy (dict end) = false
is_truthy (dict (field _ _ _)) = true
