-- ===== src/Gate/Recovery.antt =====
-- `recovery_kind` and `validated` of runtime/review.py.
use nortropic_runtime.Prelude.{String, Bool, false, ◌&&◌, all, ok, err, if◌then◌else◌}
use nortropic_runtime.Value.{
  Value, text, list, dict, nil, cons, get_field, is_dict, is_reason, items, put_field,
}
use nortropic_runtime.Gate.Require.{targets, equals, require_gate}

pub data Kind : Type 0 where
  review_only repair : Kind

-- `{**value, key: v}`: the key is set, in its place or at the end.
unfoldable pub set_field : Value → String → Value → Value
set_field (dict fs) k v = dict (put_field fs k v)
set_field other k v = other

-- A list with elements, each a text with words in it.
abbrev pub is_findings : Value → Bool
is_findings (list (cons v vs)) = is_reason v && all is_reason (items vs)
is_findings _ = false

-- The review as it would be, had it approved: it is tested and never published.
abbrev pub approved_copy : Value → Value
approved_copy review =
    set_field (set_field review "verdict" (text "approved")) "blocking_findings" (list nil)

unfoldable pub is_rejection : Value → Bool
is_rejection review =
    is_dict review
    && equals (get_field review "verdict") "rejected"
    && is_findings (get_field review "blocking_findings")
    && is_reason (get_field review "summary")

unfoldable pub recovery_kind : (Value → String) → Value → Value → Value → Value → Kind
recovery_kind digest task subject tests review =
    if is_rejection review
    then elim (require_gate digest task subject tests (approved_copy review) targets) [
      | err e ↦ review_only
      | ok _ ↦ repair
    ]
    else review_only
