-- ===== src/Decisions/Retained.antt =====
-- `retained` of runtime/decision_guard.py.
use nortropic_runtime.Prelude.{
  String, Bool, true, false, Option, none, some, List, [], ◌∷◌, str_eq, if◌then◌else◌,
}
use nortropic_runtime.Prelude.Text.{words}

-- `any(n == token for n in remaining)`: the iterator is left behind the first match.
unfoldable pub consume : String → List String → Option (List String)
consume token [] = none
consume token (n ∷ remaining) =
    let rest = consume token remaining in if str_eq n token then some remaining else rest

unfoldable pub retained_tokens : List String → List String → Bool
retained_tokens [] remaining = true
retained_tokens (token ∷ tokens) remaining = elim (consume token remaining) [
  | none ↦ false
  | some rest ↦ retained_tokens tokens rest
]

-- Wrapping and whitespace are ignored.
unfoldable pub retained : String → String → Bool
unfolding retained_tokens
retained old new = retained_tokens (words old) (words new)
