-- ===== src/Publisher/Inspect.antt =====
-- `Publisher.inspect_candidate` of runtime/integration.py: the commit, its files and their content.
use nortropic_runtime.Prelude.{
  String, Bool, true, false, List, [], ◌∷◌, ◌&&◌, ◌||◌, not, any, all, length, ◌==◌, Result, ok,
  err, str_eq, if◌then◌else◌,
}
use nortropic_runtime.Prelude.Text.{concat, words, split_when, nonempty}
use nortropic_runtime.Value.{Value, text, list, get_field, items}
use nortropic_runtime.Gate.Require.{equals}
use nortropic_runtime.Publisher.Remote.{
  Request, git, require_origin, require_deletion, require_content, Closed, raised, Asks, ◌>>=◌,
  ◌>>◌, give, lift, require, ask,
}

-- The text, where the code goes on with one.
unfoldable pub as_string : Value → Asks String
unfolding lift
as_string (text s) = lift (ok s)
as_string _ = lift (err raised)

abbrev pub are_same : List String → List String → Bool
are_same [] [] = true
are_same (s ∷ ss) (t ∷ ts) = str_eq s t && are_same ss ts
are_same _ _ = false

-- The paths of the change are some of the task's.
unfoldable pub is_within_scope : Value → List String → Bool
is_within_scope (list allowed) paths =
    not (length (items allowed) == 0)
    && not (length paths == 0)
    && all (λ path. any (λ a. equals a path) (items allowed)) paths
is_within_scope _ paths = false

abbrev is_regular_mode : String → Bool
is_regular_mode mode = str_eq mode "100644" || str_eq mode "100755"

abbrev has_regular_mode : List String → Bool
has_regular_mode [] = false
has_regular_mode (mode ∷ _) = is_regular_mode mode

module _ (answer : List Request → Request → Result Closed Value) where
  abbrev pub git_text : List String → Asks String
  git_text args = ask answer (git args) >>= as_string

  -- One changed path: deleted as the guard permits, or a regular file.
  unfoldable pub inspect_path : String → String → String → Asks (Unit {0})
  inspect_path base candidate path = do
    entry ← git_text ("ls-tree" ∷ "-z" ∷ candidate ∷ "--" ∷ path ∷ [])
    if str_eq entry ""
        then (ask answer (require_deletion base path) >> give tt)
        else require (has_regular_mode (words entry)) "Only regular source files may be published"

  unfoldable pub inspect_paths : String → String → List String → Asks (Unit {0})
  unfolding inspect_path
  inspect_paths base candidate [] = give tt
  inspect_paths base candidate (path ∷ paths) =
      inspect_path base candidate path >> inspect_paths base candidate paths

  -- It returns the tree of the candidate.
  unfoldable pub inspect_candidate : String → Value → Value → Asks String
  unfolding inspect_paths
  inspect_candidate repository task subject = do
    require (equals (get_field task "target") repository) "Publisher and accepted target differ"
    ask answer require_origin
    base ← as_string (get_field subject "base")
    candidate ← as_string (get_field subject "candidate")
    parents ← git_text ("rev-list" ∷ "--parents" ∷ "-n" ∷ "1" ∷ candidate ∷ [])
    require (are_same (words parents) (candidate ∷ base ∷ []))
        "Candidate is not one commit on the accepted base"
    changed ← git_text ("diff" ∷ "--no-renames" ∷ "--name-only" ∷ "-z" ∷ base ∷ candidate ∷ [])
    let paths = nonempty (split_when (λ c. c == 0) changed)
    require (is_within_scope (get_field task "allowed_paths") paths)
        "Candidate exceeds accepted file scope"
    inspect_paths base candidate paths
    ask answer (require_content base candidate)
    git_text ("rev-parse" ∷ concat candidate "^{tree}" ∷ [])
