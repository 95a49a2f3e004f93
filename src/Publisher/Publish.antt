-- ===== src/Publisher/Publish.antt =====
-- `Publisher._publish` of runtime/integration.py, from the gate to the merge. The wrapping of its
-- effects in the journal of a scope is `publication_effect` in Scope.
use nortropic_runtime.Prelude.{
  ℕ, String, Bool, true, false, Option, none, some, length, leb, ◌==◌, List, [], ◌∷◌, ◌&&◌, ◌||◌,
  not, Result, ok, err, if◌then◌else◌,
}
use nortropic_runtime.Prelude.Text.{concat, decimal, codes}
use nortropic_runtime.Value.{
  Value, null, int, pos, text, list, items, count_fields, dict, field, end, get_field, is_true,
  is_truthy,
}
use nortropic_runtime.Gate.Require.{GateClosed, equals, targets, require_gate}
use nortropic_runtime.Gate.Recovery.{set_field}
use nortropic_runtime.Workflow.Requests.{fetch}
use nortropic_runtime.Publisher.Remote.{
  Request, git, api, require_history, issue_checks, Closed, closed, gate, raised, Asks, ◌>>=◌, ◌>>◌,
  give, lift, require, ask,
}
use nortropic_runtime.Publisher.Inspect.{as_string, inspect_candidate}
use nortropic_runtime.Publisher.Server.{
  Issuers, same_issuers, present, require_protection, require_checks, require_base, reconcile,
}

-- The gate's exception is the publisher's own.
abbrev pub gate_result : Result GateClosed (Unit {0}) → Result Closed (Unit {0})
gate_result (ok _) = ok tt
gate_result (err e) = err (gate e)

abbrev first_match : List Value → Result Closed (Option Value)
first_match [] = ok none
first_match (m ∷ []) = ok (some m)
first_match (_ ∷ _ ∷ _) = err (closed "Ambiguous publication identity")

-- What has no elements to be taken by their number: empty, too long, or `matches[0]['number']` raises.
abbrev without_match : ℕ → Result Closed (Option Value)
without_match n =
    if leb 2 n
    then err (closed "Ambiguous publication identity")
    else if n == 0
    then ok none
    else err raised

-- The pull requests of the branch: none, or one; what has no `len` raises.
unfoldable pub one_match : Value → Result Closed (Option Value)
one_match (list vs) = first_match (items vs)
one_match (dict fs) = without_match (count_fields fs)
one_match (text s) = without_match (length (codes s))
one_match _ = err raised

-- `str(value)`: the value's own text for what is neither a text nor a whole number.
abbrev as_text : (Value → String) → Value → String
as_text str (int (pos n)) = decimal n
as_text str (text s) = s
as_text str v = str v

-- `str(value['number'])`
unfoldable pub number_of : (Value → String) → Value → Result Closed String
number_of str value = elim (fetch value "number") [
  | none ↦ err raised
  | some number ↦ ok (as_text str number)
]

abbrev pub pulls : String → String
pulls number = concat "pulls/" number

abbrev pub is_merged : Value → Bool
is_merged pr = is_truthy (get_field pr "merged")

abbrev pub head_of : Value → Value
head_of pr = get_field (get_field pr "head") "sha"

-- The body of the merge: of this commit and no other.
abbrev pub merge_body : String → Value
merge_body candidate =
    dict (field "sha" (text candidate) (field "merge_method" (text "squash") end))

-- The body of a new pull request.
unfoldable pub pull_request : Value → Value → Value → String → String → Asks Value
pull_request task subject review candidate branch = do
  id ← lift (present (fetch task "id")) >>= as_string
  task_sha256 ← lift (present (fetch subject "task_sha256")) >>= as_string
  acceptance ← lift (present (fetch subject "acceptance_sha256")) >>= as_string
  reviewer ← lift (present (fetch review "reviewer_run")) >>= as_string
  give (
      dict (
        field "title" (text (concat "Runtime: " id)) (
          field "head" (text branch) (
            field "base" (text "main") (
              field "body"
                (text (
                  concat "Accepted task: " (
                    concat id (
                      concat "\n\nExact candidate: " (
                        concat candidate (
                          concat
                            "\n\nWhole-task tests and independent review passed for the same subject.\nTask SHA256: "
                            (concat task_sha256 (
                              concat "\nAcceptance SHA256: " (
                                concat acceptance
                                  (concat "\nIndependent reviewer run: " reviewer))))))))))
                end)))))

-- `value is None`
abbrev pub is_none : Value → Bool
is_none null = true
is_none _ = false

module _ (digest str : Value → String) (answer : List Request → Request → Result Closed Value) where
  unfoldable pub check_binding : Value → Value → Value → String
  check_binding task subject review = concat "nortropic-check/1:" (
      digest (
        dict (
          field "target" (get_field task "target") (
            field "task" (text (digest task))
              (field "subject" subject (field "review" (text (digest review)) end))))))

  -- An existing pull request, as the server has it now; no such one is `None`.
  unfoldable pub find_pull : String → Asks Value
  unfolding one_match number_of
  find_pull branch = do
    found ← ask answer (api (concat "pulls?state=all&head=Nortropic:" branch) "GET" null)
    first ← lift (one_match found)
    elim first [
      | none ↦ give null
      | some m ↦ do number ← lift (number_of str m); ask answer (api (pulls number) "GET" null)
    ]

  -- An existing one is open and of this commit.
  abbrev pub is_usable : Value → String → Bool
  is_usable pr candidate =
      not (is_truthy pr) || (equals (get_field pr "state") "open" && equals (head_of pr) candidate)

  unfoldable pub open_new : Value → Value → Value → String → String → Asks Value
  open_new task subject review candidate branch = do
    ask answer (require_history candidate)
    body ← pull_request task subject review candidate branch
    ask answer (api "pulls" "POST" body)

  unfoldable pub open_pull : Value → Value → Value → String → String → Value → Asks Value
  unfolding open_new
  open_pull task subject review candidate branch pr =
      if is_none pr then open_new task subject review candidate branch else give pr

  -- The last look before the merge, and the merge.
  unfoldable pub merge_checked :
      Value → Value → Value → String → String → Issuers → String → Asks Value
  merge_checked task subject review candidate base issuers number = do
    require_base answer base
    now ← require_protection answer
    require (same_issuers now issuers) "Mandatory server issuers changed during issuance"
    checks ← require_checks answer candidate issuers (check_binding task subject review)
    ask answer (require_history candidate)
    merged ← ask answer (api (concat (pulls number) "/merge") "PUT" (merge_body candidate))
    require (is_true (get_field merged "merged"))
        "Server did not confirm merge; reconcile before any retry"
    give checks

  -- From the push on.
  unfoldable pub publish_new :
      Value → Value → Value → String → String → String → String → Issuers → Value → Asks Value
  unfolding open_pull merge_checked number_of
  publish_new task subject review candidate base tree branch issuers existing = do
    require_base answer base
    ask answer (require_history candidate)
    ask answer (git ("push" ∷ "origin" ∷ concat candidate (concat ":refs/heads/" branch) ∷ []))
    opened ← open_pull task subject review candidate branch existing
    number ← lift (number_of str opened)
    pr ← ask answer (api (pulls number) "GET" null)
    require (equals (head_of pr) candidate && equals (get_field (get_field pr "base") "ref") "main")
        "PR identity changed"
    require_base answer base
    before ← require_protection answer
    require (same_issuers before issuers) "Mandatory server issuers changed during publication"
    ask answer (issue_checks task subject review)
    checks ← merge_checked task subject review candidate base issuers number
    final ← ask answer (api (pulls number) "GET" null)
    receipt ← reconcile answer final candidate base tree
    give (set_field receipt "checks" checks)

  -- A lost response never causes a second publication.
  unfoldable pub recover_merged :
      Value → Value → Value → String → String → String → Issuers → Value → Asks Value
  recover_merged task subject review candidate base tree issuers pr = do
    checks ← require_checks answer candidate issuers (check_binding task subject review)
    receipt ← reconcile answer pr candidate base tree
    give (set_field receipt "checks" checks)

  unfoldable pub choose :
      Value → Value → Value → String → String → String → String → Issuers → Value → Asks Value
  unfolding publish_new recover_merged
  choose task subject review candidate base tree branch issuers pr =
      if is_truthy pr && is_merged pr
      then recover_merged task subject review candidate base tree issuers pr
      else (require (is_usable pr candidate) "Existing PR is closed or has changed head"
          >> publish_new task subject review candidate base tree branch issuers pr)

  unfoldable pub publish : String → Value → Value → Value → Value → Asks Value
  unfolding find_pull choose
  publish repository task subject tests review = do
    lift (gate_result (require_gate digest task subject tests review targets))
    candidate ← as_string (get_field subject "candidate")
    base ← as_string (get_field subject "base")
    ask answer (require_history candidate)
    tree ← inspect_candidate answer repository task subject
    issuers ← require_protection answer
    existing ← find_pull (concat "runtime/" candidate)
    choose task subject review candidate base tree (concat "runtime/" candidate) issuers existing
