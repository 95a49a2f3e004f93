-- ===== src/Ledger/Permanent.antt =====
-- A failure on a commit stays in the way of its publication: runtime/failure_ledger.py.
use nortropic_runtime.Prelude.{
  String, ◌≡◌, ◌≢◌, refl, sym, subst, ap, ◌∙◌, Bool, true, false, some, Bool-cases, Result-cases,
  inl, inr, List, [], ◌∷◌, not, all, arith, Result, ok, require, >>=-returns, str_eq, eq_iff,
}
use nortropic_runtime.Prelude.Dict.{Dict, get}
use nortropic_runtime.Value.{
  Value, null, bool, int, pos, negsuc, text, list, dict, Items, items, eq, is_true, get_field,
}
use nortropic_runtime.Gate.Require.{is_int}
use nortropic_runtime.Gate.Guards.{equals_lem, true_lem}
use nortropic_runtime.Ledger.Cases.{Refusal, refused, clean_cases}
use nortropic_runtime.Ledger.Records.{
  Files, is_success, is_false, identifier_of, is_beginning, read, is_end, is_optional_digest,
  as_cases, are_same_cases, same_bool, has_passed, begin_record, checked_end, ending, begin_records,
  has_commit, select, are_distinct, begins,
}
use nortropic_runtime.Ledger.Operations.{all_passed, publishable}
use nortropic_runtime.Ledger.History.{Command, run}
use nortropic_runtime.Ledger.Growth.{IsLonger, Grows, get-IsLonger, run-Grows}

pub read_lem : (d : Dict Value) (k : String) (v : Value) → read d k ≡ ok v → get d k ≡ some v
unfolding read
read_lem d k v h = ground arith

read-IsLonger :
    (d e : Dict Value) (k : String) (v : Value) → IsLonger d e → read d k ≡ ok v → read e k ≡ ok v
unfolding read
read-IsLonger d e k v longer h = ground (arith, read_lem d k v h, get-IsLonger d e k v longer)

pub ok-injective : {E A : Type 0} (a b : A) → ◌≡◌ {A = Result E A} (ok a) (ok b) → a ≡ b
ok-injective a b h = cc

pub begin_record_lem :
    (f : Files) (identifier : String) (b : Value)
    → begin_record f identifier ≡ ok b
    → get f.begun identifier ≡ some b
unfolding begin_record
begin_record_lem f identifier b h =
    let (w, e, h1) = >>=-returns (read f.begun identifier) _ h in
    let (_, _, h2) =
      >>=-returns (require (is_beginning identifier w) (refused "Invalid beginning binding")) _
        h1 in
    subst (λ x. get f.begun identifier ≡ some x) (ok-injective w b h2)
      (read_lem f.begun identifier w e)

pub begin_record-Grows :
    (f g : Files) (identifier : String) (b : Value)
    → Grows f g
    → begin_record f identifier ≡ ok b
    → begin_record g identifier ≡ ok b
unfolding begin_record
begin_record-Grows f g identifier b grows h =
    let (w, e, h1) = >>=-returns (read f.begun identifier) _ h in
    rw (read-IsLonger f.begun g.begun identifier w grows.begun e) h1

pub begins_lem :
    (f : Files) (commit : String) (rows : List Value)
    → begins f commit ≡ ok rows
    → (all_rows : List Value) × (begin_records f f.begun ≡ ok all_rows)
      × (are_distinct (select commit all_rows) ≡ true)
      × (rows ≡ select commit all_rows)
unfolding begins
begins_lem f commit rows h =
    let (vs, hvs, h1) = >>=-returns (begin_records f f.begun) _ h in
    (vs, hvs, ground arith, ground arith)

-- Each of the cases has the status of a success.
pub data AreGreen : List Value → Type 0 where
  none_left : AreGreen []
  green_case :
      (case : Value)
      → (cases : List Value) → get_field case "status" ≡ text "success"
      → AreGreen cases
      → AreGreen (case ∷ cases)

-- The primary fields of an end that is a success.
pub record IsGreen (end : Value) : Type 0 where
  pub first : Value
  pub others : List Value
  pub returncode : get_field end "returncode" ≡ int (pos 0)
  pub complete : get_field end "complete" ≡ bool true
  pub undisputed : get_field end "terminal_successful" ≢ bool false
  pub cases : (vs : Items) × (get_field end "cases" ≡ list vs) × (items vs ≡ first ∷ others)
  pub succeeded : AreGreen (first ∷ others)

all-AreGreen : (cases : List Value) → all is_success cases ≡ true → AreGreen cases
all-AreGreen [] h = none_left
all-AreGreen (case ∷ cases) h =
    green_case case cases (equals_lem (get_field case "status") "success" (ground arith))
      (all-AreGreen cases (ground arith))

zero_of : (v : Value) → is_int v ≡ true → eq v (int (pos 0)) ≡ true → v ≡ int (pos 0)
unfolding eq
zero_of (int (pos n)) i h = ap (λ k. int (pos k)) (ground arith)
zero_of (int (negsuc n)) i h = cc
zero_of null i h = cc
zero_of (bool b) i h = cc
zero_of (text s) i h = cc
zero_of (list vs) i h = cc
zero_of (dict fs) i h = cc

undisputed_of : (v : Value) → not (is_false v) ≡ true → v ≢ bool false
undisputed_of v h e =
    let f : not (is_false (bool false)) ≡ true = ap (λ x. not (is_false x)) (sym e) ∙ h in cc

cases_of :
    (v : Value) (cases : List Value)
    → as_cases v ≡ ok cases
    → (vs : Items) × (v ≡ list vs) × (items vs ≡ cases)
cases_of (list vs) cases h = (vs, refl, cc)
cases_of null cases h = absurd (ground arith)
cases_of (bool _) cases h = absurd (ground arith)
cases_of (int _) cases h = absurd (ground arith)
cases_of (text _) cases h = absurd (ground arith)
cases_of (dict _) cases h = absurd (ground arith)

green :
    (end : Value) (cases : List Value)
    → is_int (get_field end "returncode") ≡ true
    → as_cases (get_field end "cases") ≡ ok cases
    → has_passed end cases ≡ true
    → IsGreen end
unfolding has_passed
green end [] i c h = absurd (ground arith)
green end (case ∷ cases) i c h = record {
  first = case;
  others = cases;
  returncode = zero_of (get_field end "returncode") i (ground arith);
  complete = true_lem (get_field end "complete") (ground arith);
  undisputed = undisputed_of (get_field end "terminal_successful") (ground arith);
  cases = cases_of (get_field end "cases") (case ∷ cases) c;
  succeeded = all-AreGreen (case ∷ cases) (ground arith);
}

required : (test : Bool) (x : Refusal) (u : Unit {0}) → require test x ≡ ok u → test ≡ true
required true x u h = refl
required false x u h = absurd (ground arith)

agrees :
    (passed found : Bool) (u : Unit {0})
    → passed ≡ true
    → require (same_bool passed found) (refused "Terminal success contradicts primary fields")
      ≡ ok u
    → found ≡ true
agrees true true u e h = refl
agrees true false u e h = absurd (ground arith)
agrees false found u e h = absurd (ground arith)

module _ (digest : Value → String) (is_unsafe : Value → Bool)
    (digest_of_name : Value → String) where
  abbrev pub HasPassed : Files → Value → Type 0
  HasPassed f b =
      (e : Value) × (ending digest is_unsafe digest_of_name f b ≡ ok e)
      × (is_true (get_field e "passed") ≡ true)

  all_passed-cons :
      (f : Files) (b : Value) (rows : List Value)
      → all_passed digest is_unsafe digest_of_name f (b ∷ rows) ≡ true
      → HasPassed f b × (all_passed digest is_unsafe digest_of_name f rows ≡ true)
  unfolding all_passed
  all_passed-cons f b rows h = elim (Result-cases (ending digest is_unsafe digest_of_name f b)) [
    | inr (x, e) ↦ absurd (ground arith)
    | inl (v, e) ↦ ((v, e, ground arith), ground arith)
  ]

  all_passed-select :
      (f : Files) (commit : String) (b : Value) (rows : List Value)
      → all_passed digest is_unsafe digest_of_name f (select commit (b ∷ rows)) ≡ true
      → (has_commit commit b ≡ true → HasPassed f b)
        × (all_passed digest is_unsafe digest_of_name f (select commit rows) ≡ true)
  unfolding select
  all_passed-select f commit b rows h = elim (Bool-cases (has_commit commit b)) [
    | inl e ↦
        let kept : select commit (b ∷ rows) ≡ b ∷ select commit rows = rw (e, select) refl in
        let (p, rest) =
          all_passed-cons f b (select commit rows)
            (subst (λ rs. all_passed digest is_unsafe digest_of_name f rs ≡ true) kept h) in
        ((λ _. p), rest)
    | inr e ↦
        let dropped : select commit (b ∷ rows) ≡ select commit rows = rw (e, select) refl in
        (
          (λ c. absurd (ground (arith, sym c ∙ e))),
          subst (λ rs. all_passed digest is_unsafe digest_of_name f rs ≡ true) dropped h,
        )
  ]

  -- A run that stands in the listing is among those that must have passed.
  passed-of_listed :
      (f : Files) (listed : Dict Value) (rows : List Value) (commit identifier : String)
      (w b : Value)
      → begin_records f listed ≡ ok rows
      → get listed identifier ≡ some w
      → begin_record f identifier ≡ ok b
      → has_commit commit b ≡ true
      → all_passed digest is_unsafe digest_of_name f (select commit rows) ≡ true
      → HasPassed f b
  unfolding begin_records get
  passed-of_listed f [] rows commit identifier w b h g r c p = cc
  passed-of_listed f ((j, x) ∷ rest) rows commit identifier w b h g r c p =
      let (v, hv, h1) = >>=-returns (begin_record f j) _ h in
      let (vs, hvs, h2) = >>=-returns (begin_records f rest) _ h1 in
      let same : rows ≡ v ∷ vs = cc in
      let (passed, others) = all_passed-select f commit v vs (
        subst (λ rs. all_passed digest is_unsafe digest_of_name f (select commit rs) ≡ true) same
          p) in
      elim (Bool-cases (str_eq j identifier)) [
        | inl e ↦
            let key = (eq_iff j identifier).0 e in
            let this : v ≡ b = ok-injective v b (sym hv ∙ ap (begin_record f) key ∙ r) in
            subst (HasPassed f) this (passed (subst (λ u. has_commit commit u ≡ true) (sym this) c))
        | inr e ↦ passed-of_listed f rest vs commit identifier w b hvs (ground arith) r c others
      ]

  publishable_lem :
      (f : Files) (commit : String)
      → publishable digest is_unsafe digest_of_name f commit ≡ ok true
      → (rows : List Value) × (begins f commit ≡ ok rows)
        × (all_passed digest is_unsafe digest_of_name f rows ≡ true)
  unfolding publishable
  publishable_lem f commit h =
      let (rows, e, h1) = >>=-returns (begins f commit) _ h in (rows, e, ok-injective _ _ h1)

  int_of :
      (b w : Value) (u : Unit {0})
      → require (is_end digest b w) (refused "Invalid terminal binding") ≡ ok u
      → is_int (get_field w "returncode") ≡ true
  unfolding is_end
  int_of b w u h = let e = required (is_end digest b w) _ u h in ground (arith, e)

  -- The end is a success in its own fields, whatever it says of itself.
  checked_end-IsGreen :
      (b w e : Value)
      → checked_end digest is_unsafe digest_of_name b w ≡ ok e
      → is_true (get_field w "passed") ≡ true
      → IsGreen w
  unfolding checked_end
  checked_end-IsGreen b w e h passed =
      let (_, r, h1) =
        >>=-returns (require (is_end digest b w) (refused "Invalid terminal binding")) _ h in
      let (_, _, h2) =
        >>=-returns (require (is_optional_digest w) (refused "Invalid primary observation binding"))
          _ h1 in
      let (cases, c, h3) = >>=-returns (as_cases (get_field w "cases")) _ h2 in
      let (rows, _, h4) =
        >>=-returns (clean_cases is_unsafe digest_of_name (get_field w "cases")) _ h3 in
      let (_, _, h5) =
        >>=-returns (require (are_same_cases cases rows) (refused "Invalid terminal case binding"))
          _ h4 in
      let (_, q, h6) =
        >>=-returns
          (require (same_bool (is_true (get_field w "passed")) (has_passed w cases))
            (refused "Terminal success contradicts primary fields"))
          _ h5 in
      green w cases (int_of b w _ r) c
        (agrees (is_true (get_field w "passed")) (has_passed w cases) _ passed q)

  checked_end_lem : (b w e : Value) → checked_end digest is_unsafe digest_of_name b w ≡ ok e → w ≡ e
  unfolding checked_end
  checked_end_lem b w e h =
      let (_, _, h1) =
        >>=-returns (require (is_end digest b w) (refused "Invalid terminal binding")) _ h in
      let (_, _, h2) =
        >>=-returns (require (is_optional_digest w) (refused "Invalid primary observation binding"))
          _ h1 in
      let (cases, _, h3) = >>=-returns (as_cases (get_field w "cases")) _ h2 in
      let (rows, _, h4) =
        >>=-returns (clean_cases is_unsafe digest_of_name (get_field w "cases")) _ h3 in
      let (_, _, h5) =
        >>=-returns (require (are_same_cases cases rows) (refused "Invalid terminal case binding"))
          _ h4 in
      let (_, _, h6) =
        >>=-returns
          (require (same_bool (is_true (get_field w "passed")) (has_passed w cases))
            (refused "Terminal success contradicts primary fields"))
          _ h5 in
      ok-injective w e h6

  ending_lem :
      (f : Files) (b w e : Value)
      → read f.finished (identifier_of b) ≡ ok w
      → ending digest is_unsafe digest_of_name f b ≡ ok e
      → w ≡ e
  unfolding ending
  ending_lem f b w e r h =
      let (u, q, h1) = >>=-returns (read f.finished (identifier_of b)) _ h in
      ok-injective w u (sym r ∙ q) ∙ checked_end_lem b u e h1

  passed_of_publishable :
      (files : Files) (commit identifier : String) (b : Value)
      → publishable digest is_unsafe digest_of_name files commit ≡ ok true
      → begin_record files identifier ≡ ok b
      → has_commit commit b ≡ true
      → HasPassed files b
  passed_of_publishable files commit identifier b h r c =
      let (rows, hb, p) = publishable_lem files commit h in
      let (listed, hl, _, same) = begins_lem files commit rows hb in
      passed-of_listed files files.begun listed commit identifier b b hl
        (begin_record_lem files identifier b r) r c
        (subst (λ rs. all_passed digest is_unsafe digest_of_name files rs ≡ true) same p)

  -- A commit is publishable only when every run that began on it has a stored end that says it
  -- passed, and whose own fields say so too: its return code is 0, it is complete, its terminal
  -- success is not denied, and it has cases, each of them with the status of a success.
  pub publishable_needs_all :
      (files : Files) (commit identifier : String) (b : Value)
      → publishable digest is_unsafe digest_of_name files commit ≡ ok true
      → begin_record files identifier ≡ ok b
      → has_commit commit b ≡ true
      → (e : Value) × (read files.finished (identifier_of b) ≡ ok e)
        × (ending digest is_unsafe digest_of_name files b ≡ ok e)
        × (is_true (get_field e "passed") ≡ true)
        × IsGreen e
  unfolding ending
  publishable_needs_all files commit identifier b h r c =
      let (e, ends, passed) = passed_of_publishable files commit identifier b h r c in
      let (w, stored, checks) = >>=-returns (read files.finished (identifier_of b)) _ ends in
      let same : w ≡ e = checked_end_lem b w e checks in
      let is_green =
        checked_end-IsGreen b w e checks (ap (λ v. is_true (get_field v "passed")) same ∙ passed) in
      (e, stored ∙ ap ok same, ends, passed, subst IsGreen same is_green)

  -- Once a run on a commit has ended without success, no operations on the ledger make that commit
  -- publishable: later runs on it, later ends and classifications included.
  pub failure_is_permanent :
      (manifest_digest : Value → String) (files : Files) (cs : List Command)
      (commit identifier : String) (b e : Value)
      → begin_record files identifier ≡ ok b
      → has_commit commit b ≡ true
      → read files.finished (identifier_of b) ≡ ok e
      → is_true (get_field e "passed") ≡ false
      → publishable digest is_unsafe digest_of_name
          (run digest is_unsafe digest_of_name manifest_digest cs files)
          commit
        ≢ ok true
  failure_is_permanent manifest_digest files cs commit identifier b e r c ended failed h =
      let g = run digest is_unsafe digest_of_name manifest_digest cs files in
      let grows = run-Grows digest is_unsafe digest_of_name manifest_digest cs files in
      let (v, hv, passed) =
        passed_of_publishable g commit identifier b h
          (begin_record-Grows files g identifier b grows r) c in
      let kept : e ≡ v =
        ending_lem g b e v
          (read-IsLonger files.finished g.finished (identifier_of b) e grows.finished ended) hv in
      ground (arith, ap (λ x. is_true (get_field x "passed")) kept)
