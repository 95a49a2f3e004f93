-- ===== src/Publisher/Protection.antt =====
-- What the answer that `require_protection` of runtime/integration.py's Publisher accepts has in it.
use nortropic_runtime.Prelude.{
  ℕ, String, ◌≡◌, refl, ap, subst, ◌∙◌, true, false, Bool-cases, Option-cases, Option, none, some,
  List, [], ◌∷◌, ◌++◌, ◌&&◌, inl, inr, ◌⊎◌, leb, Result, ok, arith,
}
use nortropic_runtime.Value.{
  Value, null, bool, int, pos, negsuc, text, list, dict, Items, items, get_field, is_true, is_dict,
  as_list,
}
use nortropic_runtime.Gate.Guards.{equals_lem}
use nortropic_runtime.Publisher.Remote.{Request, api, Closed, Log, lift, require, ask}
use nortropic_runtime.Publisher.Server.{
  Issuers, same_issuers, issuers_of, entries_of, app_number, app_of, is_false, is_protected,
  require_protection, both, trusted, has_context,
}
use nortropic_runtime.Publisher.Returns.{
  asks-returns, ask-returns, require-returns, lift-returns, given, as_list_lem,
}

pub same_issuers-eq : (a b : Issuers) → same_issuers a b ≡ true → a ≡ b
unfolding same_issuers
same_issuers-eq a b h =
    let p : a.tests ≡ b.tests = ground arith in
    let q : a.review ≡ b.review = ground arith in λ i. record { tests = p i; review = q i }

-- The rules of the main branch.
pub record AreRules (protection : Value) : Type 0 where
  pub strict : get_field (get_field protection "required_status_checks") "strict" ≡ bool true
  pub for_admins : get_field (get_field protection "enforce_admins") "enabled" ≡ bool true
  pub not_forced : get_field (get_field protection "allow_force_pushes") "enabled" ≡ bool false
  pub not_deleted : get_field (get_field protection "allow_deletions") "enabled" ≡ bool false
  pub linear : get_field (get_field protection "required_linear_history") "enabled" ≡ bool true

-- A mandatory check and its App.
pub record IsMandatory (name : String) (issuer : ℕ) (entry : Value) : Type 0 where
  pub named : get_field entry "context" ≡ text name
  pub issued : get_field entry "app_id" ≡ int (pos issuer)

-- The mandatory checks are the two, in either order.
pub record AreMandatory (issuers : Issuers) (protection : Value) : Type 0 where
  pub entries : Items
  pub listed : get_field (get_field protection "required_status_checks") "checks" ≡ list entries
  pub tests : Value
  pub review : Value
  pub tests_mandatory : IsMandatory "runtime/tests" issuers.tests tests
  pub review_mandatory : IsMandatory "runtime/review" issuers.review review
  pub no_other : (items entries ≡ tests ∷ review ∷ []) ⊎ (items entries ≡ review ∷ tests ∷ [])

true_lem : (v : Value) → is_true v ≡ true → v ≡ bool true
true_lem (bool b) h = cc
true_lem null h = cc
true_lem (int _) h = cc
true_lem (text _) h = cc
true_lem (list _) h = cc
true_lem (dict _) h = cc

false_lem : (v : Value) → is_false v ≡ true → v ≡ bool false
false_lem (bool false) h = refl
false_lem (bool true) h = cc
false_lem null h = cc
false_lem (int _) h = cc
false_lem (text _) h = cc
false_lem (list _) h = cc
false_lem (dict _) h = cc

protected-AreRules : (protection : Value) → is_protected protection ≡ true → AreRules protection
unfolding is_protected
protected-AreRules protection h = record {
  strict = true_lem _ (ground arith);
  for_admins = true_lem _ (ground arith);
  not_forced = false_lem _ (ground arith);
  not_deleted = false_lem _ (ground arith);
  linear = true_lem _ (ground arith);
}

app_lem : (v : Value) (n : ℕ) → app_number v ≡ some n → v ≡ int (pos n)
app_lem (int (pos m)) n h = elim (Bool-cases (leb 1 m)) [
  | inl e ↦ let p : m ≡ n = ground arith in ap (λ k. int (pos k)) p
  | inr e ↦ absurd (ground arith)
]
app_lem (int (negsuc m)) n h = cc
app_lem null n h = cc
app_lem (bool _) n h = cc
app_lem (text _) n h = cc
app_lem (list _) n h = cc
app_lem (dict _) n h = cc

trusted_lem :
    (t r : Option ℕ) (issuers : Issuers)
    → trusted (both t r) ≡ ok issuers
    → (t ≡ some issuers.tests) × (r ≡ some issuers.review)
trusted_lem none r issuers h = absurd (cc)
trusted_lem (some t) none issuers h = absurd (cc)
trusted_lem (some t) (some r) issuers h =
    let e : record { tests = t; review = r } ≡ issuers = cc in
    (ap (λ x. some x.tests) e, ap (λ x. some x.review) e)

mandatory :
    (name : String) (n : ℕ) (entry : Value)
    → has_context name entry ≡ true
    → app_of entry ≡ some n
    → IsMandatory name n entry
mandatory name n entry c a = record { named = equals_lem _ name c; issued = app_lem _ n a }

pair_lem :
    (a b : Value) (issuers : Issuers)
    → issuers_of (a ∷ b ∷ []) ≡ ok issuers
    → (IsMandatory "runtime/tests" issuers.tests a × IsMandatory "runtime/review" issuers.review b)
      ⊎ (IsMandatory "runtime/tests" issuers.tests b
          × IsMandatory "runtime/review" issuers.review a)
unfolding issuers_of
pair_lem a b issuers h = elim (Bool-cases (is_dict a && is_dict b)) [
  | inr d ↦ absurd (ground arith)
  | inl d ↦ elim (Bool-cases (has_context "runtime/tests" a && has_context "runtime/review" b)) [
    | inl c ↦
        let f : trusted (both (app_of a) (app_of b)) ≡ ok issuers = ground arith in
        let (p, q) = trusted_lem (app_of a) (app_of b) issuers f in
        inl (mandatory _ _ a (ground arith) p, mandatory _ _ b (ground arith) q)
    | inr c ↦ elim (Bool-cases (has_context "runtime/review" a && has_context "runtime/tests" b)) [
      | inl c' ↦
          let f : trusted (both (app_of b) (app_of a)) ≡ ok issuers = ground arith in
          let (p, q) = trusted_lem (app_of b) (app_of a) issuers f in
          inr (mandatory _ _ b (ground arith) p, mandatory _ _ a (ground arith) q)
      | inr c' ↦ absurd (ground arith)
    ]
  ]
]

two_entries :
    (entries : List Value) (issuers : Issuers)
    → issuers_of entries ≡ ok issuers
    → (a : Value) × (b : Value) × (entries ≡ a ∷ b ∷ [])
unfolding issuers_of
two_entries [] issuers h = absurd (cc)
two_entries (a ∷ []) issuers h = absurd (cc)
two_entries (a ∷ b ∷ []) issuers h = (a, b, refl)
two_entries (a ∷ b ∷ c ∷ rest) issuers h = absurd (cc)

issuers_of-AreMandatory :
    (protection : Value) (issuers : Issuers)
    → issuers_of (entries_of (get_field protection "required_status_checks")) ≡ ok issuers
    → AreMandatory issuers protection
issuers_of-AreMandatory protection issuers h =
    let checks = get_field (get_field protection "required_status_checks") "checks" in
    elim (Option-cases (as_list checks)) [
      | inl e ↦
          let f : issuers_of [] ≡ ok issuers = ground arith in
          let (a, b, g) = two_entries [] issuers f in absurd (cc)
      | inr (vs, e) ↦
          let f : issuers_of vs ≡ ok issuers = ground arith in
          let (a, b, g) = two_entries vs issuers f in
          let (ws, listed, same) = as_list_lem checks vs e in
          let f' : issuers_of (a ∷ b ∷ []) ≡ ok issuers =
            subst (λ es. issuers_of es ≡ ok issuers) g f in
          elim (pair_lem a b issuers f') [
            | inl (p, q) ↦ record {
              entries = ws;
              listed = listed;
              tests = a;
              review = b;
              tests_mandatory = p;
              review_mandatory = q;
              no_other = inl (same ∙ g);
            }
            | inr (p, q) ↦ record {
              entries = ws;
              listed = listed;
              tests = b;
              review = a;
              tests_mandatory = p;
              review_mandatory = q;
              no_other = inr (same ∙ g);
            }
          ]
    ]

abbrev pub read_protection : Request
read_protection = api "branches/main/protection" "GET" null

-- The server's rules are in force, and name the two checks with their Apps.
pub require_protection-returns :
    (answer : Log → Request → Result Closed Value) (log : Log) (issuers : Issuers) (l : Log)
    → require_protection answer log ≡ (ok issuers, l)
    → (protection : Value) × (answer log read_protection ≡ ok protection)
      × (l ≡ log ++ read_protection ∷ [])
      × AreRules protection
      × AreMandatory issuers protection
unfolding require_protection
require_protection-returns answer log issuers l h =
    let (protection, l1, e1, h1) = asks-returns (ask answer read_protection) _ log issuers l h in
    let (u, l2, e2, h2) = asks-returns (require _ _) _ l1 issuers l h1 in
    let (found, l3, e3, h3) =
      asks-returns (lift (issuers_of (entries_of (get_field protection "required_status_checks"))))
        _ l2 issuers l h2 in
    let (v, l4, e4, h4) = asks-returns (require (is_protected protection) _) _ l3 issuers l h3 in
    let (seen, at1) = ask-returns answer read_protection log protection l1 e1 in
    let (is_dictionary, at2) = require-returns _ _ l1 u l2 e2 in
    let (two, at3) = lift-returns _ l2 found l3 e3 in
    let (rules, at4) = require-returns (is_protected protection) _ l3 v l4 e4 in
    let (same, at5) = given found l4 issuers l h4 in
    (
      protection,
      seen,
      at5 ∙ at4 ∙ at3 ∙ at2 ∙ at1,
      protected-AreRules protection rules,
      issuers_of-AreMandatory protection issuers (two ∙ ap ok same),
    )
