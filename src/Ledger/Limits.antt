-- ===== src/Ledger/Limits.antt =====
-- How often a commit may be measured and diagnosed: `begin` of runtime/failure_ledger.py.
use nortropic_runtime.Prelude.{
  ℕ, ◌≤◌, String, ◌≡◌, refl, sym, subst, ap, ◌∙◌, true, none, some, Bool-cases, inl, inr, List, [],
  ◌∷◌, ◌++◌, All, any-append, count_if, arith, ok, >>=-returns, str_eq, eq_iff,
}
use nortropic_runtime.Prelude.Dict.{Dict, get, get-append_of_none}
use nortropic_runtime.Value.{Value, get_field, eq, find_field}
use nortropic_runtime.Ledger.Records.{
  Files, begin_record, read, begin_records, has_commit, select, are_distinct, begins,
}
use nortropic_runtime.Ledger.Operations.{is_in_phase, beginning}
use nortropic_runtime.Ledger.Growth.{IsLonger, get-IsLonger}
use nortropic_runtime.Ledger.Permanent.{ok-injective, begin_record_lem, begins_lem}

-- Of the runs on every commit at most one is a measurement and at most two are diagnostics.
abbrev pub IsLimited : Files → Type 0
IsLimited files =
    (commit : String) (rows : List Value)
    → begins files commit ≡ ok rows
    → (count_if (is_in_phase "measurement") rows ≤ 1)
      × (count_if (is_in_phase "diagnostic") rows ≤ 2)

abbrev IsListed : Dict Value → String × Value → Type 0
IsListed d p = (w : Value) × (get d p.0 ≡ some w)

IsListed-cons :
    (k : String) (v : Value) (d listed : Dict Value)
    → All (IsListed d) listed
    → All (IsListed ((k, v) ∷ d)) listed
unfolding get
IsListed-cons k v d [] h = tt
IsListed-cons k v d ((j, x) ∷ listed) ((w, e), rest) = (here, IsListed-cons k v d listed rest)
  where
    here : IsListed ((k, v) ∷ d) (j, x)
    here = elim (Bool-cases (str_eq k j)) [
      | inl s ↦ (v, rw (s, get) refl)
      | inr s ↦ (w, rw (s, get) e)
    ]

-- Every key of a dictionary is found in it.
All-IsListed : (d : Dict Value) → All (IsListed d) d
unfolding get
All-IsListed [] = tt
All-IsListed ((k, v) ∷ d) =
    ((v, rw ((eq_iff k k).1 refl, get) refl), IsListed-cons k v d d (All-IsListed d))

begin_record-same :
    (f g : Files) (k : String) (w : Value)
    → get f.begun k ≡ some w
    → get g.begun k ≡ some w
    → begin_record f k ≡ begin_record g k
unfolding begin_record read
begin_record-same f g k w p q = rw (p, q, begin_record, read) refl

-- A listing of longer files begins with the listing before.
begin_records-shorter :
    (f g : Files) (listed : Dict Value) (more : Dict Value) (rows : List Value)
    → IsLonger f.begun g.begun
    → All (IsListed f.begun) listed
    → begin_records g (listed ++ more) ≡ ok rows
    → (before : List Value) × (after : List Value) × (begin_records f listed ≡ ok before)
      × (begin_records g more ≡ ok after)
      × (rows ≡ before ++ after)
unfolding begin_records
begin_records-shorter f g [] more rows longer inside h = ([], rows, refl, h, refl)
begin_records-shorter f g ((k, v) ∷ listed) more rows longer ((w, found), inside) h =
    let (b, hb, h1) = >>=-returns (begin_record g k) _ h in
    let (bs, hbs, h2) = >>=-returns (begin_records g (listed ++ more)) _ h1 in
    let (before, after, p, q, e) = begin_records-shorter f g listed more bs longer inside hbs in
    let same = begin_record-same f g k w found (get-IsLonger f.begun g.begun k w longer found) in
    (
      b ∷ before,
      after,
      rw (same ∙ hb, p, begin_records) refl,
      q,
      sym (ok-injective (b ∷ bs) rows h2) ∙ ap (λ xs. b ∷ xs) e,
    )

select-append :
    (commit : String) (xs ys : List Value)
    → select commit (xs ++ ys) ≡ select commit xs ++ select commit ys
unfolding select
select-append commit [] ys = refl
select-append commit (x ∷ xs) ys = ground (arith, select-append commit xs ys)

distinct-prefix : (xs ys : List Value) → are_distinct (xs ++ ys) ≡ true → are_distinct xs ≡ true
unfolding are_distinct
distinct-prefix [] ys h = refl
distinct-prefix (x ∷ xs) ys h = ground (
  arith,
  distinct-prefix xs ys,
  any-append (λ w. eq (get_field x "attempt") (get_field w "attempt")) xs ys,
)

get-here : (k : String) (v : Value) → get ((k, v) ∷ []) k ≡ some v
unfolding get
get-here k v = rw ((eq_iff k k).1 refl, get) refl

some-injective : (a b : Value) → some a ≡ some b → a ≡ b
some-injective a b h = cc

-- The listing after one more run: the one before, and the run where it is on the commit.
pub begins-added :
    (f g : Files) (commit identifier : String) (v : Value) (rows : List Value)
    → g.begun ≡ f.begun ++ (identifier, v) ∷ []
    → get f.begun identifier ≡ none
    → begins g commit ≡ ok rows
    → (before : List Value) × (begins f commit ≡ ok before)
      × (rows ≡ before ++ select commit (v ∷ []))
unfolding begins begin_records
begins-added f g commit identifier v rows added fresh h =
    let (all_rows, ha, apart, same) = begins_lem g commit rows h in
    let (before, after, p, q, e) =
      begin_records-shorter f g f.begun ((identifier, v) ∷ []) all_rows
        ((identifier, v) ∷ [], added) (All-IsListed f.begun) (rw (← added) ha) in
    let (b, hb, q1) = >>=-returns (begin_record g identifier) _ q in
    let found : get g.begun identifier ≡ some v =
      rw (added, get-append_of_none f.begun ((identifier, v) ∷ []) identifier fresh)
        (get-here identifier v) in
    let this : b ≡ v = some-injective b v (sym (begin_record_lem g identifier b hb) ∙ found) in
    let whole : all_rows ≡ before ++ v ∷ [] =
      e ∙ ap (λ xs. before ++ xs) (sym (ok-injective (b ∷ []) after q1) ∙ ap (λ x. x ∷ []) this) in
    let split : select commit all_rows ≡ select commit before ++ select commit (v ∷ []) =
      ap (select commit) whole ∙ select-append commit before (v ∷ []) in
    let apart_before =
      distinct-prefix (select commit before) (select commit (v ∷ []))
        (subst (λ xs. are_distinct xs ≡ true) split apart) in
    (select commit before, rw (p, apart_before, begins) refl, same ∙ split)

-- Whether the run of that beginning counts.
pub beginning_lem :
    (identifier commit phase source : String) (diagnostic : Value) (n : ℕ) (now other : String)
    → let v = beginning identifier commit phase source diagnostic n now in
      (has_commit other v ≡ str_eq commit other)
      × ((name : String) → is_in_phase name v ≡ str_eq phase name)
unfolding beginning get_field find_field eq
beginning_lem identifier commit phase source diagnostic n now other = (refl, λ name. refl)
