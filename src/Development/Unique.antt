-- ===== src/Development/Unique.antt =====
-- The requests that runtime/development_workflow.py gives to the engine, over every list of events.
use nortropic_runtime.Prelude.{
  ℕ, suc, ◌≤◌, String, ◌≡◌, sym, subst, ◌∙◌, inl, inr, ◌⊎◌, List, [], ◌∷◌, ◌++◌, arith,
}
use package.text.Mathlib.TextLemmas.{append_cancel_left}
use nortropic_runtime.Prelude.Decimal.{decimal-injective}
use nortropic_runtime.Value.{Value, null, text, get_field}
use nortropic_runtime.Development.State.{
  Program, Effect, execute, start_child, cancel_child, signal_child, initial, Event,
}
use nortropic_runtime.Development.Steps.{key_of}
use nortropic_runtime.Development.Run.{run}
use nortropic_runtime.Development.Keys.{
  IsCounted, nothing, fresh, again, starts, cancels, signals, IsKeyed,
}
use nortropic_runtime.Development.Keyed.{run-IsKeyed}

-- The activity was executed under that sequence with that request.
abbrev pub IsExecuted : ℕ → Value → List Effect → Type 0
IsExecuted n r es =
    (before : List Effect) × (rest : List Effect) × (es ≡ before ++ execute n r ∷ rest)

snoc_split :
    (es before rest : List Effect) (r x : Effect)
    → es ++ x ∷ [] ≡ before ++ r ∷ rest
    → (x ≡ r) ⊎ ((end : List Effect) × (es ≡ before ++ r ∷ end))
snoc_split [] [] rest r x h = inl (cc)
snoc_split [] (b ∷ []) rest r x h = absurd (cc)
snoc_split [] (b ∷ c ∷ before) rest r x h = absurd (cc)
snoc_split (l ∷ es) [] rest r x h = inr (es, cc)
snoc_split (l ∷ es) (b ∷ before) rest r x h =
    let e : es ++ x ∷ [] ≡ before ++ r ∷ rest = cc in
    let e' : l ≡ b = cc in
    elim (snoc_split es before rest r x e) [ inl p ↦ inl p | inr (end, p) ↦ inr (end, cc) ]

same_execution : (n m : ℕ) (x r : Value) → execute n x ≡ execute m r → (m ≡ n) × (r ≡ x)
same_execution n m x r p = (cc, cc)

-- Not above the count, and at the count it is the last request.
past :
    (identity : String) (es : List Effect) (n : ℕ) (last : Value)
    → IsCounted identity es n last
    → (m : ℕ) (r : Value) → IsExecuted m r es
    → (m ≤ n) × (m ≡ n → r ≡ last) × (get_field r "key" ≡ text (key_of identity m))
past identity es n last (nothing _) m r ([], rest, e) = absurd (cc)
past identity es n last (nothing _) m r (b ∷ before, rest, e) = absurd (cc)
past identity es n last (fresh {es = es'} {n = n'} {r = r'} next named c) m r (before, rest, e) =
    elim (snoc_split es' before rest (execute m r) (execute (suc n') next) e) [
      | inl p ↦
          let (q, same) = same_execution (suc n') m next r p in (ground arith, (λ x. same), cc)
      | inr (end, p) ↦
          let (below, same, names) = past identity es' n' r' c m r (before, end, p) in
          (ground arith, (λ q. absurd (ground arith)), names)
    ]
past identity es n last (again {es = es'} named c) m r (before, rest, e) =
    elim (snoc_split es' before rest (execute m r) (execute n last) e) [
      | inl p ↦ let (q, same) = same_execution n m last r p in (ground arith, (λ x. same), cc)
      | inr (end, p) ↦ past identity es' n last c m r (before, end, p)
    ]
past identity es n last (starts {es = es'} task c) m r (before, rest, e) =
    elim (snoc_split es' before rest (execute m r) (start_child task) e) [
      | inl p ↦ absurd (cc)
      | inr (end, p) ↦ past identity es' n last c m r (before, end, p)
    ]
past identity es n last (cancels {es = es'} task c) m r (before, rest, e) =
    elim (snoc_split es' before rest (execute m r) (cancel_child task) e) [
      | inl p ↦ absurd (cc)
      | inr (end, p) ↦ past identity es' n last c m r (before, end, p)
    ]
past identity es n last (signals {es = es'} task name request c) m r (before, rest, e) =
    elim (snoc_split es' before rest (execute m r) (signal_child task name request) e) [
      | inl p ↦ absurd (cc)
      | inr (end, p) ↦ past identity es' n last c m r (before, end, p)
    ]

one_request :
    (identity : String) (es : List Effect) (n : ℕ) (last : Value)
    → IsCounted identity es n last
    → (m : ℕ) (r s : Value) → IsExecuted m r es
    → IsExecuted m s es
    → r ≡ s
one_request identity es n last (nothing _) m r s ([], rest, e) y = absurd (cc)
one_request identity es n last (nothing _) m r s (b ∷ before, rest, e) y = absurd (cc)
one_request identity es n last (fresh {es = es'} {n = n'} {r = r'} next named c) m r s
      (before, rest, e) (before', rest', e') =
    elim (snoc_split es' before rest (execute m r) (execute (suc n') next) e) [
      | inl p ↦ elim (snoc_split es' before' rest' (execute m s) (execute (suc n') next) e') [
        | inl q ↦ cc
        | inr (end, q) ↦
            let (below, at_last, names) = past identity es' n' r' c m s (before', end, q) in
            let (at, same) = same_execution (suc n') m next r p in absurd (ground arith)
      ]
      | inr (end, p) ↦
          elim (snoc_split es' before' rest' (execute m s) (execute (suc n') next) e') [
            | inl q ↦
                let (below, at_last, names) = past identity es' n' r' c m r (before, end, p) in
                let (at, same) = same_execution (suc n') m next s q in absurd (ground arith)
            | inr (end', q) ↦
                one_request identity es' n' r' c m r s (before, end, p) (before', end', q)
          ]
    ]
one_request identity es n last (again {es = es'} named c) m r s (before, rest, e)
      (before', rest', e') =
    elim (snoc_split es' before rest (execute m r) (execute n last) e) [
      | inl p ↦
          let (at, same) = same_execution n m last r p in
          same ∙ sym ((past identity es n last (again named c) m s (before', rest', e')).1 at)
      | inr (end, p) ↦ elim (snoc_split es' before' rest' (execute m s) (execute n last) e') [
        | inl q ↦
            let (at, same) = same_execution n m last s q in
            (past identity es' n last c m r (before, end, p)).1 at ∙ sym same
        | inr (end', q) ↦
            one_request identity es' n last c m r s (before, end, p) (before', end', q)
      ]
    ]
one_request identity es n last (starts {es = es'} task c) m r s (before, rest, e)
      (before', rest', e') =
    elim (snoc_split es' before rest (execute m r) (start_child task) e) [
      | inl p ↦ absurd (cc)
      | inr (end, p) ↦ elim (snoc_split es' before' rest' (execute m s) (start_child task) e') [
        | inl q ↦ absurd (cc)
        | inr (end', q) ↦
            one_request identity es' n last c m r s (before, end, p) (before', end', q)
      ]
    ]
one_request identity es n last (cancels {es = es'} task c) m r s (before, rest, e)
      (before', rest', e') =
    elim (snoc_split es' before rest (execute m r) (cancel_child task) e) [
      | inl p ↦ absurd (cc)
      | inr (end, p) ↦ elim (snoc_split es' before' rest' (execute m s) (cancel_child task) e') [
        | inl q ↦ absurd (cc)
        | inr (end', q) ↦
            one_request identity es' n last c m r s (before, end, p) (before', end', q)
      ]
    ]
one_request identity es n last (signals {es = es'} task name request c) m r s (before, rest, e)
      (before', rest', e') =
    elim (snoc_split es' before rest (execute m r) (signal_child task name request) e) [
      | inl p ↦ absurd (cc)
      | inr (end, p) ↦
          elim (snoc_split es' before' rest' (execute m s) (signal_child task name request) e') [
            | inl q ↦ absurd (cc)
            | inr (end', q) ↦
                one_request identity es' n last c m r s (before, end, p) (before', end', q)
          ]
    ]

initial-IsKeyed : (identity : String) → IsKeyed identity initial
unfolding IsKeyed initial
initial-IsKeyed identity = (null, nothing null, tt)

key_of-injective : (identity : String) (n m : ℕ) → key_of identity n ≡ key_of identity m → n ≡ m
unfolding key_of
key_of-injective identity n m h = decimal-injective n m (append_cancel_left _ _ _ h)

-- Whatever the engine, the host and the child do, in any order: an activity that is executed under
-- a sequence carries the key of the run's identity and that sequence; and where two executions have
-- the same sequence or the same key, they have both the same and are of the very same request. So
-- no key is ever used for a second operation.
pub one_request_for_a_key :
    (program : Program) (identity : String) (events : List Event) (n m : ℕ) (r s : Value)
    → IsExecuted n r (run program identity events initial).effects
    → IsExecuted m s (run program identity events initial).effects
    → (n ≡ m) ⊎ (get_field r "key" ≡ get_field s "key")
    → (n ≡ m) × (r ≡ s) × (get_field r "key" ≡ text (key_of identity n))
unfolding IsKeyed
one_request_for_a_key program identity events n m r s x y shared =
    let p = run program identity events initial in
    let (last, c, held) = run-IsKeyed program identity events initial (initial-IsKeyed identity) in
    let (_, _, key) = past identity p.effects p.sequence last c n r x in
    let (_, _, key') = past identity p.effects p.sequence last c m s y in
    let same : n ≡ m = elim shared [
      | inl e ↦ e
      | inr e ↦
          let keys : text (key_of identity n) ≡ text (key_of identity m) = sym key ∙ e ∙ key' in
          key_of-injective identity n m cc
    ] in
    let y' = subst (λ k. IsExecuted k s p.effects) (sym same) y in
    (same, one_request identity p.effects p.sequence last c n r s x y', key)
