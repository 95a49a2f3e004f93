-- ===== src/Publisher/Traces.antt =====
-- What every request of a computation of runtime/integration.py's Publisher comes after.
use nortropic_runtime.Prelude.{
  String, ◌≡◌, refl, subst, Bool, inl, inr, ◌⊎◌, [], ◌∷◌, ◌++◌, Result, ok, err,
}
use nortropic_runtime.Publisher.Remote.{
  Request, Closed, Log, Asks, after, ◌>>=◌, give, lift, require, ask,
}
use nortropic_runtime.Value.{Value}

-- Every request was permitted by those before it.
abbrev pub IsPermitted : (Log → Request → Type 0) → Log → Type 0
IsPermitted P log =
    (before : Log) (r : Request) (rest : Log) → log ≡ before ++ r ∷ rest → P before r

snoc_split :
    (log before rest : Log) (r x : Request)
    → log ++ x ∷ [] ≡ before ++ r ∷ rest
    → ((log ≡ before) × (x ≡ r)) ⊎ ((end : Log) × (log ≡ before ++ r ∷ end))
snoc_split [] [] rest r x h = inl (refl, cc)
snoc_split [] (b ∷ []) rest r x h = absurd (cc)
snoc_split [] (b ∷ c ∷ before) rest r x h = absurd (cc)
snoc_split (l ∷ log) [] rest r x h = inr (log, cc)
snoc_split (l ∷ log) (b ∷ before) rest r x h =
    let e : log ++ x ∷ [] ≡ before ++ r ∷ rest = cc in
    let e' : l ≡ b = cc in
    elim (snoc_split log before rest r x e) [
      | inl (p, q) ↦ inl (cc, q)
      | inr (end, p) ↦ inr (end, cc)
    ]

pub IsPermitted-nil : (P : Log → Request → Type 0) → IsPermitted P []
IsPermitted-nil P [] r rest h = absurd (cc)
IsPermitted-nil P (b ∷ before) r rest h = absurd (cc)

pub IsPermitted-snoc :
    (P : Log → Request → Type 0) (log : Log) (x : Request)
    → IsPermitted P log
    → P log x
    → IsPermitted P (log ++ x ∷ [])
IsPermitted-snoc P log x all this before r rest h = elim (snoc_split log before rest r x h) [
  | inl (p, q) ↦ subst (λ b. P b r) p (subst (P log) q this)
  | inr (end, p) ↦ all before r end p
]

-- A computation whose requests are all permitted, wherever it starts.
unfoldable pub IsSafe : (Log → Request → Type 0) → {A : Type 0} → Asks A → Type 0
IsSafe P m = (log : Log) → IsPermitted P log → IsPermitted P (m log).1

module _ (P : Log → Request → Type 0) where
  pub give-IsSafe : {A : Type 0} (a : A) → IsSafe P (give a)
  unfolding IsSafe give
  give-IsSafe a log h = h

  pub lift-IsSafe : {A : Type 0} (r : Result Closed A) → IsSafe P (lift r)
  unfolding IsSafe lift
  lift-IsSafe r log h = h

  pub require-IsSafe : (test : Bool) (message : String) → IsSafe P (require test message)
  unfolding IsSafe require
  require-IsSafe test message log h = h

  after_at :
      {A B : Type 0} (out : Result Closed A × Log) (rest : A → Asks B)
      → IsPermitted P out.1
      → ((a : A) → out ≡ (ok a, out.1) → IsPermitted P (rest a out.1).1)
      → IsPermitted P (after out rest).1
  after_at (ok a, l) rest h next = next a refl
  after_at (err x, l) rest h next = h

  -- The rest runs from the log that the first part left, if that returned.
  pub bind_at :
      {A B : Type 0} (first : Asks A) (rest : A → Asks B) (log : Log)
      → IsPermitted P (first log).1
      → ((a : A) → first log ≡ (ok a, (first log).1) → IsPermitted P (rest a (first log).1).1)
      → IsPermitted P ((first >>= rest) log).1
  unfolding ◌>>=◌
  bind_at first rest log h next = after_at (first log) rest h (λ a e. next a e)

  pub bind-IsSafe :
      {A B : Type 0} (first : Asks A) (rest : A → Asks B)
      → IsSafe P first
      → ((a : A) → IsSafe P (rest a))
      → IsSafe P (first >>= rest)
  unfolding IsSafe
  bind-IsSafe first rest f r log h =
      bind_at first rest log (f log h) (λ a e. r a (first log).1 (f log h))

  pub run-IsSafe : {A : Type 0} (m : Asks A) → IsSafe P m → IsPermitted P (m []).1
  unfolding IsSafe
  run-IsSafe m safe = safe [] (IsPermitted-nil P)

  pub ask-IsSafe :
      (answer : Log → Request → Result Closed Value) (r : Request)
      → ((log : Log) → P log r)
      → IsSafe P (ask answer r)
  unfolding IsSafe ask
  ask-IsSafe answer r permitted log h = IsPermitted-snoc P log r h (permitted log)

  -- The rest with the log that the first part left as a name.
  pub bind_step :
      {A B : Type 0} (first : Asks A) (rest : A → Asks B) (log : Log)
      → IsPermitted P (first log).1
      → ((a : A) (l : Log) → first log ≡ (ok a, l) → IsPermitted P l → IsPermitted P (rest a l).1)
      → IsPermitted P ((first >>= rest) log).1
  bind_step first rest log h next = bind_at first rest log h (λ a e. next a (first log).1 e h)
