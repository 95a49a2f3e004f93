-- ===== src/Publisher/Returns.antt =====
-- What a computation of runtime/integration.py's Publisher has done where it returns, and what the main branch
-- then showed to `require_base`.
use nortropic_runtime.Prelude.{
  String, ◌≡◌, refl, Bool, true, false, some, List, [], ◌∷◌, ◌++◌, str_eq, eq_iff, Result, ok, err,
  arith,
}
use nortropic_runtime.Value.{Value, null, bool, int, text, list, dict, Items, items, as_list}
use nortropic_runtime.Publisher.Remote.{
  Request, git, Closed, closed, raised, Log, Asks, after, ◌>>=◌, give, lift, require, ask,
}
use nortropic_runtime.Publisher.Inspect.{as_string}
use nortropic_runtime.Publisher.Server.{require_base}

after-returns :
    {A B : Type 0} (out : Result Closed A × Log) (rest : A → Asks B) (b : B) (l : Log)
    → after out rest ≡ (ok b, l)
    → (a : A) × (m : Log) × (out ≡ (ok a, m)) × (rest a m ≡ (ok b, l))
after-returns (ok a, m) rest b l h = (a, m, refl, h)
after-returns (err x, m) rest b l h = let f : err x ≡ ok b = cc in absurd (ground arith)

-- Where the whole returns, its first part did, and the rest from there.
pub asks-returns :
    {A B : Type 0} (first : Asks A) (rest : A → Asks B) (log : Log) (b : B) (l : Log)
    → (first >>= rest) log ≡ (ok b, l)
    → (a : A) × (m : Log) × (first log ≡ (ok a, m)) × (rest a m ≡ (ok b, l))
unfolding ◌>>=◌
asks-returns first rest log b l h = after-returns (first log) rest b l h

pub ask-returns :
    (answer : Log → Request → Result Closed Value) (r : Request) (log : Log) (v : Value) (l : Log)
    → ask answer r log ≡ (ok v, l)
    → (answer log r ≡ ok v) × (l ≡ log ++ r ∷ [])
unfolding ask
ask-returns answer r log v l h = (cc, cc)

pub require-returns :
    (test : Bool) (message : String) (log : Log) (u : Unit {0}) (l : Log)
    → require test message log ≡ (ok u, l)
    → (test ≡ true) × (l ≡ log)
unfolding require lift
require-returns true message log u l h = (refl, cc)
require-returns false message log u l h =
    let e : err (closed message) ≡ ok u = cc in absurd (ground arith)

pub lift-returns :
    {A : Type 0} (r : Result Closed A) (log : Log) (a : A) (l : Log)
    → lift r log ≡ (ok a, l)
    → (r ≡ ok a) × (l ≡ log)
unfolding lift
lift-returns r log a l h = (cc, cc)

pub give-returns :
    {A : Type 0} (a : A) (log : Log) (b : A) (l : Log) → give a log ≡ (ok b, l) → l ≡ log
unfolding give
give-returns a log b l h = cc

pub given :
    {A : Type 0} (a : A) (log : Log) (b : A) (l : Log)
    → give a log ≡ (ok b, l)
    → (a ≡ b) × (l ≡ log)
unfolding give
given a log b l h = (cc, cc)

pub as_string-returns :
    (v : Value) (log : Log) (s : String) (l : Log)
    → as_string v log ≡ (ok s, l)
    → (v ≡ text s) × (l ≡ log)
unfolding as_string lift
as_string-returns (text t) log s l h = (cc, cc)
as_string-returns _ log s l h = let e : err raised ≡ ok s = cc in absurd (ground arith)

pub as_list_lem :
    (v : Value) (vs : List Value)
    → as_list v ≡ some vs
    → (ws : Items) × (v ≡ list ws) × (items ws ≡ vs)
as_list_lem (list ws) vs h = (ws, refl, cc)
as_list_lem null vs h = cc
as_list_lem (bool _) vs h = cc
as_list_lem (text _) vs h = cc
as_list_lem (int _) vs h = cc
as_list_lem (dict _) vs h = cc

abbrev pub fetch_main : Request
fetch_main = git ("fetch" ∷ "origin" ∷ "main" ∷ [])

abbrev pub read_main : Request
read_main = git ("rev-parse" ∷ "refs/remotes/origin/main" ∷ [])

-- The fetched main branch is at the base.
pub require_base-returns :
    (answer : Log → Request → Result Closed Value) (base : String) (log : Log) (u : Unit {0})
    (l : Log)
    → require_base answer base log ≡ (ok u, l)
    → (answer (log ++ fetch_main ∷ []) read_main ≡ ok (text base))
      × (l ≡ (log ++ fetch_main ∷ []) ++ read_main ∷ [])
unfolding require_base
require_base-returns answer base log u l h =
    let (v, l1, e1, h1) = asks-returns (ask answer fetch_main) _ log u l h in
    let (main, l2, e2, h2) = asks-returns _ _ l1 u l h1 in
    let (w, l3, e3, h3) = asks-returns (ask answer read_main) as_string l1 main l2 e2 in
    let (found, at1) = ask-returns answer fetch_main log v l1 e1 in
    let (seen, at3) = ask-returns answer read_main l1 w l3 e3 in
    let (is_text, at2) = as_string-returns w l3 main l2 h3 in
    let (same, at) = require-returns (str_eq main base) _ l2 u l h2 in
    let eq : main ≡ base = (eq_iff main base).0 same in (cc, cc)
