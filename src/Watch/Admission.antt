-- ===== src/Watch/Admission.antt =====
-- `admission` of runtime/development_capacity.py. An instant is its number of microseconds; the reading of
-- a text as an instant with its offset is a parameter.
use nortropic_runtime.Prelude.{
  ℕ, ◌+◌, ◌*◌, String, Bool, true, false, Option, none, some, List, [], ◌∷◌, ◌&&◌, any, leb, ltb,
  Result, ok, err, if◌then◌else◌,
}
use nortropic_runtime.Value.{Value, bool, text, list, nil, cons, items, get_field, is_dict}
use nortropic_runtime.Gate.Require.{equals}

-- `ValueError('Bound the full activity occupancy')`
pub data Unbounded : Type 0 where
  unbounded : Unbounded

pub record Answer : Type 0 where
  pub available : Bool
  pub wait_seconds : ℕ
  pub reason : String

abbrev pub denied_for : String → Answer
denied_for reason = record { available = false; wait_seconds = 30; reason = reason }

abbrev pub denied : Answer
denied = denied_for "Watch capacity unavailable"

abbrev pub free : String → Answer
free reason = record { available = true; wait_seconds = 0; reason = reason }

abbrev pub microseconds : ℕ → ℕ
microseconds seconds = seconds * 1000000

-- `min`
abbrev pub earliest : ℕ → List ℕ → ℕ
earliest t [] = t
earliest t (u ∷ us) = let rest = earliest u us in if ltb t rest then t else rest

-- The next occurrences, all of them ahead: the whole activity and a minute fit before the first.
unfoldable pub admit_before : ℕ → ℕ → List ℕ → Answer
admit_before now occupied [] = denied
admit_before now occupied (t ∷ ts) =
    if any (λ u. leb u now) (t ∷ ts)
    then denied
    else if leb (earliest t ts) (now + microseconds (occupied + 60))
    then denied_for "Reserve capacity before the next native watch occurrence"
    else free "Full bounded activity fits before native watch"

-- Between a second ahead and five seconds ago.
abbrev pub is_fresh : ℕ → ℕ → Bool
is_fresh now observed = leb observed (now + microseconds 1) && leb now (observed + microseconds 5)

abbrev pub admit_read : ℕ → ℕ → Option (List ℕ) → Answer
admit_read now occupied none = denied
admit_read now occupied (some ts) = admit_before now occupied ts

module _ (parse : String → Option ℕ) where
  abbrev pub instant : Value → Option ℕ
  instant (text s) = parse s
  instant _ = none

  abbrev pub instants : List Value → Option (List ℕ)
  instants [] = some []
  instants (v ∷ vs) = elim (instant v) [
    | none ↦ none
    | some t ↦ elim (instants vs) [ none ↦ none | some ts ↦ some (t ∷ ts) ]
  ]

  abbrev pub admit_times : ℕ → ℕ → Value → Answer
  admit_times now occupied (list vs) = admit_read now occupied (instants (items vs))
  admit_times now occupied _ = denied

  -- What the fields `running` and `paused` decide, and the times where they leave it open.
  abbrev pub admit_watch : ℕ → ℕ → (running paused times : Value) → Answer
  admit_watch now occupied (list nil) (bool true) times =
      free "Watch explicitly paused, no own work running"
  admit_watch now occupied (list nil) (bool false) times = admit_times now occupied times
  admit_watch now occupied (list (cons _ _)) (bool _) times =
      denied_for "Native watch work is already running or queued"
  admit_watch now occupied _ _ times = denied

  abbrev pub admit_fresh : ℕ → ℕ → Option ℕ → Value → Answer
  admit_fresh now occupied none observation = denied
  admit_fresh now occupied (some observed) observation =
      if is_fresh now observed
      then admit_watch now occupied (get_field observation "running")
          (get_field observation "paused") (get_field observation "next_action_times")
      else denied

  unfoldable pub admission : Value → ℕ → ℕ → Result Unbounded Answer
  unfolding admit_before
  admission observation now occupied =
      if leb 1 occupied && leb occupied 3900
      then ok (
          if is_dict observation
            && equals (get_field observation "obligation") "office-python-temporal"
          then admit_fresh now occupied (instant (get_field observation "observed_at")) observation
          else denied)
      else err unbounded
