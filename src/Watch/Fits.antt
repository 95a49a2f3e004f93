-- ===== src/Watch/Fits.antt =====
-- What a free capacity of runtime/development_capacity.py has seen.
use nortropic_runtime.Prelude.{
  ℕ, ◌+◌, ◌≤◌, ◌<◌, String, ◌≡◌, refl, Bool, true, false, Option, none, some, inl, inr, ◌⊎◌, List,
  [], ◌∷◌, ◌&&◌, ap, ◌∙◌, all, leb, ltb, ok, err, if◌then◌else◌, arith,
}
use nortropic_runtime.Value.{
  Value, null, bool, int, text, list, dict, Items, nil, cons, items, get_field, is_dict,
}
use nortropic_runtime.Gate.Require.{equals}
use nortropic_runtime.Watch.Admission.{
  Answer, denied, microseconds, earliest, admit_before, admit_read, unbounded, is_fresh, instant,
  instants, admit_times, admit_watch, admit_fresh, admission,
}

earliest_bound :
    (now : ℕ) (t : ℕ) (ts : List ℕ) → now < earliest t ts → all (λ u. ltb now u) (t ∷ ts) ≡ true
earliest_bound now t [] h = ground (arith)
earliest_bound now t (u ∷ us) h = ground (arith, earliest_bound now u us)

-- The watch does not run, and it is paused, or all its next occurrences are later than the activity
-- and a minute.
abbrev pub IsFree : (String → Option ℕ) → ℕ → ℕ → (running paused times : Value) → Type 0
IsFree parse now occupied running paused times =
    (running ≡ list nil)
    × ((paused ≡ bool true)
        ⊎ ((vs : Items) × (ts : List ℕ) × (times ≡ list vs)
            × (instants parse (items vs) ≡ some ts)
            × (all (λ t. ltb (now + microseconds (occupied + 60)) t) ts ≡ true)))

before-IsFree :
    (now occupied : ℕ) (ts : List ℕ)
    → (admit_before now occupied ts).available ≡ true
    → all (λ t. ltb (now + microseconds (occupied + 60)) t) ts ≡ true
unfolding admit_before
before-IsFree now occupied [] h = refl
before-IsFree now occupied (t ∷ ts) h =
    earliest_bound (now + microseconds (occupied + 60)) t ts (ground arith)

available_within :
    (test : Bool) (answer : Answer)
    → (if test then answer else denied).available ≡ true
    → answer.available ≡ true
available_within true answer h = h
available_within false answer h = absurd (ground arith)

bounded :
    (test : Bool) (found answer : Answer)
    → (if test then ok found else err unbounded) ≡ ok answer
    → (test ≡ true) × (found ≡ answer)
bounded true found answer h = (refl, cc)
bounded false found answer h = absurd (ground arith)

module _ (parse : String → Option ℕ) where
  instants-IsFree :
      (now occupied : ℕ) (vs : Items) (read : Option (List ℕ))
      → instants parse (items vs) ≡ read
      → (admit_read now occupied read).available ≡ true
      → IsFree parse now occupied (list nil) (bool false) (list vs)
  instants-IsFree now occupied vs none e h = absurd (ground arith)
  instants-IsFree now occupied vs (some ts) e h =
      (refl, inr (vs, ts, refl, e, before-IsFree now occupied ts h))

  times-IsFree :
      (now occupied : ℕ) (times : Value)
      → (admit_times parse now occupied times).available ≡ true
      → IsFree parse now occupied (list nil) (bool false) times
  times-IsFree now occupied (list vs) h =
      instants-IsFree now occupied vs (instants parse (items vs)) refl h
  times-IsFree now occupied null h = absurd (ground arith)
  times-IsFree now occupied (bool _) h = absurd (ground arith)
  times-IsFree now occupied (int _) h = absurd (ground arith)
  times-IsFree now occupied (text _) h = absurd (ground arith)
  times-IsFree now occupied (dict _) h = absurd (ground arith)

  watch-IsFree :
      (now occupied : ℕ) (running paused times : Value)
      → (admit_watch parse now occupied running paused times).available ≡ true
      → IsFree parse now occupied running paused times
  watch-IsFree now occupied (list nil) (bool true) times h = (refl, inl refl)
  watch-IsFree now occupied (list nil) (bool false) times h = times-IsFree now occupied times h
  watch-IsFree now occupied (list (cons _ _)) (bool _) times h = absurd (ground arith)
  watch-IsFree now occupied (list nil) null times h = absurd (ground arith)
  watch-IsFree now occupied (list (cons _ _)) null times h = absurd (ground arith)
  watch-IsFree now occupied (list nil) (int _) times h = absurd (ground arith)
  watch-IsFree now occupied (list (cons _ _)) (int _) times h = absurd (ground arith)
  watch-IsFree now occupied (list nil) (text _) times h = absurd (ground arith)
  watch-IsFree now occupied (list (cons _ _)) (text _) times h = absurd (ground arith)
  watch-IsFree now occupied (list nil) (list _) times h = absurd (ground arith)
  watch-IsFree now occupied (list (cons _ _)) (list _) times h = absurd (ground arith)
  watch-IsFree now occupied (list nil) (dict _) times h = absurd (ground arith)
  watch-IsFree now occupied (list (cons _ _)) (dict _) times h = absurd (ground arith)
  watch-IsFree now occupied null paused times h = absurd (ground arith)
  watch-IsFree now occupied (bool _) paused times h = absurd (ground arith)
  watch-IsFree now occupied (int _) paused times h = absurd (ground arith)
  watch-IsFree now occupied (text _) paused times h = absurd (ground arith)
  watch-IsFree now occupied (dict _) paused times h = absurd (ground arith)

  fresh-IsFree :
      (now occupied : ℕ) (observed : Option ℕ) (observation : Value)
      → (admit_fresh parse now occupied observed observation).available ≡ true
      → IsFree parse now occupied
          (get_field observation "running")
          (get_field observation "paused")
          (get_field observation "next_action_times")
  fresh-IsFree now occupied none observation h = absurd (ground arith)
  fresh-IsFree now occupied (some observed) observation h =
      watch-IsFree now occupied (get_field observation "running") (get_field observation "paused")
        (get_field observation "next_action_times") (available_within (is_fresh now observed) _ h)

  -- Where the capacity is free, the activity's bound is between 1 and 3900 seconds, no work of the
  -- watch runs or is queued, and the watch is paused or each of its next occurrences is read as an
  -- instant that is later than the whole activity and a minute from now.
  pub admission-IsFree :
      (observation : Value) (now occupied : ℕ) (answer : Answer)
      → admission parse observation now occupied ≡ ok answer
      → answer.available ≡ true
      → (1 ≤ occupied)
        × (occupied ≤ 3900)
        × IsFree parse now occupied
            (get_field observation "running")
            (get_field observation "paused")
            (get_field observation "next_action_times")
  unfolding admission
  admission-IsFree observation now occupied answer e h =
      let (in_bounds, same) = bounded (leb 1 occupied && leb occupied 3900) _ answer e in
      let h' = ap (λ (a : Answer). a.available) same ∙ h in
      (
        ground arith,
        ground arith,
        fresh-IsFree now occupied (instant parse (get_field observation "observed_at")) observation
            (available_within
              (is_dict observation
                && equals (get_field observation "obligation") "office-python-temporal")
              _ h'),
      )
