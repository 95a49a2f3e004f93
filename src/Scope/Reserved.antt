-- ===== src/Scope/Reserved.antt =====
-- A reservation that passes the guards of `reserve` in runtime/development_scope.py keeps the
-- invariant, and the guards never meet a missing key.
use nortropic_runtime.Prelude.{
  ℕ, ◌+◌, ◌<◌, String, ◌≡◌, Bool, true, false, Option, none, some, List, [], ◌∷◌, ◌++◌, ◌||◌, any,
  find, find-any, length, length-append, any-append, count_if-append, count_if-of_any, arith, leb,
  eq_iff, ok, Bool-cases, Option-cases, inl, inr, ◌⊎◌,
}
use nortropic_runtime.Prelude.Dict.{Dict, get, put, is_key, get-put}
use nortropic_runtime.Scope.Contract.{Contract}
use nortropic_runtime.Scope.Journal.{Call, call}
use nortropic_runtime.Scope.State.{State, count_call, apply}
use nortropic_runtime.Scope.Guards.{
  is_implementation, is_bound, check_reserve, is_exhausted, check_launch,
}
use nortropic_runtime.Scope.Invariant.{
  is_attempt, has_nonce, is_text, IsCounted, IsKnown, Inv, Keeps,
}

module _ (c : Contract) (calls : List Call) (counts : Dict ℕ) (h : IsCounted c calls counts)
    (e : Call) (below : length calls < c.model_calls) where
  other_call : is_implementation e.role ≡ false → IsCounted c (calls ++ e ∷ []) counts
  other_call r = record {
    known_work = h.known_work;
    calls_bound = omega (arith, length-append calls (e ∷ []));
    counted =
        λ w n g. ground (arith, count_if-append (is_attempt w) calls (e ∷ []), h.counted w n g);
    attempts_bound = h.attempts_bound;
  }

  attempt :
      (n : ℕ)
      → is_implementation e.role ≡ true
      → get counts e.work ≡ some n
      → n < c.implementation_attempts
      → IsCounted c (calls ++ e ∷ []) (put counts e.work (n + 1))
  attempt n r g small = record {
    known_work =
        λ w. ground (arith, get-put counts e.work w (n + 1), eq_iff e.work w, h.known_work w);
    calls_bound = omega (arith, length-append calls (e ∷ []));
    counted = λ w m p. ground (
      arith,
      count_if-append (is_attempt w) calls (e ∷ []),
      get-put counts e.work w (n + 1),
      eq_iff e.work w,
      h.counted w n,
      h.counted w m,
    );
    attempts_bound = λ w m p.
        ground (arith, get-put counts e.work w (n + 1), eq_iff e.work w, h.attempts_bound w m);
  }

  -- `count_call` succeeds where the ceilings leave room.
  count_call_keeps :
      (is_implementation e.role ≡ false)
        ⊎ ((n : ℕ) × (is_implementation e.role ≡ true)
            × (get counts e.work ≡ some n)
            × (n < c.implementation_attempts))
      → (counts' : Dict ℕ) × (count_call e counts ≡ ok counts')
        × IsCounted c (calls ++ e ∷ []) counts'
  unfolding count_call
  count_call_keeps (inl r) = (counts, ground arith, other_call r)
  count_call_keeps (inr (n, r, g, small)) =
      (put counts e.work (n + 1), ground arith, attempt n r g small)

-- What it means that the ceilings are not reached.
room :
    (e : Call) (s : State) (c : Contract)
    → is_exhausted e s c ≡ ok false
    → (length s.calls < c.model_calls)
      × ((is_implementation e.role ≡ false)
          ⊎ ((n : ℕ) × (is_implementation e.role ≡ true)
              × (get s.implementations e.work ≡ some n)
              × (n < c.implementation_attempts)))
unfolding is_exhausted
room e s c h = elim (Bool-cases (is_implementation e.role)) [
  | inl r ↦ elim (Option-cases (get s.implementations e.work)) [
    | inl g ↦ absurd (ground arith)
    | inr (n, g) ↦ (ground arith, inr (n, r, g, ground arith))
  ]
  | inr r ↦ (ground arith, inl r)
]

-- The nonce of a call that passes has not been reserved before.
fresh_nonce :
    (e : Call) (sha256 : Option String) (s : State) (c : Contract)
    → check_reserve e sha256 s c ≡ ok tt
    → any (has_nonce e.nonce) s.calls ≡ false
unfolding check_reserve
fresh_nonce e sha256 s c h = ground arith

pub call-Keeps :
    (c : Contract) (s : State)
    → Inv c s
    → (e : Call) (sha256 : Option String) → check_reserve e sha256 s c ≡ ok tt
    → is_exhausted e s c ≡ ok false
    → Keeps c s (call e)
unfolding apply
call-Keeps c s inv e sha256 passes left =
    let (below, kind) = room e s c left in
    let (counts, adds, counted) =
      count_call_keeps c s.calls s.implementations inv.counts e below kind in
    (
      record s { calls = s.calls ++ e ∷ []; implementations = counts },
      rw adds,
      record {
        counts = counted;
        spent = record {
          reserved_once = λ n. ground (
            arith,
            count_if-append (has_nonce n) s.calls (e ∷ []),
            eq_iff e.nonce n,
            count_if-of_any (has_nonce e.nonce) s.calls,
            fresh_nonce e sha256 s c passes,
            inv.spent.reserved_once n,
          );
          launched_once = inv.spent.launched_once;
          launched_reserved = λ n l.
              ground
                (arith, any-append (has_nonce n) s.calls (e ∷ []), inv.spent.launched_reserved n l);
          started_launched = inv.spent.started_launched;
        };
        known = inv.known;
      },
    )

-- A task is bound to accepted work alone.
pub bound_known :
    (c : Contract) (s : State) (t : Option String) (w : String) (sha256 : Option String)
    → IsKnown c s.tasks
    → is_bound s t w sha256 ≡ true
    → is_key c.work w ≡ true
bound_known c s none w sha256 known h = cc
bound_known c s (some t) w none known h = cc
bound_known c s (some t) w (some d) known h = elim (Option-cases (get s.tasks t)) [
  | inl e ↦ absurd (ground arith)
  | inr (b, e) ↦ ground (arith, eq_iff b.work w, known t b e)
]

attempt_bound :
    (e : Call) (sha256 : Option String) (s : State) (c : Contract)
    → check_reserve e sha256 s c ≡ ok tt
    → is_implementation e.role ≡ true
    → is_bound s e.task e.work sha256 ≡ true
unfolding check_reserve
attempt_bound e sha256 s c passes r = ground arith

-- The ceiling of a deliverable is always there to read.
pub is_exhausted_reads :
    (c : Contract) (s : State)
    → Inv c s
    → (e : Call) (sha256 : Option String) → check_reserve e sha256 s c ≡ ok tt
    → (over : Bool) × (is_exhausted e s c ≡ ok over)
unfolding is_exhausted
is_exhausted_reads c s inv e sha256 passes = elim (Bool-cases (is_implementation e.role)) [
  | inl r ↦ elim (Option-cases (get s.implementations e.work)) [
    | inl g ↦ absurd (
        ground (
          arith,
          inv.counts.known_work e.work,
          bound_known c s e.task e.work sha256 inv.known (attempt_bound e sha256 s c passes r),
        ))
    | inr (n, g) ↦
        (leb c.model_calls (length s.calls) || leb c.implementation_attempts n, ground arith)
  ]
  | inr r ↦ (leb c.model_calls (length s.calls), ground arith)
]

-- What a launch that passes says of the state: its nonce is reserved, and was not launched.
pub check_launch_facts :
    (n : String) (s : State)
    → check_launch n s ≡ ok tt
    → (any (has_nonce n) s.calls ≡ true) × (any (is_text n) s.launches ≡ false)
unfolding check_launch
check_launch_facts n s h = elim (Option-cases (find (has_nonce n) s.calls)) [
  | inl e ↦ absurd (ground arith)
  | inr (e, p) ↦ (find-any (has_nonce n) s.calls e p, ground arith)
]
