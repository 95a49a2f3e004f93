-- ===== src/Scope/Lasting.antt =====
-- What an operation of runtime/development_scope.py makes final: terminal controls, recorded
-- effects, integrations and task bindings. No later operation undoes them.
use nortropic_runtime.Prelude.{
  ◌≢◌, String, ◌≡◌, refl, sym, subst, ◌∙◌, true, Option, none, some, arith, eq_iff, ok, Bool-cases,
  str_eq, inl, inr,
}
use nortropic_runtime.Prelude.Dict.{Dict, get, put, get-put}
use nortropic_runtime.Scope.Contract.{Contract}
use nortropic_runtime.Scope.Journal.{Binding, Integration, Event}
use nortropic_runtime.Scope.State.{State, Effect, begun, completed, apply, count_call}
use nortropic_runtime.Scope.Guards.{is_terminal, check_reserve, check_launch}
use nortropic_runtime.Scope.Moves.{
  Move, Moves, change, bind, reserve, begin_launch, report_start, integrate, begin_effect,
  end_effect, Moves-induction,
}

-- The entry of an effect: once started it stays started, once completed its result stays.
abbrev pub IsKept : Option Effect → Option Effect → Type 0
IsKept none new = Unit {0}
IsKept (some begun) new = new ≢ none
IsKept (some (completed v)) new = new ≡ some (completed v)

IsKept-trans : (x y z : Option Effect) → IsKept x y → IsKept y z → IsKept x z
IsKept-trans none y z h k = tt
IsKept-trans (some begun) none z h k = absurd (h refl)
IsKept-trans (some begun) (some begun) z h k = k
IsKept-trans (some begun) (some (completed v)) z h k = λ e. ground arith
IsKept-trans (some (completed v)) y z h k = subst (λ o. IsKept o z) h k

IsKept-refl : (x : Option Effect) → IsKept x x
IsKept-refl none = tt
IsKept-refl (some begun) = λ e. ground arith
IsKept-refl (some (completed v)) = refl

-- What a later state keeps of an earlier one.
pub record IsLater (s u : State) : Type 0 where
  pub effects : (i : String) → IsKept (get s.effects i) (get u.effects i)
  pub tasks : (t : String) (b : Binding) → get s.tasks t ≡ some b → get u.tasks t ≡ some b
  pub integrated :
      (w : String) (e : Integration) → get s.integrated w ≡ some e → get u.integrated w ≡ some e
  pub closed :
      is_terminal s.control ≡ true
      → (u.control ≡ s.control)
        × (u.calls ≡ s.calls)
        × (u.launches ≡ s.launches)
        × (u.tasks ≡ s.tasks)

IsLater-refl : (s : State) → IsLater s s
IsLater-refl s = record {
  effects = λ i. IsKept-refl (get s.effects i);
  tasks = λ t b h. h;
  integrated = λ w e h. h;
  closed = λ h. (refl, refl, refl, refl);
}

IsLater-trans : {s t u : State} → IsLater s t → IsLater t u → IsLater s u
IsLater-trans h k = record {
  effects = λ i. IsKept-trans _ _ _ (h.effects i) (k.effects i);
  tasks = λ x b e. k.tasks x b (h.tasks x b e);
  integrated = λ w x e. k.integrated w x (h.integrated w x e);
  closed = λ e.
      let (a, b, c, d) = h.closed e in
      let (a', b', c', d') = k.closed (rw a e) in (a' ∙ a, b' ∙ b, c' ∙ c, d' ∙ d);
}

IsKept-of_eq : {x y : Option Effect} → y ≡ x → IsKept x y
IsKept-of_eq {x} e = subst (λ o. IsKept x o) (sym e) (IsKept-refl x)

IsKept-put :
    (effects : Dict Effect) (j i : String) (x : Effect)
    → IsKept (get effects j) (some x)
    → IsKept (get effects i) (get (put effects j x) i)
IsKept-put effects j i x h = elim (Bool-cases (str_eq j i)) [
  | inl e ↦
      let same : j ≡ i = (eq_iff j i).0 e in
      subst (λ o. IsKept (get effects i) o) (sym (get-put effects j i x ∙ rw e))
        (subst (λ k. IsKept (get effects k) (some x)) same h)
  | inr e ↦ IsKept-of_eq (get-put effects j i x ∙ rw e)
]

module _ (c : Contract) (s u : State) where
  effects_later :
      {e : Event}
      → Move c s e
      → apply s e ≡ ok u
      → (i : String) → IsKept (get s.effects i) (get u.effects i)
  unfolding apply count_call
  effects_later (begin_effect j w x v fresh _ _) p i =
      let same : u.effects ≡ put s.effects j begun = ground arith in
      rw same (IsKept-put s.effects j i begun (rw fresh tt))
  effects_later (end_effect j w x v before) p i =
      let same : u.effects ≡ put s.effects j (completed v) = ground arith in
      rw same (IsKept-put s.effects j i (completed v) (rw before (λ e. ground arith)))
  effects_later (bind b _ _ _) p i = IsKept-of_eq (ground arith)
  effects_later (change v reason _) p i = IsKept-of_eq (ground arith)
  effects_later (reserve e sha256 _ _) p i = IsKept-of_eq (ground arith)
  effects_later (begin_launch n _) p i = IsKept-of_eq (ground arith)
  effects_later (report_start n _) p i = IsKept-of_eq (ground arith)
  effects_later (integrate e _) p i = IsKept-of_eq (ground arith)

  tasks_later :
      {e : Event}
      → Move c s e
      → apply s e ≡ ok u
      → (t : String) (b : Binding) → get s.tasks t ≡ some b
      → get u.tasks t ≡ some b
  unfolding apply count_call
  tasks_later (bind b _ _ fresh) p t b' h =
      ground (arith, get-put s.tasks b.task t b, eq_iff b.task t)
  tasks_later (change v reason _) p t b' h = ground arith
  tasks_later (reserve e sha256 _ _) p t b' h = ground arith
  tasks_later (begin_launch n _) p t b' h = ground arith
  tasks_later (report_start n _) p t b' h = ground arith
  tasks_later (integrate e _) p t b' h = ground arith
  tasks_later (begin_effect i w x v _ _ _) p t b' h = ground arith
  tasks_later (end_effect i w x v _) p t b' h = ground arith

  integrated_later :
      {e : Event}
      → Move c s e
      → apply s e ≡ ok u
      → (w : String) (x : Integration) → get s.integrated w ≡ some x
      → get u.integrated w ≡ some x
  unfolding apply count_call
  integrated_later (integrate e fresh) p w x h =
      ground (arith, get-put s.integrated e.work w e, eq_iff e.work w)
  integrated_later (bind b _ _ _) p w x h = ground arith
  integrated_later (change v reason _) p w x h = ground arith
  integrated_later (reserve e sha256 _ _) p w x h = ground arith
  integrated_later (begin_launch n _) p w x h = ground arith
  integrated_later (report_start n _) p w x h = ground arith
  integrated_later (begin_effect i t y v _ _ _) p w x h = ground arith
  integrated_later (end_effect i t y v _) p w x h = ground arith

  closed_later :
      {e : Event}
      → Move c s e
      → apply s e ≡ ok u
      → is_terminal s.control ≡ true
      → (u.control ≡ s.control)
        × (u.calls ≡ s.calls)
        × (u.launches ≡ s.launches)
        × (u.tasks ≡ s.tasks)
  unfolding apply count_call
  closed_later (change v reason opened) p h = absurd (ground arith)
  closed_later (bind b live _ _) p h = absurd (ground arith)
  closed_later (reserve e sha256 passes _) p h = absurd (unfold check_reserve in ground arith)
  closed_later (begin_launch n passes) p h = absurd (unfold check_launch in ground arith)
  closed_later (report_start n _) p h = ground arith
  closed_later (integrate e _) p h = ground arith
  closed_later (begin_effect i t y v _ opened _) p h = absurd (ground arith)
  closed_later (end_effect i t y v _) p h = ground arith

-- A run of moves only adds to what is final.
pub Moves-IsLater : (c : Contract) (s t : State) → Moves c s t → IsLater s t
Moves-IsLater c s t m =
    Moves-induction c (IsLater s)
      (λ r u e move steps h. IsLater-trans h (record {
        effects = effects_later c r u move steps;
        tasks = tasks_later c r u move steps;
        integrated = integrated_later c r u move steps;
        closed = closed_later c r u move steps;
      }))
      m (IsLater-refl s)
