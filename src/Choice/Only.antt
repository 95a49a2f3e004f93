-- ===== src/Choice/Only.antt =====
-- What `apply_choice` of scripts/model_choice.py leaves as it was.
use nortropic_runtime.Prelude.{
  String, none, some, ◌≡◌, refl, ap, sym, ◌∙◌, Bool, true, false, ok, ◌>>=◌, >>=-returns, require,
  str_eq, arith, eq_iff,
}
use nortropic_runtime.Value.{
  Value, null, text, dict, Fields, field, end, find_field, put_field, get_field, is_dict,
}
use nortropic_runtime.Gate.Recovery.{set_field}
use nortropic_runtime.Gate.Approval.{find_field-put_field}
use nortropic_runtime.Choice.Selection.{roles}
use nortropic_runtime.Choice.Apply.{
  Refusal, refused, remove_field, pop, strip, aside, only_choice_differs, apply_name, put_entry,
  unpack, apply_runtime, apply_watch, apply_choice, triple, fill,
}

remove-put :
    (fs : Fields) (k : String) (v : Value) → remove_field k (put_field fs k v) ≡ remove_field k fs
unfolding remove_field put_field
remove-put end k v = ground (arith, eq_iff k k)
remove-put (field j w fs) k v = ground (arith, eq_iff j k, remove-put fs k v)

remove-put_other :
    (fs : Fields) (j k : String) (v : Value)
    → str_eq k j ≡ false
    → remove_field j (put_field fs k v) ≡ put_field (remove_field j fs) k v
unfolding remove_field put_field
remove-put_other end j k v h = ground (arith)
remove-put_other (field i w fs) j k v h =
    ground (arith, eq_iff i j, eq_iff i k, eq_iff k j, remove-put_other fs j k v h)

put-put :
    (fs : Fields) (k : String) (v w : Value) → put_field (put_field fs k v) k w ≡ put_field fs k w
unfolding put_field
put-put end k v w = ground (arith, eq_iff k k)
put-put (field j u fs) k v w = ground (arith, eq_iff j k, put-put fs k v w)

strip-models : (d v : Value) → strip (set_field d "models" v) ≡ strip d
unfolding strip pop set_field
strip-models (dict fs) v =
    ap (λ x. dict (remove_field "executors" (remove_field "efforts" x))) (remove-put fs "models" v)
strip-models _ v = refl

strip-efforts : (d v : Value) → strip (set_field d "efforts" v) ≡ strip d
unfolding strip pop set_field
strip-efforts (dict fs) v =
    ap (λ x. dict (remove_field "executors" x))
      (ap (remove_field "efforts") (remove-put_other fs "models" "efforts" v refl)
        ∙ remove-put (remove_field "models" fs) "efforts" v)
strip-efforts _ v = refl

strip-executors : (d v : Value) → strip (set_field d "executors" v) ≡ strip d
unfolding strip pop set_field
strip-executors (dict fs) v = ap dict (
    ap (λ x. remove_field "executors" (remove_field "efforts" x))
      (remove-put_other fs "models" "executors" v refl)
    ∙ ap (remove_field "executors")
        (remove-put_other (remove_field "models" fs) "efforts" "executors" v refl)
    ∙ remove-put (remove_field "efforts" (remove_field "models" fs)) "executors" v)
strip-executors _ v = refl

is_dict-set : (d : Value) (k : String) (v : Value) → is_dict (set_field d k v) ≡ is_dict d
unfolding set_field
is_dict-set (dict fs) k v = refl
is_dict-set _ k v = refl

-- The same development selection but for the choice.
IsSame : Value → Value → Type 0
IsSame d e = (strip e ≡ strip d) × (is_dict e ≡ is_dict d)

put_entry-IsSame :
    (mapping : String) (name v d e : Value)
    → ((w : Value) → strip (set_field d mapping w) ≡ strip d)
    → put_entry mapping name v d ≡ ok e
    → IsSame d e
unfolding IsSame
put_entry-IsSame mapping name v d e keeps h =
    let (base, _, h') = >>=-returns (unpack (get_field d mapping)) _ h in
    let e' : e ≡ set_field d mapping (elim name [ text k ↦ set_field base k v | _ ↦ base ]) = cc in
    (ap strip e' ∙ keeps _, ap is_dict e' ∙ is_dict-set d mapping _)

apply_name-IsSame :
    (executor : String) (model d e : Value) → apply_name executor model d ≡ ok e → IsSame d e
unfolding IsSame
apply_name-IsSame executor null d e h = let q : d ≡ e = cc in (sym (ap strip q), sym (ap is_dict q))
apply_name-IsSame executor model d e h =
    put_entry-IsSame "models" (text executor) model d e (strip-models d) h

required : (test : Bool) (e : Refusal) (u : Unit {0}) → require test e ≡ ok u → test ≡ true
required true e u h = refl
required false e u h = absurd (ground arith)

IsSame-trans : (d e f : Value) → IsSame d e → IsSame e f → IsSame d f
unfolding IsSame
IsSame-trans d e f (p, q) (r, s) = (r ∙ p, s ∙ q)

module _ (str : Value → String) where
  driven-IsSame :
      (requested d e : Value)
      → (triple str requested >>= λ chosen.
          put_entry "models"
            (get_field chosen "executor")
            (get_field chosen "model")
            (set_field d "executors" (dict (fill roles (get_field chosen "executor"))))
          >>= λ modelled.
              put_entry "efforts"
                (get_field chosen "executor")
                (get_field chosen "effort")
                modelled)
        ≡ ok e
      → IsSame d e
  unfolding IsSame
  driven-IsSame requested d e h =
      let (chosen, _, h1) = >>=-returns (triple str requested) _ h in
      let driven = set_field d "executors" (dict (fill roles (get_field chosen "executor"))) in
      let (modelled, h2, h3) =
        >>=-returns
          (put_entry "models" (get_field chosen "executor") (get_field chosen "model") driven) _
          h1 in
      IsSame-trans d driven e (strip-executors d _, is_dict-set d "executors" _)
        (IsSame-trans driven modelled e
          (put_entry-IsSame "models" _ _ driven modelled (strip-models driven) h2)
          (put_entry-IsSame "efforts" _ _ modelled e (strip-efforts modelled) h3))

  apply_runtime-IsSame : (requested d e : Value) → apply_runtime str requested d ≡ ok e → IsSame d e
  unfolding apply_runtime IsSame
  apply_runtime-IsSame null d e h = let q : d ≡ e = cc in (sym (ap strip q), sym (ap is_dict q))
  apply_runtime-IsSame requested d e h = driven-IsSame requested d e h

  -- The configuration but for the choice is the same, and there still is a selection.
  watched :
      (chosen config : Value)
      → (aside (set_field config "watch" chosen) ≡ aside config)
        × (get_field (set_field config "watch" chosen) "development"
            ≡ get_field config "development")
  unfolding aside set_field get_field pop strip
  watched chosen (dict fs) =
      let f : find_field "development" (put_field fs "watch" chosen) ≡ find_field "development" fs =
        find_field-put_field fs "watch" "development" chosen in
      let d = get_field (dict fs) "development" in
      let g : get_field (dict (put_field fs "watch" chosen)) "development" ≡ d =
        ap (λ x. elim x [ none ↦ null | some v ↦ v ]) f in
      (
        ap
              (λ x.
                pop "watch"
                  (dict (put_field (put_field fs "watch" chosen) "development" (strip x))))
              g
            ∙ ap dict (
                remove-put_other (put_field fs "watch" chosen) "watch" "development" (strip d) refl
                ∙ ap (λ x. put_field x "development" (strip d)) (remove-put fs "watch" chosen)
                ∙ sym (remove-put_other fs "watch" "development" (strip d) refl)),
        g,
      )
  watched chosen _ = (refl, refl)

  developed :
      (config d : Value)
      → is_dict (get_field config "development") ≡ true
      → IsSame (get_field config "development") d
      → (aside (set_field config "development" d) ≡ aside config)
        × (is_dict (get_field (set_field config "development" d) "development") ≡ true)
  unfolding aside set_field get_field pop IsSame
  developed (dict fs) d h (same, is) =
      let f : find_field "development" (put_field fs "development" d) ≡ some d =
        find_field-put_field fs "development" "development" d in
      let g : get_field (dict (put_field fs "development" d)) "development" ≡ d =
        ap (λ x. elim x [ none ↦ null | some v ↦ v ]) f in
      (
        ap
              (λ x.
                pop "watch"
                  (dict (put_field (put_field fs "development" d) "development" (strip x))))
              g
            ∙ ap (λ x. dict (remove_field "watch" x))
                (put-put fs "development" d (strip d) ∙ ap (put_field fs "development") same),
        ap is_dict g ∙ is ∙ h,
      )
  developed _ d h s = absurd (ground arith)

  Keeps : Value → Value → Type 0
  Keeps config new = (aside new ≡ aside config) × (is_dict (get_field new "development") ≡ true)

  apply_watch-Keeps :
      (requested config new : Value)
      → is_dict (get_field config "development") ≡ true
      → apply_watch str requested config ≡ ok new
      → Keeps config new
  unfolding apply_watch Keeps
  apply_watch-Keeps null config new h e =
      let q : config ≡ new = cc in
      (sym (ap aside q), ap (λ x. is_dict (get_field x "development")) (sym q) ∙ h)
  apply_watch-Keeps requested config new h e =
      let (chosen, _, e1) = >>=-returns (triple str requested) _ e in
      let q : new ≡ set_field config "watch" chosen = cc in
      let (same, there) = watched chosen config in
      (ap aside q ∙ same, ap (λ x. is_dict (get_field x "development")) q ∙ ap is_dict there ∙ h)

  checked_alike :
      (config new : Value)
      → is_dict (get_field config "development") ≡ true
      → Keeps config new
      → only_choice_differs config new ≡ only_choice_differs config config
  unfolding only_choice_differs Keeps
  checked_alike config new h (same, is) = rw (same, is, h) refl

  -- Whatever choice is requested and whatever configuration is in force: where a configuration with the
  -- choice applied comes back, it is the old one in everything but the models, the efforts and the
  -- executors of the development selection and the watch, it still has a development selection, and
  -- the check that only the choice differs gives on it what it gives on the old one itself.
  pub apply_choice-only_choice_differs :
      (config requested new : Value)
      → apply_choice str config requested ≡ ok new
      → (aside new ≡ aside config)
        × (is_dict (get_field new "development") ≡ true)
        × (only_choice_differs config new ≡ only_choice_differs config config)
  unfolding apply_choice Keeps
  apply_choice-only_choice_differs config requested new h =
      let d = get_field config "development" in
      let (u, is, h0) =
        >>=-returns
          (require (is_dict d)
            (refused "the active release has no development selection to change"))
          _ h in
      let is_there : is_dict d ≡ true = required (is_dict d) _ u is in
      let (claude, h1, h2) =
        >>=-returns (apply_name "claude" (get_field requested "claude") d) _ h0 in
      let (codex, h3, h4) =
        >>=-returns (apply_name "codex" (get_field requested "codex") claude) _ h2 in
      let (driven, h5, h6) =
        >>=-returns (apply_runtime str (get_field requested "runtime") codex) _ h4 in
      let same =
        IsSame-trans d claude driven
          (apply_name-IsSame "claude" (get_field requested "claude") d claude h1)
          (IsSame-trans claude codex driven
            (apply_name-IsSame "codex" (get_field requested "codex") claude codex h3)
            (apply_runtime-IsSame (get_field requested "runtime") codex driven h5)) in
      let (developed_same, has) = developed config driven is_there same in
      let (watched_same, still) =
        apply_watch-Keeps (get_field requested "watch") (set_field config "development" driven) new
          has h6 in
      let kept = watched_same ∙ developed_same in
      (kept, still, checked_alike config new is_there (kept, still))
