-- ===== src/Watch/Stopped.antt =====
-- A stopped schedule of runtime/obligation.py.
use nortropic_runtime.Prelude.{◌≡◌, refl, ◌∙◌, ap, Bool, true, false, List, [], ◌∷◌, all, arith}
use nortropic_runtime.Value.{Value}
use nortropic_runtime.Watch.Control.{
  Action, install, daily, test, resume, pause, stop, status, Native, IsDocumented, is_stopped,
  stop_note, operate, operate_all,
}

-- No installation and no explicit reconfiguration.
abbrev pub is_mere_control : Action × Value → Bool
is_mere_control (install, _) = false
is_mere_control (daily, _) = false
is_mere_control (test, _) = false
is_mere_control _ = true

stopped_note : is_stopped stop_note ≡ true
unfolding is_stopped
stopped_note = refl

module _ {S : Type 0} (native : Native S) (documented : IsDocumented native) where
  IsHalted : S → Type 0
  IsHalted s = (native.is_paused s ≡ true) × (is_stopped (native.note s) ≡ true)

  stop_halts : (after_seconds : Value) (s : S) → IsHalted (operate native stop after_seconds s).1
  unfolding operate IsHalted is_stopped
  stop_halts after_seconds s =
      let q = native.pause_with stop_note s in
      (
        documented.stays_paused q ∙ documented.pauses stop_note s,
        ap is_stopped (documented.keeps_note q ∙ documented.notes stop_note s),
      )

  step-IsHalted :
      (action : Action) (after_seconds : Value) (s : S)
      → is_mere_control (action, after_seconds) ≡ true
      → IsHalted s
      → IsHalted (operate native action after_seconds s).1
  unfolding operate IsHalted
  step-IsHalted install v s m h = absurd (ground arith)
  step-IsHalted daily v s m h = absurd (ground arith)
  step-IsHalted test v s m h = absurd (ground arith)
  step-IsHalted resume v s m (p, q) = rw (q) (p, q)
  step-IsHalted pause v s m (p, q) =
      rw (q)
        (documented.pauses stop_note s, ap is_stopped (documented.notes stop_note s) ∙ stopped_note)
  step-IsHalted stop v s m h = stop_halts v s
  step-IsHalted status v s m h = h

  all-IsHalted :
      (actions : List (Action × Value)) (s : S)
      → all is_mere_control actions ≡ true
      → IsHalted s
      → IsHalted (operate_all native actions s)
  unfolding operate_all
  all-IsHalted [] s m h = h
  all-IsHalted ((action, v) ∷ rest) s m h =
      all-IsHalted rest (operate native action v s).1 (ground arith)
        (step-IsHalted action v s (ground arith) h)

  -- Where the server pauses as documented: from an explicit stop on, whatever resumes, pauses, stops and
  -- looks at the status follow, in any order, the schedule stays paused with a note that says it is
  -- stopped. Only an installation or an explicit daily or test reconfiguration can end that.
  pub stop_is_lasting :
      (after_seconds : Value) (actions : List (Action × Value)) (s : S)
      → all is_mere_control actions ≡ true
      → let later = operate_all native actions (operate native stop after_seconds s).1 in
        (native.is_paused later ≡ true) × (is_stopped (native.note later) ≡ true)
  unfolding IsHalted
  stop_is_lasting after_seconds actions s m =
      all-IsHalted actions (operate native stop after_seconds s).1 m (stop_halts after_seconds s)
