-- ===== src/Watch/Control.antt =====
-- `operate` of runtime/obligation.py: the controls of one schedule. The server's schedule is a state with
-- operations, whose documented effect on the pause and the note are laws.
use nortropic_runtime.Prelude.{
  ℕ, String, ◌≡◌, Bool, true, false, List, [], ◌∷◌, ◌&&◌, ◌||◌, not, leb, Result, ok, err,
  if◌then◌else◌,
}
use nortropic_runtime.Prelude.Text.{codes}
use nortropic_runtime.Value.{Value, int, pos}

pub data Action : Type 0 where
  install daily test resume pause stop status : Action

-- The schedule is the daily one, or one test after some seconds.
pub data Definition : Type 0 where
  daily_definition : Definition
  test_definition : (seconds : ℕ) → Definition

-- `ValueError` with its message, or what the server or the clean-up raises.
pub data Refusal : Type 0 where
  refused : String → Refusal
  raised : Refusal

-- The native schedule as a client sees and changes it. `create` may refuse a duplicate; `cancel_running`
-- cancels the runs that the schedule names and waits, and its clean-up may refuse.
pub record Native (S : Type 0) : Type 1 where
  pub is_paused : S → Bool
  pub note : S → String
  pub has_running : S → Bool
  pub create : Definition → S → Result Refusal S
  pub update : Definition → S → S
  pub unpause : String → S → S
  pub pause_with : String → S → S
  pub cancel_running : S → Result Refusal (Unit {0}) × S

-- The server's documented effects: a pause sets the flag and the note, a cancelled run leaves them.
pub record IsDocumented {S : Type 0} (n : Native S) : Type 0 where
  pub pauses : (text : String) (s : S) → n.is_paused (n.pause_with text s) ≡ true
  pub notes : (text : String) (s : S) → n.note (n.pause_with text s) ≡ text
  pub stays_paused : (s : S) → n.is_paused (n.cancel_running s).1 ≡ n.is_paused s
  pub keeps_note : (s : S) → n.note (n.cancel_running s).1 ≡ n.note s

abbrev is_prefix : List ℕ → List ℕ → Bool
is_prefix [] ds = true
is_prefix (c ∷ cs) [] = false
is_prefix (c ∷ cs) (d ∷ ds) = leb c d && leb d c && is_prefix cs ds

-- `note.startswith('STOPPED')`
unfoldable pub is_stopped : String → Bool
is_stopped text = is_prefix (codes "STOPPED") (codes text)

abbrev pub stop_note : String
stop_note = "STOPPED: AP10 explicit stop"

-- The note of a pause; a stopped schedule stays stopped.
abbrev pub pause_note : Bool → String → String
pause_note stops prior =
    if stops || is_stopped prior then stop_note else "PAUSED: in-flight round may finish"

-- The delay of a test run.
abbrev pub delay_of : Value → Result Refusal ℕ
delay_of (int (pos n)) =
    if leb 30 n && leb n 600
    then ok n
    else err (refused "Explicit one-shot qualification delay30..600 required")
delay_of _ = err (refused "Explicit one-shot qualification delay30..600 required")

module _ {S : Type 0} (native : Native S) where
  abbrev pub created : Result Refusal S → S → Result Refusal (Unit {0}) × S
  created (ok s) old = (ok tt, s)
  created (err e) old = (err e, old)

  abbrev pub updated : Result Refusal Definition → S → Result Refusal (Unit {0}) × S
  updated (ok definition) s = (ok tt, native.update definition s)
  updated (err e) s = (err e, s)

  abbrev pub test_definition_of : Value → Result Refusal Definition
  test_definition_of after_seconds = elim (delay_of after_seconds) [
    | ok n ↦ ok (test_definition n)
    | err e ↦ err e
  ]

  -- A schedule is replaced only while it is paused and nothing runs.
  abbrev pub replace : Result Refusal Definition → S → Result Refusal (Unit {0}) × S
  replace definition s =
      if not (native.is_paused s) || native.has_running s
      then (
        err (refused "Pause and finish own in-flight work before schedule/config replacement"),
        s,
      )
      else updated definition s

  -- One control action. The answer of `status`, which each action ends with, only reads.
  unfoldable pub operate : Action → Value → S → Result Refusal (Unit {0}) × S
  operate install after_seconds s = created (native.create daily_definition s) s
  operate daily after_seconds s = replace (ok daily_definition) s
  operate test after_seconds s = replace (test_definition_of after_seconds) s
  operate resume after_seconds s =
      if is_stopped (native.note s)
      then (err (refused "Stopped obligation requires explicit reviewed reactivation"), s)
      else (ok tt, native.unpause "AP10 explicit operator resume; no automatic login unpause" s)
  operate pause after_seconds s = (ok tt, native.pause_with (pause_note false (native.note s)) s)
  operate stop after_seconds s =
      native.cancel_running (native.pause_with (pause_note true (native.note s)) s)
  operate status after_seconds s = (ok tt, s)

  -- The actions one after the other.
  unfoldable pub operate_all : List (Action × Value) → S → S
  unfolding operate
  operate_all [] s = s
  operate_all ((action, after_seconds) ∷ rest) s =
      operate_all rest (operate action after_seconds s).1
