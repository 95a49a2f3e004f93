-- ===== src/Ledger/History.antt =====
-- Sequences of operations on the ledger of runtime/failure_ledger.py.
use nortropic_runtime.Prelude.{ℕ, String, Bool, List, [], ◌∷◌, Result, ok, err}
use nortropic_runtime.Value.{Value}
use nortropic_runtime.Ledger.Cases.{Refusal}
use nortropic_runtime.Ledger.Records.{Files}
use nortropic_runtime.Ledger.Operations.{begin, finish}
use nortropic_runtime.Ledger.Classify.{classify}
use nortropic_runtime.Ledger.Observation.{consume}

-- One operation with its arguments; the last two of each that takes them are the new identifier and
-- the time.
pub data Command : Type 0 where
  begins_run : (commit phase source_sha256 : String) → Value → (identifier now : String) → Command
  finishes_run :
      (identifier : String) (cases returncode complete observation terminal_successful : Value)
      (now : String)
      → Command
  classifies_case :
      (identifier : String) (order : ℕ) (category : String) (intermittent : Bool)
      (name now : String)
      → Command
  consumes :
      (commit phase source_sha256 : String) (record_read expected : Value) (identifier now : String)
      → Command

-- Where an operation raises before it writes, the files stay.
abbrev files_after : {A : Type 0} → Result Refusal (A × Files) → Files → Files
files_after (err e) files = files
files_after (ok (a, later)) files = later

abbrev begun_after : Result Refusal Files → Files → Files
begun_after (err e) files = files
begun_after (ok later) files = later

module _ (digest : Value → String) (is_unsafe : Value → Bool) (digest_of_name : Value → String)
    (manifest_digest : Value → String) where
  unfoldable pub step : Command → Files → Files
  step (begins_run commit phase source diagnostic identifier now) files =
      begun_after
        (begin digest is_unsafe digest_of_name commit phase source diagnostic identifier now files)
        files
  step (finishes_run identifier cases returncode complete observation terminal now) files =
      files_after
        (finish digest is_unsafe digest_of_name identifier cases returncode complete observation
          terminal now files)
        files
  step (classifies_case identifier order category intermittent name now) files =
      files_after
        (classify digest is_unsafe digest_of_name identifier order category intermittent name now
          files)
        files
  step (consumes commit phase source r expected identifier now) files =
      (consume manifest_digest digest is_unsafe digest_of_name commit phase source r expected
        identifier now files).1

  unfoldable pub run : List Command → Files → Files
  unfolding step
  run [] files = files
  run (c ∷ cs) files = run cs (step c files)
