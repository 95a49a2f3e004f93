-- ===== src/Ledger/Host.antt =====
-- `require_host` of runtime/failure_ledger.py: a host's receipt against its permanent run.
use nortropic_runtime.Prelude.{
  String, Bool, List, [], ◌∷◌, ◌&&◌, all, length, Result, ok, err, require, ◌>>=◌, ◌>>◌,
  if◌then◌else◌,
}
use nortropic_runtime.Prelude.Text.{is_hex}
use nortropic_runtime.Value.{
  Value, text, int, pos, dict, Fields, field, end, eq, get_field, is_true,
}
use nortropic_runtime.Gate.Require.{equals, is_int}
use nortropic_runtime.Task.Validate.{has_field}
use nortropic_runtime.Ledger.Cases.{Refusal, refused}
use nortropic_runtime.Ledger.Records.{Files, is_success, as_cases, has_commit, begin_record, ending}
use nortropic_runtime.Ledger.Operations.{is_in_phase, require_publishable}

abbrev host_fields : List String
host_fields =
    "candidate" ∷ "module" ∷ "clean_tree" ∷ "source_sha256" ∷ "host_root" ∷ "scope" ∷ "journal_head"
    ∷ "runner_sha256" ∷ []

abbrev take_fields : Value → List String → Fields
take_fields receipt [] = end
take_fields receipt (key ∷ keys) = field key (get_field receipt key) (take_fields receipt keys)

-- The identifier of a run, as the receipt gives it.
abbrev ledger_run : Value → Result Refusal String
ledger_run (text s) =
    if is_hex 32 s then ok s else err (refused "Host receipt lacks its permanent attempt")
ledger_run _ = err (refused "Host receipt lacks its permanent attempt")

module _ (digest : Value → String) (is_unsafe : Value → Bool)
    (digest_of_name : Value → String) where
  -- A receipt without one of the fields raises a KeyError in the source.
  unfoldable pub host_binding : Value → Result Refusal String
  host_binding receipt = do
    require (all (has_field receipt) host_fields) (refused "KeyError")
    ok (digest (dict (take_fields receipt host_fields)))

  unfoldable pub require_host : Files → String → Value → Result Refusal String
  unfolding host_binding
  require_host files commit receipt = do
    require_publishable digest is_unsafe digest_of_name files commit
    identifier ← ledger_run (get_field receipt "ledger_run")
    begun ← begin_record files identifier
    ended ← ending digest is_unsafe digest_of_name files begun
    binding ← host_binding receipt
    cases ← as_cases (get_field ended "cases")
    require
        (has_commit commit begun
          && is_in_phase "host" begun
          && equals (get_field begun "source_sha256") binding
          && equals (get_field receipt "ledger_finish_sha256") (digest ended)
          && is_true (get_field ended "passed")
          && eq (get_field ended "cases") (get_field receipt "cases")
          && is_int (get_field receipt "run")
          && eq (get_field receipt "run") (int (pos (length cases)))
          && all is_success cases)
        (refused "Host receipt differs from its permanent observation")
    ok identifier
