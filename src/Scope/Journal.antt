-- ===== src/Scope/Journal.antt =====
-- The journal of runtime/development_scope.py: events, the hash chain over them, the separate head
-- that witnesses its end, `locked` and `append`. SHA-256 over the canonical JSON, and the size of
-- the journal's file, are parameters.
use nortropic_runtime.Prelude.{
  ℕ, suc, ◌+◌, String, Bool, Option, List, [], ◌∷◌, ◌++◌, leb, ◌==◌, ◌&&◌, length, Result, ok,
  require, ◌>>=◌, ◌>>◌, str_eq,
}
use nortropic_runtime.Value.{Value}
use nortropic_runtime.Scope.Contract.{Error, closed, Contract, validate_contract}

pub data Control : Type 0 where
  active paused stopped revoked quota exhausted : Control

pub data Role : Type 0 where
  driver preparation_review implementation review diagnosis final_review : Role

-- A reserved model call.
pub record Call : Type 0 where
  pub work : String
  pub role : Role
  pub nonce : String
  pub task : Option String

-- A task that is bound to a deliverable.
pub record Binding : Type 0 where
  pub work : String
  pub task : String
  pub task_sha256 : String
  pub review_sha256 : String

pub record Integration : Type 0 where
  pub work : String
  pub task : String
  pub receipt : Value

pub data Event : Type 0 where
  control : Control → String → Event
  task : Binding → Event
  call : Call → Event
  launch started : String → Event
  integrated : Integration → Event
  effect_start effect_result : (identity work task : String) → Value → Event

pub record Row : Type 0 where
  pub sequence : ℕ
  pub previous : String
  pub event : Event
  pub sha256 : String

pub record Head : Type 0 where
  pub sequence : ℕ
  pub sha256 : String

-- The files of one scope: contract.json, journal.jsonl and head.json.
pub record Store : Type 0 where
  pub contract : Contract
  pub rows : List Row
  pub head : Head

pub record Digests : Type 0 where
  -- `digest(contract)`
  pub of_contract : Contract → String
  -- `digest({'sequence': …, 'previous': …, 'event': …})`
  pub of_row : ℕ → String → Event → String
  -- `digest({'task': …, 'task_sha256': …, 'operation': …})`
  pub of_effect : String → String → Value → String
  -- `len(raw)` of the journal's file
  pub journal_bytes : List Row → ℕ

-- The first half of `append`: the head is replaced before the row is written.
unfoldable pub advance_head : Row → Store → Store
advance_head row store = record store {
  head = record { sequence = row.sequence; sha256 = row.sha256 };
}

-- The second half: the row is appended to the journal.
unfoldable pub write_row : Row → Store → Store
write_row row store = record store { rows = store.rows ++ row ∷ [] }

module _ (digests : Digests) where
  open digests use {of_contract, of_row, journal_bytes}

  -- The row continues a history of `n` rows that ends in `previous`.
  unfoldable pub is_next : ℕ → String → Row → Bool
  is_next n previous row =
      row.sequence == suc n
      && str_eq row.previous previous
      && str_eq row.sha256 (of_row row.sequence row.previous row.event)

  -- The loop of `locked` over the rows, with `len(records)` and `previous`; it returns `previous`.
  unfoldable pub check_rows : ℕ → String → List Row → Result Error String
  check_rows n previous [] = ok previous
  check_rows n previous (row ∷ rows) =
      require (is_next n previous row) (closed "Broken reservation history")
      >> check_rows (suc n) row.sha256 rows

  -- What `locked` requires before it hands out the contract and the records.
  unfoldable pub locked : String → Store → Result Error (Unit {0})
  unfolding is_next check_rows
  locked expected store = do
    validate_contract store.contract
    require (str_eq (of_contract store.contract) expected) (closed "Accepted contract changed")
    require (leb (journal_bytes store.rows) 1048576)
        (closed "Incomplete or oversized journal; preserve and diagnose")
    previous ← check_rows 0 expected store.rows
    require (store.head.sequence == length store.rows && str_eq store.head.sha256 previous)
        (closed "Journal/head mismatch; no rollback or automatic repair")

  abbrev pub last_sha256 : String → List Row → String
  last_sha256 expected [] = expected
  last_sha256 expected (row ∷ rows) = last_sha256 row.sha256 rows

  -- The row that `append` writes.
  unfoldable pub next_row : String → List Row → Event → Row
  next_row expected rows event =
      let sequence = length rows + 1 in
      let previous = last_sha256 expected rows in
      record {
        sequence = sequence;
        previous = previous;
        event = event;
        sha256 = of_row sequence previous event;
      }

  unfoldable pub append : String → Event → Store → Store
  unfolding next_row advance_head write_row
  append expected event store =
      let row = next_row expected store.rows event in write_row row (advance_head row store)

  -- The files that `initialize` writes.
  abbrev pub opened : Contract → Store
  opened contract = record {
    contract = contract;
    rows = [];
    head = record { sequence = 0; sha256 = of_contract contract };
  }

  -- `initialize`: a new scope, for a contract that passes.
  unfoldable pub initialize : Contract → Result Error Store
  initialize contract = validate_contract contract >>= λ _. ok (opened contract)
