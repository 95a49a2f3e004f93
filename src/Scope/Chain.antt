-- ===== src/Scope/Chain.antt =====
-- The hash chain and its head in runtime/development_scope.py: what `append` keeps, and what a
-- crash between the head and the row leaves behind.
use text.Mathlib.TextPositions.{eq_refl}
use nortropic_runtime.Prelude.{
  ℕ, suc, ◌+◌, ◌≤◌, String, ◌≡◌, refl, sym, true, false, List, [], ◌∷◌, ◌++◌, length, length-append,
  arith, eq_iff, ok, is_ok,
}
use nortropic_runtime.Scope.Contract.{validate_contract}
use nortropic_runtime.Scope.Journal.{
  Event, Row, Store, Digests, is_next, check_rows, locked, last_sha256, next_row, advance_head,
  append,
}

module _ (digests : Digests) (expected : String) where
  open digests use {of_contract, of_row, journal_bytes}

  -- The files of a scope that `locked` accepts: the pinned contract, the chain, and its head.
  pub record IsChained (store : Store) : Type 0 where
    pub valid : validate_contract store.contract ≡ ok tt
    pub pinned : of_contract store.contract ≡ expected
    pub linked : check_rows digests 0 expected store.rows ≡ ok store.head.sha256
    pub counted : store.head.sequence ≡ length store.rows

  check_rows-last :
      (n : ℕ) (previous : String) (rows : List Row) (p : String)
      → check_rows digests n previous rows ≡ ok p
      → p ≡ last_sha256 digests previous rows
  unfolding check_rows
  check_rows-last n previous [] p h = cc
  check_rows-last n previous (row ∷ rows) p h =
      ground (arith, check_rows-last (suc n) row.sha256 rows p)

  is_next-of_equal :
      (n : ℕ) (previous : String) (row : Row)
      → row.sequence ≡ suc n
      → row.previous ≡ previous
      → row.sha256 ≡ of_row row.sequence row.previous row.event
      → is_next digests n previous row ≡ true
  unfolding is_next
  is_next-of_equal n previous row a b c = ground (
    arith,
    eq_iff row.previous previous,
    eq_iff row.sha256 (of_row row.sequence row.previous row.event),
  )

  check_rows-snoc :
      (n : ℕ) (previous : String) (rows : List Row) (row : Row) (p : String)
      → check_rows digests n previous rows ≡ ok p
      → row.sequence ≡ suc (n + length rows)
      → row.previous ≡ p
      → row.sha256 ≡ of_row row.sequence row.previous row.event
      → check_rows digests n previous (rows ++ row ∷ []) ≡ ok row.sha256
  unfolding check_rows
  check_rows-snoc n previous [] row p h a b c =
      rw (is_next-of_equal n previous row (omega arith) (cc) c)
  check_rows-snoc n previous (first ∷ rows) row p h a b c =
      ground (arith, check_rows-snoc (suc n) first.sha256 rows row p)

  -- `append` keeps the files such that the next `locked` accepts them.
  pub append-IsChained :
      (e : Event) (store : Store) → IsChained store → IsChained (append digests expected e store)
  unfolding append
  append-IsChained e store h = record {
    valid = h.valid;
    pinned = h.pinned;
    linked =
        check_rows-snoc 0 expected store.rows (next_row digests expected store.rows e)
          store.head.sha256 h.linked (omega arith)
          (sym (check_rows-last 0 expected store.rows store.head.sha256 h.linked)) refl;
    counted =
        ground (arith, length-append store.rows (next_row digests expected store.rows e ∷ []));
  }

  pub locked_of_IsChained :
      (store : Store)
      → IsChained store
      → journal_bytes store.rows ≤ 1048576
      → locked digests expected store ≡ ok tt
  unfolding locked
  locked_of_IsChained store h fits = ground (
    arith,
    eq_iff (of_contract store.contract) expected,
    eq_refl store.head.sha256,
    h.valid,
    h.pinned,
    h.linked,
    h.counted,
  )

  -- A crash of `append` after the head was replaced and before the row was written leaves a scope
  -- that no operation opens: what was reserved is not given back.
  pub crash_locks :
      (e : Event) (store : Store)
      → IsChained store
      → is_ok
          (locked digests expected (advance_head (next_row digests expected store.rows e) store))
        ≡ false
  unfolding locked advance_head next_row
  crash_locks e store h =
      ground (
        arith,
        check_rows-last 0 expected store.rows store.head.sha256 h.linked,
        h.linked,
        h.counted,
      )
