-- ===== src/Db/Tx.antt =====
-- Statements and transactions of pgx. A statement may fail for a reason of its own (a constraint)
-- or for one of the connection, which the parameter `fault` decides for each statement; after a
-- failed statement PostgreSQL refuses every later one of the transaction, and a commit too. For a
-- commit with a fault the parameter `lost` decides whether the server has committed all the same.
pub mod Inversion
use dodo_payments_backend.Base.{none, some, Option, ℕ, ◌+◌, Bool, true, false, ◌||◌, if◌then◌else◌}
use dodo_payments_backend.Base.Result.{Result, ok, err}
use dodo_payments_backend.Db.Models.{RowId, Db}

-- The Go errors that the handlers tell apart: those of the database, and the three of the claim.
pub data Error : Type 0 where
  no_rows unique_violation foreign_key_violation check_violation failure : Error
  hash_conflict payment_in_progress not_payable : Error

-- `aborted` is the state of the open transaction; `ticks` counts statements and `drawn` the ids
-- taken from the generator.
pub record Session : Type 0 where
  pub db : Db
  pub drawn : ℕ
  pub ticks : ℕ
  pub aborted : Bool

abbrev pub Tx : Type 0 → Type 0
Tx A = Session → Result Error A × Session

-- A query on the tables.
abbrev pub Query : Type 0 → Type 0
Query A = Db → Result Error (A × Db)

module _ {A : Type 0} where
  abbrev pub pure : A → Tx A
  pure a s = (ok a, s)

  abbrev pub fail : Error → Tx A
  fail e s = (err e, s)

infixl 5 ◌>>=◌ ◌>>◌
abbrev pub ◌>>=◌ : {A B : Type 0} → Tx A → (A → Tx B) → Tx B
◌>>=◌ m f s = let (r, s') = m s in elim r [ ok a ↦ f a s' | err e ↦ (err e, s') ]

abbrev pub ◌>>◌ : {A B : Type 0} → Tx A → Tx B → Tx B
m >> k = m >>= λ _. k

-- A result that the code ignores, `_ = f(…)`.
abbrev pub ignore : {A : Type 0} → Tx A → Tx (Unit {0})
ignore m s = let (r, s') = m s in (ok tt, s')

-- `errors.Is(err, pgx.ErrNoRows)`: the absence of a row as a value.
abbrev pub optional : {A : Type 0} → Tx A → Tx (Option A)
optional m s =
    let (r, s') = m s in
    elim r [ ok a ↦ (ok (some a), s') | err no_rows ↦ (ok none, s') | err e ↦ (err e, s') ]

-- PostgreSQL's code 23505 as another error.
abbrev pub on_unique : {A : Type 0} → Error → Tx A → Tx A
on_unique other m s =
    let (r, s') = m s in
    elim r [ ok a ↦ (ok a, s') | err unique_violation ↦ (err other, s') | err e ↦ (err e, s') ]

-- What a query leaves behind: no rows is no failure of the statement.
unfoldable pub settle : {A : Type 0} → Result Error (A × Db) → Session → Result Error A × Session
settle (ok (a, db')) s = (ok a, record s { db = db'; ticks = s.ticks + 1 })
settle (err no_rows) s = (err no_rows, record s { ticks = s.ticks + 1 })
settle (err e) s = (err e, record s { ticks = s.ticks + 1; aborted = true })

module _ (fault : ℕ → Bool) where
  unfoldable pub exec : {A : Type 0} → Query A → Tx A
  exec q s =
      if s.aborted
      then (err failure, s)
      else settle (if fault s.ticks then err failure else q s.db) s

module _ (fault lost : ℕ → Bool) where
  -- The end of a transaction that began with the tables `before`: a commit of what went well, and
  -- else a rollback. A commit that reports an error has left `before`, unless only its
  -- acknowledgement was lost: then the server has committed, and the caller does not know.
  unfoldable pub finish : {A : Type 0} → Db → Result Error A × Session → Result Error A × Session
  finish before (ok a, s) =
      if s.aborted
      then (err failure, record s { db = before; ticks = s.ticks + 1 })
      else if fault s.ticks
      then (
        err failure,
        record s { db = if lost s.ticks then s.db else before; ticks = s.ticks + 1 },
      )
      else (ok a, record s { ticks = s.ticks + 1 })
  finish before (err e, s) = (err e, record s { db = before })

  -- `Begin`, the body, and `Commit` or the deferred `Rollback`.
  unfoldable pub run_tx : {A : Type 0} → Tx A → Session → Result Error A × Session
  run_tx m s =
      if fault s.ticks
      then (err failure, record s { ticks = s.ticks + 1 })
      else finish s.db (m (record s { ticks = s.ticks + 1; aborted = false }))

-- `NextID` of the generator `ids`.
unfoldable pub next_id : (ℕ → RowId) → Tx RowId
next_id ids s = (ok (ids s.drawn), record s { drawn = s.drawn + 1 })

-- A statement outside of a transaction, which commits by itself.
unfoldable pub query : {A : Type 0} → (ℕ → Bool) → Query A → Tx A
unfolding exec settle
query fault q s =
    let (r, t) = exec fault q (record s { aborted = false }) in (r, record t { aborted = false })
