-- ===== src/Payment/System.antt =====
-- The payment endpoint under concurrency (internal/payment/payment.go and the void of
-- internal/invoice/invoice.go): any number of requests on one database, their transactions and
-- their calls of the PSP interleaved in any order, with crashes at any point.
mod Rows
mod Claims
mod Resolves
mod Others
mod Charges
pub mod Ledger
pub mod Refines
pub mod Safety
use dodo_payments_backend.Base.{
  ℕ, ◌+◌, ◌≡◌, Bool, true, false, ◌||◌, Option, none, some, List, [], ◌∷◌, ◌++◌, ◌==◌,
  if◌then◌else◌,
}
use dodo_payments_backend.Base.Int.{ℤ}
use dodo_payments_backend.Base.Result.{Result, ok, err}
use dodo_payments_backend.Base.Text.{Text}
use dodo_payments_backend.Db.{
  RowId, Time, InvoiceState, void, IdempotencyKey, PaymentAttempt, Invoice, Db, empty_db,
}
use dodo_payments_backend.Db.Tx.{Error, Session, run_tx}
use dodo_payments_backend.Db.Queries.Resources.{create_invoice, update_invoice_state}
use dodo_payments_backend.Http.{Env}
use dodo_payments_backend.Psp.{ChargeResult}
use dodo_payments_backend.Payment.Types.{Claim, fresh}
use dodo_payments_backend.Payment.Claim.{claim, claim_new}
use dodo_payments_backend.Payment.Finalize.{finalize}
use dodo_payments_backend.Payment.Finalize.Verdict.{Verdict, uncertain, declined, charged, verdict}

-- A request between its two transactions, and the answer of the PSP once there is one.
pub record Flight : Type 0 where
  pub business_id : RowId
  pub idem : IdempotencyKey
  pub attempt : PaymentAttempt
  pub invoice : Invoice
  pub answered : Option (Option ChargeResult)

-- The database, the requests in flight by the id of their attempt, and what has happened at the
-- PSP for each attempt: how often it was called, and whether it has taken the money.
pub record System : Type 0 where
  pub db : Db
  pub flights : RowId → Option Flight
  pub calls : RowId → ℕ
  pub captured : RowId → Bool

abbrev pub start : System
start = record { db = empty_db; flights = λ _. none; calls = λ _. 0; captured = λ _. false }

-- A function of ids changed at one id.
abbrev pub at {ℓ} : {A : Type ℓ} → RowId → A → (RowId → A) → RowId → A
at id a f x = if x == id then a else f x

-- An answer tells the truth: with a charge that succeeded the PSP took the money, with one that
-- failed it did not, and an error of the call (a timeout, say) may mean either.
abbrev pub IsHonest : Verdict → Bool → Type 0
IsHonest uncertain took = Unit {0}
IsHonest (declined r) took = took ≡ false
IsHonest (charged r) took = took ≡ true

-- Each step may run under other ids, faults and times (`env`); a session of a step begins on the
-- tables of the system.
pub data Step : System → System → Type 0 where
  -- A request claims the invoice.
  claims :
      {sys : System} (env : Env) (b i : RowId) (key hash : Text) (s t : Session)
      (idem : IdempotencyKey) (attempt : PaymentAttempt) (inv : Invoice)
      → s.db ≡ sys.db
      → claim env b i key hash s ≡ (ok (fresh idem attempt inv), t)
      → Step sys (record sys {
        db = t.db;
        flights =
            at attempt.id
              (some (record {
                business_id = b;
                idem = idem;
                attempt = attempt;
                invoice = inv;
                answered = none;
              }))
              sys.flights;
      })
  -- The same, where the key was looked up before other transactions committed.
  claims_late :
      {sys : System} (env : Env) (b i : RowId) (key hash : Text) (s t : Session)
      (idem : IdempotencyKey) (attempt : PaymentAttempt) (inv : Invoice)
      → s.db ≡ sys.db
      → run_tx env.fault env.lost (claim_new env b i key hash) s ≡ (ok (fresh idem attempt inv), t)
      → Step sys (record sys {
        db = t.db;
        flights =
            at attempt.id
              (some (record {
                business_id = b;
                idem = idem;
                attempt = attempt;
                invoice = inv;
                answered = none;
              }))
              sys.flights;
      })
  -- A request calls the PSP.
  charges :
      {sys : System} (a : RowId) (f : Flight) (answer : Option ChargeResult) (took : Bool)
      → sys.flights a ≡ some f
      → f.answered ≡ none
      → IsHonest (verdict answer) took
      → Step sys (record sys {
        flights = at a (some (record f { answered = some answer })) sys.flights;
        calls = at a (sys.calls a + 1) sys.calls;
        captured = at a (sys.captured a || took) sys.captured;
      })
  -- A request finalizes, and ends.
  finalizes :
      {sys : System} (env : Env) (a : RowId) (f : Flight) (answer : Option ChargeResult)
      (s t : Session) (status : ℕ) (body : Text)
      → sys.flights a ≡ some f
      → f.answered ≡ some answer
      → s.db ≡ sys.db
      → finalize env f.business_id f.idem f.attempt f.invoice answer s ≡ (ok (status, body), t)
      → Step sys (record sys { db = t.db; flights = at a none sys.flights })
  -- A request ends early: its process crashes, or its finalization fails and is rolled back. After
  -- the step of a transaction, this is also a commit whose acknowledgement was lost.
  ends : {sys : System} (a : RowId) → Step sys (record sys { flights = at a none sys.flights })
  -- An invoice is voided, by a request that has read its state at some earlier time.
  voids :
      {sys : System} (now : Time) (i b : RowId) (v : Invoice) (db' : Db)
      → update_invoice_state now i b void sys.db ≡ ok (v, db')
      → Step sys (record sys { db = db' })
  -- An invoice is created.
  invoices :
      {sys : System} (now : Time) (i b c : RowId) (total : ℤ) (currency : Text)
      (state : InvoiceState) (due : Time) (v : Invoice) (db' : Db)
      → create_invoice now i b c total currency state due sys.db ≡ ok (v, db')
      → Step sys (record sys { db = db' })
  -- Anything that writes neither invoices nor payment attempts.
  others :
      {sys : System} (db' : Db)
      → db'.invoices ≡ sys.db.invoices
      → db'.payment_attempts ≡ sys.db.payment_attempts
      → Step sys (record sys { db = db' })

pub data Reach (from : System) : System → Type 0 where
  here : Reach from from
  next : {sys sys' : System} → Reach from sys → Step sys sys' → Reach from sys'
