-- ===== src/Payment/System/Rows.antt =====
-- The invariant of the payment tables, of the requests in flight and of what the PSP has done
-- (internal/payment/payment.go).
use dodo_payments_backend.Base.{
  ℕ, ◌≤◌, ◌≡◌, ◌≢◌, ◌⊎◌, Bool, true, false, Option, none, some, List, ◌==◌, All, any_row,
}
use dodo_payments_backend.Base.Rows.{AllPairs}
use dodo_payments_backend.Db.{
  RowId, PaymentAttempt, Invoice, is_open, is_failed, is_succeeded, is_processing,
}
use dodo_payments_backend.Psp.{ChargeResult}
use dodo_payments_backend.Payment.Finalize.Verdict.{Verdict, uncertain, declined, charged, verdict}
use dodo_payments_backend.Payment.System.{System, Flight}

-- Two attempts are different, and one of them has failed if they are for one invoice.
abbrev pub Exclusive : PaymentAttempt → PaymentAttempt → Type 0
Exclusive x y =
    (x.id ≢ y.id)
    × (x.invoice_id ≡ y.invoice_id → (is_failed x.status ≡ true) ⊎ (is_failed y.status ≡ true))

abbrev pub AreDistinct : Invoice → Invoice → Type 0
AreDistinct v w = v.id ≢ w.id

abbrev pub IsClosed : RowId → Invoice → Type 0
IsClosed i v = v.id ≡ i → is_open v.state ≡ false

abbrev pub has_invoice : RowId → Invoice → Bool
has_invoice i v = v.id == i

-- An attempt that succeeded has closed its invoice.
abbrev pub ClosesInvoice : List Invoice → PaymentAttempt → Type 0
ClosesInvoice vs x = is_succeeded x.status ≡ true → All (IsClosed x.invoice_id) vs

-- After a definitive failure no money was taken, after a success it was.
abbrev pub IsTruthful : Verdict → Bool → Type 0
IsTruthful uncertain captured = Unit {0}
IsTruthful (declined r) captured = captured ≡ false
IsTruthful (charged r) captured = captured ≡ true

-- What the answer of the PSP says of the money.
abbrev pub AgreesWith : Option (Option ChargeResult) → ℕ → Bool → Type 0
AgreesWith none calls captured = (calls ≡ 0) × (captured ≡ false)
AgreesWith (some o) calls captured = (calls ≤ 1) × IsTruthful (verdict o) captured

-- The tables of invoices and of attempts.
pub record AreSound (vs : List Invoice) (xs : List PaymentAttempt) : Type 0 where
  pub exclusive : AllPairs Exclusive xs
  pub distinct : AllPairs AreDistinct vs
  pub known : All (λ (x : PaymentAttempt). any_row (has_invoice x.invoice_id) vs ≡ true) xs
  pub closed : All (ClosesInvoice vs) xs

abbrev pub has_attempt : RowId → PaymentAttempt → Bool
has_attempt a x = x.id == a

-- What an attempt in flight is in its table, and its invoice in its own.
abbrev pub IsRunning : RowId → RowId → PaymentAttempt → Type 0
IsRunning a i x = x.id ≡ a → (is_processing x.status ≡ true) × (x.invoice_id ≡ i)

abbrev pub IsOwned : RowId → RowId → Invoice → Type 0
IsOwned i b v = v.id ≡ i → v.business_id ≡ b

-- A request in flight: its attempt is still PROCESSING, its invoice is of its business.
pub record IsAloft (vs : List Invoice) (xs : List PaymentAttempt) (a : RowId) (f : Flight)
    : Type 0 where
  pub own : f.attempt.id ≡ a
  pub running : All (IsRunning a f.invoice.id) xs
  pub present : any_row (has_attempt a) xs ≡ true
  pub owned : All (IsOwned f.invoice.id f.business_id) vs
  pub invoiced : any_row (has_invoice f.invoice.id) vs ≡ true

-- The whole system: the PSP was called at most once for an attempt, and never for one that is
-- not in the table; no money was taken for an attempt that has failed.
pub record IsSafe (sys : System) : Type 0 where
  pub sound : AreSound sys.db.invoices sys.db.payment_attempts
  pub aloft :
      (a : RowId) (f : Flight)
      → sys.flights a ≡ some f
      → IsAloft sys.db.invoices sys.db.payment_attempts a f
  pub agrees :
      (a : RowId) (f : Flight)
      → sys.flights a ≡ some f
      → AgreesWith f.answered (sys.calls a) (sys.captured a)
  pub once : (a : RowId) → sys.calls a ≤ 1
  pub new :
      (a : RowId)
      → any_row (has_attempt a) sys.db.payment_attempts ≡ false
      → (sys.calls a ≡ 0) × (sys.captured a ≡ false)
  pub kept :
      All
        (λ (x : PaymentAttempt). sys.captured x.id ≡ true → is_failed x.status ≡ false)
        sys.db.payment_attempts
