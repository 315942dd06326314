-- ===== src/Payment/Finalize/Verdict.antt =====
-- How `finalize` of internal/payment/payment.go reads the answer of the PSP, and the tables that go
-- with it.
use dodo_payments_backend.Base.{ℕ, Option, none, some, List, [], ◌++◌, if◌then◌else◌, update_rows}
use dodo_payments_backend.Base.Text.{text, text_eq}
use dodo_payments_backend.Db.{
  RowId, IdempotencyKey, PaymentAttempt, Invoice, WebhookDelivery, Db, invoice_paid,
  invoice_payment_failed,
}
use dodo_payments_backend.Db.Queries.Payment.{
  attempt_runs, succeeded_attempt, failed_attempt, unknown_attempt, is_payable, paid_invoice,
}
use dodo_payments_backend.Db.Queries.Webhook.{active_endpoints}
use dodo_payments_backend.Http.{Env}
use dodo_payments_backend.Psp.{ChargeResult}
use dodo_payments_backend.Webhook.Outbox.Effects.{queued}
use dodo_payments_backend.Payment.Finalize.{failed_payload, paid_payload}

-- How the code reads the answer of the PSP.
pub data Verdict : Type 0 where
  uncertain : Verdict
  declined charged : ChargeResult → Verdict

abbrev pub verdict : Option ChargeResult → Verdict
verdict none = uncertain
verdict (some r) = if text_eq r.status (text "failed") then declined r else charged r

abbrev pub status_of : Verdict → ℕ
status_of uncertain = 202
status_of (declined r) = 402
status_of (charged r) = 200

module _ (env : Env) (business_id : RowId) (idem : IdempotencyKey) (attempt : PaymentAttempt)
    (invoice : Invoice) where
  abbrev pub resolved : Verdict → PaymentAttempt → PaymentAttempt
  resolved uncertain = unknown_attempt env.now (text "ambiguous_transport_error")
  resolved (declined r) = failed_attempt env.now r.failure_code (text "payment_declined")
  resolved (charged r) = succeeded_attempt env.now r.psp_ref

  abbrev pub invoices_after : Verdict → List Invoice → List Invoice
  invoices_after (charged r) rows =
      update_rows (is_payable invoice.id business_id) (paid_invoice env.now) rows
  invoices_after (declined r) rows = rows
  invoices_after uncertain rows = rows

  -- The deliveries that announce the verdict.
  abbrev pub announced : Verdict → ℕ → Db → List WebhookDelivery
  announced uncertain drawn db = []
  announced (declined r) drawn db =
      queued env invoice.id invoice_payment_failed
        (failed_payload env business_id idem attempt invoice r) drawn
        (active_endpoints business_id db)
  announced (charged r) drawn db =
      queued env invoice.id invoice_paid (paid_payload env business_id idem attempt invoice r) drawn
        (active_endpoints business_id db)

  -- The tables after the verdict, before the response is stored.
  abbrev pub settled_db : Verdict → ℕ → Db → Db
  settled_db v drawn db = record db {
    payment_attempts = update_rows (attempt_runs attempt.id) (resolved v) db.payment_attempts;
    invoices = invoices_after v db.invoices;
    webhook_deliveries = db.webhook_deliveries ++ announced v drawn db;
  }
