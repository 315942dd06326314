-- ===== src/Payment/Finalize.antt =====
-- `finalize` of internal/payment/payment.go: the second transaction.
pub mod Verdict
pub mod Effects
pub mod Found
use dodo_payments_backend.Base.{ℕ, Option, none, some, [], if◌then◌else◌}
use dodo_payments_backend.Base.Result.{Result}
use dodo_payments_backend.Base.Text.{Text, text, text_eq, is_empty}
use dodo_payments_backend.Db.{
  RowId, IdempotencyKey, PaymentAttempt, Invoice, state_text, payment_text, paid, succeeded, failed,
  unknown, invoice_paid, invoice_payment_failed,
}
use dodo_payments_backend.Db.Tx.{Error, Session, Tx, pure, ◌>>=◌, ◌>>◌, ignore, exec, run_tx}
use dodo_payments_backend.Db.Queries.Payment.{
  mark_payment_attempt_succeeded, mark_payment_attempt_failed, mark_payment_attempt_unknown,
  mark_invoice_paid, complete_idempotency_key,
}
use dodo_payments_backend.Http.{Env, Json, string, object, Fields, field, end}
use dodo_payments_backend.Psp.{ChargeResult}
use dodo_payments_backend.Webhook.Outbox.{build_payload, queue_deliveries}
use dodo_payments_backend.Payment.Types.{PayResponse}

-- A field with `omitempty`.
abbrev optional_field : Text → Text → Fields → Fields
optional_field name value rest = if is_empty value then rest else field name (string value) rest

-- The JSON object of a `payResponse`.
unfoldable pub response_json : PayResponse → Json
response_json r = object (
    field (text "payment_attempt_id") (string r.payment_attempt_id) (
      field (text "invoice_id") (string r.invoice_id) (
        field (text "status") (string r.status) (
          field (text "invoice_state") (string r.invoice_state) (
            optional_field (text "psp_ref") r.psp_ref (
              optional_field (text "failure_code") r.failure_code
                (optional_field (text "failure_reason") r.failure_reason end)))))))

-- An id of the codec whose error is dropped.
abbrev pub or_empty : Option Text → Text
or_empty none = []
or_empty (some s) = s

module _ (env : Env) (business_id : RowId) (idem : IdempotencyKey) (attempt : PaymentAttempt)
    (invoice : Invoice) where
  abbrev attempt_id : Text
  attempt_id = or_empty (env.encode (text "att") attempt.id)

  abbrev invoice_id : Text
  invoice_id = or_empty (env.encode (text "inv") invoice.id)

  abbrev blank_response : PayResponse
  blank_response = record {
    payment_attempt_id = attempt_id;
    invoice_id = invoice_id;
    status = [];
    invoice_state = state_text invoice.state;
    psp_ref = [];
    failure_code = [];
    failure_reason = [];
  }

  abbrev pub failed_response : ChargeResult → PayResponse
  failed_response result = record blank_response {
    status = payment_text failed;
    failure_code = result.failure_code;
  }

  abbrev pub paid_response : ChargeResult → PayResponse
  paid_response result = record blank_response {
    status = payment_text succeeded;
    invoice_state = state_text paid;
    psp_ref = result.psp_ref;
  }

  -- Map keys are encoded in sorted order.
  abbrev pub failed_payload : ChargeResult → Text
  failed_payload result = build_payload env invoice_payment_failed (
      object (
        field (text "failure_code") (string result.failure_code) (
          field (text "invoice_id") (string invoice_id) (
            field (text "payment_attempt_id") (string attempt_id)
              (field (text "status") (string (payment_text failed)) end)))))

  abbrev pub paid_payload : ChargeResult → Text
  paid_payload result = build_payload env invoice_paid (
      object (
        field (text "invoice_id") (string invoice_id) (
          field (text "payment_attempt_id") (string attempt_id) (
            field (text "psp_ref") (string result.psp_ref)
              (field (text "status") (string (state_text paid)) end)))))

  -- The PSP gave no definitive answer.
  unfoldable pub finalize_unknown : Tx (ℕ × PayResponse)
  finalize_unknown = do
    exec env.fault
        (mark_payment_attempt_unknown env.now attempt.id (text "ambiguous_transport_error"))
    pure (
      202,
      record blank_response {
        status = payment_text unknown;
        failure_reason = text "ambiguous_transport_error";
      },
    )

  -- The event and the response of a declined payment; an error of the queueing is dropped.
  unfoldable pub respond_failed : ChargeResult → Tx (ℕ × PayResponse)
  respond_failed result = do
    ignore
        (queue_deliveries env invoice.id invoice_payment_failed (failed_payload result) business_id)
    pure (402, failed_response result)

  unfoldable pub finalize_failed : ChargeResult → Tx (ℕ × PayResponse)
  finalize_failed result = do
    exec env.fault (
        mark_payment_attempt_failed env.now attempt.id result.failure_code
          (text "payment_declined"))
    respond_failed result

  -- The event and the response of a payment that went through.
  unfoldable pub respond_succeeded : ChargeResult → Tx (ℕ × PayResponse)
  respond_succeeded result = do
    ignore (queue_deliveries env invoice.id invoice_paid (paid_payload result) business_id)
    pure (200, paid_response result)

  unfoldable pub pay_and_respond : ChargeResult → Tx (ℕ × PayResponse)
  pay_and_respond result = do
    exec env.fault (mark_invoice_paid env.now invoice.id business_id)
    respond_succeeded result

  unfoldable pub finalize_succeeded : ChargeResult → Tx (ℕ × PayResponse)
  finalize_succeeded result = do
    exec env.fault (mark_payment_attempt_succeeded env.now attempt.id result.psp_ref)
    pay_and_respond result

  -- The branches on `pspErr` and on the status; `none` is an error of `Charge`.
  unfoldable pub finalize_outcome : Option ChargeResult → Tx (ℕ × PayResponse)
  finalize_outcome none = finalize_unknown
  finalize_outcome (some result) =
      if text_eq result.status (text "failed")
      then finalize_failed result
      else finalize_succeeded result

  -- The response is stored with the idempotency key.
  unfoldable pub store_response : ℕ × PayResponse → Tx (ℕ × Text)
  store_response (status, resp) = do
    let body = env.marshal (response_json resp)
    exec env.fault (complete_idempotency_key env.jsonb env.now idem.id status body)
    pure (status, body)

  unfoldable pub finalize_body : Option ChargeResult → Tx (ℕ × Text)
  finalize_body outcome = do answer ← finalize_outcome outcome; store_response answer

  unfoldable pub finalize : Option ChargeResult → Session → Result Error (ℕ × Text) × Session
  finalize outcome s = run_tx env.fault env.lost (finalize_body outcome) s
