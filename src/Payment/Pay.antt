-- ===== src/Payment/Pay.antt =====
-- The handler `PayInvoice` of internal/payment/payment.go.
pub mod Known
pub mod Charges
pub mod Retry
mod Commits
pub mod Answers
pub mod Returns
use dodo_payments_backend.Base.{
  ℕ, ◌||◌, Option, none, some, List, [], ◌∷◌, if◌then◌else◌, ltb, length,
}
use dodo_payments_backend.Base.Result.{Result, ok, err}
use dodo_payments_backend.Base.Text.{Text, text, is_empty, trim_space}
use dodo_payments_backend.Db.{RowId}
use dodo_payments_backend.Db.Tx.{
  Error, no_rows, hash_conflict, payment_in_progress, not_payable, Session,
}
use dodo_payments_backend.Http.{Env, Response, raw, error_response}
use dodo_payments_backend.Psp.{ChargeRequest, ChargeResult}
use dodo_payments_backend.Payment.Types.{Claim, replayed, fresh, PayRequest}
use dodo_payments_backend.Payment.Claim.{fingerprint, claim}
use dodo_payments_backend.Payment.Finalize.{finalize}

-- The response to an error of `claim`.
unfoldable pub claim_refused : Error → Response Text
claim_refused hash_conflict =
    error_response 409 (text "idempotency_conflict")
      (text "Idempotency key was already used with a different request")
claim_refused payment_in_progress =
    error_response 409 (text "payment_in_progress")
      (text "A payment is already processing for this invoice")
claim_refused not_payable =
    error_response 409 (text "invoice_not_payable") (text "Invoice is not open for payment")
claim_refused no_rows = error_response 404 (text "not_found") (text "Invoice not found")
claim_refused _ = error_response 500 (text "internal_error") (text "Failed to claim payment")

abbrev int_or_zero : Option ℕ → ℕ
int_or_zero none = 0
int_or_zero (some n) = n

abbrev bytes_or_nil : Option Text → Text
bytes_or_nil none = []
bytes_or_nil (some s) = s

-- What a call of the handler shows: the response, the calls of the PSP, and the session.
pub record Outcome : Type 0 where
  pub response : Response Text
  pub charges : List ChargeRequest
  pub session : Session

abbrev pub answer : Response Text → List ChargeRequest → Session → Outcome
answer response charges s = record { response = response; charges = charges; session = s }

module _ (env : Env) (decimal : RowId → Text) (charge : ChargeRequest → Option ChargeResult)
    (business_id : RowId) where
  unfoldable pub finalized : ChargeRequest → Result Error (ℕ × Text) × Session → Outcome
  finalized request (ok (status, body), s) =
      answer (record { status = status; body = raw body }) (request ∷ []) s
  finalized request (err e, s) =
      answer (error_response 500 (text "internal_error") (text "Failed to finalize payment"))
        (request ∷ []) s

  -- From the claim to the response.
  unfoldable pub proceed : Text → Result Error Claim × Session → Outcome
  proceed token (err e, s) = answer (claim_refused e) [] s
  proceed token (ok (replayed idem), s) =
      answer
        (record {
          status = int_or_zero idem.response_status;
          body = raw (bytes_or_nil idem.response_body);
        })
        [] s
  proceed token (ok (fresh idem attempt invoice), s) =
      let request : ChargeRequest = record {
        token = token;
        amount_cents = invoice.total_amount_cents;
        currency = invoice.currency;
        psp_request_id = attempt.psp_request_id;
      } in
      finalized request (finalize env business_id idem attempt invoice (charge request) s)

  unfoldable pub pay_with : RowId → Text → Text → Session → Outcome
  pay_with invoice_id key token s =
      proceed token
        (claim env business_id invoice_id key (fingerprint env decimal invoice_id token) s)

  abbrev refused : ℕ → Text → Text → Session → Outcome
  refused status code message s = answer (error_response status code message) [] s

  unfoldable pub pay_body : RowId → Text → Option Text → Session → Outcome
  pay_body invoice_id key none s =
      refused 400 (text "bad_request") (text "card_token is required") s
  pay_body invoice_id key (some card_token) s =
      let token = trim_space card_token in
      if is_empty token
      then refused 400 (text "bad_request") (text "card_token is required") s
      else pay_with invoice_id key token s

  unfoldable pub pay_invoice : PayRequest → Session → Outcome
  pay_invoice req s =
      let key = trim_space req.idempotency_key in
      if is_empty key || ltb 255 (length key)
      then refused 400 (text "invalid_idempotency_key") (text "Idempotency-Key header is required")
          s
      else elim (env.decode (text "inv") req.id) [
        | none ↦ refused 404 (text "not_found") (text "Invoice not found") s
        | some invoice_id ↦ pay_body invoice_id key req.card_token s
      ]
