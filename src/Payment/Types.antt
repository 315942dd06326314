-- ===== src/Payment/Types.antt =====
-- The types of internal/payment/payment.go.
use dodo_payments_backend.Base.{Option}
use dodo_payments_backend.Base.Text.{Text}
use dodo_payments_backend.Db.{IdempotencyKey, PaymentAttempt, Invoice}

-- `claim`: with `replay` set only `idem` is filled in.
pub data Claim : Type 0 where
  replayed : IdempotencyKey → Claim
  fresh : IdempotencyKey → PaymentAttempt → Invoice → Claim

pub record PayResponse : Type 0 where
  pub payment_attempt_id : Text
  pub invoice_id : Text
  pub status : Text
  pub invoice_state : Text
  pub psp_ref : Text
  pub failure_code : Text
  pub failure_reason : Text

-- What the handler reads of a request: the header Idempotency-Key, the path parameter, and the
-- card token of the JSON body, `none` where the body does not bind.
pub record PayRequest : Type 0 where
  pub idempotency_key : Text
  pub id : Text
  pub card_token : Option Text
