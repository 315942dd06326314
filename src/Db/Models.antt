-- ===== src/Db/Models.antt =====
-- The rows of internal/db/generate/models.go. An id is the 64-bit pattern of its int64, a time a
-- number of seconds, and a NULL of a nullable column is `none`.
use dodo_payments_backend.Base.{ℕ, Bool, true, false, Option, List, []}
use dodo_payments_backend.Base.Int.{ℤ}
use dodo_payments_backend.Base.Text.{Text, text}

abbrev pub RowId : Type 0
RowId = ℕ

abbrev pub Time : Type 0
Time = ℕ

pub data InvoiceState : Type 0 where
  draft open_invoice paid void uncollectible : InvoiceState

pub data PaymentStatus : Type 0 where
  processing succeeded failed unknown : PaymentStatus

pub data IdempotencyStatus : Type 0 where
  in_progress completed : IdempotencyStatus

pub data DeliveryStatus : Type 0 where
  pending claimed delivered exhausted : DeliveryStatus

pub data EventType : Type 0 where
  invoice_created invoice_paid invoice_payment_failed : EventType

-- The texts that the enumerations stand for.
abbrev pub state_text : InvoiceState → Text
state_text draft = text "DRAFT"
state_text open_invoice = text "OPEN"
state_text paid = text "PAID"
state_text void = text "VOID"
state_text uncollectible = text "UNCOLLECTIBLE"

abbrev pub payment_text : PaymentStatus → Text
payment_text processing = text "PROCESSING"
payment_text succeeded = text "SUCCEEDED"
payment_text failed = text "FAILED"
payment_text unknown = text "UNKNOWN"

abbrev pub event_text : EventType → Text
event_text invoice_created = text "INVOICE.CREATED"
event_text invoice_paid = text "INVOICE.PAID"
event_text invoice_payment_failed = text "INVOICE.PAYMENT_FAILED"

abbrev pub is_open : InvoiceState → Bool
is_open open_invoice = true
is_open _ = false

abbrev pub is_processing : PaymentStatus → Bool
is_processing processing = true
is_processing _ = false

abbrev pub is_failed : PaymentStatus → Bool
is_failed failed = true
is_failed _ = false

abbrev pub is_succeeded : PaymentStatus → Bool
is_succeeded succeeded = true
is_succeeded _ = false

-- The condition of the partial unique index on payment_attempts.
abbrev pub is_unresolved : PaymentStatus → Bool
is_unresolved processing = true
is_unresolved unknown = true
is_unresolved _ = false

abbrev pub is_completed : IdempotencyStatus → Bool
is_completed completed = true
is_completed in_progress = false

pub record Business : Type 0 where
  pub id : RowId
  pub name : Text
  pub created_at : Time
  pub updated_at : Time

pub record ApiKey : Type 0 where
  pub id : RowId
  pub business_id : RowId
  pub key_prefix : Text
  pub secret_hash : Text
  pub created_at : Time
  pub revoked_at : Option Time

pub record Customer : Type 0 where
  pub id : RowId
  pub business_id : RowId
  pub name : Text
  pub email : Text
  pub created_at : Time
  pub updated_at : Time

pub record Invoice : Type 0 where
  pub id : RowId
  pub business_id : RowId
  pub customer_id : RowId
  pub total_amount_cents : ℤ
  pub currency : Text
  pub state : InvoiceState
  pub due_date : Time
  pub created_at : Time
  pub updated_at : Time

pub record InvoiceItem : Type 0 where
  pub id : RowId
  pub invoice_id : RowId
  pub description : Text
  pub quantity : ℤ
  pub unit_amount_cents : ℤ
  pub created_at : Time

pub record IdempotencyKey : Type 0 where
  pub id : RowId
  pub business_id : RowId
  pub idempotency_key : Text
  pub request_hash : Text
  pub status : IdempotencyStatus
  pub response_status : Option ℕ
  pub response_body : Option Text
  pub created_at : Time
  pub updated_at : Time

pub record PaymentAttempt : Type 0 where
  pub id : RowId
  pub invoice_id : RowId
  pub idempotency_key_id : RowId
  pub status : PaymentStatus
  pub psp_request_id : RowId
  pub psp_ref : Option Text
  pub failure_code : Option Text
  pub failure_reason : Option Text
  pub psp_requested_at : Option Time
  pub psp_responded_at : Option Time
  pub created_at : Time
  pub updated_at : Time

pub record WebhookEndpoint : Type 0 where
  pub id : RowId
  pub business_id : RowId
  pub url : Text
  pub secret : Text
  pub is_active : Bool
  pub created_at : Time
  pub updated_at : Time

pub record WebhookDelivery : Type 0 where
  pub id : RowId
  pub webhook_endpoint_id : RowId
  pub invoice_id : RowId
  pub event_type : EventType
  pub payload : Text
  pub status : DeliveryStatus
  pub attempt_count : ℕ
  pub next_attempt_at : Time
  pub last_error : Option Text
  pub created_at : Time
  pub delivered_at : Option Time

-- The tables; a new row is put at the end.
pub record Db : Type 0 where
  pub businesses : List Business
  pub api_keys : List ApiKey
  pub customers : List Customer
  pub invoices : List Invoice
  pub invoice_items : List InvoiceItem
  pub idempotency_keys : List IdempotencyKey
  pub payment_attempts : List PaymentAttempt
  pub webhook_endpoints : List WebhookEndpoint
  pub webhook_deliveries : List WebhookDelivery

abbrev pub empty_db : Db
empty_db = record {
  businesses = [];
  api_keys = [];
  customers = [];
  invoices = [];
  invoice_items = [];
  idempotency_keys = [];
  payment_attempts = [];
  webhook_endpoints = [];
  webhook_deliveries = [];
}
