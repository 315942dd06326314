-- ===== src/Invoice/Types.antt =====
-- The requests and responses of internal/invoice/invoice.go.
use dodo_payments_backend.Base.{Option, List}
use dodo_payments_backend.Base.Int.{ℤ}
use dodo_payments_backend.Base.Text.{Text}
use dodo_payments_backend.Db.{Time}

-- `Quantity` is an int32 and `UnitAmountCents` an int64.
pub record ItemInput : Type 0 where
  pub description : Text
  pub quantity : ℤ
  pub unit_amount_cents : ℤ

pub record CreateInvoiceRequest : Type 0 where
  pub customer_id : Text
  pub currency : Text
  pub due_date : Text
  pub items : List ItemInput
  pub state : Option Text

pub record ItemResponse : Type 0 where
  pub id : Text
  pub invoice_id : Text
  pub description : Text
  pub quantity : ℤ
  pub unit_amount_cents : ℤ
  pub line_total_cents : ℤ

-- The times stand for the texts that `Format(time.RFC3339)` gives.
pub record InvoiceResponse : Type 0 where
  pub id : Text
  pub customer_id : Text
  pub total_amount_cents : ℤ
  pub currency : Text
  pub state : Text
  pub due_date : Text
  pub items : List ItemResponse
  pub created_at : Time
  pub updated_at : Time
