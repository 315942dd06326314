-- ===== src/Invoice/Responses.antt =====
-- `toItemResponses` and `toInvoiceResponse` of internal/invoice/invoice.go; `none` is an error of
-- the codec.
use dodo_payments_backend.Base.{Option, none, some, List, [], ◌∷◌}
use dodo_payments_backend.Base.Text.{Text, text}
use dodo_payments_backend.Db.{Invoice, InvoiceItem, state_text}
use dodo_payments_backend.Base.Int.{◌*ℤ◌, wrap64}
use dodo_payments_backend.Http.{Env}
use dodo_payments_backend.Invoice.Types.{ItemResponse, InvoiceResponse}
use dodo_payments_backend.Invoice.Dates.{format_date}

abbrev item_response : InvoiceItem → Text → Text → ItemResponse
item_response itm id invoice_id = record {
  id = id;
  invoice_id = invoice_id;
  description = itm.description;
  quantity = itm.quantity;
  unit_amount_cents = itm.unit_amount_cents;
  line_total_cents = wrap64 (itm.quantity *ℤ itm.unit_amount_cents);
}

infixl 5 ◌then◌
abbrev ◌then◌ : {A B : Type 0} → Option A → (A → Option B) → Option B
none then f = none
(some a) then f = f a

module _ (env : Env) where
  unfoldable pub to_item_responses : List InvoiceItem → Option (List ItemResponse)
  to_item_responses [] = some []
  to_item_responses (itm ∷ items) = env.encode (text "itm") itm.id then λ id.
      env.encode (text "inv") itm.invoice_id then λ invoice_id.
      to_item_responses items then λ rest. some (item_response itm id invoice_id ∷ rest)

  abbrev invoice_response : Invoice → Text → Text → List ItemResponse → InvoiceResponse
  invoice_response inv id customer_id items = record {
    id = id;
    customer_id = customer_id;
    total_amount_cents = inv.total_amount_cents;
    currency = inv.currency;
    state = state_text inv.state;
    due_date = format_date inv.due_date;
    items = items;
    created_at = inv.created_at;
    updated_at = inv.updated_at;
  }

  unfoldable pub to_invoice_response : Invoice → List InvoiceItem → Option InvoiceResponse
  to_invoice_response inv items = env.encode (text "inv") inv.id then λ id.
      env.encode (text "cus") inv.customer_id then λ customer_id.
      to_item_responses items then λ resps. some (invoice_response inv id customer_id resps)
