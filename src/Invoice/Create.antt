-- ===== src/Invoice/Create.antt =====
-- `CreateInvoice` of internal/invoice/invoice.go.
pub mod Effects
pub mod Accepted
use dodo_payments_backend.Base.{
  ℕ, ◌+◌, not, ◌==◌, Option, none, some, List, [], ◌∷◌, ◌++◌, if◌then◌else◌,
}
use dodo_payments_backend.Base.Int.{ℤ, pos}
use dodo_payments_backend.Base.Result.{Result, ok, err}
use dodo_payments_backend.Base.Text.{Text, text, text_eq, trim_space, to_upper, to_decimal}
use dodo_payments_backend.Db.{
  RowId, Time, InvoiceState, draft, open_invoice, state_text, Invoice, InvoiceItem, Customer,
  invoice_created,
}
use dodo_payments_backend.Db.Tx.{
  Error, no_rows, Session, Tx, pure, ◌>>=◌, ◌>>◌, ignore, exec, query, run_tx, next_id,
}
use dodo_payments_backend.Db.Queries.Resources.{
  create_invoice, create_invoice_item, get_customer_by_id,
}
use dodo_payments_backend.Http.{
  Env, Json, string, number, object, field, end, Response, json, error_response,
}
use dodo_payments_backend.Webhook.Outbox.{build_payload, queue_deliveries}
use dodo_payments_backend.Payment.Finalize.{or_empty}
use dodo_payments_backend.Invoice.Types.{ItemInput, CreateInvoiceRequest, InvoiceResponse}
use dodo_payments_backend.Invoice.Dates.{parse_date, format_date}
use dodo_payments_backend.Invoice.Totals.{
  Refusal, no_description, bad_quantity, bad_unit_amount, line_overflow, total_overflow, sum_items,
}
use dodo_payments_backend.Invoice.Responses.{to_invoice_response}

abbrev numbered : ℕ → Text → Text
numbered n message = text "Item " ++ (to_decimal n ++ message)

unfoldable pub refusal_message : Refusal → Text
refusal_message (no_description n) = numbered n (text ": description is required")
refusal_message (bad_quantity n) = numbered n (text ": quantity must be positive")
refusal_message (bad_unit_amount n) = numbered n (text ": unit_amount_cents must be non-negative")
refusal_message (line_overflow n) = numbered n (text ": amount calculation overflow")
refusal_message total_overflow = text "Invoice total amount overflow"

abbrev items_checked : ℕ → Result Refusal ℤ → Result Text (ℕ × ℤ)
items_checked due (ok total) = ok (due, total)
items_checked due (err r) = err (refusal_message r)

abbrev any_item : List ItemInput → ℕ → Result Text (ℕ × ℤ)
any_item [] due = err (text "Invoice must contain at least one line item")
any_item (itm ∷ items) due = items_checked due (sum_items 1 (pos 0) (itm ∷ items))

-- The checks of currency, due date and items: the message of a refusal, or the date and the total.
unfoldable pub check_request : CreateInvoiceRequest → Result Text (ℕ × ℤ)
check_request req =
    if not (text_eq (to_upper (trim_space req.currency)) (text "USD"))
    then err (text "Currency must be USD")
    else elim (parse_date (trim_space req.due_date)) [
      | none ↦ err (text "Invalid due_date format, expected YYYY-MM-DD")
      | some due ↦ any_item req.items due
    ]

unfoldable pub initial_state : Option Text → Option InvoiceState
initial_state none = some open_invoice
initial_state (some s) =
    let state = to_upper (trim_space s) in
    if text_eq state (state_text draft)
    then some draft
    else if text_eq state (state_text open_invoice)
    then some open_invoice
    else none

module _ (env : Env) (business_id : RowId) where
  abbrev refused : {A : Type 0} → ℕ → Text → Text → Session → Response A × Session
  refused status code message s = (error_response status code message, s)

  -- The loop over the items, which stops at the first error.
  unfoldable pub insert_items : RowId → List ItemInput → Tx (List InvoiceItem)
  insert_items invoice_id [] = pure []
  insert_items invoice_id (itm ∷ items) = do
    id ← next_id env.ids
    row ← exec env.fault (
        create_invoice_item env.now id invoice_id (trim_space itm.description) itm.quantity
          itm.unit_amount_cents)
    rest ← insert_items invoice_id items
    pure (row ∷ rest)

  -- Map keys are encoded in sorted order.
  abbrev pub created_payload : CreateInvoiceRequest → RowId → InvoiceState → ℕ → ℤ → Text
  created_payload req invoice_id state due total = build_payload env invoice_created (
      object (
        field (text "currency") (string (text "USD")) (
          field (text "customer_id") (string req.customer_id) (
            field (text "due_date") (string (format_date due)) (
              field (text "id") (string (or_empty (env.encode (text "inv") invoice_id))) (
                field (text "state") (string (state_text state))
                  (field (text "total_amount_cents") (number total) end)))))))

  -- The function that `WithTx` runs.
  unfoldable pub create_body :
      CreateInvoiceRequest → RowId → RowId → InvoiceState → ℕ → ℤ → Tx (Invoice × List InvoiceItem)
  create_body req invoice_id customer_id state due total = do
    inv ←
        exec env.fault
          (create_invoice env.now invoice_id business_id customer_id total (text "USD") state due)
    items ← insert_items invoice_id req.items
    ignore (
        queue_deliveries env invoice_id invoice_created
          (created_payload req invoice_id state due total) business_id)
    pure (inv, items)

  unfoldable pub respond_created :
      Result Error (Invoice × List InvoiceItem) × Session → Response InvoiceResponse × Session
  respond_created (err e, s) =
      refused 500 (text "internal_error") (text "Failed to create invoice") s
  respond_created (ok (inv, items), s) = elim (to_invoice_response env inv items) [
    | none ↦ refused 500 (text "internal_error") (text "Failed to encode invoice response") s
    | some resp ↦ (record { status = 201; body = json resp }, s)
  ]

  -- From the look-up of the customer on.
  unfoldable pub create_for :
      CreateInvoiceRequest
      → ℕ
      → ℤ
      → RowId
      → Result Error Customer × Session
      → Response InvoiceResponse × Session
  create_for req due total customer_id (err no_rows, s) =
      refused 400 (text "bad_request") (text "Customer not found or belongs to another business") s
  create_for req due total customer_id (err e, s) =
      refused 500 (text "internal_error") (text "Failed to verify customer") s
  create_for req due total customer_id (ok c, s) = elim (initial_state req.state) [
    | none ↦ refused 400 (text "bad_request") (text "Initial invoice state must be DRAFT or OPEN") s
    | some state ↦ respond_created (
        run_tx env.fault env.lost (create_body req (env.ids s.drawn) customer_id state due total)
          (record s { drawn = s.drawn + 1 }))
  ]

  unfoldable pub create_checked :
      CreateInvoiceRequest → Result Text (ℕ × ℤ) → Session → Response InvoiceResponse × Session
  create_checked req (err message) s = refused 400 (text "bad_request") message s
  create_checked req (ok (due, total)) s =
      elim (env.decode (text "cus") (trim_space req.customer_id)) [
        | none ↦ refused 400 (text "bad_request") (text "Invalid customer_id format") s
        | some customer_id ↦
            create_for req due total customer_id
              (query env.fault (get_customer_by_id customer_id business_id) s)
      ]

  -- The handler; `none` is a body that does not bind.
  unfoldable pub handle_create_invoice :
      Option CreateInvoiceRequest → Session → Response InvoiceResponse × Session
  handle_create_invoice req s =
      if business_id == 0
      then refused 401 (text "unauthorized") (text "Authentication required") s
      else elim req [
        | none ↦ refused 400 (text "bad_request") (text "Invalid request body") s
        | some r ↦ create_checked r (check_request r) s
      ]
