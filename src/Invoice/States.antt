-- ===== src/Invoice/States.antt =====
-- `GetInvoice`, `ListInvoices` and `VoidInvoice` of internal/invoice/invoice.go.
pub mod Void
use dodo_payments_backend.Base.{
  ℕ, ◌==◌, Option, none, some, List, [], ◌∷◌, if◌then◌else◌, rows_where, any_row,
}
use dodo_payments_backend.Base.Result.{Result, ok, err}
use dodo_payments_backend.Base.Text.{Text, text}
use dodo_payments_backend.Db.{
  RowId, InvoiceState, draft, open_invoice, paid, void, uncollectible, Invoice, InvoiceItem,
}
use dodo_payments_backend.Db.Tx.{Error, no_rows, Session, query}
use dodo_payments_backend.Db.Queries.Resources.{
  get_invoice_by_id, list_invoices_by_business_id, update_invoice_state,
  list_invoice_items_by_invoice_id, list_invoice_items_by_invoice_ids,
}
use dodo_payments_backend.Http.{Env, Response, json, error_response}
use dodo_payments_backend.Invoice.Types.{InvoiceResponse}
use dodo_payments_backend.Invoice.Responses.{to_invoice_response}

abbrev ids_of : List Invoice → List RowId
ids_of [] = []
ids_of (inv ∷ invs) = inv.id ∷ ids_of invs

module _ (env : Env) (business_id : RowId) where
  abbrev refused : {A : Type 0} → ℕ → Text → Text → Session → Response A × Session
  refused status code message s = (error_response status code message, s)

  -- The end that `GetInvoice` and `VoidInvoice` share: the items, and the response.
  unfoldable pub respond_with :
      Invoice → Result Error (List InvoiceItem) × Session → Response InvoiceResponse × Session
  respond_with inv (err e, s) =
      refused 500 (text "internal_error") (text "Failed to retrieve invoice items") s
  respond_with inv (ok items, s) = elim (to_invoice_response env inv items) [
    | none ↦ refused 500 (text "internal_error") (text "Failed to encode invoice response") s
    | some resp ↦ (record { status = 200; body = json resp }, s)
  ]

  abbrev show_invoice : RowId → Invoice → Session → Response InvoiceResponse × Session
  show_invoice id inv s = respond_with inv (query env.fault (list_invoice_items_by_invoice_id id) s)

  unfoldable pub get_found :
      RowId → Result Error Invoice × Session → Response InvoiceResponse × Session
  get_found id (err no_rows, s) = refused 404 (text "not_found") (text "Invoice not found") s
  get_found id (err e, s) =
      refused 500 (text "internal_error") (text "Failed to retrieve invoice") s
  get_found id (ok inv, s) = show_invoice id inv s

  unfoldable pub handle_get_invoice : Text → Session → Response InvoiceResponse × Session
  handle_get_invoice raw_id s =
      if business_id == 0
      then refused 401 (text "unauthorized") (text "Authentication required") s
      else elim (env.decode (text "inv") raw_id) [
        | none ↦ refused 404 (text "not_found") (text "Invoice not found") s
        | some id ↦ get_found id (query env.fault (get_invoice_by_id id business_id) s)
      ]

  unfoldable pub voided :
      RowId → Result Error Invoice × Session → Response InvoiceResponse × Session
  voided id (err e, s) = refused 500 (text "internal_error") (text "Failed to void invoice") s
  voided id (ok updated, s) = show_invoice id updated s

  abbrev update_to_void : RowId → Session → Response InvoiceResponse × Session
  update_to_void id s =
      voided id (query env.fault (update_invoice_state env.now id business_id void) s)

  -- The switch over the state.
  unfoldable pub void_from :
      RowId → Invoice → InvoiceState → Session → Response InvoiceResponse × Session
  void_from id inv paid s =
      refused 400 (text "invalid_state_transition") (text "Cannot void a paid invoice") s
  void_from id inv uncollectible s =
      refused 400 (text "invalid_state_transition") (text "Cannot void an uncollectible invoice") s
  void_from id inv void s = show_invoice id inv s
  void_from id inv draft s = update_to_void id s
  void_from id inv open_invoice s = update_to_void id s

  unfoldable pub void_found :
      RowId → Result Error Invoice × Session → Response InvoiceResponse × Session
  void_found id (err no_rows, s) = refused 404 (text "not_found") (text "Invoice not found") s
  void_found id (err e, s) =
      refused 500 (text "internal_error") (text "Failed to retrieve invoice") s
  void_found id (ok inv, s) = void_from id inv inv.state s

  unfoldable pub handle_void_invoice : Text → Session → Response InvoiceResponse × Session
  handle_void_invoice raw_id s =
      if business_id == 0
      then refused 401 (text "unauthorized") (text "Authentication required") s
      else elim (env.decode (text "inv") raw_id) [
        | none ↦ refused 404 (text "not_found") (text "Invoice not found") s
        | some id ↦ void_found id (query env.fault (get_invoice_by_id id business_id) s)
      ]

  -- The responses of a list, each with the items of its invoice; the map groups them by invoice.
  unfoldable pub to_responses : List Invoice → List InvoiceItem → Option (List InvoiceResponse)
  to_responses [] items = some []
  to_responses (inv ∷ invs) items =
      elim (to_invoice_response env inv (rows_where (λ i. i.invoice_id == inv.id) items)) [
        | none ↦ none
        | some resp ↦ elim (to_responses invs items) [
          | none ↦ none
          | some rest ↦ some (resp ∷ rest)
        ]
      ]

  unfoldable pub list_items :
      List Invoice
      → Result Error (List InvoiceItem) × Session
      → Response (List InvoiceResponse) × Session
  list_items invs (err e, s) =
      refused 500 (text "internal_error") (text "Failed to retrieve invoice items") s
  list_items invs (ok items, s) = elim (to_responses invs items) [
    | none ↦ refused 500 (text "internal_error") (text "Failed to encode invoice response") s
    | some resps ↦ (record { status = 200; body = json resps }, s)
  ]

  unfoldable pub list_found :
      Result Error (List Invoice) × Session → Response (List InvoiceResponse) × Session
  list_found (err e, s) = refused 500 (text "internal_error") (text "Failed to retrieve invoices") s
  list_found (ok [], s) = (record { status = 200; body = json [] }, s)
  list_found (ok (inv ∷ invs), s) =
      list_items (inv ∷ invs)
        (query env.fault (list_invoice_items_by_invoice_ids (ids_of (inv ∷ invs))) s)

  unfoldable pub handle_list_invoices : Session → Response (List InvoiceResponse) × Session
  handle_list_invoices s =
      if business_id == 0
      then refused 401 (text "unauthorized") (text "Authentication required") s
      else list_found (query env.fault (list_invoices_by_business_id business_id) s)
