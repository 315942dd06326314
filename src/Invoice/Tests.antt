-- ===== src/Invoice/Tests.antt =====
-- Runs of the invoice endpoints, and their theorems at concrete requests.
use dodo_payments_backend.Base.{
  ◌&&◌, ◌↔◌, ◌==◌, ◌+◌, ◌^◌, ◌<◌, ◌≡◌, refl, false, none, some, List, [], ◌∷◌, arith, All, find_row,
  any_row, rows_where, sort_by,
}
use dodo_payments_backend.Base.Int.{ℤ, pos, ◌+ℤ◌, ◌*ℤ◌, quot, wrap64}
use dodo_payments_backend.Base.Result.{ok, err}
use dodo_payments_backend.Base.Text.{text, text_eq, trim_space, to_upper}
use dodo_payments_backend.Db.{Invoice, InvoiceItem, Db, empty_db, open_invoice}
use dodo_payments_backend.Db.Tx.{Session, settle, exec, query, finish, run_tx, next_id}
use dodo_payments_backend.Db.Queries.Resources.{
  new_invoice, create_invoice, create_invoice_item, get_customer_by_id,
}
use dodo_payments_backend.Db.Queries.Webhook.{list_active_webhook_endpoints}
use dodo_payments_backend.Http.{Env}
use dodo_payments_backend.Webhook.Outbox.{queue_deliveries, queue_each}
use dodo_payments_backend.Invoice.Types.{ItemInput, CreateInvoiceRequest}
use dodo_payments_backend.Invoice.Totals.{
  line_total, line_overflows, sum_items, total_overflow, line_overflow,
}
use dodo_payments_backend.Invoice.Totals.Exact.{IsBillable, cents, sum_items_iff}
use dodo_payments_backend.Invoice.Dates.{
  parse_date, is_date, is_layout, format_date, format_date-parse_date,
}
use dodo_payments_backend.Invoice.Responses.{to_item_responses, to_invoice_response}
use dodo_payments_backend.Invoice.Create.{
  check_request, initial_state, insert_items, create_body, respond_created, create_for,
  create_checked, handle_create_invoice,
}
use dodo_payments_backend.Invoice.Create.Accepted.{IsCreated, handle_create_invoice-IsCreated}
use dodo_payments_backend.Invoice.States.{handle_get_invoice, handle_void_invoice}
use dodo_payments_backend.Invoice.States.Void.{
  void_status, voids, handle_void_invoice_lem, not_found_lem,
}

abbrev env : Env
env = record {
  ids = λ n. 100 + n;
  fault = λ _. false;
  lost = λ _. false;
  now = 60;
  jsonb = λ s. s;
  marshal = λ _. text "{}";
  encode = λ prefix id. some (id ∷ []);
  decode = λ prefix s. some 2;
  sha256_hex = λ s. s;
}

abbrev shop : Db
shop = record empty_db {
  businesses = record { id = 1; name = text "A"; created_at = 50; updated_at = 50 } ∷ [];
  customers =
      record {
        id = 2;
        business_id = 1;
        name = text "B";
        email = text "b@c";
        created_at = 50;
        updated_at = 50;
      }
      ∷ [];
}

abbrev session : Db → Session
session db = record { db = db; drawn = 0; ticks = 0; aborted = false }

abbrev item : ℤ → ℤ → ItemInput
item q u = record { description = text " tea"; quantity = q; unit_amount_cents = u }

abbrev two_items : List ItemInput
two_items = item (pos 2) (pos 250) ∷ item (pos 1) (pos 0) ∷ []

two_items_run : sum_items 1 (pos 0) two_items ≡ ok (pos 500)
unfolding sum_items line_total line_overflows trim_space ◌+ℤ◌ ◌*ℤ◌ quot wrap64
two_items_run = refl

-- The product does not fit into an int64, or the sum does not.
line_overflow_run : sum_items 1 (pos 0) (item (pos 2) (pos (2 ^ 62)) ∷ []) ≡ err (line_overflow 1)
unfolding sum_items line_total line_overflows trim_space ◌+ℤ◌ ◌*ℤ◌ quot wrap64
line_overflow_run = refl

total_overflow_run :
    sum_items 1 (pos 0) (item (pos 1) (pos (2 ^ 62)) ∷ item (pos 1) (pos (2 ^ 62)) ∷ [])
    ≡ err total_overflow
unfolding sum_items line_total line_overflows trim_space ◌+ℤ◌ ◌*ℤ◌ quot wrap64
total_overflow_run = refl

sum_items_iff_example :
    (sum_items 1 (pos 0) two_items ≡ ok (pos 500))
    ↔ (All IsBillable two_items × (cents two_items < 2 ^ 63) × (pos 500 ≡ pos (cents two_items)))
sum_items_iff_example = sum_items_iff two_items (pos 500)

date_run : parse_date (text "2026-09-24") ≡ some 20260924
unfolding parse_date is_date is_layout
date_run = refl

format_date-parse_date_example : format_date 20260924 ≡ text "2026-09-24"
format_date-parse_date_example = format_date-parse_date (text "2026-09-24") date_run

abbrev request : CreateInvoiceRequest
request = record {
  customer_id = text "cus_x";
  currency = text "usd";
  due_date = text "2026-09-24";
  items = two_items;
  state = none;
}

created_run : (handle_create_invoice env 1 (some request) (session shop)).0.status ≡ 201
unfolding handle_create_invoice create_checked create_for respond_created create_body insert_items
    initial_state check_request to_upper trim_space text_eq parse_date is_date is_layout sum_items
    line_total line_overflows ◌+ℤ◌ ◌*ℤ◌ quot wrap64 query exec settle run_tx finish next_id
    get_customer_by_id create_invoice create_invoice_item queue_deliveries queue_each
    list_active_webhook_endpoints rows_where sort_by find_row any_row to_invoice_response
    to_item_responses
created_run = refl

handle_create_invoice-IsCreated_example :
    (inv : Invoice) × (rows : List InvoiceItem) × IsCreated env 1 shop
      (handle_create_invoice env 1 (some request) (session shop)).1.db
      request
      inv
      rows
handle_create_invoice-IsCreated_example =
    handle_create_invoice-IsCreated env 1 request (session shop) created_run

abbrev invoiced : Db
invoiced = record shop {
  invoices = new_invoice 50 2 1 2 (pos 500) (text "USD") open_invoice 20260924 ∷ [];
}

invoice_found :
    find_row (λ (v : Invoice). (v.id == 2) && (v.business_id == 1)) invoiced.invoices
    ≡ some (new_invoice 50 2 1 2 (pos 500) (text "USD") open_invoice 20260924)
unfolding find_row
invoice_found = refl

handle_void_invoice_lem_example :
    (let out = handle_void_invoice env 1 (text "inv_x") (session invoiced) in
      (out.0.status ≡ void_status open_invoice) × (out.1.db ≡ voids env 1 2 open_invoice invoiced))
handle_void_invoice_lem_example =
    handle_void_invoice_lem env 1 2 (text "inv_x")
      (new_invoice 50 2 1 2 (pos 500) (text "USD") open_invoice 20260924) (session invoiced)
      (ground arith) refl (λ n. (ground arith, ground arith, ground arith)) (λ n. refl)
      invoice_found

invoice_not_found :
    find_row (λ (v : Invoice). (v.id == 2) && (v.business_id == 9)) invoiced.invoices ≡ none
unfolding find_row
invoice_not_found = refl

not_found_lem_example :
    (let got = handle_get_invoice env 9 (text "inv_x") (session invoiced) in
      let out = handle_void_invoice env 9 (text "inv_x") (session invoiced) in
      (got.0.status ≡ 404) × (got.1.db ≡ invoiced) × (out.0.status ≡ 404) × (out.1.db ≡ invoiced))
not_found_lem_example =
    not_found_lem env 9 2 (text "inv_x") (session invoiced) (ground arith) refl refl
      invoice_not_found
