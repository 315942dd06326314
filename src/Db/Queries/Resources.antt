-- ===== src/Db/Queries/Resources.antt =====
-- internal/db/generate/queries.sql.go: businesses, API keys, customers, invoices and their items.
use dodo_payments_backend.Base.{
  ltb, sort_by, Bool, not, ◌&&◌, ◌||◌, none, List, [], ◌∷◌, ◌++◌, ◌==◌, if◌then◌else◌, find_row,
  any_row, rows_where,
}
use mathlib.Core.List.{reverse}
use dodo_payments_backend.Base.Int.{ℤ, pos, leb_ℤ, ltb_ℤ}
use dodo_payments_backend.Base.Result.{ok, err}
use dodo_payments_backend.Base.Text.{Text, text, text_eq, char_count}
use dodo_payments_backend.Db.Models.{
  RowId, Time, InvoiceState, Business, ApiKey, Customer, Invoice, InvoiceItem,
}
use dodo_payments_backend.Db.Tx.{
  failure, unique_violation, foreign_key_violation, check_violation, Query,
}
use dodo_payments_backend.Db.Queries.Payment.{one_row, update_one}

-- The name is a VARCHAR(255).
unfoldable pub create_business : Time → RowId → Text → Query Business
create_business now id name db =
    let row : Business = record { id = id; name = name; created_at = now; updated_at = now } in
    if ltb 255 (char_count name)
    then err failure
    else if any_row (λ b. b.id == id) db.businesses
    then err unique_violation
    else ok (row, record db { businesses = db.businesses ++ row ∷ [] })

unfoldable pub get_business_by_id : RowId → Query Business
get_business_by_id id db = one_row (find_row (λ b. b.id == id) db.businesses) db

unfoldable pub get_business_by_name : Text → Query Business
get_business_by_name name db = one_row (find_row (λ b. text_eq b.name name) db.businesses) db

-- The prefix is a VARCHAR(32), the hash a VARCHAR(64).
unfoldable pub create_api_key : Time → RowId → RowId → Text → Text → Query ApiKey
create_api_key now id business_id key_prefix secret_hash db =
    let row : ApiKey = record {
      id = id;
      business_id = business_id;
      key_prefix = key_prefix;
      secret_hash = secret_hash;
      created_at = now;
      revoked_at = none;
    } in
    if ltb 32 (char_count key_prefix) || ltb 64 (char_count secret_hash)
    then err failure
    else if any_row (λ k. k.id == id || text_eq k.key_prefix key_prefix) db.api_keys
    then err unique_violation
    else if any_row (λ b. b.id == business_id) db.businesses
    then ok (row, record db { api_keys = db.api_keys ++ row ∷ [] })
    else err foreign_key_violation

unfoldable pub get_api_key_by_prefix : Text → Query ApiKey
get_api_key_by_prefix key_prefix db =
    one_row (find_row (λ k. text_eq k.key_prefix key_prefix) db.api_keys) db

-- ORDER BY created_at DESC.
unfoldable pub list_api_keys_by_business_id : RowId → Query (List ApiKey)
list_api_keys_by_business_id business_id db = ok (
  reverse
      (sort_by (λ k. k.created_at) (rows_where (λ k. k.business_id == business_id) db.api_keys)),
  db,
)

unfoldable pub create_customer : Time → RowId → RowId → Text → Text → Query Customer
create_customer now id business_id name email db =
    let row : Customer = record {
      id = id;
      business_id = business_id;
      name = name;
      email = email;
      created_at = now;
      updated_at = now;
    } in
    if any_row (λ c. c.id == id) db.customers
    then err unique_violation
    else if any_row (λ b. b.id == business_id) db.businesses
    then ok (row, record db { customers = db.customers ++ row ∷ [] })
    else err foreign_key_violation

abbrev pub customer_is : RowId → RowId → Customer → Bool
customer_is id business_id c = c.id == id && c.business_id == business_id

unfoldable pub get_customer_by_id : RowId → RowId → Query Customer
get_customer_by_id id business_id db =
    one_row (find_row (customer_is id business_id) db.customers) db

-- ORDER BY created_at DESC.
unfoldable pub list_customers_by_business_id : RowId → Query (List Customer)
list_customers_by_business_id business_id db = ok (
  reverse
      (sort_by (λ c. c.created_at) (rows_where (λ c. c.business_id == business_id) db.customers)),
  db,
)

abbrev pub new_invoice : Time → RowId → RowId → RowId → ℤ → Text → InvoiceState → Time → Invoice
new_invoice now id business_id customer_id total currency state due_date = record {
  id = id;
  business_id = business_id;
  customer_id = customer_id;
  total_amount_cents = total;
  currency = currency;
  state = state;
  due_date = due_date;
  created_at = now;
  updated_at = now;
}

-- The primary key, the checks on the total and the currency, and the reference to a customer of
-- the same business.
unfoldable pub create_invoice :
    Time → RowId → RowId → RowId → ℤ → Text → InvoiceState → Time → Query Invoice
create_invoice now id business_id customer_id total currency state due_date db =
    let row = new_invoice now id business_id customer_id total currency state due_date in
    if ltb_ℤ total (pos 0) || not (text_eq currency (text "USD"))
    then err check_violation
    else if any_row (λ v. v.id == id) db.invoices
    then err unique_violation
    else if any_row (customer_is customer_id business_id) db.customers
    then ok (row, record db { invoices = db.invoices ++ row ∷ [] })
    else err foreign_key_violation

unfoldable pub get_invoice_by_id : RowId → RowId → Query Invoice
get_invoice_by_id id business_id db =
    one_row (find_row (λ v. v.id == id && v.business_id == business_id) db.invoices) db

unfoldable pub list_invoices_by_business_id : RowId → Query (List Invoice)
list_invoices_by_business_id business_id db = ok (
  reverse
      (sort_by (λ v. v.created_at) (rows_where (λ v. v.business_id == business_id) db.invoices)),
  db,
)

-- The state is overwritten whatever it was.
unfoldable pub update_invoice_state : Time → RowId → RowId → InvoiceState → Query Invoice
update_invoice_state now id business_id state db =
    update_one (λ v. v.id == id && v.business_id == business_id)
      (λ v. record v { state = state; updated_at = now }) db.invoices
      (λ rows. record db { invoices = rows })

abbrev pub new_invoice_item : Time → RowId → RowId → Text → ℤ → ℤ → InvoiceItem
new_invoice_item now id invoice_id description quantity unit_amount_cents = record {
  id = id;
  invoice_id = invoice_id;
  description = description;
  quantity = quantity;
  unit_amount_cents = unit_amount_cents;
  created_at = now;
}

unfoldable pub create_invoice_item : Time → RowId → RowId → Text → ℤ → ℤ → Query InvoiceItem
create_invoice_item now id invoice_id description quantity unit_amount_cents db =
    let row = new_invoice_item now id invoice_id description quantity unit_amount_cents in
    if leb_ℤ quantity (pos 0) || ltb_ℤ unit_amount_cents (pos 0)
    then err check_violation
    else if any_row (λ i. i.id == id) db.invoice_items
    then err unique_violation
    else if any_row (λ v. v.id == invoice_id) db.invoices
    then ok (row, record db { invoice_items = db.invoice_items ++ row ∷ [] })
    else err foreign_key_violation

-- ORDER BY id ASC.
unfoldable pub list_invoice_items_by_invoice_id : RowId → Query (List InvoiceItem)
list_invoice_items_by_invoice_id invoice_id db =
    ok (sort_by (λ i. i.id) (rows_where (λ i. i.invoice_id == invoice_id) db.invoice_items), db)

unfoldable pub list_invoice_items_by_invoice_ids : List RowId → Query (List InvoiceItem)
list_invoice_items_by_invoice_ids ids db = ok (
  sort_by (λ i. i.id) (rows_where (λ i. any_row (λ id. id == i.invoice_id) ids) db.invoice_items),
  db,
)
