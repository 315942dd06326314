-- ===== src/Db/Queries/Webhook.antt =====
-- internal/db/generate/webhook.sql.go: the queries on webhook endpoints and deliveries.
use dodo_payments_backend.Base.{
  sort_by, ℕ, ◌+◌, Bool, true, false, ◌&&◌, not, none, some, List, [], ◌∷◌, ◌++◌, ◌==◌, leb,
  if◌then◌else◌, find_row, any_row, rows_where, take,
}
use mathlib.Core.List.{reverse}
use dodo_payments_backend.Base.Result.{ok, err}
use dodo_payments_backend.Base.Text.{Text}
use dodo_payments_backend.Db.Models.{
  Db, RowId, Time, EventType, DeliveryStatus, pending, claimed, delivered, exhausted,
  WebhookEndpoint, WebhookDelivery,
}
use dodo_payments_backend.Db.Tx.{unique_violation, foreign_key_violation, Query}
use dodo_payments_backend.Db.Queries.Payment.{one_row, update_one}

unfoldable pub create_webhook_endpoint : Time → RowId → RowId → Text → Text → Query WebhookEndpoint
create_webhook_endpoint now id business_id url secret db =
    let row : WebhookEndpoint = record {
      id = id;
      business_id = business_id;
      url = url;
      secret = secret;
      is_active = true;
      created_at = now;
      updated_at = now;
    } in
    if any_row (λ e. e.id == id) db.webhook_endpoints
    then err unique_violation
    else if any_row (λ b. b.id == business_id) db.businesses
    then ok (row, record db { webhook_endpoints = db.webhook_endpoints ++ row ∷ [] })
    else err foreign_key_violation

unfoldable pub get_webhook_endpoint_by_id : RowId → RowId → Query WebhookEndpoint
get_webhook_endpoint_by_id id business_id db =
    one_row (find_row (λ e. e.id == id && e.business_id == business_id) db.webhook_endpoints) db

-- ORDER BY created_at DESC.
unfoldable pub list_webhook_endpoints_by_business_id : RowId → Query (List WebhookEndpoint)
list_webhook_endpoints_by_business_id business_id db = ok (
  reverse (
      sort_by (λ e. e.created_at)
        (rows_where (λ e. e.business_id == business_id) db.webhook_endpoints)),
  db,
)

abbrev pub is_target : RowId → WebhookEndpoint → Bool
is_target business_id e = e.business_id == business_id && e.is_active

-- ORDER BY id ASC.
abbrev pub active_endpoints : RowId → Db → List WebhookEndpoint
active_endpoints business_id db =
    sort_by (λ e. e.id) (rows_where (is_target business_id) db.webhook_endpoints)

unfoldable pub list_active_webhook_endpoints : RowId → Query (List WebhookEndpoint)
list_active_webhook_endpoints business_id db = ok (active_endpoints business_id db, db)

-- PENDING, no attempts, due at once.
abbrev pub new_delivery :
    (Text → Text) → Time → RowId → RowId → RowId → EventType → Text → WebhookDelivery
new_delivery jsonb now id endpoint_id invoice_id event payload = record {
  id = id;
  webhook_endpoint_id = endpoint_id;
  invoice_id = invoice_id;
  event_type = event;
  payload = jsonb payload;
  status = pending;
  attempt_count = 0;
  next_attempt_at = now;
  last_error = none;
  created_at = now;
  delivered_at = none;
}

unfoldable pub create_webhook_delivery :
    (Text → Text) → Time → RowId → RowId → RowId → EventType → Text → Query WebhookDelivery
create_webhook_delivery jsonb now id endpoint_id invoice_id event payload db =
    let row = new_delivery jsonb now id endpoint_id invoice_id event payload in
    if any_row (λ d. d.id == id) db.webhook_deliveries
    then err unique_violation
    else if any_row (λ e. e.id == endpoint_id) db.webhook_endpoints
        && any_row (λ v. v.id == invoice_id) db.invoices
    then ok (row, record db { webhook_deliveries = db.webhook_deliveries ++ row ∷ [] })
    else err foreign_key_violation

-- `(PENDING OR PROCESSING) AND next_attempt_at <= NOW()`.
abbrev pub is_waiting : DeliveryStatus → Bool
is_waiting pending = true
is_waiting claimed = true
is_waiting _ = false

abbrev pub is_due : Time → WebhookDelivery → Bool
is_due now d = is_waiting d.status && leb d.next_attempt_at now

-- A row that the claim returns: the delivery as updated, with its endpoint's URL and secret.
pub record ClaimedRow : Type 0 where
  pub delivery : WebhookDelivery
  pub endpoint_url : Text
  pub endpoint_secret : Text

abbrev pub lease : Time → WebhookDelivery → WebhookDelivery
lease expiry d = record d {
  status = claimed;
  next_attempt_at = expiry;
  attempt_count = d.attempt_count + 1;
}

-- The join with the endpoints and the update, row by row.
unfoldable pub claim_rows :
    (WebhookDelivery → Bool)
    → Time
    → List WebhookEndpoint
    → List WebhookDelivery
    → List ClaimedRow × List WebhookDelivery
claim_rows chosen expiry endpoints [] = ([], [])
claim_rows chosen expiry endpoints (d ∷ ds) =
    let (rows, table) = claim_rows chosen expiry endpoints ds in
    if chosen d
    then elim (find_row (λ (e : WebhookEndpoint). e.id == d.webhook_endpoint_id) endpoints) [
      | none ↦ (rows, d ∷ table)
      | some e ↦ (
        record { delivery = lease expiry d; endpoint_url = e.url; endpoint_secret = e.secret }
            ∷ rows,
        lease expiry d ∷ table,
      )
    ]
    else (rows, d ∷ table)

-- FOR UPDATE SKIP LOCKED: rows that another transaction holds (`locked`) are passed over.
unfoldable pub due_deliveries :
    (RowId → Bool) → Time → ℕ → List WebhookDelivery → List WebhookDelivery
due_deliveries locked now limit ds =
    take limit
      (sort_by (λ d. d.next_attempt_at) (rows_where (λ d. is_due now d && not (locked d.id)) ds))

unfoldable pub claim_due_webhook_deliveries :
    (RowId → Bool) → Time → ℕ → Time → Query (List ClaimedRow)
claim_due_webhook_deliveries locked now limit expiry db =
    let due = due_deliveries locked now limit db.webhook_deliveries in
    let (rows, table) =
      claim_rows (λ d. any_row (λ x. x.id == d.id) due) expiry db.webhook_endpoints
        db.webhook_deliveries in
    ok (rows, record db { webhook_deliveries = table })

abbrev pub update_delivery : RowId → (WebhookDelivery → WebhookDelivery) → Query WebhookDelivery
update_delivery id f db =
    update_one (λ d. d.id == id) f db.webhook_deliveries
      (λ rows. record db { webhook_deliveries = rows })

unfoldable pub mark_webhook_delivery_delivered : Time → RowId → Query WebhookDelivery
mark_webhook_delivery_delivered now id =
    update_delivery id
      (λ d. record d { status = delivered; delivered_at = some now; last_error = none })

unfoldable pub mark_webhook_delivery_retry : RowId → Time → Text → Query WebhookDelivery
mark_webhook_delivery_retry id next_attempt_at last_error = update_delivery id (λ d. record d {
  status = pending;
  next_attempt_at = next_attempt_at;
  last_error = some last_error;
})

unfoldable pub mark_webhook_delivery_exhausted : RowId → Text → Query WebhookDelivery
mark_webhook_delivery_exhausted id last_error =
    update_delivery id (λ d. record d { status = exhausted; last_error = some last_error })
