-- ===== src/Webhook/Endpoints/Tests.antt =====
-- The theorems on webhook endpoints at a concrete request.
use dodo_payments_backend.Base.{
  true, ℕ, ◌+◌, ◌==◌, ◌≡◌, refl, false, Option, none, some, List, [], ◌∷◌, ◌++◌, arith, any_row,
  rows_where, sort_by, insert_by,
}
use mathlib.Core.List.{Memᴰ}
use dodo_payments_backend.Base.Int.{pos}
use dodo_payments_backend.Base.Result.{ok}
use dodo_payments_backend.Base.Text.{Text, text, text_eq, trim_space, is_empty}
use dodo_payments_backend.Base.Hex.{hex_encode}
use dodo_payments_backend.Base.Clock.{format_rfc3339}
use dodo_payments_backend.Db.{WebhookEndpoint, empty_db, paid, invoice_paid}
use dodo_payments_backend.Db.Tx.{Session, query, exec, settle, next_id}
use dodo_payments_backend.Db.Queries.Webhook.{
  create_webhook_endpoint, list_active_webhook_endpoints, create_webhook_delivery, new_delivery,
}
use dodo_payments_backend.Db.Queries.Resources.{new_invoice}
use dodo_payments_backend.Http.{Env}
use dodo_payments_backend.Webhook.Outbox.{queue_deliveries, queue_each}
use dodo_payments_backend.Webhook.Endpoints.{
  WebhookEndpointResponse, generate_secret, is_https, endpoint_response, to_endpoint_response,
  respond_created, create_with, create_checked, handle_create_endpoint, handle_get_endpoint,
}
use dodo_payments_backend.Webhook.Endpoints.RoundTrip.{
  entered, created, found, handle_create_endpoint_lem, get_endpoint-create_endpoint,
}
use dodo_payments_backend.Webhook.Endpoints.Hears.{queue_deliveries-create_endpoint}

-- A codec that shows an id as a text of one byte.
abbrev decode_one : List ℕ → Option ℕ
decode_one (id ∷ []) = some id
decode_one _ = none

abbrev env : Env
env = record {
  ids = λ n. 100 + n;
  fault = λ _. false;
  lost = λ _. false;
  now = 1767225600;
  jsonb = λ s. s;
  marshal = λ _. [];
  encode = λ prefix id. some (id ∷ []);
  decode = λ prefix s. decode_one s;
  sha256_hex = λ s. s;
}

abbrev parse : Text → Option (Text × Text)
parse s = some (text "https", text "a.example")

abbrev session : Session
session = record {
  db = record empty_db {
    businesses = record { id = 1; name = text "A"; created_at = 50; updated_at = 50 } ∷ [];
    invoices = new_invoice 50 2 1 2 (pos 500) (text "USD") paid 20260924 ∷ [];
  };
  drawn = 0;
  ticks = 0;
  aborted = false;
}

abbrev url : Text
url = text "https://a.example "

abbrev response : WebhookEndpointResponse
response = record {
  id = 100 ∷ [];
  url = text "https://a.example";
  secret = text "whsec_0fa0";
  is_active = true;
  created_at = text "2026-01-01T00:00:00Z";
  updated_at = text "2026-01-01T00:00:00Z";
}

abbrev endpoint : WebhookEndpoint
endpoint = entered env parse 1 url (15 ∷ 160 ∷ []) session

abbrev after : Session
after = record session {
  db = record session.db { webhook_endpoints = endpoint ∷ [] };
  drawn = 1;
  ticks = 1;
}

created_run :
    handle_create_endpoint env parse 1 (some url) (some (15 ∷ 160 ∷ [])) session
    ≡ (created response, after)
unfolding handle_create_endpoint create_checked create_with generate_secret hex_encode is_https
    respond_created text_eq trim_space query exec settle create_webhook_endpoint any_row
    to_endpoint_response format_rfc3339
created_run = refl

handle_create_endpoint_lem_example :
    (is_empty (trim_space url) ≡ false)
    × ((host : Text) × (parse (trim_space url) ≡ some (text "https", host))
        × (is_empty host ≡ false))
    × (any_row (λ (x : WebhookEndpoint). x.id == 100) [] ≡ false)
    × (after.db ≡ record session.db { webhook_endpoints = [] ++ endpoint ∷ [] })
    × (env.encode (text "whe") 100 ≡ some response.id)
    × (response ≡ endpoint_response endpoint response.id)
handle_create_endpoint_lem_example =
    handle_create_endpoint_lem env parse 1 url (15 ∷ 160 ∷ []) session created_run

get_endpoint-create_endpoint_example :
    (handle_get_endpoint env parse 1 (100 ∷ []) after).0 ≡ found response
get_endpoint-create_endpoint_example =
    get_endpoint-create_endpoint env parse 1 url (15 ∷ 160 ∷ []) session after 1
      (λ id shown h. ground arith) created_run refl refl

queued_run : queue_deliveries env 2 invoice_paid (text "{}") 1 after ≡ (
  ok tt,
  record after {
    db = record after.db {
      webhook_deliveries = new_delivery env.jsonb env.now 101 100 2 invoice_paid (text "{}") ∷ [];
    };
    drawn = 2;
    ticks = 3;
  },
)
unfolding queue_deliveries queue_each exec settle next_id list_active_webhook_endpoints rows_where
    sort_by insert_by create_webhook_delivery any_row
queued_run = refl

queue_deliveries-create_endpoint_example :
    (n : ℕ) × Memᴰ
      (new_delivery env.jsonb env.now (env.ids n) 100 2 invoice_paid (text "{}"))
      (new_delivery env.jsonb env.now 101 100 2 invoice_paid (text "{}") ∷ [])
queue_deliveries-create_endpoint_example =
    queue_deliveries-create_endpoint env 2 invoice_paid (text "{}") env parse 1 url (15 ∷ 160 ∷ [])
      session after created_run refl queued_run
