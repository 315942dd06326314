-- ===== src/Webhook/Tests.antt =====
-- Runs of the webhook worker, and its theorems at a concrete delivery.
use dodo_payments_backend.Base.{
  ◌≡◌, refl, false, true, none, some, [], ◌∷◌, ◌++◌, ◌==◌, arith, All, find_row, any_row,
  update_rows, rows_where, sort_by, insert_by,
}
use mathlib.Core.List.{Memᴰ}
use dodo_payments_backend.Base.Result.{ok}
use dodo_payments_backend.Base.Text.{Text, text}
use dodo_payments_backend.Db.{WebhookDelivery, WebhookEndpoint, Db, empty_db, pending, invoice_paid}
use dodo_payments_backend.Db.Tx.{Session, settle, exec, query}
use dodo_payments_backend.Db.Queries.Webhook.{
  ClaimedRow, lease, claim_rows, due_deliveries, claim_due_webhook_deliveries,
}
use dodo_payments_backend.Http.{Env}
use dodo_payments_backend.Webhook.Worker.{
  Sent, answered, retry_delay, handle_failure, conclude, deliver_one, deliver_all, process_claimed,
  process_batch, new_worker,
}
use dodo_payments_backend.Webhook.Worker.Delivers.{recorded, deliver_one_lem}
use dodo_payments_backend.Webhook.Worker.Claims.{IsClaim, claim_due_webhook_deliveries_lem}

-- A digest for runs: the key before the data.
abbrev digest : Text → Text → Text
digest key message = key ++ message

abbrev env : Env
env = record {
  ids = λ n. n;
  fault = λ _. false;
  lost = λ _. false;
  now = 1000;
  jsonb = λ s. s;
  marshal = λ _. text "{}";
  encode = λ prefix id. some (id ∷ []);
  decode = λ prefix s. some 2;
  sha256_hex = λ s. s;
}

-- The receiver is broken.
abbrev send : Text → Text → Text → Text → Sent
send url payload timestamp signature = answered 503

abbrev delivery : WebhookDelivery
delivery = record {
  id = 8;
  webhook_endpoint_id = 3;
  invoice_id = 7;
  event_type = invoice_paid;
  payload = text "{}";
  status = pending;
  attempt_count = 1;
  next_attempt_at = 900;
  last_error = none;
  created_at = 800;
  delivered_at = none;
}

abbrev endpoint : WebhookEndpoint
endpoint = record {
  id = 3;
  business_id = 1;
  url = text "https://c";
  secret = text "s";
  is_active = true;
  created_at = 50;
  updated_at = 50;
}

abbrev queue : Db
queue = record empty_db { webhook_endpoints = endpoint ∷ []; webhook_deliveries = delivery ∷ [] }

abbrev session : Session
session = record { db = queue; drawn = 0; ticks = 0; aborted = false }

abbrev claimed_row : ClaimedRow
claimed_row = record {
  delivery = lease 1030 delivery;
  endpoint_url = text "https://c";
  endpoint_secret = text "s";
}

abbrev leased : Db
leased = record queue { webhook_deliveries = lease 1030 delivery ∷ [] }

claim_run :
    claim_due_webhook_deliveries (λ _. false) 1000 10 1030 queue ≡ ok (claimed_row ∷ [], leased)
unfolding claim_due_webhook_deliveries due_deliveries claim_rows rows_where sort_by insert_by
    any_row find_row
claim_run = refl

claim_due_webhook_deliveries_lem_example :
    All
      (λ r.
        (d : WebhookDelivery) × Memᴰ d queue.webhook_deliveries
        × IsClaim (λ _. false) 1000 1030 d r.delivery)
      (claimed_row ∷ [])
claim_due_webhook_deliveries_lem_example =
    claim_due_webhook_deliveries_lem (λ _. false) 1000 10 1030 queue (tt, tt) claim_run

-- A batch of one delivery whose second attempt fails: it waits five minutes.
batch_run : (process_batch env digest send (new_worker 0 0 0) (λ _. false) session).0 ≡ 1
unfolding process_batch process_claimed deliver_all deliver_one conclude handle_failure retry_delay
    new_worker query exec settle claim_due_webhook_deliveries due_deliveries claim_rows rows_where
    sort_by insert_by any_row find_row
batch_run = refl

deliver_one_lem_example :
    (deliver_one env digest send claimed_row (record session { db = leased })).db ≡ record leased {
      webhook_deliveries =
          update_rows (λ d. d.id == 8) (recorded 1000 2 (answered 503)) leased.webhook_deliveries;
    }
deliver_one_lem_example =
    deliver_one_lem env digest send claimed_row (record session { db = leased }) refl (ground arith)
