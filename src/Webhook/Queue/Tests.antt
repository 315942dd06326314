-- ===== src/Webhook/Queue/Tests.antt =====
-- A delivery that is queued, claimed and delivered, and the theorem at that run.
use dodo_payments_backend.Base.{
  arith, some, ◌+◌, length, ◌≤◌, ◌≡◌, ◌⊎◌, refl, true, false, ◌||◌, ◌&&◌, ◌==◌, none, [], ◌∷◌, ◌++◌,
  find_row, any_row, rows_where, sort_by, insert_by,
}
use mathlib.Core.List.{Memᴰ}
use dodo_payments_backend.Base.Int.{pos}
use dodo_payments_backend.Base.Result.{ok}
use dodo_payments_backend.Base.Text.{Text, text}
use dodo_payments_backend.Db.{
  WebhookDelivery, WebhookEndpoint, Db, empty_db, invoice_paid, paid, delivered, exhausted,
}
use dodo_payments_backend.Db.Tx.{Session}
use dodo_payments_backend.Db.Queries.Resources.{new_invoice}
use dodo_payments_backend.Db.Queries.Webhook.{
  ClaimedRow, lease, new_delivery, create_webhook_delivery, claim_rows, due_deliveries,
  claim_due_webhook_deliveries,
}
use dodo_payments_backend.Http.{Env}
use dodo_payments_backend.Webhook.Worker.{Sent, Worker, answered, deliver_one, process_batch}
use dodo_payments_backend.Webhook.Worker.Delivers.{is_success}
use dodo_payments_backend.Webhook.Queue.{
  Queue, start, sent_for, queues, claims, delivers, others, Reach, here, next,
}
use dodo_payments_backend.Webhook.Queue.Delivered.{is_free, process_batch-delivers}
use dodo_payments_backend.Webhook.Queue.Lossless.{IsClaimable, IsSameDelivery, delivery_kept}

abbrev env : Env
env = record {
  ids = λ n. n;
  fault = λ _. false;
  lost = λ _. false;
  now = 1001;
  jsonb = λ s. s;
  marshal = λ _. [];
  encode = λ prefix id. none;
  decode = λ prefix s. none;
  sha256_hex = λ s. s;
}

abbrev endpoint : WebhookEndpoint
endpoint = record {
  id = 3;
  business_id = 1;
  url = text "https://c";
  secret = text "s";
  is_active = true;
  created_at = 50;
  updated_at = 50;
}

abbrev shop : Db
shop = record empty_db {
  invoices = new_invoice 50 2 1 2 (pos 500) (text "USD") paid 20260924 ∷ [];
  webhook_endpoints = endpoint ∷ [];
}

abbrev delivery : WebhookDelivery
delivery = new_delivery (λ s. s) 1000 8 3 2 invoice_paid (text "{}")

abbrev with_delivery : WebhookDelivery → Db
with_delivery d = record shop { webhook_deliveries = d ∷ [] }

abbrev row : ClaimedRow
row = record {
  delivery = lease 1030 delivery;
  endpoint_url = text "https://c";
  endpoint_secret = text "s";
}

abbrev queued : Queue
queued = record start { db = with_delivery delivery }

abbrev leased : Queue
leased = record queued { db = with_delivery (lease 1030 delivery); claimed = row ∷ [] }

queued_run :
    create_webhook_delivery (λ s. s) 1000 8 3 2 invoice_paid (text "{}") shop
    ≡ ok (delivery, with_delivery delivery)
unfolding create_webhook_delivery any_row
queued_run = refl

leased_run :
    claim_due_webhook_deliveries (λ _. false) 1000 10 1030 (with_delivery delivery)
    ≡ ok (row ∷ [], with_delivery (lease 1030 delivery))
unfolding claim_due_webhook_deliveries due_deliveries claim_rows rows_where sort_by insert_by
    any_row find_row
leased_run = refl

queued-Reach : Reach start queued
queued-Reach = next (next here (others shop refl)) (
    queues (λ s. s) 1000 8 3 2 invoice_paid (text "{}") delivery (with_delivery delivery)
      queued_run)

abbrev digest : Text → Text → Text
digest key message = key ++ message

abbrev send : Text → Text → Text → Text → Sent
send url payload timestamp signature = answered 204

abbrev session : Session
session = record { db = leased.db; drawn = 0; ticks = 0; aborted = false }

abbrev told : Queue
told = record {
  db = (deliver_one env digest send row session).db;
  claimed = [];
  acked = λ x. leased.acked x || (x == 8 && is_success (sent_for env digest send row));
}

leased-Reach : Reach queued leased
leased-Reach =
    next here
      (claims (λ _. false) 1000 10 1030 (row ∷ []) (with_delivery (lease 1030 delivery)) leased_run)

told-Reach : Reach queued told
told-Reach = next leased-Reach (delivers env digest send [] [] row session refl refl)

has_endpoint : find_row (λ (x : WebhookEndpoint). x.id == 3) (endpoint ∷ []) ≡ some endpoint
unfolding find_row
has_endpoint = refl

delivery_kept_example :
    (d' : WebhookDelivery) × Memᴰ d' leased.db.webhook_deliveries
    × IsSameDelivery delivery d'
    × (IsClaimable (λ _. false) 2000 10 2030 leased.db d' endpoint
        ⊎ ((d'.status ≡ delivered) × (leased.acked d'.id ≡ true))
        ⊎ ((d'.status ≡ exhausted) × (6 ≤ d'.attempt_count)))
delivery_kept_example =
    delivery_kept (λ _. false) 2000 10 2030 queued-Reach leased-Reach delivery (Memᴰ.head refl)
      (ground arith, tt) refl (ground arith) has_endpoint

abbrev worker : Worker
worker = record { poll_interval = 1; lease_duration = 30; batch_size = 10 }

abbrev waiting : Session
waiting = record session { db = with_delivery delivery }

room : length (rows_where (is_free (λ _. false) 1001) (delivery ∷ [])) ≤ 10
unfolding rows_where
room = omega arith

process_batch-delivers_example :
    (d' : WebhookDelivery) × Memᴰ d'
      (process_batch env digest send worker (λ _. false) waiting).1.db.webhook_deliveries
    × (d'.id ≡ 8)
    × (d'.status ≡ delivered)
    × (d'.attempt_count ≡ 0 + 1)
process_batch-delivers_example =
    process_batch-delivers env digest send worker (λ _. false) waiting delivery (λ n. refl) (tt, tt)
      (Memᴰ.head refl) refl room has_endpoint refl
