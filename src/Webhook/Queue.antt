-- ===== src/Webhook/Queue.antt =====
-- Deliveries under concurrency (internal/webhook/webhook.go): requests that queue them and any
-- number of workers, their claims and their attempts interleaved in any order, with crashes, faults
-- and leases that run out while an attempt is under way.
mod Rows
mod Kept
mod Safety
pub mod Lossless
pub mod Batch
pub mod Delivered
mod Tests
use dodo_payments_backend.Base.{
  ℕ, ◌≡◌, Bool, true, false, ◌||◌, ◌&&◌, List, [], ◌++◌, ◌∷◌, ◌==◌, if◌then◌else◌,
}
use dodo_payments_backend.Base.Result.{ok}
use dodo_payments_backend.Base.Text.{Text, to_decimal}
use dodo_payments_backend.Db.{RowId, Time, EventType, WebhookDelivery, Db, empty_db}
use dodo_payments_backend.Db.Tx.{Session}
use dodo_payments_backend.Db.Queries.Webhook.{
  ClaimedRow, create_webhook_delivery, claim_due_webhook_deliveries,
}
use dodo_payments_backend.Http.{Env}
use dodo_payments_backend.Webhook.Signature.{compute_signature}
use dodo_payments_backend.Webhook.Worker.{Sent, deliver_one}
use dodo_payments_backend.Webhook.Worker.Delivers.{is_success}

-- The tables, the rows that workers have claimed and not yet dealt with, and for which deliveries
-- an endpoint has answered with a status from 200 to 299.
pub record Queue : Type 0 where
  pub db : Db
  pub claimed : List ClaimedRow
  pub acked : RowId → Bool

abbrev pub start : Queue
start = record { db = empty_db; claimed = []; acked = λ _. false }

-- What the HTTP request of an attempt comes to.
abbrev pub sent_for :
    Env → (Text → Text → Text) → (Text → Text → Text → Text → Sent) → ClaimedRow → Sent
sent_for env hmac_sha256 send row =
    send row.endpoint_url row.delivery.payload (to_decimal env.now)
      (compute_signature hmac_sha256 row.endpoint_secret (to_decimal env.now) row.delivery.payload)

-- Each step may run under other ids, faults and times.
pub data Step : Queue → Queue → Type 0 where
  -- A transaction queues a delivery.
  queues :
      {q : Queue} (jsonb : Text → Text) (now : Time) (id ep i : RowId) (event : EventType)
      (payload : Text) (d : WebhookDelivery) (db' : Db)
      → create_webhook_delivery jsonb now id ep i event payload q.db ≡ ok (d, db')
      → Step q (record q { db = db' })
  -- A worker claims a batch.
  claims :
      {q : Queue} (locked : RowId → Bool) (now : Time) (limit : ℕ) (expiry : Time)
      (rows : List ClaimedRow) (db' : Db)
      → claim_due_webhook_deliveries locked now limit expiry q.db ≡ ok (rows, db')
      → Step q (record q { db = db'; claimed = q.claimed ++ rows })
  -- A worker makes an attempt for a row that it has claimed, and records it.
  delivers :
      {q : Queue} (env : Env) (hmac_sha256 : Text → Text → Text)
      (send : Text → Text → Text → Text → Sent) (before after : List ClaimedRow) (row : ClaimedRow)
      (s : Session)
      → q.claimed ≡ before ++ row ∷ after
      → s.db ≡ q.db
      → Step q (record {
        db = (deliver_one env hmac_sha256 send row s).db;
        claimed = before ++ after;
        acked = λ x.
            q.acked x || (x == row.delivery.id && is_success (sent_for env hmac_sha256 send row));
      })
  -- A worker ends before it deals with some of its rows.
  crashes :
      {q : Queue} (before lost after : List ClaimedRow)
      → q.claimed ≡ before ++ (lost ++ after)
      → Step q (record q { claimed = before ++ after })
  -- Anything that does not write deliveries.
  others :
      {q : Queue} (db' : Db)
      → db'.webhook_deliveries ≡ q.db.webhook_deliveries
      → Step q (record q { db = db' })

pub data Reach (from : Queue) : Queue → Type 0 where
  here : Reach from from
  next : {q q' : Queue} → Reach from q → Step q q' → Reach from q'
