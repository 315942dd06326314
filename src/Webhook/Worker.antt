-- ===== src/Webhook/Worker.antt =====
-- The delivery worker of internal/webhook/webhook.go.
pub mod Delivers
pub mod Claims
use dodo_payments_backend.Base.{
  ℕ, ◌+◌, ◌-◌, ◌*◌, ◌||◌, Bool, List, [], ◌∷◌, ◌++◌, ltb, leb, length, get_or, if◌then◌else◌,
}
use dodo_payments_backend.Base.Result.{Result, ok, err}
use dodo_payments_backend.Base.Text.{Text, text, to_decimal}
use dodo_payments_backend.Db.{RowId}
use dodo_payments_backend.Db.Tx.{Error, Session, query}
use dodo_payments_backend.Db.Queries.Webhook.{
  ClaimedRow, claim_due_webhook_deliveries, mark_webhook_delivery_delivered,
  mark_webhook_delivery_retry, mark_webhook_delivery_exhausted,
}
use dodo_payments_backend.Http.{Env}
use dodo_payments_backend.Webhook.Signature.{compute_signature}

-- In seconds: 1 minute, 5 minutes, 30 minutes, 2 hours, 12 hours.
abbrev pub retry_intervals : List ℕ
retry_intervals = 60 ∷ (5 * 60) ∷ (30 * 60) ∷ (2 * 3600) ∷ (12 * 3600) ∷ []

-- The delay after a failed attempt, its index cut to the bounds of the list.
unfoldable pub retry_delay : ℕ → ℕ
retry_delay attempt_count =
    let index = attempt_count - 1 in
    let bounded =
      if leb (length retry_intervals) index then length retry_intervals - 1 else index in
    get_or retry_intervals bounded 0

-- What comes of the HTTP request: it cannot be made, it fails, or it is answered with a status.
pub data Sent : Type 0 where
  not_created : Text → Sent
  transport_error : Text → Sent
  answered : ℕ → Sent

-- The configuration of a worker, in seconds. `NewWorker` puts defaults for what is not positive (0
-- stands for every such value).
pub record Worker : Type 0 where
  pub poll_interval : ℕ
  pub lease_duration : ℕ
  pub batch_size : ℕ

unfoldable pub new_worker : ℕ → ℕ → ℕ → Worker
new_worker poll_interval lease_duration batch_size = record {
  poll_interval = if leb poll_interval 0 then 1 else poll_interval;
  lease_duration = if leb lease_duration 0 then 30 else lease_duration;
  batch_size = if leb batch_size 0 then 10 else batch_size;
}

-- `send url payload timestamp signature` is the client; `locked` has the rows that other workers
-- hold.
module _ (env : Env) (hmac_sha256 : Text → Text → Text)
    (send : Text → Text → Text → Text → Sent) where
  -- Errors of the database are logged and dropped.
  unfoldable pub handle_failure : ClaimedRow → Text → Session → Session
  handle_failure row message s =
      if leb 6 row.delivery.attempt_count
      then (query env.fault (mark_webhook_delivery_exhausted row.delivery.id message) s).1
      else (query env.fault
          (mark_webhook_delivery_retry row.delivery.id
            (env.now + retry_delay row.delivery.attempt_count) message)
          s).1

  unfoldable pub conclude : ClaimedRow → Sent → Session → Session
  conclude row (not_created e) s =
      handle_failure row (text "failed to create HTTP request: " ++ e) s
  conclude row (transport_error e) s = handle_failure row (text "transport error: " ++ e) s
  conclude row (answered status) s =
      if ltb status 200 || leb 300 status
      then handle_failure row (text "HTTP status " ++ to_decimal status) s
      else (query env.fault (mark_webhook_delivery_delivered env.now row.delivery.id) s).1

  unfoldable pub deliver_one : ClaimedRow → Session → Session
  deliver_one row s =
      let timestamp = to_decimal env.now in
      let signature =
        compute_signature hmac_sha256 row.endpoint_secret timestamp row.delivery.payload in
      conclude row (send row.endpoint_url row.delivery.payload timestamp signature) s

  unfoldable pub deliver_all : List ClaimedRow → Session → Session
  deliver_all [] s = s
  deliver_all (row ∷ rows) s = deliver_all rows (deliver_one row s)

  unfoldable pub process_claimed : Result Error (List ClaimedRow) × Session → ℕ × Session
  process_claimed (err e, s) = (0, s)
  process_claimed (ok rows, s) = (length rows, deliver_all rows s)

  -- One batch, and the number of deliveries in it.
  unfoldable pub process_batch : Worker → (RowId → Bool) → Session → ℕ × Session
  process_batch worker locked s = process_claimed (
      query env.fault
        (claim_due_webhook_deliveries locked env.now worker.batch_size
          (env.now + worker.lease_duration))
        s)
