-- ===== src/Webhook/Worker/Delivers.antt =====
-- What one delivery leaves in the table (`deliverOne` and `handleFailure` of
-- internal/webhook/webhook.go).
use dodo_payments_backend.Base.{
  inr, inl, Bool-cases, ℕ, ◌+◌, ◌≤◌, ◌≡◌, refl, Bool, true, false, ◌&&◌, ◌||◌, Option, none, some,
  ◌++◌, ◌==◌, arith, update_rows, ltb, leb, if◌then◌else◌,
}
use dodo_payments_backend.Base.Rows.{update_rows-none}
use dodo_payments_backend.Base.Text.{to_decimal, Text, text}
use dodo_payments_backend.Db.{Time, WebhookDelivery, Db, pending, delivered, exhausted}
use dodo_payments_backend.Db.Tx.{Query, Session, settle, exec, query}
use dodo_payments_backend.Db.Queries.Webhook.{
  update_delivery, ClaimedRow, mark_webhook_delivery_delivered, mark_webhook_delivery_retry,
  mark_webhook_delivery_exhausted,
}
use dodo_payments_backend.Http.{Env}
use dodo_payments_backend.Webhook.Worker.{
  compute_signature, deliver_one, Sent, not_created, transport_error, answered, retry_delay,
  handle_failure, conclude,
}

-- The documented schedule: the delay after each failed attempt, and none after the sixth.
abbrev pub schedule : ℕ → Option ℕ
schedule n =
    if n == 1
    then some 60
    else if n == 2
    then some 300
    else if n == 3
    then some 1800
    else if n == 4
    then some 7200
    else if n == 5
    then some 43200
    else none

abbrev pub is_success : Sent → Bool
is_success (answered status) = leb 200 status && ltb status 300
is_success _ = false

abbrev pub message_of : Sent → Text
message_of (not_created e) = text "failed to create HTTP request: " ++ e
message_of (transport_error e) = text "transport error: " ++ e
message_of (answered status) = text "HTTP status " ++ to_decimal status

abbrev failed : Time → Option ℕ → Text → WebhookDelivery → WebhookDelivery
failed now none message d = record d { status = exhausted; last_error = some message }
failed now (some delay) message d = record d {
  status = pending;
  next_attempt_at = now + delay;
  last_error = some message;
}

-- A delivery after an attempt, the one of the given number.
abbrev pub recorded : Time → ℕ → Sent → WebhookDelivery → WebhookDelivery
recorded now attempt sent =
    if is_success sent
    then (λ d. record d { status = delivered; delivered_at = some now; last_error = none })
    else failed now (schedule attempt) (message_of sent)

retry_delay_lem : (n : ℕ) → 1 ≤ n → n ≤ 5 → schedule n ≡ some (retry_delay n)
unfolding retry_delay
retry_delay_lem n h k = ground arith

schedule_end : (n : ℕ) → 6 ≤ n → schedule n ≡ none
schedule_end n h = ground arith

module _ (env : Env) (hmac_sha256 : Text → Text → Text) (send : Text → Text → Text → Text → Sent)
    (row : ClaimedRow) (s : Session) (calm : env.fault s.ticks ≡ false) where
  abbrev of_row : WebhookDelivery → Bool
  of_row d = d.id == row.delivery.id

  -- A statement that updates the row, or finds none.
  update_lem :
      (q : Query WebhookDelivery) (f : WebhookDelivery → WebhookDelivery)
      → ((db : Db) → q db ≡ update_delivery row.delivery.id f db)
      → (query env.fault q s).1.db
        ≡ record s.db { webhook_deliveries = update_rows of_row f s.db.webhook_deliveries }
  unfolding query exec settle
  update_lem q f same =
      ground (arith, calm, same s.db, update_rows-none of_row f s.db.webhook_deliveries)

  failure_lem :
      (message : Text)
      → 1 ≤ row.delivery.attempt_count
      → (handle_failure env hmac_sha256 send row message s).db ≡ record s.db {
        webhook_deliveries =
            update_rows of_row
              (failed env.now (schedule row.delivery.attempt_count) message)
              s.db.webhook_deliveries;
      }
  unfolding handle_failure mark_webhook_delivery_exhausted mark_webhook_delivery_retry
  failure_lem message h = elim (Bool-cases (leb 6 row.delivery.attempt_count)) [
    | inl e ↦
        rw (e, schedule_end row.delivery.attempt_count (ground arith))
          (update_lem (mark_webhook_delivery_exhausted row.delivery.id message) _ (λ db. refl))
    | inr e ↦
        rw (e, retry_delay_lem row.delivery.attempt_count h (ground arith))
          (update_lem
            (mark_webhook_delivery_retry row.delivery.id
              (env.now + retry_delay row.delivery.attempt_count) message)
            _ (λ db. refl))
  ]

  conclude_lem :
      (sent : Sent)
      → 1 ≤ row.delivery.attempt_count
      → (conclude env hmac_sha256 send row sent s).db ≡ record s.db {
        webhook_deliveries =
            update_rows of_row
              (recorded env.now row.delivery.attempt_count sent)
              s.db.webhook_deliveries;
      }
  unfolding conclude mark_webhook_delivery_delivered
  conclude_lem (not_created e) h = failure_lem _ h
  conclude_lem (transport_error e) h = failure_lem _ h
  conclude_lem (answered status) h = elim (Bool-cases (ltb status 200 || leb 300 status)) [
    | inl e ↦
        let bad : is_success (answered status) ≡ false = ground arith in
        rw (e, bad) (failure_lem _ h)
    | inr e ↦
        let good : is_success (answered status) ≡ true = ground arith in
        rw (e, good)
          (update_lem (mark_webhook_delivery_delivered env.now row.delivery.id) _ (λ db. refl))
  ]

  -- An attempt of a claimed delivery, of an attempt count that is not 0, writes, if its statement
  -- does not fail for the connection, the rows of the id and nothing else: DELIVERED after an answer
  -- of a status from 200 to 299; after anything else PENDING again, 1, 5, 30, 120 or 720 minutes
  -- later for the attempts 1 to 5, and EXHAUSTED from the sixth attempt on, with the reason. The
  -- request is signed with the secret of the endpoint.
  pub deliver_one_lem :
      1 ≤ row.delivery.attempt_count
      → (let sent = send row.endpoint_url row.delivery.payload (to_decimal env.now) (
            compute_signature hmac_sha256 row.endpoint_secret
              (to_decimal env.now)
              row.delivery.payload) in
          (deliver_one env hmac_sha256 send row s).db ≡ record s.db {
            webhook_deliveries =
                update_rows
                  (λ d. d.id == row.delivery.id)
                  (recorded env.now row.delivery.attempt_count sent)
                  s.db.webhook_deliveries;
          })
  unfolding deliver_one
  deliver_one_lem h = conclude_lem _ h
