-- ===== src/Webhook/Queue/Delivered.antt =====
-- A due delivery is delivered by the next batch with room for it (`ProcessBatch` of
-- internal/webhook/webhook.go).
use dodo_payments_backend.Base.{
  Option-cases, ℕ, ◌+◌, ◌≤◌, ◌≡◌, inl, inr, refl, Bool, true, false, not, ◌&&◌, some, List, [], ◌∷◌,
  ◌==◌, arith, find_row, any_row, rows_where, sort_by, Bool-cases, length, take,
}
use mathlib.Core.Path.{subst}
use mathlib.Core.List.{Memᴰ}
use dodo_payments_backend.Base.Rows.{All-mem}
use dodo_payments_backend.Base.Members.{
  mem-rows_where, mem-sort_by, mem-take, length-sort_by, any_row-of_mem,
}
use dodo_payments_backend.Base.Result.{ok}
use dodo_payments_backend.Base.Text.{Text}
use dodo_payments_backend.Db.{RowId, Time, WebhookDelivery, WebhookEndpoint, Db, delivered}
use dodo_payments_backend.Db.Tx.{Session}
use dodo_payments_backend.Db.Queries.Webhook.{
  ClaimedRow, lease, claim_rows, is_due, claim_due_webhook_deliveries, due_deliveries,
}
use dodo_payments_backend.Http.{Env}
use dodo_payments_backend.Webhook.Worker.{Sent, Worker, process_batch}
use dodo_payments_backend.Webhook.Worker.Claims.{HaveOwnIds}
use dodo_payments_backend.Webhook.Worker.Delivers.{is_success}
use dodo_payments_backend.Webhook.Queue.{sent_for}
use dodo_payments_backend.Webhook.Queue.Batch.{attempted, process_batch_lem}

-- The deliveries that a batch may claim.
abbrev pub is_free : (RowId → Bool) → Time → WebhookDelivery → Bool
is_free locked now d = is_due now d && not (locked d.id)

-- The row of a claim for a delivery and its endpoint.
abbrev pub row_of : Time → WebhookDelivery → WebhookEndpoint → ClaimedRow
row_of expiry d e = record {
  delivery = lease expiry d;
  endpoint_url = e.url;
  endpoint_secret = e.secret;
}

mem-claim_rows :
    (chosen : WebhookDelivery → Bool) (expiry : Time) (endpoints : List WebhookEndpoint)
    (ds : List WebhookDelivery) (d : WebhookDelivery) {e : WebhookEndpoint}
    → Memᴰ d ds
    → chosen d ≡ true
    → find_row (λ (x : WebhookEndpoint). x.id == d.webhook_endpoint_id) endpoints ≡ some e
    → Memᴰ (row_of expiry d e) (claim_rows chosen expiry endpoints ds).0
unfolding claim_rows
mem-claim_rows chosen expiry endpoints [] d m hit has = elim m [ ]
mem-claim_rows chosen expiry endpoints (x ∷ ds) d {e} (Memᴰ.head same) hit has =
    subst (λ y. Memᴰ (row_of expiry d e) (claim_rows chosen expiry endpoints (y ∷ ds)).0) same
      (rw (hit, has) (Memᴰ.head refl))
mem-claim_rows chosen expiry endpoints (x ∷ ds) d {e} (Memᴰ.tail m) hit has =
    let rest = mem-claim_rows chosen expiry endpoints ds d m hit has in
    elim (Bool-cases (chosen x)) [
      | inr f ↦ rw f rest
      | inl t ↦
          elim (Option-cases
            (find_row (λ (y : WebhookEndpoint). y.id == x.webhook_endpoint_id) endpoints)) [
              | inl n ↦ rw (t, n) rest
              | inr (ep, s) ↦ rw (t, s) (Memᴰ.tail rest)
            ]
    ]

-- A claim with room for all that are free takes each of them.
pub mem-claim :
    (locked : RowId → Bool) (now : Time) (limit : ℕ) (expiry : Time) (db : Db) (d : WebhookDelivery)
    {e : WebhookEndpoint}
    → Memᴰ d db.webhook_deliveries
    → is_free locked now d ≡ true
    → length (rows_where (is_free locked now) db.webhook_deliveries) ≤ limit
    → find_row (λ (x : WebhookEndpoint). x.id == d.webhook_endpoint_id) db.webhook_endpoints
      ≡ some e
    → (rows : List ClaimedRow) × (db' : Db) × (claim_due_webhook_deliveries locked now limit expiry
          db
        ≡ ok (rows, db'))
      × Memᴰ (row_of expiry d e) rows
unfolding claim_due_webhook_deliveries due_deliveries
mem-claim locked now limit expiry db d m free room has =
    let ds = db.webhook_deliveries in
    let due_of = λ (x : WebhookDelivery). x.next_attempt_at in
    let sorted = sort_by due_of (rows_where (is_free locked now) ds) in
    let in_sorted : Memᴰ d sorted =
      mem-sort_by due_of d (rows_where (is_free locked now) ds)
        (mem-rows_where (is_free locked now) d ds free m) in
    let in_due : Memᴰ d (take limit sorted) =
      mem-take limit d sorted
        (omega (arith, room, length-sort_by due_of (rows_where (is_free locked now) ds)))
        in_sorted in
    let chosen = λ (x : WebhookDelivery).
      any_row (λ (y : WebhookDelivery). y.id == x.id) (take limit sorted) in
    let hit : chosen d ≡ true =
      any_row-of_mem (λ (y : WebhookDelivery). y.id == d.id) d (take limit sorted) in_due
        (ground arith) in
    (_, _, refl, mem-claim_rows chosen expiry db.webhook_endpoints ds d m hit has)

-- If no statement fails for the connection, the ids of the deliveries differ and the batch has room
-- for all that are due and not held by another worker, each of these is DELIVERED after the batch
-- when its endpoint is there and answers with a status from 200 to 299, with one attempt more.
pub process_batch-delivers :
    (env : Env) (hmac_sha256 : Text → Text → Text) (send : Text → Text → Text → Text → Sent)
    (worker : Worker) (locked : RowId → Bool) (s : Session) (d : WebhookDelivery)
    {e : WebhookEndpoint}
    → ((n : ℕ) → env.fault n ≡ false)
    → HaveOwnIds s.db.webhook_deliveries
    → Memᴰ d s.db.webhook_deliveries
    → is_free locked env.now d ≡ true
    → length (rows_where (is_free locked env.now) s.db.webhook_deliveries) ≤ worker.batch_size
    → find_row (λ (x : WebhookEndpoint). x.id == d.webhook_endpoint_id) s.db.webhook_endpoints
      ≡ some e
    → is_success (sent_for env hmac_sha256 send (row_of (env.now + worker.lease_duration) d e))
      ≡ true
    → (d' : WebhookDelivery) × Memᴰ d'
        (process_batch env hmac_sha256 send worker locked s).1.db.webhook_deliveries
      × (d'.id ≡ d.id)
      × (d'.status ≡ delivered)
      × (d'.attempt_count ≡ d.attempt_count + 1)
process_batch-delivers env hmac_sha256 send worker locked s d {e} calm own m free room has good =
    let expiry = env.now + worker.lease_duration in
    let (rows, db', run, claimed) =
      mem-claim locked env.now worker.batch_size expiry s.db d m free room has in
    let (count, done, kept) = process_batch_lem env hmac_sha256 send worker locked s calm own run in
    let row = row_of expiry d e in
    (
      attempted env hmac_sha256 send row,
      All-mem (λ r. Memᴰ (attempted env hmac_sha256 send r) _) rows row done claimed,
      ground arith,
      ground (arith, good),
      ground arith,
    )
