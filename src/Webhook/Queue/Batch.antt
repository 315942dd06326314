-- ===== src/Webhook/Queue/Batch.antt =====
-- A whole batch: `ProcessBatch` of internal/webhook/webhook.go, by the deliveries that it claims.
use dodo_payments_backend.Base.{
  if◌then◌else◌, any_row, ℕ, ◌+◌, ◌≤◌, ◌≡◌, ◌≢◌, inl, inr, refl, sym, ap, ◌∙◌, Bool, true, false,
  List, [], ◌∷◌, ◌==◌, arith, All, update_rows, find_row, Bool-cases, Option-cases, length,
}
use mathlib.Core.Path.{subst}
use mathlib.Core.List.{Memᴰ}
use dodo_payments_backend.Base.Rows.{AllPairs, All-map, All-zip, All-mem}
use dodo_payments_backend.Base.Members.{mem-update_rows}
use dodo_payments_backend.Base.Result.{ok}
use dodo_payments_backend.Base.Text.{Text}
use dodo_payments_backend.Db.{RowId, Time, WebhookDelivery, WebhookEndpoint, Db}
use dodo_payments_backend.Db.Tx.{Session}
use dodo_payments_backend.Db.Tx.Inversion.{query_ok}
use dodo_payments_backend.Db.Queries.Webhook.{
  ClaimedRow, lease, claim_rows, claim_due_webhook_deliveries, due_deliveries,
}
use dodo_payments_backend.Http.{Env}
use dodo_payments_backend.Webhook.Worker.{
  Sent, Worker, deliver_one, deliver_all, process_claimed, process_batch,
}
use dodo_payments_backend.Webhook.Worker.Claims.{HaveOwnIds}
use dodo_payments_backend.Webhook.Worker.Delivers.{recorded, deliver_one_lem}
use dodo_payments_backend.Webhook.Queue.{sent_for}
use dodo_payments_backend.Webhook.Queue.Rows.{takes, claim_rows-IsTaken, IsTaken, claim_ok}

-- The rows are for different deliveries.
abbrev AreDistinct : List ClaimedRow → Type 0
AreDistinct rows = AllPairs (λ r r'. r.delivery.id ≢ r'.delivery.id) rows

abbrev pub IsAside : WebhookDelivery → List ClaimedRow → Type 0
IsAside d rows = All (λ r. r.delivery.id ≢ d.id) rows

-- The delivery of a row after the attempt.
abbrev pub attempted :
    Env → (Text → Text → Text) → (Text → Text → Text → Text → Sent) → ClaimedRow → WebhookDelivery
attempted env hmac_sha256 send r =
    recorded env.now r.delivery.attempt_count (sent_for env hmac_sha256 send r) r.delivery

module _ (env : Env) (hmac_sha256 : Text → Text → Text) (send : Text → Text → Text → Text → Sent)
    (calm : (n : ℕ) → env.fault n ≡ false) where
  attempted-id : (r : ClaimedRow) → (attempted env hmac_sha256 send r).id ≡ r.delivery.id
  attempted-id r = ground arith

  abbrev table_after : ClaimedRow → List WebhookDelivery → List WebhookDelivery
  table_after r ds =
      update_rows (λ d. d.id == r.delivery.id)
        (recorded env.now r.delivery.attempt_count (sent_for env hmac_sha256 send r)) ds

  mem-own :
      (r : ClaimedRow) (ds : List WebhookDelivery)
      → Memᴰ r.delivery ds
      → Memᴰ (attempted env hmac_sha256 send r) (table_after r ds)
  mem-own r ds m =
      let p = λ (d : WebhookDelivery). d.id == r.delivery.id in
      let hit : p r.delivery ≡ true = ground arith in
      let f = recorded env.now r.delivery.attempt_count (sent_for env hmac_sha256 send r) in
      subst (λ (b : Bool). Memᴰ (if b then f r.delivery else r.delivery) (update_rows p f ds)) hit
        (mem-update_rows p f r.delivery ds m)

  mem-other :
      (r : ClaimedRow) (d : WebhookDelivery) (ds : List WebhookDelivery)
      → r.delivery.id ≢ d.id
      → Memᴰ d ds
      → Memᴰ d (table_after r ds)
  mem-other r d ds ne m =
      let p = λ (x : WebhookDelivery). x.id == r.delivery.id in
      let miss : p d ≡ false = ground (arith, ne) in
      let f = recorded env.now r.delivery.attempt_count (sent_for env hmac_sha256 send r) in
      subst (λ (b : Bool). Memᴰ (if b then f d else d) (update_rows p f ds)) miss
        (mem-update_rows p f d ds m)

  deliver_all_lem :
      (rows : List ClaimedRow) (s : Session)
      → All (λ r. 1 ≤ r.delivery.attempt_count) rows
      → AreDistinct rows
      → All (λ r. Memᴰ r.delivery s.db.webhook_deliveries) rows
      → let ds = (deliver_all env hmac_sha256 send rows s).db.webhook_deliveries in
        All (λ r. Memᴰ (attempted env hmac_sha256 send r) ds) rows
        × ((d : WebhookDelivery) → Memᴰ d s.db.webhook_deliveries → IsAside d rows → Memᴰ d ds)
  unfolding deliver_all
  deliver_all_lem [] s begun apart there = (tt, λ d m a. m)
  deliver_all_lem (r ∷ rs) s begun apart there =
      let ds = s.db.webhook_deliveries in
      let s₁ = deliver_one env hmac_sha256 send r s in
      let wrote : s₁.db.webhook_deliveries ≡ table_after r ds =
        ap (λ (d : Db). d.webhook_deliveries)
          (deliver_one_lem env hmac_sha256 send r s (calm s.ticks) begun.0) in
      let moved : (d : WebhookDelivery)
          → r.delivery.id ≢ d.id
          → Memᴰ d ds
          → Memᴰ d s₁.db.webhook_deliveries =
        λ d ne m. rw wrote (mem-other r d ds ne m) in
      let (done, kept) = deliver_all_lem rs s₁ begun.1 apart.1 (
        All-zip (λ r'. r.delivery.id ≢ r'.delivery.id) (λ r'. Memᴰ r'.delivery ds)
          (λ r'. Memᴰ r'.delivery s₁.db.webhook_deliveries) rs (λ r' ne m. moved r'.delivery ne m)
          apart.0 there.1) in
      let own : Memᴰ (attempted env hmac_sha256 send r) s₁.db.webhook_deliveries =
        rw wrote (mem-own r ds there.0) in
      let aside : IsAside (attempted env hmac_sha256 send r) rs =
        All-map (λ r'. r.delivery.id ≢ r'.delivery.id)
          (λ r'. r'.delivery.id ≢ (attempted env hmac_sha256 send r).id) rs
          (λ r' ne e. ne (sym (attempted-id r) ∙ sym e)) apart.0 in
      (
        (kept (attempted env hmac_sha256 send r) own aside, done),
        λ d m a. kept d (moved d a.0 m) a.1,
      )

-- Claims of tables whose ids differ give rows for different deliveries.
claim_rows-AreDistinct :
    (chosen : WebhookDelivery → Bool) (expiry : Time) (endpoints : List WebhookEndpoint)
    (ds : List WebhookDelivery)
    → HaveOwnIds ds
    → AreDistinct (claim_rows chosen expiry endpoints ds).0
unfolding claim_rows
claim_rows-AreDistinct chosen expiry endpoints [] own = tt
claim_rows-AreDistinct chosen expiry endpoints (d ∷ ds) own =
    let rest = claim_rows-AreDistinct chosen expiry endpoints ds own.1 in
    let aside : All (λ r. d.id ≢ r.delivery.id) (claim_rows chosen expiry endpoints ds).0 =
      All-map (IsTaken (takes chosen endpoints) expiry ds) (λ r. d.id ≢ r.delivery.id) _
        (λ r (x, m, c, e) same.
          All-mem (λ y. d.id ≢ y.id) ds x own.0 m (same ∙ ap (λ (y : WebhookDelivery). y.id) e))
        (claim_rows-IsTaken chosen expiry endpoints ds) in
    elim (Bool-cases (chosen d)) [
      | inr f ↦ rw f rest
      | inl t ↦
          elim (Option-cases
            (find_row (λ (e : WebhookEndpoint). e.id == d.webhook_endpoint_id) endpoints)) [
              | inl n ↦ rw (t, n) rest
              | inr (ep, s) ↦ rw (t, s) (aside, rest)
            ]
    ]

claim-AreDistinct :
    (locked : RowId → Bool) (now : Time) (limit : ℕ) (expiry : Time) (db : Db)
    {rows : List ClaimedRow} {db' : Db}
    → HaveOwnIds db.webhook_deliveries
    → claim_due_webhook_deliveries locked now limit expiry db ≡ ok (rows, db')
    → AreDistinct rows
unfolding claim_due_webhook_deliveries
claim-AreDistinct locked now limit expiry db {rows} own h =
    let ds = db.webhook_deliveries in
    let chosen = λ (d : WebhookDelivery).
      any_row (λ (x : WebhookDelivery). x.id == d.id) (due_deliveries locked now limit ds) in
    let same : (claim_rows chosen expiry db.webhook_endpoints ds).0 ≡ rows = ground (arith, h) in
    subst AreDistinct same (claim_rows-AreDistinct chosen expiry db.webhook_endpoints ds own)

-- If the ids of the deliveries differ and no statement fails for the connection, a batch counts the
-- deliveries that it claims and deals with each of them as an attempt of it alone: with the attempt
-- recorded, DELIVERED or PENDING again or EXHAUSTED, it is in the table, and every other delivery of
-- the claimed table is there unchanged.
pub process_batch_lem :
    (env : Env) (hmac_sha256 : Text → Text → Text) (send : Text → Text → Text → Text → Sent)
    (worker : Worker) (locked : RowId → Bool) (s : Session) {rows : List ClaimedRow} {db' : Db}
    → ((n : ℕ) → env.fault n ≡ false)
    → HaveOwnIds s.db.webhook_deliveries
    → claim_due_webhook_deliveries locked env.now worker.batch_size
        (env.now + worker.lease_duration)
        s.db
      ≡ ok (rows, db')
    → let (count, t) = process_batch env hmac_sha256 send worker locked s in
      (count ≡ length rows)
      × All (λ r. Memᴰ (attempted env hmac_sha256 send r) t.db.webhook_deliveries) rows
      × ((d : WebhookDelivery)
          → Memᴰ d db'.webhook_deliveries
          → IsAside d rows
          → Memᴰ d t.db.webhook_deliveries)
unfolding process_batch process_claimed
process_batch_lem env hmac_sha256 send worker locked s {rows} {db'} calm own h =
    let expiry = env.now + worker.lease_duration in
    let q = claim_due_webhook_deliveries locked env.now worker.batch_size expiry in
    let ran = query_ok env.fault q s (calm s.ticks) h in
    let (p, table, taken) = claim_ok locked env.now worker.batch_size expiry s.db h in
    let begun =
      All-map (IsTaken p expiry s.db.webhook_deliveries) (λ r. 1 ≤ r.delivery.attempt_count) rows
        (λ r (d, m, hit, e). rw e (omega arith)) taken in
    let there =
      All-map (IsTaken p expiry s.db.webhook_deliveries)
        (λ r. Memᴰ r.delivery db'.webhook_deliveries) rows
        (λ r (d, m, hit, e).
          rw (e, table)
            (subst
              (λ (b : Bool).
                Memᴰ (if b then lease expiry d else d)
                  (update_rows p (lease expiry) s.db.webhook_deliveries))
              hit (mem-update_rows p (lease expiry) d s.db.webhook_deliveries m)))
        taken in
    let t₀ = record s { db = db'; ticks = s.ticks + 1; aborted = false } in
    let apart = claim-AreDistinct locked env.now worker.batch_size expiry s.db own h in
    let (done, kept) = deliver_all_lem env hmac_sha256 send calm rows t₀ begun apart there in
    rw ran (refl, done, kept)
