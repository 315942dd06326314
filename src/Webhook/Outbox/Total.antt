-- ===== src/Webhook/Outbox/Total.antt =====
-- When `QueueDeliveries` of internal/webhook/webhook.go goes well.
use dodo_payments_backend.Base.{
  length, suc, ◌<◌, ◌≢◌, rows_where, ◌∙◌, refl, All, ℕ, ◌+◌, ◌≤◌, ◌≡◌, true, false, ◌==◌, List, [],
  ◌∷◌, ◌++◌, arith, any_row,
}
use dodo_payments_backend.Base.Members.{
  All-of_mem, any_row-append_eq, any_row-of_mem, rows_where-All, sort_by-All,
}
use dodo_payments_backend.Base.Rows.{All-map}
use dodo_payments_backend.Base.Text.{Text}
use dodo_payments_backend.Base.Result.{ok}
use dodo_payments_backend.Db.{RowId, EventType, WebhookEndpoint, WebhookDelivery, Db}
use dodo_payments_backend.Db.Tx.{Session, exec, next_id}
use dodo_payments_backend.Db.Tx.Inversion.{bind_step, exec_calm}
use dodo_payments_backend.Db.Queries.Webhook.{
  list_active_webhook_endpoints, create_webhook_delivery, new_delivery, active_endpoints, is_target,
}
use dodo_payments_backend.Http.{Env}
use dodo_payments_backend.Webhook.Outbox.{queue_each, queue_deliveries}

-- Deliveries for an invoice can be queued: the next `count` ids of the generator are new and
-- different, and the invoice is there.
pub record CanQueue (ids : ℕ → RowId) (invoice_id : RowId) (drawn count : ℕ) (db : Db)
    : Type 0 where
  pub distinct : (n m : ℕ) → drawn ≤ n → n < m → m < drawn + count → ids n ≢ ids m
  pub unused :
      (n : ℕ)
      → drawn ≤ n
      → n < drawn + count
      → any_row (λ d. d.id == ids n) db.webhook_deliveries ≡ false
  pub has_invoice : any_row (λ v. v.id == invoice_id) db.invoices ≡ true

-- Tables with the same deliveries and the same ids of invoices.
pub CanQueue-carried :
    {ids : ℕ → RowId} {invoice_id : RowId} {drawn count : ℕ} (db db' : Db)
    → db'.webhook_deliveries ≡ db.webhook_deliveries
    → any_row (λ v. v.id == invoice_id) db'.invoices ≡ any_row (λ v. v.id == invoice_id) db.invoices
    → CanQueue ids invoice_id drawn count db
    → CanQueue ids invoice_id drawn count db'
CanQueue-carried db db' same there c = record {
  distinct = c.distinct;
  unused = λ n h k. rw same (c.unused n h k);
  has_invoice = there ∙ c.has_invoice;
}

-- The endpoint is in the table.
abbrev IsThere : Db → WebhookEndpoint → Type 0
IsThere db ep = any_row (λ e. e.id == ep.id) db.webhook_endpoints ≡ true

module _ (env : Env) (invoice_id : RowId) (event : EventType) (payload : Text)
    (calm : (n : ℕ) → env.fault n ≡ false) where
  abbrev made : ℕ → WebhookEndpoint → WebhookDelivery
  made drawn ep = new_delivery env.jsonb env.now (env.ids drawn) ep.id invoice_id event payload

  abbrev grown : ℕ → WebhookEndpoint → Db → Db
  grown drawn ep db = record db { webhook_deliveries = db.webhook_deliveries ++ made drawn ep ∷ [] }

  grown-CanQueue :
      (drawn count : ℕ) (ep : WebhookEndpoint) (db : Db)
      → CanQueue env.ids invoice_id drawn (suc count) db
      → CanQueue env.ids invoice_id (drawn + 1) count (grown drawn ep db)
  grown-CanQueue drawn count ep db c = record {
    distinct = λ n m h k l. c.distinct n m (omega (arith, h)) k (omega (arith, l));
    unused = λ n h k.
        let same =
          any_row-append_eq (λ d. d.id == env.ids n) db.webhook_deliveries (made drawn ep) in
        let old = c.unused n (omega (arith, h)) (omega (arith, k)) in
        let apart = c.distinct drawn n (omega arith) (omega (arith, h)) (omega (arith, k)) in
        let other : (env.ids drawn == env.ids n) ≡ false = ground (arith, apart) in
        rw same (rw old other);
    has_invoice = c.has_invoice;
  }

  create_lem :
      (drawn count : ℕ) (ep : WebhookEndpoint) (db : Db)
      → CanQueue env.ids invoice_id drawn (suc count) db
      → IsThere db ep
      → create_webhook_delivery env.jsonb env.now (env.ids drawn) ep.id invoice_id event payload db
        ≡ ok (made drawn ep, grown drawn ep db)
  unfolding create_webhook_delivery
  create_lem drawn count ep db c h =
      rw (c.unused drawn (omega arith) (omega arith), h, c.has_invoice) refl

  -- The loop goes through, whatever the number of endpoints.
  queue_each_total :
      (eps : List WebhookEndpoint) (s : Session)
      → s.aborted ≡ false
      → CanQueue env.ids invoice_id s.drawn (length eps) s.db
      → All (IsThere s.db) eps
      → (t : Session) × (queue_each env invoice_id event payload eps s ≡ (ok tt, t))
        × (t.aborted ≡ false)
  unfolding queue_each next_id
  queue_each_total [] s live c h = (s, refl, live)
  queue_each_total (ep ∷ eps) s live c h =
      let q =
        create_webhook_delivery env.jsonb env.now (env.ids s.drawn) ep.id invoice_id event
          payload in
      let s₁ = record s { drawn = s.drawn + 1 } in
      let s₂ = record s₁ { db = grown s.drawn ep s.db; ticks = s.ticks + 1 } in
      let (t, run, good) =
        queue_each_total eps s₂ live (grown-CanQueue s.drawn (length eps) ep s.db c) h.1 in
      let first =
        bind_step (exec env.fault q) (λ _. queue_each env invoice_id event payload eps) s₁
          (exec_calm env.fault q s₁ (calm s.ticks) live
            (create_lem s.drawn (length eps) ep s.db c h.0)) in
      (t, first ∙ run, good)

  -- Queueing goes well for every business if no statement fails for the connection.
  pub queue_deliveries_total :
      (business_id : RowId) (s : Session)
      → s.aborted ≡ false
      → CanQueue env.ids invoice_id s.drawn (length (active_endpoints business_id s.db)) s.db
      → (t : Session) × (queue_deliveries env invoice_id event payload business_id s ≡ (ok tt, t))
        × (t.aborted ≡ false)
  unfolding queue_deliveries list_active_webhook_endpoints
  queue_deliveries_total business_id s live c =
      let q = list_active_webhook_endpoints business_id in
      let eps = active_endpoints business_id s.db in
      let all =
        All-of_mem (IsThere s.db) s.db.webhook_endpoints (λ ep m.
          any_row-of_mem (λ e. e.id == ep.id) ep s.db.webhook_endpoints m (ground arith)) in
      let targets =
        rows_where-All (IsThere s.db) (is_target business_id) s.db.webhook_endpoints all in
      let there =
        sort_by-All (IsThere s.db) (λ e. e.id) _
          (All-map _ (IsThere s.db) (rows_where (is_target business_id) s.db.webhook_endpoints)
            (λ x h. h.0) targets) in
      let (t, run, good) = queue_each_total eps (record s { ticks = s.ticks + 1 }) live c there in
      (
        t,
        bind_step (exec env.fault q) (queue_each env invoice_id event payload) s
              (exec_calm env.fault q s (calm s.ticks) live refl)
            ∙ run,
        good,
      )
