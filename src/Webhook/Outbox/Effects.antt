-- ===== src/Webhook/Outbox/Effects.antt =====
-- What `QueueDeliveries` of internal/webhook/webhook.go writes, and what an error of it leaves.
use dodo_payments_backend.Base.{inr, inl, ℕ, ◌+◌, ◌≡◌, ◌≢◌, true, List, [], ◌∷◌, ◌++◌, arith}
use mathlib.Core.List.{append_assoc, append-nil}
use dodo_payments_backend.Base.Result.{ok, err}
use dodo_payments_backend.Base.Text.{Text}
use dodo_payments_backend.Db.{RowId, EventType, WebhookEndpoint, WebhookDelivery, Db}
use dodo_payments_backend.Db.Tx.{Query, Error, no_rows, Session, exec, next_id}
use dodo_payments_backend.Db.Tx.Inversion.{bind_err, bind_ok, exec_ok, exec_err}
use dodo_payments_backend.Db.Queries.Webhook.{
  list_active_webhook_endpoints, create_webhook_delivery, new_delivery, active_endpoints,
}
use dodo_payments_backend.Http.{Env}
use dodo_payments_backend.Webhook.Outbox.{queue_each, queue_deliveries}

module _ (env : Env) (invoice_id : RowId) (event : EventType) (payload : Text) where
  -- One row for each endpoint, with the next ids of the generator.
  abbrev pub queued : ℕ → List WebhookEndpoint → List WebhookDelivery
  queued drawn [] = []
  queued drawn (ep ∷ eps) =
      new_delivery env.jsonb env.now (env.ids drawn) ep.id invoice_id event payload
      ∷ queued (drawn + 1) eps

  abbrev with_deliveries : Db → List WebhookDelivery → Db
  with_deliveries db rows = record db { webhook_deliveries = db.webhook_deliveries ++ rows }

  create_ok :
      (id : RowId) (ep : WebhookEndpoint) (db : Db) {d : WebhookDelivery} {db' : Db}
      → create_webhook_delivery env.jsonb env.now id ep.id invoice_id event payload db ≡ ok (d, db')
      → db'
        ≡ with_deliveries db (new_delivery env.jsonb env.now id ep.id invoice_id event payload ∷ [])
  unfolding create_webhook_delivery
  create_ok id ep db h = ground arith

  create_ne :
      (id : RowId) (ep : WebhookEndpoint) (db : Db)
      → create_webhook_delivery env.jsonb env.now id ep.id invoice_id event payload db ≢ err no_rows
  unfolding create_webhook_delivery
  create_ne id ep db h = ground arith

  abbrev create : RowId → WebhookEndpoint → Query WebhookDelivery
  create id ep = create_webhook_delivery env.jsonb env.now id ep.id invoice_id event payload

  queue_each_ok :
      (eps : List WebhookEndpoint) (s : Session) {u : Unit {0}} {s' : Session}
      → queue_each env invoice_id event payload eps s ≡ (ok u, s')
      → s'.db ≡ with_deliveries s.db (queued s.drawn eps)
  unfolding queue_each next_id
  queue_each_ok [] s h = ground (arith, append-nil s.db.webhook_deliveries)
  queue_each_ok (ep ∷ eps) s h =
      let id = env.ids s.drawn in
      let (d, t, made, rest) =
        bind_ok (exec env.fault (create id ep)) (λ _. queue_each env invoice_id event payload eps)
          (record s { drawn = s.drawn + 1 }) h in
      let (query, _, _, drawn) =
        exec_ok env.fault (create id ep) (record s { drawn = s.drawn + 1 }) made in
      ground (
        arith,
        create_ok id ep s.db query,
        drawn,
        queue_each_ok eps t rest,
        append_assoc s.db.webhook_deliveries
            (new_delivery env.jsonb env.now id ep.id invoice_id event payload ∷ [])
            (queued (s.drawn + 1) eps),
      )

  queue_each_err :
      (eps : List WebhookEndpoint) (s : Session) {e : Error} {s' : Session}
      → queue_each env invoice_id event payload eps s ≡ (err e, s')
      → s'.aborted ≡ true
  unfolding queue_each next_id
  queue_each_err [] s h = cc
  queue_each_err (ep ∷ eps) s h =
      let id = env.ids s.drawn in
      let s₁ = record s { drawn = s.drawn + 1 } in
      elim (bind_err (exec env.fault (create id ep))
        (λ _. queue_each env invoice_id event payload eps) s₁ h) [
          | inl failed ↦ exec_err env.fault (create id ep) s₁ (create_ne id ep s.db) failed
          | inr (d, t, made, rest) ↦ queue_each_err eps t rest
        ]

  list_ne :
      (business_id : RowId) (db : Db) → list_active_webhook_endpoints business_id db ≢ err no_rows
  unfolding list_active_webhook_endpoints
  list_ne business_id db h = cc

  -- Queueing that went well has added one PENDING delivery, due at once, for each active endpoint
  -- of the business, and changed nothing else.
  pub queue_deliveries_ok :
      (business_id : RowId) (s : Session) {u : Unit {0}} {s' : Session}
      → queue_deliveries env invoice_id event payload business_id s ≡ (ok u, s')
      → s'.db ≡ with_deliveries s.db (queued s.drawn (active_endpoints business_id s.db))
  unfolding queue_deliveries
  queue_deliveries_ok business_id s h =
      let q = list_active_webhook_endpoints business_id in
      let (eps, t, listed, rest) =
        bind_ok (exec env.fault q) (queue_each env invoice_id event payload) s h in
      let (query, _, _, drawn) = exec_ok env.fault q s listed in
      let same : (t.db ≡ s.db) × (eps ≡ active_endpoints business_id s.db) =
        unfold list_active_webhook_endpoints in ground (arith, query) in
      ground (arith, same.0, same.1, drawn, queue_each_ok eps t rest)

  -- Queueing that failed has aborted the transaction.
  pub queue_deliveries_err :
      (business_id : RowId) (s : Session) {e : Error} {s' : Session}
      → queue_deliveries env invoice_id event payload business_id s ≡ (err e, s')
      → s'.aborted ≡ true
  unfolding queue_deliveries
  queue_deliveries_err business_id s h =
      let q = list_active_webhook_endpoints business_id in
      elim (bind_err (exec env.fault q) (queue_each env invoice_id event payload) s h) [
        | inl failed ↦ exec_err env.fault q s (list_ne business_id s.db) failed
        | inr (eps, t, listed, rest) ↦ queue_each_err eps t rest
      ]
