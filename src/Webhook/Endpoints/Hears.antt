-- ===== src/Webhook/Endpoints/Hears.antt =====
-- An endpoint of `CreateEndpoint` is one that `QueueDeliveries` queues for
-- (internal/webhook/webhook.go).
use dodo_payments_backend.Base.{
  ℕ, ◌+◌, ◌≡◌, ◌∙◌, ap, true, Option, some, List, [], ◌∷◌, ◌++◌, arith, rows_where,
}
use mathlib.Core.List.{Memᴰ}
use dodo_payments_backend.Base.Members.{
  mem-sort_by, mem-rows_where, mem-append_last, mem-append_right,
}
use dodo_payments_backend.Base.Result.{ok}
use dodo_payments_backend.Base.Text.{Text}
use dodo_payments_backend.Db.{RowId, EventType, WebhookEndpoint, Db}
use dodo_payments_backend.Db.Tx.{Session}
use dodo_payments_backend.Db.Queries.Webhook.{is_target, active_endpoints, new_delivery}
use dodo_payments_backend.Http.{Env}
use dodo_payments_backend.Webhook.Outbox.{queue_deliveries}
use dodo_payments_backend.Webhook.Outbox.Effects.{queued, queue_deliveries_ok}
use dodo_payments_backend.Webhook.Endpoints.{WebhookEndpointResponse, handle_create_endpoint}
use dodo_payments_backend.Webhook.Endpoints.RoundTrip.{created, entered, handle_create_endpoint_lem}

-- One of the deliveries queued is for a given endpoint of the list.
module _ (env : Env) (invoice_id : RowId) (event : EventType) (payload : Text) where
  mem-queued :
      (ep : WebhookEndpoint) (eps : List WebhookEndpoint) (drawn : ℕ)
      → Memᴰ ep eps
      → (n : ℕ) × Memᴰ
          (new_delivery env.jsonb env.now (env.ids n) ep.id invoice_id event payload)
          (queued env invoice_id event payload drawn eps)
  mem-queued ep [] drawn m = elim m [ ]
  mem-queued ep (x ∷ eps) drawn (Memᴰ.head same) = (
    drawn,
    Memᴰ.head (
        ap
          (λ (e : WebhookEndpoint).
            new_delivery env.jsonb env.now (env.ids drawn) e.id invoice_id event payload)
          same),
  )
  mem-queued ep (x ∷ eps) drawn (Memᴰ.tail m) =
      let (n, rest) = mem-queued ep eps (drawn + 1) m in (n, Memᴰ.tail rest)

  -- An endpoint whose creation was answered 201 hears of the next event of its business: where the
  -- endpoints are as the creation left them and queueing goes well, a PENDING delivery of that
  -- event for the new endpoint, due at once, is among the deliveries.
  pub queue_deliveries-create_endpoint :
      (maker : Env) (parse_request_uri : Text → Option (Text × Text)) (business_id : RowId)
      (url random : Text) (s t : Session) {resp : WebhookEndpointResponse} {s' t' : Session}
      {u : Unit {0}}
      → handle_create_endpoint maker parse_request_uri business_id (some url) (some random) s
        ≡ (created resp, s')
      → t.db.webhook_endpoints ≡ s'.db.webhook_endpoints
      → queue_deliveries env invoice_id event payload business_id t ≡ (ok u, t')
      → (n : ℕ) × Memᴰ
          (new_delivery env.jsonb env.now (env.ids n) (maker.ids s.drawn) invoice_id event payload)
          t'.db.webhook_deliveries
  queue_deliveries-create_endpoint maker parse_request_uri business_id url random s t made same
        run =
      let ep = entered maker parse_request_uri business_id url random s in
      let old = s.db.webhook_endpoints in
      let (_, _, _, wrote, _, _) =
        handle_create_endpoint_lem maker parse_request_uri business_id url random s made in
      let table : t.db.webhook_endpoints ≡ old ++ ep ∷ [] =
        same ∙ ap (λ (d : Db). d.webhook_endpoints) wrote in
      let target : is_target business_id ep ≡ true = ground arith in
      let active : Memᴰ ep (active_endpoints business_id t.db) = rw table (
        mem-sort_by (λ (e : WebhookEndpoint). e.id) ep
          (rows_where (is_target business_id) (old ++ ep ∷ []))
          (mem-rows_where (is_target business_id) ep (old ++ ep ∷ []) target
            (mem-append_last old ep))) in
      let (n, m) = mem-queued ep (active_endpoints business_id t.db) t.drawn active in
      let after = queue_deliveries_ok env invoice_id event payload business_id t run in
      (n, rw after (mem-append_right _ t.db.webhook_deliveries _ m))
