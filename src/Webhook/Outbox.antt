-- ===== src/Webhook/Outbox.antt =====
-- The transactional outbox of internal/webhook/webhook.go: `QueueDeliveries` and `BuildPayload`.
pub mod Effects
pub mod Total
use dodo_payments_backend.Base.{List, [], ◌∷◌}
use dodo_payments_backend.Base.Text.{Text, text}
use dodo_payments_backend.Db.{RowId, EventType, event_text, WebhookEndpoint}
use dodo_payments_backend.Db.Tx.{Tx, pure, ◌>>=◌, ◌>>◌, exec, next_id}
use dodo_payments_backend.Db.Queries.Webhook.{
  list_active_webhook_endpoints, create_webhook_delivery,
}
use dodo_payments_backend.Http.{Env, Json, string, object, field, end}

unfoldable pub build_payload : Env → EventType → Json → Text
build_payload env event fields =
    env.marshal
      (object (field (text "event") (string (event_text event)) (field (text "data") fields end)))

module _ (env : Env) (invoice_id : RowId) (event : EventType) (payload : Text) where
  -- The loop over the endpoints, which stops at the first error.
  unfoldable pub queue_each : List WebhookEndpoint → Tx (Unit {0})
  queue_each [] = pure tt
  queue_each (ep ∷ eps) = do
    id ← next_id env.ids
    exec env.fault (create_webhook_delivery env.jsonb env.now id ep.id invoice_id event payload)
    queue_each eps

  unfoldable pub queue_deliveries : RowId → Tx (Unit {0})
  queue_deliveries business_id = do
    endpoints ← exec env.fault (list_active_webhook_endpoints business_id)
    queue_each endpoints
