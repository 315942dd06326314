-- ===== src/Webhook/Queue/Rows.antt =====
-- What claims and attempts make of the rows of deliveries (internal/webhook/webhook.go).
use dodo_payments_backend.Base.{
  ℕ, ◌≤◌, ◌≡◌, ◌⊎◌, inl, inr, refl, ap, ◌∙◌, Bool, true, false, ◌&&◌, ◌||◌, Option, none, some,
  List, [], ◌∷◌, ◌==◌, arith, All, any_row, find_row, update_rows, Bool-cases, Option-cases, leb,
  ltb,
}
use mathlib.Core.Path.{subst}
use mathlib.Core.List.{Memᴰ}
use dodo_payments_backend.Base.Rows.{All-map}
use dodo_payments_backend.Base.Result.{ok}
use dodo_payments_backend.Base.Text.{Text}
use dodo_payments_backend.Db.{
  RowId, Time, WebhookDelivery, WebhookEndpoint, Db, DeliveryStatus, delivered, exhausted,
}
use dodo_payments_backend.Db.Tx.{Query, Session, query, exec, settle}
use dodo_payments_backend.Db.Queries.Webhook.{
  ClaimedRow, lease, claim_rows, claim_due_webhook_deliveries, due_deliveries,
}
use dodo_payments_backend.Http.{Env}
use dodo_payments_backend.Webhook.Worker.{
  Sent, not_created, transport_error, answered, handle_failure, conclude, deliver_one,
}
use dodo_payments_backend.Webhook.Worker.Delivers.{recorded, deliver_one_lem}
use dodo_payments_backend.Webhook.Queue.{sent_for}

abbrev is_some : {A : Type 0} → Option A → Bool
is_some none = false
is_some (some a) = true

abbrev pub is_delivered : DeliveryStatus → Bool
is_delivered delivered = true
is_delivered _ = false

abbrev pub is_exhausted : DeliveryStatus → Bool
is_exhausted exhausted = true
is_exhausted _ = false

-- The deliveries that a claim takes: those chosen whose endpoint is there.
abbrev pub takes : (WebhookDelivery → Bool) → List WebhookEndpoint → WebhookDelivery → Bool
takes chosen endpoints d =
    chosen d
    && is_some (find_row (λ (e : WebhookEndpoint). e.id == d.webhook_endpoint_id) endpoints)

claim_rows_table :
    (chosen : WebhookDelivery → Bool) (expiry : Time) (endpoints : List WebhookEndpoint)
    (ds : List WebhookDelivery)
    → (claim_rows chosen expiry endpoints ds).1
      ≡ update_rows (takes chosen endpoints) (lease expiry) ds
unfolding claim_rows update_rows
claim_rows_table chosen expiry endpoints [] = refl
claim_rows_table chosen expiry endpoints (d ∷ ds) =
    let rest = claim_rows_table chosen expiry endpoints ds in
    elim (Bool-cases (chosen d)) [
      | inr f ↦ rw (f, rest) refl
      | inl t ↦
          elim (Option-cases
            (find_row (λ (e : WebhookEndpoint). e.id == d.webhook_endpoint_id) endpoints)) [
              | inl n ↦ rw (t, n, rest) refl
              | inr (ep, s) ↦ rw (t, s, rest) refl
            ]
    ]

-- A claimed row is the lease of a delivery that is taken.
abbrev pub IsTaken : (WebhookDelivery → Bool) → Time → List WebhookDelivery → ClaimedRow → Type 0
IsTaken takes expiry ds r =
    (d : WebhookDelivery) × Memᴰ d ds × (takes d ≡ true) × (r.delivery ≡ lease expiry d)

pub claim_rows-IsTaken :
    (chosen : WebhookDelivery → Bool) (expiry : Time) (endpoints : List WebhookEndpoint)
    (ds : List WebhookDelivery)
    → All (IsTaken (takes chosen endpoints) expiry ds) (claim_rows chosen expiry endpoints ds).0
unfolding claim_rows
claim_rows-IsTaken chosen expiry endpoints [] = tt
claim_rows-IsTaken chosen expiry endpoints (d ∷ ds) =
    let P = takes chosen endpoints in
    let rest =
      All-map (IsTaken P expiry ds) (IsTaken P expiry (d ∷ ds)) _
        (λ r (x, m, c, e). (x, Memᴰ.tail m, c, e))
        (claim_rows-IsTaken chosen expiry endpoints ds) in
    elim (Bool-cases (chosen d)) [
      | inr f ↦ rw f rest
      | inl t ↦
          elim (Option-cases
            (find_row (λ (e : WebhookEndpoint). e.id == d.webhook_endpoint_id) endpoints)) [
              | inl n ↦ rw (t, n) rest
              | inr (ep, s) ↦
                  let hit : takes chosen endpoints d ≡ true = rw (t, s) refl in
                  rw (t, s) ((d, Memᴰ.head refl, hit, refl), rest)
            ]
    ]

-- A claim as an update of the table, and the rows that it gives.
pub claim_ok :
    (locked : RowId → Bool) (now : Time) (limit : ℕ) (expiry : Time) (db : Db)
    {rows : List ClaimedRow} {db' : Db}
    → claim_due_webhook_deliveries locked now limit expiry db ≡ ok (rows, db')
    → (p : WebhookDelivery → Bool) × (db'.webhook_deliveries
        ≡ update_rows p (lease expiry) db.webhook_deliveries)
      × All (IsTaken p expiry db.webhook_deliveries) rows
unfolding claim_due_webhook_deliveries
claim_ok locked now limit expiry db {rows} {db'} h =
    let ds = db.webhook_deliveries in
    let chosen = λ (d : WebhookDelivery).
      any_row (λ (x : WebhookDelivery). x.id == d.id) (due_deliveries locked now limit ds) in
    let table : db'.webhook_deliveries ≡ (claim_rows chosen expiry db.webhook_endpoints ds).1 =
      ground (arith, h) in
    let same : (claim_rows chosen expiry db.webhook_endpoints ds).0 ≡ rows = ground (arith, h) in
    (
      takes chosen db.webhook_endpoints,
      table ∙ claim_rows_table chosen expiry db.webhook_endpoints ds,
      subst (All _) same (claim_rows-IsTaken chosen expiry db.webhook_endpoints ds),
    )

-- A statement that fails for the connection leaves the tables alone.
query_broken :
    {A : Type 0} (fault : ℕ → Bool) (q : Query A) (s : Session)
    → fault s.ticks ≡ true
    → (query fault q s).1.db ≡ s.db
unfolding query exec settle
query_broken fault q s h = rw h refl

module _ (env : Env) (hmac_sha256 : Text → Text → Text) (send : Text → Text → Text → Text → Sent)
    (row : ClaimedRow) (s : Session) where
  failure_broken :
      (message : Text)
      → env.fault s.ticks ≡ true
      → (handle_failure env hmac_sha256 send row message s).db ≡ s.db
  unfolding handle_failure
  failure_broken message h = elim (Bool-cases (leb 6 row.delivery.attempt_count)) [
    | inl e ↦ rw e (query_broken env.fault _ s h)
    | inr e ↦ rw e (query_broken env.fault _ s h)
  ]

  conclude_broken :
      (sent : Sent)
      → env.fault s.ticks ≡ true
      → (conclude env hmac_sha256 send row sent s).db ≡ s.db
  unfolding conclude
  conclude_broken (not_created e) h = failure_broken _ h
  conclude_broken (transport_error e) h = failure_broken _ h
  conclude_broken (answered status) h = elim (Bool-cases (ltb status 200 || leb 300 status)) [
    | inl e ↦ rw e (failure_broken _ h)
    | inr e ↦ rw e (query_broken env.fault _ s h)
  ]

  deliver_broken : env.fault s.ticks ≡ true → (deliver_one env hmac_sha256 send row s).db ≡ s.db
  unfolding deliver_one
  deliver_broken h = conclude_broken _ h

-- An attempt has written what it records, or nothing where its statement failed.
deliver_one_cases :
    (env : Env) (hmac_sha256 : Text → Text → Text) (send : Text → Text → Text → Text → Sent)
    (row : ClaimedRow) (s : Session)
    → 1 ≤ row.delivery.attempt_count
    → let db' = (deliver_one env hmac_sha256 send row s).db in
      (db'.webhook_deliveries ≡ s.db.webhook_deliveries)
      ⊎ (db'.webhook_deliveries
          ≡ update_rows
              (λ d. d.id == row.delivery.id)
              (recorded env.now row.delivery.attempt_count (sent_for env hmac_sha256 send row))
              s.db.webhook_deliveries)
deliver_one_cases env hmac_sha256 send row s h = elim (Bool-cases (env.fault s.ticks)) [
  | inr calm ↦
      inr
        (ap (λ (d : Db). d.webhook_deliveries) (deliver_one_lem env hmac_sha256 send row s calm h))
  | inl broken ↦
      inl (ap (λ (d : Db). d.webhook_deliveries) (deliver_broken env hmac_sha256 send row s broken))
]

-- The same, from tables that are given.
pub deliver_one_on :
    (env : Env) (hmac_sha256 : Text → Text → Text) (send : Text → Text → Text → Text → Sent)
    (row : ClaimedRow) (s : Session) (db : Db)
    → s.db ≡ db
    → 1 ≤ row.delivery.attempt_count
    → let db' = (deliver_one env hmac_sha256 send row s).db in
      (db'.webhook_deliveries ≡ db.webhook_deliveries)
      ⊎ (db'.webhook_deliveries
          ≡ update_rows
              (λ d. d.id == row.delivery.id)
              (recorded env.now row.delivery.attempt_count (sent_for env hmac_sha256 send row))
              db.webhook_deliveries)
deliver_one_on env hmac_sha256 send row s db same h =
    let db' = (deliver_one env hmac_sha256 send row s).db in
    subst
      (λ (before : Db).
        (db'.webhook_deliveries ≡ before.webhook_deliveries)
        ⊎ (db'.webhook_deliveries
            ≡ update_rows (λ d. d.id == row.delivery.id)
                (recorded env.now row.delivery.attempt_count (sent_for env hmac_sha256 send row))
                before.webhook_deliveries))
      same (deliver_one_cases env hmac_sha256 send row s h)
