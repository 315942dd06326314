-- ===== src/Webhook/Queue/Lossless.antt =====
-- No delivery is lost, whatever workers do (internal/webhook/webhook.go).
use dodo_payments_backend.Base.{
  some, ◌==◌, find_row, length, All, false, ℕ, ◌≤◌, ◌≡◌, ◌⊎◌, inl, inr, refl, ap, ◌∙◌, Bool, true,
  List, [], ◌∷◌, arith, update_rows, Bool-cases,
}
use mathlib.Core.List.{Memᴰ}
use dodo_payments_backend.Base.Rows.{updated, All-mem}
use dodo_payments_backend.Base.Members.{mem-append_left, rows_where-length}
use dodo_payments_backend.Db.{
  RowId, Time, DeliveryStatus, pending, claimed, delivered, exhausted, WebhookDelivery,
  WebhookEndpoint, Db,
}
use dodo_payments_backend.Db.Queries.Webhook.{
  is_waiting, lease, ClaimedRow, claim_due_webhook_deliveries,
}
use dodo_payments_backend.Webhook.Worker.{Sent}
use dodo_payments_backend.Webhook.Worker.Delivers.{recorded}
use dodo_payments_backend.Webhook.Queue.{
  Queue, start, sent_for, Step, queues, claims, delivers, crashes, others, Reach, here, next,
}
use dodo_payments_backend.Webhook.Queue.Rows.{is_delivered, is_exhausted, claim_ok, deliver_one_on}
use dodo_payments_backend.Webhook.Queue.Safety.{cut-IsBehind, Step-IsKept, Reach-IsKept}
use dodo_payments_backend.Base.Result.{ok}
use dodo_payments_backend.Webhook.Queue.Delivered.{row_of, is_free, mem-claim}
use dodo_payments_backend.Webhook.Queue.Kept.{IsTold, has_id, IsKept, create_ok}

-- The query that claims returns the delivery, leased, with its endpoint.
abbrev pub IsClaimable :
    (RowId → Bool) → Time → ℕ → Time → Db → WebhookDelivery → WebhookEndpoint → Type 0
IsClaimable locked now limit expiry db d e =
    (rows : List ClaimedRow) × (db' : Db) × (claim_due_webhook_deliveries locked now limit expiry db
      ≡ ok (rows, db'))
    × Memᴰ (row_of expiry d e) rows

-- A delivery of the same event to the same endpoint, with no attempt forgotten.
pub record IsSameDelivery (d d' : WebhookDelivery) : Type 0 where
  pub id : d'.id ≡ d.id
  pub endpoint : d'.webhook_endpoint_id ≡ d.webhook_endpoint_id
  pub invoice : d'.invoice_id ≡ d.invoice_id
  pub event : d'.event_type ≡ d.event_type
  pub payload : d'.payload ≡ d.payload
  pub attempts : d.attempt_count ≤ d'.attempt_count

same_refl : (d : WebhookDelivery) → IsSameDelivery d d
same_refl d = record {
  id = refl;
  endpoint = refl;
  invoice = refl;
  event = refl;
  payload = refl;
  attempts = omega arith;
}

same_trans :
    (a b c : WebhookDelivery) → IsSameDelivery a b → IsSameDelivery b c → IsSameDelivery a c
same_trans a b c h k = record {
  id = k.id ∙ h.id;
  endpoint = k.endpoint ∙ h.endpoint;
  invoice = k.invoice ∙ h.invoice;
  event = k.event ∙ h.event;
  payload = k.payload ∙ h.payload;
  attempts = omega (arith, h.attempts, k.attempts);
}

-- A delivery is still there.
abbrev Stays : WebhookDelivery → List WebhookDelivery → Type 0
Stays d ds = (d' : WebhookDelivery) × Memᴰ d' ds × IsSameDelivery d d'

update-Stays :
    (p : WebhookDelivery → Bool) (f : WebhookDelivery → WebhookDelivery)
    → ((x : WebhookDelivery) → IsSameDelivery x (f x))
    → (ds : List WebhookDelivery) (d : WebhookDelivery) → Memᴰ d ds
    → Stays d (update_rows p f ds)
unfolding update_rows
update-Stays p f keeps [] d m = elim m [ ]
update-Stays p f keeps (x ∷ ds) d (Memᴰ.head e) = (
  updated p f d,
  Memᴰ.head (ap (updated p f) e),
  elim (Bool-cases (p d)) [ inl h ↦ rw h (keeps d) | inr h ↦ rw h (same_refl d) ],
)
update-Stays p f keeps (x ∷ ds) d (Memᴰ.tail m) =
    let (d', n, same) = update-Stays p f keeps ds d m in (d', Memᴰ.tail n, same)

recorded_same :
    (now : Time) (n : ℕ) (sent : Sent) (d : WebhookDelivery)
    → IsSameDelivery d (recorded now n sent d)
recorded_same now n sent d = record {
  id = ground arith;
  endpoint = ground arith;
  invoice = ground arith;
  event = ground arith;
  payload = ground arith;
  attempts = ground arith;
}

fate :
    (acked : RowId → Bool) (id : RowId) (n : ℕ) (status : DeliveryStatus)
    → (is_delivered status ≡ true → acked id ≡ true) × (is_exhausted status ≡ true → 6 ≤ n)
    → (is_waiting status ≡ true)
      ⊎ ((status ≡ delivered) × (acked id ≡ true))
      ⊎ ((status ≡ exhausted) × (6 ≤ n))
fate acked id n pending h = inl refl
fate acked id n claimed h = inl refl
fate acked id n delivered h = inr (inl (refl, h.0 refl))
fate acked id n exhausted h = inr (inr (refl, h.1 refl))

Step-Stays :
    {q q' : Queue}
    → Step q q'
    → IsKept q
    → (d : WebhookDelivery) → Memᴰ d q.db.webhook_deliveries
    → Stays d q'.db.webhook_deliveries
Step-Stays {q} (queues jsonb now id ep i event payload x db' run) k d m =
    let (_, same) = create_ok jsonb now id ep i event payload q.db run in
    (d, rw same (mem-append_left d q.db.webhook_deliveries _ m), same_refl d)
Step-Stays {q} (claims locked now limit expiry rows db' run) k d m =
    let (p, same, _) = claim_ok locked now limit expiry q.db run in
    rw same (update-Stays p (lease expiry) leased q.db.webhook_deliveries d m)
  where
    leased : (x : WebhookDelivery) → IsSameDelivery x (lease expiry x)
    leased x = record {
      id = refl;
      endpoint = refl;
      invoice = refl;
      event = refl;
      payload = refl;
      attempts = omega arith;
    }
Step-Stays {q} (delivers env hmac_sha256 send before after row s cut same) k d m =
    let (mine, _) =
      cut-IsBehind q env.now before after row (sent_for env hmac_sha256 send row) q.db cut k in
    elim (deliver_one_on env hmac_sha256 send row s q.db same mine.begun) [
      | inl e ↦ (d, rw e m, same_refl d)
      | inr e ↦ rw e (
          update-Stays (has_id row.delivery.id) _
            (recorded_same env.now row.delivery.attempt_count (sent_for env hmac_sha256 send row))
            q.db.webhook_deliveries d m)
    ]
Step-Stays (crashes before lost after cut) k d m = (d, m, same_refl d)
Step-Stays (others db' same) k d m = (d, rw same m, same_refl d)

Reach-Stays :
    {q q' : Queue}
    → IsKept q
    → Reach q q'
    → (d : WebhookDelivery) → Memᴰ d q.db.webhook_deliveries
    → IsKept q' × Stays d q'.db.webhook_deliveries
Reach-Stays k here d m = (k, (d, m, same_refl d))
Reach-Stays k (next r st) d m =
    let (k', (d', n, same)) = Reach-Stays k r d m in
    let (d'', n', same') = Step-Stays st k' d' n in
    (Step-IsKept st k', (d'', n', same_trans d d' d'' same same'))

-- A delivery that was queued stays in the table, in one of three states.
delivery_stays :
    {q q' : Queue}
    → Reach start q
    → Reach q q'
    → (d : WebhookDelivery) → Memᴰ d q.db.webhook_deliveries
    → (d' : WebhookDelivery) × Memᴰ d' q'.db.webhook_deliveries
      × IsSameDelivery d d'
      × ((is_waiting d'.status ≡ true)
          ⊎ ((d'.status ≡ delivered) × (q'.acked d'.id ≡ true))
          ⊎ ((d'.status ≡ exhausted) × (6 ≤ d'.attempt_count)))
delivery_stays {q} {q'} r r' d m =
    let (k, (d', n, same)) = Reach-Stays (Reach-IsKept r) r' d m in
    let told = All-mem (IsTold q'.acked) q'.db.webhook_deliveries d' k.told n in
    (d', n, same, fate q'.acked d'.id d'.attempt_count d'.status told)

-- A delivery that waits can be claimed once its next attempt is not later than now.
claimable :
    (locked : RowId → Bool) (now : Time) (limit : ℕ) (expiry : Time) (db : Db) (d : WebhookDelivery)
    {e : WebhookEndpoint}
    → Memᴰ d db.webhook_deliveries
    → is_waiting d.status ≡ true
    → d.next_attempt_at ≤ now
    → locked d.id ≡ false
    → length db.webhook_deliveries ≤ limit
    → find_row (λ (x : WebhookEndpoint). x.id == d.webhook_endpoint_id) db.webhook_endpoints
      ≡ some e
    → IsClaimable locked now limit expiry db d e
claimable locked now limit expiry db d m waits due unlocked room has =
    mem-claim locked now limit expiry db d m (ground (arith, waits, due, unlocked))
      (omega (arith, room, rows_where-length (is_free locked now) db.webhook_deliveries)) has

-- No delivery is lost. However requests, workers, faults and crashes interleave from empty tables on,
-- a delivery that was queued stays in the table, for the same endpoint, invoice, event and payload,
-- and it is DELIVERED after an endpoint has answered an attempt of it with a status from 200 to 299,
-- or EXHAUSTED after at least six attempts were begun, or the query that claims returns it: at any
-- time that no next attempt in the table is later than, once all leases have run out, for a worker
-- with room for the whole table, if no other worker holds it and its endpoint is in the table.
pub delivery_kept :
    {q q' : Queue} (locked : RowId → Bool) (now : Time) (limit : ℕ) (expiry : Time)
    {e : WebhookEndpoint}
    → Reach start q
    → Reach q q'
    → (d : WebhookDelivery) → Memᴰ d q.db.webhook_deliveries
    → All (λ (x : WebhookDelivery). x.next_attempt_at ≤ now) q'.db.webhook_deliveries
    → locked d.id ≡ false
    → length q'.db.webhook_deliveries ≤ limit
    → find_row (λ (x : WebhookEndpoint). x.id == d.webhook_endpoint_id) q'.db.webhook_endpoints
      ≡ some e
    → (d' : WebhookDelivery) × Memᴰ d' q'.db.webhook_deliveries
      × IsSameDelivery d d'
      × (IsClaimable locked now limit expiry q'.db d' e
          ⊎ ((d'.status ≡ delivered) × (q'.acked d'.id ≡ true))
          ⊎ ((d'.status ≡ exhausted) × (6 ≤ d'.attempt_count)))
delivery_kept {q} {q'} locked now limit expiry {e} r r' d m due unlocked room has =
    let (d', n, same, state) = delivery_stays r r' d m in
    let time =
      All-mem (λ (x : WebhookDelivery). x.next_attempt_at ≤ now) q'.db.webhook_deliveries d' due
        n in
    (
      d',
      n,
      same,
      elim state [
        | inl waits ↦ inl (
            claimable locked now limit expiry q'.db d' n waits time (ap locked same.id ∙ unlocked)
              room
              (ap (λ i. find_row (λ (x : WebhookEndpoint). x.id == i) q'.db.webhook_endpoints)
                  same.endpoint
                ∙ has))
        | inr over ↦ inr over
      ],
    )
