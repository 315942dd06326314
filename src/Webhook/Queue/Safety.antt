-- ===== src/Webhook/Queue/Safety.antt =====
-- Every step of requests and workers keeps the invariant of the deliveries (internal/webhook/webhook.go).
use dodo_payments_backend.Base.{
  ℕ, ◌≤◌, ◌≡◌, ◌⊎◌, inl, inr, refl, ◌∙◌, Bool, true, ◌&&◌, ◌||◌, List, ◌∷◌, ◌++◌, ◌==◌, arith, All,
  update_rows, Bool-cases, Option-cases,
}
use mathlib.Core.List.{Memᴰ}
use dodo_payments_backend.Base.Rows.{
  updated, All-map, All-zip, All-update_rows, any_row-update_rows,
}
use dodo_payments_backend.Base.Members.{any_row-of_mem}
use dodo_payments_backend.Db.{RowId, Time, WebhookDelivery, Db}
use dodo_payments_backend.Db.Queries.Webhook.{ClaimedRow, lease, new_delivery}
use dodo_payments_backend.Webhook.Worker.{Sent, deliver_one}
use dodo_payments_backend.Webhook.Worker.Delivers.{is_success, schedule, recorded}
use dodo_payments_backend.Webhook.Worker.Claims.{members, same_row}
use dodo_payments_backend.Webhook.Queue.{
  Queue, start, sent_for, Step, queues, claims, delivers, crashes, others, Reach, here, next,
}
use dodo_payments_backend.Webhook.Queue.Rows.{IsTaken, claim_ok, deliver_one_on}
use dodo_payments_backend.Webhook.Queue.Kept.{
  IsTold, IsCounted, has_id, IsBehind, IsKept, All-join, All-split, create_ok, queue-IsKept,
  IsBehind-update, own-update,
}

-- A claim.
claim-IsKept :
    (q : Queue) (p : WebhookDelivery → Bool) (expiry : Time) (rows : List ClaimedRow) (db' : Db)
    → db'.webhook_deliveries ≡ update_rows p (lease expiry) q.db.webhook_deliveries
    → All (IsTaken p expiry q.db.webhook_deliveries) rows
    → IsKept q
    → IsKept (record q { db = db'; claimed = q.claimed ++ rows })
claim-IsKept q p expiry rows db' same taken k =
    let ds = q.db.webhook_deliveries in
    let grows = IsBehind-update p (lease expiry) (λ x. (refl, omega arith)) ds in
    rw same (record {
      own = own-update p (lease expiry) (λ x. refl) ds k.own;
      told =
          All-update_rows (IsTold q.acked) (IsTold q.acked) p (lease expiry) ds
            (λ x t. elim (Bool-cases (p x)) [ inl e ↦ rw e (ground arith) | inr e ↦ rw e t ])
            k.told;
      behind =
          All-join (IsBehind (update_rows p (lease expiry) ds)) q.claimed rows
            (All-map (IsBehind ds) _ q.claimed grows k.behind)
            (All-map (IsTaken p expiry ds) _ rows fresh taken);
    })
  where
    fresh :
        (r : ClaimedRow)
        → IsTaken p expiry q.db.webhook_deliveries r
        → IsBehind (update_rows p (lease expiry) q.db.webhook_deliveries) r
    fresh r (d, m, hit, is) =
        let ds = q.db.webhook_deliveries in
        rw is (record {
          begun = omega arith;
          present =
              any_row-update_rows (has_id d.id) p (lease expiry) ds (λ x. refl)
              ∙ any_row-of_mem (has_id d.id) d ds m (ground arith);
          counted =
              All-update_rows (λ x. Memᴰ x ds) _ p (lease expiry) ds
                (λ x n e.
                  let x_id : x.id ≡ d.id = ground arith in
                  let one : x ≡ d = same_row ds x d k.own n m x_id in rw (one, hit) (omega arith))
                (members ds);
        })

-- What an attempt records of a delivery.
recorded_lem :
    (now : Time) (n : ℕ) (sent : Sent) (d : WebhookDelivery)
    → ((recorded now n sent d).id ≡ d.id)
      × ((recorded now n sent d).attempt_count ≡ d.attempt_count)
recorded_lem now n sent d = ground arith

told_recorded :
    (acked : RowId → Bool) (now : Time) (n : ℕ) (sent : Sent) (d : WebhookDelivery)
    → 1 ≤ n
    → n ≤ d.attempt_count
    → (is_success sent ≡ true → acked d.id ≡ true)
    → IsTold acked (recorded now n sent d)
told_recorded acked now n sent d h k good = elim (Bool-cases (is_success sent)) [
  | inl e ↦ rw e ((λ _. good e), (λ x. ground arith))
  | inr e ↦ elim (Option-cases (schedule n)) [
    | inl z ↦ rw (e, z) ((λ x. ground arith), (λ x. ground arith))
    | inr (delay, z) ↦ rw (e, z) (ground arith)
  ]
]

-- An attempt.
module _ (q : Queue) (now : Time) (before after : List ClaimedRow) (row : ClaimedRow) (sent : Sent)
    (db' : Db) (cut : q.claimed ≡ before ++ row ∷ after) (k : IsKept q) where
  abbrev acked' : RowId → Bool
  acked' x = q.acked x || (x == row.delivery.id && is_success sent)

  abbrev ds : List WebhookDelivery
  ds = q.db.webhook_deliveries

  abbrev f : WebhookDelivery → WebhookDelivery
  f = recorded now row.delivery.attempt_count sent

  pub cut-IsBehind : IsBehind ds row × All (IsBehind ds) (before ++ after)
  cut-IsBehind =
      let (front, back) = All-split (IsBehind ds) before (row ∷ after) (rw cut at k.behind) in
      (back.0, All-join (IsBehind ds) before after front back.1)

  still_told : (x : WebhookDelivery) → IsTold q.acked x → IsTold acked' x
  still_told x t = ((λ e. ground (arith, t.0 e)), t.1)

  now_told :
      (x : WebhookDelivery)
      → IsTold q.acked x × IsCounted row x
      → IsTold acked' (updated (has_id row.delivery.id) f x)
  now_told x (t, c) = elim (Bool-cases (has_id row.delivery.id x)) [
    | inl e ↦
        let mine : x.id ≡ row.delivery.id = ground arith in
        rw e (
          told_recorded acked' now row.delivery.attempt_count sent x cut-IsBehind.0.begun (c mine)
            (λ good. ground arith))
    | inr e ↦ rw e (still_told x t)
  ]

  deliver-IsKept :
      (db'.webhook_deliveries ≡ ds)
        ⊎ (db'.webhook_deliveries ≡ update_rows (λ d. d.id == row.delivery.id) f ds)
      → IsKept (record { db = db'; claimed = before ++ after; acked = acked' })
  deliver-IsKept (inl same) = rw same (record {
    own = k.own;
    told = All-map (IsTold q.acked) (IsTold acked') ds still_told k.told;
    behind = cut-IsBehind.1;
  })
  deliver-IsKept (inr wrote) =
      let keeps = recorded_lem now row.delivery.attempt_count sent in
      rw wrote (record {
        own = own-update (has_id row.delivery.id) f (λ x. (keeps x).0) ds k.own;
        told =
            All-update_rows (λ x. IsTold q.acked x × IsCounted row x) (IsTold acked')
              (has_id row.delivery.id) f ds now_told
              (All-zip (IsTold q.acked) (IsCounted row) _ ds (λ x t c. (t, c)) k.told
                cut-IsBehind.0.counted);
        behind =
            All-map (IsBehind ds) _ (before ++ after)
              (IsBehind-update (has_id row.delivery.id) f
                (λ x. ((keeps x).0, omega (arith, (keeps x).1))) ds)
              cut-IsBehind.1;
      })

start-IsKept : IsKept start
start-IsKept = record { own = tt; told = tt; behind = tt }

pub Step-IsKept : {q q' : Queue} → Step q q' → IsKept q → IsKept q'
Step-IsKept {q} (queues jsonb now id ep i event payload d db' run) k =
    let (absent, same) = create_ok jsonb now id ep i event payload q.db run in
    queue-IsKept q (new_delivery jsonb now id ep i event payload) db' refl refl absent same k
Step-IsKept {q} (claims locked now limit expiry rows db' run) k =
    let (p, same, taken) = claim_ok locked now limit expiry q.db run in
    claim-IsKept q p expiry rows db' same taken k
Step-IsKept {q} (delivers env hmac_sha256 send before after row s cut same) k =
    let (mine, _) =
      cut-IsBehind q env.now before after row (sent_for env hmac_sha256 send row) q.db cut k in
    deliver-IsKept q env.now before after row (sent_for env hmac_sha256 send row)
      (deliver_one env hmac_sha256 send row s).db cut k
      (deliver_one_on env hmac_sha256 send row s q.db same mine.begun)
Step-IsKept {q} (crashes before lost after cut) k =
    let ds = q.db.webhook_deliveries in
    let (front, back) = All-split (IsBehind ds) before (lost ++ after) (rw cut at k.behind) in
    let (_, rest) = All-split (IsBehind ds) lost after back in
    record { own = k.own; told = k.told; behind = All-join (IsBehind ds) before after front rest }
Step-IsKept {q} (others db' same) k =
    rw same (record { own = k.own; told = k.told; behind = k.behind })

pub Reach-IsKept : {q : Queue} → Reach start q → IsKept q
Reach-IsKept here = start-IsKept
Reach-IsKept (next r st) = Step-IsKept st (Reach-IsKept r)
