-- ===== src/Webhook/Queue/Kept.antt =====
-- The invariant of the deliveries under concurrency (internal/webhook/webhook.go).
use dodo_payments_backend.Base.{
  ◌≤◌, ◌≡◌, ◌≢◌, refl, ◌∙◌, Bool, true, false, List, [], ◌∷◌, ◌++◌, ◌==◌, arith, All, any_row,
  update_rows,
}
use dodo_payments_backend.Base.Rows.{
  All-map, All-append, All-update_rows, AllPairs-append, AllPairs-update_rows, All-of_any_row,
  any_row-append, any_row-update_rows,
}
use dodo_payments_backend.Base.Result.{ok}
use dodo_payments_backend.Base.Text.{Text}
use dodo_payments_backend.Db.{RowId, Time, EventType, WebhookDelivery, Db}
use dodo_payments_backend.Db.Queries.Webhook.{ClaimedRow, new_delivery, create_webhook_delivery}
use dodo_payments_backend.Webhook.Worker.Claims.{HaveOwnIds}
use dodo_payments_backend.Webhook.Queue.{Queue}
use dodo_payments_backend.Webhook.Queue.Rows.{is_delivered, is_exhausted}

-- DELIVERED only after an answer from 200 to 299, and EXHAUSTED only after six attempts.
abbrev pub IsTold : (RowId → Bool) → WebhookDelivery → Type 0
IsTold acked d =
    (is_delivered d.status ≡ true → acked d.id ≡ true)
    × (is_exhausted d.status ≡ true → 6 ≤ d.attempt_count)

abbrev pub IsCounted : ClaimedRow → WebhookDelivery → Type 0
IsCounted r d = d.id ≡ r.delivery.id → r.delivery.attempt_count ≤ d.attempt_count

abbrev pub has_id : RowId → WebhookDelivery → Bool
has_id id d = d.id == id

-- A claimed row has an attempt that the table has counted.
pub record IsBehind (ds : List WebhookDelivery) (r : ClaimedRow) : Type 0 where
  pub begun : 1 ≤ r.delivery.attempt_count
  pub present : any_row (has_id r.delivery.id) ds ≡ true
  pub counted : All (IsCounted r) ds

pub record IsKept (q : Queue) : Type 0 where
  pub own : HaveOwnIds q.db.webhook_deliveries
  pub told : All (IsTold q.acked) q.db.webhook_deliveries
  pub behind : All (IsBehind q.db.webhook_deliveries) q.claimed

module _ {A : Type 0} (P : A → Type 0) where
  pub All-join : (xs ys : List A) → All P xs → All P ys → All P (xs ++ ys)
  All-join [] ys h k = k
  All-join (x ∷ xs) ys h k = (h.0, All-join xs ys h.1 k)

  pub All-split : (xs ys : List A) → All P (xs ++ ys) → All P xs × All P ys
  All-split [] ys h = (tt, h)
  All-split (x ∷ xs) ys h = let (a, b) = All-split xs ys h.1 in ((h.0, a), b)

pub create_ok :
    (jsonb : Text → Text) (now : Time) (id ep i : RowId) (event : EventType) (payload : Text)
    (db : Db) {d : WebhookDelivery} {db' : Db}
    → create_webhook_delivery jsonb now id ep i event payload db ≡ ok (d, db')
    → (any_row (has_id id) db.webhook_deliveries ≡ false)
      × (db'.webhook_deliveries
          ≡ db.webhook_deliveries ++ new_delivery jsonb now id ep i event payload ∷ [])
unfolding create_webhook_delivery
create_ok jsonb now id ep i event payload db h = ground arith

-- A new delivery at the end.
pub queue-IsKept :
    (q : Queue) (d : WebhookDelivery) (db' : Db)
    → is_delivered d.status ≡ false
    → is_exhausted d.status ≡ false
    → any_row (has_id d.id) q.db.webhook_deliveries ≡ false
    → db'.webhook_deliveries ≡ q.db.webhook_deliveries ++ d ∷ []
    → IsKept q
    → IsKept (record q { db = db' })
queue-IsKept q d db' fresh alive absent same k =
    let ds = q.db.webhook_deliveries in
    rw same (record {
      own =
          AllPairs-append (λ x y. x.id ≢ y.id) ds d k.own
            (All-map (λ x. has_id d.id x ≡ false) _ ds (λ x e. ground arith)
              (All-of_any_row (has_id d.id) ds absent));
      told = All-append (IsTold q.acked) ds d k.told (ground arith);
      behind =
          All-map (IsBehind ds) _ q.claimed
            (λ r b. record {
              begun = b.begun;
              present = any_row-append (has_id r.delivery.id) ds d b.present;
              counted =
                  All-append (IsCounted r) ds d b.counted
                    (λ e. absurd (clash r.delivery.id e b.present));
            })
            k.behind;
    })
  where
    clash : (id : RowId) → d.id ≡ id → any_row (has_id id) q.db.webhook_deliveries ≡ true → ⊥
    clash id e there = let gone = rw e at absent in ground arith

-- An update of rows that keeps ids and counts no attempt back.
pub IsBehind-update :
    (p : WebhookDelivery → Bool) (f : WebhookDelivery → WebhookDelivery)
    → ((x : WebhookDelivery) → ((f x).id ≡ x.id) × (x.attempt_count ≤ (f x).attempt_count))
    → (ds : List WebhookDelivery) (r : ClaimedRow) → IsBehind ds r
    → IsBehind (update_rows p f ds) r
IsBehind-update p f keeps ds r b = record {
  begun = b.begun;
  present =
      any_row-update_rows (has_id r.delivery.id) p f ds (λ x. rw (keeps x).0 refl) ∙ b.present;
  counted =
      All-update_rows (IsCounted r) (IsCounted r) p f ds (λ x c. ground (arith, c, keeps x))
        b.counted;
}

pub own-update :
    (p : WebhookDelivery → Bool) (f : WebhookDelivery → WebhookDelivery)
    → ((x : WebhookDelivery) → (f x).id ≡ x.id)
    → (ds : List WebhookDelivery) → HaveOwnIds ds
    → HaveOwnIds (update_rows p f ds)
own-update p f keeps ds h =
    AllPairs-update_rows (λ x y. x.id ≢ y.id) p f ds (λ x y ne. ground (arith, keeps x, keeps y)) h
