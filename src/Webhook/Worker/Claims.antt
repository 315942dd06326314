-- ===== src/Webhook/Worker/Claims.antt =====
-- Which deliveries a worker claims (`ClaimDueWebhookDeliveries`, which `ProcessBatch` of
-- internal/webhook/webhook.go calls).
use dodo_payments_backend.Base.{
  ◌+◌, ◌≤◌, ◌⊎◌, ℕ, zero, suc, ◌≡◌, ◌≢◌, inl, inr, refl, sym, Bool, true, false, not, ◌&&◌, List,
  [], ◌∷◌, ◌==◌, arith, All, any_row, find_row, take, Bool-cases, Option-cases,
}
use mathlib.Core.Path.{subst}
use mathlib.Core.List.{Memᴰ}
use dodo_payments_backend.Base.Rows.{AllPairs, All-map, AllPairs-mem}
use dodo_payments_backend.Base.Members.{rows_where-All, sort_by-All}
use dodo_payments_backend.Base.Result.{ok}
use dodo_payments_backend.Db.{
  DeliveryStatus, pending, claimed, delivered, exhausted, RowId, Time, WebhookDelivery,
  WebhookEndpoint, Db,
}
use dodo_payments_backend.Db.Queries.Webhook.{
  is_waiting, is_due, ClaimedRow, lease, claim_rows, due_deliveries, claim_due_webhook_deliveries,
}

module _ {A : Type 0} (P : A → Type 0) where
  take-All : (n : ℕ) (xs : List A) → All P xs → All P (take n xs)
  take-All zero xs h = tt
  take-All (suc n) [] h = tt
  take-All (suc n) (x ∷ xs) h = (h.0, take-All n xs h.1)

  -- A row that a test finds, with what all rows have.
  any_row-All :
      (p : A → Bool) (xs : List A) → All P xs → any_row p xs ≡ true → (x : A) × P x × (p x ≡ true)
  unfolding any_row
  any_row-All p [] h e = absurd (ground arith)
  any_row-All p (x ∷ xs) h e = elim (Bool-cases (p x)) [
    | inl t ↦ (x, h.0, t)
    | inr f ↦ any_row-All p xs h.1 (rw f at e)
  ]

pub members : {A : Type 0} (xs : List A) → All (λ x. Memᴰ x xs) xs
members [] = tt
members (x ∷ xs) = (
  Memᴰ.head refl,
  All-map (λ y. Memᴰ y xs) (λ y. Memᴰ y (x ∷ xs)) xs (λ y m. Memᴰ.tail m) (members xs),
)

abbrev pub HaveOwnIds : List WebhookDelivery → Type 0
HaveOwnIds ds = AllPairs (λ x y. x.id ≢ y.id) ds

pub same_row :
    (ds : List WebhookDelivery) (x y : WebhookDelivery)
    → HaveOwnIds ds
    → Memᴰ x ds
    → Memᴰ y ds
    → x.id ≡ y.id
    → x ≡ y
same_row ds x y h m n e = elim (AllPairs-mem (λ x y. x.id ≢ y.id) ds x y h m n) [
  | inl same ↦ same
  | inr (inl ne) ↦ absurd (ne e)
  | inr (inr ne) ↦ absurd (ne (sym e))
]

-- A row is a lease on a delivery of the table that passes the test.
abbrev IsLeaseOf : (WebhookDelivery → Bool) → Time → List WebhookDelivery → ClaimedRow → Type 0
IsLeaseOf chosen expiry ds r =
    (d : WebhookDelivery) × Memᴰ d ds × (chosen d ≡ true) × (r.delivery ≡ lease expiry d)

claim_rows-IsLeaseOf :
    (chosen : WebhookDelivery → Bool) (expiry : Time) (endpoints : List WebhookEndpoint)
    (ds : List WebhookDelivery)
    → All (IsLeaseOf chosen expiry ds) (claim_rows chosen expiry endpoints ds).0
unfolding claim_rows
claim_rows-IsLeaseOf chosen expiry endpoints [] = tt
claim_rows-IsLeaseOf chosen expiry endpoints (d ∷ ds) =
    let rest =
      All-map (IsLeaseOf chosen expiry ds) (IsLeaseOf chosen expiry (d ∷ ds)) _
        (λ r (x, m, c, e). (x, Memᴰ.tail m, c, e))
        (claim_rows-IsLeaseOf chosen expiry endpoints ds) in
    elim (Bool-cases (chosen d)) [
      | inr f ↦ rw f rest
      | inl t ↦
          elim (Option-cases
            (find_row (λ (e : WebhookEndpoint). e.id == d.webhook_endpoint_id) endpoints)) [
              | inl n ↦ rw (t, n) rest
              | inr (ep, s) ↦ rw (t, s) ((d, Memᴰ.head refl, t, refl), rest)
            ]
    ]

-- What a claim has found of a delivery, and what it makes of it.
pub record IsClaim (locked : RowId → Bool) (now expiry : Time) (d c : WebhookDelivery)
    : Type 0 where
  pub waited : (d.status ≡ pending) ⊎ (d.status ≡ claimed)
  pub due : d.next_attempt_at ≤ now
  pub unlocked : locked d.id ≡ false
  pub same_id : c.id ≡ d.id
  pub same_endpoint : c.webhook_endpoint_id ≡ d.webhook_endpoint_id
  pub same_payload : c.payload ≡ d.payload
  pub in_progress : c.status ≡ claimed
  pub one_more : c.attempt_count ≡ d.attempt_count + 1
  pub leased : c.next_attempt_at ≡ expiry

waiting_cases : (st : DeliveryStatus) → is_waiting st ≡ true → (st ≡ pending) ⊎ (st ≡ claimed)
waiting_cases pending h = inl refl
waiting_cases claimed h = inr refl
waiting_cases delivered h = absurd (ground arith)
waiting_cases exhausted h = absurd (ground arith)

lease-IsClaim :
    {locked : RowId → Bool} {now expiry : Time} (d : WebhookDelivery)
    → is_due now d ≡ true
    → locked d.id ≡ false
    → IsClaim locked now expiry d (lease expiry d)
lease-IsClaim d h free = record {
  waited = waiting_cases d.status (ground (arith, h));
  due = ground (arith, h);
  unlocked = free;
  same_id = refl;
  same_endpoint = refl;
  same_payload = refl;
  in_progress = refl;
  one_more = refl;
  leased = refl;
}

-- If the ids of the deliveries differ, every delivery that a batch claims was PENDING, or
-- PROCESSING, its next attempt was not later than now, so that an earlier lease had run out, and no
-- other worker held it; it comes PROCESSING until the new lease runs out, with one attempt more,
-- the same endpoint and the same payload. A DELIVERED or EXHAUSTED one is never claimed.
pub claim_due_webhook_deliveries_lem :
    (locked : RowId → Bool) (now : Time) (limit : ℕ) (expiry : Time) (db : Db)
    {rows : List ClaimedRow} {db' : Db}
    → HaveOwnIds db.webhook_deliveries
    → claim_due_webhook_deliveries locked now limit expiry db ≡ ok (rows, db')
    → All
        (λ r.
          (d : WebhookDelivery) × Memᴰ d db.webhook_deliveries
          × IsClaim locked now expiry d r.delivery)
        rows
unfolding claim_due_webhook_deliveries due_deliveries
claim_due_webhook_deliveries_lem locked now limit expiry db {rows} own h =
    let ds = db.webhook_deliveries in
    let due = due_deliveries locked now limit ds in
    let P : WebhookDelivery → Type 0 =
      λ x. Memᴰ x ds × ((is_due now x && not (locked x.id)) ≡ true) in
    let due_All : All P due = take-All P limit _ (
      sort_by-All P (λ d. d.next_attempt_at) _
        (rows_where-All (λ x. Memᴰ x ds) (λ d. is_due now d && not (locked d.id)) ds
          (members ds))) in
    let chosen = λ (d : WebhookDelivery). any_row (λ (x : WebhookDelivery). x.id == d.id) due in
    let same : (claim_rows chosen expiry db.webhook_endpoints ds).0 ≡ rows = ground (arith, h) in
    subst (All _) same (
      All-map (IsLeaseOf chosen expiry ds) _ _
        (λ r (d, m, c, e).
          let (x, (n, live), eq) =
            any_row-All P (λ (x : WebhookDelivery). x.id == d.id) due due_All c in
          let is : x ≡ d = same_row ds x d own n m (ground arith) in
          let found : (is_due now d ≡ true) × (locked d.id ≡ false) = ground (arith, is, live) in
          (d, m, rw e (lease-IsClaim d found.0 found.1)))
        (claim_rows-IsLeaseOf chosen expiry db.webhook_endpoints ds))
