-- ===== src/Payment/Pay/Commits.antt =====
-- The end of the second transaction of internal/payment/payment.go goes well.
use dodo_payments_backend.Base.{
  none, length, ◌≤◌, ℕ, ◌+◌, ◌≡◌, refl, sym, ap, false, Option, some, arith, find_row, update_rows,
}
use mathlib.Core.Path.{subst}
use dodo_payments_backend.Base.Result.{Result, ok, err}
use dodo_payments_backend.Base.Text.{char_count, Text}
use dodo_payments_backend.Db.{RowId, IdempotencyKey, PaymentAttempt, Invoice, Db, EventType}
use dodo_payments_backend.Db.Tx.{◌>>◌, ignore, pure, Error, Session, exec, finish, run_tx}
use dodo_payments_backend.Db.Tx.Inversion.{exec_calm, bind_step, opened}
use dodo_payments_backend.Db.Queries.Payment.{
  attempt_runs, is_payable, key_runs, completed_key, complete_idempotency_key,
}
use dodo_payments_backend.Db.Queries.Webhook.{active_endpoints}
use dodo_payments_backend.Http.{Env}
use dodo_payments_backend.Psp.{ChargeResult}
use dodo_payments_backend.Webhook.Outbox.{queue_deliveries}
use dodo_payments_backend.Webhook.Outbox.Effects.{queue_deliveries_ok}
use dodo_payments_backend.Webhook.Outbox.Total.{CanQueue, queue_deliveries_total}
use dodo_payments_backend.Payment.Types.{PayResponse}
use dodo_payments_backend.Payment.Finalize.{
  response_json, finalize, finalize_body, finalize_outcome, store_response,
}

-- The rows that the claim of a request has left.
pub record AreReady (b : RowId) (idem : IdempotencyKey) (attempt : PaymentAttempt)
    (invoice : Invoice) (ids : ℕ → RowId) (drawn : ℕ) (db : Db) : Type 0 where
  pub key : IdempotencyKey
  pub running : PaymentAttempt
  pub payable : Invoice
  pub has_key : find_row (key_runs idem.id) db.idempotency_keys ≡ some key
  pub has_attempt : find_row (attempt_runs attempt.id) db.payment_attempts ≡ some running
  pub has_invoice : find_row (is_payable invoice.id b) db.invoices ≡ some payable
  pub can_queue : CanQueue ids invoice.id drawn (length (active_endpoints b db)) db

-- The texts of the PSP fit into their columns, VARCHAR(100) and VARCHAR(255).
abbrev pub FitColumns : Option ChargeResult → Type 0
FitColumns none = Unit {0}
FitColumns (some r) = (char_count r.failure_code ≤ 100) × (char_count r.psp_ref ≤ 255)

abbrev pub Answers : ℕ → Result Error (ℕ × Text) × Session → Type 0
Answers st (ok (status, body), s) = status ≡ st
Answers st (err e, s) = ⊥

module _ (env : Env) (b : RowId) (idem : IdempotencyKey) (attempt : PaymentAttempt)
    (invoice : Invoice) (calm : (n : ℕ) → env.fault n ≡ false) where
  -- The end that the outcomes share: the response is stored, and the transaction commits.
  store-Answers :
      (st : ℕ) (resp : PayResponse) (before : Db) (t : Session) {k : IdempotencyKey}
      → t.aborted ≡ false
      → find_row (key_runs idem.id) t.db.idempotency_keys ≡ some k
      → Answers st (
          finish env.fault env.lost before (store_response env b idem attempt invoice (st, resp) t))
  unfolding store_response finish
  store-Answers st resp before t {k} live has =
      let body = env.marshal (response_json resp) in
      let q = complete_idempotency_key env.jsonb env.now idem.id st body in
      let stored : q t.db
          ≡ ok (
            completed_key env.jsonb env.now st body k,
            record t.db {
              idempotency_keys =
                  update_rows (key_runs idem.id) (completed_key env.jsonb env.now st body)
                    t.db.idempotency_keys;
            },
          ) =
        unfold complete_idempotency_key in ground (arith, has) in
      let step =
        bind_step (exec env.fault q) (λ _. pure (st, body)) t
          (exec_calm env.fault q t (calm t.ticks) live stored) in
      subst (λ r. Answers st (finish env.fault env.lost before r)) (sym step)
        (rw (live, calm (t.ticks + 1)) refl)

  pub stored-Answers :
      (o : Option ChargeResult) (st : ℕ) (resp : PayResponse) (s t : Session) {k : IdempotencyKey}
      → finalize_outcome env b idem attempt invoice o (opened s) ≡ (ok (st, resp), t)
      → t.aborted ≡ false
      → find_row (key_runs idem.id) t.db.idempotency_keys ≡ some k
      → Answers st (finalize env b idem attempt invoice o s)
  unfolding finalize finalize_body run_tx
  stored-Answers o st resp s t went live has =
      let body =
        bind_step (finalize_outcome env b idem attempt invoice o)
          (store_response env b idem attempt invoice) (opened s) went in
      rw (calm s.ticks) (
        subst (λ r. Answers st (finish env.fault env.lost s.db r)) (sym body)
          (store-Answers st resp s.db t live has))

  -- The event of the outcome is queued, and the response given.
  abbrev pub Responds :
      Session → ℕ × PayResponse → Result Error (ℕ × PayResponse) × Session → Type 0
  Responds s resp r =
      (t : Session) × (r ≡ (ok resp, t))
      × (t.aborted ≡ false)
      × (t.db.idempotency_keys ≡ s.db.idempotency_keys)

  pub queued-Responds :
      (event : EventType) (payload : Text) (resp : ℕ × PayResponse) (s : Session)
      → s.aborted ≡ false
      → CanQueue env.ids invoice.id s.drawn (length (active_endpoints b s.db)) s.db
      → Responds s resp ((ignore (queue_deliveries env invoice.id event payload b) >> pure resp) s)
  queued-Responds event payload resp s live c =
      let (t, run, good) = queue_deliveries_total env invoice.id event payload calm b s live c in
      (
        t,
        ap (λ r. (ok resp, r.1)) run,
        good,
        ap (λ (d : Db). d.idempotency_keys)
            (queue_deliveries_ok env invoice.id event payload b s run),
      )
