-- ===== src/Payment/Finalize/Effects.antt =====
-- What `finalize` of internal/payment/payment.go does to the tables when it goes well.
use dodo_payments_backend.Base.{
  ℕ, ◌≡◌, true, false, Option, none, some, ◌++◌, arith, inl, inr, ◌⊎◌, update_rows, Bool-cases,
}
use mathlib.Core.List.{append-nil}
use dodo_payments_backend.Base.Result.{Result, ok, err, Result-cases}
use dodo_payments_backend.Base.Text.{Text, text, text_eq}
use dodo_payments_backend.Db.{
  EventType, RowId, IdempotencyKey, PaymentAttempt, Invoice, Db, invoice_paid,
  invoice_payment_failed,
}
use dodo_payments_backend.Db.Tx.{settle, Error, Session, exec}
use dodo_payments_backend.Db.Tx.Inversion.{bind_ok, exec_ok, run_tx_ok, opened}
use dodo_payments_backend.Db.Queries.Payment.{
  attempt_runs, is_payable, paid_invoice, key_runs, completed_key, mark_payment_attempt_succeeded,
  mark_payment_attempt_failed, mark_payment_attempt_unknown, mark_invoice_paid,
  complete_idempotency_key,
}
use dodo_payments_backend.Db.Queries.Webhook.{active_endpoints}
use dodo_payments_backend.Http.{Env}
use dodo_payments_backend.Psp.{ChargeResult}
use dodo_payments_backend.Webhook.Outbox.{queue_deliveries}
use dodo_payments_backend.Webhook.Outbox.Effects.{queued, queue_deliveries_ok, queue_deliveries_err}
use dodo_payments_backend.Payment.Types.{PayResponse}
use dodo_payments_backend.Payment.Finalize.{
  respond_succeeded, pay_and_respond, respond_failed, failed_payload, paid_payload,
  finalize_unknown, finalize_failed, finalize_succeeded, finalize_outcome, store_response,
  finalize_body, finalize,
}
use dodo_payments_backend.Payment.Finalize.Verdict.{
  Verdict, uncertain, declined, charged, verdict, status_of, resolved, invoices_after, announced,
  settled_db,
}

module _ (env : Env) (business_id : RowId) (idem : IdempotencyKey) (attempt : PaymentAttempt)
    (invoice : Invoice) where
  mark_failed_ok :
      (r : ChargeResult) (db : Db) {a : PaymentAttempt} {db' : Db}
      → mark_payment_attempt_failed env.now attempt.id r.failure_code (text "payment_declined") db
        ≡ ok (a, db')
      → db' ≡ record db {
        payment_attempts =
            update_rows
              (attempt_runs attempt.id)
              (resolved env business_id idem attempt invoice (declined r))
              db.payment_attempts;
      }
  unfolding mark_payment_attempt_failed
  mark_failed_ok r db h = ground arith

  mark_succeeded_ok :
      (r : ChargeResult) (db : Db) {a : PaymentAttempt} {db' : Db}
      → mark_payment_attempt_succeeded env.now attempt.id r.psp_ref db ≡ ok (a, db')
      → db' ≡ record db {
        payment_attempts =
            update_rows
              (attempt_runs attempt.id)
              (resolved env business_id idem attempt invoice (charged r))
              db.payment_attempts;
      }
  unfolding mark_payment_attempt_succeeded
  mark_succeeded_ok r db h = ground arith

  mark_paid_ok :
      (db : Db) {v : Invoice} {db' : Db}
      → mark_invoice_paid env.now invoice.id business_id db ≡ ok (v, db')
      → db' ≡ record db {
        invoices =
            update_rows (is_payable invoice.id business_id) (paid_invoice env.now) db.invoices;
      }
  unfolding mark_invoice_paid
  mark_paid_ok db h = ground arith

  -- The branch went well: unless the queueing failed and aborted it, the tables are settled.
  abbrev pub Settles : Verdict → Session → Result Error (ℕ × PayResponse) × Session → Type 0
  Settles v s (ok (status, resp), t) =
      ((t.aborted ≡ true) ⊎ (t.db ≡ settled_db env business_id idem attempt invoice v s.drawn s.db))
      × (status ≡ status_of v)
  Settles v s (err e, t) = Unit {0}

  module _ (event_payload : Text) where
    -- The queueing of the payload, whose error is dropped: it went well, or the transaction is
    -- aborted.
    ignored :
        (event : EventType) (s : Session)
        → let t = (queue_deliveries env invoice.id event event_payload business_id s).1 in
          (t.aborted ≡ true)
          ⊎ (t.db ≡ record s.db {
            webhook_deliveries =
                s.db.webhook_deliveries
                ++ queued env invoice.id event event_payload s.drawn
                    (active_endpoints business_id s.db);
          })
    ignored event s =
        let r = queue_deliveries env invoice.id event event_payload business_id s in
        elim (Result-cases r.0) [
          | inl (u, e) ↦ inr (
              queue_deliveries_ok env invoice.id event event_payload business_id s
                (λ i. (e i, r.1)))
          | inr (x, e) ↦ inl (
              queue_deliveries_err env invoice.id event event_payload business_id s
                (λ i. (e i, r.1)))
        ]

  unknown_Settles :
      (s : Session) {st : ℕ} {resp : PayResponse} {t : Session}
      → finalize_unknown env business_id idem attempt invoice s ≡ (ok (st, resp), t)
      → Settles uncertain s (ok (st, resp), t)
  unfolding finalize_unknown exec settle mark_payment_attempt_unknown
  unknown_Settles s h = ground (arith, append-nil s.db.webhook_deliveries)

  failed_Settles :
      (r : ChargeResult) (s : Session) {st : ℕ} {resp : PayResponse} {t : Session}
      → finalize_failed env business_id idem attempt invoice r s ≡ (ok (st, resp), t)
      → Settles (declined r) s (ok (st, resp), t)
  unfolding finalize_failed respond_failed
  failed_Settles r s h =
      let q =
        mark_payment_attempt_failed env.now attempt.id r.failure_code (text "payment_declined") in
      let (a, t₁, marked, rest) =
        bind_ok (exec env.fault q) (λ _. respond_failed env business_id idem attempt invoice r) s
          h in
      let (query, _, _, drawn) = exec_ok env.fault q s marked in
      ground (
        arith,
        mark_failed_ok r s.db query,
        drawn,
        ignored (failed_payload env business_id idem attempt invoice r) invoice_payment_failed t₁,
      )

  succeeded_Settles :
      (r : ChargeResult) (s : Session) {st : ℕ} {resp : PayResponse} {t : Session}
      → finalize_succeeded env business_id idem attempt invoice r s ≡ (ok (st, resp), t)
      → Settles (charged r) s (ok (st, resp), t)
  unfolding finalize_succeeded pay_and_respond respond_succeeded
  succeeded_Settles r s h =
      let q = mark_payment_attempt_succeeded env.now attempt.id r.psp_ref in
      let p = mark_invoice_paid env.now invoice.id business_id in
      let (a, t₁, marked, rest) =
        bind_ok (exec env.fault q) (λ _. pay_and_respond env business_id idem attempt invoice r) s
          h in
      let (query, _, _, drawn) = exec_ok env.fault q s marked in
      let (v, t₂, paid_now, last) =
        bind_ok (exec env.fault p) (λ _. respond_succeeded env business_id idem attempt invoice r)
          t₁ rest in
      let (query₂, _, _, drawn₂) = exec_ok env.fault p t₁ paid_now in
      ground (
        arith,
        mark_succeeded_ok r s.db query,
        mark_paid_ok t₁.db query₂,
        drawn,
        drawn₂,
        ignored (paid_payload env business_id idem attempt invoice r) invoice_paid t₂,
      )

  pub outcome_Settles :
      (o : Option ChargeResult) (s : Session) {st : ℕ} {resp : PayResponse} {t : Session}
      → finalize_outcome env business_id idem attempt invoice o s ≡ (ok (st, resp), t)
      → Settles (verdict o) s (ok (st, resp), t)
  unfolding finalize_outcome
  outcome_Settles none s h = unknown_Settles s h
  outcome_Settles (some r) s h = elim (Bool-cases (text_eq r.status (text "failed"))) [
    | inl e ↦ rw e (failed_Settles r s (rw e at h))
    | inr e ↦ rw e (succeeded_Settles r s (rw e at h))
  ]

  -- The tables after a transaction that went well.
  abbrev pub finalized_db : Verdict → ℕ → Text → Session → Db
  finalized_db v status body s = record s.db {
    invoices = invoices_after env business_id idem attempt invoice v s.db.invoices;
    idempotency_keys =
        update_rows (key_runs idem.id) (completed_key env.jsonb env.now status body)
          s.db.idempotency_keys;
    payment_attempts =
        update_rows (attempt_runs attempt.id) (resolved env business_id idem attempt invoice v)
          s.db.payment_attempts;
    webhook_deliveries =
        s.db.webhook_deliveries ++ announced env business_id idem attempt invoice v s.drawn s.db;
  }

  pub store_ok :
      (st : ℕ) (resp : PayResponse) (s : Session) {status : ℕ} {body : Text} {t : Session}
      → store_response env business_id idem attempt invoice (st, resp) s ≡ (ok (status, body), t)
      → (status ≡ st)
        × (s.aborted ≡ false)
        × (t.db ≡ record s.db {
          idempotency_keys =
              update_rows
                (key_runs idem.id)
                (completed_key env.jsonb env.now status body)
                s.db.idempotency_keys;
        })
  unfolding store_response exec settle complete_idempotency_key
  store_ok st resp s h = ground arith

  -- A finalization that went well has resolved the attempt by the answer of the PSP, has paid the
  -- invoice exactly when the charge succeeded, has queued one delivery of the matching event for
  -- each active endpoint of the business although errors of the queueing are dropped, and has
  -- stored the response that it gives under the key.
  pub finalize_ok :
      (o : Option ChargeResult) (s : Session) {status : ℕ} {body : Text} {s' : Session}
      → finalize env business_id idem attempt invoice o s ≡ (ok (status, body), s')
      → (status ≡ status_of (verdict o)) × (s'.db ≡ finalized_db (verdict o) status body s)
  unfolding finalize finalize_body
  finalize_ok o s h =
      let (body, same, _) =
        run_tx_ok env.fault env.lost (finalize_body env business_id idem attempt invoice o) s h in
      let (answer, t, settled, stored) =
        bind_ok (finalize_outcome env business_id idem attempt invoice o)
          (store_response env business_id idem attempt invoice) (opened s) body in
      ground
        (arith, same, outcome_Settles o (opened s) settled, store_ok answer.0 answer.1 t stored)
