-- ===== src/Payment/Pay/Answers.antt =====
-- A first request of `PayInvoice` gets an answer (internal/payment/payment.go).
use dodo_payments_backend.Base.{
  ◌≤◌, ◌==◌, ℕ, ◌+◌, ◌≡◌, inl, inr, refl, ap, ◌∙◌, true, false, Option, none, some, arith, find_row,
  update_rows, Bool-cases,
}
use dodo_payments_backend.Base.Rows.{any_row-update_rows}
use dodo_payments_backend.Base.Result.{ok}
use dodo_payments_backend.Base.Text.{char_count, text, text_eq}
use dodo_payments_backend.Db.{
  RowId, IdempotencyKey, PaymentAttempt, Invoice, invoice_paid, invoice_payment_failed,
}
use dodo_payments_backend.Db.Tx.{Session, settle, exec, finish, run_tx}
use dodo_payments_backend.Db.Tx.Inversion.{exec_calm, bind_step, opened}
use dodo_payments_backend.Db.Queries.Payment.{
  attempt_runs, failed_attempt, succeeded_attempt, paid_invoice, is_payable, key_runs,
  mark_payment_attempt_succeeded, mark_payment_attempt_failed, mark_payment_attempt_unknown,
  mark_invoice_paid, complete_idempotency_key,
}
use dodo_payments_backend.Http.{Env}
use dodo_payments_backend.Psp.{ChargeResult}
use dodo_payments_backend.Webhook.Outbox.Total.{CanQueue-carried}
use dodo_payments_backend.Payment.Finalize.{
  failed_response, paid_response, failed_payload, paid_payload, finalize, finalize_body,
  finalize_outcome, finalize_unknown, finalize_failed, respond_failed, finalize_succeeded,
  pay_and_respond, respond_succeeded, store_response,
}
use dodo_payments_backend.Payment.Finalize.Verdict.{verdict, status_of}
use dodo_payments_backend.Payment.Pay.Commits.{
  FitColumns, AreReady, Answers, stored-Answers, queued-Responds,
}

module _ (env : Env) (b : RowId) (idem : IdempotencyKey) (attempt : PaymentAttempt)
    (invoice : Invoice) (calm : (n : ℕ) → env.fault n ≡ false) where
  outcome_failed :
      (result : ChargeResult) (s : Session)
      → text_eq result.status (text "failed") ≡ true
      → finalize_outcome env b idem attempt invoice (some result) s
        ≡ finalize_failed env b idem attempt invoice result s
  unfolding finalize_outcome
  outcome_failed result s e = rw e refl

  outcome_succeeded :
      (result : ChargeResult) (s : Session)
      → text_eq result.status (text "failed") ≡ false
      → finalize_outcome env b idem attempt invoice (some result) s
        ≡ finalize_succeeded env b idem attempt invoice result s
  unfolding finalize_outcome
  outcome_succeeded result s e = rw e refl

  unknown-Answers :
      (s : Session)
      → AreReady b idem attempt invoice env.ids s.drawn s.db
      → Answers 202 (finalize env b idem attempt invoice none s)
  unfolding finalize finalize_body finalize_outcome finalize_unknown store_response run_tx finish
      exec settle mark_payment_attempt_unknown complete_idempotency_key
  unknown-Answers s r = ground (
    arith,
    calm s.ticks,
    calm (s.ticks + 1),
    calm (s.ticks + 1 + 1),
    calm (s.ticks + 1 + 1 + 1),
    r.has_key,
    r.has_attempt,
  )

  failed-Answers :
      (result : ChargeResult) (s : Session)
      → text_eq result.status (text "failed") ≡ true
      → char_count result.failure_code ≤ 100
      → AreReady b idem attempt invoice env.ids s.drawn s.db
      → Answers 402 (finalize env b idem attempt invoice (some result) s)
  unfolding finalize_failed respond_failed
  failed-Answers result s e fits r =
      let q =
        mark_payment_attempt_failed env.now attempt.id result.failure_code
          (text "payment_declined") in
      let s₁ = opened s in
      let marked : q s.db
          ≡ ok (
            failed_attempt env.now result.failure_code (text "payment_declined") r.running,
            record s.db {
              payment_attempts =
                  update_rows (attempt_runs attempt.id)
                    (failed_attempt env.now result.failure_code (text "payment_declined"))
                    s.db.payment_attempts;
            },
          ) =
        unfold mark_payment_attempt_failed in ground (arith, fits, r.has_attempt) in
      let first =
        bind_step (exec env.fault q) (λ _. respond_failed env b idem attempt invoice result) s₁
          (exec_calm env.fault q s₁ (calm s₁.ticks) refl marked) in
      let s₂ = record s₁ {
        db = record s.db {
          payment_attempts =
              update_rows (attempt_runs attempt.id)
                (failed_attempt env.now result.failure_code (text "payment_declined"))
                s.db.payment_attempts;
        };
        ticks = s₁.ticks + 1;
      } in
      let (t, second, good, keys) =
        queued-Responds env b idem attempt invoice calm invoice_payment_failed
          (failed_payload env b idem attempt invoice result)
          (402, failed_response env b idem attempt invoice result) s₂ refl
          (CanQueue-carried s.db s₂.db refl refl r.can_queue) in
      stored-Answers env b idem attempt invoice calm (some result) 402 _ s t
        (outcome_failed result s₁ e ∙ (first ∙ second)) good
        (ap (find_row (key_runs idem.id)) keys ∙ r.has_key)

  succeeded-Answers :
      (result : ChargeResult) (s : Session)
      → text_eq result.status (text "failed") ≡ false
      → char_count result.psp_ref ≤ 255
      → AreReady b idem attempt invoice env.ids s.drawn s.db
      → Answers 200 (finalize env b idem attempt invoice (some result) s)
  unfolding finalize_succeeded pay_and_respond respond_succeeded
  succeeded-Answers result s e fits r =
      let q = mark_payment_attempt_succeeded env.now attempt.id result.psp_ref in
      let s₁ = opened s in
      let db₁ = record s.db {
        payment_attempts =
            update_rows (attempt_runs attempt.id) (succeeded_attempt env.now result.psp_ref)
              s.db.payment_attempts;
      } in
      let marked : q s.db ≡ ok (succeeded_attempt env.now result.psp_ref r.running, db₁) =
        unfold mark_payment_attempt_succeeded in ground (arith, fits, r.has_attempt) in
      let p = mark_invoice_paid env.now invoice.id b in
      let paid_now : p db₁
          ≡ ok (
            paid_invoice env.now r.payable,
            record db₁ {
              invoices = update_rows (is_payable invoice.id b) (paid_invoice env.now) s.db.invoices;
            },
          ) =
        unfold mark_invoice_paid in ground (arith, r.has_invoice) in
      let first =
        bind_step (exec env.fault q) (λ _. pay_and_respond env b idem attempt invoice result) s₁
          (exec_calm env.fault q s₁ (calm s₁.ticks) refl marked) in
      let s₂ = record s₁ { db = db₁; ticks = s₁.ticks + 1 } in
      let second =
        bind_step (exec env.fault p) (λ _. respond_succeeded env b idem attempt invoice result) s₂
          (exec_calm env.fault p s₂ (calm s₂.ticks) refl paid_now) in
      let s₃ = record s₂ {
        db = record db₁ {
          invoices = update_rows (is_payable invoice.id b) (paid_invoice env.now) s.db.invoices;
        };
        ticks = s₂.ticks + 1;
      } in
      let (t, third, good, keys) =
        queued-Responds env b idem attempt invoice calm invoice_paid
          (paid_payload env b idem attempt invoice result)
          (200, paid_response env b idem attempt invoice result) s₃ refl
          (CanQueue-carried s.db s₃.db refl
            (any_row-update_rows (λ v. v.id == invoice.id) (is_payable invoice.id b)
              (paid_invoice env.now) s.db.invoices (λ x. refl))
            r.can_queue) in
      stored-Answers env b idem attempt invoice calm (some result) 200 _ s t
        (outcome_succeeded result s₁ e ∙ (first ∙ (second ∙ third))) good
        (ap (find_row (key_runs idem.id)) keys ∙ r.has_key)

  -- If no statement fails for the connection, the attempt and the key are PROCESSING, the invoice
  -- is OPEN, the ids of the deliveries are new and the texts of the PSP fit into their columns, the second transaction commits for every
  -- answer of the PSP, with the status 202 for none, 402 for a decline and 200 for a charge.
  pub finalize-Answers :
      (o : Option ChargeResult) (s : Session)
      → FitColumns o
      → AreReady b idem attempt invoice env.ids s.drawn s.db
      → Answers (status_of (verdict o)) (finalize env b idem attempt invoice o s)
  finalize-Answers none s fits r = unknown-Answers s r
  finalize-Answers (some result) s fits r =
      elim (Bool-cases (text_eq result.status (text "failed"))) [
        | inl e ↦ rw e (failed-Answers result s e fits.0 r)
        | inr e ↦ rw e (succeeded-Answers result s e fits.1 r)
      ]
