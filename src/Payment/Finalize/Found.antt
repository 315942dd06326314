-- ===== src/Payment/Finalize/Found.antt =====
-- That `finalize` of internal/payment/payment.go, when it goes well, has found the rows that it
-- writes.
use dodo_payments_backend.Base.{
  ℕ, ◌≡◌, refl, sym, ap, ◌∙◌, inl, inr, true, Option, none, some, List, arith, find_row, Bool-cases,
  Option-cases,
}
use mathlib.Core.List.{Memᴰ}
use dodo_payments_backend.Base.Members.{updated_mem}
use dodo_payments_backend.Base.Result.{ok}
use dodo_payments_backend.Base.Text.{Text, text, text_eq}
use dodo_payments_backend.Db.{RowId, IdempotencyKey, PaymentAttempt, Invoice, Db}
use dodo_payments_backend.Db.Tx.{Session, exec, settle}
use dodo_payments_backend.Db.Tx.Inversion.{bind_ok, exec_ok, run_tx_ok, opened}
use dodo_payments_backend.Db.Queries.Payment.{
  attempt_runs, is_payable, paid_invoice, key_runs, completed_key, mark_payment_attempt_succeeded,
  mark_payment_attempt_failed, mark_payment_attempt_unknown, mark_invoice_paid,
  complete_idempotency_key,
}
use dodo_payments_backend.Http.{Env}
use dodo_payments_backend.Psp.{ChargeResult}
use dodo_payments_backend.Payment.Types.{PayResponse}
use dodo_payments_backend.Payment.Finalize.{
  finalize_unknown, finalize_failed, finalize_succeeded, respond_failed, pay_and_respond,
  respond_succeeded, finalize_outcome, store_response, finalize_body, finalize,
}
use dodo_payments_backend.Payment.Finalize.Verdict.{
  Verdict, uncertain, declined, charged, verdict, status_of, resolved, invoices_after,
}
use dodo_payments_backend.Payment.Finalize.Effects.{
  finalized_db, finalize_ok, outcome_Settles, store_ok,
}

module _ (env : Env) (b : RowId) (idem : IdempotencyKey) (attempt : PaymentAttempt)
    (invoice : Invoice) where
  -- A charge found the invoice payable.
  abbrev IsPayable : Verdict → List Invoice → Type 0
  IsPayable uncertain vs = Unit {0}
  IsPayable (declined r) vs = Unit {0}
  IsPayable (charged r) vs = (v : Invoice) × (find_row (is_payable invoice.id b) vs ≡ some v)

  abbrev FoundRows : Verdict → Session → Type 0
  FoundRows v s =
      ((a : PaymentAttempt) × (find_row (attempt_runs attempt.id) s.db.payment_attempts ≡ some a))
      × IsPayable v s.db.invoices

  unknown_found :
      (s : Session) {r : ℕ × PayResponse} {t : Session}
      → finalize_unknown env b idem attempt invoice s ≡ (ok r, t)
      → FoundRows uncertain s
  unfolding finalize_unknown exec settle mark_payment_attempt_unknown
  unknown_found s h =
      elim (Option-cases (find_row (attempt_runs attempt.id) s.db.payment_attempts)) [
        | inl e ↦ absurd (ground arith)
        | inr found ↦ (found, tt)
      ]

  failed_found :
      (result : ChargeResult) (s : Session) {r : ℕ × PayResponse} {t : Session}
      → finalize_failed env b idem attempt invoice result s ≡ (ok r, t)
      → FoundRows (declined result) s
  unfolding finalize_failed mark_payment_attempt_failed
  failed_found result s h =
      let q =
        mark_payment_attempt_failed env.now attempt.id result.failure_code
          (text "payment_declined") in
      let (a, t₁, marked, _) =
        bind_ok (exec env.fault q) (λ _. respond_failed env b idem attempt invoice result) s h in
      let (query, _, _, _) = exec_ok env.fault q s marked in
      elim (Option-cases (find_row (attempt_runs attempt.id) s.db.payment_attempts)) [
        | inl e ↦ absurd (ground (arith, query))
        | inr found ↦ (found, tt)
      ]

  succeeded_found :
      (result : ChargeResult) (s : Session) {r : ℕ × PayResponse} {t : Session}
      → finalize_succeeded env b idem attempt invoice result s ≡ (ok r, t)
      → FoundRows (charged result) s
  unfolding finalize_succeeded pay_and_respond mark_payment_attempt_succeeded mark_invoice_paid
  succeeded_found result s h =
      let q = mark_payment_attempt_succeeded env.now attempt.id result.psp_ref in
      let p = mark_invoice_paid env.now invoice.id b in
      let (a, t₁, marked, rest) =
        bind_ok (exec env.fault q) (λ _. pay_and_respond env b idem attempt invoice result) s h in
      let (query, _, _, _) = exec_ok env.fault q s marked in
      let (v, t₂, paid_now, _) =
        bind_ok (exec env.fault p) (λ _. respond_succeeded env b idem attempt invoice result) t₁
          rest in
      let (query₂, _, _, _) = exec_ok env.fault p t₁ paid_now in
      let same : t₁.db.invoices ≡ s.db.invoices = ground (arith, query) in
      let payable : (v : Invoice) × (find_row (is_payable invoice.id b) t₁.db.invoices ≡ some v) =
        elim (Option-cases (find_row (is_payable invoice.id b) t₁.db.invoices)) [
          | inl e ↦ absurd (ground (arith, query₂))
          | inr found ↦ found
        ] in
      elim (Option-cases (find_row (attempt_runs attempt.id) s.db.payment_attempts)) [
        | inl e ↦ absurd (ground (arith, query))
        | inr found ↦ (found, rw same at payable)
      ]

  outcome_found :
      (o : Option ChargeResult) (s : Session) {r : ℕ × PayResponse} {t : Session}
      → finalize_outcome env b idem attempt invoice o s ≡ (ok r, t)
      → FoundRows (verdict o) s
  unfolding finalize_outcome
  outcome_found none s h = unknown_found s h
  outcome_found (some result) s h = elim (Bool-cases (text_eq result.status (text "failed"))) [
    | inl e ↦ rw e (failed_found result s (rw e at h))
    | inr e ↦ rw e (succeeded_found result s (rw e at h))
  ]

  store_found :
      (answer : ℕ × PayResponse) (s : Session) {r : ℕ × Text} {t : Session}
      → store_response env b idem attempt invoice answer s ≡ (ok r, t)
      → (k : IdempotencyKey) × (find_row (key_runs idem.id) s.db.idempotency_keys ≡ some k)
  unfolding store_response exec settle complete_idempotency_key
  store_found answer s h = elim (Option-cases (find_row (key_runs idem.id) s.db.idempotency_keys)) [
    | inl e ↦ absurd (ground arith)
    | inr found ↦ found
  ]

  -- A charge has made an invoice of the business that was OPEN a PAID one.
  abbrev pub HasPaid : Verdict → Db → Db → Type 0
  HasPaid uncertain before after = before.invoices ≡ after.invoices
  HasPaid (declined r) before after = before.invoices ≡ after.invoices
  HasPaid (charged r) before after =
      (v : Invoice) × Memᴰ v before.invoices
      × (is_payable invoice.id b v ≡ true)
      × Memᴰ (paid_invoice env.now v) after.invoices

  -- The row that the attempt had, PROCESSING, is resolved.
  abbrev pub HasResolved : Verdict → Db → Db → Type 0
  HasResolved v before after =
      (a : PaymentAttempt) × Memᴰ a before.payment_attempts
      × (attempt_runs attempt.id a ≡ true)
      × Memᴰ (resolved env b idem attempt invoice v a) after.payment_attempts

  -- The response is stored with the key, which had none.
  abbrev pub HasStored : ℕ → Text → Db → Db → Type 0
  HasStored status body before after =
      (k : IdempotencyKey) × Memᴰ k before.idempotency_keys
      × (key_runs idem.id k ≡ true)
      × Memᴰ (completed_key env.jsonb env.now status body k) after.idempotency_keys

  paid_of :
      (v : Verdict) (vs : List Invoice) (before after : Db)
      → before.invoices ≡ vs
      → after.invoices ≡ invoices_after env b idem attempt invoice v vs
      → IsPayable v vs
      → HasPaid v before after
  paid_of uncertain vs before after e h p = e ∙ sym h
  paid_of (declined r) vs before after e h p = e ∙ sym h
  paid_of (charged r) vs before after e h (v, found) =
      let (m, hit, new) = updated_mem (is_payable invoice.id b) (paid_invoice env.now) vs found in
      (v, rw e m, hit, rw h new)

  -- A finalization that went well has answered the status of the answer of the PSP, and has done to
  -- the tables exactly what follows: it has resolved the attempt, which was PROCESSING, by that
  -- answer; for a charge that succeeded it has found the invoice of the business OPEN and made it
  -- PAID, and otherwise left the invoices alone; it has queued one delivery of the matching event for
  -- each active endpoint of the business although errors of the queueing are dropped; and it has
  -- stored the response that it gives under the key, which had none.
  pub finalize_lem :
      (o : Option ChargeResult) (s : Session) {status : ℕ} {body : Text} {s' : Session}
      → finalize env b idem attempt invoice o s ≡ (ok (status, body), s')
      → (status ≡ status_of (verdict o))
        × (s'.db ≡ finalized_db env b idem attempt invoice (verdict o) status body s)
        × HasResolved (verdict o) s.db s'.db
        × HasPaid (verdict o) s.db s'.db
        × HasStored status body s.db s'.db
  unfolding finalize finalize_body
  finalize_lem o s {status} {body} {s'} h =
      let (answered, written) = finalize_ok env b idem attempt invoice o s h in
      let (ran, _, _) =
        run_tx_ok env.fault env.lost (finalize_body env b idem attempt invoice o) s h in
      let (answer, t, settled, stored) =
        bind_ok (finalize_outcome env b idem attempt invoice o)
          (store_response env b idem attempt invoice) (opened s) ran in
      let ((a, running), payable) = outcome_found o (opened s) settled in
      let live = store_ok env b idem attempt invoice answer.0 answer.1 t stored in
      let (k, key_there) = store_found answer t stored in
      let kept : t.db.idempotency_keys ≡ s.db.idempotency_keys =
        ground (arith, live, outcome_Settles env b idem attempt invoice o (opened s) settled) in
      let attempts =
        updated_mem (attempt_runs attempt.id) (resolved env b idem attempt invoice (verdict o))
          s.db.payment_attempts running in
      let keys =
        updated_mem (key_runs idem.id) (completed_key env.jsonb env.now status body)
          s.db.idempotency_keys (rw kept at key_there) in
      (
        answered,
        written,
        (a, attempts.0, attempts.1, rw written (attempts.2)),
        paid_of (verdict o) s.db.invoices s.db s'.db refl (ap (λ (d : Db). d.invoices) written)
            payable,
        (k, keys.0, keys.1, rw written (keys.2)),
      )
