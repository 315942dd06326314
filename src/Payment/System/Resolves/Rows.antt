-- ===== src/Payment/System/Resolves/Rows.antt =====
-- What a verdict leaves of the invoices and of the attempts (`finalize` of
-- internal/payment/payment.go).
use dodo_payments_backend.Base.{
  ◌≡◌, ◌≢◌, ◌⊎◌, inl, inr, refl, true, false, List, arith, All, any_row, update_rows, Bool-cases,
}
use dodo_payments_backend.Base.Rows.{
  updated, AllPairs, All-map, All-update_rows, AllPairs-update_rows, any_row-update_rows,
}
use dodo_payments_backend.Db.{RowId, PaymentAttempt, Invoice, is_failed, is_succeeded}
use dodo_payments_backend.Db.Queries.Payment.{attempt_runs, is_payable, paid_invoice}
use dodo_payments_backend.Http.{Env}
use dodo_payments_backend.Psp.{ChargeResult}
use dodo_payments_backend.Payment.Finalize.Verdict.{
  Verdict, uncertain, declined, charged, resolved, invoices_after,
}
use dodo_payments_backend.Payment.System.{Flight}
use dodo_payments_backend.Payment.System.Rows.{
  AreDistinct, IsClosed, has_invoice, has_attempt, IsOwned,
}

module _ (env : Env) (f : Flight) where
  -- An attempt as the verdict leaves it.
  abbrev pub after : Verdict → PaymentAttempt → PaymentAttempt
  after v x =
      updated (attempt_runs f.attempt.id) (resolved env f.business_id f.idem f.attempt f.invoice v)
        x

  abbrev pub rows_after : Verdict → List PaymentAttempt → List PaymentAttempt
  rows_after v xs =
      update_rows (attempt_runs f.attempt.id)
        (resolved env f.business_id f.idem f.attempt f.invoice v) xs

  abbrev pub bills_after : Verdict → List Invoice → List Invoice
  bills_after v vs = invoices_after env f.business_id f.idem f.attempt f.invoice v vs

  pub after_ids :
      (v : Verdict) (x : PaymentAttempt)
      → ((after v x).id ≡ x.id) × ((after v x).invoice_id ≡ x.invoice_id)
  after_ids uncertain x = ground arith
  after_ids (declined r) x = ground arith
  after_ids (charged r) x = ground arith

  pub after_failed :
      (v : Verdict) (x : PaymentAttempt)
      → is_failed x.status ≡ true
      → is_failed (after v x).status ≡ true
  after_failed uncertain x h = ground arith
  after_failed (declined r) x h = ground arith
  after_failed (charged r) x h = ground arith

  -- Only a charge makes an attempt succeed, the one that it resolves.
  pub after_succeeded :
      (v : Verdict) (x : PaymentAttempt)
      → is_succeeded (after v x).status ≡ true
      → (is_succeeded x.status ≡ true)
        ⊎ ((x.id ≡ f.attempt.id) × ((r : ChargeResult) × (v ≡ charged r)))
  after_succeeded uncertain x h = ground arith
  after_succeeded (declined r) x h = ground arith
  after_succeeded (charged r) x h = elim (Bool-cases (attempt_runs f.attempt.id x)) [
    | inl e ↦ inr (ground arith, (r, refl))
    | inr e ↦ inl (ground arith)
  ]

  -- Only a decline makes an attempt fail, the one that it resolves.
  pub after_fails :
      (v : Verdict) (x : PaymentAttempt)
      → is_failed x.status ≡ false
      → (is_failed (after v x).status ≡ false)
        ⊎ ((x.id ≡ f.attempt.id) × ((r : ChargeResult) × (v ≡ declined r)))
  after_fails uncertain x h = ground arith
  after_fails (declined r) x h = elim (Bool-cases (attempt_runs f.attempt.id x)) [
    | inl e ↦ inr (ground arith, (r, refl))
    | inr e ↦ inl (ground arith)
  ]
  after_fails (charged r) x h = ground arith

  pub after_other : (v : Verdict) (x : PaymentAttempt) → x.id ≢ f.attempt.id → after v x ≡ x
  after_other v x h = ground arith

  -- A predicate that a payment cannot break holds of the invoices after the verdict.
  pub bills_All :
      (P Q : Invoice → Type 0) (v : Verdict) (vs : List Invoice)
      → ((w : Invoice) → P w → Q w)
      → ((w : Invoice) → P w → Q (paid_invoice env.now w))
      → All P vs
      → All Q (bills_after v vs)
  bills_All P Q uncertain vs g k h = All-map P Q vs g h
  bills_All P Q (declined r) vs g k h = All-map P Q vs g h
  bills_All P Q (charged r) vs g k h =
      All-update_rows P Q (is_payable f.invoice.id f.business_id) (paid_invoice env.now) vs
        (λ w p. elim (Bool-cases (is_payable f.invoice.id f.business_id w)) [
          | inl e ↦ rw e (k w p)
          | inr e ↦ rw e (g w p)
        ])
        h

  pub bills_any :
      (i : RowId) (v : Verdict) (vs : List Invoice)
      → any_row (has_invoice i) (bills_after v vs) ≡ any_row (has_invoice i) vs
  bills_any i uncertain vs = refl
  bills_any i (declined r) vs = refl
  bills_any i (charged r) vs =
      any_row-update_rows (has_invoice i) (is_payable f.invoice.id f.business_id)
        (paid_invoice env.now) vs (λ w. refl)

  pub bills_AreDistinct :
      (v : Verdict) (vs : List Invoice)
      → AllPairs AreDistinct vs
      → AllPairs AreDistinct (bills_after v vs)
  bills_AreDistinct uncertain vs h = h
  bills_AreDistinct (declined r) vs h = h
  bills_AreDistinct (charged r) vs h =
      AllPairs-update_rows AreDistinct (is_payable f.invoice.id f.business_id)
        (paid_invoice env.now) vs (λ x y ne. ground arith) h

  -- A charge closes the invoice of the request.
  pub bills_IsClosed :
      (r : ChargeResult) (vs : List Invoice)
      → All (IsOwned f.invoice.id f.business_id) vs
      → All (IsClosed f.invoice.id) (bills_after (charged r) vs)
  bills_IsClosed r vs h =
      All-update_rows (IsOwned f.invoice.id f.business_id) (IsClosed f.invoice.id)
        (is_payable f.invoice.id f.business_id) (paid_invoice env.now) vs
        (λ w owned. elim (Bool-cases (is_payable f.invoice.id f.business_id w)) [
          | inl e ↦ rw e (λ _. refl)
          | inr e ↦ rw e (λ eq. let own = owned eq in ground arith)
        ])
        h

  pub rows_any :
      (a : RowId) (v : Verdict) (xs : List PaymentAttempt)
      → any_row (has_attempt a) (rows_after v xs) ≡ any_row (has_attempt a) xs
  rows_any a v xs =
      any_row-update_rows (has_attempt a) (attempt_runs f.attempt.id)
        (resolved env f.business_id f.idem f.attempt f.invoice v) xs (same v)
    where
      same :
          (v : Verdict) (x : PaymentAttempt)
          → has_attempt a (resolved env f.business_id f.idem f.attempt f.invoice v x)
            ≡ has_attempt a x
      same uncertain x = refl
      same (declined r) x = refl
      same (charged r) x = refl
