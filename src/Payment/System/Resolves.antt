-- ===== src/Payment/System/Resolves.antt =====
-- The second transaction of a payment keeps the invariant (`finalize` of
-- internal/payment/payment.go).
pub mod Rows
use mathlib.Core.Path.{subst}
use dodo_payments_backend.Base.{
  ℕ, ◌≡◌, ◌≢◌, ◌⊎◌, inl, inr, refl, sym, ap, ◌∙◌, Bool, true, false, Option, none, some, List, [],
  ◌∷◌, ◌++◌, ◌==◌, arith, All, any_row, find_row, update_rows, Bool-cases, if◌then◌else◌, ◌||◌,
  ◌&&◌,
}
use dodo_payments_backend.Base.Rows.{
  updated, AllPairs, All-map, All-zip, All-update_rows, AllPairs-update_rows, any_row-update_rows,
}
use dodo_payments_backend.Base.Result.{ok}
use dodo_payments_backend.Base.Text.{Text}
use dodo_payments_backend.Db.{
  RowId, IdempotencyKey, PaymentAttempt, Invoice, Db, is_open, is_failed, is_succeeded,
  is_processing, is_unresolved,
}
use dodo_payments_backend.Db.Tx.{Session}
use dodo_payments_backend.Db.Queries.Payment.{attempt_runs, is_payable, paid_invoice}
use dodo_payments_backend.Http.{Env}
use dodo_payments_backend.Psp.{ChargeResult}
use dodo_payments_backend.Payment.Finalize.{finalize}
use dodo_payments_backend.Payment.Finalize.Verdict.{
  Verdict, uncertain, declined, charged, verdict, resolved, invoices_after, status_of,
}
use dodo_payments_backend.Payment.Finalize.Effects.{finalized_db, finalize_ok}
use dodo_payments_backend.Payment.System.{System, Flight, at}
use dodo_payments_backend.Payment.System.Resolves.Rows.{
  after, rows_after, bills_after, after_ids, after_failed, after_succeeded, after_fails,
  after_other, bills_All, bills_any, bills_AreDistinct, bills_IsClosed, rows_any,
}
use dodo_payments_backend.Payment.System.Rows.{
  Exclusive, AreDistinct, IsClosed, has_invoice, has_attempt, ClosesInvoice, AreSound, IsRunning,
  IsOwned, IsAloft, IsSafe, AgreesWith, IsTruthful,
}

module _ (env : Env) (f : Flight) (v : Verdict) (vs : List Invoice) (xs : List PaymentAttempt) where
  module _ (h : AreSound vs xs) (k : IsAloft vs xs f.attempt.id f) where
    closes :
        (x : PaymentAttempt)
        → ClosesInvoice vs x
        → IsRunning f.attempt.id f.invoice.id x
        → ClosesInvoice (bills_after env f v vs) (after env f v x)
    closes x shut running s = elim (after_succeeded env f v x s) [
      | inl before ↦ rw (after_ids env f v x).1 (
          bills_All env f (IsClosed x.invoice_id) (IsClosed x.invoice_id) v vs (λ w c. c)
            (λ w c _. refl) (shut before))
      | inr (same, (r, is)) ↦
          rw ((after_ids env f v x).1, (running same).1, is) (bills_IsClosed env f r vs k.owned)
    ]

    resolved_AreSound : AreSound (bills_after env f v vs) (rows_after env f v xs)
    resolved_AreSound = record {
      exclusive =
          AllPairs-update_rows Exclusive _ _ xs
            (λ x y e. (
              ground (arith, e, after_ids env f v x, after_ids env f v y),
              λ same. elim (e.1 (sym (after_ids env f v x).1 ∙ same ∙ (after_ids env f v y).1)) [
                | inl a ↦ inl (after_failed env f v x a)
                | inr b ↦ inr (after_failed env f v y b)
              ],
            ))
            h.exclusive;
      distinct = bills_AreDistinct env f v vs h.distinct;
      known =
          All-update_rows (λ x. any_row (has_invoice x.invoice_id) vs ≡ true)
            (λ x. any_row (has_invoice x.invoice_id) (bills_after env f v vs) ≡ true) _ _ xs
            (λ x e. rw ((after_ids env f v x).1) (bills_any env f x.invoice_id v vs ∙ e)) h.known;
      closed =
          All-update_rows (λ x. ClosesInvoice vs x × IsRunning f.attempt.id f.invoice.id x)
            (ClosesInvoice (bills_after env f v vs)) _ _ xs (λ x e. closes x e.0 e.1)
            (All-zip (ClosesInvoice vs) (IsRunning f.attempt.id f.invoice.id) _ xs (λ x c r. (c, r))
              h.closed k.running);
    }

  -- Another request in flight.
  other_IsAloft :
      (a : RowId) (g : Flight)
      → a ≢ f.attempt.id
      → IsAloft vs xs a g
      → IsAloft (bills_after env f v vs) (rows_after env f v xs) a g
  other_IsAloft a g ne k = record {
    own = k.own;
    running =
        All-update_rows (IsRunning a g.invoice.id) (IsRunning a g.invoice.id) _ _ xs
          (λ x r eq.
            let was : x.id ≡ a = sym (after_ids env f v x).0 ∙ eq in
            rw (after_other env f v x (λ same. ne (sym was ∙ same))) (r was))
          k.running;
    present = rows_any env f a v xs ∙ k.present;
    owned =
        bills_All env f (IsOwned g.invoice.id g.business_id) (IsOwned g.invoice.id g.business_id) v
          vs (λ w o. o) (λ w o. o) k.owned;
    invoiced = bills_any env f g.invoice.id v vs ∙ k.invoiced;
  }

  -- No money was taken for an attempt that fails.
  still_kept :
      (captured : RowId → Bool)
      → IsTruthful v (captured f.attempt.id)
      → All (λ (x : PaymentAttempt). captured x.id ≡ true → is_failed x.status ≡ false) xs
      → All
          (λ (x : PaymentAttempt). captured x.id ≡ true → is_failed x.status ≡ false)
          (rows_after env f v xs)
  still_kept captured free kept =
      All-update_rows (λ (x : PaymentAttempt). captured x.id ≡ true → is_failed x.status ≡ false)
        (λ (x : PaymentAttempt). captured x.id ≡ true → is_failed x.status ≡ false) _ _ xs
        (λ x e took.
          let was : captured x.id ≡ true = ap captured (sym (after_ids env f v x).0) ∙ took in
          elim (after_fails env f v x (e was)) [
            | inl good ↦ good
            | inr (same, (r, is)) ↦ absurd (clash r is (ap captured (sym same) ∙ was))
          ])
        kept
    where
      clash : (r : ChargeResult) → v ≡ declined r → captured f.attempt.id ≡ true → ⊥
      clash r is took =
          let no : IsTruthful (declined r) (captured f.attempt.id) =
            subst (λ u. IsTruthful u (captured f.attempt.id)) is free in
          ground arith

-- A finalization keeps the invariant, and its request is no more in flight.
pub finalize-IsSafe :
    (env : Env) (sys : System) (a : RowId) (f : Flight) (answer : Option ChargeResult)
    (s t : Session) (status : ℕ) (body : Text)
    → sys.flights a ≡ some f
    → f.answered ≡ some answer
    → s.db ≡ sys.db
    → finalize env f.business_id f.idem f.attempt f.invoice answer s ≡ (ok (status, body), t)
    → IsSafe sys
    → IsSafe (record sys { db = t.db; flights = at a none sys.flights })
finalize-IsSafe env sys a f answer s t status body flying answered same run safe =
    rw (done.1, same)
      (record {
        sound = resolved_AreSound env f v vs xs safe.sound own_aloft;
        aloft = λ a' g now. elim (Bool-cases (a' == a)) [
          | inl e ↦ absurd (ground arith)
          | inr e ↦
              other_IsAloft env f v vs xs a' g (ground (arith, k.own))
                (safe.aloft a' g (ground arith))
        ];
        agrees = λ a' g now. elim (Bool-cases (a' == a)) [
          | inl e ↦ absurd (ground arith)
          | inr e ↦ safe.agrees a' g (ground arith)
        ];
        once = safe.once;
        new = λ a' gone. safe.new a' (sym (rows_any env f a' v xs) ∙ gone);
        kept = still_kept env f v vs xs sys.captured free safe.kept;
      })
  where
    v : Verdict
    v = verdict answer

    vs : List Invoice
    vs = sys.db.invoices

    xs : List PaymentAttempt
    xs = sys.db.payment_attempts

    done :
        (status ≡ status_of (verdict answer))
        × (t.db
            ≡ finalized_db env f.business_id f.idem f.attempt f.invoice
                (verdict answer)
                status
                body
                s)
    done = finalize_ok env f.business_id f.idem f.attempt f.invoice answer s run

    k : IsAloft sys.db.invoices sys.db.payment_attempts a f
    k = safe.aloft a f flying

    own_aloft : IsAloft sys.db.invoices sys.db.payment_attempts f.attempt.id f
    own_aloft = subst (λ i. IsAloft sys.db.invoices sys.db.payment_attempts i f) (sym k.own) k

    free : IsTruthful (verdict answer) (sys.captured f.attempt.id)
    free =
        let agreed : AgreesWith (some answer) (sys.calls a) (sys.captured a) =
          subst (λ o. AgreesWith o (sys.calls a) (sys.captured a)) answered
            (safe.agrees a f flying) in
        subst (λ i. IsTruthful (verdict answer) (sys.captured i)) (sym k.own) agreed.1
