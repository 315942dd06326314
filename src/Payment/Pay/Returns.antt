-- ===== src/Payment/Pay/Returns.antt =====
-- A first request of `PayInvoice` gets its answer, from the header to the response
-- (internal/payment/payment.go).
use dodo_payments_backend.Base.{
  length, ℕ, ◌+◌, ◌==◌, ◌≡◌, refl, false, ◌||◌, Option, [], ◌∷◌, arith,
}
use dodo_payments_backend.Base.Result.{Result, ok, err}
use dodo_payments_backend.Base.Rows.{
  find_row-of_any, find_row-holds, find_row-any, any_row-weaken, find_row-append_last,
}
use dodo_payments_backend.Base.Text.{Text}
use dodo_payments_backend.Db.{RowId, Invoice}
use dodo_payments_backend.Db.Tx.{Error, Session}
use dodo_payments_backend.Db.Queries.Payment.{
  attempt_runs, key_runs, is_payable, key_is, invoice_is, clashes,
}
use dodo_payments_backend.Db.Queries.Webhook.{active_endpoints}
use dodo_payments_backend.Http.{Env}
use dodo_payments_backend.Payment.Types.{PayRequest}
use dodo_payments_backend.Psp.{ChargeRequest, ChargeResult}
use dodo_payments_backend.Webhook.Outbox.Total.{CanQueue, CanQueue-carried}
use dodo_payments_backend.Payment.Finalize.Verdict.{verdict, status_of}
use dodo_payments_backend.Payment.Pay.{finalized, proceed, pay_with, pay_invoice}
use dodo_payments_backend.Payment.Pay.Known.{IsValid, pay_valid}
use dodo_payments_backend.Payment.Pay.Commits.{FitColumns, AreReady, Answers}
use dodo_payments_backend.Payment.Pay.Answers.{finalize-Answers}
use dodo_payments_backend.Payment.Claim.{fingerprint}
use dodo_payments_backend.Payment.Claim.Total.{IsFree, idem_of, attempt_of, claimed, claim_lem}

claimed-AreReady :
    (env : Env) (b i : RowId) (key hash : Text) (s : Session) (inv : Invoice)
    → IsFree env b i key hash s.db s.drawn inv
    → CanQueue env.ids i (s.drawn + 1 + 1 + 1) (length (active_endpoints b s.db)) s.db
    → AreReady b
        (idem_of env b i key hash s)
        (attempt_of env b i key hash s)
        inv
        env.ids
        (claimed env b i key hash s).drawn
        (claimed env b i key hash s).db
claimed-AreReady env b i key hash s inv f c =
    let is = find_row-holds (invoice_is i b) s.db.invoices f.found in
    let own : inv.id ≡ i = ground (arith, is) in
    let (v, there) = find_row-of_any (is_payable inv.id b) s.db.invoices (
      find_row-any (invoice_is i b) (is_payable inv.id b) s.db.invoices f.found
        (ground (arith, is, f.payable))) in
    record {
      key = idem_of env b i key hash s;
      running = attempt_of env b i key hash s;
      payable = v;
      has_key =
          find_row-append_last (key_runs (env.ids s.drawn)) s.db.idempotency_keys
            (idem_of env b i key hash s)
            (any_row-weaken (key_runs (env.ids s.drawn))
              (λ k. k.id == env.ids s.drawn || key_is b key k) s.db.idempotency_keys
              (λ k e. ground arith) f.unknown_key)
            (ground arith);
      has_attempt =
          find_row-append_last (attempt_runs (env.ids (s.drawn + 1))) s.db.payment_attempts
            (attempt_of env b i key hash s)
            (any_row-weaken (attempt_runs (env.ids (s.drawn + 1)))
              (clashes (env.ids (s.drawn + 1)) i (env.ids s.drawn) (env.ids (s.drawn + 1 + 1)))
              s.db.payment_attempts (λ a e. ground arith) f.alone)
            (ground arith);
      has_invoice = there;
      can_queue = rw own (CanQueue-carried s.db (claimed env b i key hash s).db refl refl c);
    }

-- The answer of the second transaction is the answer to the client.
finalized-Answers :
    (env : Env) (decimal : RowId → Text) (charge : ChargeRequest → Option ChargeResult) (b : RowId)
    (request : ChargeRequest) (st : ℕ) (r : Result Error (ℕ × Text) × Session)
    → Answers st r
    → let out = finalized env decimal charge b request r in
      (out.response.status ≡ st) × (out.charges ≡ request ∷ [])
unfolding finalized
finalized-Answers env decimal charge b request st (ok (status, body), s) h = (h, refl)
finalized-Answers env decimal charge b request st (err e, s) h = absurd h

-- What the PSP is asked.
abbrev pub asked : Env → Text → Session → Invoice → ChargeRequest
asked env token s inv = record {
  token = token;
  amount_cents = inv.total_amount_cents;
  currency = inv.currency;
  psp_request_id = env.ids (s.drawn + 1 + 1);
}

-- A valid first request for an OPEN invoice, under a new key and with no unresolved attempt, is
-- answered if no statement fails for the connection, the ids that are drawn next are new, and the
-- texts of the answer of the PSP fit into their columns: the PSP is asked exactly once, for the
-- total of the invoice, and the status is 200 when it charges, 402 when it declines and 202 when
-- its answer is unknown.
pub pay_invoice-Answers :
    (env : Env) (decimal : RowId → Text) (charge : ChargeRequest → Option ChargeResult) (b : RowId)
    (req : PayRequest) (i : RowId) (key token : Text) (s : Session) (inv : Invoice)
    → ((n : ℕ) → env.fault n ≡ false)
    → IsValid env req i key token
    → IsFree env b i key (fingerprint env decimal i token) s.db s.drawn inv
    → CanQueue env.ids i (s.drawn + 1 + 1 + 1) (length (active_endpoints b s.db)) s.db
    → FitColumns (charge (asked env token s inv))
    → let out = pay_invoice env decimal charge b req s in
      (out.response.status ≡ status_of (verdict (charge (asked env token s inv))))
      × (out.charges ≡ asked env token s inv ∷ [])
unfolding pay_with proceed
pay_invoice-Answers env decimal charge b req i key token s inv calm v f c fits =
    let hash = fingerprint env decimal i token in
    let o = charge (asked env token s inv) in
    let st = status_of (verdict o) in
    rw (pay_valid env decimal charge b req s v) (
      rw (claim_lem env b i key hash calm s inv f) (
        finalized-Answers env decimal charge b (asked env token s inv) st _ (
          finalize-Answers env b _ _ inv calm o _ fits
            (claimed-AreReady env b i key hash s inv f c))))
