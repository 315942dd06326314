-- ===== src/Payment/Pay/Charges.antt =====
-- When `PayInvoice` calls the PSP, and with what (internal/payment/payment.go).
use dodo_payments_backend.Base.{
  ℕ, ◌⊎◌, ◌≡◌, inl, inr, refl, sym, true, ◌||◌, Option, none, some, List, [], ◌∷◌, arith, find_row,
  ltb, length, Option-cases, Bool-cases,
}
use mathlib.Core.Path.{subst}
use dodo_payments_backend.Base.Rows.{find_row-holds}
use dodo_payments_backend.Base.Result.{Result, ok, err}
use dodo_payments_backend.Base.Text.{Text, text, is_empty, trim_space}
use dodo_payments_backend.Db.{RowId, Invoice, Db, is_open}
use dodo_payments_backend.Db.Tx.{Error, Session}
use dodo_payments_backend.Db.Queries.Payment.{invoice_is}
use dodo_payments_backend.Http.{Env}
use dodo_payments_backend.Psp.{ChargeRequest, ChargeResult}
use dodo_payments_backend.Payment.Types.{PayRequest, Claim, replayed, fresh}
use dodo_payments_backend.Payment.Claim.{claim}
use dodo_payments_backend.Payment.Claim.Effects.{claim_fresh}
use dodo_payments_backend.Payment.Pay.{finalized, proceed, pay_with, pay_body, pay_invoice}

-- One call, for exactly the total of an open invoice of the business.
pub record IsDueFor (db : Db) (b : RowId) (c : ChargeRequest) : Type 0 where
  pub invoice : Invoice
  pub found : find_row (invoice_is invoice.id b) db.invoices ≡ some invoice
  pub payable : is_open invoice.state ≡ true
  pub amount : c.amount_cents ≡ invoice.total_amount_cents
  pub currency : c.currency ≡ invoice.currency

module _ (env : Env) (decimal : RowId → Text) (charge : ChargeRequest → Option ChargeResult)
    (b : RowId) where
  -- The calls of the PSP that an outcome shows are none, or one that is due.
  abbrev AreDue : Db → List ChargeRequest → Type 0
  AreDue db charges = (charges ≡ []) ⊎ ((c : ChargeRequest) × (charges ≡ c ∷ []) × IsDueFor db b c)

  finalized_charges :
      (request : ChargeRequest) (r : Result Error (ℕ × Text) × Session)
      → (finalized env decimal charge b request r).charges ≡ request ∷ []
  unfolding finalized
  finalized_charges request (ok a, s) = refl
  finalized_charges request (err e, s) = refl

  claim_charges :
      (i : RowId) (key hash token : Text) (s : Session) (r : Result Error Claim × Session)
      → claim env b i key hash s ≡ r
      → AreDue s.db (proceed env decimal charge b token r).charges
  unfolding proceed
  claim_charges i key hash token s (err e, t) h = inl refl
  claim_charges i key hash token s (ok (replayed idem), t) h = inl refl
  claim_charges i key hash token s (ok (fresh idem attempt inv), t) h =
      let c = claim_fresh env b i key hash s h in
      let own = find_row-holds (invoice_is i b) s.db.invoices c.found in
      let same : inv.id ≡ i = ground arith in
      inr (
        _,
        finalized_charges _ _,
        record {
          invoice = inv;
          found =
              subst (λ j. find_row (invoice_is j b) s.db.invoices ≡ some inv) (sym same) c.found;
          payable = c.payable;
          amount = refl;
          currency = refl;
        },
      )

  -- A request calls the PSP at most once, and then with the total and the currency of an OPEN
  -- invoice of the business.
  pub pay_invoice-charges :
      (req : PayRequest) (s : Session)
      → (let out = pay_invoice env decimal charge b req s in
          (out.charges ≡ []) ⊎ ((c : ChargeRequest) × (out.charges ≡ c ∷ []) × IsDueFor s.db b c))
  unfolding pay_invoice pay_body pay_with
  pay_invoice-charges req s =
      let key = trim_space req.idempotency_key in
      elim (Bool-cases (is_empty key || ltb 255 (length key))) [
        | inl e ↦ rw e (inl refl)
        | inr e ↦ elim (Option-cases (env.decode (text "inv") req.id)) [
          | inl d ↦ rw (e, d) (inl refl)
          | inr (i, d) ↦ rw (e, d) (by_token i req.card_token)
        ]
      ]
    where
      by_token :
          (i : RowId) (card : Option Text)
          → AreDue s.db
              (pay_body env decimal charge b i (trim_space req.idempotency_key) card s).charges
      by_token i none = inl refl
      by_token i (some card_token) = elim (Bool-cases (is_empty (trim_space card_token))) [
        | inl e ↦ rw e (inl refl)
        | inr e ↦ rw e (claim_charges i _ _ (trim_space card_token) s _ refl)
      ]
