-- ===== src/Payment/System/Safety.antt =====
-- What holds of the payment endpoint however its requests interleave
-- (internal/payment/payment.go): the PSP is asked once for an attempt, and no customer pays an
-- invoice twice.
use dodo_payments_backend.Base.{◌≤◌, ◌≡◌, ◌⊎◌, inl, inr, refl, sym, true, false, arith, Bool-cases}
use mathlib.Core.List.{Memᴰ}
use dodo_payments_backend.Base.Rows.{All-mem, AllPairs-mem}
use dodo_payments_backend.Db.{RowId, PaymentAttempt, Invoice, is_open, is_failed, is_succeeded}
use dodo_payments_backend.Db.Tx.Inversion.{run_tx_ok, opened}
use dodo_payments_backend.Payment.Claim.{claim_new}
use dodo_payments_backend.Payment.Claim.Effects.{claim_fresh, claim_new_fresh}
use dodo_payments_backend.Payment.System.{
  System, start, Step, claims, claims_late, charges, finalizes, ends, voids, invoices, others,
  Reach, here, next,
}
use dodo_payments_backend.Payment.System.Rows.{Exclusive, IsClosed, ClosesInvoice, IsSafe}
use dodo_payments_backend.Payment.System.Claims.{claim-IsSafe}
use dodo_payments_backend.Payment.System.Resolves.{finalize-IsSafe}
use dodo_payments_backend.Payment.System.Charges.{charge-IsSafe}
use dodo_payments_backend.Payment.System.Others.{
  others-IsSafe, void-IsSafe, create-IsSafe, ends-IsSafe,
}

start-IsSafe : IsSafe start
start-IsSafe = record {
  sound = record { exclusive = tt; distinct = tt; known = tt; closed = tt };
  aloft = λ a f e. absurd (ground arith);
  agrees = λ a f e. absurd (ground arith);
  once = λ a. ground arith;
  new = λ a h. (refl, refl);
  kept = tt;
}

Step-IsSafe : {sys sys' : System} → Step sys sys' → IsSafe sys → IsSafe sys'
Step-IsSafe {sys} (claims env b i key hash s t idem attempt inv same run) safe =
    claim-IsSafe env b i key hash sys same (claim_fresh env b i key hash s run) safe
Step-IsSafe {sys} (claims_late env b i key hash s t idem attempt inv same run) safe =
    let (body, done, _) = run_tx_ok env.fault env.lost (claim_new env b i key hash) s run in
    claim-IsSafe env b i key hash sys same
      (rw done (claim_new_fresh env b i key hash (opened s) body)) safe
Step-IsSafe {sys} (charges a f answer took flying waits honest) safe =
    charge-IsSafe sys a f answer took flying waits honest safe
Step-IsSafe {sys} (finalizes env a f answer s t status body flying answered same run) safe =
    finalize-IsSafe env sys a f answer s t status body flying answered same run safe
Step-IsSafe {sys} (ends a) safe = ends-IsSafe sys a safe
Step-IsSafe {sys} (voids now i b v db' run) safe = void-IsSafe now i b sys run safe
Step-IsSafe {sys} (invoices now i b c total currency state due v db' run) safe =
    create-IsSafe now i b c total currency state due sys run safe
Step-IsSafe {sys} (others db' same same') safe = others-IsSafe sys db' same same' safe

pub Reach-IsSafe : {sys : System} → Reach start sys → IsSafe sys
Reach-IsSafe here = start-IsSafe
Reach-IsSafe (next r st) = Step-IsSafe st (Reach-IsSafe r)

-- In every state reached from the empty tables, by any interleaving of requests, voids and
-- crashes, the PSP has been called at most once for each attempt id.
pub called_once : {sys : System} → Reach start sys → (a : RowId) → sys.calls a ≤ 1
called_once r a = (Reach-IsSafe r).once a

-- In every state reached from the empty tables, money was taken for at most one attempt of an
-- invoice: two attempts of the table that are for one invoice, and for which the PSP has taken
-- money, are the same attempt. The PSP is taken to tell the truth when it answers, and an error of
-- the call may mean either.
pub no_double_charge :
    {sys : System}
    → Reach start sys
    → (x y : PaymentAttempt) → Memᴰ x sys.db.payment_attempts
    → Memᴰ y sys.db.payment_attempts
    → x.invoice_id ≡ y.invoice_id
    → sys.captured x.id ≡ true
    → sys.captured y.id ≡ true
    → x ≡ y
no_double_charge {sys} r x y mx my same cx cy =
    let safe = Reach-IsSafe r in
    let kx = All-mem _ sys.db.payment_attempts x safe.kept mx cx in
    let ky = All-mem _ sys.db.payment_attempts y safe.kept my cy in
    elim (AllPairs-mem Exclusive sys.db.payment_attempts x y safe.sound.exclusive mx my) [
      | inl e ↦ e
      | inr (inl p) ↦ absurd (both x y (p.1 same) kx ky)
      | inr (inr p) ↦ absurd (both y x (p.1 (sym same)) ky kx)
    ]
  where
    both :
        (u w : PaymentAttempt)
        → (is_failed u.status ≡ true) ⊎ (is_failed w.status ≡ true)
        → is_failed u.status ≡ false
        → is_failed w.status ≡ false
        → ⊥
    both u w h k l = ground arith

-- In every state reached from the empty tables, an invoice with an attempt that is SUCCEEDED is not
-- open.
pub succeeded_closes :
    {sys : System}
    → Reach start sys
    → (x : PaymentAttempt) (v : Invoice) → Memᴰ x sys.db.payment_attempts
    → Memᴰ v sys.db.invoices
    → x.invoice_id ≡ v.id
    → is_succeeded x.status ≡ true
    → is_open v.state ≡ false
succeeded_closes {sys} r x v mx mv same paid_off =
    let shut =
      All-mem (ClosesInvoice sys.db.invoices) sys.db.payment_attempts x
        (Reach-IsSafe r).sound.closed mx paid_off in
    All-mem (IsClosed x.invoice_id) sys.db.invoices v shut mv (sym same)

-- In every state reached from the empty tables, where the PSP tells the truth when it answers, it
-- has taken no money for an attempt of the table that is FAILED.
pub failed_free :
    {sys : System}
    → Reach start sys
    → (x : PaymentAttempt) → Memᴰ x sys.db.payment_attempts
    → is_failed x.status ≡ true
    → sys.captured x.id ≡ false
failed_free {sys} r x mx failed_one =
    let k = All-mem _ sys.db.payment_attempts x (Reach-IsSafe r).kept mx in
    elim (Bool-cases (sys.captured x.id)) [
      | inl e ↦ let never = k e in absurd (ground arith)
      | inr e ↦ e
    ]
