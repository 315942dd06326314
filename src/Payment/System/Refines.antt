-- ===== src/Payment/System/Refines.antt =====
-- The payment endpoint under concurrency refines its abstract ledger (internal/payment/payment.go).
use mathlib.Core.Path.{subst, fun_ext}
use dodo_payments_backend.Base.{
  Bool, ◌≡◌, refl, ap, ◌∙◌, true, false, [], ◌∷◌, ◌++◌, arith, any_row, update_rows,
}
use dodo_payments_backend.Base.Rows.{All-map, any_row-weaken}
use dodo_payments_backend.Base.Text.{Text}
use dodo_payments_backend.Base.Members.{AllPairs-last}
use dodo_payments_backend.Db.{
  RowId, PaymentAttempt, PaymentStatus, unknown, failed, succeeded, Invoice, IdempotencyKey, Db,
  is_processing,
}
use dodo_payments_backend.Db.Tx.Inversion.{run_tx_ok, opened}
use dodo_payments_backend.Db.Queries.Payment.{attempt_runs, clashes}
use dodo_payments_backend.Http.{Env}
use dodo_payments_backend.Payment.Claim.{claim_new}
use dodo_payments_backend.Payment.Claim.Effects.{claim_fresh, claim_new_fresh, IsClaimed}
use dodo_payments_backend.Payment.Finalize.Verdict.{
  Verdict, uncertain, declined, charged, verdict, resolved,
}
use dodo_payments_backend.Payment.Finalize.Effects.{finalize_ok}
use dodo_payments_backend.Payment.System.{
  System, start, Flight, Step, claims, claims_late, charges, finalizes, ends, voids, invoices,
  others, Reach, here, next,
}
use dodo_payments_backend.Payment.System.Rows.{
  Exclusive, IsSafe, AgreesWith, IsTruthful, has_attempt,
}
use dodo_payments_backend.Payment.System.Claims.{claim-IsSafe}
use dodo_payments_backend.Payment.System.Others.{void_ok, create_ok}
use dodo_payments_backend.Payment.System.Safety.{Reach-IsSafe}
use dodo_payments_backend.Payment.System.Ledger.{
  ids_where, nothing, books, ledger, Bill, Bills, begun, billed,
}
use dodo_payments_backend.Payment.System.Ledger.Posting.{
  Says, stay-Bill, claim-Bill, charge-Bill, resolve-Bill,
}

-- A claim.
claims-Bill :
    (env : Env) (b i : RowId) (key hash : Text) (sys : System) {before after : Db}
    {idem : IdempotencyKey} {attempt : PaymentAttempt} {inv : Invoice}
    → before ≡ sys.db
    → IsClaimed env b i key hash before after idem attempt inv
    → IsSafe sys
    → Bill (ledger sys) (books sys.captured after.payment_attempts)
claims-Bill env b i key hash sys {before} {after} {idem} {attempt} {inv} same c safe =
    let xs = sys.db.payment_attempts in
    let wrote : after.payment_attempts ≡ xs ++ attempt ∷ [] =
      ap (λ (d : Db). d.payment_attempts) c.written
      ∙ ap (λ (d : Db). d.payment_attempts ++ attempt ∷ []) same in
    let runs : is_processing attempt.status ≡ true =
      ap (λ (x : PaymentAttempt). is_processing x.status) c.new_attempt in
    let absent : any_row (has_attempt attempt.id) xs ≡ false =
      any_row-weaken (has_attempt attempt.id) (clashes attempt.id i idem.id attempt.psp_request_id)
        xs (λ x e. ground arith) (rw same at c.alone) in
    let claimed = claim-IsSafe env b i key hash sys same c safe in
    let apart = AllPairs-last Exclusive xs attempt (rw wrote at claimed.sound.exclusive) in
    rw wrote (
      claim-Bill sys.captured xs attempt runs (safe.new attempt.id absent).1
        (All-map (λ (x : PaymentAttempt). Exclusive x attempt) _ xs
          (λ x e bill. ground (arith, e.1 bill, runs)) apart)
        safe.kept)

resolved_ids :
    (env : Env) (f : Flight) (v : Verdict) (x : PaymentAttempt)
    → ((resolved env f.business_id f.idem f.attempt f.invoice v x).id ≡ x.id)
      × ((resolved env f.business_id f.idem f.attempt f.invoice v x).invoice_id ≡ x.invoice_id)
resolved_ids env f uncertain x = (refl, refl)
resolved_ids env f (declined r) x = (refl, refl)
resolved_ids env f (charged r) x = (refl, refl)

-- The status that the answer of the PSP gives the attempt.
abbrev status_for : Verdict → PaymentStatus
status_for uncertain = unknown
status_for (declined r) = failed
status_for (charged r) = succeeded

resolved_status :
    (env : Env) (f : Flight) (v : Verdict) (x : PaymentAttempt)
    → (resolved env f.business_id f.idem f.attempt f.invoice v x).status ≡ status_for v
resolved_status env f uncertain x = refl
resolved_status env f (declined r) x = refl
resolved_status env f (charged r) x = refl

verdict-Says : (v : Verdict) (took : Bool) → IsTruthful v took → Says took (status_for v)
verdict-Says uncertain took h = tt
verdict-Says (declined r) took h = h
verdict-Says (charged r) took h = h

Step-Bill : {sys sys' : System} → IsSafe sys → Step sys sys' → Bill (ledger sys) (ledger sys')
Step-Bill {sys} safe (claims env b i key hash s t idem attempt inv same run) =
    claims-Bill env b i key hash sys same (claim_fresh env b i key hash s run) safe
Step-Bill {sys} safe (claims_late env b i key hash s t idem attempt inv same run) =
    let (body, done, _) = run_tx_ok env.fault env.lost (claim_new env b i key hash) s run in
    claims-Bill env b i key hash sys {after = t.db} {idem = idem} {attempt = attempt} {inv = inv}
      same (rw done (claim_new_fresh env b i key hash (opened s) body)) safe
Step-Bill {sys} safe (charges a f answer took flying waits honest) =
    let k = safe.aloft a f flying in
    let (_, untaken) =
      subst (λ o. AgreesWith o (sys.calls a) (sys.captured a)) waits (safe.agrees a f flying) in
    charge-Bill sys.captured sys.db.payment_attempts a f.invoice.id k.running k.present
      safe.sound.exclusive safe.kept took untaken
Step-Bill {sys} safe (finalizes env a f answer s t status body flying answered same run) =
    let k = safe.aloft a f flying in
    let v = verdict answer in
    let done = finalize_ok env f.business_id f.idem f.attempt f.invoice answer s run in
    let wrote : t.db.payment_attempts
        ≡ update_rows (attempt_runs f.attempt.id)
            (resolved env f.business_id f.idem f.attempt f.invoice v) sys.db.payment_attempts =
      ap (λ (d : Db). d.payment_attempts) done.1
      ∙ ap
          (λ (d : Db).
            update_rows (attempt_runs f.attempt.id)
              (resolved env f.business_id f.idem f.attempt f.invoice v) d.payment_attempts)
          same in
    let (_, truth) =
      subst (λ o. AgreesWith o (sys.calls a) (sys.captured a)) answered (safe.agrees a f flying) in
    rw wrote (
      resolve-Bill sys.captured sys.db.payment_attempts a f.invoice.id k.running k.present
        safe.sound.exclusive safe.kept (status_for v) (attempt_runs f.attempt.id)
        (resolved env f.business_id f.idem f.attempt f.invoice v)
        (verdict-Says v (sys.captured a) truth) (resolved_ids env f v) (resolved_status env f v)
        (λ x. ground (arith, k.own)))
Step-Bill {sys} safe (ends a) = stay-Bill (ledger sys) (ledger sys) (λ j. refl)
Step-Bill {sys} safe (voids now i b v db' run) =
    stay-Bill (ledger sys) _
      (λ j. ap (λ (d : Db). books sys.captured d.payment_attempts j) (void_ok now i b sys.db run))
Step-Bill {sys} safe (invoices now i b c total currency state due v db' run) =
    stay-Bill (ledger sys) _ (λ j.
      ap (λ (d : Db). books sys.captured d.payment_attempts j)
        (create_ok now i b c total currency state due sys.db run).1)
Step-Bill {sys} safe (others db' same same') =
    stay-Bill (ledger sys) _ (λ j. ap (λ xs. books sys.captured xs j) same')

-- However requests, calls of the PSP, voids and crashes interleave, the endpoint runs as the ledger
-- allows: its steps are steps of the ledger, in which at most one invoice makes a move. There a
-- charge begins only where no attempt of the invoice runs or is uncertain, the PSP took money for
-- none and none was paid; money is taken only by the attempt that runs, and once; an attempt is given
-- up only while no money was taken for it, and paid only after it was; and what was taken stays
-- taken. The PSP is taken to tell the truth when it answers.
pub refines : {sys : System} → Reach start sys → Bills (λ i. nothing) (ledger sys)
unfolding ids_where
refines here = rw none_yet (begun)
  where
    none_yet : ledger start ≡ (λ i. nothing)
    none_yet = fun_ext (λ i. refl)
refines (next r st) = billed (refines r) (Step-Bill (Reach-IsSafe r) st)
