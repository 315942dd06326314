-- ===== src/Payment/Claim/Effects.antt =====
-- What the claim of internal/payment/payment.go does to the tables.
use dodo_payments_backend.Base.{
  ◌==◌, ◌≡◌, true, false, ◌||◌, Option, none, some, [], ◌∷◌, ◌++◌, arith, find_row, any_row,
}
use dodo_payments_backend.Base.Result.{ok}
use dodo_payments_backend.Base.Text.{Text}
use dodo_payments_backend.Db.{RowId, IdempotencyKey, PaymentAttempt, Invoice, Db, is_open}
use dodo_payments_backend.Db.Tx.{optional, Session, exec, settle, finish, run_tx, next_id}
use dodo_payments_backend.Db.Tx.Inversion.{bind_ok, exec_ok, run_tx_ok, opened}
use dodo_payments_backend.Db.Queries.Payment.{
  get_idempotency_key, create_idempotency_key, get_invoice_for_payment, create_payment_attempt,
  invoice_is, key_is, new_idempotency_key, new_payment_attempt, clashes,
}
use dodo_payments_backend.Http.{Env}
use dodo_payments_backend.Payment.Types.{fresh}
use dodo_payments_backend.Payment.Claim.{
  claim_open, claim_new, claim_existing, claim_found, claim_body, claim,
}

module _ (env : Env) (b i : RowId) (key hash : Text) where
  pub record IsClaimed (before after : Db) (idem : IdempotencyKey) (attempt : PaymentAttempt)
      (inv : Invoice) : Type 0 where
    pub found : find_row (invoice_is i b) before.invoices ≡ some inv
    pub payable : is_open inv.state ≡ true
    pub new_key : idem ≡ new_idempotency_key env.now idem.id b key hash
    pub new_attempt :
        attempt ≡ new_payment_attempt env.now attempt.id i idem.id attempt.psp_request_id
    pub alone :
        any_row (clashes attempt.id i idem.id attempt.psp_request_id) before.payment_attempts
        ≡ false
    pub unknown_key :
        any_row (λ k. (k.id == idem.id) || key_is b key k) before.idempotency_keys ≡ false
    pub written : after ≡ record before {
      idempotency_keys = before.idempotency_keys ++ idem ∷ [];
      payment_attempts = before.payment_attempts ++ attempt ∷ [];
    }

  claim_open_fresh :
      (inv : Invoice) (s : Session) {idem : IdempotencyKey} {attempt : PaymentAttempt}
      {inv' : Invoice} {s' : Session}
      → find_row (invoice_is i b) s.db.invoices ≡ some inv
      → claim_open env b i key hash inv s ≡ (ok (fresh idem attempt inv'), s')
      → IsClaimed s.db s'.db idem attempt inv'
  unfolding claim_open exec settle next_id create_idempotency_key create_payment_attempt
  claim_open_fresh inv s f h = ground arith

  pub claim_new_fresh :
      (s : Session) {idem : IdempotencyKey} {attempt : PaymentAttempt} {inv : Invoice}
      {s' : Session}
      → claim_new env b i key hash s ≡ (ok (fresh idem attempt inv), s')
      → IsClaimed s.db s'.db idem attempt inv
  unfolding claim_new get_invoice_for_payment
  claim_new_fresh s h =
      let (inv, t, read, rest) =
        bind_ok (exec env.fault (get_invoice_for_payment i b)) (claim_open env b i key hash) s h in
      let (query, _, _, _) = exec_ok env.fault (get_invoice_for_payment i b) s read in
      let found : (find_row (invoice_is i b) t.db.invoices ≡ some inv) × (t.db ≡ s.db) =
        ground (arith, query) in
      rw (← found.1) (claim_open_fresh inv t found.0 rest)

  lookup_none :
      (s : Session) {t : Session}
      → optional (exec env.fault (get_idempotency_key b key)) s ≡ (ok none, t)
      → t.db ≡ s.db
  unfolding exec settle get_idempotency_key
  lookup_none s h = ground arith

  body_fresh :
      (s : Session) {idem : IdempotencyKey} {attempt : PaymentAttempt} {inv : Invoice}
      {s' : Session}
      → claim_body env b i key hash s ≡ (ok (fresh idem attempt inv), s')
      → IsClaimed s.db s'.db idem attempt inv
  unfolding claim_body claim_found claim_existing
  body_fresh s {idem} {attempt} {inv} {s'} h =
      let (found, t, read, rest) =
        bind_ok (optional (exec env.fault (get_idempotency_key b key)))
          (claim_found env b i key hash) s h in
      go found t read rest
    where
      go :
          (found : Option IdempotencyKey) (t : Session)
          → optional (exec env.fault (get_idempotency_key b key)) s ≡ (ok found, t)
          → claim_found env b i key hash found t ≡ (ok (fresh idem attempt inv), s')
          → IsClaimed s.db s'.db idem attempt inv
      go none t read rest = rw (← lookup_none s read) (claim_new_fresh t rest)
      go (some k) t read rest = absurd (ground arith)

  -- A claim that was not replayed has found the invoice, open and with no unresolved attempt, and
  -- the key unknown; it has written one key and one attempt, both PROCESSING, and nothing else.
  pub claim_fresh :
      (s : Session) {idem : IdempotencyKey} {attempt : PaymentAttempt} {inv : Invoice}
      {s' : Session}
      → claim env b i key hash s ≡ (ok (fresh idem attempt inv), s')
      → IsClaimed s.db s'.db idem attempt inv
  unfolding claim
  claim_fresh s h =
      let (body, same, _) = run_tx_ok env.fault env.lost (claim_body env b i key hash) s h in
      rw same (body_fresh (opened s) body)

  -- A key that is known with the same request and a stored response is replayed, another request
  -- is a conflict, and a key without a response is in progress; none of these writes anything.
  pub claim_known :
      (s : Session) {k : IdempotencyKey}
      → find_row (key_is b key) s.db.idempotency_keys ≡ some k
      → (claim env b i key hash s).1.db ≡ s.db
  unfolding claim claim_body claim_existing claim_found run_tx finish exec settle
      get_idempotency_key
  claim_known s f = ground arith
