-- ===== src/Payment/Pay/Known.antt =====
-- A request of `PayInvoice` whose idempotency key is in the table already
-- (internal/payment/payment.go).
use dodo_payments_backend.Base.{
  ℕ, ◌+◌, ◌≡◌, refl, false, ◌||◌, Option, some, [], arith, find_row, ltb, length, if◌then◌else◌,
}
use dodo_payments_backend.Base.Text.{Text, text, text_eq, is_empty, trim_space}
use dodo_payments_backend.Db.{RowId, IdempotencyKey, is_completed}
use dodo_payments_backend.Db.Tx.{settle, exec, finish, run_tx, Session}
use dodo_payments_backend.Db.Queries.Payment.{key_is, get_idempotency_key}
use dodo_payments_backend.Http.{Env, Response, raw, error_response}
use dodo_payments_backend.Psp.{ChargeRequest, ChargeResult}
use dodo_payments_backend.Payment.Types.{PayRequest}
use dodo_payments_backend.Payment.Claim.{
  fingerprint, claim, claim_body, claim_existing, claim_found,
}
use dodo_payments_backend.Payment.Pay.{
  claim_refused, int_or_zero, bytes_or_nil, proceed, pay_with, pay_body, pay_invoice,
}

-- A request that passes the checks of the handler, and what it asks for.
pub record IsValid (env : Env) (req : PayRequest) (invoice_id : RowId) (key token : Text)
    : Type 0 where
  pub trimmed : trim_space req.idempotency_key ≡ key
  pub bounded : (is_empty key || ltb 255 (length key)) ≡ false
  pub decoded : env.decode (text "inv") req.id ≡ some invoice_id
  pub card : (s : Text) × (req.card_token ≡ some s) × (trim_space s ≡ token)
  pub given : is_empty token ≡ false

-- The response that a key in the table promises to a request with the hash.
abbrev pub promised : IdempotencyKey → Text → Response Text
promised k hash =
    if text_eq k.request_hash hash
    then (if is_completed k.status
        then record {
          status = int_or_zero k.response_status;
          body = raw (bytes_or_nil k.response_body);
        }
        else error_response 409 (text "payment_in_progress")
            (text "A payment is already processing for this invoice"))
    else error_response 409 (text "idempotency_conflict")
        (text "Idempotency key was already used with a different request")

module _ (env : Env) (decimal : RowId → Text) (charge : ChargeRequest → Option ChargeResult)
    (b : RowId) where
  -- A valid request is one of the claim.
  pub pay_valid :
      (req : PayRequest) {i : RowId} {key token : Text} (s : Session)
      → IsValid env req i key token
      → pay_invoice env decimal charge b req s ≡ pay_with env decimal charge b i key token s
  unfolding pay_invoice pay_body
  pay_valid req s v =
      let (c, is, same) = v.card in
      rw (v.trimmed, v.bounded, v.decoded, is, same, v.given, v.trimmed) refl

  -- A claim under a known key never starts a payment.
  claim_replays :
      (i : RowId) (key hash : Text) (s : Session) {k : IdempotencyKey}
      → find_row (key_is b key) s.db.idempotency_keys ≡ some k
      → (token : Text)
      → let out = proceed env decimal charge b token (claim env b i key hash s) in
        (out.charges ≡ []) × (out.session.db ≡ s.db)
  unfolding claim claim_body claim_existing claim_found run_tx finish exec settle
      get_idempotency_key proceed
  claim_replays i key hash s f token = ground arith

  claim-promised :
      (i : RowId) (key hash : Text) (s : Session) {k : IdempotencyKey}
      → ((n : ℕ) → env.fault n ≡ false)
      → find_row (key_is b key) s.db.idempotency_keys ≡ some k
      → (token : Text)
      → (proceed env decimal charge b token (claim env b i key hash s)).response ≡ promised k hash
  unfolding claim claim_body claim_existing claim_found run_tx finish exec settle
      get_idempotency_key proceed claim_refused
  claim-promised i key hash s calm f token =
      ground (arith, calm s.ticks, calm (s.ticks + 1), calm (s.ticks + 1 + 1))

  -- Whatever fails, a valid request under a known key neither calls the PSP nor changes a table.
  pub known_silent :
      (req : PayRequest) (i : RowId) (key token : Text) (s : Session) (k : IdempotencyKey)
      → IsValid env req i key token
      → find_row (key_is b key) s.db.idempotency_keys ≡ some k
      → let out = pay_invoice env decimal charge b req s in
        (out.charges ≡ []) × (out.session.db ≡ s.db)
  unfolding pay_with
  known_silent req i key token s k v f =
      rw (pay_valid req s v) (claim_replays i key (fingerprint env decimal i token) s f token)

  -- A valid request under a known key gets, if no statement fails for the connection, the stored
  -- response when it is the one that the key was used for and its payment is complete, 409
  -- payment_in_progress when it is not complete, and 409 idempotency_conflict when the key was used
  -- for another request.
  pub known_promised :
      (req : PayRequest) (i : RowId) (key token : Text) (s : Session) (k : IdempotencyKey)
      → IsValid env req i key token
      → find_row (key_is b key) s.db.idempotency_keys ≡ some k
      → ((n : ℕ) → env.fault n ≡ false)
      → (pay_invoice env decimal charge b req s).response
        ≡ promised k (fingerprint env decimal i token)
  unfolding pay_with
  known_promised req i key token s k v f calm =
      rw (pay_valid req s v) (claim-promised i key (fingerprint env decimal i token) s calm f token)
