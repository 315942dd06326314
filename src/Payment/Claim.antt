-- ===== src/Payment/Claim.antt =====
-- `fingerprint` and `claim` of internal/payment/payment.go: the first transaction.
pub mod Effects
pub mod Total
use dodo_payments_backend.Base.{not, Option, none, some, ◌∷◌, ◌++◌, if◌then◌else◌}
use dodo_payments_backend.Base.Result.{Result}
use dodo_payments_backend.Base.Text.{Text, text, text_eq}
use dodo_payments_backend.Db.{RowId, IdempotencyKey, Invoice, is_open, is_completed}
use dodo_payments_backend.Db.Tx.{
  Error, hash_conflict, payment_in_progress, not_payable, Session, Tx, pure, fail, ◌>>=◌, optional,
  on_unique, exec, run_tx, next_id,
}
use dodo_payments_backend.Db.Queries.Payment.{
  get_idempotency_key, create_idempotency_key, get_invoice_for_payment, create_payment_attempt,
}
use dodo_payments_backend.Http.{Env}
use dodo_payments_backend.Payment.Types.{Claim, replayed, fresh}

-- `strconv.FormatInt(id, 10)`, as a parameter of the fingerprint: `decimal`.
unfoldable pub fingerprint : Env → (RowId → Text) → RowId → Text → Text
fingerprint env decimal invoice_id token =
    env.sha256_hex
      (text "invoice_id=" ++ (decimal invoice_id ++ (10 ∷ text "card_token=" ++ token)))

module _ (env : Env) (business_id invoice_id : RowId) (key hash : Text) where
  -- From the lock on the invoice to the new attempt.
  unfoldable pub claim_open : Invoice → Tx Claim
  claim_open inv = if not (is_open inv.state) then fail not_payable else do
    key_id ← next_id env.ids
    idem ← exec env.fault (create_idempotency_key env.now key_id business_id key hash)
    attempt_id ← next_id env.ids
    psp_request_id ← next_id env.ids
    attempt ← on_unique payment_in_progress (
        exec env.fault
          (create_payment_attempt env.now attempt_id invoice_id idem.id psp_request_id))
    pure (fresh idem attempt inv)

  -- The branch for a key that is not known yet.
  unfoldable pub claim_new : Tx Claim
  claim_new = do
    inv ← exec env.fault (get_invoice_for_payment invoice_id business_id)
    claim_open inv

  -- A key that is known already.
  unfoldable pub claim_existing : IdempotencyKey → Tx Claim
  claim_existing existing =
      if text_eq existing.request_hash hash
      then (if is_completed existing.status
          then pure (replayed existing)
          else fail payment_in_progress)
      else fail hash_conflict

  unfoldable pub claim_found : Option IdempotencyKey → Tx Claim
  claim_found (some existing) = claim_existing existing
  claim_found none = claim_new

  unfoldable pub claim_body : Tx Claim
  claim_body = do
    found ← optional (exec env.fault (get_idempotency_key business_id key))
    claim_found found

  unfoldable pub claim : Session → Result Error Claim × Session
  claim s = run_tx env.fault env.lost claim_body s
