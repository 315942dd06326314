-- ===== src/Payment/Tests/Requests.antt =====
-- One request, and its repetition.
use dodo_payments_backend.Base.{
  ◌≡◌, ◌⊎◌, refl, false, Option, none, some, [], ◌∷◌, arith, find_row, any_row, update_rows,
}
use dodo_payments_backend.Base.Int.{pos}
use dodo_payments_backend.Base.Result.{ok}
use dodo_payments_backend.Base.Text.{Text, text, text_eq, trim_space}
use dodo_payments_backend.Db.{Db}
use dodo_payments_backend.Db.Tx.{Session, settle, exec, finish, run_tx, next_id}
use dodo_payments_backend.Db.Queries.Payment.{
  get_idempotency_key, create_idempotency_key, get_invoice_for_payment, create_payment_attempt,
  complete_idempotency_key, mark_payment_attempt_unknown, key_is, completed_key,
  new_idempotency_key,
}
use dodo_payments_backend.Psp.{ChargeRequest, ChargeResult}
use dodo_payments_backend.Payment.Types.{fresh}
use dodo_payments_backend.Payment.Claim.{
  fingerprint, claim, claim_body, claim_found, claim_new, claim_open,
}
use dodo_payments_backend.Payment.Claim.Effects.{IsClaimed, claim_fresh}
use dodo_payments_backend.Payment.Finalize.{
  finalize, finalize_body, finalize_outcome, finalize_unknown, store_response,
}
use dodo_payments_backend.Payment.Pay.{finalized, proceed, pay_with, pay_body, pay_invoice}
use dodo_payments_backend.Payment.Pay.Known.{IsValid, promised, known_silent, known_promised}
use dodo_payments_backend.Payment.Pay.Charges.{IsDueFor, pay_invoice-charges}
use dodo_payments_backend.Payment.Pay.Retry.{stored, pay_again}
use dodo_payments_backend.Payment.Tests.Data.{
  test_env, decimal, open_db, session, key, hash, idem, attempt, invoice, claimed_db, approved,
  request,
}

abbrev after_claim : Session
after_claim = record { db = claimed_db; drawn = 3; ticks = 6; aborted = false }

claim_run :
    claim test_env 1 7 key hash (session open_db) ≡ (ok (fresh idem attempt invoice), after_claim)
unfolding claim claim_body claim_found claim_new claim_open run_tx finish exec settle next_id
    get_idempotency_key get_invoice_for_payment create_idempotency_key create_payment_attempt
    find_row any_row text_eq
claim_run = refl

claim_fresh_example : IsClaimed test_env 1 7 key hash open_db claimed_db idem attempt invoice
claim_fresh_example = claim_fresh test_env 1 7 key hash (session open_db) claim_run

pub valid : IsValid test_env request 7 key (text "tok")
unfolding trim_space
valid = record {
  trimmed = refl;
  bounded = refl;
  decoded = refl;
  card = (text "tok ", refl, refl);
  given = refl;
}

-- The key of the request is in use, for the same or for another request.
abbrev used_db : Text → Db
used_db request_hash = record open_db {
  idempotency_keys =
      completed_key (λ s. s) 61 402 (text "{}") (new_idempotency_key 60 100 1 key request_hash)
      ∷ [];
}

abbrev pub charge_approved : ChargeRequest → Option ChargeResult
charge_approved c = some approved

used_found :
    find_row (key_is 1 key) (used_db hash).idempotency_keys
    ≡ some (completed_key (λ s. s) 61 402 (text "{}") (new_idempotency_key 60 100 1 key hash))
unfolding find_row text_eq
used_found = refl

known_silent_example :
    (let out = pay_invoice test_env decimal charge_approved 1 request (session (used_db hash)) in
      (out.charges ≡ []) × (out.session.db ≡ used_db hash))
known_silent_example =
    known_silent test_env decimal charge_approved 1 request 7 key (text "tok")
      (session (used_db hash)) _ valid used_found

known_promised_example :
    (pay_invoice test_env decimal charge_approved 1 request (session (used_db hash))).response
    ≡ promised
        (completed_key (λ s. s) 61 402 (text "{}") (new_idempotency_key 60 100 1 key hash))
        (fingerprint test_env decimal 7 (text "tok"))
known_promised_example =
    known_promised test_env decimal charge_approved 1 request 7 key (text "tok")
      (session (used_db hash)) _ valid used_found (λ n. refl)

pay_invoice-charges_example :
    (let out = pay_invoice test_env decimal charge_approved 1 request (session open_db) in
      (out.charges ≡ []) ⊎ ((c : ChargeRequest) × (out.charges ≡ c ∷ []) × IsDueFor open_db 1 c))
pay_invoice-charges_example =
    pay_invoice-charges test_env decimal charge_approved 1 request (session open_db)

-- A first request whose call of the PSP ends in a transport error.
charge_lost : ChargeRequest → Option ChargeResult
charge_lost c = none

abbrev first_call : ChargeRequest
first_call = record {
  token = text "tok";
  amount_cents = pos 1250;
  currency = text "USD";
  psp_request_id = 102;
}

first_run :
    ((pay_invoice test_env decimal charge_lost 1 request (session open_db)).charges
      ≡ first_call ∷ [])
    × ((pay_invoice test_env decimal charge_lost 1 request (session open_db)).response.status ≡ 202)
unfolding pay_invoice pay_body pay_with proceed finalized fingerprint trim_space charge_lost claim
    claim_body claim_found claim_new claim_open run_tx finish exec settle next_id
    get_idempotency_key get_invoice_for_payment create_idempotency_key create_payment_attempt
    find_row any_row text_eq finalize finalize_body finalize_outcome finalize_unknown store_response
    mark_payment_attempt_unknown complete_idempotency_key update_rows
first_run = (refl, refl)

pay_again_example :
    (let first = pay_invoice test_env decimal charge_lost 1 request (session open_db) in
      let again =
        pay_invoice
          (record test_env { fault = λ _. false })
          decimal
          charge_lost
          1
          request
          (session first.session.db) in
      (again.response ≡ stored test_env.jsonb first.response)
      × (again.charges ≡ [])
      × (again.session.db ≡ first.session.db))
pay_again_example =
    pay_again test_env decimal charge_lost 1 request 7 key (text "tok") (session open_db)
      (session (pay_invoice test_env decimal charge_lost 1 request (session open_db)).session.db)
      first_call valid first_run.0 (ground (arith, first_run.1)) refl
