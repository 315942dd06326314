-- ===== src/Payment/Tests/Interleaved.antt =====
-- A run of the whole system: an invoice is created, claimed, charged and paid.
use dodo_payments_backend.Base.{
  insert_by, sort_by, ◌||◌, Bool, ℕ, ◌+◌, ◌≤◌, ◌≡◌, refl, false, true, Option, none, some, [],
  find_row, any_row, update_rows, rows_where,
}
use mathlib.Core.List.{Memᴰ}
use dodo_payments_backend.Base.Int.{pos}
use dodo_payments_backend.Base.Result.{ok}
use dodo_payments_backend.Base.Text.{text, text_eq}
use dodo_payments_backend.Db.{Db, PaymentAttempt, open_invoice, is_open}
use dodo_payments_backend.Db.Tx.{settle, exec, finish, run_tx, next_id}
use dodo_payments_backend.Db.Queries.Payment.{
  get_idempotency_key, create_idempotency_key, get_invoice_for_payment, create_payment_attempt,
  mark_payment_attempt_succeeded, mark_payment_attempt_failed, mark_invoice_paid,
  complete_idempotency_key, succeeded_attempt, failed_attempt, paid_invoice,
}
use dodo_payments_backend.Db.Queries.Resources.{create_invoice}
use dodo_payments_backend.Db.Queries.Webhook.{
  list_active_webhook_endpoints, create_webhook_delivery,
}
use dodo_payments_backend.Webhook.Outbox.{queue_deliveries, queue_each, build_payload}
use dodo_payments_backend.Payment.Types.{fresh}
use dodo_payments_backend.Psp.{ChargeResult}
use dodo_payments_backend.Payment.Claim.{claim, claim_body, claim_found, claim_new, claim_open}
use dodo_payments_backend.Payment.Finalize.{
  finalize, finalize_body, finalize_outcome, finalize_succeeded, pay_and_respond, respond_succeeded,
  finalize_failed, respond_failed, store_response,
}
use dodo_payments_backend.Payment.Finalize.Verdict.{status_of, verdict}
use dodo_payments_backend.Payment.Finalize.Found.{HasResolved, HasPaid, HasStored, finalize_lem}
use dodo_payments_backend.Payment.Finalize.Effects.{finalized_db}
use dodo_payments_backend.Payment.System.{
  IsHonest, Flight, System, start, at, claims, charges, finalizes, invoices, others, Reach, here,
  next,
}
use dodo_payments_backend.Payment.System.Ledger.{nothing, ledger, Bills}
use dodo_payments_backend.Payment.System.Refines.{refines}
use dodo_payments_backend.Payment.System.Safety.{
  called_once, no_double_charge, succeeded_closes, failed_free,
}
use dodo_payments_backend.Payment.Tests.Data.{
  test_env, open_db, business_db, session, key, hash, idem, attempt, invoice, claimed_db, approved,
}

abbrev flight : Option (Option ChargeResult) → Flight
flight answered = record {
  business_id = 1;
  idem = idem;
  attempt = attempt;
  invoice = invoice;
  answered = answered;
}

claim_run : claim test_env 1 7 key hash (session open_db) ≡ (
  ok (fresh idem attempt invoice),
  record { db = claimed_db; drawn = 3; ticks = 6; aborted = false },
)
unfolding claim claim_body claim_found claim_new claim_open run_tx finish exec settle next_id
    get_idempotency_key get_invoice_for_payment create_idempotency_key create_payment_attempt
    find_row any_row text_eq
claim_run = refl

-- The call of the PSP ends with an answer.
abbrev charged_system : ChargeResult → Bool → System
charged_system r took = record {
  db = claimed_db;
  flights = at 101 (some (flight (some (some r)))) (at 101 (some (flight none)) start.flights);
  calls = at 101 (start.calls 101 + 1) start.calls;
  captured = at 101 (start.captured 101 || took) start.captured;
}

created :
    create_invoice 50 7 1 2 (pos 1250) (text "USD") open_invoice 90 business_db
    ≡ ok (invoice, open_db)
unfolding create_invoice any_row text_eq
created = refl

claimed-Reach : Reach start (record {
  db = claimed_db;
  flights = at 101 (some (flight none)) start.flights;
  calls = start.calls;
  captured = start.captured;
})
claimed-Reach =
    next
      (next (next here (others business_db refl refl))
        (invoices 50 7 1 2 (pos 1250) (text "USD") open_invoice 90 invoice open_db created))
      (claims test_env 1 7 key hash (session open_db) _ idem attempt invoice refl claim_run)

charged-Reach :
    (r : ChargeResult) (took : Bool)
    → IsHonest (verdict (some r)) took
    → Reach start (charged_system r took)
charged-Reach r took honest =
    next claimed-Reach (charges 101 (flight none) (some r) took refl refl honest)

called_once_example : (charged_system approved true).calls 101 ≤ 1
unfolding text_eq
called_once_example = called_once (charged-Reach approved true refl) 101

abbrev rejected : ChargeResult
rejected = record { status = text "failed"; psp_ref = []; failure_code = text "card" }

abbrev end_db : ChargeResult → ℕ → Db
end_db r status =
    finalized_db test_env 1 idem attempt invoice (verdict (some r)) status (text "{}")
      (session claimed_db)

abbrev end_system : ChargeResult → Bool → ℕ → System
end_system r took status = record (charged_system r took) {
  db = end_db r status;
  flights = at 101 none (charged_system r took).flights;
}

paid_run :
    finalize test_env 1 idem attempt invoice (some approved) (session claimed_db)
    ≡ (ok (200, text "{}"), record (session (end_db approved 200)) { drawn = 1; ticks = 7 })
unfolding finalize finalize_body finalize_outcome finalize_succeeded pay_and_respond
    respond_succeeded store_response run_tx finish exec settle next_id
    mark_payment_attempt_succeeded mark_invoice_paid complete_idempotency_key find_row any_row
    update_rows rows_where text_eq queue_deliveries queue_each list_active_webhook_endpoints
    create_webhook_delivery build_payload sort_by insert_by
paid_run = refl

finalize_lem_example :
    (200 ≡ status_of (verdict (some approved)))
    × (end_db approved 200 ≡ end_db approved 200)
    × HasResolved test_env 1 idem attempt invoice
        (verdict (some approved))
        claimed_db
        (end_db approved 200)
    × HasPaid test_env 1 idem attempt invoice
        (verdict (some approved))
        claimed_db
        (end_db approved 200)
    × HasStored test_env 1 idem attempt invoice 200 (text "{}") claimed_db (end_db approved 200)
finalize_lem_example =
    finalize_lem test_env 1 idem attempt invoice (some approved) (session claimed_db) paid_run

failed_run :
    finalize test_env 1 idem attempt invoice (some rejected) (session claimed_db)
    ≡ (ok (402, text "{}"), record (session (end_db rejected 402)) { drawn = 1; ticks = 6 })
unfolding finalize finalize_body finalize_outcome finalize_failed respond_failed store_response
    run_tx finish exec settle next_id mark_payment_attempt_failed complete_idempotency_key find_row
    any_row update_rows rows_where text_eq queue_deliveries queue_each list_active_webhook_endpoints
    create_webhook_delivery build_payload sort_by insert_by
failed_run = refl

paid-Reach : Reach start (end_system approved true 200)
unfolding text_eq
paid-Reach = next (charged-Reach approved true refl) (
    finalizes test_env 101 (flight (some (some approved))) (some approved) (session claimed_db) _
      200 (text "{}") refl refl refl paid_run)

failed-Reach : Reach start (end_system rejected false 402)
unfolding text_eq
failed-Reach = next (charged-Reach rejected false refl) (
    finalizes test_env 101 (flight (some (some rejected))) (some rejected) (session claimed_db) _
      402 (text "{}") refl refl refl failed_run)

abbrev paid_attempt : PaymentAttempt
paid_attempt = succeeded_attempt 60 (text "p1") attempt

paid_there : Memᴰ paid_attempt (end_db approved 200).payment_attempts
unfolding update_rows text_eq
paid_there = Memᴰ.head refl

no_double_charge_example : paid_attempt ≡ paid_attempt
no_double_charge_example =
    no_double_charge paid-Reach paid_attempt paid_attempt paid_there paid_there refl refl refl

invoice_there : Memᴰ (paid_invoice 60 invoice) (end_db approved 200).invoices
unfolding update_rows text_eq
invoice_there = Memᴰ.head refl

succeeded_closes_example : is_open (paid_invoice 60 invoice).state ≡ false
succeeded_closes_example =
    succeeded_closes paid-Reach paid_attempt (paid_invoice 60 invoice) paid_there invoice_there refl
      refl

abbrev declined_attempt : PaymentAttempt
declined_attempt = failed_attempt 60 (text "card") (text "payment_declined") attempt

declined_there : Memᴰ declined_attempt (end_db rejected 402).payment_attempts
unfolding update_rows text_eq
declined_there = Memᴰ.head refl

failed_free_example : (end_system rejected false 402).captured declined_attempt.id ≡ false
failed_free_example = failed_free failed-Reach declined_attempt declined_there refl

refines_example : Bills (λ i. nothing) (ledger (end_system approved true 200))
refines_example = refines paid-Reach
