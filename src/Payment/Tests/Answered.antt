-- ===== src/Payment/Tests/Answered.antt =====
-- A first request that is answered, for a business with an endpoint.
use dodo_payments_backend.Base.{
  length, sort_by, rows_where, insert_by, ◌≡◌, refl, [], ◌∷◌, find_row, any_row, arith,
}
use dodo_payments_backend.Base.Text.{text}
use dodo_payments_backend.Db.Queries.Webhook.{active_endpoints}
use dodo_payments_backend.Webhook.Outbox.Total.{CanQueue}
use dodo_payments_backend.Payment.Claim.{fingerprint}
use dodo_payments_backend.Payment.Claim.Total.{IsFree}
use dodo_payments_backend.Payment.Finalize.Verdict.{verdict, status_of}
use dodo_payments_backend.Payment.Pay.{pay_invoice}
use dodo_payments_backend.Payment.Pay.Returns.{asked, pay_invoice-Answers}
use dodo_payments_backend.Payment.Tests.Data.{
  test_env, decimal, open_db, session, key, invoice, request,
}
use dodo_payments_backend.Payment.Tests.Requests.{charge_approved, valid}

free : IsFree test_env 1 7 key (fingerprint test_env decimal 7 (text "tok")) open_db 0 invoice
unfolding find_row any_row
free = record { found = refl; payable = refl; unknown_key = refl; business = refl; alone = refl }

can_queue : CanQueue test_env.ids 7 3 (length (active_endpoints 1 open_db)) open_db
unfolding any_row sort_by rows_where insert_by
can_queue = record {
  distinct = λ n m h k l e. omega (arith, k, e);
  unused = λ n h k. refl;
  has_invoice = refl;
}

pay_invoice-Answers_example :
    (let out = pay_invoice test_env decimal charge_approved 1 request (session open_db) in
      (out.response.status
        ≡ status_of
            (verdict (charge_approved (asked test_env (text "tok") (session open_db) invoice))))
      × (out.charges ≡ asked test_env (text "tok") (session open_db) invoice ∷ []))
pay_invoice-Answers_example =
    pay_invoice-Answers test_env decimal charge_approved 1 request 7 key (text "tok")
      (session open_db) invoice (λ n. refl) valid free can_queue (ground arith, ground arith)
