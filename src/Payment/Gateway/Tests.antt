-- ===== src/Payment/Gateway/Tests.antt =====
-- The theorems on `Charge` and the mock PSP at a token whose reply comes too late.
use dodo_payments_backend.Base.{◌≡◌, refl, false, none, some, arith}
use dodo_payments_backend.Base.Int.{pos}
use dodo_payments_backend.Base.Text.{Text, text, text_eq}
use dodo_payments_backend.Http.{Json}
use dodo_payments_backend.Psp.{ChargeRequest}
use dodo_payments_backend.Psp.Client.{new_client, response_limit}
use dodo_payments_backend.Psp.Mock.{succeeded_result}
use dodo_payments_backend.Payment.Finalize.Verdict.{verdict}
use dodo_payments_backend.Payment.System.{IsHonest}
use dodo_payments_backend.Payment.Gateway.{
  takes_money, answer_of, sleep_of, IsRead, charge_mock, charge_mock_lem, charge_mock-IsHonest,
}

abbrev request : Text → ChargeRequest
request token = record {
  token = token;
  amount_cents = pos 500;
  currency = text "USD";
  psp_request_id = 7;
}

abbrev marshal : Json → Text
marshal _ = text "{}"

abbrev slow : ChargeRequest
slow = request (text "tok_timeout")

slow-IsRead : IsRead marshal (λ s. some slow) (λ s. some (succeeded_result slow)) slow
unfolding answer_of takes_money text_eq response_limit
slow-IsRead = record { reads_request = refl; reads_result = λ r h. h; short = λ r h. omega arith }

charge_mock_lem_example :
    charge_mock marshal
      (λ s. some slow)
      (λ s. some (succeeded_result slow))
      false
      0
      (new_client (text "http://psp") 3000)
      slow
    ≡ none
unfolding sleep_of text_eq
charge_mock_lem_example =
    charge_mock_lem marshal (λ s. some slow) (λ s. some (succeeded_result slow)) false 0
      (text "http://psp") 3000 slow slow-IsRead

charge_mock-IsHonest_example :
    IsHonest
      (verdict (
        charge_mock marshal
          (λ s. some slow)
          (λ s. some (succeeded_result slow))
          false
          0
          (new_client (text "http://psp") 40000)
          slow))
      (takes_money (text "tok_timeout"))
charge_mock-IsHonest_example =
    charge_mock-IsHonest marshal (λ s. some slow) (λ s. some (succeeded_result slow)) false 0
      (new_client (text "http://psp") 40000) slow slow-IsRead
