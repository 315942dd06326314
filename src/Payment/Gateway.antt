-- ===== src/Payment/Gateway.antt =====
-- `Charge` of internal/psp/psp.go against the mock PSP of cmd/mockpsp/main.go, over a network that
-- may lose a reply or bring it too late.
mod Tests
use dodo_payments_backend.Base.{
  ℕ, zero, suc, ◌+◌, ◌^◌, ◌≤◌, ◌≡◌, ◌≢◌, refl, sym, ap, ◌∙◌, Bool, true, false, not, ◌&&◌, ◌||◌,
  Option, none, some, [], ◌∷◌, ◌++◌, arith, if◌then◌else◌, ltb, length, take, Bool-cases, inl, inr,
}
use dodo_payments_backend.Base.Text.{Text, text, text_eq, text_eq_iff}
use dodo_payments_backend.Http.{Json}
use dodo_payments_backend.Psp.{ChargeRequest, ChargeResult}
use dodo_payments_backend.Psp.Client.{
  new_client, HttpRequest, HttpResponse, Client, charge_json, accept, response_limit, read_response,
  charge_http, charge,
}
use dodo_payments_backend.Psp.Mock.{
  Reply, result_json, psp_ref_of, succeeded_result, failed_result, encoded, http_error, by_token,
  reply_to, payment_handler,
}
use dodo_payments_backend.Payment.Finalize.Verdict.{verdict}
use dodo_payments_backend.Payment.System.{IsHonest}

-- The tokens for which the mock PSP takes the money, whether or not its reply arrives.
unfoldable pub takes_money : Text → Bool
takes_money token = text_eq token (text "tok_success") || text_eq token (text "tok_timeout")

-- What the reply for a token says, if it arrives.
unfoldable pub answer_of : ChargeRequest → Option ChargeResult
answer_of req =
    if takes_money req.token
    then some (succeeded_result req)
    else if text_eq req.token (text "tok_insufficient_funds")
    then some (failed_result (text "insufficient_funds"))
    else if text_eq req.token (text "tok_card_declined")
    then some (failed_result (text "card_declined"))
    else none

-- How long the reply of a charge takes, in milliseconds.
unfoldable pub sleep_of : Text → ℕ
sleep_of token = if text_eq token (text "tok_timeout") then 30000 else 100

abbrev pub result_text : (Json → Text) → ChargeResult → Text
result_text marshal r = marshal (result_json r) ++ 10 ∷ []

-- What encoding/json does on the messages of a request: the request is read back from its
-- encoding, and so is the result of its reply, a newline after it included, which is short
-- enough not to be cut.
pub record IsRead (marshal : Json → Text) (parse_request : Text → Option ChargeRequest)
    (parse_result : Text → Option ChargeResult) (req : ChargeRequest) : Type 0 where
  pub reads_request : parse_request (marshal (charge_json req)) ≡ some req
  pub reads_result :
      (r : ChargeResult) → answer_of req ≡ some r → parse_result (result_text marshal r) ≡ some r
  pub short :
      (r : ChargeResult) → answer_of req ≡ some r → length (result_text marshal r) ≤ response_limit

-- A timeout of 0 is none.
abbrev pub is_late : ℕ → ℕ → Bool
is_late timeout sleep = ltb 0 timeout && not (ltb sleep timeout)

-- The exchange: a reply arrives unless it is lost, or comes when the timeout of the client, in
-- milliseconds, is over.
unfoldable pub exchange : Bool → ℕ → Reply → Option HttpResponse
exchange lost timeout reply =
    if lost || is_late timeout reply.sleep then none else some reply.response

module _ (marshal : Json → Text) (parse_request : Text → Option ChargeRequest)
    (parse_result : Text → Option ChargeResult) (lost : Bool) (calls : ℕ) where
  -- `Charge` with the mock at the other end, which has had `calls` calls.
  unfoldable pub charge_mock : Client → ChargeRequest → Option ChargeResult
  charge_mock c req =
      charge marshal parse_result
        (λ timeout r. exchange lost timeout (payment_handler marshal parse_request r calls).0) c req

  take-short : (n : ℕ) (s : Text) → length s ≤ n → take n s ≡ s
  take-short zero [] h = refl
  take-short zero (x ∷ s) h = absurd (omega arith)
  take-short (suc n) [] h = refl
  take-short (suc n) (x ∷ s) h = ap (λ (r : Text). x ∷ r) (take-short n s (omega arith))

  -- A reply that carries a result, if it arrives.
  read_encoded :
      (timeout : ℕ) (r : ChargeResult) (sleep : ℕ)
      → length (result_text marshal r) ≤ response_limit
      → parse_result (result_text marshal r) ≡ some r
      → accept (some r) ≡ some r
      → read_response parse_result (exchange lost timeout (encoded marshal parse_request sleep r))
        ≡ (if lost || is_late timeout sleep then none else some r)
  unfolding read_response exchange
  read_encoded timeout r sleep short reads good =
      elim (Bool-cases (lost || is_late timeout sleep)) [
        | inl e ↦ rw e refl
        | inr e ↦ rw (e, take-short response_limit (result_text marshal r) short, reads) good
      ]

  abbrev Answers : ℕ → ChargeRequest → Type 0
  Answers timeout req =
      read_response parse_result (exchange lost timeout (by_token marshal parse_request req))
      ≡ (if lost || is_late timeout (sleep_of req.token) then none else answer_of req)

  with_result-Answers :
      (timeout : ℕ) (req : ChargeRequest) (r : ChargeResult) (sleep : ℕ)
      → IsRead marshal parse_request parse_result req
      → by_token marshal parse_request req ≡ encoded marshal parse_request sleep r
      → answer_of req ≡ some r
      → sleep_of req.token ≡ sleep
      → accept (some r) ≡ some r
      → Answers timeout req
  with_result-Answers timeout req r sleep json reply answer slept good =
      rw (reply, slept, answer)
        (read_encoded timeout r sleep (json.short r answer) (json.reads_result r answer) good)

  with_error-Answers :
      (timeout : ℕ) (req : ChargeRequest) (message : Text) (code : ℕ)
      → by_token marshal parse_request req ≡ http_error message code
      → code ≢ 200
      → answer_of req ≡ none
      → Answers timeout req
  unfolding read_response exchange
  with_error-Answers timeout req message code reply wrong answer = rw (reply, answer) (ground arith)

  -- The tokens that are answered with a result.
  token-Answers :
      (timeout : ℕ) (req : ChargeRequest) (s : Text) (r : ChargeResult)
      → IsRead marshal parse_request parse_result req
      → text_eq req.token s ≡ true
      → (req.token ≡ s
          → (by_token marshal parse_request req ≡ encoded marshal parse_request (sleep_of s) r)
            × (answer_of req ≡ some r))
      → accept (some r) ≡ some r
      → Answers timeout req
  token-Answers timeout req s r json e facts good =
      let t = (text_eq_iff req.token s).0 e in
      let (reply, answer) = facts t in
      with_result-Answers timeout req r (sleep_of s) json reply answer (ap sleep_of t) good

  by_token-Answers :
      (timeout : ℕ) (req : ChargeRequest)
      → IsRead marshal parse_request parse_result req
      → Answers timeout req
  unfolding by_token answer_of sleep_of text_eq accept takes_money
  by_token-Answers timeout req json = elim (Bool-cases (text_eq req.token (text "tok_success"))) [
    | inl e ↦
        token-Answers timeout req _ (succeeded_result req) json e (λ t. (rw t refl, rw t refl)) refl
    | inr e₁ ↦ elim (Bool-cases (text_eq req.token (text "tok_insufficient_funds"))) [
      | inl e ↦
          token-Answers timeout req _ (failed_result (text "insufficient_funds")) json e
            (λ t. (rw t refl, rw t refl)) refl
      | inr e₂ ↦ elim (Bool-cases (text_eq req.token (text "tok_card_declined"))) [
        | inl e ↦
            token-Answers timeout req _ (failed_result (text "card_declined")) json e
              (λ t. (rw t refl, rw t refl)) refl
        | inr e₃ ↦ elim (Bool-cases (text_eq req.token (text "tok_timeout"))) [
          | inl e ↦
              token-Answers timeout req _ (succeeded_result req) json e
                (λ t. (rw t refl, rw t refl)) refl
          | inr e₄ ↦ elim (Bool-cases (text_eq req.token (text "tok_network_error"))) [
            | inl e ↦
                with_error-Answers timeout req (text "simulated network error") 500 (ground arith)
                  (ground arith) (ground arith)
            | inr e₅ ↦
                with_error-Answers timeout req (text "unknown token") 400 (ground arith)
                  (ground arith) (ground arith)
          ]
        ]
      ]
    ]
  ]

  -- `Charge` by the timeout that its client has.
  charge_by_timeout :
      (c : Client) (req : ChargeRequest)
      → IsRead marshal parse_request parse_result req
      → charge_mock c req
        ≡ (if lost || is_late c.timeout (sleep_of req.token) then none else answer_of req)
  unfolding charge_mock charge charge_http payment_handler reply_to text_eq
  charge_by_timeout c req json = rw json.reads_request (by_token-Answers c.timeout req json)

  -- What `Charge` of a new client gives against the mock PSP, for every token, address and timeout:
  -- nothing where the reply is lost, or the client has a timeout that is not 0 and the reply takes as
  -- long or longer (30 s for tok_timeout, 100 ms for the other tokens); else the result that the
  -- token stands for, and nothing for a token that stands for none. encoding/json is taken to read
  -- back what it has written.
  pub charge_mock_lem :
      (base_url : Text) (timeout : ℕ) (req : ChargeRequest)
      → IsRead marshal parse_request parse_result req
      → charge_mock (new_client base_url timeout) req
        ≡ (if lost || is_late timeout (sleep_of req.token) then none else answer_of req)
  unfolding new_client
  charge_mock_lem base_url timeout req json =
      charge_by_timeout (new_client base_url timeout) req json

  answer-IsHonest :
      (req : ChargeRequest) → IsHonest (verdict (answer_of req)) (takes_money req.token)
  unfolding answer_of text_eq
  answer-IsHonest req = elim (Bool-cases (takes_money req.token)) [
    | inl e ↦ rw e refl
    | inr e ↦ elim (Bool-cases (text_eq req.token (text "tok_insufficient_funds"))) [
      | inl i ↦ rw (e, i) refl
      | inr i ↦ elim (Bool-cases (text_eq req.token (text "tok_card_declined"))) [
        | inl d ↦ rw (e, i, d) refl
        | inr d ↦ rw (e, i, d) tt
      ]
    ]
  ]

  -- Whatever the network loses or delays, the answer of `Charge` tells the truth about the mock PSP:
  -- it is a success only for a token that takes the money, and a failure only for one that does not.
  -- encoding/json is taken to read back what it has written.
  pub charge_mock-IsHonest :
      (c : Client) (req : ChargeRequest)
      → IsRead marshal parse_request parse_result req
      → IsHonest (verdict (charge_mock c req)) (takes_money req.token)
  charge_mock-IsHonest c req json =
      let whole = lost || is_late c.timeout (sleep_of req.token) in
      elim (Bool-cases whole) [
        | inl e ↦ rw (charge_by_timeout c req json, e) tt
        | inr e ↦ rw (charge_by_timeout c req json, e) (answer-IsHonest req)
      ]
