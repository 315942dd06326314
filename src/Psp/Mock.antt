-- ===== src/Psp/Mock.antt =====
-- The mock PSP of cmd/mockpsp/main.go. `parse_request` reads the first JSON value of a body; the
-- state is the number of calls; a reply has the time that the handler sleeps before it, in
-- milliseconds.
use dodo_payments_backend.Base.{ℕ, ◌+◌, not, Option, none, some, [], ◌∷◌, ◌++◌, if◌then◌else◌}
use dodo_payments_backend.Base.Int.{ℤ, pos, negsuc, to_int64}
use dodo_payments_backend.Base.Text.{Text, text, text_eq, is_empty, to_decimal}
use dodo_payments_backend.Http.{Json, string, number, object, Fields, field, end}
use dodo_payments_backend.Psp.Types.{ChargeRequest, ChargeResult}
use dodo_payments_backend.Psp.Client.{HttpRequest, HttpResponse}

pub record Reply : Type 0 where
  pub sleep : ℕ
  pub response : HttpResponse

-- `%d` of an int64.
abbrev pub int_text : ℤ → Text
int_text (pos n) = to_decimal n
int_text (negsuc n) = 45 ∷ to_decimal (n + 1)

abbrev pub optional_field : Text → Text → Fields → Fields
optional_field name value rest = if is_empty value then rest else field name (string value) rest

-- The JSON object of a `ChargeResult`, whose last fields are left out when empty.
unfoldable pub result_json : ChargeResult → Json
result_json r = object (
    field (text "status") (string r.status) (
      optional_field (text "psp_ref") r.psp_ref
        (optional_field (text "failure_code") r.failure_code end)))

-- `http.Error`, which ends the message with a newline.
abbrev pub http_error : Text → ℕ → Reply
http_error message code = record {
  sleep = 0;
  response = record { status_code = code; body = message ++ 10 ∷ [] };
}

-- `fmt.Sprintf("psp_%d", req.PSPRequestID)`.
abbrev pub psp_ref_of : ChargeRequest → Text
psp_ref_of req = text "psp_" ++ int_text (to_int64 req.psp_request_id)

abbrev pub succeeded_result : ChargeRequest → ChargeResult
succeeded_result req = record {
  status = text "succeeded";
  psp_ref = psp_ref_of req;
  failure_code = [];
}

abbrev pub failed_result : Text → ChargeResult
failed_result code = record { status = text "failed"; psp_ref = []; failure_code = code }

module _ (marshal : Json → Text) (parse_request : Text → Option ChargeRequest) where
  -- `json.NewEncoder(w).Encode(r)` after the sleep.
  abbrev pub encoded : ℕ → ChargeResult → Reply
  encoded sleep r = record {
    sleep = sleep;
    response = record { status_code = 200; body = marshal (result_json r) ++ 10 ∷ [] };
  }

  -- The switch on the token.
  unfoldable pub by_token : ChargeRequest → Reply
  by_token req =
      if text_eq req.token (text "tok_success")
      then encoded 100 (succeeded_result req)
      else if text_eq req.token (text "tok_insufficient_funds")
      then encoded 100 (failed_result (text "insufficient_funds"))
      else if text_eq req.token (text "tok_card_declined")
      then encoded 100 (failed_result (text "card_declined"))
      else if text_eq req.token (text "tok_timeout")
      then encoded 30000 (succeeded_result req)
      else if text_eq req.token (text "tok_network_error")
      then http_error (text "simulated network error") 500
      else http_error (text "unknown token") 400

  unfoldable pub reply_to : Option ChargeRequest → Reply
  reply_to none = http_error (text "invalid request") 400
  reply_to (some req) = by_token req

  unfoldable pub payment_handler : HttpRequest → ℕ → Reply × ℕ
  payment_handler r call_count =
      if not (text_eq r.method (text "POST"))
      then (http_error (text "method not allowed") 405, call_count)
      else (reply_to (parse_request r.body), call_count + 1)

  -- The handler of `/calls`.
  unfoldable pub calls_handler : ℕ → HttpResponse
  calls_handler call_count = record {
    status_code = 200;
    body = marshal (object (field (text "count") (number (pos call_count)) end)) ++ 10 ∷ [];
  }
