-- ===== src/Psp/Client.antt =====
-- `Client` of internal/psp/psp.go. `send timeout request` is the exchange of an http.Client with that
-- timeout: `none` where the request cannot be made or no response arrives in time; `parse_result`
-- reads the first JSON value of a text.
use mathlib.Core.List.{reverse}
use dodo_payments_backend.Base.{
  ℕ, ◌^◌, ◌≡◌, refl, not, ◌||◌, ◌==◌, Option, none, some, [], ◌∷◌, ◌++◌, if◌then◌else◌, take,
}
use dodo_payments_backend.Base.Int.{to_int64}
use dodo_payments_backend.Base.Text.{Text, text, text_eq}
use dodo_payments_backend.Http.{Json, string, number, object, field, end}
use dodo_payments_backend.Psp.Types.{ChargeRequest, ChargeResult}

pub record HttpRequest : Type 0 where
  pub method : Text
  pub url : Text
  pub content_type : Text
  pub body : Text

pub record HttpResponse : Type 0 where
  pub status_code : ℕ
  pub body : Text

-- The timeout of the http.Client is in milliseconds; 0 means none.
pub record Client : Type 0 where
  pub base_url : Text
  pub timeout : ℕ

-- `strings.TrimRight(s, "/")`, on the text turned round.
drop_slashes : Text → Text
drop_slashes [] = []
drop_slashes (c ∷ s) = let rest = drop_slashes s in if c == b'/' then rest else c ∷ s

unfoldable pub new_client : Text → ℕ → Client
unfolding drop_slashes
new_client base_url timeout = record {
  base_url = reverse (drop_slashes (reverse base_url));
  timeout = timeout;
}

-- The JSON object of a `ChargeRequest`.
unfoldable pub charge_json : ChargeRequest → Json
charge_json req = object (
    field (text "token") (string req.token) (
      field (text "amount_cents") (number req.amount_cents) (
        field (text "currency") (string req.currency)
          (field (text "psp_request_id") (number (to_int64 req.psp_request_id)) end))))

-- The check on the status of a result that was read.
unfoldable pub accept : Option ChargeResult → Option ChargeResult
accept none = none
accept (some r) =
    if text_eq r.status (text "succeeded") || text_eq r.status (text "failed") then some r else none

-- A response is cut there, `1<<20` bytes.
unfoldable pub response_limit : ℕ
response_limit = 2 ^ 20

unfoldable pub read_response :
    (Text → Option ChargeResult) → Option HttpResponse → Option ChargeResult
read_response parse_result none = none
read_response parse_result (some resp) =
    if not (resp.status_code == 200)
    then none
    else accept (parse_result (take response_limit resp.body))

unfoldable pub charge_http : (Json → Text) → Client → ChargeRequest → HttpRequest
charge_http marshal c req = record {
  method = text "POST";
  url = c.base_url ++ text "/payments";
  content_type = text "application/json";
  body = marshal (charge_json req);
}

unfoldable pub charge :
    (Json → Text)
    → (Text → Option ChargeResult)
    → (ℕ → HttpRequest → Option HttpResponse)
    → Client
    → ChargeRequest
    → Option ChargeResult
charge marshal parse_result send c req =
    read_response parse_result (send c.timeout (charge_http marshal c req))

new_client_run :
    new_client (text "http://psp//") 5000 ≡ record { base_url = text "http://psp"; timeout = 5000 }
unfolding new_client
new_client_run = refl
