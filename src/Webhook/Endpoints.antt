-- ===== src/Webhook/Endpoints.antt =====
-- The endpoint handlers of internal/webhook/webhook.go. `parse_request_uri` is
-- `url.ParseRequestURI`: scheme and host, or `none` for an error; `random` is what `rand.Read` has
-- put into 32 bytes, or `none` for an error.
pub mod RoundTrip
pub mod Hears
mod Tests
use dodo_payments_backend.Base.{
  ℕ, ◌+◌, Bool, true, false, not, ◌&&◌, Option, none, some, List, [], ◌∷◌, ◌++◌, if◌then◌else◌,
}
use dodo_payments_backend.Base.Result.{Result, ok, err}
use dodo_payments_backend.Base.Text.{Text, text, text_eq, is_empty, trim_space}
use dodo_payments_backend.Base.Hex.{hex_encode}
use dodo_payments_backend.Base.Clock.{format_rfc3339}
use dodo_payments_backend.Db.{RowId, WebhookEndpoint}
use dodo_payments_backend.Db.Tx.{Error, no_rows, Session, query}
use dodo_payments_backend.Db.Queries.Webhook.{
  create_webhook_endpoint, get_webhook_endpoint_by_id, list_webhook_endpoints_by_business_id,
}
use dodo_payments_backend.Http.{Env, Response, json, error_response}

pub record WebhookEndpointResponse : Type 0 where
  pub id : Text
  pub url : Text
  pub secret : Text
  pub is_active : Bool
  pub created_at : Text
  pub updated_at : Text

unfoldable pub generate_secret : Option Text → Option Text
generate_secret none = none
generate_secret (some random) = some (text "whsec_" ++ hex_encode random)

abbrev pub endpoint_response : WebhookEndpoint → Text → WebhookEndpointResponse
endpoint_response ep id = record {
  id = id;
  url = ep.url;
  secret = ep.secret;
  is_active = ep.is_active;
  created_at = format_rfc3339 ep.created_at;
  updated_at = format_rfc3339 ep.updated_at;
}

-- `none` is an error of the codec.
unfoldable pub to_endpoint_response : Env → WebhookEndpoint → Option WebhookEndpointResponse
to_endpoint_response env ep = elim (env.encode (text "whe") ep.id) [
  | none ↦ none
  | some id ↦ some (endpoint_response ep id)
]

abbrev cons_response :
    Option WebhookEndpointResponse
    → Option (List WebhookEndpointResponse)
    → Option (List WebhookEndpointResponse)
cons_response (some r) (some rs) = some (r ∷ rs)
cons_response _ _ = none

-- The loop of the list, which stops at the first error.
unfoldable pub to_endpoint_responses :
    Env → List WebhookEndpoint → Option (List WebhookEndpointResponse)
to_endpoint_responses env [] = some []
to_endpoint_responses env (ep ∷ eps) =
    cons_response (to_endpoint_response env ep) (to_endpoint_responses env eps)

-- The test on the parsed URL.
unfoldable pub is_https : Option (Text × Text) → Bool
is_https none = false
is_https (some (scheme, host)) = text_eq scheme (text "https") && not (is_empty host)

module _ (env : Env) (parse_request_uri : Text → Option (Text × Text)) (business_id : RowId) where
  abbrev refused : {A : Type 0} → ℕ → Text → Text → Session → Response A × Session
  refused status code message s = (error_response status code message, s)

  -- The response of a status that carries a value, unless the codec has failed.
  abbrev respond : {A : Type 0} → ℕ → Option A → Session → Response A × Session
  respond status none s = refused 500 (text "internal_error") (text "Failed to encode public ID") s
  respond status (some r) s = (record { status = status; body = json r }, s)

  unfoldable pub respond_created :
      Result Error WebhookEndpoint × Session → Response WebhookEndpointResponse × Session
  respond_created (err e, s) =
      refused 500 (text "internal_error") (text "Failed to save webhook endpoint") s
  respond_created (ok ep, s) = respond 201 (to_endpoint_response env ep) s

  -- From the secret on.
  unfoldable pub create_with :
      Text → Option Text → Session → Response WebhookEndpointResponse × Session
  create_with url none s =
      refused 500 (text "internal_error") (text "Failed to generate signing secret") s
  create_with url (some secret) s = respond_created (
      query env.fault (create_webhook_endpoint env.now (env.ids s.drawn) business_id url secret)
        (record s { drawn = s.drawn + 1 }))

  unfoldable pub create_checked :
      Text → Option Text → Session → Response WebhookEndpointResponse × Session
  create_checked request_url random s =
      let url = trim_space request_url in
      if is_empty url
      then refused 400 (text "invalid_url") (text "url is required") s
      else if not (is_https (parse_request_uri url))
      then refused 400 (text "invalid_url") (text "url must be a valid http or https URL") s
      else create_with url (generate_secret random) s

  -- The handler, on the field `url` of the body; `none` is a body that does not bind.
  unfoldable pub handle_create_endpoint :
      Option Text → Option Text → Session → Response WebhookEndpointResponse × Session
  handle_create_endpoint none random s =
      refused 400 (text "bad_request") (text "Invalid request body") s
  handle_create_endpoint (some url) random s = create_checked url random s

  unfoldable pub list_found :
      Result Error (List WebhookEndpoint) × Session
      → Response (List WebhookEndpointResponse) × Session
  list_found (err e, s) =
      refused 500 (text "internal_error") (text "Failed to fetch webhook endpoints") s
  list_found (ok eps, s) = respond 200 (to_endpoint_responses env eps) s

  unfoldable pub handle_list_endpoints : Session → Response (List WebhookEndpointResponse) × Session
  handle_list_endpoints s =
      list_found (query env.fault (list_webhook_endpoints_by_business_id business_id) s)

  unfoldable pub get_found :
      Result Error WebhookEndpoint × Session → Response WebhookEndpointResponse × Session
  get_found (err no_rows, s) = refused 404 (text "not_found") (text "Webhook endpoint not found") s
  get_found (err e, s) =
      refused 500 (text "internal_error") (text "Failed to retrieve webhook endpoint") s
  get_found (ok ep, s) = respond 200 (to_endpoint_response env ep) s

  unfoldable pub handle_get_endpoint : Text → Session → Response WebhookEndpointResponse × Session
  handle_get_endpoint id s = elim (env.decode (text "whe") id) [
    | none ↦ refused 404 (text "not_found") (text "Webhook endpoint not found") s
    | some endpoint_id ↦
        get_found (query env.fault (get_webhook_endpoint_by_id endpoint_id business_id) s)
  ]
