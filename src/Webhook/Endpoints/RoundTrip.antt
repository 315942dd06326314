-- ===== src/Webhook/Endpoints/RoundTrip.antt =====
-- What `CreateEndpoint` of internal/webhook/webhook.go writes, and that `GetEndpoint` reads it back.
use dodo_payments_backend.Base.{
  ◌+◌, ◌≡◌, refl, sym, ap, ◌∙◌, Bool, true, false, ◌&&◌, ◌==◌, Option, none, some, [], ◌∷◌, ◌++◌,
  arith, if◌then◌else◌, any_row, find_row, Bool-cases, Option-cases, inl, inr,
}
use dodo_payments_backend.Base.Rows.{any_row-weaken, find_row-append_last, find_row-append_none}
use dodo_payments_backend.Base.Result.{ok, err}
use dodo_payments_backend.Base.Text.{Text, text, is_empty, trim_space, text_eq_iff}
use dodo_payments_backend.Base.Hex.{hex_encode}
use dodo_payments_backend.Db.{RowId, Time, WebhookEndpoint, Db}
use dodo_payments_backend.Db.Tx.{no_rows, Session, query, exec, settle}
use dodo_payments_backend.Db.Tx.Inversion.{query_ok, query_none}
use dodo_payments_backend.Db.Queries.Webhook.{create_webhook_endpoint, get_webhook_endpoint_by_id}
use dodo_payments_backend.Http.{Env, Response, json}
use dodo_payments_backend.Webhook.Endpoints.{
  WebhookEndpointResponse, generate_secret, is_https, endpoint_response, to_endpoint_response,
  respond_created, create_with, create_checked, handle_create_endpoint, get_found,
  handle_get_endpoint,
}

abbrev pub endpoint_is : RowId → RowId → WebhookEndpoint → Bool
endpoint_is id business_id e = e.id == id && e.business_id == business_id

abbrev pub new_endpoint : Time → RowId → RowId → Text → Text → WebhookEndpoint
new_endpoint now id business_id url secret = record {
  id = id;
  business_id = business_id;
  url = url;
  secret = secret;
  is_active = true;
  created_at = now;
  updated_at = now;
}

abbrev pub created : {A : Type 0} → A → Response A
created a = record { status = 201; body = json a }

abbrev pub found : {A : Type 0} → A → Response A
found a = record { status = 200; body = json a }

module _ (env : Env) (parse_request_uri : Text → Option (Text × Text)) (business_id : RowId) where
  abbrev pub entered : Text → Text → Session → WebhookEndpoint
  entered url random s =
      new_endpoint env.now (env.ids s.drawn) business_id (trim_space url)
        (text "whsec_" ++ hex_encode random)

  is_https_lem :
      (o : Option (Text × Text))
      → is_https o ≡ true
      → (host : Text) × (o ≡ some (text "https", host)) × (is_empty host ≡ false)
  unfolding is_https
  is_https_lem none h = absurd (ground arith)
  is_https_lem (some (scheme, host)) h =
      let same : scheme ≡ text "https" = ground (arith, text_eq_iff scheme (text "https")) in
      (host, ap (λ (x : Text). some (x, host)) same, ground arith)

  create_ok :
      (id : RowId) (url secret : Text) (s : Session) {resp : WebhookEndpointResponse} {s' : Session}
      → respond_created env parse_request_uri business_id
          (query env.fault (create_webhook_endpoint env.now id business_id url secret) s)
        ≡ (created resp, s')
      → let c = new_endpoint env.now id business_id url secret in
        (any_row (λ (x : WebhookEndpoint). x.id == id) s.db.webhook_endpoints ≡ false)
        × (s'.db ≡ record s.db { webhook_endpoints = s.db.webhook_endpoints ++ c ∷ [] })
        × (env.encode (text "whe") id ≡ some resp.id)
        × (resp ≡ endpoint_response c resp.id)
  unfolding respond_created query exec settle create_webhook_endpoint to_endpoint_response
  create_ok id url secret s h = elim (Option-cases (env.encode (text "whe") id)) [
    | inl e ↦ absurd (ground arith)
    | inr (t, e) ↦ (ground arith, ground arith, ground arith, ground arith)
  ]

  -- A response 201 means that the URL as trimmed is not empty and parsed to the scheme https and a
  -- host that is not empty; that no endpoint had the new id; that just this endpoint has been
  -- added to the tables, active, with the URL as trimmed and the secret `whsec_` followed by the
  -- digits of the random bytes; and that the response shows it under the public id of its id.
  pub handle_create_endpoint_lem :
      (url random : Text) (s : Session) {resp : WebhookEndpointResponse} {s' : Session}
      → handle_create_endpoint env parse_request_uri business_id (some url) (some random) s
        ≡ (created resp, s')
      → (is_empty (trim_space url) ≡ false)
        × ((host : Text) × (parse_request_uri (trim_space url) ≡ some (text "https", host))
            × (is_empty host ≡ false))
        × (any_row (λ (x : WebhookEndpoint). x.id == env.ids s.drawn) s.db.webhook_endpoints
            ≡ false)
        × (s'.db ≡ record s.db {
          webhook_endpoints = s.db.webhook_endpoints ++ entered url random s ∷ [];
        })
        × (env.encode (text "whe") (env.ids s.drawn) ≡ some resp.id)
        × (resp ≡ endpoint_response (entered url random s) resp.id)
  unfolding handle_create_endpoint create_checked create_with generate_secret
  handle_create_endpoint_lem url random s {resp} {s'} h =
      let trimmed = trim_space url in
      let secret = text "whsec_" ++ hex_encode random in
      let some_url : is_empty trimmed ≡ false = ground arith in
      let valid : is_https (parse_request_uri trimmed) ≡ true = ground arith in
      let run : respond_created env parse_request_uri business_id (
            query env.fault
              (create_webhook_endpoint env.now (env.ids s.drawn) business_id trimmed secret)
              (record s { drawn = s.drawn + 1 }))
          ≡ (created resp, s') =
        ground arith in
      let wrote =
        create_ok (env.ids s.drawn) trimmed secret (record s { drawn = s.drawn + 1 }) run in
      (some_url, is_https_lem (parse_request_uri trimmed) valid, wrote.0, wrote.1, wrote.2, wrote.3)

  query_endpoint :
      (id b : RowId) (c : WebhookEndpoint) (db : Db)
      → find_row (endpoint_is id b) db.webhook_endpoints ≡ some c
      → get_webhook_endpoint_by_id id b db ≡ ok (c, db)
  unfolding get_webhook_endpoint_by_id
  query_endpoint id b c db h = rw h refl

  query_no_endpoint :
      (id b : RowId) (db : Db)
      → find_row (endpoint_is id b) db.webhook_endpoints ≡ none
      → get_webhook_endpoint_by_id id b db ≡ err no_rows
  unfolding get_webhook_endpoint_by_id
  query_no_endpoint id b db h = rw h refl

  to_response :
      (c : WebhookEndpoint) (resp : WebhookEndpointResponse)
      → env.encode (text "whe") c.id ≡ some resp.id
      → resp ≡ endpoint_response c resp.id
      → to_endpoint_response env c ≡ some resp
  unfolding to_endpoint_response
  to_response c resp enc shown = rw (enc, to_endpoint_response) (ap some (sym shown))

  get_entered :
      (id : RowId) (c : WebhookEndpoint) (t : Session) (b : RowId) (resp : WebhookEndpointResponse)
      → env.fault t.ticks ≡ false
      → env.decode (text "whe") resp.id ≡ some id
      → env.encode (text "whe") id ≡ some resp.id
      → c.id ≡ id
      → resp ≡ endpoint_response c resp.id
      → find_row (endpoint_is id b) t.db.webhook_endpoints ≡ some c
      → handle_get_endpoint env parse_request_uri b resp.id t
        ≡ (found resp, record t { ticks = t.ticks + 1; aborted = false })
  unfolding handle_get_endpoint get_found
  get_entered id c t b resp calm dec enc same shown hit =
      let q =
        query_ok env.fault (get_webhook_endpoint_by_id id b) t calm
          (query_endpoint id b c t.db hit) in
      let e : env.encode (text "whe") c.id ≡ some resp.id = rw same enc in
      rw (dec, handle_get_endpoint, q, get_found, to_response c resp e shown) refl

  get_missing :
      (id : RowId) (t : Session) (b : RowId) (shown : Text)
      → env.fault t.ticks ≡ false
      → env.decode (text "whe") shown ≡ some id
      → find_row (endpoint_is id b) t.db.webhook_endpoints ≡ none
      → (handle_get_endpoint env parse_request_uri b shown t).0.status ≡ 404
  unfolding handle_get_endpoint get_found
  get_missing id t b shown calm dec miss =
      let q =
        query_none env.fault (get_webhook_endpoint_by_id id b) t calm
          (query_no_endpoint id b t.db miss) in
      rw (dec, handle_get_endpoint, q) refl

  -- An endpoint whose creation was answered 201 is found under the id of that response, with the very
  -- same body, by its own business; any other business gets 404. This holds at any later time at
  -- which the endpoints are as the creation left them and the statement does not fail, where the
  -- codec decodes what it has encoded.
  pub get_endpoint-create_endpoint :
      (url random : Text) (s t : Session) (b : RowId) {resp : WebhookEndpointResponse}
      {s' : Session}
      → ((id : RowId) (shown : Text)
          → env.encode (text "whe") id ≡ some shown
          → env.decode (text "whe") shown ≡ some id)
      → handle_create_endpoint env parse_request_uri business_id (some url) (some random) s
        ≡ (created resp, s')
      → t.db.webhook_endpoints ≡ s'.db.webhook_endpoints
      → env.fault t.ticks ≡ false
      → let got = handle_get_endpoint env parse_request_uri b resp.id t in
        if b == business_id then got.0 ≡ found resp else got.0.status ≡ 404
  get_endpoint-create_endpoint url random s t b {resp} codec h same calm =
      let id = env.ids s.drawn in
      let c = entered url random s in
      let (_, _, new, wrote, enc, shown) = handle_create_endpoint_lem url random s h in
      let free =
        any_row-weaken (endpoint_is id b) (λ (x : WebhookEndpoint). x.id == id)
          s.db.webhook_endpoints (λ x e. ground arith) new in
      let table : t.db.webhook_endpoints ≡ s.db.webhook_endpoints ++ c ∷ [] =
        same ∙ ap (λ (d : Db). d.webhook_endpoints) wrote in
      let dec = codec id resp.id enc in
      elim (Bool-cases (b == business_id)) [
        | inl e ↦
            let mine : endpoint_is id b c ≡ true = ground arith in
            let hit : find_row (endpoint_is id b) t.db.webhook_endpoints ≡ some c =
              rw table
                (find_row-append_last (endpoint_is id b) s.db.webhook_endpoints c free mine) in
            rw (e, get_entered id c t b resp calm dec enc refl shown hit) refl
        | inr e ↦
            let other : endpoint_is id b c ≡ false = ground arith in
            let miss : find_row (endpoint_is id b) t.db.webhook_endpoints ≡ none =
              rw table
                (find_row-append_none (endpoint_is id b) s.db.webhook_endpoints c free other) in
            rw e (get_missing id t b resp.id calm dec miss)
      ]
