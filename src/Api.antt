-- ===== src/Api.antt =====
-- `setupRouter` of cmd/api/main.go, with the routes that the handlers register: which handler a
-- request reaches, through the authentication of the group.
pub mod Guarded
mod Tests
use dodo_payments_backend.Base.{
  ℕ, Bool, true, false, not, ◌&&◌, ◌||◌, Option, none, some, List, [], ◌∷◌, if◌then◌else◌,
}
use dodo_payments_backend.Base.Int.{ℤ, pos, ltb_ℤ}
use dodo_payments_backend.Base.Result.{Result, ok, err}
use dodo_payments_backend.Base.Text.{Text, text, text_eq, is_empty}
use dodo_payments_backend.Db.{RowId}
use dodo_payments_backend.Db.Tx.{Session}
use dodo_payments_backend.Http.{Env, Response, error_response}
use dodo_payments_backend.Psp.{ChargeRequest, ChargeResult}
use dodo_payments_backend.Auth.Middleware.{Admission, authenticate}
use dodo_payments_backend.Customer.{
  CreateCustomerRequest, CustomerResponse, handle_create_customer, handle_list_customers,
  handle_get_customer,
}
use dodo_payments_backend.Invoice.{CreateInvoiceRequest, InvoiceResponse}
use dodo_payments_backend.Invoice.Create.{handle_create_invoice}
use dodo_payments_backend.Invoice.States.{
  handle_list_invoices, handle_get_invoice, handle_void_invoice,
}
use dodo_payments_backend.Payment.Pay.{Outcome, pay_invoice}
use dodo_payments_backend.Webhook.Endpoints.{
  WebhookEndpointResponse, handle_create_endpoint, handle_list_endpoints, handle_get_endpoint,
}

-- The settings of the PSP client: an address, and a timeout in nanoseconds, 3 s unless a positive
-- one is set. `parse_duration` is `time.ParseDuration`.
unfoldable pub psp_base_url : Text → Text
psp_base_url configured = if is_empty configured then text "http://localhost:8081" else configured

abbrev positive_or : ℤ → Option ℤ → ℤ
positive_or default none = default
positive_or default (some d) = if ltb_ℤ (pos 0) d then d else default

unfoldable pub psp_timeout : (Text → Option ℤ) → Text → ℤ
psp_timeout parse_duration configured =
    let default = pos 3_000_000_000 in
    if is_empty configured then default else positive_or default (parse_duration configured)

-- What the handlers read of a request; the path is cut at its slashes.
pub record Request : Type 0 where
  pub method : Text
  pub path : List Text
  pub authorization : Text
  pub idempotency_key : Text
  pub body : Text

-- What the handlers are given: how JSON bodies bind, `none` where they do not, the libraries,
-- random bytes, and the PSP.
pub record Outside : Type 0 where
  pub env : Env
  pub bind_customer : Text → Option CreateCustomerRequest
  pub bind_invoice : Text → Option CreateInvoiceRequest
  pub bind_card_token : Text → Option Text
  pub bind_url : Text → Option Text
  pub parse_address : Text → Option Text
  pub parse_request_uri : Text → Option (Text × Text)
  pub random : Option Text
  pub decimal : RowId → Text
  pub charge : ChargeRequest → Option ChargeResult

-- The routes of the group that authenticates.
pub data Route : Type 0 where
  create_customer list_customers create_invoice list_invoices : Route
  create_endpoint list_endpoints : Route
  get_customer get_invoice void_invoice pay get_endpoint : Text → Route

abbrev by_method : Text → Option Route → Option Route → Option Route
by_method method post get =
    if text_eq method (text "POST") then post else if text_eq method (text "GET") then get else none

unfoldable pub route_collection : Text → Text → Option Route
route_collection method name =
    if text_eq name (text "customers")
    then by_method method (some create_customer) (some list_customers)
    else if text_eq name (text "invoices")
    then by_method method (some create_invoice) (some list_invoices)
    else if text_eq name (text "webhook-endpoints")
    then by_method method (some create_endpoint) (some list_endpoints)
    else none

unfoldable pub route_item : Text → Text → Text → Option Route
route_item method name id =
    if is_empty id
    then none
    else if text_eq name (text "customers")
    then by_method method none (some (get_customer id))
    else if text_eq name (text "invoices")
    then by_method method none (some (get_invoice id))
    else if text_eq name (text "webhook-endpoints")
    then by_method method none (some (get_endpoint id))
    else none

unfoldable pub route_action : Text → Text → Text → Text → Option Route
route_action method name id action =
    if is_empty id || not (text_eq name (text "invoices"))
    then none
    else if text_eq action (text "void")
    then by_method method (some (void_invoice id)) none
    else if text_eq action (text "pay")
    then by_method method (some (pay id)) none
    else none

unfoldable pub route : Text → List Text → Option Route
route method (name ∷ []) = route_collection method name
route method (name ∷ id ∷ []) = route_item method name id
route method (name ∷ id ∷ action ∷ []) = route_action method name id action
route method _ = none

-- `denied` is the response 401 of the middleware, by its message.
pub data Reply : Type 0 where
  unrouted : Reply
  health : ℕ → Reply
  denied : Text → Reply
  customer : Response CustomerResponse → Reply
  customers : Response (List CustomerResponse) → Reply
  invoice : Response InvoiceResponse → Reply
  invoices : Response (List InvoiceResponse) → Reply
  payment : Response Text → List ChargeRequest → Reply
  endpoint : Response WebhookEndpointResponse → Reply
  endpoints : Response (List WebhookEndpointResponse) → Reply

abbrev with_reply : {A : Type 0} → (A → Reply) → A × Session → Reply × Session
with_reply f (a, s) = (f a, s)

abbrev payment_reply : Outcome → Reply × Session
payment_reply o = (payment o.response o.charges, o.session)

module _ (out : Outside) where
  open out use {env}

  -- The handler of a route, for the business that the middleware has put into the context.
  unfoldable pub handle : Route → RowId → Request → Session → Reply × Session
  handle create_customer b req s =
      with_reply customer
        (handle_create_customer env out.parse_address b (out.bind_customer req.body) s)
  handle list_customers b req s =
      with_reply customers (handle_list_customers env out.parse_address b s)
  handle create_invoice b req s =
      with_reply invoice (handle_create_invoice env b (out.bind_invoice req.body) s)
  handle list_invoices b req s = with_reply invoices (handle_list_invoices env b s)
  handle create_endpoint b req s =
      with_reply endpoint
        (handle_create_endpoint env out.parse_request_uri b (out.bind_url req.body) out.random s)
  handle list_endpoints b req s =
      with_reply endpoints (handle_list_endpoints env out.parse_request_uri b s)
  handle (get_customer id) b req s =
      with_reply customer (handle_get_customer env out.parse_address b id s)
  handle (get_invoice id) b req s = with_reply invoice (handle_get_invoice env b id s)
  handle (void_invoice id) b req s = with_reply invoice (handle_void_invoice env b id s)
  handle (pay id) b req s = payment_reply (
      pay_invoice env out.decimal out.charge b
        (record {
          idempotency_key = req.idempotency_key;
          id = id;
          card_token = out.bind_card_token req.body;
        })
        s)
  handle (get_endpoint id) b req s =
      with_reply endpoint (handle_get_endpoint env out.parse_request_uri b id s)

  -- The middleware before the handler.
  unfoldable pub admit : Route → Request → Admission env → Reply × Session
  admit r req (err message, s) = (denied message, s)
  admit r req (ok (business_id, key_id), s) = handle r business_id req s

  -- The health check answers by a ping of the database.
  unfoldable pub serve_health : Bool → ℕ
  serve_health reachable = if reachable then 200 else 503

  unfoldable pub is_health : Request → Bool
  is_health req = text_eq req.method (text "GET") && is_health_path req.path
    where
      is_health_path : List Text → Bool
      is_health_path (p ∷ []) = text_eq p (text "health")
      is_health_path _ = false

  -- A request, while the database is reachable or not.
  unfoldable pub serve : Bool → Request → Session → Reply × Session
  serve reachable req s =
      if is_health req
      then (health (serve_health reachable), s)
      else elim (route req.method req.path) [
        | none ↦ (unrouted, s)
        | some r ↦ admit r req (authenticate env req.authorization s)
      ]
