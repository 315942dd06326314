-- ===== src/Api/Tests.antt =====
-- A request through the router, with and without a key.
use dodo_payments_backend.Base.{
  ◌≡◌, ◌⊎◌, refl, false, true, none, some, [], ◌∷◌, ◌++◌, find_row, rows_where, sort_by,
}
use dodo_payments_backend.Base.Int.{pos}
use dodo_payments_backend.Base.Text.{Text, text, text_eq, trim_space, split_n2}
use dodo_payments_backend.Db.{ApiKey, empty_db}
use dodo_payments_backend.Db.Tx.{Session, settle, exec, query}
use dodo_payments_backend.Db.Queries.Resources.{
  get_api_key_by_prefix, list_customers_by_business_id,
}
use dodo_payments_backend.Http.{Env, json}
use dodo_payments_backend.Auth.Keys.{split_last, parse_api_key}
use dodo_payments_backend.Auth.Middleware.{fold, check_key, check_parsed, check_parts, authenticate}
use dodo_payments_backend.Customer.{handle_list_customers, list_found, to_customer_responses}
use dodo_payments_backend.Api.{
  psp_timeout, Request, Outside, route_collection, route, Reply, denied, customers, handle, admit,
  is_health, serve,
}
use dodo_payments_backend.Api.Guarded.{IsTurnedAway, IsHandled, serve-IsHandled}

abbrev env : Env
env = record {
  ids = λ n. n;
  fault = λ _. false;
  lost = λ _. false;
  now = 60;
  jsonb = λ s. s;
  marshal = λ _. [];
  encode = λ prefix id. none;
  decode = λ prefix s. none;
  sha256_hex = λ s. text "h" ++ s;
}

abbrev out : Outside
out = record {
  env = env;
  bind_customer = λ s. none;
  bind_invoice = λ s. none;
  bind_card_token = λ s. none;
  bind_url = λ s. none;
  parse_address = λ s. none;
  parse_request_uri = λ s. none;
  random = none;
  decimal = λ n. [];
  charge = λ r. none;
}

abbrev api_key : ApiKey
api_key = record {
  id = 4;
  business_id = 1;
  key_prefix = text "dp";
  secret_hash = text "hxyz";
  created_at = 50;
  revoked_at = none;
}

abbrev session : Session
session = record {
  db = record empty_db { api_keys = api_key ∷ [] };
  drawn = 0;
  ticks = 0;
  aborted = false;
}

abbrev request : Text → Request
request authorization = record {
  method = text "GET";
  path = text "customers" ∷ [];
  authorization = authorization;
  idempotency_key = [];
  body = [];
}

-- A timeout that is not positive is not taken.
timeout_run : psp_timeout (λ s. some (pos 0)) (text "0s") ≡ pos 3000000000
unfolding psp_timeout
timeout_run = refl

denied_run :
    serve out true (request []) session ≡ (denied (text "Missing Authorization header"), session)
unfolding serve is_health route route_collection admit authenticate text_eq
denied_run = refl

abbrev empty_list : Reply
empty_list = customers (record { status = 200; body = json [] })

listed_run :
    serve out true (request (text "Bearer dp_xyz")) session
    ≡ (empty_list, record session { ticks = 2 })
unfolding serve is_health route route_collection admit authenticate check_parts check_parsed
    check_key fold split_n2 trim_space parse_api_key split_last query exec settle
    get_api_key_by_prefix find_row text_eq handle handle_list_customers list_found
    list_customers_by_business_id to_customer_responses rows_where sort_by
listed_run = refl

serve-IsHandled_example :
    (IsTurnedAway empty_list × (session.db ≡ session.db))
    ⊎ IsHandled out
        (request (text "Bearer dp_xyz"))
        session
        empty_list
        (record session { ticks = 2 })
serve-IsHandled_example =
    serve-IsHandled out true (request (text "Bearer dp_xyz")) session listed_run
