-- ===== src/Customer/Tests.antt =====
-- The theorems on customers at a concrete request.
use dodo_payments_backend.Base.{
  insert_by, sort_by, rows_where, Option, List, ℕ, ◌+◌, ◌==◌, ◌≡◌, refl, false, none, some, [], ◌∷◌,
  ◌++◌, arith, any_row,
}
use mathlib.Core.List.{Memᴰ}
use dodo_payments_backend.Base.Text.{text, text_eq, trim_space, contains_byte}
use dodo_payments_backend.Db.{Customer, empty_db}
use dodo_payments_backend.Db.Tx.{Session, query, exec, settle}
use dodo_payments_backend.Db.Queries.Resources.{list_customers_by_business_id, create_customer}
use dodo_payments_backend.Http.{Env}
use dodo_payments_backend.Base.Clock.{format_rfc3339}
use dodo_payments_backend.Customer.{
  to_customer_responses, list_found, handle_list_customers, customer_response,
  CreateCustomerRequest, CustomerResponse, is_valid_email, to_customer_response, respond_created,
  create_checked, handle_create_customer, handle_get_customer,
}
use dodo_payments_backend.Customer.Listed.{AreShown, handle_list_customers_lem}
use dodo_payments_backend.Customer.RoundTrip.{
  found, IsAcceptable, entered, created, handle_create_customer_lem, get_customer-create_customer,
}

-- A codec that shows an id as a text of one byte.
abbrev decode_one : List ℕ → Option ℕ
decode_one (id ∷ []) = some id
decode_one _ = none

abbrev env : Env
env = record {
  ids = λ n. 100 + n;
  fault = λ _. false;
  lost = λ _. false;
  now = 1767225600;
  jsonb = λ s. s;
  marshal = λ _. [];
  encode = λ prefix id. some (id ∷ []);
  decode = λ prefix s. decode_one s;
  sha256_hex = λ s. s;
}

abbrev session : Session
session = record {
  db = record empty_db {
    businesses = record { id = 1; name = text "A"; created_at = 50; updated_at = 50 } ∷ [];
  };
  drawn = 0;
  ticks = 0;
  aborted = false;
}

abbrev request : CreateCustomerRequest
request = record { name = text " Bo "; email = text "bo@example.com " }

abbrev response : CustomerResponse
response = record {
  id = 100 ∷ [];
  name = text "Bo";
  email = text "bo@example.com";
  created_at = text "2026-01-01T00:00:00Z";
  updated_at = text "2026-01-01T00:00:00Z";
}

abbrev after : Session
after = record session {
  db = record session.db { customers = entered env (λ s. some s) 1 request session ∷ [] };
  drawn = 1;
  ticks = 1;
}

created_run :
    handle_create_customer env (λ s. some s) 1 (some request) session ≡ (created response, after)
unfolding handle_create_customer create_checked respond_created is_valid_email text_eq trim_space
    contains_byte query exec settle create_customer any_row to_customer_response format_rfc3339
created_run = refl

handle_create_customer_lem_example :
    IsAcceptable env (λ s. some s) 1 request
    × (any_row (λ (x : Customer). x.id == 100) [] ≡ false)
    × (after.db
        ≡ record session.db { customers = [] ++ entered env (λ s. some s) 1 request session ∷ [] })
    × (env.encode (text "cus") 100 ≡ some response.id)
    × (response ≡ customer_response (entered env (λ s. some s) 1 request session) response.id)
handle_create_customer_lem_example =
    handle_create_customer_lem env (λ s. some s) 1 request session created_run

get_customer-create_customer_example :
    (handle_get_customer env (λ s. some s) 7 (100 ∷ []) after).0.status ≡ 404
get_customer-create_customer_example =
    get_customer-create_customer env (λ s. some s) 1 request session after 7
      (λ id shown h. ground arith) created_run refl refl (ground arith)

list_run :
    handle_list_customers env (λ s. some s) 1 after
    ≡ (found (response ∷ []), record after { ticks = 2 })
unfolding handle_list_customers list_found query exec settle list_customers_by_business_id
    rows_where sort_by insert_by to_customer_responses to_customer_response format_rfc3339
    trim_space
list_run = refl

handle_list_customers_lem_example :
    AreShown env (λ c. Memᴰ c after.db.customers × (c.business_id ≡ 1)) (response ∷ [])
    × (after.db ≡ after.db)
handle_list_customers_lem_example = handle_list_customers_lem env (λ s. some s) 1 after list_run
