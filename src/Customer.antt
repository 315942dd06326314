-- ===== src/Customer.antt =====
-- The handlers of internal/customer/customer.go. `parse_address` is `mail.ParseAddress`: the
-- address that it reads out of a text, or `none` for an error.
pub mod RoundTrip
pub mod Listed
mod Tests
use dodo_payments_backend.Base.{
  ℕ, ◌+◌, Bool, false, not, ◌&&◌, ◌||◌, ◌==◌, Option, none, some, List, [], ◌∷◌, if◌then◌else◌, ltb,
  length,
}
use dodo_payments_backend.Base.Result.{Result, ok, err}
use dodo_payments_backend.Base.Text.{Text, text, text_eq, is_empty, trim_space, contains_byte}
use dodo_payments_backend.Base.Clock.{format_rfc3339}
use dodo_payments_backend.Db.{RowId, Customer}
use dodo_payments_backend.Db.Tx.{Error, no_rows, Session, query}
use dodo_payments_backend.Db.Queries.Resources.{
  create_customer, get_customer_by_id, list_customers_by_business_id,
}
use dodo_payments_backend.Http.{Env, Response, json, error_response}

pub record CreateCustomerRequest : Type 0 where
  pub name : Text
  pub email : Text

pub record CustomerResponse : Type 0 where
  pub id : Text
  pub name : Text
  pub email : Text
  pub created_at : Text
  pub updated_at : Text

abbrev same_address : Option Text → Text → Bool
same_address none email = false
same_address (some address) email = text_eq address email

unfoldable pub is_valid_email : (Text → Option Text) → Text → Bool
is_valid_email parse_address email =
    if length email == 0 || ltb 320 (length email)
    then false
    else same_address (parse_address email) email && contains_byte email b'@'

abbrev pub customer_response : Customer → Text → CustomerResponse
customer_response c id = record {
  id = id;
  name = c.name;
  email = c.email;
  created_at = format_rfc3339 c.created_at;
  updated_at = format_rfc3339 c.updated_at;
}

-- `none` is an error of the codec.
unfoldable pub to_customer_response : Env → Customer → Option CustomerResponse
to_customer_response env c = elim (env.encode (text "cus") c.id) [
  | none ↦ none
  | some id ↦ some (customer_response c id)
]

abbrev cons_response :
    Option CustomerResponse → Option (List CustomerResponse) → Option (List CustomerResponse)
cons_response (some r) (some rs) = some (r ∷ rs)
cons_response _ _ = none

-- The loop of the list, which stops at the first error.
unfoldable pub to_customer_responses : Env → List Customer → Option (List CustomerResponse)
to_customer_responses env [] = some []
to_customer_responses env (c ∷ cs) =
    cons_response (to_customer_response env c) (to_customer_responses env cs)

module _ (env : Env) (parse_address : Text → Option Text) (business_id : RowId) where
  abbrev refused : {A : Type 0} → ℕ → Text → Text → Session → Response A × Session
  refused status code message s = (error_response status code message, s)

  -- The response of a status that carries a value, unless the codec has failed.
  abbrev respond : {A : Type 0} → ℕ → Option A → Session → Response A × Session
  respond status none s =
      refused 500 (text "internal_error") (text "Failed to encode customer ID") s
  respond status (some r) s = (record { status = status; body = json r }, s)

  unfoldable pub respond_created :
      Result Error Customer × Session → Response CustomerResponse × Session
  respond_created (err e, s) =
      refused 500 (text "internal_error") (text "Failed to create customer") s
  respond_created (ok c, s) = respond 201 (to_customer_response env c) s

  -- The checks of name and email, and the insert.
  unfoldable pub create_checked :
      CreateCustomerRequest → Session → Response CustomerResponse × Session
  create_checked req s =
      let name = trim_space req.name in
      let email = trim_space req.email in
      if is_empty name
      then refused 400 (text "bad_request") (text "Customer name is required") s
      else if ltb 255 (length name)
      then refused 400 (text "bad_request") (text "Customer name cannot exceed 255 characters") s
      else if not (is_valid_email parse_address email)
      then refused 400 (text "bad_request") (text "A valid email address is required") s
      else respond_created (
          query env.fault (create_customer env.now (env.ids s.drawn) business_id name email)
            (record s { drawn = s.drawn + 1 }))

  -- The handler; `none` is a body that does not bind.
  unfoldable pub handle_create_customer :
      Option CreateCustomerRequest → Session → Response CustomerResponse × Session
  handle_create_customer req s =
      if business_id == 0
      then refused 401 (text "unauthorized") (text "Authentication required") s
      else elim req [
        | none ↦ refused 400 (text "bad_request") (text "Invalid request body") s
        | some r ↦ create_checked r s
      ]

  unfoldable pub list_found :
      Result Error (List Customer) × Session → Response (List CustomerResponse) × Session
  list_found (err e, s) =
      refused 500 (text "internal_error") (text "Failed to retrieve customers") s
  list_found (ok cs, s) = respond 200 (to_customer_responses env cs) s

  unfoldable pub handle_list_customers : Session → Response (List CustomerResponse) × Session
  handle_list_customers s =
      if business_id == 0
      then refused 401 (text "unauthorized") (text "Authentication required") s
      else list_found (query env.fault (list_customers_by_business_id business_id) s)

  unfoldable pub get_found : Result Error Customer × Session → Response CustomerResponse × Session
  get_found (err no_rows, s) = refused 404 (text "not_found") (text "Customer not found") s
  get_found (err e, s) = refused 500 (text "internal_error") (text "Failed to retrieve customer") s
  get_found (ok c, s) = respond 200 (to_customer_response env c) s

  unfoldable pub handle_get_customer : Text → Session → Response CustomerResponse × Session
  handle_get_customer id s =
      if business_id == 0
      then refused 401 (text "unauthorized") (text "Authentication required") s
      else elim (env.decode (text "cus") id) [
        | none ↦ refused 404 (text "not_found") (text "Customer not found") s
        | some customer_id ↦
            get_found (query env.fault (get_customer_by_id customer_id business_id) s)
      ]
