-- ===== src/Customer/RoundTrip.antt =====
-- What `CreateCustomer` of internal/customer/customer.go writes, and that `GetCustomer` reads it
-- back.
use dodo_payments_backend.Base.{
  ◌+◌, ◌≤◌, ◌≡◌, ◌≢◌, refl, sym, ap, ◌∙◌, true, false, ◌==◌, Option, none, some, [], ◌∷◌, ◌++◌,
  arith, if◌then◌else◌, length, any_row, find_row, Bool-cases, Option-cases, inl, inr,
}
use dodo_payments_backend.Base.Rows.{any_row-weaken, find_row-append_last, find_row-append_none}
use dodo_payments_backend.Base.Result.{ok, err}
use dodo_payments_backend.Base.Text.{Text, text, is_empty, trim_space, contains_byte, text_eq_iff}
use dodo_payments_backend.Db.{RowId, Time, Customer, Db}
use dodo_payments_backend.Db.Tx.{no_rows, Session, query, exec, settle}
use dodo_payments_backend.Db.Tx.Inversion.{query_ok, query_none}
use dodo_payments_backend.Db.Queries.Resources.{create_customer, get_customer_by_id, customer_is}
use dodo_payments_backend.Http.{Env, Response, json}
use dodo_payments_backend.Customer.{
  CreateCustomerRequest, CustomerResponse, is_valid_email, customer_response, to_customer_response,
  respond_created, create_checked, handle_create_customer, get_found, handle_get_customer,
}

abbrev pub new_customer : Time → RowId → RowId → Text → Text → Customer
new_customer now id business_id name email = record {
  id = id;
  business_id = business_id;
  name = name;
  email = email;
  created_at = now;
  updated_at = now;
}

abbrev pub created : {A : Type 0} → A → Response A
created a = record { status = 201; body = json a }

abbrev pub found : {A : Type 0} → A → Response A
found a = record { status = 200; body = json a }

module _ (env : Env) (parse_address : Text → Option Text) (business_id : RowId) where
  abbrev pub entered : CreateCustomerRequest → Session → Customer
  entered req s =
      new_customer env.now (env.ids s.drawn) business_id (trim_space req.name)
        (trim_space req.email)

  -- What a request must satisfy, in terms of the texts as trimmed.
  pub record IsAcceptable (req : CreateCustomerRequest) : Type 0 where
    pub business : business_id ≢ 0
    pub named : is_empty (trim_space req.name) ≡ false
    pub short : length (trim_space req.name) ≤ 255
    pub address_short : length (trim_space req.email) ≤ 320
    pub address : parse_address (trim_space req.email) ≡ some (trim_space req.email)
    pub at_sign : contains_byte (trim_space req.email) b'@' ≡ true

  is_valid_email_lem :
      (email : Text)
      → is_valid_email parse_address email ≡ true
      → (length email ≤ 320)
        × (parse_address email ≡ some email)
        × (contains_byte email b'@' ≡ true)
  unfolding is_valid_email
  is_valid_email_lem email h = elim (Option-cases (parse_address email)) [
    | inl e ↦ absurd (ground arith)
    | inr (a, e) ↦ (ground arith, ground (arith, text_eq_iff a email), ground arith)
  ]

  create_ok :
      (id : RowId) (name email : Text) (s : Session) {resp : CustomerResponse} {s' : Session}
      → respond_created env parse_address business_id
          (query env.fault (create_customer env.now id business_id name email) s)
        ≡ (created resp, s')
      → let c = new_customer env.now id business_id name email in
        (any_row (λ (x : Customer). x.id == id) s.db.customers ≡ false)
        × (s'.db ≡ record s.db { customers = s.db.customers ++ c ∷ [] })
        × (env.encode (text "cus") id ≡ some resp.id)
        × (resp ≡ customer_response c resp.id)
  unfolding respond_created query exec settle create_customer to_customer_response
  create_ok id name email s h = elim (Option-cases (env.encode (text "cus") id)) [
    | inl e ↦ absurd (ground arith)
    | inr (t, e) ↦ (ground arith, ground arith, ground arith, ground arith)
  ]

  -- A response 201 means that the business is authenticated, that the name as trimmed is not empty
  -- and has at most 255 bytes, that the email as trimmed has at most 320 bytes, is itself the
  -- address that is read out of it, and has an '@'; that no customer had the new id; that just
  -- this customer has been added to the tables, with the texts as trimmed; and that the response
  -- shows it under the public id of its id.
  pub handle_create_customer_lem :
      (req : CreateCustomerRequest) (s : Session) {resp : CustomerResponse} {s' : Session}
      → handle_create_customer env parse_address business_id (some req) s ≡ (created resp, s')
      → IsAcceptable req
        × (any_row (λ (x : Customer). x.id == env.ids s.drawn) s.db.customers ≡ false)
        × (s'.db ≡ record s.db { customers = s.db.customers ++ entered req s ∷ [] })
        × (env.encode (text "cus") (env.ids s.drawn) ≡ some resp.id)
        × (resp ≡ customer_response (entered req s) resp.id)
  unfolding handle_create_customer create_checked
  handle_create_customer_lem req s {resp} {s'} h =
      let name = trim_space req.name in
      let email = trim_space req.email in
      let here : business_id ≢ 0 = λ e. ground arith in
      let named : is_empty name ≡ false = ground arith in
      let short : length name ≤ 255 = ground arith in
      let valid : is_valid_email parse_address email ≡ true = ground arith in
      let (address_short, address, at_sign) = is_valid_email_lem email valid in
      let run : respond_created env parse_address business_id (
            query env.fault (create_customer env.now (env.ids s.drawn) business_id name email)
              (record s { drawn = s.drawn + 1 }))
          ≡ (created resp, s') =
        ground arith in
      let wrote = create_ok (env.ids s.drawn) name email (record s { drawn = s.drawn + 1 }) run in
      (
        record {
          business = here;
          named = named;
          short = short;
          address_short = address_short;
          address = address;
          at_sign = at_sign;
        },
        wrote.0,
        wrote.1,
        wrote.2,
        wrote.3,
      )

  query_customer :
      (id b : RowId) (c : Customer) (db : Db)
      → find_row (customer_is id b) db.customers ≡ some c
      → get_customer_by_id id b db ≡ ok (c, db)
  unfolding get_customer_by_id
  query_customer id b c db h = rw h refl

  query_no_customer :
      (id b : RowId) (db : Db)
      → find_row (customer_is id b) db.customers ≡ none
      → get_customer_by_id id b db ≡ err no_rows
  unfolding get_customer_by_id
  query_no_customer id b db h = rw h refl

  to_response :
      (c : Customer) (resp : CustomerResponse)
      → env.encode (text "cus") c.id ≡ some resp.id
      → resp ≡ customer_response c resp.id
      → to_customer_response env c ≡ some resp
  unfolding to_customer_response
  to_response c resp enc shown = rw (enc, to_customer_response) (ap some (sym shown))

  get_entered :
      (id : RowId) (c : Customer) (t : Session) (b : RowId) (resp : CustomerResponse)
      → b ≢ 0
      → env.fault t.ticks ≡ false
      → env.decode (text "cus") resp.id ≡ some id
      → env.encode (text "cus") id ≡ some resp.id
      → c.id ≡ id
      → resp ≡ customer_response c resp.id
      → find_row (customer_is id b) t.db.customers ≡ some c
      → handle_get_customer env parse_address b resp.id t
        ≡ (found resp, record t { ticks = t.ticks + 1; aborted = false })
  unfolding handle_get_customer get_found
  get_entered id c t b resp nonzero calm dec enc same shown hit =
      let nz : (b == 0) ≡ false = ground arith in
      let q =
        query_ok env.fault (get_customer_by_id id b) t calm (query_customer id b c t.db hit) in
      let e : env.encode (text "cus") c.id ≡ some resp.id = rw same enc in
      rw (nz, dec, q, get_found, to_response c resp e shown) refl

  get_missing :
      (id : RowId) (t : Session) (b : RowId) (shown : Text)
      → b ≢ 0
      → env.fault t.ticks ≡ false
      → env.decode (text "cus") shown ≡ some id
      → find_row (customer_is id b) t.db.customers ≡ none
      → (handle_get_customer env parse_address b shown t).0.status ≡ 404
  unfolding handle_get_customer get_found
  get_missing id t b shown nonzero calm dec miss =
      let nz : (b == 0) ≡ false = ground arith in
      let q =
        query_none env.fault (get_customer_by_id id b) t calm (query_no_customer id b t.db miss) in
      rw (nz, dec, q) refl

  -- A customer whose creation was answered 201 is found under the id of that response, with the very
  -- same body, by its own business; any other business gets 404. This holds at any later time at
  -- which the customers are as the creation left them and the statement does not fail, where the
  -- codec decodes what it has encoded.
  pub get_customer-create_customer :
      (req : CreateCustomerRequest) (s t : Session) (b : RowId) {resp : CustomerResponse}
      {s' : Session}
      → ((id : RowId) (shown : Text)
          → env.encode (text "cus") id ≡ some shown
          → env.decode (text "cus") shown ≡ some id)
      → handle_create_customer env parse_address business_id (some req) s ≡ (created resp, s')
      → t.db.customers ≡ s'.db.customers
      → env.fault t.ticks ≡ false
      → b ≢ 0
      → let got = handle_get_customer env parse_address b resp.id t in
        if b == business_id then got.0 ≡ found resp else got.0.status ≡ 404
  get_customer-create_customer req s t b {resp} codec h same calm nonzero =
      let id = env.ids s.drawn in
      let c = entered req s in
      let (ok_req, new, wrote, enc, shown) = handle_create_customer_lem req s h in
      let free =
        any_row-weaken (customer_is id b) (λ (x : Customer). x.id == id) s.db.customers
          (λ x e. ground arith) new in
      let table : t.db.customers ≡ s.db.customers ++ c ∷ [] =
        same ∙ ap (λ (d : Db). d.customers) wrote in
      let dec = codec id resp.id enc in
      elim (Bool-cases (b == business_id)) [
        | inl e ↦
            let mine : customer_is id b c ≡ true = ground arith in
            let hit : find_row (customer_is id b) t.db.customers ≡ some c =
              rw table (find_row-append_last (customer_is id b) s.db.customers c free mine) in
            rw (e, get_entered id c t b resp nonzero calm dec enc refl shown hit) refl
        | inr e ↦
            let other : customer_is id b c ≡ false = ground arith in
            let miss : find_row (customer_is id b) t.db.customers ≡ none =
              rw table (find_row-append_none (customer_is id b) s.db.customers c free other) in
            rw e (get_missing id t b resp.id nonzero calm dec miss)
      ]
