-- ===== src/Customer/Listed.antt =====
-- What `ListCustomers` of internal/customer/customer.go shows.
use dodo_payments_backend.Base.{
  sym, ◌≡◌, inl, inr, refl, true, ◌==◌, Option, none, some, List, [], ◌∷◌, arith, All, rows_where,
  sort_by, Option-cases,
}
use mathlib.Core.List.{Memᴰ, reverse, reverse_aux}
use mathlib.Core.Path.{subst}
use dodo_payments_backend.Base.Rows.{All-map, All-mem}
use dodo_payments_backend.Base.Members.{
  All-of_mem, mem-sort_by, mem-rows_where, rows_where-All, sort_by-All,
}
use dodo_payments_backend.Base.Text.{Text, text}
use dodo_payments_backend.Db.{RowId, Customer}
use dodo_payments_backend.Db.Tx.{Session, query, exec, settle}
use dodo_payments_backend.Db.Queries.Resources.{list_customers_by_business_id}
use dodo_payments_backend.Http.{Env}
use dodo_payments_backend.Customer.{
  cons_response, CustomerResponse, customer_response, to_customer_response, to_customer_responses,
  list_found, handle_list_customers,
}
use dodo_payments_backend.Customer.RoundTrip.{found}

module _ {A : Type 0} where
  aux-All : (P : A → Type 0) (xs ys : List A) → All P xs → All P ys → All P (reverse_aux xs ys)
  aux-All P [] ys h k = k
  aux-All P (x ∷ xs) ys h k = aux-All P xs (x ∷ ys) h.1 (h.0, k)

  reverse-All : (P : A → Type 0) (xs : List A) → All P xs → All P (reverse xs)
  reverse-All P xs h = aux-All P xs [] h tt

  mem-aux_right : (z : A) (xs ys : List A) → Memᴰ z ys → Memᴰ z (reverse_aux xs ys)
  mem-aux_right z [] ys m = m
  mem-aux_right z (x ∷ xs) ys m = mem-aux_right z xs (x ∷ ys) (Memᴰ.tail m)

  mem-aux_left : (z : A) (xs ys : List A) → Memᴰ z xs → Memᴰ z (reverse_aux xs ys)
  mem-aux_left z [] ys m = elim m [ ]
  mem-aux_left z (x ∷ xs) ys (Memᴰ.head e) = mem-aux_right z xs (x ∷ ys) (Memᴰ.head e)
  mem-aux_left z (x ∷ xs) ys (Memᴰ.tail m) = mem-aux_left z xs (x ∷ ys) m

  mem-reverse : (z : A) (xs : List A) → Memᴰ z xs → Memᴰ z (reverse xs)
  mem-reverse z xs m = mem-aux_left z xs [] m

module _ (env : Env) where
  -- The response shows the customer under the public id of its id.
  abbrev pub Shows : Customer → CustomerResponse → Type 0
  Shows c r = (env.encode (text "cus") c.id ≡ some r.id) × (r ≡ customer_response c r.id)

  -- The list has a response for each customer, and no other.
  abbrev pub AreShown : (Customer → Type 0) → List CustomerResponse → Type 0
  AreShown P rs =
      All (λ r. (c : Customer) × P c × Shows c r) rs
      × ((c : Customer) → P c → (r : CustomerResponse) × Memᴰ r rs × Shows c r)

  shown_lem :
      (c : Customer) (r : CustomerResponse) → to_customer_response env c ≡ some r → Shows c r
  unfolding to_customer_response
  shown_lem c r h = elim (Option-cases (env.encode (text "cus") c.id)) [
    | inl e ↦ absurd (ground arith)
    | inr (id, e) ↦
        let is : r ≡ customer_response c id = ground arith in subst (Shows c) (sym is) (e, refl)
  ]

  cons_lem :
      (o : Option CustomerResponse) (os : Option (List CustomerResponse))
      (rs : List CustomerResponse)
      → cons_response o os ≡ some rs
      → (r : CustomerResponse) × (rs' : List CustomerResponse) × (o ≡ some r)
        × (os ≡ some rs')
        × (rs ≡ r ∷ rs')
  cons_lem none os rs h = absurd (ground arith)
  cons_lem (some r) none rs h = absurd (ground arith)
  cons_lem (some r) (some rs') rs h = (r, rs', refl, refl, ground arith)

  responses_lem :
      (cs : List Customer) (rs : List CustomerResponse)
      → to_customer_responses env cs ≡ some rs
      → AreShown (λ c. Memᴰ c cs) rs
  unfolding to_customer_responses
  responses_lem [] rs h =
      let is : rs ≡ [] = ground arith in
      subst (AreShown (λ c. Memᴰ c [])) (sym is) (tt, λ c m. elim m [ ])
  responses_lem (c ∷ cs) rs h =
      let (r, rs', one, rest, is) =
        cons_lem (to_customer_response env c) (to_customer_responses env cs) rs h in
      let (sound, complete) = responses_lem cs rs' rest in
      let shown = shown_lem c r one in
      subst (AreShown (λ x. Memᴰ x (c ∷ cs))) (sym is) (
        (
          (c, Memᴰ.head refl, shown),
          All-map (λ q. (x : Customer) × Memᴰ x cs × Shows x q)
              (λ q. (x : Customer) × Memᴰ x (c ∷ cs) × Shows x q) rs'
              (λ q (x, m, k). (x, Memᴰ.tail m, k)) sound,
        ),
        λ x m. elim m [
          | Memᴰ.head e ↦ (r, Memᴰ.head refl, subst (λ y. Shows y r) (sym e) shown)
          | Memᴰ.tail n ↦ let (q, k, w) = complete x n in (q, Memᴰ.tail k, w)
        ],
      )

  -- A list of customers that is answered 200 shows exactly the customers of the business, each under
  -- the public id of its id, and none of another business; the tables stay as they are.
  pub handle_list_customers_lem :
      (parse_address : Text → Option Text) (business_id : RowId) (s : Session)
      {rs : List CustomerResponse} {s' : Session}
      → handle_list_customers env parse_address business_id s ≡ (found rs, s')
      → AreShown (λ c. Memᴰ c s.db.customers × (c.business_id ≡ business_id)) rs × (s'.db ≡ s.db)
  unfolding handle_list_customers list_found query exec settle list_customers_by_business_id
  handle_list_customers_lem parse_address business_id s {rs} {s'} h =
      let own = λ (c : Customer). c.business_id == business_id in
      let mine = rows_where own s.db.customers in
      let sorted = sort_by (λ (c : Customer). c.created_at) mine in
      let shown : to_customer_responses env (reverse sorted) ≡ some rs = ground arith in
      let same : s'.db ≡ s.db = ground arith in
      let P : Customer → Type 0 = λ c. Memᴰ c s.db.customers × (c.business_id ≡ business_id) in
      let (sound, complete) = responses_lem (reverse sorted) rs shown in
      let all_mine : All P (reverse sorted) = reverse-All P sorted (
        sort_by-All P (λ c. c.created_at) mine
          (All-map (λ c. Memᴰ c s.db.customers × (own c ≡ true)) P mine
            (λ c (m, e). (m, ground arith))
            (rows_where-All (λ c. Memᴰ c s.db.customers) own s.db.customers
              (All-of_mem (λ c. Memᴰ c s.db.customers) s.db.customers (λ c m. m))))) in
      (
        (
          All-map (λ r. (c : Customer) × Memᴰ c (reverse sorted) × Shows c r)
              (λ r. (c : Customer) × P c × Shows c r) rs
              (λ r (c, m, k). (c, All-mem P (reverse sorted) c all_mine m, k)) sound,
          λ c (m, e). complete c (
              mem-reverse c sorted (
                mem-sort_by (λ (x : Customer). x.created_at) c mine
                  (mem-rows_where own c s.db.customers (ground arith) m))),
        ),
        same,
      )
