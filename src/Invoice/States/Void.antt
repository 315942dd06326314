-- ===== src/Invoice/States/Void.antt =====
-- What `VoidInvoice` and `GetInvoice` of internal/invoice/invoice.go answer and write.
use dodo_payments_backend.Base.{
  ℕ, ◌==◌, ◌≡◌, ◌≢◌, inl, inr, refl, false, none, some, List, [], ◌∷◌, arith, find_row, update_rows,
  rows_where, sort_by, Option-cases,
}
use dodo_payments_backend.Base.Result.{ok}
use dodo_payments_backend.Base.Text.{Text, text}
use dodo_payments_backend.Db.{
  RowId, InvoiceState, draft, open_invoice, paid, void, uncollectible, Invoice, InvoiceItem, Db,
}
use dodo_payments_backend.Db.Tx.{Session, query}
use dodo_payments_backend.Db.Tx.Inversion.{query_ok, query_none}
use dodo_payments_backend.Db.Queries.Payment.{invoice_is}
use dodo_payments_backend.Db.Queries.Resources.{
  get_invoice_by_id, update_invoice_state, list_invoice_items_by_invoice_id,
}
use dodo_payments_backend.Http.{Env}
use dodo_payments_backend.Invoice.Responses.{to_item_responses, to_invoice_response}
use dodo_payments_backend.Invoice.States.{
  respond_with, get_found, handle_get_invoice, voided, void_from, void_found, handle_void_invoice,
}

-- What becomes of an invoice that is voided, by its state, and how the request is answered.
abbrev pub void_status : InvoiceState → ℕ
void_status paid = 400
void_status uncollectible = 400
void_status _ = 200

module _ (env : Env) (business_id id : RowId) where
  abbrev pub voids : InvoiceState → Db → Db
  voids draft db = record db {
    invoices =
        update_rows (invoice_is id business_id)
          (λ v. record v { state = void; updated_at = env.now }) db.invoices;
  }
  voids open_invoice db = record db {
    invoices =
        update_rows (invoice_is id business_id)
          (λ v. record v { state = void; updated_at = env.now }) db.invoices;
  }
  voids paid db = db
  voids void db = db
  voids uncollectible db = db

  -- The codec refuses no id of an invoice, a customer or an item.
  abbrev pub EncodesAll : Type 0
  EncodesAll =
      (n : RowId)
      → (env.encode (text "inv") n ≢ none)
        × (env.encode (text "cus") n ≢ none)
        × (env.encode (text "itm") n ≢ none)

  items_some : EncodesAll → (items : List InvoiceItem) → to_item_responses env items ≢ none
  unfolding to_item_responses
  items_some total [] = ground arith
  items_some total (itm ∷ items) =
      ground (arith, (total itm.id).2, (total itm.invoice_id).0, items_some total items)

  response_some :
      EncodesAll
      → (inv : Invoice) (items : List InvoiceItem) → to_invoice_response env inv items ≢ none
  unfolding to_invoice_response
  response_some total inv items =
      ground (arith, (total inv.id).0, (total inv.customer_id).1, items_some total items)

  shown :
      EncodesAll
      → ((n : ℕ) → env.fault n ≡ false)
      → (inv : Invoice) (s : Session)
      → let out =
          respond_with env business_id inv
            (query env.fault (list_invoice_items_by_invoice_id id) s) in
        (out.0.status ≡ 200) × (out.1.db ≡ s.db)
  unfolding respond_with list_invoice_items_by_invoice_id
  shown total calm inv s =
      let items =
        sort_by (λ (i : InvoiceItem). i.id)
          (rows_where (λ (i : InvoiceItem). i.invoice_id == id) s.db.invoice_items) in
      rw (query_ok env.fault (list_invoice_items_by_invoice_id id) s (calm s.ticks) refl)
        (elim (Option-cases (to_invoice_response env inv items)) [
          | inl e ↦ absurd (response_some total inv items e)
          | inr (r, e) ↦ rw (e, respond_with) (refl, refl)
        ])

  update_runs :
      (v : Invoice) (db : Db)
      → find_row (invoice_is id business_id) db.invoices ≡ some v
      → update_invoice_state env.now id business_id void db
        ≡ ok (record v { state = void; updated_at = env.now }, voids open_invoice db)
  unfolding update_invoice_state
  update_runs v db f = ground arith

  get_runs :
      (v : Invoice) (db : Db)
      → find_row (invoice_is id business_id) db.invoices ≡ some v
      → get_invoice_by_id id business_id db ≡ ok (v, db)
  unfolding get_invoice_by_id
  get_runs v db f = rw f refl

  update_shown :
      EncodesAll
      → ((n : ℕ) → env.fault n ≡ false)
      → (v : Invoice) (s : Session) → find_row (invoice_is id business_id) s.db.invoices ≡ some v
      → let out =
          voided env business_id id
            (query env.fault (update_invoice_state env.now id business_id void) s) in
        (out.0.status ≡ 200) × (out.1.db ≡ voids open_invoice s.db)
  unfolding voided update_invoice_state
  update_shown total calm v s f =
      rw
        (query_ok env.fault (update_invoice_state env.now id business_id void) s (calm s.ticks)
          (update_runs v s.db f))
        (shown total calm _ _)

  from_state :
      EncodesAll
      → ((n : ℕ) → env.fault n ≡ false)
      → (v : Invoice) (st : InvoiceState) (s : Session)
      → find_row (invoice_is id business_id) s.db.invoices ≡ some v
      → let out = void_from env business_id id v st s in
        (out.0.status ≡ void_status st) × (out.1.db ≡ voids st s.db)
  unfolding void_from
  from_state total calm v draft s f = update_shown total calm v s f
  from_state total calm v open_invoice s f = update_shown total calm v s f
  from_state total calm v paid s f = (refl, refl)
  from_state total calm v void s f = shown total calm v s
  from_state total calm v uncollectible s f = (refl, refl)

  -- For an authenticated business, if no statement fails for the connection and the codec refuses
  -- no id of an invoice, a customer or an item, voiding an invoice of the business that the public id names answers 200 and makes it VOID
  -- when it is DRAFT or OPEN, answers 200 and writes nothing when it is VOID already, and answers 400
  -- and writes nothing when it is PAID or UNCOLLECTIBLE.
  pub handle_void_invoice_lem :
      (raw_id : Text) (v : Invoice) (s : Session)
      → business_id ≢ 0
      → env.decode (text "inv") raw_id ≡ some id
      → EncodesAll
      → ((n : ℕ) → env.fault n ≡ false)
      → find_row (invoice_is id business_id) s.db.invoices ≡ some v
      → let out = handle_void_invoice env business_id raw_id s in
        (out.0.status ≡ void_status v.state) × (out.1.db ≡ voids v.state s.db)
  unfolding handle_void_invoice void_found get_invoice_by_id
  handle_void_invoice_lem raw_id v s auth d total calm f =
      let nonzero : (business_id == 0) ≡ false = ground arith in
      rw
        (
          nonzero,
          d,
          query_ok env.fault (get_invoice_by_id id business_id) s (calm s.ticks)
              (get_runs v s.db f),
        )
        (from_state total calm v v.state _ f)

  -- For an authenticated business, an invoice that it does not have, one of another business
  -- included, is answered 404 by the look-up and by the void, if the statement does not fail for the
  -- connection; neither writes anything.
  pub not_found_lem :
      (raw_id : Text) (s : Session)
      → business_id ≢ 0
      → env.decode (text "inv") raw_id ≡ some id
      → env.fault s.ticks ≡ false
      → find_row (invoice_is id business_id) s.db.invoices ≡ none
      → let got = handle_get_invoice env business_id raw_id s in
        let out = handle_void_invoice env business_id raw_id s in
        (got.0.status ≡ 404) × (got.1.db ≡ s.db) × (out.0.status ≡ 404) × (out.1.db ≡ s.db)
  unfolding handle_void_invoice void_found handle_get_invoice get_found get_invoice_by_id
  not_found_lem raw_id s auth d calm f =
      let nonzero : (business_id == 0) ≡ false = ground arith in
      rw (nonzero, d, query_none env.fault (get_invoice_by_id id business_id) s calm (rw f refl))
        (refl, refl, refl, refl)
