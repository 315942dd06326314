-- ===== src/Invoice/Create/Accepted.antt =====
-- `CreateInvoice` of internal/invoice/invoice.go from the request to a response 201.
use dodo_payments_backend.Base.{
  ℕ, ◌+◌, ◌==◌, ◌<◌, ◌^◌, ◌≡◌, ◌⊎◌, inl, inr, refl, ap, ◌∙◌, false, true, Option, some, List, [],
  ◌∷◌, ◌++◌, arith, All, any_row, Option-cases, Bool-cases,
}
use mathlib.Core.Path.{subst}
use dodo_payments_backend.Base.Int.{pos, ℤ}
use dodo_payments_backend.Base.Result.{Result, ok, err}
use dodo_payments_backend.Base.Text.{Text, text, trim_space}
use dodo_payments_backend.Db.{
  RowId, InvoiceState, draft, open_invoice, Customer, Invoice, InvoiceItem, Db,
}
use dodo_payments_backend.Db.Tx.{Error, no_rows, Session, exec, settle, query, run_tx}
use dodo_payments_backend.Db.Tx.Inversion.{run_tx_ok, opened}
use dodo_payments_backend.Db.Queries.Resources.{customer_is, get_customer_by_id}
use dodo_payments_backend.Http.{Env, Response}
use dodo_payments_backend.Invoice.Types.{CreateInvoiceRequest, InvoiceResponse}
use dodo_payments_backend.Invoice.Totals.{sum_items}
use dodo_payments_backend.Invoice.Totals.Exact.{IsBillable, cents, sum_items_iff}
use dodo_payments_backend.Invoice.Responses.{to_invoice_response}
use dodo_payments_backend.Invoice.Create.Effects.{AreRowsOf, create_body_ok}
use dodo_payments_backend.Invoice.Create.{
  check_request, initial_state, create_body, respond_created, create_for, create_checked,
  handle_create_invoice,
}

module _ (env : Env) (business_id : RowId) where
  -- The rows that a created invoice has given.
  pub record IsCreated (before after : Db) (req : CreateInvoiceRequest) (inv : Invoice)
      (rows : List InvoiceItem) : Type 0 where
    pub owner : inv.business_id ≡ business_id
    pub customer : any_row (customer_is inv.customer_id business_id) before.customers ≡ true
    pub unused : any_row (λ v. v.id == inv.id) before.invoices ≡ false
    pub billable : All IsBillable req.items
    pub fits : cents req.items < 2 ^ 63
    pub amount : inv.total_amount_cents ≡ pos (cents req.items)
    pub opened : (inv.state ≡ draft) ⊎ (inv.state ≡ open_invoice)
    pub stored : after.invoices ≡ before.invoices ++ inv ∷ []
    pub rows_of : AreRowsOf env business_id inv.id req.items rows
    pub rows_stored : after.invoice_items ≡ before.invoice_items ++ rows

  -- A request that the checks let through.
  check_ok :
      (req : CreateInvoiceRequest) {due : ℕ} {total : ℤ}
      → check_request req ≡ ok (due, total)
      → sum_items 1 (pos 0) req.items ≡ ok total
  unfolding check_request
  check_ok req h = ground arith

  state_ok :
      (o : Option Text) {state : InvoiceState}
      → initial_state o ≡ some state
      → (state ≡ draft) ⊎ (state ≡ open_invoice)
  unfolding initial_state
  state_ok o h = ground arith

  customer_same :
      (c : RowId) (s : Session) → (query env.fault (get_customer_by_id c business_id) s).1.db ≡ s.db
  unfolding query exec settle get_customer_by_id
  customer_same c s = ground arith

  -- A response 201 comes from a transaction that went well.
  respond_201 :
      (r : Result Error (Invoice × List InvoiceItem) × Session)
      → (respond_created env business_id r).0.status ≡ 201
      → (inv : Invoice) × (rows : List InvoiceItem) × (r
          ≡ (ok (inv, rows), (respond_created env business_id r).1))
  unfolding respond_created
  respond_201 (err e, s) h = absurd (ground arith)
  respond_201 (ok (inv, rows), s) h = elim (Option-cases (to_invoice_response env inv rows)) [
    | inl e ↦ absurd (ground (arith, e))
    | inr (resp, e) ↦ (inv, rows, rw (e, respond_created) refl)
  ]

  -- What the theorem below promises of an outcome.
  abbrev Creates : Db → CreateInvoiceRequest → Response InvoiceResponse × Session → Type 0
  Creates before req out =
      out.0.status ≡ 201
      → (inv : Invoice) × (rows : List InvoiceItem) × IsCreated before out.1.db req inv rows

  created_201 :
      (req : CreateInvoiceRequest) (due : ℕ) (total : ℤ) (c : RowId) (state : InvoiceState)
      (s : Session)
      → check_request req ≡ ok (due, total)
      → initial_state req.state ≡ some state
      → Creates s.db req (
          respond_created env business_id (
            run_tx env.fault env.lost
              (create_body env business_id req (env.ids s.drawn) c state due total)
              (record s { drawn = s.drawn + 1 })))
  created_201 req due total c state s checked st h =
      let m = create_body env business_id req (env.ids s.drawn) c state due total in
      let s₀ = record s { drawn = s.drawn + 1 } in
      let (inv, rows, run) = respond_201 (run_tx env.fault env.lost m s₀) h in
      let (body, same, live) = run_tx_ok env.fault env.lost m s₀ run in
      let (is_inv, known, unused, are_rows, invs, its) =
        create_body_ok env business_id req (env.ids s.drawn) c state due total (opened s₀) body
          live in
      let (billable, fits, exact) = (sum_items_iff req.items total).0 (check_ok req checked) in
      let id_same : inv.id ≡ env.ids s.drawn = ap (λ v. v.id) is_inv in
      (
        inv,
        rows,
        record {
          owner = ap (λ v. v.business_id) is_inv;
          customer = rw (ap (λ v. v.customer_id) is_inv) known;
          unused = rw id_same unused;
          billable = billable;
          fits = fits;
          amount = ap (λ v. v.total_amount_cents) is_inv ∙ exact;
          opened = ground (arith, state_ok req.state st, ap (λ v. v.state) is_inv);
          stored = ap (λ d. d.invoices) same ∙ invs;
          rows_of = rw id_same are_rows;
          rows_stored = ap (λ d. d.invoice_items) same ∙ its;
        },
      )

  for_201 :
      (req : CreateInvoiceRequest) (due : ℕ) (total : ℤ) (c : RowId)
      (r : Result Error Customer × Session)
      → check_request req ≡ ok (due, total)
      → Creates r.1.db req (create_for env business_id req due total c r)
  unfolding create_for
  for_201 req due total c (ok cust, s) checked = elim (Option-cases (initial_state req.state)) [
    | inl e ↦ rw (e, create_for) (λ h. absurd (ground arith))
    | inr (state, e) ↦ rw (e, create_for) (created_201 req due total c state s checked e)
  ]
  for_201 req due total c (err no_rows, s) checked = λ h. absurd (ground arith)
  for_201 req due total c (err _, s) checked = λ h. absurd (ground arith)

  checked_201 :
      (req : CreateInvoiceRequest) (r : Result Text (ℕ × ℤ)) (s : Session)
      → check_request req ≡ r
      → Creates s.db req (create_checked env business_id req r s)
  unfolding create_checked
  checked_201 req (err m) s e = λ h. absurd (ground arith)
  checked_201 req (ok (due, total)) s e =
      elim (Option-cases (env.decode (text "cus") (trim_space req.customer_id))) [
        | inl n ↦ rw (n, create_checked) (λ h. absurd (ground arith))
        | inr (c, d) ↦
            rw (d, create_checked)
              (subst
                (λ db. Creates db req (
                  create_for env business_id req due total c
                    (query env.fault (get_customer_by_id c business_id) s)))
                (customer_same c s)
                (for_201 req due total c (query env.fault (get_customer_by_id c business_id) s) e))
      ]

  -- A response 201 to a request means that the tables have one new invoice of the business, for a
  -- customer of it, in the state DRAFT or OPEN, whose total is the exact sum of quantity times
  -- amount over the items, an int64; and one new item row for each item, in their order.
  pub handle_create_invoice-IsCreated :
      (req : CreateInvoiceRequest) (s : Session)
      → (handle_create_invoice env business_id (some req) s).0.status ≡ 201
      → (inv : Invoice) × (rows : List InvoiceItem) × IsCreated s.db
          (handle_create_invoice env business_id (some req) s).1.db
          req
          inv
          rows
  unfolding handle_create_invoice
  handle_create_invoice-IsCreated req s = elim (Bool-cases (business_id == 0)) [
    | inl e ↦ rw e (λ h. absurd (ground arith))
    | inr e ↦ rw e (checked_201 req (check_request req) s refl)
  ]
