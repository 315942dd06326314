-- ===== src/Invoice/Create/Effects.antt =====
-- What `CreateInvoice` of internal/invoice/invoice.go has written when it answers 201.
use dodo_payments_backend.Base.{
  ℕ, ◌+◌, ◌==◌, ◌≡◌, ◌⊎◌, inl, inr, sym, ap, ◌∙◌, false, true, List, [], ◌∷◌, ◌++◌, arith, any_row,
}
use mathlib.Core.Path.{subst}
use mathlib.Core.List.{append-nil, append_assoc}
use dodo_payments_backend.Base.Int.{ℤ}
use dodo_payments_backend.Base.Result.{ok, Result-cases}
use dodo_payments_backend.Base.Text.{Text, text, trim_space}
use dodo_payments_backend.Db.{RowId, invoice_created, InvoiceState, Invoice, InvoiceItem, Db}
use dodo_payments_backend.Db.Tx.{Session, pure, ◌>>=◌, ◌>>◌, ignore, exec, next_id}
use dodo_payments_backend.Db.Tx.Inversion.{bind_ok, exec_ok}
use dodo_payments_backend.Db.Queries.Resources.{
  customer_is, new_invoice, create_invoice, new_invoice_item, create_invoice_item,
}
use dodo_payments_backend.Http.{Env}
use dodo_payments_backend.Webhook.Outbox.{queue_deliveries}
use dodo_payments_backend.Webhook.Outbox.Effects.{queue_deliveries_ok, queue_deliveries_err}
use dodo_payments_backend.Invoice.Types.{ItemInput, CreateInvoiceRequest}
use dodo_payments_backend.Invoice.Create.{created_payload, insert_items, create_body}

module _ (env : Env) (business_id : RowId) where
  -- The rows of the items, in the order of the request.
  abbrev pub AreRowsOf : RowId → List ItemInput → List InvoiceItem → Type 0
  AreRowsOf invoice_id [] [] = Unit {0}
  AreRowsOf invoice_id (itm ∷ items) (row ∷ rows) =
      (row
        ≡ new_invoice_item env.now row.id invoice_id (trim_space itm.description) itm.quantity
            itm.unit_amount_cents)
      × AreRowsOf invoice_id items rows
  AreRowsOf invoice_id _ _ = ⊥

  item_ok :
      (id invoice_id : RowId) (d : Text) (q u : ℤ) (db : Db) {row : InvoiceItem} {db' : Db}
      → create_invoice_item env.now id invoice_id d q u db ≡ ok (row, db')
      → (row ≡ new_invoice_item env.now row.id invoice_id d q u)
        × (db' ≡ record db { invoice_items = db.invoice_items ++ row ∷ [] })
  unfolding create_invoice_item
  item_ok id invoice_id d q u db h = ground arith

  insert_items_ok :
      (invoice_id : RowId) (items : List ItemInput) (s : Session) {rows : List InvoiceItem}
      {s' : Session}
      → insert_items env business_id invoice_id items s ≡ (ok rows, s')
      → AreRowsOf invoice_id items rows
        × (s'.db ≡ record s.db { invoice_items = s.db.invoice_items ++ rows })
  unfolding insert_items next_id
  insert_items_ok invoice_id [] s h = nothing h
    where
      nothing :
          {rows : List InvoiceItem} {s' : Session}
          → insert_items env business_id invoice_id [] s ≡ (ok rows, s')
          → AreRowsOf invoice_id [] rows
            × (s'.db ≡ record s.db { invoice_items = s.db.invoice_items ++ rows })
      nothing {rows = []} h = (tt, ground (arith, append-nil s.db.invoice_items))
      nothing {rows = row ∷ rows} h = absurd (ground arith)
  insert_items_ok invoice_id (itm ∷ items) s h =
      let q =
        create_invoice_item env.now (env.ids s.drawn) invoice_id (trim_space itm.description)
          itm.quantity itm.unit_amount_cents in
      let s₁ = record s { drawn = s.drawn + 1 } in
      let (row, t, made, more) =
        bind_ok (exec env.fault q)
          (λ row. insert_items env business_id invoice_id items >>= λ rest. pure (row ∷ rest)) s₁
          h in
      let (rest, u, rows_made, end) =
        bind_ok (insert_items env business_id invoice_id items) (λ rest. pure (row ∷ rest)) t
          more in
      let (query₁, _, _, _) = exec_ok env.fault q s₁ made in
      let (is_row, db₁) =
        item_ok (env.ids s.drawn) invoice_id (trim_space itm.description) itm.quantity
          itm.unit_amount_cents s.db query₁ in
      let (are_rows, db₂) = insert_items_ok invoice_id items t rows_made in
      elim_rows rest row t u end is_row are_rows db₁ db₂
    where
      elim_rows :
          (rest : List InvoiceItem) (row : InvoiceItem) (t u : Session) {rows : List InvoiceItem}
          {s' : Session}
          → pure (row ∷ rest) u ≡ (ok rows, s')
          → row
            ≡ new_invoice_item env.now row.id invoice_id
                (trim_space itm.description)
                itm.quantity
                itm.unit_amount_cents
          → AreRowsOf invoice_id items rest
          → t.db ≡ record s.db { invoice_items = s.db.invoice_items ++ row ∷ [] }
          → u.db ≡ record t.db { invoice_items = t.db.invoice_items ++ rest }
          → AreRowsOf invoice_id (itm ∷ items) rows
            × (s'.db ≡ record s.db { invoice_items = s.db.invoice_items ++ rows })
      elim_rows rest row t u {rows = []} h r a d e = absurd (ground arith)
      elim_rows rest row t u {rows = row' ∷ rows} {s'} h r a d e =
          let (same, same', last) : (row ≡ row') × (rest ≡ rows) × (u ≡ s') = ground arith in
          (
            (rw (← same) r, rw (← same') a),
            ground
                (arith, same, same', last, d, e, append_assoc s.db.invoice_items (row ∷ []) rest),
          )

  invoice_ok :
      (id c : RowId) (total : ℤ) (state : InvoiceState) (due : ℕ) (db : Db) {inv : Invoice}
      {db' : Db}
      → create_invoice env.now id business_id c total (text "USD") state due db ≡ ok (inv, db')
      → (inv ≡ new_invoice env.now id business_id c total (text "USD") state due)
        × (any_row (customer_is c business_id) db.customers ≡ true)
        × (any_row (λ v. v.id == id) db.invoices ≡ false)
        × (db' ≡ record db { invoices = db.invoices ++ inv ∷ [] })
  unfolding create_invoice
  invoice_ok id c total state due db h = ground arith

  -- The queueing whose error is dropped: the transaction is aborted, or only deliveries are new.
  queue_keeps :
      (invoice_id : RowId) (payload : Text) (s : Session)
      → let t = (queue_deliveries env invoice_id invoice_created payload business_id s).1 in
        (t.aborted ≡ true)
        ⊎ ((t.db.invoices ≡ s.db.invoices) × (t.db.invoice_items ≡ s.db.invoice_items))
  queue_keeps invoice_id payload s =
      let r = queue_deliveries env invoice_id invoice_created payload business_id s in
      elim (Result-cases r.0) [
        | inl (u, e) ↦
            let d =
              queue_deliveries_ok env invoice_id invoice_created payload business_id s
                (λ i. (e i, r.1)) in
            inr (ap (λ x. x.invoices) d, ap (λ x. x.invoice_items) d)
        | inr (x, e) ↦ inl (
            queue_deliveries_err env invoice_id invoice_created payload business_id s
              (λ i. (e i, r.1)))
      ]

  -- The transaction, when its body ended without being aborted.
  abbrev pub IsInserted :
      Db
      → Db
      → CreateInvoiceRequest
      → RowId
      → RowId
      → InvoiceState
      → ℕ
      → ℤ
      → Invoice
      → List InvoiceItem
      → Type 0
  IsInserted before after req id c state due total inv rows =
      (inv ≡ new_invoice env.now id business_id c total (text "USD") state due)
      × (any_row (customer_is c business_id) before.customers ≡ true)
      × (any_row (λ v. v.id == id) before.invoices ≡ false)
      × AreRowsOf id req.items rows
      × (after.invoices ≡ before.invoices ++ inv ∷ [])
      × (after.invoice_items ≡ before.invoice_items ++ rows)

  pub create_body_ok :
      (req : CreateInvoiceRequest) (id c : RowId) (state : InvoiceState) (due : ℕ) (total : ℤ)
      (s : Session) {inv : Invoice} {rows : List InvoiceItem} {s' : Session}
      → create_body env business_id req id c state due total s ≡ (ok (inv, rows), s')
      → s'.aborted ≡ false
      → IsInserted s.db s'.db req id c state due total inv rows
  unfolding create_body
  create_body_ok req id c state due total s {inv} {rows} {s'} h live =
      let q = create_invoice env.now id business_id c total (text "USD") state due in
      let payload = created_payload env business_id req id state due total in
      let (inv₁, t, made, more) =
        bind_ok (exec env.fault q)
          (λ inv. insert_items env business_id id req.items >>= λ items.
            ignore (queue_deliveries env id invoice_created payload business_id)
            >> pure (inv, items))
          s h in
      let (rows₁, u, rows_made, end) =
        bind_ok (insert_items env business_id id req.items)
          (λ items.
            ignore (queue_deliveries env id invoice_created payload business_id)
            >> pure (inv₁, items))
          t more in
      let (query₁, _, _, _) = exec_ok env.fault q s made in
      let (is_inv, known, unused, db₁) = invoice_ok id c total state due s.db query₁ in
      let (are_rows, db₂) = insert_items_ok id req.items t rows_made in
      let r = queue_deliveries env id invoice_created payload business_id u in
      let (same, same', last) : (inv₁ ≡ inv) × (rows₁ ≡ rows) × (r.1 ≡ s') = ground (arith, end) in
      let (invs, its) : (s'.db.invoices ≡ u.db.invoices)
          × (s'.db.invoice_items ≡ u.db.invoice_items) =
        rw (← last) (elim (queue_keeps id payload u) [
          | inl aborted ↦ absurd (ground (arith, last, aborted, live))
          | inr k ↦ k
        ]) in
      (
        sym same ∙ is_inv,
        known,
        unused,
        subst (λ x. AreRowsOf id req.items x) same' are_rows,
        invs
            ∙ ap (λ d. d.invoices) db₂
            ∙ ap (λ d. d.invoices) db₁
            ∙ ap (λ x. s.db.invoices ++ x ∷ []) same,
        its
            ∙ ap (λ d. d.invoice_items) db₂
            ∙ ap (λ d. d.invoice_items ++ rows₁) db₁
            ∙ ap (λ x. s.db.invoice_items ++ x) same',
      )
