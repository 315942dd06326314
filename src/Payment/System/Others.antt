-- ===== src/Payment/System/Others.antt =====
-- The steps of the database that neither claim nor finalize keep the invariant (`CreateInvoice` and
-- `VoidInvoice` of internal/invoice/invoice.go).
use dodo_payments_backend.Base.{
  ◌≡◌, ◌≢◌, refl, ap, ◌∙◌, true, false, none, List, [], ◌∷◌, ◌++◌, arith, any_row, update_rows,
}
use dodo_payments_backend.Base.Int.{ℤ}
use dodo_payments_backend.Base.Result.{ok}
use dodo_payments_backend.Base.Text.{Text}
use dodo_payments_backend.Base.Rows.{
  All-map, All-zip, All-append, AllPairs-append, All-of_any_row, All-update_rows,
  AllPairs-update_rows, any_row-update_rows, any_row-append,
}
use dodo_payments_backend.Db.{RowId, Time, InvoiceState, void, PaymentAttempt, Invoice, Db}
use dodo_payments_backend.Db.Queries.Payment.{invoice_is}
use dodo_payments_backend.Db.Queries.Resources.{create_invoice, update_invoice_state, new_invoice}
use dodo_payments_backend.Payment.System.{System, Flight, at}
use dodo_payments_backend.Payment.System.Rows.{
  AreDistinct, IsClosed, has_invoice, ClosesInvoice, AreSound, IsOwned, IsAloft, IsSafe,
}

-- A step of the database alone keeps the invariant if it keeps the invoices in order and does not
-- touch the attempts.
db-IsSafe :
    (sys : System) (db' : Db)
    → db'.payment_attempts ≡ sys.db.payment_attempts
    → (AreSound sys.db.invoices sys.db.payment_attempts
        → AreSound db'.invoices sys.db.payment_attempts)
    → ((a : RowId) (f : Flight)
        → IsAloft sys.db.invoices sys.db.payment_attempts a f
        → IsAloft db'.invoices sys.db.payment_attempts a f)
    → IsSafe sys
    → IsSafe (record sys { db = db' })
db-IsSafe sys db' same g k safe = rw same (record {
  sound = g safe.sound;
  aloft = λ a f e. k a f (safe.aloft a f e);
  agrees = safe.agrees;
  once = safe.once;
  new = safe.new;
  kept = safe.kept;
})

pub others-IsSafe :
    (sys : System) (db' : Db)
    → db'.invoices ≡ sys.db.invoices
    → db'.payment_attempts ≡ sys.db.payment_attempts
    → IsSafe sys
    → IsSafe (record sys { db = db' })
others-IsSafe sys db' same same' safe =
    db-IsSafe sys db' same' (λ h. rw same h) (λ a f h. rw same h) safe

module _ (now : Time) (i b : RowId) where
  abbrev as_void : Invoice → Invoice
  as_void w = record w { state = void; updated_at = now }

  abbrev voids_after : List Invoice → List Invoice
  voids_after vs = update_rows (invoice_is i b) as_void vs

  pub void_ok :
      (db : Db) {v : Invoice} {db' : Db}
      → update_invoice_state now i b void db ≡ ok (v, db')
      → db' ≡ record db { invoices = voids_after db.invoices }
  unfolding update_invoice_state
  void_ok db h = ground arith

  voids_any :
      (j : RowId) (vs : List Invoice)
      → any_row (has_invoice j) (voids_after vs) ≡ any_row (has_invoice j) vs
  voids_any j vs = any_row-update_rows (has_invoice j) (invoice_is i b) as_void vs (λ w. refl)

  voids_AreSound :
      (vs : List Invoice) (xs : List PaymentAttempt) → AreSound vs xs → AreSound (voids_after vs) xs
  voids_AreSound vs xs h = record {
    exclusive = h.exclusive;
    distinct =
        AllPairs-update_rows AreDistinct (invoice_is i b) as_void vs (λ x y ne. ground arith)
          h.distinct;
    known =
        All-map (λ x. any_row (has_invoice x.invoice_id) vs ≡ true) _ xs
          (λ x e. voids_any x.invoice_id vs ∙ e) h.known;
    closed =
        All-map (ClosesInvoice vs) _ xs
          (λ x c s.
            All-update_rows (IsClosed x.invoice_id) (IsClosed x.invoice_id) (invoice_is i b) as_void
              vs (λ w shut. ground (arith, shut)) (c s))
          h.closed;
  }

  voids_IsAloft :
      (vs : List Invoice) (xs : List PaymentAttempt) (a : RowId) (f : Flight)
      → IsAloft vs xs a f
      → IsAloft (voids_after vs) xs a f
  voids_IsAloft vs xs a f k = record {
    own = k.own;
    running = k.running;
    present = k.present;
    owned =
        All-update_rows (IsOwned f.invoice.id f.business_id) (IsOwned f.invoice.id f.business_id)
          (invoice_is i b) as_void vs (λ w o. ground (arith, o)) k.owned;
    invoiced = voids_any f.invoice.id vs ∙ k.invoiced;
  }

  pub void-IsSafe :
      (sys : System) {v : Invoice} {db' : Db}
      → update_invoice_state now i b void sys.db ≡ ok (v, db')
      → IsSafe sys
      → IsSafe (record sys { db = db' })
  void-IsSafe sys {v} {db'} h safe =
      let e = void_ok sys.db h in
      db-IsSafe sys db' (ap (λ d. d.payment_attempts) e)
        (λ k. rw e (voids_AreSound sys.db.invoices sys.db.payment_attempts k))
        (λ a f k. rw e (voids_IsAloft sys.db.invoices sys.db.payment_attempts a f k)) safe

  module _ (c : RowId) (total : ℤ) (currency : Text) (state : InvoiceState) (due : Time) where
    abbrev row : Invoice
    row = new_invoice now i b c total currency state due

    pub create_ok :
        (db : Db) {v : Invoice} {db' : Db}
        → create_invoice now i b c total currency state due db ≡ ok (v, db')
        → (any_row (has_invoice i) db.invoices ≡ false)
          × (db' ≡ record db { invoices = db.invoices ++ row ∷ [] })
    unfolding create_invoice
    create_ok db h = ground arith

    -- The id of the new invoice is not one that the tables refer to.
    unused :
        (j : RowId) (vs : List Invoice)
        → any_row (has_invoice i) vs ≡ false
        → any_row (has_invoice j) vs ≡ true
        → i ≢ j
    unused j vs absent there eq = absurd (ground arith)

    created_AreSound :
        (vs : List Invoice) (xs : List PaymentAttempt)
        → any_row (has_invoice i) vs ≡ false
        → AreSound vs xs
        → AreSound (vs ++ row ∷ []) xs
    created_AreSound vs xs absent h = record {
      exclusive = h.exclusive;
      distinct = AllPairs-append AreDistinct vs row h.distinct (
          All-map (λ w. has_invoice i w ≡ false) _ vs (λ w e. ground arith)
            (All-of_any_row (has_invoice i) vs absent));
      known =
          All-map (λ x. any_row (has_invoice x.invoice_id) vs ≡ true) _ xs
            (λ x e. any_row-append (has_invoice x.invoice_id) vs row e) h.known;
      closed =
          All-zip (λ x. any_row (has_invoice x.invoice_id) vs ≡ true) (ClosesInvoice vs) _ xs
            (λ x e shut s.
              All-append (IsClosed x.invoice_id) vs row (shut s)
                (λ eq. absurd (unused x.invoice_id vs absent e eq)))
            h.known h.closed;
    }

    created_IsAloft :
        (vs : List Invoice) (xs : List PaymentAttempt) (a : RowId) (f : Flight)
        → any_row (has_invoice i) vs ≡ false
        → IsAloft vs xs a f
        → IsAloft (vs ++ row ∷ []) xs a f
    created_IsAloft vs xs a f absent k = record {
      own = k.own;
      running = k.running;
      present = k.present;
      owned =
          All-append (IsOwned f.invoice.id f.business_id) vs row k.owned
            (λ eq. absurd (unused f.invoice.id vs absent k.invoiced eq));
      invoiced = any_row-append (has_invoice f.invoice.id) vs row k.invoiced;
    }

    pub create-IsSafe :
        (sys : System) {v : Invoice} {db' : Db}
        → create_invoice now i b c total currency state due sys.db ≡ ok (v, db')
        → IsSafe sys
        → IsSafe (record sys { db = db' })
    create-IsSafe sys {v} {db'} h safe =
        let (absent, e) = create_ok sys.db h in
        db-IsSafe sys db' (ap (λ d. d.payment_attempts) e)
          (λ k. rw e (created_AreSound sys.db.invoices sys.db.payment_attempts absent k))
          (λ a f k. rw e (created_IsAloft sys.db.invoices sys.db.payment_attempts a f absent k))
          safe

pub ends-IsSafe :
    (sys : System) (a : RowId)
    → IsSafe sys
    → IsSafe (record sys { flights = at a none sys.flights })
ends-IsSafe sys a safe = record {
  sound = safe.sound;
  aloft = λ a' f e. safe.aloft a' f (ground arith);
  agrees = λ a' f e. safe.agrees a' f (ground arith);
  once = safe.once;
  new = safe.new;
  kept = safe.kept;
}
