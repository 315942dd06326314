-- ===== src/Db/Queries/Payment.antt =====
-- internal/db/generate/payment.sql.go: the queries of the payment flow.
use dodo_payments_backend.Base.{
  ltb, ℕ, Bool, not, ◌&&◌, ◌||◌, Option, none, some, List, [], ◌∷◌, ◌++◌, ◌==◌, if◌then◌else◌,
  find_row, any_row, update_rows,
}
use dodo_payments_backend.Base.Result.{Result, ok, err}
use dodo_payments_backend.Base.Text.{Text, text_eq, char_count}
use dodo_payments_backend.Db.Models.{
  RowId, Time, paid, processing, succeeded, failed, unknown, in_progress, completed, is_open,
  is_processing, is_unresolved, is_completed, Invoice, IdempotencyKey, PaymentAttempt, Db,
}
use dodo_payments_backend.Db.Tx.{
  Error, failure, no_rows, unique_violation, foreign_key_violation, Query,
}

-- `QueryRow(…).Scan`: the first row, or ErrNoRows.
abbrev pub one_row : {A : Type 0} → Option A → Query A
one_row none db = err no_rows
one_row (some a) db = ok (a, db)

-- An UPDATE … RETURNING, read by `QueryRow`.
abbrev pub update_one :
    {A : Type 0} → (A → Bool) → (A → A) → List A → (List A → Db) → Result Error (A × Db)
update_one p f rows put = elim (find_row p rows) [
  | none ↦ err no_rows
  | some a ↦ ok (f a, put (update_rows p f rows))
]

abbrev pub key_is : RowId → Text → IdempotencyKey → Bool
key_is business_id key k = k.business_id == business_id && text_eq k.idempotency_key key

unfoldable pub get_idempotency_key : RowId → Text → Query IdempotencyKey
get_idempotency_key business_id key db =
    one_row (find_row (key_is business_id key) db.idempotency_keys) db

abbrev pub new_idempotency_key : Time → RowId → RowId → Text → Text → IdempotencyKey
new_idempotency_key now id business_id key hash = record {
  id = id;
  business_id = business_id;
  idempotency_key = key;
  request_hash = hash;
  status = in_progress;
  response_status = none;
  response_body = none;
  created_at = now;
  updated_at = now;
}

-- The primary key, UNIQUE (business_id, idempotency_key) and the reference to the business.
unfoldable pub create_idempotency_key : Time → RowId → RowId → Text → Text → Query IdempotencyKey
create_idempotency_key now id business_id key hash db =
    let row = new_idempotency_key now id business_id key hash in
    if any_row (λ k. k.id == id || key_is business_id key k) db.idempotency_keys
    then err unique_violation
    else if any_row (λ b. b.id == business_id) db.businesses
    then ok (row, record db { idempotency_keys = db.idempotency_keys ++ row ∷ [] })
    else err foreign_key_violation

abbrev pub key_runs : RowId → IdempotencyKey → Bool
key_runs id k = k.id == id && not (is_completed k.status)

-- The body is stored as JSONB, whose text is `jsonb body`.
abbrev pub completed_key : (Text → Text) → Time → ℕ → Text → IdempotencyKey → IdempotencyKey
completed_key jsonb now response_status body k = record k {
  status = completed;
  response_status = some response_status;
  response_body = some (jsonb body);
  updated_at = now;
}

unfoldable pub complete_idempotency_key :
    (Text → Text) → Time → RowId → ℕ → Text → Query IdempotencyKey
complete_idempotency_key jsonb now id response_status body db =
    update_one (key_runs id) (completed_key jsonb now response_status body) db.idempotency_keys
      (λ rows. record db { idempotency_keys = rows })

abbrev pub invoice_is : RowId → RowId → Invoice → Bool
invoice_is id business_id v = v.id == id && v.business_id == business_id

-- SELECT … FOR UPDATE: the lock lasts to the end of the transaction, which runs alone here.
unfoldable pub get_invoice_for_payment : RowId → RowId → Query Invoice
get_invoice_for_payment id business_id db =
    one_row (find_row (invoice_is id business_id) db.invoices) db

abbrev pub new_payment_attempt : Time → RowId → RowId → RowId → RowId → PaymentAttempt
new_payment_attempt now id invoice_id idempotency_key_id psp_request_id = record {
  id = id;
  invoice_id = invoice_id;
  idempotency_key_id = idempotency_key_id;
  status = processing;
  psp_request_id = psp_request_id;
  psp_ref = none;
  failure_code = none;
  failure_reason = none;
  psp_requested_at = some now;
  psp_responded_at = none;
  created_at = now;
  updated_at = now;
}

-- The primary key, the two unique columns, and the partial unique index
-- uq_payment_attempts_unresolved_invoice for a new attempt that is PROCESSING.
abbrev pub clashes : RowId → RowId → RowId → RowId → PaymentAttempt → Bool
clashes id invoice_id idempotency_key_id psp_request_id a =
    a.id == id
    || a.idempotency_key_id == idempotency_key_id
    || a.psp_request_id == psp_request_id
    || (a.invoice_id == invoice_id && is_unresolved a.status)

unfoldable pub create_payment_attempt : Time → RowId → RowId → RowId → RowId → Query PaymentAttempt
create_payment_attempt now id invoice_id idempotency_key_id psp_request_id db =
    let row = new_payment_attempt now id invoice_id idempotency_key_id psp_request_id in
    if any_row (clashes id invoice_id idempotency_key_id psp_request_id) db.payment_attempts
    then err unique_violation
    else if any_row (λ v. v.id == invoice_id) db.invoices
        && any_row (λ k. k.id == idempotency_key_id) db.idempotency_keys
    then ok (row, record db { payment_attempts = db.payment_attempts ++ row ∷ [] })
    else err foreign_key_violation

unfoldable pub get_payment_attempt_by_idempotency_key_id : RowId → Query PaymentAttempt
get_payment_attempt_by_idempotency_key_id idempotency_key_id db =
    one_row (find_row (λ a. a.idempotency_key_id == idempotency_key_id) db.payment_attempts) db

abbrev pub attempt_runs : RowId → PaymentAttempt → Bool
attempt_runs id a = a.id == id && is_processing a.status

abbrev pub update_attempt : RowId → (PaymentAttempt → PaymentAttempt) → Query PaymentAttempt
update_attempt id f db =
    update_one (attempt_runs id) f db.payment_attempts
      (λ rows. record db { payment_attempts = rows })

abbrev pub succeeded_attempt : Time → Text → PaymentAttempt → PaymentAttempt
succeeded_attempt now psp_ref a = record a {
  status = succeeded;
  psp_ref = some psp_ref;
  psp_responded_at = some now;
  updated_at = now;
}

abbrev pub failed_attempt : Time → Text → Text → PaymentAttempt → PaymentAttempt
failed_attempt now failure_code failure_reason a = record a {
  status = failed;
  failure_code = some failure_code;
  failure_reason = some failure_reason;
  psp_responded_at = some now;
  updated_at = now;
}

abbrev pub unknown_attempt : Time → Text → PaymentAttempt → PaymentAttempt
unknown_attempt now failure_reason a = record a {
  status = unknown;
  failure_reason = some failure_reason;
  updated_at = now;
}

-- psp_ref is a VARCHAR(255).
unfoldable pub mark_payment_attempt_succeeded : Time → RowId → Text → Query PaymentAttempt
mark_payment_attempt_succeeded now id psp_ref db =
    if ltb 255 (char_count psp_ref)
    then err failure
    else update_attempt id (succeeded_attempt now psp_ref) db

-- failure_code is a VARCHAR(100).
unfoldable pub mark_payment_attempt_failed : Time → RowId → Text → Text → Query PaymentAttempt
mark_payment_attempt_failed now id failure_code failure_reason db =
    if ltb 100 (char_count failure_code)
    then err failure
    else update_attempt id (failed_attempt now failure_code failure_reason) db

unfoldable pub mark_payment_attempt_unknown : Time → RowId → Text → Query PaymentAttempt
mark_payment_attempt_unknown now id failure_reason =
    update_attempt id (unknown_attempt now failure_reason)

abbrev pub is_payable : RowId → RowId → Invoice → Bool
is_payable id business_id v = invoice_is id business_id v && is_open v.state

abbrev pub paid_invoice : Time → Invoice → Invoice
paid_invoice now v = record v { state = paid; updated_at = now }

unfoldable pub mark_invoice_paid : Time → RowId → RowId → Query Invoice
mark_invoice_paid now id business_id db =
    update_one (is_payable id business_id) (paid_invoice now) db.invoices
      (λ rows. record db { invoices = rows })
