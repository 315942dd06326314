-- ===== src/Payment/Tests/Data.antt =====
-- A business with one customer, one endpoint and one OPEN invoice (internal/payment/payment.go).
use dodo_payments_backend.Base.{◌+◌, true, false, some, [], ◌∷◌}
use dodo_payments_backend.Base.Int.{pos}
use dodo_payments_backend.Base.Text.{Text, text}
use dodo_payments_backend.Db.{
  RowId, Invoice, IdempotencyKey, PaymentAttempt, Db, empty_db, open_invoice,
}
use dodo_payments_backend.Db.Tx.{Session}
use dodo_payments_backend.Db.Queries.Payment.{new_idempotency_key, new_payment_attempt}
use dodo_payments_backend.Db.Queries.Resources.{new_invoice}
use dodo_payments_backend.Http.{Env}
use dodo_payments_backend.Psp.{ChargeResult}
use dodo_payments_backend.Payment.Types.{PayRequest}

-- Ids are counted from 100, and JSONB puts a space before what it is given.
abbrev pub test_env : Env
test_env = record {
  ids = λ n. 100 + n;
  fault = λ _. false;
  lost = λ _. false;
  now = 60;
  jsonb = λ s. 32 ∷ s;
  marshal = λ _. text "{}";
  encode = λ prefix id. some (id ∷ []);
  decode = λ prefix s. some 7;
  sha256_hex = λ s. s;
}

abbrev pub decimal : RowId → Text
decimal id = 55 ∷ []

abbrev pub invoice : Invoice
invoice = new_invoice 50 7 1 2 (pos 1250) (text "USD") open_invoice 90

abbrev pub business_db : Db
business_db = record empty_db {
  businesses = record { id = 1; name = text "A"; created_at = 50; updated_at = 50 } ∷ [];
  customers =
      record {
        id = 2;
        business_id = 1;
        name = text "B";
        email = text "b@c";
        created_at = 50;
        updated_at = 50;
      }
      ∷ [];
  webhook_endpoints =
      record {
        id = 3;
        business_id = 1;
        url = text "https://c";
        secret = text "s";
        is_active = true;
        created_at = 50;
        updated_at = 50;
      }
      ∷ [];
}

abbrev pub open_db : Db
open_db = record business_db { invoices = invoice ∷ [] }

abbrev pub session : Db → Session
session db = record { db = db; drawn = 0; ticks = 0; aborted = false }

abbrev pub key : Text
key = text "k1"

abbrev pub hash : Text
hash = text "h1"

abbrev pub idem : IdempotencyKey
idem = new_idempotency_key 60 100 1 key hash

abbrev pub attempt : PaymentAttempt
attempt = new_payment_attempt 60 101 7 100 102

abbrev pub claimed_db : Db
claimed_db = record open_db { idempotency_keys = idem ∷ []; payment_attempts = attempt ∷ [] }

abbrev pub approved : ChargeResult
approved = record { status = text "success"; psp_ref = text "p1"; failure_code = [] }

abbrev pub request : PayRequest
request = record {
  idempotency_key = text " k1";
  id = text "inv_x";
  card_token = some (text "tok ");
}
