-- ===== src/Payment/System/Ledger.antt =====
-- The abstract ledger of the payment endpoint (internal/payment/payment.go): for each invoice only
-- the attempts that run or are uncertain, those that the PSP took money for, and those paid.
pub mod Posting
use dodo_payments_backend.Base.{
  ◌≡◌, ◌≢◌, Bool, true, false, ◌&&◌, List, [], ◌∷◌, ◌==◌, if◌then◌else◌,
}
use dodo_payments_backend.Db.{RowId, PaymentAttempt, is_unresolved, is_succeeded}
use dodo_payments_backend.Payment.System.{System}

pub record Account : Type 0 where
  pub running : List RowId
  pub taken : List RowId
  pub paid : List RowId

abbrev pub account : List RowId → List RowId → List RowId → Account
account running taken paid = record { running = running; taken = taken; paid = paid }

abbrev pub nothing : Account
nothing = account [] [] []

-- The moves of one invoice. A charge begins where the account is empty; it takes the money once; it
-- is given up while it has taken none; and it is paid when it has taken it. A charge whose end is
-- uncertain keeps running.
pub data Move : Account → Account → Type 0 where
  stays : (m : Account) → Move m m
  begins : (a : RowId) → Move nothing (account (a ∷ []) [] [])
  takes : (a : RowId) → Move (account (a ∷ []) [] []) (account (a ∷ []) (a ∷ []) [])
  gives_up : (a : RowId) → Move (account (a ∷ []) [] []) nothing
  pays : (a : RowId) → Move (account (a ∷ []) (a ∷ []) []) (account [] (a ∷ []) (a ∷ []))

-- A step of the ledger: one invoice makes a move, all others stay.
pub record Bill (l l' : RowId → Account) : Type 0 where
  pub invoice : RowId
  pub rest : (j : RowId) → j ≢ invoice → l' j ≡ l j
  pub moves : Move (l invoice) (l' invoice)

pub data Bills (from : RowId → Account) : (RowId → Account) → Type 0 where
  begun : Bills from from
  billed : {l l' : RowId → Account} → Bills from l → Bill l l' → Bills from l'

-- The ids of the attempts that pass a test, in the order of the table.
unfoldable pub ids_where : (PaymentAttempt → Bool) → List PaymentAttempt → List RowId
ids_where p [] = []
ids_where p (x ∷ xs) = let rest = ids_where p xs in if p x then x.id ∷ rest else rest

abbrev pub running_for : RowId → PaymentAttempt → Bool
running_for i x = x.invoice_id == i && is_unresolved x.status

abbrev pub taken_for : (RowId → Bool) → RowId → PaymentAttempt → Bool
taken_for captured i x = x.invoice_id == i && captured x.id

abbrev pub paid_for : RowId → PaymentAttempt → Bool
paid_for i x = x.invoice_id == i && is_succeeded x.status

-- What the attempts and the money at the PSP say of an invoice.
abbrev pub books : (RowId → Bool) → List PaymentAttempt → RowId → Account
books captured xs i =
    account (ids_where (running_for i) xs) (ids_where (taken_for captured i) xs)
      (ids_where (paid_for i) xs)

abbrev pub ledger : System → RowId → Account
ledger sys = books sys.captured sys.db.payment_attempts
