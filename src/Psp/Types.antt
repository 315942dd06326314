-- ===== src/Psp/Types.antt =====
-- The messages of internal/psp/psp.go.
use dodo_payments_backend.Base.Int.{ℤ}
use dodo_payments_backend.Base.Text.{Text}
use dodo_payments_backend.Db.{RowId}

pub record ChargeRequest : Type 0 where
  pub token : Text
  pub amount_cents : ℤ
  pub currency : Text
  pub psp_request_id : RowId

pub record ChargeResult : Type 0 where
  pub status : Text
  pub psp_ref : Text
  pub failure_code : Text
