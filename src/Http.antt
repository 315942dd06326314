-- ===== src/Http.antt =====
-- What every handler shares: JSON values, responses, and what the process is given from outside
-- (internal/middleware/errors.go; gin, encoding/json, the generator and the codec).
mod RequestId
use dodo_payments_backend.Base.{ℕ, Bool, Option}
use dodo_payments_backend.Base.Int.{ℤ}
use dodo_payments_backend.Base.Text.{Text}
use dodo_payments_backend.Db.{RowId, Time}

-- The JSON values that the handlers build.
mutual
  pub data Json : Type 0 where
    string : Text → Json
    number : ℤ → Json
    object : Fields → Json

  pub data Fields : Type 0 where
    end : Fields
    field : Text → Json → Fields → Fields

-- `NewErrorResponse(code, message)`.
pub record ErrorResponse : Type 0 where
  pub code : Text
  pub message : Text

-- The body is an error envelope, bytes given as they are, or a value that gin encodes.
pub data Body (A : Type 0) : Type 0 where
  failed_with : ErrorResponse → Body A
  raw : Text → Body A
  json : A → Body A

pub record Response (A : Type 0) : Type 0 where
  pub status : ℕ
  pub body : Body A

abbrev pub error_response : {A : Type 0} → ℕ → Text → Text → Response A
error_response status code message = record {
  status = status;
  body = failed_with (record { code = code; message = message });
}

-- The ids that the generator gives, in turn; which statements fail for a reason of the connection;
-- which commits among those the server has made all the same; the time of the request; PostgreSQL's text of a JSONB value; `json.Marshal`; the public-id
-- codec, `none` for an error; and the hexadecimal SHA-256 digest.
pub record Env : Type 0 where
  pub ids : ℕ → RowId
  pub fault : ℕ → Bool
  pub lost : ℕ → Bool
  pub now : Time
  pub jsonb : Text → Text
  pub marshal : Json → Text
  pub encode : Text → RowId → Option Text
  pub decode : Text → Text → Option RowId
  pub sha256_hex : Text → Text
