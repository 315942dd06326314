-- ===== src/Db/Enums.antt =====
-- How the driver reads and writes the enumerations of internal/db/generate/models.go, which are
-- strings there: the methods `Scan` and `Value`.
use dodo_payments_backend.Base.{
  ◌≡◌, refl, Bool, true, false, Option, none, some, [], ◌++◌, if◌then◌else◌,
}
use dodo_payments_backend.Base.Result.{Result, ok, err}
use dodo_payments_backend.Base.Text.{Text, text}

-- What the driver hands over; of a value that is neither NULL nor a text, the name of its type.
data Source : Type 0 where
  nil_source : Source
  byte_slice go_string other_type : Text → Source

abbrev unsupported : Text → Text → Text
unsupported name type_name = text "unsupported scan type for " ++ (name ++ (text ": " ++ type_name))

-- `Scan`, its receiver changed only where it returns no error: any text is taken.
abbrev scan_enum : Text → Source → Result Text Text
scan_enum name nil_source = err (unsupported name (text "<nil>"))
scan_enum name (byte_slice s) = ok s
scan_enum name (go_string s) = ok s
scan_enum name (other_type type_name) = err (unsupported name type_name)

-- The struct around an enumeration of a nullable column.
record NullEnum : Type 0 where
  value : Text
  valid : Bool

-- Its `Scan`: `Valid` is set before the text is read, and stays set when that fails.
abbrev scan_some : NullEnum → Result Text Text → Option Text × NullEnum
scan_some ns (ok s) = (none, record { value = s; valid = true })
scan_some ns (err message) = (some message, record ns { valid = true })

abbrev scan_null_enum : Text → Source → NullEnum → Option Text × NullEnum
scan_null_enum name nil_source ns = (none, record { value = []; valid = false })
scan_null_enum name src ns = scan_some ns (scan_enum name src)

-- Its `Value`: NULL, or the text.
abbrev null_enum_value : NullEnum → Option Text
null_enum_value ns = if ns.valid then some ns.value else none

-- The driver hands back what `Value` gave it.
abbrev handed_back : Option Text → Source
handed_back none = nil_source
handed_back (some s) = go_string s

-- What `Value` writes is read as it was, into any receiver, if an enumeration that is NULL has no
-- text.
scan_null_enum-null_enum_value :
    (name value : Text) (valid : Bool) (ns : NullEnum)
    → (valid ≡ false → value ≡ [])
    → scan_null_enum name
        (handed_back (null_enum_value (record { value = value; valid = valid })))
        ns
      ≡ (none, record { value = value; valid = valid })
scan_null_enum-null_enum_value name value true ns h = refl
scan_null_enum-null_enum_value name value false ns h = rw (h refl) refl

-- The five enumerations and their nullable forms.
abbrev scan_idempotency_status : Source → Result Text Text
scan_idempotency_status = scan_enum (text "IdempotencyStatusEnum")

abbrev scan_null_idempotency_status : Source → NullEnum → Option Text × NullEnum
scan_null_idempotency_status = scan_null_enum (text "IdempotencyStatusEnum")

abbrev scan_invoice_state : Source → Result Text Text
scan_invoice_state = scan_enum (text "InvoiceStateEnum")

abbrev scan_null_invoice_state : Source → NullEnum → Option Text × NullEnum
scan_null_invoice_state = scan_null_enum (text "InvoiceStateEnum")

abbrev scan_payment_status : Source → Result Text Text
scan_payment_status = scan_enum (text "PaymentStatusEnum")

abbrev scan_null_payment_status : Source → NullEnum → Option Text × NullEnum
scan_null_payment_status = scan_null_enum (text "PaymentStatusEnum")

abbrev scan_webhook_delivery_status : Source → Result Text Text
scan_webhook_delivery_status = scan_enum (text "WebhookDeliveryStatusEnum")

abbrev scan_null_webhook_delivery_status : Source → NullEnum → Option Text × NullEnum
scan_null_webhook_delivery_status = scan_null_enum (text "WebhookDeliveryStatusEnum")

abbrev scan_webhook_event_type : Source → Result Text Text
scan_webhook_event_type = scan_enum (text "WebhookEventTypeEnum")

abbrev scan_null_webhook_event_type : Source → NullEnum → Option Text × NullEnum
scan_null_webhook_event_type = scan_null_enum (text "WebhookEventTypeEnum")
