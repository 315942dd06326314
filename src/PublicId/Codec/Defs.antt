-- ===== src/PublicId/Codec/Defs.antt =====
-- The operations of `Codec` (internal/publicid/publicid.go).
use dodo_payments_backend.Base.{
  ℕ, ◌+◌, ◌*◌, ◌^◌, Option, none, some, ◌∷◌, ◌++◌, get_or, ◌||◌, if◌then◌else◌,
}
use dodo_payments_backend.Base.Int.{ℤ, to_uint64, to_int64}
use dodo_payments_backend.Base.Result.{Result, ok, err}
use dodo_payments_backend.Base.Text.{Text, text, text_eq, is_empty, split_n2}
use dodo_payments_backend.PublicId.Feistel.{RoundKeys, feistel_encrypt, feistel_decrypt}
use dodo_payments_backend.PublicId.Base62.{to_base62, from_base62}

pub data CodecError : Type 0 where
  invalid_id_format invalid_prefix decoding_failed : CodecError

abbrev pub prefix_business : Text
prefix_business = text "biz"

abbrev pub prefix_api_key : Text
prefix_api_key = text "key"

abbrev pub prefix_customer : Text
prefix_customer = text "cus"

abbrev pub prefix_invoice : Text
prefix_invoice = text "inv"

abbrev pub prefix_invoice_item : Text
prefix_invoice_item = text "itm"

abbrev pub prefix_idempotency_key : Text
prefix_idempotency_key = text "idem"

abbrev pub prefix_payment_attempt : Text
prefix_payment_attempt = text "att"

abbrev pub prefix_webhook_endpoint : Text
prefix_webhook_endpoint = text "whe"

abbrev pub prefix_webhook_delivery : Text
prefix_webhook_delivery = text "whd"

pub record Codec : Type 0 where
  pub secret : Text

-- An empty secret is replaced by a fixed one.
unfoldable pub new_codec : Text → Codec
new_codec secret = record {
  secret =
      if is_empty secret then text "default_takehome_secret_key_change_in_production" else secret;
}

-- `binary.BigEndian.Uint32` of the four bytes from index i.
unfoldable pub big_endian_uint32 : Text → ℕ → ℕ
big_endian_uint32 sum i =
    get_or sum i 0 * 2 ^ 24
    + get_or sum (i + 1) 0 * 2 ^ 16
    + get_or sum (i + 2) 0 * 2 ^ 8
    + get_or sum (i + 3) 0

-- The byte '_'.
abbrev pub underscore : ℕ
underscore = b'_'

module _ (hmac_sha256 : Text → Text → Text) where
  -- Four words of the digest of the resource prefix.
  unfoldable pub derive_round_keys : Codec → Text → RoundKeys
  derive_round_keys c context =
      let sum = hmac_sha256 c.secret context in
      record {
        key0 = big_endian_uint32 sum 0;
        key1 = big_endian_uint32 sum 4;
        key2 = big_endian_uint32 sum 8;
        key3 = big_endian_uint32 sum 12;
      }

  unfoldable pub encode : Codec → Text → ℤ → Result CodecError Text
  encode c prefix id =
      if is_empty prefix
      then err invalid_prefix
      else ok (
          prefix
          ++ underscore ∷ to_base62 (feistel_encrypt (to_uint64 id) (derive_round_keys c prefix)))

  -- What `Decode` does with the two parts.
  unfoldable pub decode_parts : Codec → Text → Option (Text × Text) → Result CodecError ℤ
  decode_parts c expected none = err invalid_id_format
  decode_parts c expected (some (prefix, digits)) =
      if is_empty prefix || is_empty digits
      then err invalid_id_format
      else if text_eq prefix expected
      then elim (from_base62 digits) [
        | none ↦ err decoding_failed
        | some val ↦ ok (to_int64 (feistel_decrypt val (derive_round_keys c expected)))
      ]
      else err invalid_prefix

  unfoldable pub decode : Codec → Text → Text → Result CodecError ℤ
  decode c expected public_id = decode_parts c expected (split_n2 underscore public_id)
