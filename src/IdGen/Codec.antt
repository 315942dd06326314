-- ===== src/IdGen/Codec.antt =====
-- `Codec` of internal/idgen/idgen.go: public ids by a block cipher. `new_cipher` is
-- `aes.NewCipher`: the two directions of the cipher under a key, or `none` for an error.
pub mod Laws
mod Tests
use dodo_payments_backend.Base.{
  ℕ, ◌+◌, not, ◌&&◌, ◌||◌, ◌==◌, Option, none, some, List, [], ◌∷◌, ◌++◌, if◌then◌else◌, take, drop,
  length,
}
use dodo_payments_backend.Base.Int.{ℤ, to_uint64, to_int64}
use dodo_payments_backend.Base.Result.{Result, ok, err}
use dodo_payments_backend.Base.Text.{Text, text, text_eq}
use dodo_payments_backend.Base.Hex.{hex_encode, hex_decode, put_uint64, big_endian, split_all}

-- `cipher.Block`, on blocks of 16 bytes.
pub record Block : Type 0 where
  pub encrypt : Text → Text
  pub decrypt : Text → Text

-- `ErrInvalidID` and `ErrTypeMismatch`.
pub data IdError : Type 0 where
  invalid_id type_mismatch : IdError

unfoldable pub new_codec : (Text → Option Block) → Text → Option Block
new_codec new_cipher secret_key =
    if not (length secret_key == 16)
      && not (length secret_key == 24)
      && not (length secret_key == 32)
    then none
    else new_cipher secret_key

-- The first 8 bytes of the prefix with underscores after it.
unfoldable pub type_prefix : Text → Text
type_prefix prefix = take 8 (prefix ++ text "________")

unfoldable pub encode : Block → Text → ℤ → Text
encode block prefix id =
    prefix ++ b'_' ∷ hex_encode (block.encrypt (type_prefix prefix ++ put_uint64 (to_uint64 id)))

-- From the decrypted block on.
unfoldable pub decode_block : Text → Text → Result IdError ℤ
decode_block expected_prefix src =
    if text_eq (take 8 src) (type_prefix expected_prefix)
    then ok (to_int64 (big_endian 0 (drop 8 src)))
    else err type_mismatch

unfoldable pub decode_payload : Block → Text → Option Text → Result IdError ℤ
decode_payload block expected_prefix none = err invalid_id
decode_payload block expected_prefix (some dst) =
    if length dst == 16 then decode_block expected_prefix (block.decrypt dst) else err invalid_id

-- What `Decode` does with the parts between underscores.
unfoldable pub decode_parts : Block → Text → List Text → Result IdError ℤ
decode_parts block expected_prefix (p ∷ payload ∷ []) =
    if text_eq p expected_prefix
    then decode_payload block expected_prefix (hex_decode payload)
    else err type_mismatch
decode_parts block expected_prefix _ = err type_mismatch

unfoldable pub decode : Block → Text → Text → Result IdError ℤ
decode block expected_prefix public_id =
    decode_parts block expected_prefix (split_all b'_' public_id)
