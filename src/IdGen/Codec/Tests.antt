-- ===== src/IdGen/Codec/Tests.antt =====
-- The theorems on the codec at a cipher that complements the bytes of its blocks.
use dodo_payments_backend.Base.{
  suc, ◌-◌, ◌≡◌, ◌≢◌, refl, ap, ◌∙◌, none, some, [], ◌∷◌, ◌++◌, arith, length, All,
}
use dodo_payments_backend.Base.Int.{pos, to_uint64}
use dodo_payments_backend.Base.Result.{err}
use dodo_payments_backend.Base.Text.{Text, text}
use dodo_payments_backend.Base.Hex.{IsByte, hex_encode, put_uint64}
use dodo_payments_backend.IdGen.Codec.{Block, type_mismatch, type_prefix, new_codec, encode, decode}
use dodo_payments_backend.IdGen.Codec.Laws.{IsCipher, decode-retyped}

-- Every byte is replaced by its complement, which undoes itself.
abbrev flip : Text → Text
flip [] = []
flip (c ∷ s) = (255 - c) ∷ flip s

abbrev flipper : Block
flipper = record { encrypt = flip; decrypt = flip }

flip-flip : (s : Text) → All IsByte s → flip (flip s) ≡ s
flip-flip [] h = refl
flip-flip (c ∷ s) h =
    let same : 255 - (255 - c) ≡ c = omega (arith, h.0) in rw (same, flip-flip s h.1) refl

length-flip : (s : Text) → length (flip s) ≡ length s
length-flip [] = refl
length-flip (c ∷ s) = ap suc (length-flip s)

flip-IsByte : (s : Text) → All IsByte (flip s)
flip-IsByte [] = tt
flip-IsByte (c ∷ s) = (omega arith, flip-IsByte s)

flipper-IsCipher : IsCipher flipper
flipper-IsCipher = record {
  undoes = λ b h. flip-flip b h.bytes;
  keeps = λ b h. record { size = length-flip b ∙ h.size; bytes = flip-IsByte b };
}

key_size_run : new_codec (λ k. some flipper) (text "short") ≡ none
unfolding new_codec
key_size_run = refl

abbrev digits : Text
digits = text "969189a0a0a0a0a0fffffffffffffff8"

encode_run : encode flipper (text "inv") (pos 7) ≡ text "inv" ++ 95 ∷ digits
unfolding encode type_prefix put_uint64 to_uint64 hex_encode
encode_run = refl

types_differ : type_prefix (text "inv") ≢ type_prefix (text "cus")
unfolding type_prefix
types_differ h = ground arith

decode-retyped_example : decode flipper (text "cus") (text "cus" ++ 95 ∷ digits) ≡ err type_mismatch
decode-retyped_example =
    decode-retyped flipper flipper-IsCipher (text "inv") (text "cus") (pos 7) (ground arith)
      (ground arith) types_differ digits encode_run
