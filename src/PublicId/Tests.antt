-- ===== src/PublicId/Tests.antt =====
-- Runs of the public-id codec and the theorems at concrete inputs, with a digest that is a plain
-- function of the secret and the message in place of HMAC-SHA256.
use dodo_payments_backend.Base.{◌≡◌, refl, ◌++◌, arith}
use dodo_payments_backend.Base.Int.{ℤ, negsuc}
use dodo_payments_backend.Base.Result.{ok, err}
use dodo_payments_backend.Base.Text.{Text, text, Lacks}
use dodo_payments_backend.PublicId.Feistel.{
  RoundKeys, feistel_encrypt, feistel_decrypt, feistel_round, encrypt_rounds, decrypt_rounds,
  halves, join,
}
use dodo_payments_backend.PublicId.Codec.{
  invalid_prefix, Codec, encode, decode, decode-encode, decode-encode_ne, prefix_invoice,
  prefix_customer,
}

abbrev sample_keys : RoundKeys
sample_keys = record { key0 = 0x01234567; key1 = 0x89abcdef; key2 = 0xdeadbeef; key3 = 7 }

feistel_run :
    feistel_decrypt (feistel_encrypt 0x0123456789abcdef sample_keys) sample_keys
    ≡ 0x0123456789abcdef
unfolding feistel_decrypt feistel_encrypt encrypt_rounds decrypt_rounds feistel_round halves join
feistel_run = refl

abbrev digest : Text → Text → Text
digest secret message = message ++ secret ++ message ++ secret

abbrev codec : Codec
codec = record { secret = text "sixteen-byte-key" }

abbrev sample_id : ℤ
sample_id = negsuc 41

cus-Lacks : Lacks 95 prefix_customer
cus-Lacks = omega arith

inv-Lacks : Lacks 95 prefix_invoice
inv-Lacks = omega arith

decode-encode_example :
    (s : Text) × (encode digest codec prefix_invoice sample_id ≡ ok s)
    × (decode digest codec prefix_invoice s ≡ ok sample_id)
decode-encode_example =
    decode-encode digest codec prefix_invoice sample_id (λ e. cc) inv-Lacks (omega arith)

decode-encode_ne_example :
    (s : Text) × (encode digest codec prefix_customer sample_id ≡ ok s)
    × (decode digest codec prefix_invoice s ≡ err invalid_prefix)
decode-encode_ne_example =
    decode-encode_ne digest codec prefix_customer prefix_invoice sample_id (λ e. cc) cus-Lacks
      (λ e. ground arith)
