-- ===== src/PublicId/Codec/Laws.antt =====
-- Public ids round-trip, are told apart by prefix and by id, and are refused under any other
-- prefix (internal/publicid/publicid.go).
use dodo_payments_backend.Base.{some, [], ◌∷◌, ◌++◌, ◌≡◌, ◌≢◌, refl, sym, ap, ◌∙◌, false}
use dodo_payments_backend.Base.Int.{ℤ, IsInt64, to_uint64, to_int64-to_uint64, to_uint64-lt}
use dodo_payments_backend.Base.Result.{ok, err}
use dodo_payments_backend.Base.Text.{
  Text, text_eq_refl, text_eq_ne, is_empty, split_n2, Lacks, split_n2-append,
}
use dodo_payments_backend.PublicId.Feistel.{RoundKeys, feistel_encrypt, feistel_decrypt-encrypt}
use dodo_payments_backend.PublicId.Base62.{to_base62, from_base62-to_base62, to_base62_some}
use dodo_payments_backend.PublicId.Codec.Defs.{
  invalid_prefix, Codec, underscore, derive_round_keys, encode, decode_parts, decode,
}

is_empty_some : (s : Text) → s ≢ [] → is_empty s ≡ false
is_empty_some [] h = absurd (h refl)
is_empty_some (c ∷ s) h = refl

module _ (hmac_sha256 : Text → Text → Text) (c : Codec) where
  abbrev keys : Text → RoundKeys
  keys = derive_round_keys hmac_sha256 c

  -- The digits behind the underscore.
  abbrev payload : Text → ℤ → Text
  payload p id = to_base62 (feistel_encrypt (to_uint64 id) (keys p))

  encode_lem :
      (p : Text) (id : ℤ) → p ≢ [] → encode hmac_sha256 c p id ≡ ok (p ++ underscore ∷ payload p id)
  unfolding encode
  encode_lem p id h = rw (is_empty_some p h)

  decode_lem :
      (p expected : Text) (id : ℤ)
      → p ≢ []
      → Lacks underscore p
      → decode hmac_sha256 c expected (p ++ underscore ∷ payload p id)
        ≡ decode_parts hmac_sha256 c expected (some (p, payload p id))
  unfolding decode
  decode_lem p expected id ne lacks = rw (split_n2-append underscore p (payload p id) lacks)

  payload_some : (p : Text) (id : ℤ) → is_empty (payload p id) ≡ false
  payload_some p id =
      is_empty_some (payload p id) (to_base62_some (feistel_encrypt (to_uint64 id) (keys p)))

  -- The digits behind the prefix are those of the id.
  decode_parts_self :
      (p : Text) (id : ℤ)
      → p ≢ []
      → IsInt64 id
      → decode_parts hmac_sha256 c p (some (p, payload p id)) ≡ ok id
  unfolding decode_parts
  decode_parts_self p id ne fits =
      let cipher = feistel_decrypt-encrypt (to_uint64 id) (keys p) (to_uint64-lt id) in
      rw (is_empty_some p ne, payload_some p id, decode_parts)
        (rw (text_eq_refl p, from_base62-to_base62 _ cipher.1, decode_parts)
          (rw (cipher.0, to_int64-to_uint64 id fits)))

  decode_parts_ne :
      (p q : Text) (id : ℤ)
      → p ≢ []
      → p ≢ q
      → decode_parts hmac_sha256 c q (some (p, payload p id)) ≡ err invalid_prefix
  unfolding decode_parts
  decode_parts_ne p q id ne other =
      rw (is_empty_some p ne, payload_some p id, decode_parts)
        (rw (text_eq_ne p q other, decode_parts))

  -- Encoding an int64 under a prefix that is not empty and holds no underscore gives a public id,
  -- and decoding it under the same prefix gives the int64 back.
  pub decode-encode :
      (p : Text) (id : ℤ)
      → p ≢ []
      → Lacks underscore p
      → IsInt64 id
      → (s : Text) × (encode hmac_sha256 c p id ≡ ok s) × (decode hmac_sha256 c p s ≡ ok id)
  decode-encode p id ne lacks fits = (
    p ++ underscore ∷ payload p id,
    encode_lem p id ne,
    decode_lem p p id ne lacks ∙ decode_parts_self p id ne fits,
  )

  -- A public id made under one prefix is refused as having the wrong prefix under every other,
  -- whatever the id: no resource is taken for one of another type.
  pub decode-encode_ne :
      (p q : Text) (id : ℤ)
      → p ≢ []
      → Lacks underscore p
      → p ≢ q
      → (s : Text) × (encode hmac_sha256 c p id ≡ ok s)
        × (decode hmac_sha256 c q s ≡ err invalid_prefix)
  decode-encode_ne p q id ne lacks other = (
    p ++ underscore ∷ payload p id,
    encode_lem p id ne,
    decode_lem p q id ne lacks ∙ decode_parts_ne p q id ne other,
  )

  -- Two resources with the same public id have the same prefix and the same id.
  encode_injective :
      (p q : Text) (a b : ℤ)
      → p ≢ []
      → q ≢ []
      → Lacks underscore p
      → Lacks underscore q
      → IsInt64 a
      → IsInt64 b
      → encode hmac_sha256 c p a ≡ encode hmac_sha256 c q b
      → (p ≡ q) × (a ≡ b)
  encode_injective p q a b hp hq lp lq fa fb e =
      let same : p ++ underscore ∷ payload p a ≡ q ++ underscore ∷ payload q b =
        cc (e, encode_lem p a hp, encode_lem q b hq) in
      let parts : some (p, payload p a) ≡ some (q, payload q b) =
        sym (split_n2-append underscore p (payload p a) lp)
        ∙ ap (split_n2 underscore) same
        ∙ split_n2-append underscore q (payload q b) lq in
      let prefix : p ≡ q = cc parts in
      (prefix, cc (parts, prefix, decode_parts_self p a hp fa, decode_parts_self q b hq fb))
