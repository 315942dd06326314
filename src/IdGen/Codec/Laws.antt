-- ===== src/IdGen/Codec/Laws.antt =====
-- Round trips and refusals of the codec of internal/idgen/idgen.go.
use dodo_payments_backend.Base.{
  ℕ, zero, suc, ◌≤◌, ◌≡◌, ◌≢◌, refl, sym, ap, ◌∙◌, [], ◌∷◌, ◌++◌, arith, take, drop, length, All,
  take-append_self, drop-append_self, length-append,
}
use dodo_payments_backend.Base.Int.{ℤ, to_uint64, IsInt64, to_int64-to_uint64, to_uint64-lt}
use dodo_payments_backend.Base.Result.{ok, err}
use dodo_payments_backend.Base.Text.{Text, text, text_eq_refl, text_eq_ne, Lacks}
use dodo_payments_backend.Base.Hex.{
  IsByte, hex_encode, put_uint64, hex_decode-hex_encode, hex_encode-Lacks, big_endian-put_uint64,
  put_uint64-IsByte, split_all-append,
}
use dodo_payments_backend.IdGen.Codec.{
  Block, type_mismatch, type_prefix, encode, decode_block, decode_payload, decode_parts, decode,
}

-- A block of 16 bytes.
pub record IsBlock (b : Text) : Type 0 where
  pub size : length b ≡ 16
  pub bytes : All IsByte b

-- A cipher permutes the blocks.
pub record IsCipher (block : Block) : Type 0 where
  pub undoes : (b : Text) → IsBlock b → block.decrypt (block.encrypt b) ≡ b
  pub keeps : (b : Text) → IsBlock b → IsBlock (block.encrypt b)

All-take : (n : ℕ) (s : Text) → All IsByte s → All IsByte (take n s)
All-take zero s h = tt
All-take (suc n) [] h = tt
All-take (suc n) (c ∷ s) h = (h.0, All-take n s h.1)

All-append_bytes : (s t : Text) → All IsByte s → All IsByte t → All IsByte (s ++ t)
All-append_bytes [] t h k = k
All-append_bytes (c ∷ s) t h k = (h.0, All-append_bytes s t h.1 k)

length-take : (n : ℕ) (s : Text) → n ≤ length s → length (take n s) ≡ n
length-take zero s h = refl
length-take (suc n) [] h = absurd (omega arith)
length-take (suc n) (c ∷ s) h = ap suc (length-take n s (omega arith))

length-type_prefix : (prefix : Text) → length (type_prefix prefix) ≡ 8
unfolding type_prefix
length-type_prefix prefix =
    length-take 8 (prefix ++ text "________")
      (omega (arith, length-append prefix (text "________")))

type_prefix-IsByte : (prefix : Text) → All IsByte prefix → All IsByte (type_prefix prefix)
unfolding type_prefix
type_prefix-IsByte prefix h =
    All-take 8 (prefix ++ text "________")
      (All-append_bytes prefix (text "________") h (omega arith))

length-put_uint64 : (n : ℕ) → length (put_uint64 n) ≡ 8
unfolding put_uint64
length-put_uint64 n = refl

-- The block that `encode` encrypts.
abbrev source : Text → ℤ → Text
source prefix id = type_prefix prefix ++ put_uint64 (to_uint64 id)

source-IsBlock : (prefix : Text) (id : ℤ) → All IsByte prefix → IsBlock (source prefix id)
source-IsBlock prefix id h =
    let head = type_prefix prefix in
    let rest = put_uint64 (to_uint64 id) in
    record {
      size =
          length-append head rest
          ∙ omega (arith, length-type_prefix prefix, length-put_uint64 (to_uint64 id));
      bytes =
          All-append_bytes head rest (type_prefix-IsByte prefix h)
            (put_uint64-IsByte (to_uint64 id));
    }

-- The two halves of a source block.
halves :
    (prefix : Text) (id : ℤ)
    → (take 8 (source prefix id) ≡ type_prefix prefix)
      × (drop 8 (source prefix id) ≡ put_uint64 (to_uint64 id))
halves prefix id =
    let head = type_prefix prefix in
    let rest = put_uint64 (to_uint64 id) in
    let size = length-type_prefix prefix in
    (rw size at (take-append_self head rest), rw size at (drop-append_self head rest))

module _ (block : Block) (law : IsCipher block) where
  -- What is decrypted, of a printed id under any prefix without underscore.
  decode-printed :
      (shown prefix : Text) (id : ℤ)
      → Lacks 95 shown
      → All IsByte prefix
      → decode block shown (shown ++ 95 ∷ hex_encode (block.encrypt (source prefix id)))
        ≡ decode_block shown (source prefix id)
  unfolding decode decode_parts decode_payload
  decode-printed shown prefix id lacks bytes =
      let src = source prefix id in
      let is_block = source-IsBlock prefix id bytes in
      let sealed = law.keeps src is_block in
      let digits = hex_encode (block.encrypt src) in
      let parts =
        split_all-append 95 shown digits lacks
          (hex_encode-Lacks (block.encrypt src) sealed.bytes) in
      let read = hex_decode-hex_encode (block.encrypt src) sealed.bytes in
      rw
        (
          parts,
          decode_parts,
          text_eq_refl shown,
          read,
          decode_payload,
          sealed.size,
          law.undoes src is_block,
        )
        refl

  -- A public id decodes, under the prefix that it was made with, to the id that it was made of: for
  -- every int64, and every prefix of bytes that holds no underscore, where the cipher's
  -- decryption undoes its encryption on blocks of 16 bytes.
  decode-encode_id :
      (prefix : Text) (id : ℤ)
      → Lacks 95 prefix
      → All IsByte prefix
      → IsInt64 id
      → decode block prefix (encode block prefix id) ≡ ok id
  unfolding encode decode_block
  decode-encode_id prefix id lacks bytes fits =
      let (head, rest) = halves prefix id in
      decode-printed prefix prefix id lacks bytes
      ∙ rw
          (
            decode_block,
            head,
            text_eq_refl (type_prefix prefix),
            rest,
            big_endian-put_uint64 (to_uint64 id) (to_uint64-lt id),
            to_int64-to_uint64 id fits,
          )
          refl

  -- A public id is refused as one of another type when its printed prefix has been exchanged for
  -- one that is asked for: the prefix inside the block, of 8 bytes, must then be the same. No
  -- underscore stands in either prefix.
  pub decode-retyped :
      (prefix other : Text) (id : ℤ)
      → Lacks 95 other
      → All IsByte prefix
      → type_prefix prefix ≢ type_prefix other
      → (digits : Text) → encode block prefix id ≡ prefix ++ 95 ∷ digits
      → decode block other (other ++ 95 ∷ digits) ≡ err type_mismatch
  unfolding encode decode_block
  decode-retyped prefix other id lacks bytes different digits same =
      let sealed = hex_encode (block.encrypt (source prefix id)) in
      let tail : 95 ∷ sealed ≡ 95 ∷ digits =
        sym (drop-append_self prefix (95 ∷ sealed))
        ∙ ap (drop (length prefix)) same
        ∙ drop-append_self prefix (95 ∷ digits) in
      let read = decode-printed other prefix id lacks bytes in
      ap (λ (d : Text). decode block other (other ++ d)) (sym tail)
      ∙ read
      ∙ rw
          (
            decode_block,
            (halves prefix id).0,
            text_eq_ne (type_prefix prefix) (type_prefix other) different,
          )
          refl
