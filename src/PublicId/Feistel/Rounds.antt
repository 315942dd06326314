-- ===== src/PublicId/Feistel/Rounds.antt =====
-- The round function and the two directions of the network (internal/publicid/publicid.go).
use Prim.Native.Nat.{bit_or, bit_xor}
use mathlib.Core.List.{reverse}
use dodo_payments_backend.Base.{ℕ, ◌*◌, ◌/◌, ◌%◌, ◌^◌, List, [], ◌∷◌}

-- The Go type [4]uint32.
pub record RoundKeys : Type 0 where
  pub key0 : ℕ
  pub key1 : ℕ
  pub key2 : ℕ
  pub key3 : ℕ

-- The keys in the order of the loop counter.
abbrev pub round_keys : RoundKeys → List ℕ
round_keys k = k.key0 ∷ k.key1 ∷ k.key2 ∷ k.key3 ∷ []

-- F(R, K) = (R ^ K) * 0x9e3779b9 in uint32.
unfoldable pub feistel_round : ℕ → ℕ → ℕ
feistel_round r k = (bit_xor r k * 0x9e3779b9) % 2 ^ 32

-- The body of the loop of `feistelEncrypt`, for each key in turn, on the halves l and r.
unfoldable pub encrypt_rounds : List ℕ → ℕ × ℕ → ℕ × ℕ
encrypt_rounds [] (l, r) = (l, r)
encrypt_rounds (k ∷ ks) (l, r) = encrypt_rounds ks (r, bit_xor l (feistel_round r k))

-- The body of the loop of `feistelDecrypt`; the loop counts down, so it is run on the keys
-- from the last to the first.
unfoldable pub decrypt_rounds : List ℕ → ℕ × ℕ → ℕ × ℕ
decrypt_rounds [] (l, r) = (l, r)
decrypt_rounds (k ∷ ks) (l, r) = decrypt_rounds ks (bit_xor r (feistel_round l k), l)

-- `uint32(block >> 32)` and `uint32(block)`.
unfoldable pub halves : ℕ → ℕ × ℕ
halves block = (block / 2 ^ 32 % 2 ^ 32, block % 2 ^ 32)

-- `(uint64(l) << 32) | uint64(r)`.
unfoldable pub join : ℕ × ℕ → ℕ
join (l, r) = bit_or (l * 2 ^ 32 % 2 ^ 64) r

unfoldable pub feistel_encrypt : ℕ → RoundKeys → ℕ
feistel_encrypt block keys = join (encrypt_rounds (round_keys keys) (halves block))

unfoldable pub feistel_decrypt : ℕ → RoundKeys → ℕ
feistel_decrypt block keys = join (decrypt_rounds (reverse (round_keys keys)) (halves block))
