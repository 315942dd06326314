-- ===== src/PublicId/Feistel/Laws.antt =====
-- The network is a permutation of the 64-bit blocks: decryption undoes encryption, encryption
-- undoes decryption, and neither leaves the blocks (internal/publicid/publicid.go).
use Prim.Native.Nat.{bit_xor}
use mathlib.Core.List.{reverse, reverse-cons}
use dodo_payments_backend.Base.{
  ℕ, ◌+◌, ◌*◌, ◌/◌, ◌%◌, ◌^◌, ◌<◌, ◌≡◌, refl, List, [], ◌∷◌, ◌++◌, arith,
}
use dodo_payments_backend.Base.Bits.{bit_xor_cancel, bit_xor-lt, bit_or_shift}
use dodo_payments_backend.PublicId.Feistel.Rounds.{
  RoundKeys, round_keys, feistel_round, encrypt_rounds, decrypt_rounds, halves, join,
  feistel_encrypt, feistel_decrypt,
}

-- Both halves are 32-bit words.
abbrev AreWords : ℕ × ℕ → Type 0
AreWords p = (p.0 < 2 ^ 32) × (p.1 < 2 ^ 32)

feistel_round-lt : (r k : ℕ) → feistel_round r k < 2 ^ 32
unfolding feistel_round
feistel_round-lt r k = omega arith

halves-AreWords : (b : ℕ) → AreWords (halves b)
unfolding halves
halves-AreWords b = omega arith

join_lem : (l r : ℕ) → AreWords (l, r) → join (l, r) ≡ l * 2 ^ 32 + r
unfolding join
join_lem l r h = ground (arith, bit_or_shift 32 l r h.1)

halves-join : (p : ℕ × ℕ) → AreWords p → halves (join p) ≡ p
unfolding halves
halves-join (l, r) h = ground (arith, join_lem l r h)

join-halves : (b : ℕ) → b < 2 ^ 64 → join (halves b) ≡ b
unfolding halves
join-halves b h = ground (arith, join_lem (b / 2 ^ 32 % 2 ^ 32) (b % 2 ^ 32))

join-lt : (p : ℕ × ℕ) → AreWords p → join p < 2 ^ 64
join-lt (l, r) h = ground (arith, join_lem l r h)

encrypt_rounds-AreWords : (ks : List ℕ) (p : ℕ × ℕ) → AreWords p → AreWords (encrypt_rounds ks p)
unfolding encrypt_rounds
encrypt_rounds-AreWords [] (l, r) h = h
encrypt_rounds-AreWords (k ∷ ks) (l, r) h =
    encrypt_rounds-AreWords ks (r, bit_xor l (feistel_round r k))
      (h.1, bit_xor-lt 32 l (feistel_round r k) h.0 (feistel_round-lt r k))

decrypt_rounds-AreWords : (ks : List ℕ) (p : ℕ × ℕ) → AreWords p → AreWords (decrypt_rounds ks p)
unfolding decrypt_rounds
decrypt_rounds-AreWords [] (l, r) h = h
decrypt_rounds-AreWords (k ∷ ks) (l, r) h =
    decrypt_rounds-AreWords ks (bit_xor r (feistel_round l k), l)
      (bit_xor-lt 32 r (feistel_round l k) h.1 (feistel_round-lt l k), h.0)

-- One round and its inverse, in either order.
undo_round : (k l r : ℕ) → decrypt_rounds (k ∷ []) (encrypt_rounds (k ∷ []) (l, r)) ≡ (l, r)
unfolding encrypt_rounds decrypt_rounds
undo_round k l r = ground (arith, bit_xor_cancel l (feistel_round r k))

redo_round : (k l r : ℕ) → encrypt_rounds (k ∷ []) (decrypt_rounds (k ∷ []) (l, r)) ≡ (l, r)
unfolding encrypt_rounds decrypt_rounds
redo_round k l r = ground (arith, bit_xor_cancel r (feistel_round l k))

encrypt_rounds-append :
    (xs ys : List ℕ) (p : ℕ × ℕ)
    → encrypt_rounds (xs ++ ys) p ≡ encrypt_rounds ys (encrypt_rounds xs p)
unfolding encrypt_rounds
encrypt_rounds-append [] ys p = refl
encrypt_rounds-append (k ∷ xs) ys (l, r) =
    encrypt_rounds-append xs ys (r, bit_xor l (feistel_round r k))

decrypt_rounds-append :
    (xs ys : List ℕ) (p : ℕ × ℕ)
    → decrypt_rounds (xs ++ ys) p ≡ decrypt_rounds ys (decrypt_rounds xs p)
unfolding decrypt_rounds
decrypt_rounds-append [] ys p = refl
decrypt_rounds-append (k ∷ xs) ys (l, r) =
    decrypt_rounds-append xs ys (bit_xor r (feistel_round l k), l)

-- The rounds with the keys in one order undo the rounds with the keys in the other.
undo_rounds : (ks : List ℕ) (p : ℕ × ℕ) → decrypt_rounds (reverse ks) (encrypt_rounds ks p) ≡ p
undo_rounds [] (l, r) = unfold encrypt_rounds decrypt_rounds in refl
undo_rounds (k ∷ ks) (l, r) =
    let p : ℕ × ℕ = (l, r) in
    let q : ℕ × ℕ = encrypt_rounds (k ∷ []) p in
    rw (reverse-cons k ks, decrypt_rounds-append (reverse ks) (k ∷ []) (encrypt_rounds (k ∷ ks) p))
      (rw (encrypt_rounds-append (k ∷ []) ks p, undo_rounds ks q) (undo_round k l r))

redo_rounds : (ks : List ℕ) (p : ℕ × ℕ) → encrypt_rounds ks (decrypt_rounds (reverse ks) p) ≡ p
redo_rounds [] (l, r) = unfold encrypt_rounds decrypt_rounds in refl
redo_rounds (k ∷ ks) p =
    let q : ℕ × ℕ = decrypt_rounds (reverse ks) p in
    rw (reverse-cons k ks, decrypt_rounds-append (reverse ks) (k ∷ []) p)
      (rw (encrypt_rounds-append (k ∷ []) ks (decrypt_rounds (k ∷ []) q), redo_round k q.0 q.1)
        (redo_rounds ks p))

-- Decryption with any four round keys gives back the block that was encrypted with them, and
-- the cipher block is again a 64-bit block.
pub feistel_decrypt-encrypt :
    (block : ℕ) (keys : RoundKeys)
    → block < 2 ^ 64
    → (feistel_decrypt (feistel_encrypt block keys) keys ≡ block)
      × (feistel_encrypt block keys < 2 ^ 64)
unfolding feistel_decrypt feistel_encrypt
feistel_decrypt-encrypt block keys h =
    let ks = round_keys keys in
    let words = encrypt_rounds-AreWords ks (halves block) (halves-AreWords block) in
    (
      rw (halves-join (encrypt_rounds ks (halves block)) words, undo_rounds ks (halves block))
          (join-halves block h),
      join-lt (encrypt_rounds ks (halves block)) words,
    )

-- Encryption with any four round keys gives back the block that was decrypted with them, and
-- the plain block is again a 64-bit block.
feistel_encrypt-decrypt :
    (block : ℕ) (keys : RoundKeys)
    → block < 2 ^ 64
    → (feistel_encrypt (feistel_decrypt block keys) keys ≡ block)
      × (feistel_decrypt block keys < 2 ^ 64)
unfolding feistel_decrypt feistel_encrypt
feistel_encrypt-decrypt block keys h =
    let ks = round_keys keys in
    let plain = decrypt_rounds (reverse ks) (halves block) in
    let words = decrypt_rounds-AreWords (reverse ks) (halves block) (halves-AreWords block) in
    (
      rw (halves-join plain words, redo_rounds ks (halves block)) (join-halves block h),
      join-lt plain words,
    )
