-- ===== src/IdGen/Snowflake/Layout.antt =====
-- The three fields of an id (internal/idgen/idgen.go).
use Prim.Native.Nat.{bit_or}
use dodo_payments_backend.Base.{ℕ, ◌+◌, ◌-◌, ◌*◌, ◌%◌, ◌^◌, ◌≤◌, ◌<◌, ◌≡◌, arith, ◌∙◌, ap}
use dodo_payments_backend.Base.Bits.{bit_or_shift}
use dodo_payments_backend.IdGen.Snowflake.{SnowflakeGenerator, compose}

-- The 41 bits of the time hold this reading of the clock.
pub record IsInRange (epoch now : ℕ) : Type 0 where
  pub started : epoch ≤ now
  pub ended : now < epoch + 2 ^ 41

-- The fields fit their bits.
pub record IsWellFormed (s : SnowflakeGenerator) : Type 0 where
  pub node_fits : s.node_id < 1024
  pub sequence_fits : s.sequence < 4096
  pub epoch_fits : s.epoch + 2 ^ 41 < 2 ^ 63

-- In range, an id is a sum of its fields.
pub compose_lem :
    (s : SnowflakeGenerator) (now : ℕ)
    → IsWellFormed s
    → IsInRange s.epoch now
    → compose s now ≡ ((now - s.epoch) * 1024 + s.node_id) * 4096 + s.sequence
unfolding compose
compose_lem s now w r =
    let x : ℕ = now - s.epoch in
    let time : (now + 2 ^ 64 - s.epoch) % 2 ^ 64 * 2 ^ 22 % 2 ^ 64 ≡ x * 2 ^ 22 = omega arith in
    let node : s.node_id * 2 ^ 12 % 2 ^ 64 ≡ s.node_id * 2 ^ 12 = omega arith in
    rw (time, node)
      (rw (bit_or_shift 22 x (s.node_id * 2 ^ 12) (omega arith)) (
        ap (λ (t : ℕ). bit_or t s.sequence) (omega arith)
        ∙ bit_or_shift 12 (x * 1024 + s.node_id) s.sequence (omega arith)))
