-- ===== src/IdGen/Snowflake.antt =====
-- `SnowflakeGenerator` of internal/idgen/idgen.go. The mutex makes a call atomic, so a call is a
-- function of the generator. The clock is a list of readings in milliseconds, used up from the
-- front; an int64 is its 64-bit pattern, so `now - epoch` wraps.
mod Layout
mod Calls
pub mod Unique
mod Tests
use Prim.Native.Nat.{bit_and, bit_or}
use dodo_payments_backend.Base.{
  zero, ℕ, suc, ◌+◌, ◌-◌, ◌*◌, ◌%◌, ◌^◌, Option, none, some, List, [], ◌∷◌, leb, ltb, ◌==◌,
  if◌then◌else◌,
}

pub record SnowflakeGenerator : Type 0 where
  pub epoch : ℕ
  pub node_id : ℕ
  pub sequence : ℕ
  pub last_time : ℕ

abbrev pub default_epoch : ℕ
default_epoch = 1767225600000

unfoldable pub new_snowflake : ℕ → SnowflakeGenerator
new_snowflake node_id = record {
  epoch = default_epoch;
  node_id = bit_and node_id 0x3ff;
  sequence = 0;
  last_time = 0;
}

-- `for now <= s.lastTime`: the readings up to the first one after `last`; `none` while there is
-- no such reading yet.
unfoldable pub wait_after : ℕ → List ℕ → Option (ℕ × List ℕ)
wait_after last [] = none
wait_after last (t ∷ clock) = if leb t last then wait_after last clock else some (t, clock)

-- `((now - s.epoch) << 22) | (s.nodeID << 12) | s.sequence`.
unfoldable pub compose : SnowflakeGenerator → ℕ → ℕ
compose s now =
    bit_or
      (bit_or ((now + 2 ^ 64 - s.epoch) % 2 ^ 64 * 2 ^ 22 % 2 ^ 64) (s.node_id * 2 ^ 12 % 2 ^ 64))
      s.sequence

-- The end of `NextID`: the time is stored and the id put together.
unfoldable pub issue : SnowflakeGenerator → ℕ → ℕ × SnowflakeGenerator
issue s now = (compose s now, record s { last_time = now })

-- `NextID` after the first reading, already raised to `last_time` by the clock-drift fallback.
unfoldable pub next_at :
    SnowflakeGenerator → ℕ → List ℕ → Option ((ℕ × SnowflakeGenerator) × List ℕ)
next_at s now clock =
    let bumped = record s { sequence = bit_and (s.sequence + 1) 0xfff } in
    if now == s.last_time
    then (if bumped.sequence == 0
        then elim (wait_after s.last_time clock) [
          | none ↦ none
          | some (later, rest) ↦ some (issue bumped later, rest)
        ]
        else some (issue bumped now, clock))
    else some (issue (record s { sequence = 0 }) now, clock)

-- `NextID`: the id, the generator after the call and the readings that are left.
unfoldable pub next_id : SnowflakeGenerator → List ℕ → Option ((ℕ × SnowflakeGenerator) × List ℕ)
next_id s [] = none
next_id s (t ∷ clock) = next_at s (if ltb t s.last_time then s.last_time else t) clock

-- A number of calls in a row.
unfoldable pub next_ids : ℕ → SnowflakeGenerator → List ℕ → Option (List ℕ)
next_ids zero s clock = some []
next_ids (suc n) s clock = elim (next_id s clock) [
  | none ↦ none
  | some ((id, s'), rest) ↦ elim (next_ids n s' rest) [ none ↦ none | some ids ↦ some (id ∷ ids) ]
]
