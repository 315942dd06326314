-- ===== src/IdGen/Snowflake/Unique.antt =====
-- Ids ascend, so no id is issued twice; they carry their node, so no two nodes issue the same
-- id; and a call returns once the clock moves on (internal/idgen/idgen.go).
use mathlib.Core.Path.{subst}
use dodo_payments_backend.Base.{
  ℕ, zero, suc, ◌/◌, ◌%◌, ◌^◌, ◌≤◌, ◌<◌, ◌≡◌, ◌≢◌, Option, none, some, List, [], ◌∷◌, ◌++◌, arith,
  All, Option-cases, inl, inr,
}
use dodo_payments_backend.Base.Bits.{bit_and_1023}
use dodo_payments_backend.IdGen.Snowflake.{
  SnowflakeGenerator, default_epoch, new_snowflake, wait_after, next_at, next_id, next_ids,
}
use dodo_payments_backend.IdGen.Snowflake.Layout.{IsInRange, IsWellFormed}
use dodo_payments_backend.IdGen.Snowflake.Calls.{floor, IsReady, Issued, next_id-Issued}

-- Each id is at least the bound, and greater than the one before it.
abbrev pub Ascends : ℕ → List ℕ → Type 0
Ascends bound [] = Unit {0}
Ascends bound (id ∷ ids) = (bound ≤ id) × Ascends (suc id) ids

-- What an id of a well-formed generator shows of it.
abbrev IsOf : ℕ → ℕ → Type 0
IsOf node id = (id / 4096 % 1024 ≡ node) × (id < 2 ^ 63)

Issued-IsOf :
    (s : SnowflakeGenerator) (r : (ℕ × SnowflakeGenerator) × List ℕ)
    → Issued s r
    → IsWellFormed s
    → IsOf s.node_id r.0.0
Issued-IsOf s r h w = omega (
  arith, h.is_value, h.same_node, h.same_epoch, h.ranged.ended, h.formed.node_fits,
  h.formed.sequence_fits, w.epoch_fits,
)

Issued-IsReady :
    (s : SnowflakeGenerator) (r : (ℕ × SnowflakeGenerator) × List ℕ) → Issued s r → IsReady r.0.1
Issued-IsReady s r h = inr (rw h.same_epoch h.ranged)

abbrev IdsIf : SnowflakeGenerator → Option (List ℕ) → Type 0
IdsIf s none = Unit {0}
IdsIf s (some ids) = Ascends (floor s) ids × All (IsOf s.node_id) ids

floor-Issued :
    (s : SnowflakeGenerator) (r : (ℕ × SnowflakeGenerator) × List ℕ)
    → Issued s r
    → floor r.0.1 ≡ suc r.0.0
floor-Issued s r i = ground (arith, i.is_value, i.ranged.started, i.same_epoch)

next_ids_lem :
    (n : ℕ) (s : SnowflakeGenerator) (clock : List ℕ)
    → IsWellFormed s
    → IsReady s
    → All (IsInRange s.epoch) clock
    → IdsIf s (next_ids n s clock)
unfolding next_ids
next_ids_lem zero s clock w ready h = (tt, tt)
next_ids_lem (suc n) s clock w ready h = elim (Option-cases (next_id s clock)) [
  | inl stuck ↦ rw (stuck, next_ids) tt
  | inr (r, one) ↦
      let i : Issued s r = rw one at (next_id-Issued s w clock ready h) in
      let rest =
        next_ids_lem n r.0.1 r.1 i.formed (Issued-IsReady s r i) (rw i.same_epoch i.left) in
      rw (one, next_ids) (cons s r w i (next_ids n r.0.1 r.1) rest)
]
  where
    cons :
        (s : SnowflakeGenerator) (r : (ℕ × SnowflakeGenerator) × List ℕ)
        → IsWellFormed s
        → Issued s r
        → (more : Option (List ℕ)) → IdsIf r.0.1 more
        → IdsIf s (elim more [ none ↦ none | some ids ↦ some (r.0.0 ∷ ids) ])
    cons s r w i none h = tt
    cons s r w i (some ids) (up, of) =
        ((i.above, rw (floor-Issued s r i) at up), (Issued-IsOf s r i w, rw i.same_node at of))

new-IsWellFormed : (node : ℕ) → IsWellFormed (new_snowflake node)
unfolding new_snowflake
new-IsWellFormed node = omega (arith, bit_and_1023 node)

new-node_id : (node : ℕ) → (new_snowflake node).node_id ≡ node % 1024
unfolding new_snowflake
new-node_id node = bit_and_1023 node

-- A run of a new generator.
new_ids_lem :
    (node n : ℕ) (clock : List ℕ) {ids : List ℕ}
    → All (IsInRange default_epoch) clock
    → next_ids n (new_snowflake node) clock ≡ some ids
    → Ascends 0 ids × All (IsOf (new_snowflake node).node_id) ids
unfolding new_snowflake
new_ids_lem node n clock h e =
    let s = new_snowflake node in
    subst (IdsIf s) e (next_ids_lem n s clock (new-IsWellFormed node) (inl (omega arith)) h)

-- Any number of ids from a new generator, over any clock readings within the 41 bits of the time
-- (that may stand still or run back), are strictly ascending, hence all different.
pub next_ids_ascend :
    (node n : ℕ) (clock : List ℕ) {ids : List ℕ}
    → All (IsInRange default_epoch) clock
    → next_ids n (new_snowflake node) clock ≡ some ids
    → Ascends 0 ids
next_ids_ascend node n clock h e = (new_ids_lem node n clock h e).0

-- Each of the ids that a new generator issues, over any clock readings within the 41 bits of the
-- time, is below 2^63 and carries the lowest ten bits of the node number.
next_ids_node :
    (node n : ℕ) (clock : List ℕ) {ids : List ℕ}
    → All (IsInRange default_epoch) clock
    → next_ids n (new_snowflake node) clock ≡ some ids
    → All (λ id. (id / 4096 % 1024 ≡ node % 1024) × (id < 2 ^ 63)) ids
next_ids_node node n clock h e = rw new-node_id at (new_ids_lem node n clock h e).1

wait_after_some :
    (last u : ℕ) (before after : List ℕ) → last < u → wait_after last (before ++ u ∷ after) ≢ none
unfolding wait_after
wait_after_some last u [] after h = ground arith
wait_after_some last u (t ∷ before) after h = ground (arith, wait_after_some last u before after h)

-- A call returns an id as soon as the clock, after its first reading, gets beyond the time of
-- the last id.
pub next_id_returns :
    (s : SnowflakeGenerator) (t u : ℕ) (before after : List ℕ)
    → s.last_time < u
    → next_id s (t ∷ before ++ u ∷ after) ≢ none
unfolding next_id next_at
next_id_returns s t u before after h = ground (arith, wait_after_some s.last_time u before after h)
