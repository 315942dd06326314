-- ===== src/IdGen/Snowflake/Calls.antt =====
-- What one call of `NextID` does (internal/idgen/idgen.go).
use Prim.Native.Nat.{bit_and}
use dodo_payments_backend.Base.{
  ℕ, suc, ◌+◌, ◌-◌, ◌*◌, ◌≤◌, ◌<◌, ◌≡◌, refl, Option, none, some, List, [], ◌∷◌, ltb, ◌==◌,
  if◌then◌else◌, arith, All, Option-cases, Bool-cases, inl, inr, ◌⊎◌,
}
use dodo_payments_backend.Base.Bits.{bit_and_4095}
use dodo_payments_backend.IdGen.Snowflake.{SnowflakeGenerator, wait_after, issue, next_at, next_id}
use dodo_payments_backend.IdGen.Snowflake.Layout.{IsInRange, IsWellFormed, compose_lem}

-- The last id that the generator issued, if it issued one.
abbrev pub value : SnowflakeGenerator → ℕ
value s = ((s.last_time - s.epoch) * 1024 + s.node_id) * 4096 + s.sequence

-- The least id that it may issue next: a new generator has no last id.
abbrev pub floor : SnowflakeGenerator → ℕ
floor s = if ltb s.last_time s.epoch then 0 else suc (value s)

-- The generator is new, or its last reading was in range.
abbrev pub IsReady : SnowflakeGenerator → Type 0
IsReady s = (s.last_time < s.epoch) ⊎ IsInRange s.epoch s.last_time

wait_after_later :
    (epoch last : ℕ) (clock : List ℕ) (t : ℕ) (rest : List ℕ)
    → All (IsInRange epoch) clock
    → wait_after last clock ≡ some (t, rest)
    → (last < t) × IsInRange epoch t × All (IsInRange epoch) rest
unfolding wait_after
wait_after_later epoch last [] t rest h e = cc
wait_after_later epoch last (u ∷ clock) t rest h e =
    ground (arith, wait_after_later epoch last clock t rest h.1)

-- What one call does: the id is the value of the generator afterwards, and not below the floor.
pub record Issued (s : SnowflakeGenerator) (r : (ℕ × SnowflakeGenerator) × List ℕ) : Type 0 where
  pub formed : IsWellFormed r.0.1
  pub ranged : IsInRange s.epoch r.0.1.last_time
  pub same_epoch : r.0.1.epoch ≡ s.epoch
  pub same_node : r.0.1.node_id ≡ s.node_id
  pub is_value : r.0.0 ≡ value r.0.1
  pub above : floor s ≤ r.0.0
  pub left : All (IsInRange s.epoch) r.1

abbrev pub IssuedIf : SnowflakeGenerator → Option ((ℕ × SnowflakeGenerator) × List ℕ) → Type 0
IssuedIf s none = Unit {0}
IssuedIf s (some r) = Issued s r

module _ (s : SnowflakeGenerator) (w : IsWellFormed s) where
  issue-Issued :
      (seq now : ℕ) (rest : List ℕ)
      → seq < 4096
      → IsInRange s.epoch now
      → floor s ≤ ((now - s.epoch) * 1024 + s.node_id) * 4096 + seq
      → All (IsInRange s.epoch) rest
      → Issued s (issue (record s { sequence = seq }) now, rest)
  unfolding issue
  issue-Issued seq now rest fits r a left =
      let s₁ = record s { sequence = seq } in
      let w₁ : IsWellFormed s₁ = record {
        node_fits = w.node_fits;
        sequence_fits = fits;
        epoch_fits = w.epoch_fits;
      } in
      let e = compose_lem s₁ now w₁ r in
      record {
        formed = record {
          node_fits = w.node_fits;
          sequence_fits = fits;
          epoch_fits = w.epoch_fits;
        };
        ranged = r;
        same_epoch = refl;
        same_node = refl;
        is_value = e;
        above = rw e a;
        left = left;
      }

  -- A later time gives a greater id, whatever the sequence.
  later :
      (seq t : ℕ)
      → IsReady s
      → IsInRange s.epoch t
      → s.last_time < t
      → floor s ≤ ((t - s.epoch) * 1024 + s.node_id) * 4096 + seq
  later seq t ready r lt = ground (arith, w)

  wait-Issued :
      (seq : ℕ) (clock : List ℕ)
      → seq < 4096
      → IsReady s
      → All (IsInRange s.epoch) clock
      → IssuedIf s (elim (wait_after s.last_time clock) [
        | none ↦ none
        | some (t, rest) ↦ some (issue (record s { sequence = seq }) t, rest)
      ])
  wait-Issued seq clock fits ready h = elim (Option-cases (wait_after s.last_time clock)) [
    | inl e ↦ rw e tt
    | inr ((t, rest), e) ↦
        let (lt, r, left) = wait_after_later s.epoch s.last_time clock t rest h e in
        rw e (issue-Issued seq t rest fits r (later seq t ready r lt) left)
  ]

  next_at-Issued :
      (now : ℕ) (clock : List ℕ)
      → IsReady s
      → IsInRange s.epoch now
      → s.last_time ≤ now
      → All (IsInRange s.epoch) clock
      → IssuedIf s (next_at s now clock)
  unfolding next_at
  next_at-Issued now clock ready r le h =
      let seq = bit_and (s.sequence + 1) 0xfff in
      let mask = bit_and_4095 (s.sequence + 1) in
      elim (Bool-cases (now == s.last_time)) [
        | inl same ↦ elim (Bool-cases (seq == 0)) [
          | inl wrapped ↦
              rw (same, wrapped, next_at) (wait-Issued seq clock (omega (arith, mask)) ready h)
          | inr bumped ↦
              rw (same, bumped, next_at)
                (issue-Issued seq now clock (omega (arith, mask)) r (ground (arith, mask, w)) h)
        ]
        | inr moved ↦
            rw (moved, next_at)
              (issue-Issued 0 now clock (omega arith) r (later 0 now ready r (ground arith)) h)
      ]

  -- One call of `NextID`.
  pub next_id-Issued :
      (clock : List ℕ) → IsReady s → All (IsInRange s.epoch) clock → IssuedIf s (next_id s clock)
  unfolding next_id
  next_id-Issued [] ready h = tt
  next_id-Issued (t ∷ clock) ready h =
      next_at-Issued (if ltb t s.last_time then s.last_time else t) clock ready (ground arith)
        (ground arith) h.1
