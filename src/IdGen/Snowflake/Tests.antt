-- ===== src/IdGen/Snowflake/Tests.antt =====
-- Runs of the generator, and its theorems at concrete clocks.
use dodo_payments_backend.Base.{
  ℕ, ◌+◌, ◌*◌, ◌^◌, ◌≡◌, ◌≢◌, refl, none, some, List, [], ◌∷◌, ◌++◌, arith, All,
}
use dodo_payments_backend.IdGen.Snowflake.{
  SnowflakeGenerator, default_epoch, new_snowflake, wait_after, compose, issue, next_at, next_id,
  next_ids,
}
use dodo_payments_backend.IdGen.Snowflake.Layout.{IsInRange}
use dodo_payments_backend.IdGen.Snowflake.Unique.{Ascends, next_ids_ascend, next_id_returns}

-- The clock stands still, runs back and then goes on.
abbrev clock : List ℕ
clock = (default_epoch + 5) ∷ (default_epoch + 5) ∷ (default_epoch + 2) ∷ (default_epoch + 9) ∷ []

abbrev drawn : List ℕ
drawn = (5 * 2 ^ 22 + 4096) ∷ (5 * 2 ^ 22 + 4097) ∷ (5 * 2 ^ 22 + 4098) ∷ (9 * 2 ^ 22 + 4096) ∷ []

run : next_ids 4 (new_snowflake 1) clock ≡ some drawn
unfolding next_ids next_id next_at issue compose wait_after new_snowflake
run = refl

clock_ok : All (IsInRange default_epoch) clock
clock_ok = omega arith

next_ids_ascend_example : Ascends 0 drawn
next_ids_ascend_example = next_ids_ascend 1 4 clock clock_ok run

abbrev spent : SnowflakeGenerator
spent = record {
  epoch = default_epoch;
  node_id = 1;
  sequence = 4095;
  last_time = default_epoch + 5;
}

next_id_returns_example :
    next_id spent ((default_epoch + 5) ∷ ((default_epoch + 5) ∷ []) ++ (default_epoch + 6) ∷ [])
    ≢ none
next_id_returns_example =
    next_id_returns spent (default_epoch + 5) (default_epoch + 6) ((default_epoch + 5) ∷ []) []
      (omega arith)
