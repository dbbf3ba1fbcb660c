-- ===== src/Clock.antt =====
-- chronos-core/src/clock.rs: the logical clock.
use chronos_uvm.Prelude.{ℕ, Option, some, Profile, ◌>>=◌, add_word, u64}

pub record LogicalClock : Type 0 where
  pub tick : ℕ

unfoldable pub new : LogicalClock
new = record { tick = 0 }

unfoldable pub advance : Profile → LogicalClock → Option (ℕ × LogicalClock)
advance p c = do tick ← add_word p u64 c.tick 1; some (tick, record { tick = tick })

pub snapshot : LogicalClock → ℕ
snapshot c = c.tick
