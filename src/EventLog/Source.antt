-- ===== src/EventLog/Source.antt =====
-- The trait `NonDeterminismSource` as an interface: what a cell's host calls are written against, in
-- record and in replay mode alike. EventRecorder is its implementation.
use chronos_uvm.Prelude.{ℕ, Option, List, Profile}
use chronos_uvm.Prelude.Result.{Result}
use chronos_uvm.EventLog
use chronos_uvm.EventLog.{ReplayError, EventRecorder}

pub record NonDeterminismSource : Type 1 where
  pub State : Type 0
  -- The tick, and the answer that the closure would give.
  pub wall_clock_now : ℕ → ℕ → State → Option (Result ReplayError ℕ × State)
  -- The tick, the buffer, and what the closure makes of it; `ok` is the buffer as it is filled.
  pub random_bytes :
      ℕ → List ℕ → (List ℕ → List ℕ) → State → Option (Result ReplayError (List ℕ) × State)

-- `impl NonDeterminismSource for EventRecorder`
abbrev pub event_recorder : Profile → NonDeterminismSource
event_recorder p = record {
  State = EventRecorder;
  wall_clock_now = EventLog.wall_clock_now p;
  random_bytes = EventLog.random_bytes p;
}
