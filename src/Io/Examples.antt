-- ===== src/Io/Examples.antt =====
-- The descriptor table and the queue at concrete steps.
use chronos_uvm.Prelude.Integers.{pos}
use chronos_uvm.Prelude.{
  ◌≡◌, refl, some, true, false, List, [], ◌∷◌, ◌++◌, debug, release, ◌>>=◌, arith,
}
use chronos_uvm.Io.Subsystem
use chronos_uvm.Io.Subsystem.{Request, IoCall, request, poll, Log}
use chronos_uvm.Io.Stub.{stub, asked, IsReported, run_in_order}
use chronos_uvm.Io.Stub
use chronos_uvm.Io.{StubIoSubsystem, IoCompletion, PendingCompletions, new, register, close}
use chronos_uvm.Prelude.{ℕ_discrete}
use chronos_uvm.Prelude.Maps.{get}
use chronos_uvm.Io.Fds.{new-IsValid, FdOp, open_fd, close_fd, run}
use chronos_uvm.Io.FdMap.{Refines, run-replay}
use chronos_uvm.Io.Delivery.{IoStep, arrive, dispatch, deliver, joined, arrived, joined-deliver}

abbrev ops : List FdOp
ops = open_fd 7 ∷ open_fd 8 ∷ close_fd 4 ∷ open_fd 9 ∷ []

run-replay_example : Refines ops new (λ j. get ℕ_discrete j new.entries) (run release ops new)
unfolding new
run-replay_example = run-replay release ops new new-IsValid (omega arith)

issued_by_ops : (run release ops new >>= λ r. some r.0) ≡ some (3 ∷ 4 ∷ 5 ∷ [])
unfolding run register close new
issued_by_ops = refl

abbrev first : IoCompletion
first = record { cell = 1; guest_fd = 3; request_id = 10; result = pos 512 }

abbrev second : IoCompletion
second = record { cell = 1; guest_fd = 3; request_id = 11; result = pos 0 }

abbrev queued : PendingCompletions
queued = record { queue = first ∷ [] }

abbrev steps : List IoStep
steps = dispatch ∷ arrive second ∷ arrive first ∷ dispatch ∷ arrive first ∷ []

joined-deliver_example :
    joined (deliver steps queued).0 ++ (deliver steps queued).1.queue
    ≡ queued.queue ++ arrived steps
joined-deliver_example = joined-deliver steps queued

abbrev wide : Request
wide = record {
  write = true;
  cell = 16777216;
  guest_fd = 3;
  host_fd = 5;
  buffer_index = 0;
  offset = 0;
  len = 4096;
  request_id = 42;
}

abbrev calls : List IoCall
calls =
    IoCall.register 0 (65536, 4096)
    ∷ request wide
    ∷ poll
    ∷ request (record wide { write = false; len = 3000000000 })
    ∷ []

abbrev stubbed : StubIoSubsystem
stubbed = record { completions = first ∷ [] }

run_in_order_example :
    (log : Log StubIoSubsystem) × (Subsystem.run stub debug calls stubbed ≡ some log)
    × (log.completions ++ log.subsystem.completions ≡ stubbed.completions ++ asked calls)
    × ((q : Request) → IsReported q (Stub.full q))
run_in_order_example = run_in_order debug calls stubbed
