-- ===== src/LinuxRing/Examples.antt =====
-- The backend over the loopback ring, at concrete requests.
use chronos_uvm.Prelude.{
  ℕ, ◌<◌, ◌≡◌, refl, some, true, false, List, [], ◌∷◌, debug, release, u64, arith,
}
use chronos_uvm.IoUring.Loopback.{loopback}
use chronos_uvm.LinuxRing.{UringIoSubsystem, pack_user_data, unpack_user_data}
use chronos_uvm.LinuxRing.UserData.{unpack-pack}
use chronos_uvm.Io.Subsystem.{Request, IoCall, register, request, poll, run, Accounted}
use chronos_uvm.LinuxRing.Requests.{uring, run_exact}

-- The numbers of the test `user_data_packing_round_trips`.
unpack-pack_example :
    (bits : ℕ) × (pack_user_data debug 12345 99 555 ≡ some bits)
    × (bits < u64)
    × (unpack_user_data bits ≡ (12345, 99, 555))
unpack-pack_example = unpack-pack debug 12345 99 555 (omega arith) (omega arith) (omega arith)

-- Out of range, a release build takes a descriptor of 21 bits of cell 0 for descriptor 0 of cell 1.
packed_over : pack_user_data release 0 1048576 0 ≡ pack_user_data release 1 0 0
unfolding pack_user_data
packed_over = refl

abbrev reading : Request
reading = record {
  write = false;
  cell = 1;
  guest_fd = 3;
  host_fd = 9;
  buffer_index = 0;
  offset = 0;
  len = 512;
  request_id = 7;
}

abbrev writing : Request
writing = record {
  write = true;
  cell = 2;
  guest_fd = 4;
  host_fd = 9;
  buffer_index = 0;
  offset = 64;
  len = 16;
  request_id = 8;
}

abbrev start : UringIoSubsystem loopback
start = record { ring = []; registered_buffer_lens = [] }

abbrev calls : List IoCall
calls = register 0 (65536, 4096) ∷ request reading ∷ request writing ∷ poll ∷ request reading ∷ []

run_exact_example : Accounted (uring loopback) start (run (uring loopback) release calls start)
run_exact_example = run_exact loopback release calls start (
  (omega arith, omega arith, omega arith),
  ((omega arith, omega arith, omega arith), ((omega arith, omega arith, omega arith), tt)),
)
