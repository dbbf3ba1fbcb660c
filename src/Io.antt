-- ===== src/Io.antt =====
-- chronos-io/src/lib.rs: the descriptors of a cell, its queue of completions and the stub backend.
-- An `i32` is its bit pattern, so `len as i32` is `len`.
pub mod Fds
pub mod FdMap
pub mod Delivery
pub mod Subsystem
pub mod Stub
mod UnitTests
mod Examples
use chronos_uvm.Prelude.{
  ℕ, ◌+◌, Bool, true, false, Option, none, some, List, [], ◌∷◌, ◌++◌, Profile, ◌>>=◌, add_word, u32,
  ℕ_discrete,
}
use chronos_uvm.Prelude.Result.{Result, ok, err}
use chronos_uvm.Prelude.Integers.{ℤ, as_i32}
use chronos_uvm.Prelude.Maps.{HashMap, get, insert, remove}

pub data IoError : Type 0 where
  unknown_fd : ℕ → IoError
  submission_queue_full : IoError
  setup_failed : List ℕ → IoError
  buffer_registration_failed : List ℕ → IoError

pub record IoCompletion : Type 0 where
  pub cell : ℕ
  pub guest_fd : ℕ
  pub request_id : ℕ
  pub result : ℤ

pub record FdTable : Type 0 where
  pub entries : HashMap ℕ ℕ
  pub next_guest_fd : ℕ

unfoldable pub new : FdTable
new = record { entries = []; next_guest_fd = 3 }

pub register : Profile → ℕ → FdTable → Option (ℕ × FdTable)
register p host_fd t = do
  let guest_fd = t.next_guest_fd
  next ← add_word p u32 t.next_guest_fd 1
  some (
    guest_fd,
    record { entries = insert ℕ_discrete guest_fd host_fd t.entries; next_guest_fd = next },
  )

-- `.copied().ok_or(IoError::UnknownFd(guest_fd))`
pub ok_or : ℕ → Option ℕ → Result IoError ℕ
ok_or guest_fd none = err (unknown_fd guest_fd)
ok_or guest_fd (some host_fd) = ok host_fd

pub resolve : ℕ → FdTable → Result IoError ℕ
unfolding ok_or
resolve guest_fd t = ok_or guest_fd (get ℕ_discrete guest_fd t.entries)

pub close : ℕ → FdTable → Option ℕ × FdTable
close guest_fd t =
    (get ℕ_discrete guest_fd t.entries, record t { entries = remove ℕ_discrete guest_fd t.entries })

pub record PendingCompletions : Type 0 where
  pub queue : List IoCompletion

pub no_completions : PendingCompletions
no_completions = record { queue = [] }

pub push : IoCompletion → PendingCompletions → PendingCompletions
push completion q = record { queue = q.queue ++ (completion ∷ []) }

pub drain_for_dispatch : PendingCompletions → List IoCompletion × PendingCompletions
drain_for_dispatch q = (q.queue, record { queue = [] })

unfoldable pub is_empty : PendingCompletions → Bool
is_empty q = elim q.queue [ [] ↦ true | x ∷ xs ↦ false ]

pub record StubIoSubsystem : Type 0 where
  pub completions : List IoCompletion

pub new_stub : StubIoSubsystem
new_stub = record { completions = [] }

unfoldable pub register_fixed_buffer :
    ℕ → ℕ × ℕ → StubIoSubsystem → Result IoError (Unit {0}) × StubIoSubsystem
register_fixed_buffer buffer_index buf s = (ok tt, s)

unfoldable pub submit_read_fixed :
    (cell guest_fd host_fd buffer_index offset len request_id : ℕ)
    → StubIoSubsystem
    → Result IoError (Unit {0}) × StubIoSubsystem
submit_read_fixed cell guest_fd host_fd buffer_index offset len request_id s = (
  ok tt,
  record {
    completions =
        s.completions
        ++ (record {
          cell = cell;
          guest_fd = guest_fd;
          request_id = request_id;
          result = as_i32 len;
        }
            ∷ []);
  },
)

unfoldable pub submit_write_fixed :
    (cell guest_fd host_fd buffer_index offset len request_id : ℕ)
    → StubIoSubsystem
    → Result IoError (Unit {0}) × StubIoSubsystem
submit_write_fixed cell guest_fd host_fd buffer_index offset len request_id s = (
  ok tt,
  record {
    completions =
        s.completions
        ++ (record {
          cell = cell;
          guest_fd = guest_fd;
          request_id = request_id;
          result = as_i32 len;
        }
            ∷ []);
  },
)

unfoldable pub poll_completions : StubIoSubsystem → List IoCompletion × StubIoSubsystem
poll_completions s = (s.completions, record { completions = [] })
