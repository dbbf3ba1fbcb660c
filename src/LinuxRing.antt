-- ===== src/LinuxRing.antt =====
-- chronos-io/src/linux_ring.rs: the io_uring backend.
pub mod UserData
pub mod Requests
mod UnitTests
mod Examples
use Prim.Native.Nat.{bit_and, bit_or}
use chronos_uvm.Prelude.{
  ℕ, zero, suc, ◌+◌, ◌*◌, ◌/◌, ◌%◌, ◌^◌, Option, none, some, List, [], ◌∷◌, ltb, Profile, ◌>>=◌,
  ◌>>◌, debug_assert, u64, ℕ_discrete,
}
use chronos_uvm.Prelude.Result.{Result, ok, err}
use chronos_uvm.Prelude.Maps.{HashMap, insert}
use chronos_uvm.IoUring.{IoUring, Entry, Opcode, read_fixed, write_fixed, Completion}
use chronos_uvm.Io.{
  IoError, submission_queue_full, setup_failed, buffer_registration_failed, IoCompletion,
}

-- `0xF_FFFF`
abbrev pub low_20 : ℕ
low_20 = 1048575

-- A shift to the left drops the bits above the word.
pub pack_user_data : Profile → ℕ → ℕ → ℕ → Option ℕ
pack_user_data p cell guest_fd request_id = do
  debug_assert p (ltb cell (2 ^ 24))
  debug_assert p (ltb guest_fd (2 ^ 20))
  debug_assert p (ltb request_id (2 ^ 20))
  some (bit_or (bit_or (cell * 2 ^ 40 % u64) (guest_fd * 2 ^ 20 % u64)) (bit_and request_id low_20))

pub unpack_user_data : ℕ → ℕ × ℕ × ℕ
unpack_user_data bits = (bits / 2 ^ 40, bit_and (bits / 2 ^ 20) low_20, bit_and bits low_20)

module _ (U : IoUring) where
  open U use {Ring}

  pub record UringIoSubsystem : Type 0 where
    pub ring : Ring
    pub registered_buffer_lens : HashMap ℕ ℕ

  pub started : Result (List ℕ) Ring → Result IoError UringIoSubsystem
  started (err e) = err (setup_failed e)
  started (ok ring) = ok (record { ring = ring; registered_buffer_lens = [] })

  pub new : ℕ → Result IoError UringIoSubsystem
  unfolding started
  new entries = started (U.new entries)

  -- A buffer is its address and its length.
  pub registered :
      ℕ
      → ℕ
      → UringIoSubsystem
      → Result (List ℕ) (Unit {0}) × Ring
      → Result IoError (Unit {0}) × UringIoSubsystem
  registered buffer_index len s (err e, ring) =
      (err (buffer_registration_failed e), record s { ring = ring })
  registered buffer_index len s (ok u, ring) = (
    ok tt,
    record {
      ring = ring;
      registered_buffer_lens = insert ℕ_discrete buffer_index len s.registered_buffer_lens;
    },
  )

  pub register_fixed_buffer :
      ℕ → ℕ × ℕ → UringIoSubsystem → Result IoError (Unit {0}) × UringIoSubsystem
  unfolding registered
  register_fixed_buffer buffer_index (base, len) s =
      registered buffer_index len s (U.register_buffers ((base, len) ∷ []) s.ring)

  pub submitted :
      UringIoSubsystem → Result (List ℕ) ℕ × Ring → Result IoError (Unit {0}) × UringIoSubsystem
  submitted s (err e, ring) = (err (setup_failed e), record s { ring = ring })
  submitted s (ok n, ring) = (ok tt, record s { ring = ring })

  -- What both methods do with the answer of the submission queue.
  pub queued :
      UringIoSubsystem
      → Result (Unit {0}) (Unit {0}) × Ring
      → Result IoError (Unit {0}) × UringIoSubsystem
  unfolding submitted
  queued s (err u, ring) = (err submission_queue_full, record s { ring = ring })
  queued s (ok u, ring) = submitted s (U.submit ring)

  pub submit_read_fixed :
      Profile
      → (cell guest_fd host_fd buffer_index offset len request_id : ℕ) → UringIoSubsystem
      → Option (Result IoError (Unit {0}) × UringIoSubsystem)
  unfolding pack_user_data queued
  submit_read_fixed p cell guest_fd host_fd buffer_index offset len request_id s = do
    user_data ← pack_user_data p cell guest_fd request_id
    let read_e : Entry = record {
      opcode = read_fixed;
      fd = host_fd;
      len = len;
      buf_index = buffer_index;
      offset = offset;
      user_data = user_data;
    }
    some (queued s (U.push read_e s.ring))

  pub submit_write_fixed :
      Profile
      → (cell guest_fd host_fd buffer_index offset len request_id : ℕ) → UringIoSubsystem
      → Option (Result IoError (Unit {0}) × UringIoSubsystem)
  unfolding pack_user_data queued
  submit_write_fixed p cell guest_fd host_fd buffer_index offset len request_id s = do
    user_data ← pack_user_data p cell guest_fd request_id
    let write_e : Entry = record {
      opcode = write_fixed;
      fd = host_fd;
      len = len;
      buf_index = buffer_index;
      offset = offset;
      user_data = user_data;
    }
    some (queued s (U.push write_e s.ring))

  -- `for cqe in &mut cq`
  pub delivered : List Completion → List IoCompletion
  unfolding unpack_user_data
  delivered [] = []
  delivered (cqe ∷ cqes) =
      let (cell, guest_fd, request_id) = unpack_user_data cqe.user_data in
      (record { cell = cell; guest_fd = guest_fd; request_id = request_id; result = cqe.result })
      ∷ delivered cqes

  pub poll_completions : UringIoSubsystem → List IoCompletion × UringIoSubsystem
  unfolding delivered
  poll_completions s =
      let (cqes, ring) = U.completions s.ring in (delivered cqes, record s { ring = ring })
