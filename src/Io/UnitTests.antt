-- ===== src/Io/UnitTests.antt =====
-- The unit tests of chronos-io/src/lib.rs, on the model.
use chronos_uvm.Prelude.Integers.{ℤ, pos, negsuc, as_i32}
use chronos_uvm.Prelude.{
  ℕ, Bool, true, false, ◌&&◌, not, ◌==◌, ◌≡◌, refl, Option, some, List, [], ◌∷◌, debug, ◌>>=◌,
}
use chronos_uvm.Prelude.Result.{Result, ok, err}
use chronos_uvm.Prelude.{ℕ_discrete}
use chronos_uvm.Prelude.Maps.{get, insert}
use chronos_uvm.Io.{
  IoError, IoCompletion, new, register, resolve, no_completions, push, drain_for_dispatch, is_empty,
  new_stub, submit_read_fixed, poll_completions,
}

abbrev resolves_to : Result IoError ℕ → ℕ → Bool
resolves_to (ok host_fd) expected = host_fd == expected
resolves_to (err e) expected = false

abbrev is_err : Result IoError ℕ → Bool
is_err (ok host_fd) = false
is_err (err e) = true

fd_table_isolates_guest_fds : Option Bool
unfolding new register resolve
fd_table_isolates_guest_fds = do
  (guest_fd_a, table) ← register debug 10 new
  (guest_fd_b, table) ← register debug 11 table
  some (
      not (guest_fd_a == guest_fd_b)
      && resolves_to (resolve guest_fd_a table) 10
      && resolves_to (resolve guest_fd_b table) 11
      && is_err (resolve 9999 table))

abbrev completion : ℕ → IoCompletion
completion i = record { cell = 0; guest_fd = 3; request_id = i; result = pos 4096 }

abbrev has_ids : List IoCompletion → List ℕ → Bool
has_ids [] [] = true
has_ids (c ∷ cs) (i ∷ is) = c.request_id == i && has_ids cs is
has_ids _ _ = false

pending_completions_drain_in_order : Bool
unfolding no_completions push drain_for_dispatch is_empty
pending_completions_drain_in_order =
    let pending = push (completion 2) (push (completion 1) (push (completion 0) no_completions)) in
    let (drained, pending) = drain_for_dispatch pending in
    has_ids drained (0 ∷ 1 ∷ 2 ∷ []) && is_empty pending

abbrev is_pos : ℕ → ℤ → Bool
is_pos n (pos m) = m == n
is_pos n (negsuc m) = false

abbrev is_one : List IoCompletion → ℕ → ℕ → Bool
is_one (c ∷ []) request_id result = c.request_id == request_id && is_pos result c.result
is_one _ request_id result = false

stub_subsystem_round_trips_a_completion : Bool
unfolding new_stub submit_read_fixed poll_completions
stub_subsystem_round_trips_a_completion =
    let (answer, io) = submit_read_fixed 0 3 5 0 0 4096 42 new_stub in
    is_one (poll_completions io).0 42 4096

unit_tests_pass :
    (fd_table_isolates_guest_fds ≡ some true)
    × (pending_completions_drain_in_order ≡ true)
    × (stub_subsystem_round_trips_a_completion ≡ true)
unfolding fd_table_isolates_guest_fds pending_completions_drain_in_order
    stub_subsystem_round_trips_a_completion get insert ℕ_discrete as_i32
unit_tests_pass = (refl, refl, refl)
