-- ===== src/Io/Stub.antt =====
-- The stub as an implementation of the trait: every request completes, in order.
use mathlib.Core.List.{Perm, map-append, append_assoc, append-nil}
use mathlib.Core.List.Perm
use mathlib.Core.Path.{subst}
use chronos_uvm.Prelude.{ℕ, ◌≡◌, refl, sym, ap, ◌∙◌, arith, some, List, [], ◌∷◌, ◌++◌, map, Profile}
use chronos_uvm.Prelude.{◌-◌, ◌^◌, ◌<◌, ◌≤◌}
use chronos_uvm.Prelude.Integers.{pos, negsuc, as_i32, as_i32_small, as_i32_large}
use chronos_uvm.Prelude.Result.{Result, ok}
use chronos_uvm.Io.{
  IoError, IoCompletion, StubIoSubsystem, register_fixed_buffer, submit_read_fixed,
  submit_write_fixed, poll_completions,
}
use chronos_uvm.Io.Subsystem.{
  Ident, ident_of, Request, ident, TakesOn, with_request, Submit, IoSubsystem, IoCall, register,
  request, poll, Log, submit_fixed, run,
}

-- The completion of a request: `len` as an `i32`.
abbrev pub full : Request → IoCompletion
full q = record {
  cell = q.cell;
  guest_fd = q.guest_fd;
  request_id = q.request_id;
  result = as_i32 q.len;
}

-- What the result of the completion of a request says: below 2 ^ 31 bytes that all were transferred, and
-- from there on a negative number, `len - 2 ^ 32`, as an error would be.
abbrev pub IsReported : Request → IoCompletion → Type 0
IsReported q c =
    (ident_of c ≡ ident q)
    × (q.len < 2 ^ 31 → c.result ≡ pos q.len)
    × (2 ^ 31 ≤ q.len → c.result ≡ negsuc (2 ^ 32 - 1 - q.len))

full-IsReported : (q : Request) → IsReported q (full q)
full-IsReported q = (refl, as_i32_small q.len, as_i32_large q.len)

-- A method that does not panic.
abbrev pub total :
    {A : Type 0}
    → ((cell guest_fd host_fd buffer_index offset len request_id : ℕ)
        → A
        → Result IoError (Unit {0}) × A)
    → Submit A
total f p cell guest_fd host_fd buffer_index offset len request_id s =
    some (f cell guest_fd host_fd buffer_index offset len request_id s)

abbrev pub pending : StubIoSubsystem → List Ident
pending s = map ident_of s.completions

pub added-TakesOn :
    (q : Request) (s : StubIoSubsystem)
    → TakesOn pending s
        (ident q)
        (some (ok tt, record { completions = s.completions ++ full q ∷ [] }))
added-TakesOn q s = (
  (ok tt, record { completions = s.completions ++ full q ∷ [] }),
  refl,
  λ issued.
      ap (λ (l : List Ident). l ++ issued) (map-append ident_of s.completions (full q ∷ []))
      ∙ append_assoc (pending s) (ident q ∷ []) issued,
)

pub read_issues :
    (p : Profile) (q : Request) (s : StubIoSubsystem)
    → TakesOn pending s (ident q) (with_request (total submit_read_fixed) p q s)
unfolding submit_read_fixed
read_issues p q s = added-TakesOn q s

pub write_issues :
    (p : Profile) (q : Request) (s : StubIoSubsystem)
    → TakesOn pending s (ident q) (with_request (total submit_write_fixed) p q s)
unfolding submit_write_fixed
write_issues p q s = added-TakesOn q s

pub register_kept :
    (buffer_index : ℕ) (buf : ℕ × ℕ) (s : StubIoSubsystem)
    → pending (register_fixed_buffer buffer_index buf s).1 ≡ pending s
unfolding register_fixed_buffer
register_kept buffer_index buf s = refl

pub poll_exact :
    (s : StubIoSubsystem)
    → Perm (map ident_of (poll_completions s).0 ++ pending (poll_completions s).1) (pending s)
unfolding poll_completions
poll_exact s =
    subst (λ (l : List Ident). Perm l (pending s)) (sym (append-nil (pending s))) (Perm.refl _)

-- `impl IoSubsystem for StubIoSubsystem`
abbrev pub stub : IoSubsystem
stub = record {
  State = StubIoSubsystem;
  register_fixed_buffer = register_fixed_buffer;
  submit_read_fixed = total submit_read_fixed;
  submit_write_fixed = total submit_write_fixed;
  poll_completions = poll_completions;
  pending = pending;
  register_kept = register_kept;
  read_issues = λ p q s h. read_issues p q s;
  write_issues = λ p q s h. write_issues p q s;
  poll_exact = poll_exact;
}

-- The completions of the requests, in order.
abbrev pub asked : List IoCall → List IoCompletion
asked [] = []
asked (register buffer_index buf ∷ calls) = asked calls
asked (request q ∷ calls) = full q ∷ asked calls
asked (poll ∷ calls) = asked calls

submit_fixed-stub :
    (p : Profile) (q : Request) (s : StubIoSubsystem)
    → submit_fixed stub p q s ≡ some (ok tt, record { completions = s.completions ++ full q ∷ [] })
unfolding submit_fixed submit_read_fixed submit_write_fixed
submit_fixed-stub p q s = ground arith

-- For any calls, numbers that fit no field of a user data included: the stub does not panic, and what the
-- polls returned and then what is still in it is just what was in it at first and then one completion for
-- each request, in the order of the requests. A completion reports a whole transfer where `len` is below
-- 2 ^ 31, and from there on, `len as i32` being negative, the number `len - 2 ^ 32`.
pub run_in_order :
    (p : Profile) (calls : List IoCall) (s : StubIoSubsystem)
    → (log : Log StubIoSubsystem) × (run stub p calls s ≡ some log)
      × (log.completions ++ log.subsystem.completions ≡ s.completions ++ asked calls)
      × ((q : Request) → IsReported q (full q))
unfolding run register_fixed_buffer poll_completions
run_in_order p [] s = (
  record { issued = []; completions = []; subsystem = s },
  refl,
  sym (append-nil s.completions),
  full-IsReported,
)
run_in_order p (register buffer_index buf ∷ calls) s = run_in_order p calls s
run_in_order p (request q ∷ calls) s =
    let (log, rest, same, reported) =
      run_in_order p calls (record { completions = s.completions ++ full q ∷ [] }) in
    (
      record log { issued = ident q ∷ log.issued },
      rw (submit_fixed-stub p q s, rest),
      same ∙ append_assoc s.completions (full q ∷ []) (asked calls),
      full-IsReported,
    )
run_in_order p (poll ∷ calls) s =
    let (log, rest, same, reported) = run_in_order p calls (record { completions = [] }) in
    (
      record log { completions = s.completions ++ log.completions },
      rw rest,
      append_assoc s.completions log.completions log.subsystem.completions
          ∙ ap (λ (l : List IoCompletion). s.completions ++ l) same,
      full-IsReported,
    )
