-- ===== src/LinuxRing/Requests.antt =====
-- The io_uring backend as an implementation of the trait: each request that reached the ring completes
-- at most once, as itself.
use mathlib.Core.List.{Perm, map-append, append_assoc}
use mathlib.Core.List.Perm
use mathlib.Core.Path.{subst}
use chronos_uvm.Prelude.{ℕ, ◌≡◌, refl, sym, ap, ◌∙◌, some, List, [], ◌∷◌, ◌++◌, map, Profile}
use chronos_uvm.Prelude.Result.{Result, ok, err}
use chronos_uvm.IoUring.{IoUring, Entry, Completion, read_fixed, write_fixed}
use chronos_uvm.Io.Subsystem.{
  Ident, ident_of, Request, ident, IsRequest, issued_by, TakesOn, with_request, IoSubsystem, IoCall,
  AreRequests, run, Accounted, run_all_exact,
}
use chronos_uvm.LinuxRing.{
  UringIoSubsystem, unpack_user_data, registered, register_fixed_buffer, submitted, queued,
  submit_read_fixed, submit_write_fixed, delivered, poll_completions,
}
use chronos_uvm.LinuxRing.UserData.{unpack-pack}

module _ (U : IoUring) where
  open U use {Ring, in_flight}

  -- The requests in the ring.
  abbrev pub pending : UringIoSubsystem U → List Ident
  pending s = map unpack_user_data (in_flight s.ring)

  entered :
      (s : UringIoSubsystem U) (user_data : ℕ) (a : Result (List ℕ) ℕ) (ring : Ring)
      (issued : List Ident)
      → in_flight ring ≡ in_flight s.ring ++ user_data ∷ []
      → pending (submitted U s (a, ring)).1 ++ issued
        ≡ pending s ++ issued_by (submitted U s (a, ring)).0 (unpack_user_data user_data) issued
  unfolding submitted
  entered s user_data (err e) ring issued h = in_order h
    where
      in_order :
          in_flight ring ≡ in_flight s.ring ++ user_data ∷ []
          → map unpack_user_data (in_flight ring) ++ issued
            ≡ pending s ++ unpack_user_data user_data ∷ issued
      in_order h =
          rw (h, map-append) (append_assoc (pending s) (unpack_user_data user_data ∷ []) issued)
  entered s user_data (ok n) ring issued h =
      rw (h, map-append) (append_assoc (pending s) (unpack_user_data user_data ∷ []) issued)

  -- An entry goes into the ring unless the queue is full.
  pending-queued :
      (s : UringIoSubsystem U) (e : Entry) (a : Result (Unit {0}) (Unit {0})) (ring : Ring)
      (issued : List Ident)
      → U.push e s.ring ≡ (a, ring)
      → pending (queued U s (a, ring)).1 ++ issued
        ≡ pending s ++ issued_by (queued U s (a, ring)).0 (unpack_user_data e.user_data) issued
  unfolding queued
  pending-queued s e (err u) ring issued h =
      ap (λ (l : List ℕ). map unpack_user_data l ++ issued)
        (ap (λ x. in_flight x.1) (sym h) ∙ U.push_full e s.ring (ap (λ x. x.0) h))
  pending-queued s e (ok u) ring issued h =
      entered s e.user_data (U.submit ring).0 (U.submit ring).1 issued (
        U.submit_kept ring ∙ ap (λ x. in_flight x.1) (sym h) ∙ U.push_ok e s.ring (ap (λ x. x.0) h))

  -- A registration adds no entry.
  pending-registered :
      (buffer_index len : ℕ) (s : UringIoSubsystem U) (a : Result (List ℕ) (Unit {0})) (ring : Ring)
      → in_flight ring ≡ in_flight s.ring
      → pending (registered U buffer_index len s (a, ring)).1 ≡ pending s
  unfolding registered
  pending-registered buffer_index len s (err e) ring h = ap (map unpack_user_data) h
  pending-registered buffer_index len s (ok u) ring h = ap (map unpack_user_data) h

  pub register_kept :
      (buffer_index : ℕ) (buf : ℕ × ℕ) (s : UringIoSubsystem U)
      → pending (register_fixed_buffer U buffer_index buf s).1 ≡ pending s
  unfolding register_fixed_buffer
  register_kept buffer_index (base, len) s =
      let x = U.register_buffers ((base, len) ∷ []) s.ring in
      pending-registered buffer_index len s x.0 x.1
        (U.register_buffers_kept ((base, len) ∷ []) s.ring)

  -- A request in range goes to the ring under its own three numbers.
  queued-TakesOn :
      (q : Request) (s : UringIoSubsystem U) (e : Entry)
      → unpack_user_data e.user_data ≡ ident q
      → TakesOn pending s (ident q) (some (queued U s (U.push e s.ring)))
  queued-TakesOn q s e unpacks = (
    queued U s (U.push e s.ring),
    refl,
    λ issued.
        pending-queued s e (U.push e s.ring).0 (U.push e s.ring).1 issued refl
        ∙ ap (λ (i : Ident). pending s ++ issued_by (queued U s (U.push e s.ring)).0 i issued)
            unpacks,
  )

  pub read_issues :
      (p : Profile) (q : Request) (s : UringIoSubsystem U)
      → IsRequest q
      → TakesOn pending s (ident q) (with_request (submit_read_fixed U) p q s)
  unfolding submit_read_fixed
  read_issues p q s (c, g, i) =
      let (bits, packs, _, unpacks) = unpack-pack p q.cell q.guest_fd q.request_id c g i in
      rw packs (
        queued-TakesOn q s
          (record {
            opcode = read_fixed;
            fd = q.host_fd;
            len = q.len;
            buf_index = q.buffer_index;
            offset = q.offset;
            user_data = bits;
          })
          unpacks)

  pub write_issues :
      (p : Profile) (q : Request) (s : UringIoSubsystem U)
      → IsRequest q
      → TakesOn pending s (ident q) (with_request (submit_write_fixed U) p q s)
  unfolding submit_write_fixed
  write_issues p q s (c, g, i) =
      let (bits, packs, _, unpacks) = unpack-pack p q.cell q.guest_fd q.request_id c g i in
      rw packs (
        queued-TakesOn q s
          (record {
            opcode = write_fixed;
            fd = q.host_fd;
            len = q.len;
            buf_index = q.buffer_index;
            offset = q.offset;
            user_data = bits;
          })
          unpacks)

  map-delivered :
      (cqes : List Completion)
      → map ident_of (delivered U cqes)
        ≡ map unpack_user_data (map (λ (c : Completion). c.user_data) cqes)
  unfolding delivered
  map-delivered [] = refl
  map-delivered (cqe ∷ cqes) = ap (λ t. unpack_user_data cqe.user_data ∷ t) (map-delivered cqes)

  -- What a poll takes out of the ring.
  pub pending-poll :
      (s : UringIoSubsystem U)
      → Perm (map ident_of (poll_completions U s).0 ++ pending (poll_completions U s).1) (pending s)
  unfolding poll_completions
  pending-poll s =
      subst (λ (l : List Ident). Perm l (pending s))
        (map-append unpack_user_data
            (map (λ (c : Completion). c.user_data) (U.completions s.ring).0)
            (in_flight (U.completions s.ring).1)
          ∙ ap (λ (l : List Ident). l ++ map unpack_user_data (in_flight (U.completions s.ring).1))
              (sym (map-delivered (U.completions s.ring).0)))
        (Perm.map unpack_user_data (U.completed s.ring))

  -- `impl IoSubsystem for UringIoSubsystem`
  abbrev pub uring : IoSubsystem
  uring = record {
    State = UringIoSubsystem U;
    register_fixed_buffer = register_fixed_buffer U;
    submit_read_fixed = submit_read_fixed U;
    submit_write_fixed = submit_write_fixed U;
    poll_completions = poll_completions U;
    pending = pending;
    register_kept = register_kept;
    read_issues = read_issues;
    write_issues = write_issues;
    poll_exact = pending-poll;
  }

  -- For requests whose numbers fit their fields, interleaved with registrations and polls in any way, and
  -- whatever the kernel refuses, fails or reorders: nothing panics, and the requests in the ring at first
  -- and those that reached it since are, up to order, those that were completed and those still in the
  -- ring. So each completes at most once, and under its own cell, descriptor and number.
  pub run_exact :
      (p : Profile) (calls : List IoCall) (s : UringIoSubsystem U)
      → AreRequests calls
      → Accounted uring s (run uring p calls s)
  run_exact = run_all_exact uring
