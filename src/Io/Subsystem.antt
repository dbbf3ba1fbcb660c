-- ===== src/Io/Subsystem.antt =====
-- The trait `IoSubsystem`, which the supervisor programs against, as an interface: its methods, and what
-- each implementation promises of the requests. A buffer is its address and its length; `none` is a panic.
use mathlib.Core.List.{Perm, map-append, append_assoc, append-nil}
use mathlib.Core.List.Perm
use mathlib.Core.Path.{subst}
use chronos_uvm.Prelude.{
  ℕ, ◌^◌, ◌<◌, ◌≡◌, refl, sym, ap, ◌∙◌, Bool, true, false, Option, some, List, [], ◌∷◌, ◌++◌, map,
  Profile, ◌>>=◌,
}
use chronos_uvm.Prelude.Result.{Result, err}
use chronos_uvm.Io.{IoError, submission_queue_full, IoCompletion}

-- Who asked, of which descriptor, under which number.
abbrev pub Ident : Type 0
Ident = ℕ × ℕ × ℕ

abbrev pub ident_of : IoCompletion → Ident
ident_of c = (c.cell, c.guest_fd, c.request_id)

-- The arguments of a submission.
pub record Request : Type 0 where
  pub write : Bool
  pub cell : ℕ
  pub guest_fd : ℕ
  pub host_fd : ℕ
  pub buffer_index : ℕ
  pub offset : ℕ
  pub len : ℕ
  pub request_id : ℕ

abbrev pub ident : Request → Ident
ident q = (q.cell, q.guest_fd, q.request_id)

-- The numbers have the widths of the user data of an entry.
abbrev pub IsRequest : Request → Type 0
IsRequest q = (q.cell < 2 ^ 24) × (q.guest_fd < 2 ^ 20) × (q.request_id < 2 ^ 20)

-- The requests that were taken on: all but those that found the queue full. One whose `submit` failed
-- is in the queue.
abbrev pub issued_by : Result IoError (Unit {0}) → Ident → List Ident → List Ident
issued_by (err submission_queue_full) i issued = issued
issued_by _ i issued = i ∷ issued

-- A submission does not panic, and adds its request to those that are pending.
abbrev pub TakesOn :
    {S : Type 0} → (S → List Ident) → S → Ident → Option (Result IoError (Unit {0}) × S) → Type 0
TakesOn {S} pending s i o =
    (x : Result IoError (Unit {0}) × S) × (o ≡ some x)
    × ((issued : List Ident) → pending x.1 ++ issued ≡ pending s ++ issued_by x.0 i issued)

abbrev pub Submit : Type 0 → Type 0
Submit S =
    Profile
    → (cell guest_fd host_fd buffer_index offset len request_id : ℕ) → S
    → Option (Result IoError (Unit {0}) × S)

abbrev pub with_request :
    {S : Type 0} → Submit S → Profile → Request → S → Option (Result IoError (Unit {0}) × S)
with_request submit p q s =
    submit p q.cell q.guest_fd q.host_fd q.buffer_index q.offset q.len q.request_id s

pub record IoSubsystem : Type 1 where
  pub State : Type 0
  pub register_fixed_buffer : ℕ → ℕ × ℕ → State → Result IoError (Unit {0}) × State
  pub submit_read_fixed : Submit State
  pub submit_write_fixed : Submit State
  pub poll_completions : State → List IoCompletion × State
  -- the requests that were taken on and have not been completed
  pub pending : State → List Ident
  pub register_kept :
      (buffer_index : ℕ) (buf : ℕ × ℕ) (s : State)
      → pending (register_fixed_buffer buffer_index buf s).1 ≡ pending s
  pub read_issues :
      (p : Profile) (q : Request) (s : State)
      → IsRequest q
      → TakesOn pending s (ident q) (with_request submit_read_fixed p q s)
  pub write_issues :
      (p : Profile) (q : Request) (s : State)
      → IsRequest q
      → TakesOn pending s (ident q) (with_request submit_write_fixed p q s)
  -- completions are of pending requests, each once, in any order
  pub poll_exact :
      (s : State)
      → Perm (map ident_of (poll_completions s).0 ++ pending (poll_completions s).1) (pending s)

pub data IoCall : Type 0 where
  register : ℕ → ℕ × ℕ → IoCall
  request : Request → IoCall
  poll : IoCall

abbrev pub AreRequests : List IoCall → Type 0
AreRequests [] = Unit
AreRequests (register buffer_index buf ∷ calls) = AreRequests calls
AreRequests (request q ∷ calls) = IsRequest q × AreRequests calls
AreRequests (poll ∷ calls) = AreRequests calls

pub record Log (S : Type 0) : Type 0 where
  pub issued : List Ident
  pub completions : List IoCompletion
  pub subsystem : S

-- What is taken out at a poll, and what is completed later, together.
taken :
    (before after issued done later left all : List Ident)
    → all ≡ done ++ later
    → Perm (done ++ after) before
    → Perm (after ++ issued) (later ++ left)
    → Perm (before ++ issued) (all ++ left)
taken before after issued done later left all split here rest =
    subst (λ (l : List Ident). Perm (before ++ issued) l)
      (sym (append_assoc done later left) ∙ ap (λ (l : List Ident). l ++ left) (sym split))
      (Perm.trans
        (subst (λ (l : List Ident). Perm (before ++ issued) l) (append_assoc done after issued)
          (Perm.append_right issued (Perm.symm here)))
        (Perm.append_left done rest))

module _ (S : IoSubsystem) where
  open S use {
    State, pending, register_fixed_buffer, submit_read_fixed, submit_write_fixed, poll_completions,
  }

  unfoldable pub submit_fixed :
      Profile → Request → State → Option (Result IoError (Unit {0}) × State)
  submit_fixed p q s = elim q.write [
    | false ↦ with_request submit_read_fixed p q s
    | true ↦ with_request submit_write_fixed p q s
  ]

  -- Calls of the trait in order.
  unfoldable pub run : Profile → List IoCall → State → Option (Log State)
  unfolding submit_fixed
  run p [] s = some (record { issued = []; completions = []; subsystem = s })
  run p (register buffer_index buf ∷ calls) s =
      run p calls (register_fixed_buffer buffer_index buf s).1
  run p (request q ∷ calls) s = do
    (answer, s) ← submit_fixed p q s
    log ← run p calls s
    some (record log { issued = issued_by answer (ident q) log.issued })
  run p (poll ∷ calls) s = do
    log ← run p calls (poll_completions s).1
    some (record log { completions = (poll_completions s).0 ++ log.completions })

  -- What was pending at first and what was taken on since is, up to order, what was completed and what
  -- is still pending.
  abbrev pub Accounted : State → Option (Log State) → Type 0
  Accounted s o =
      (log : Log State) × (o ≡ some log)
      × Perm (pending s ++ log.issued) (map ident_of log.completions ++ pending log.subsystem)

  submit_fixed_lem :
      (p : Profile) (q : Request) (s : State)
      → IsRequest q
      → TakesOn pending s (ident q) (submit_fixed p q s)
  unfolding submit_fixed
  submit_fixed_lem p q s h =
      elim q.write
        as (λ w. TakesOn pending s (ident q) (elim w [
          | false ↦ with_request submit_read_fixed p q s
          | true ↦ with_request submit_write_fixed p q s
        ])) [ false ↦ S.read_issues p q s h | true ↦ S.write_issues p q s h ]

  pub run_all_exact :
      (p : Profile) (calls : List IoCall) (s : State)
      → AreRequests calls
      → Accounted s (run p calls s)
  unfolding run
  run_all_exact p [] s h = (
    record { issued = []; completions = []; subsystem = s },
    refl,
    subst (λ (l : List Ident). Perm l (pending s)) (sym (append-nil (pending s))) (Perm.refl _),
  )
  run_all_exact p (register buffer_index buf ∷ calls) s h =
      let (log, rest, perm) =
        run_all_exact p calls (register_fixed_buffer buffer_index buf s).1 h in
      (
        log,
        rest,
        subst
            (λ (l : List Ident).
              Perm (l ++ log.issued) (map ident_of log.completions ++ pending log.subsystem))
            (S.register_kept buffer_index buf s) perm,
      )
  run_all_exact p (request q ∷ calls) s (h, hs) =
      let ((answer, s₁), done, issues) = submit_fixed_lem p q s h in
      let (log, rest, perm) = run_all_exact p calls s₁ hs in
      (
        record log { issued = issued_by answer (ident q) log.issued },
        rw (done, rest),
        subst (λ (l : List Ident). Perm l (map ident_of log.completions ++ pending log.subsystem))
            (issues log.issued) perm,
      )
  run_all_exact p (poll ∷ calls) s h =
      let s₁ : State = (poll_completions s).1 in
      let done : List IoCompletion = (poll_completions s).0 in
      let (log, rest, perm) = run_all_exact p calls s₁ h in
      (
        record log { completions = done ++ log.completions },
        rw rest,
        taken (pending s) (pending s₁) log.issued (map ident_of done) (map ident_of log.completions)
            (pending log.subsystem) (map ident_of (done ++ log.completions))
            (map-append ident_of done log.completions) (S.poll_exact s) perm,
      )
