-- ===== src/Io/FdMap.antt =====
-- The descriptor table as a function from descriptors to host descriptors.
use mathlib.Core.Path.{subst}
use chronos_uvm.Prelude.{
  ℕ, ◌+◌, ◌<◌, ◌≡◌, refl, ◌∙◌, Option, none, some, List, [], ◌∷◌, length, Profile, ◌==◌,
  if◌then◌else◌, u32, ℕ_discrete, arith,
}
use chronos_uvm.Prelude.Maps.{get}
use chronos_uvm.Io.{FdTable, ok_or, resolve, close}
use chronos_uvm.Io.Fds.{
  IsValid, Registered, register_lem, Closed, close_lem, FdOp, open_fd, close_fd, run,
  IsAscendingFrom,
}

abbrev pub updated : (ℕ → Option ℕ) → ℕ → Option ℕ → ℕ → Option ℕ
updated f fd o j = if j == fd then o else f j

-- The same calls on a function: a descriptor is bound once, to the next number, until it is closed.
abbrev pub replay : List FdOp → ℕ → (ℕ → Option ℕ) → ℕ → Option ℕ
replay [] next f = f
replay (open_fd host_fd ∷ ops) next f = replay ops (next + 1) (updated f next (some host_fd))
replay (close_fd fd ∷ ops) next f = replay ops next (updated f fd none)

-- The table answers as the function does.
abbrev pub Represents : (ℕ → Option ℕ) → FdTable → Type 0
Represents f t = (j : ℕ) → resolve j t ≡ ok_or j (f j)

Registered-Represents :
    (host_fd fd : ℕ) (t t' : FdTable) (f : ℕ → Option ℕ)
    → Represents f t
    → Registered host_fd t fd t'
    → Represents (updated f t.next_guest_fd (some host_fd)) t'
unfolding ok_or
Registered-Represents host_fd fd t t' f h g j = split (ℕ_discrete fd j)
  where
    split : Dec (fd ≡ j) → resolve j t' ≡ ok_or j (updated f t.next_guest_fd (some host_fd) j)
    split (yes e) =
        subst (λ (i : ℕ). resolve i t' ≡ ok_or i (updated f t.next_guest_fd (some host_fd) i)) e
          (g.bound ∙ ground (arith, g.next.0))
    split (no n) = g.others j n ∙ h j ∙ ground (arith, n, g.next.0)

Closed-Represents :
    (fd : ℕ) (t : FdTable) (f : ℕ → Option ℕ)
    → Represents f t
    → Closed fd t (close fd t).0 (close fd t).1
    → Represents (updated f fd none) (close fd t).1
unfolding ok_or
Closed-Represents fd t f h c j = split (ℕ_discrete fd j)
  where
    split : Dec (fd ≡ j) → resolve j (close fd t).1 ≡ ok_or j (updated f fd none j)
    split (yes e) =
        subst (λ (i : ℕ). resolve i (close fd t).1 ≡ ok_or i (updated f fd none i)) e
          (c.gone ∙ ground arith)
    split (no n) = c.others j n ∙ h j ∙ ground (arith, n)

-- The answers of a run, and what the table then resolves.
abbrev pub Refines : List FdOp → FdTable → (ℕ → Option ℕ) → Option (List ℕ × FdTable) → Type 0
Refines ops t f o =
    (r : List ℕ × FdTable) × (o ≡ some r)
    × IsAscendingFrom t.next_guest_fd r.0
    × IsValid r.1
    × Represents (replay ops t.next_guest_fd f) r.1

run-Refines :
    (p : Profile) (ops : List FdOp) (t : FdTable) (f : ℕ → Option ℕ)
    → IsValid t
    → t.next_guest_fd + length ops < u32
    → Represents f t
    → Refines ops t f (run p ops t)
unfolding run
run-Refines p [] t f v room h = (([], t), refl, tt, v, h)
run-Refines p (open_fd host_fd ∷ ops) t f v room h =
    let ((fd, t₁), done, g) = register_lem p host_fd t v (omega (arith, room)) in
    let next : t₁.next_guest_fd ≡ t.next_guest_fd + 1 = omega (arith, g.next.0, g.next.1) in
    let ((fds, t₂), rest, ascending, valid, same) =
      run-Refines p ops t₁ (updated f t.next_guest_fd (some host_fd)) g.valid
        (omega (arith, room, next)) (Registered-Represents host_fd fd t t₁ f h g) in
    (
      (fd ∷ fds, t₂),
      rw (done, rest),
      (omega (arith, g.next.0), subst (λ n. IsAscendingFrom n fds) g.next.1 ascending),
      valid,
      subst (λ n. Represents (replay ops n (updated f t.next_guest_fd (some host_fd))) t₂) next
          same,
    )
run-Refines p (close_fd fd ∷ ops) t f v room h =
    let c = close_lem fd t v in
    let (r, rest, ascending, valid, same) =
      run-Refines p ops (close fd t).1 (updated f fd none) c.valid (omega (arith, room, c.next))
        (Closed-Represents fd t f h c) in
    (
      r,
      rest,
      subst (λ n. IsAscendingFrom n r.0) c.next ascending,
      valid,
      subst (λ n. Represents (replay ops n (updated f fd none)) r.1) c.next same,
    )

-- Whatever is registered and closed in whatever order, while descriptors are left: nothing panics, each
-- descriptor given out is above all those given out before it, the closed ones included, and in the end
-- the table resolves every descriptor as a function on which the same calls were made, an unknown one to
-- the error that names it.
pub run-replay :
    (p : Profile) (ops : List FdOp) (t : FdTable)
    → IsValid t
    → t.next_guest_fd + length ops < u32
    → Refines ops t (λ j. get ℕ_discrete j t.entries) (run p ops t)
unfolding resolve
run-replay p ops t v room = run-Refines p ops t (λ j. get ℕ_discrete j t.entries) v room (λ j. refl)
