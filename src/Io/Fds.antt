-- ===== src/Io/Fds.antt =====
-- The descriptor table of a cell: what a descriptor resolves to, and that none is given out twice.
use chronos_uvm.Prelude.{
  ℕ, ◌+◌, ◌≤◌, ◌<◌, ◌≡◌, ◌≢◌, refl, sym, ap, ◌∙◌, Option, none, some, List, [], ◌∷◌, Profile, ◌>>=◌,
  add_word_fits, u32, ℕ_discrete, arith,
}
use mathlib.Core.Logic.{ite}
use chronos_uvm.Prelude.Result.{Result, ok, err}
use chronos_uvm.Prelude.Maps.{get, insert, get-insert, get-remove}
use chronos_uvm.Io.{IoError, unknown_fd, FdTable, new, register, ok_or, resolve, close}

-- Every descriptor in the table is above the three reserved ones and below the next one.
pub record IsValid (t : FdTable) : Type 0 where
  pub above : 3 ≤ t.next_guest_fd
  pub given_out : (fd host : ℕ) → resolve fd t ≡ ok host → (3 ≤ fd) × (fd < t.next_guest_fd)

pub new-IsValid : IsValid new
unfolding new resolve ok_or get
new-IsValid = record { above = omega arith; given_out = λ fd host h. ground (arith, h) }

-- What `register` of a host descriptor does: `fd` was free, and nothing else changes.
pub record Registered (host_fd : ℕ) (t : FdTable) (fd : ℕ) (t' : FdTable) : Type 0 where
  pub valid : IsValid t'
  pub next : (fd ≡ t.next_guest_fd) × (t'.next_guest_fd ≡ fd + 1)
  pub free : resolve fd t ≡ err (unknown_fd fd)
  pub bound : resolve fd t' ≡ ok host_fd
  pub others : (j : ℕ) → fd ≢ j → resolve j t' ≡ resolve j t

unbound :
    (o : Option ℕ) (fd : ℕ) → ((host : ℕ) → ok_or fd o ≢ ok host) → ok_or fd o ≡ err (unknown_fd fd)
unfolding ok_or
unbound none fd h = refl
unbound (some host) fd h = absurd (h host refl)

module _ (fd host : ℕ) (t : FdTable) where
  abbrev with_entry : ℕ → FdTable
  with_entry next = record { entries = insert ℕ_discrete fd host t.entries; next_guest_fd = next }

  resolve_other : (next j : ℕ) → fd ≢ j → resolve j (with_entry next) ≡ resolve j t
  unfolding resolve
  resolve_other next j n =
      ap (ok_or j) (get-insert ℕ_discrete fd j host t.entries ∙ step (ℕ_discrete fd j))
    where
      step :
          (d : Dec (fd ≡ j))
          → ite d (some host) (get ℕ_discrete j t.entries) ≡ get ℕ_discrete j t.entries
      step (yes e) = absurd (n e)
      step (no _) = refl

  resolve_own : (next : ℕ) → resolve fd (with_entry next) ≡ ok host
  unfolding resolve ok_or
  resolve_own next =
      ap (ok_or fd) (get-insert ℕ_discrete fd fd host t.entries ∙ step (ℕ_discrete fd fd))
    where
      step : (d : Dec (fd ≡ fd)) → ite d (some host) (get ℕ_discrete fd t.entries) ≡ some host
      step (yes _) = refl
      step (no n) = absurd (n refl)

  with_entry-IsValid : IsValid t → fd ≡ t.next_guest_fd → IsValid (with_entry (fd + 1))
  with_entry-IsValid v e = record {
    above = omega (arith, v.above);
    given_out = λ j h r. split j h r (ℕ_discrete fd j);
  }
    where
      split :
          (j h : ℕ) → resolve j (with_entry (fd + 1)) ≡ ok h → Dec (fd ≡ j) → (3 ≤ j) × (j < fd + 1)
      split j h r (yes same) = (omega (arith, v.above), omega arith)
      split j h r (no n) =
          let (low, high) = v.given_out j h (sym (resolve_other (fd + 1) j n) ∙ r) in
          (low, omega arith)

-- While descriptors are left, `register` does not panic: it returns the next descriptor, which was
-- unknown before and now resolves to the host's; every other descriptor resolves as it did.
pub register_lem :
    (p : Profile) (host_fd : ℕ) (t : FdTable)
    → IsValid t
    → t.next_guest_fd + 1 < u32
    → (r : ℕ × FdTable) × (register p host_fd t ≡ some r) × Registered host_fd t r.0 r.1
unfolding register resolve
register_lem p host_fd t v room = (
  (t.next_guest_fd, with_entry t.next_guest_fd host_fd t (t.next_guest_fd + 1)),
  rw (add_word_fits p u32 t.next_guest_fd 1 room),
  record {
    valid = with_entry-IsValid t.next_guest_fd host_fd t v refl;
    next = (refl, refl);
    free =
        unbound (get ℕ_discrete t.next_guest_fd t.entries) t.next_guest_fd
          (λ host h. omega (arith, (v.given_out t.next_guest_fd host h).1));
    bound = resolve_own t.next_guest_fd host_fd t (t.next_guest_fd + 1);
    others = λ j n. resolve_other t.next_guest_fd host_fd t (t.next_guest_fd + 1) j n;
  },
)

-- What `close` does.
pub record Closed (fd : ℕ) (t : FdTable) (o : Option ℕ) (t' : FdTable) : Type 0 where
  pub valid : IsValid t'
  pub next : t'.next_guest_fd ≡ t.next_guest_fd
  pub was : ok_or fd o ≡ resolve fd t
  pub gone : resolve fd t' ≡ err (unknown_fd fd)
  pub others : (j : ℕ) → fd ≢ j → resolve j t' ≡ resolve j t

module _ (fd : ℕ) (t : FdTable) where
  close_other : (j : ℕ) → fd ≢ j → resolve j (close fd t).1 ≡ resolve j t
  unfolding resolve close
  close_other j n = ap (ok_or j) (get-remove ℕ_discrete fd j t.entries ∙ step (ℕ_discrete fd j))
    where
      step :
          (d : Dec (fd ≡ j)) → ite d none (get ℕ_discrete j t.entries) ≡ get ℕ_discrete j t.entries
      step (yes e) = absurd (n e)
      step (no _) = refl

  close_own : resolve fd (close fd t).1 ≡ err (unknown_fd fd)
  unfolding resolve close ok_or
  close_own = ap (ok_or fd) (get-remove ℕ_discrete fd fd t.entries ∙ step (ℕ_discrete fd fd))
    where
      step : (d : Dec (fd ≡ fd)) → ite d none (get ℕ_discrete fd t.entries) ≡ none
      step (yes _) = refl
      step (no n) = absurd (n refl)

  close-IsValid : IsValid t → IsValid (close fd t).1
  unfolding close
  close-IsValid v = record { above = v.above; given_out = λ j h r. split j h r (ℕ_discrete fd j) }
    where
      split :
          (j h : ℕ)
          → resolve j (close fd t).1 ≡ ok h
          → Dec (fd ≡ j)
          → (3 ≤ j) × (j < t.next_guest_fd)
      split j h r (yes same) =
          absurd (not_both (resolve j (close fd t).1) (rw (sym same) close_own) r)
        where
          not_both : (x : Result IoError ℕ) → x ≡ err (unknown_fd j) → x ≢ ok h
          not_both x a b = ground (arith, a, b)
      split j h r (no n) = v.given_out j h (sym (close_other j n) ∙ r)

-- Closing any descriptor returns what it resolved to, leaves it unknown, and leaves the others as
-- they were; closing one that is unknown returns nothing.
pub close_lem : (fd : ℕ) (t : FdTable) → IsValid t → Closed fd t (close fd t).0 (close fd t).1
unfolding close resolve ok_or
close_lem fd t v = record {
  valid = close-IsValid fd t v;
  next = refl;
  was = refl;
  gone = close_own fd t;
  others = close_other fd t;
}

-- What a cell does with its table.
pub data FdOp : Type 0 where
  open_fd : ℕ → FdOp
  close_fd : ℕ → FdOp

-- The descriptors given out on the way, in order.
unfoldable pub run : Profile → List FdOp → FdTable → Option (List ℕ × FdTable)
run p [] t = some ([], t)
run p (open_fd host_fd ∷ ops) t = do
  (fd, t) ← register p host_fd t
  (fds, t) ← run p ops t
  some (fd ∷ fds, t)
run p (close_fd fd ∷ ops) t = run p ops (close fd t).1

abbrev pub IsAscendingFrom : ℕ → List ℕ → Type 0
IsAscendingFrom low [] = Unit
IsAscendingFrom low (fd ∷ fds) = (low ≤ fd) × IsAscendingFrom (fd + 1) fds
