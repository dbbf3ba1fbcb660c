-- ===== src/Memory/Layout.antt =====
-- The layout that `new` makes.
use chronos_uvm.Prelude.{
  ◌∷◌, Option, sym, ℕ, ◌+◌, ◌-◌, ◌*◌, ◌/◌, ◌≤◌, ◌<◌, ◌≡◌, refl, ap, ◌∙◌, some, ltb, lt→ltb, false,
  Profile, u64, u32, arith, dec_lt,
}
use chronos_uvm.Prelude.Result.{Result, ok, err}
use chronos_uvm.Page.{page_size}
use chronos_uvm.Dirty.Resets.{Cleared, new-Cleared}
use chronos_uvm.Memory.{
  MemFault, out_of_bounds, quota_exceeded, mmap_failed, mprotect_failed, layout_overflow,
  MmapGuardedMemory, checked, guarded, map_region, drop, lay_out, new,
}
use chronos_uvm.Memory.Bounds.{IsValid}
use chronos_uvm.HostMemory.{Region, AreApart, is_mapped, without, without-front, HostMemory}

-- The quota in whole pages, as bytes.
abbrev pub rounded : ℕ → ℕ
rounded quota_bytes = (quota_bytes + page_size - 1) / page_size * page_size

-- What a memory has mapped.
abbrev pub region_of : MmapGuardedMemory → Region
region_of m = (m.base, m.mapped_len)

module _ (p : Profile) (M : HostMemory) where
  open M use {Host, mappings, mmap, mprotect, munmap}

  -- A memory made of a new mapping with its last page protected.
  pub record Made (initial_bytes quota_bytes : ℕ) (h : Host) (m : MmapGuardedMemory) (h' : Host)
      : Type 0 where
    pub valid : IsValid m
    pub sizes : (m.size_bytes ≡ initial_bytes) × (m.quota_bytes ≡ quota_bytes)
    pub mapped : mappings h' ≡ region_of m ∷ mappings h
    pub apart : AreApart (region_of m) (mappings h)
    pub guard_page :
        (mprotect (m.base + m.mapped_len - page_size) page_size (mmap m.mapped_len h).1).0 ≡ ok tt
    pub length : m.mapped_len ≡ rounded quota_bytes + page_size
    -- and a drop then gives the mapping back
    pub dropped : mappings (drop M m h') ≡ mappings h
    pub clean : Cleared (rounded quota_bytes / page_size) m.dirty

  -- What each fault of `new` means; none leaves a mapping behind.
  abbrev pub Refused : ℕ → ℕ → Host → MemFault → Type 0
  Refused initial quota h (quota_exceeded r q) = (quota < initial) × (r ≡ initial) × (q ≡ quota)
  Refused initial quota h (mmap_failed e) =
      (initial ≤ quota) × ((mmap (rounded quota + page_size) h).0 ≡ err e)
  Refused initial quota h (mprotect_failed e) =
      (initial ≤ quota)
      × (a : ℕ) × ((mmap (rounded quota + page_size) h).0 ≡ ok a)
      × ((mprotect (a + rounded quota) page_size (mmap (rounded quota + page_size) h).1).0 ≡ err e)
  Refused initial quota h (out_of_bounds ptr len size) = ⊥
  Refused initial quota h layout_overflow = ⊥

  abbrev pub Outcome : ℕ → ℕ → Host → Result MemFault MmapGuardedMemory → Host → Type 0
  Outcome initial quota h (ok m) h' = Made initial quota h m h'
  Outcome initial quota h (err e) h' = Refused initial quota h e × (mappings h' ≡ mappings h)

  abbrev pub Builds : ℕ → ℕ → Host → Option (Result MemFault MmapGuardedMemory × Host) → Type 0
  Builds initial quota h o =
      (x : Result MemFault MmapGuardedMemory × Host) × (o ≡ some x)
      × Outcome initial quota h x.0 x.1

  -- A mapping that is given back leaves those that were there before it.
  munmap-front :
      (r : Region) (h h' : Host)
      → mappings h' ≡ r ∷ mappings h
      → mappings (munmap r.0 r.1 h') ≡ mappings h
  munmap-front r h h' grown =
      M.munmap_whole r.0 r.1 h' (ap (is_mapped r) grown ∙ ground arith)
      ∙ ap (without r) grown
      ∙ without-front r (mappings h)

  -- A protection changes no mapping.
  protected-mappings :
      (at len addr : ℕ) (h : Host) (answer : Result ℕ (Unit {0})) (h' : Host)
      → (mmap len h).0 ≡ ok addr
      → mprotect at page_size (mmap len h).1 ≡ (answer, h')
      → mappings h' ≡ (addr, len) ∷ mappings h
  protected-mappings at len addr h answer h' mapped done =
      ap (λ (x : Result ℕ (Unit {0}) × Host). mappings x.1) (sym done)
      ∙ M.mprotect_kept at page_size (mmap len h).1
      ∙ M.mmap_ok len addr h mapped

  before_guard : (a b : ℕ) → a + (b + page_size) - page_size ≡ a + b
  before_guard a b = omega arith

  guarded_lem :
      (initial quota addr : ℕ) (h : Host)
      → initial ≤ quota
      → quota < u32
      → (mmap (rounded quota + page_size) h).0 ≡ ok addr
      → (x : Result ℕ (Unit {0}) × Host)
      → mprotect (addr + rounded quota) page_size (mmap (rounded quota + page_size) h).1 ≡ x
      → Builds initial quota h
          (guarded p M initial quota (rounded quota) (rounded quota + page_size) addr x)
  unfolding guarded drop
  guarded_lem initial quota addr h le fits mapped (err e, h') refused =
      let len = rounded quota + page_size in
      (
        (err (mprotect_failed e), munmap addr len h'),
        refl,
        (
          (le, addr, mapped, ap (λ (x : Result ℕ (Unit {0}) × Host). x.0) refused),
          munmap-front (addr, len) h h'
              (protected-mappings (addr + rounded quota) len addr h (err e) h' mapped refused),
        ),
      )
  guarded_lem initial quota addr h le fits mapped (ok u, h') done =
      let len = rounded quota + page_size in
      let grown = protected-mappings (addr + rounded quota) len addr h (ok u) h' mapped done in
      let (dirty, made, clean) = new-Cleared p (rounded quota / page_size) (omega (arith, fits)) in
      (
        (
          ok (record {
            base = addr;
            mapped_len = len;
            size_bytes = initial;
            quota_bytes = quota;
            dirty = dirty;
          }),
          h',
        ),
        rw made,
        record {
          valid = record { quota_fits = fits; size_le = le; guarded = omega arith };
          sizes = (refl, refl);
          mapped = grown;
          apart = M.mmap_apart len addr h mapped;
          guard_page =
              ap (λ a. (mprotect a page_size (mmap len h).1).0) (before_guard addr (rounded quota))
              ∙ ap (λ (x : Result ℕ (Unit {0}) × Host). x.0) done;
          length = refl;
          dropped = munmap-front (addr, len) h h' grown;
          clean = clean;
        },
      )

  map_region_lem :
      (initial quota : ℕ) (h : Host)
      → initial ≤ quota
      → quota < u32
      → (x : Result ℕ ℕ × Host) → mmap (rounded quota + page_size) h ≡ x
      → Builds initial quota h
          (map_region p M initial quota (rounded quota) (rounded quota + page_size) x)
  unfolding map_region
  map_region_lem initial quota h le fits (err e, h') refused =
      let answer = ap (λ (x : Result ℕ ℕ × Host). x.0) refused in
      (
        (err (mmap_failed e), h'),
        refl,
        (
          (le, answer),
          ap (λ (x : Result ℕ ℕ × Host). mappings x.1) (sym refused)
              ∙ M.mmap_err (rounded quota + page_size) e h answer,
        ),
      )
  map_region_lem initial quota h le fits (ok addr, h') done =
      guarded_lem initial quota addr h le fits (ap (λ (x : Result ℕ ℕ × Host). x.0) done)
        (mprotect (addr + rounded quota) page_size h')
        (ap (λ (x : Result ℕ ℕ × Host). mprotect (addr + rounded quota) page_size x.1) done)

  lay_out_fits :
      (initial quota : ℕ) (h : Host)
      → quota < u32
      → lay_out p M initial quota ((quota + page_size - 1) / page_size) h
        ≡ map_region p M initial quota
            (rounded quota)
            (rounded quota + page_size)
            (mmap (rounded quota + page_size) h)
  unfolding lay_out checked
  lay_out_fits initial quota h fits = rw (
    lay_out,
    checked,
    lt→ltb (rounded quota) u64 (omega (arith, fits)),
    lt→ltb (rounded quota + page_size) u64 (omega (arith, fits)),
  )

  -- For any initial size and a `u32` quota, whatever the host answers, `new` does not panic and never overflows its
  -- layout. It refuses an initial size over the quota and passes on the host's error of `mmap` or
  -- of `mprotect`, each only when that is what happened, and leaves the host's mappings as they were;
  -- otherwise it returns a valid memory of the given sizes, with the quota in whole pages mapped apart
  -- from every other mapping, the page after them protected, and a dirty set for as many pages with none
  -- dirty; to drop it gives the mapping back.
  pub new_lem :
      (initial quota : ℕ) (h : Host)
      → quota < u32
      → Builds initial quota h (new p M initial quota h)
  unfolding new
  new_lem initial quota h fits = split (dec_lt quota initial)
    where
      split : Dec (quota < initial) → Builds initial quota h (new p M initial quota h)
      split (yes o) = (
        (err (quota_exceeded initial quota), h),
        rw (lt→ltb quota initial o),
        ((o, refl, refl), refl),
      )
      split (no n) =
          let (x, done, outcome) =
            map_region_lem initial quota h (omega arith) fits (mmap (rounded quota + page_size) h)
              refl in
          (x, rw (not_over n, lay_out_fits initial quota h fits) done, outcome)
        where
          not_over : ¬ (quota < initial) → ltb quota initial ≡ false
          not_over n = ground arith
