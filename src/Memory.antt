-- ===== src/Memory.antt =====
-- chronos-mem/src/guarded_memory.rs: the region of a tenant's memory with its guard page.
-- An address is a number. The kernel's calls are a parameter (HostMemory.antt), and a host is passed
-- through `new` and `drop`. What the mapping holds is a function of the offset from `base`.
-- Sums of `u32` numbers and the products by `PAGE_SIZE` are taken in 64 bits, where they fit.
pub mod Bounds
pub mod Layout
pub mod Pages
mod Examples
use chronos_uvm.Prelude.{
  ℕ, zero, suc, ◌+◌, ◌-◌, ◌*◌, ◌/◌, ◌%◌, Option, none, some, List, [], ◌∷◌, ltb, leb, if◌then◌else◌,
  Profile, ◌>>=◌, ◌>>◌, debug_assert, u64, u32,
}
use chronos_uvm.Prelude.Result.{Result, ok, err}
use chronos_uvm.Page.{page_size}
use chronos_uvm.HostMemory.{HostMemory}
use chronos_uvm.Dirty
use chronos_uvm.Dirty.{DirtyPageSet}

pub data MemFault : Type 0 where
  out_of_bounds : ℕ → ℕ → ℕ → MemFault
  quota_exceeded : ℕ → ℕ → MemFault
  mmap_failed : ℕ → MemFault
  mprotect_failed : ℕ → MemFault
  layout_overflow : MemFault

pub record MmapGuardedMemory : Type 0 where
  pub base : ℕ
  pub mapped_len : ℕ
  pub size_bytes : ℕ
  pub quota_bytes : ℕ
  pub dirty : DirtyPageSet

-- `checked_add` and `checked_mul` on a word of `modulus` values, from the exact result.
pub checked : ℕ → ℕ → Option ℕ
checked modulus x = if ltb x modulus then some x else none

module _ (p : Profile) (M : HostMemory) where
  open M use {Host, mmap, mprotect, munmap}

  -- What follows `mprotect`: its answer, and the host after it.
  pub guarded :
      ℕ
      → ℕ
      → ℕ
      → ℕ
      → ℕ
      → Result ℕ (Unit {0}) × Host
      → Option (Result MemFault MmapGuardedMemory × Host)
  guarded initial_bytes quota_bytes quota_rounded mapped_len addr (err e, h) =
      some (err (mprotect_failed e), munmap addr mapped_len h)
  guarded initial_bytes quota_bytes quota_rounded mapped_len addr (ok u, h) = do
    dirty ← Dirty.new p (quota_rounded / page_size)
    some (
      ok (record {
        base = addr;
        mapped_len = mapped_len;
        size_bytes = initial_bytes;
        quota_bytes = quota_bytes;
        dirty = dirty;
      }),
      h,
    )

  -- What follows `mmap`.
  pub map_region :
      ℕ → ℕ → ℕ → ℕ → Result ℕ ℕ × Host → Option (Result MemFault MmapGuardedMemory × Host)
  unfolding guarded
  map_region initial_bytes quota_bytes quota_rounded mapped_len (err e, h) =
      some (err (mmap_failed e), h)
  map_region initial_bytes quota_bytes quota_rounded mapped_len (ok addr, h) =
      guarded initial_bytes quota_bytes quota_rounded mapped_len addr
        (mprotect (addr + quota_rounded) page_size h)

  pub lay_out : ℕ → ℕ → ℕ → Host → Option (Result MemFault MmapGuardedMemory × Host)
  unfolding checked map_region
  lay_out initial_bytes quota_bytes quota_pages h = elim (checked u64 (quota_pages * page_size)) [
    | none ↦ some (err layout_overflow, h)
    | some quota_rounded ↦ elim (checked u64 (quota_rounded + page_size)) [
      | none ↦ some (err layout_overflow, h)
      | some mapped_len ↦
          map_region initial_bytes quota_bytes quota_rounded mapped_len (mmap mapped_len h)
    ]
  ]

  unfoldable pub new : ℕ → ℕ → Host → Option (Result MemFault MmapGuardedMemory × Host)
  unfolding lay_out
  new initial_bytes quota_bytes h =
      if ltb quota_bytes initial_bytes
      then some (err (quota_exceeded initial_bytes quota_bytes), h)
      else lay_out initial_bytes quota_bytes ((quota_bytes + page_size - 1) / page_size) h

-- `Drop::drop`
pub drop : (M : HostMemory) → MmapGuardedMemory → M.Host → M.Host
drop M m h = M.munmap m.base m.mapped_len h

pub translate : ℕ → ℕ → MmapGuardedMemory → Result MemFault ℕ
unfolding checked
translate guest_ptr len m = elim (checked u32 (guest_ptr + len)) [
  | none ↦ err (out_of_bounds guest_ptr len m.size_bytes)
  | some end ↦
      if ltb m.size_bytes end
      then err (out_of_bounds guest_ptr len m.size_bytes)
      else ok (m.base + guest_ptr)
]

pub grow : ℕ → MmapGuardedMemory → Result MemFault ℕ × MmapGuardedMemory
grow delta_pages m =
    let new_size = m.size_bytes + delta_pages * page_size in
    if ltb m.quota_bytes new_size
    then (err (quota_exceeded (new_size % u32) m.quota_bytes), m)
    else (ok (m.size_bytes / page_size), record m { size_bytes = new_size % u32 })

pub mark_dirty : Profile → ℕ → MmapGuardedMemory → Option MmapGuardedMemory
mark_dirty p page_idx m = do
  dirty ← Dirty.mark p page_idx m.dirty
  some (record m { dirty = dirty })

-- The `n` bytes from an offset on.
pub slice : (ℕ → ℕ) → ℕ → ℕ → List ℕ
slice held offset zero = []
slice held offset (suc n) = held offset ∷ slice held (offset + 1) n

unfoldable pub page_bytes : Profile → (ℕ → ℕ) → ℕ → MmapGuardedMemory → Option (List ℕ)
unfolding slice
page_bytes p held page_idx m = do
  let offset = page_idx * page_size
  debug_assert p (leb (offset + page_size) m.size_bytes)
  some (slice held offset page_size)
