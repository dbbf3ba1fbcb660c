-- ===== src/HostMemory.antt =====
-- The address space of the process, which the program changes by `mmap`, `mprotect` and `munmap` only:
-- what it relies on of the kernel, as a parameter. An address is a number, and an OS error its `errno`.
pub mod Bump
use chronos_uvm.Prelude.{
  ℕ, ◌+◌, ◌≤◌, ◌≡◌, ◌⊎◌, true, Bool, false, List, [], ◌∷◌, ◌==◌, ◌&&◌, ◌||◌, if◌then◌else◌, arith,
}
use chronos_uvm.Prelude.Result.{Result, ok, err}

-- An address, and a length in bytes.
abbrev pub Region : Type 0
Region = ℕ × ℕ

-- No byte is in both.
abbrev pub Apart : Region → Region → Type 0
Apart (a, n) (b, k) = (a + n ≤ b) ⊎ (b + k ≤ a)

abbrev pub AreApart : Region → List Region → Type 0
AreApart r [] = Unit
AreApart r (s ∷ regions) = Apart r s × AreApart r regions

abbrev pub same_region : Region → Region → Bool
same_region (a, n) (b, k) = a == b && n == k

abbrev pub is_mapped : Region → List Region → Bool
is_mapped r [] = false
is_mapped r (s ∷ regions) = same_region r s || is_mapped r regions

-- One region taken out.
abbrev pub without : Region → List Region → List Region
without r [] = []
without r (s ∷ regions) =
    let rest = without r regions in if same_region r s then regions else s ∷ rest

pub without-front : (r : Region) (regions : List Region) → without r (r ∷ regions) ≡ regions
without-front (a, n) regions = ground arith

pub record HostMemory : Type 1 where
  pub Host : Type 0
  -- the regions that `mmap` gave out and that are not unmapped, the newest first
  pub mappings : Host → List Region
  pub mmap : ℕ → Host → Result ℕ ℕ × Host
  pub mprotect : ℕ → ℕ → Host → Result ℕ (Unit {0}) × Host
  pub munmap : ℕ → ℕ → Host → Host
  pub mmap_ok :
      (len a : ℕ) (h : Host)
      → (mmap len h).0 ≡ ok a
      → mappings (mmap len h).1 ≡ (a, len) ∷ mappings h
  -- a new mapping overlaps no other
  pub mmap_apart : (len a : ℕ) (h : Host) → (mmap len h).0 ≡ ok a → AreApart (a, len) (mappings h)
  pub mmap_err :
      (len e : ℕ) (h : Host) → (mmap len h).0 ≡ err e → mappings (mmap len h).1 ≡ mappings h
  pub mprotect_kept : (a len : ℕ) (h : Host) → mappings (mprotect a len h).1 ≡ mappings h
  pub munmap_whole :
      (a len : ℕ) (h : Host)
      → is_mapped (a, len) (mappings h) ≡ true
      → mappings (munmap a len h) ≡ without (a, len) (mappings h)
