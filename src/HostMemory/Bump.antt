-- ===== src/HostMemory/Bump.antt =====
-- A host that maps each region after all the others, and protects nothing from an address on: it meets
-- what `HostMemory` asks.
use chronos_uvm.Prelude.{
  ℕ, ◌+◌, ◌≤◌, ◌≡◌, refl, ap, inr, List, [], ◌∷◌, max, ltb, if◌then◌else◌, arith,
}
use chronos_uvm.Prelude.Result.{Result, ok, err}
use chronos_uvm.HostMemory.{Region, AreApart, without, HostMemory}

abbrev pub top : List Region → ℕ
top [] = 4096
top ((a, n) ∷ regions) = let rest = top regions in max (a + n) rest

top-AreApart : (len t : ℕ) (regions : List Region) → top regions ≤ t → AreApart (t, len) regions
top-AreApart len t [] h = tt
top-AreApart len t ((a, n) ∷ regions) h =
    (inr (omega (arith, h)), top-AreApart len t regions (omega (arith, h)))

pub ok_inj : (a b : ℕ) → ◌≡◌ {A = Result ℕ ℕ} (ok a) (ok b) → a ≡ b
ok_inj a b h = cc

pub not_err : (a e : ℕ) → ◌≡◌ {A = Result ℕ ℕ} (ok a) (err e) → ⊥
not_err a e h = cc

pub mapped_apart :
    (len a : ℕ) (h : List Region) → ◌≡◌ {A = Result ℕ ℕ} (ok (top h)) (ok a) → AreApart (a, len) h
mapped_apart len a h e = let same = ok_inj (top h) a e in top-AreApart len a h (omega (arith, same))

abbrev pub bump : ℕ → HostMemory
bump limit = record {
  Host = List Region;
  mappings = λ h. h;
  mmap = λ len h. (ok (top h), (top h, len) ∷ h);
  mprotect = λ a len h. (if ltb a limit then ok tt else err 12, h);
  munmap = λ a len h. without (a, len) h;
  mmap_ok = λ len a h e. ap (λ t. (t, len) ∷ h) (ok_inj (top h) a e);
  mmap_apart = λ len a h e. mapped_apart len a h e;
  mmap_err = λ len e h r. absurd (not_err (top h) e r);
  mprotect_kept = λ a len h. refl;
  munmap_whole = λ a len h m. refl;
}
