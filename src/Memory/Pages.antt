-- ===== src/Memory/Pages.antt =====
-- The pages that `page_bytes` hands to a checkpoint or a delta.
use chronos_uvm.Prelude.{
  replicate, ◌∷◌, ℕ, zero, suc, ◌+◌, ◌*◌, ◌%◌, ◌≤◌, ◌<◌, ◌≡◌, refl, ap, ◌∙◌, none, some, List,
  length, get_elem?, leb, Profile, debug, debug_assert_holds, arith,
}
use chronos_uvm.Page.{page_size, zero_page}
use chronos_uvm.Memory.{MmapGuardedMemory, slice, page_bytes}

pub length-slice : (held : ℕ → ℕ) (offset n : ℕ) → length (slice held offset n) ≡ n
unfolding slice
length-slice held offset zero = refl
length-slice held offset (suc n) = ap suc (length-slice held (offset + 1) n)

get_elem?-slice :
    (held : ℕ → ℕ) (offset n k : ℕ)
    → k < n
    → get_elem? (slice held offset n) k ≡ some (held (offset + k))
unfolding slice
get_elem?-slice held offset zero k h = elim h [ ]
get_elem?-slice held offset (suc n) zero h = ap (λ a. some (held a)) (omega arith)
get_elem?-slice held offset (suc n) (suc k) h =
    get_elem?-slice held (offset + 1) n k (omega arith) ∙ ap (λ a. some (held a)) (omega arith)

pub page_bytes_whole :
    (p : Profile) (held : ℕ → ℕ) (page_idx : ℕ) (m : MmapGuardedMemory)
    → (page_idx + 1) * page_size ≤ m.size_bytes
    → page_bytes p held page_idx m ≡ some (slice held (page_idx * page_size) page_size)
unfolding page_bytes
page_bytes_whole p held page_idx m h =
    rw (
      debug_assert_holds p (leb (page_idx * page_size + page_size) m.size_bytes)
        (ground (arith, h)))

-- A size of whole pages, as `grow` keeps it.
abbrev pub IsPaged : ℕ → Type 0
IsPaged size = size % page_size ≡ 0

-- Where the size is of whole pages, a page with one byte below it is committed whole.
pub page_bytes_inside :
    (p : Profile) (held : ℕ → ℕ) (page_idx : ℕ) (m : MmapGuardedMemory)
    → IsPaged m.size_bytes
    → page_idx * page_size < m.size_bytes
    → page_bytes p held page_idx m ≡ some (slice held (page_idx * page_size) page_size)
page_bytes_inside p held page_idx m paged inside =
    page_bytes_whole p held page_idx m (omega (arith, paged, inside))

-- What `page_bytes` returns of a page, whole or not.
pub record PageRead (p : Profile) (held : ℕ → ℕ) (page_idx : ℕ) (m : MmapGuardedMemory)
    : Type 0 where
  whole :
      (page_idx + 1) * page_size ≤ m.size_bytes
      → (bytes : List ℕ) × (page_bytes p held page_idx m ≡ some bytes)
        × (length bytes ≡ page_size)
        × ((k : ℕ) → k < page_size → get_elem? bytes k ≡ some (held (page_idx * page_size + k)))
  partial : m.size_bytes < (page_idx + 1) * page_size → page_bytes debug held page_idx m ≡ none

-- Of a page that is committed whole, either build reads the `PAGE_SIZE` bytes held at its offsets;
-- at every other page, the last one of a size that is no multiple of the page included, a debug
-- build panics.
pub page_bytes_lem :
    (p : Profile) (held : ℕ → ℕ) (page_idx : ℕ) (m : MmapGuardedMemory) → PageRead p held page_idx m
unfolding page_bytes
page_bytes_lem p held page_idx m = record {
  whole = λ h. (
    slice held (page_idx * page_size) page_size,
    page_bytes_whole p held page_idx m h,
    length-slice held (page_idx * page_size) page_size,
    λ k l. get_elem?-slice held (page_idx * page_size) page_size k l,
  );
  partial = λ h. ground (arith, h);
}

-- A new mapping holds zeros.
slice-replicate : (offset n : ℕ) → slice (λ _. 0) offset n ≡ replicate n 0
unfolding slice
slice-replicate offset zero = refl
slice-replicate offset (suc n) = ap (λ bytes. 0 ∷ bytes) (slice-replicate (offset + 1) n)

pub slice-zero_page : (offset : ℕ) → slice (λ _. 0) offset page_size ≡ zero_page
unfolding zero_page
slice-zero_page offset = slice-replicate offset page_size

-- A slice has the bytes from its offset on only.
pub slice-ext :
    (f g : ℕ → ℕ) (offset n : ℕ)
    → ((k : ℕ) → offset ≤ k → f k ≡ g k)
    → slice f offset n ≡ slice g offset n
unfolding slice
slice-ext f g offset zero same = refl
slice-ext f g offset (suc n) same =
    rw (same offset (omega arith), slice-ext f g (offset + 1) n (λ k h. same k (omega arith)))
