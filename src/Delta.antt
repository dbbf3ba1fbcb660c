-- ===== src/Delta.antt =====
-- chronos-mem/src/delta.rs: the deltas of pages, and the engine that makes and applies them.
-- A page `[u8; PAGE_SIZE]` is a list of bytes; a method that updates `self` returns the new engine.
pub mod Rounds
pub mod Rle
pub mod Engine
pub mod Diff
pub mod Apply
pub mod Sync
pub mod Total
mod UnitTests
mod Examples
use Prim.Native.Nat.{bit_xor}
use mathlib.Core.Option
use chronos_uvm.Prelude.{
  ℕ, zero, suc, ◌+◌, ◌-◌, ◌*◌, ◌%◌, min, Bool, true, false, not, ◌||◌, Option, none, some, List, [],
  ◌∷◌, length, get_elem?, put, take, replicate, resize, ltb, leb, ◌==◌, if◌then◌else◌, ◌>>=◌, ◌>>◌,
  assert, u32,
}
use chronos_uvm.Page.{page_size, zero_page}

pub record RunLiteral : Type 0 where
  pub zero_run : ℕ
  pub literal : List ℕ

pub data PageDelta : Type 0 where
  xor : ℕ → List RunLiteral → PageDelta
  raw : ℕ → List ℕ → PageDelta

pub page_idx : PageDelta → ℕ
page_idx (xor idx _) = idx
page_idx (raw idx _) = idx

-- `runs.iter().map(|r| 8 + r.literal.len()).sum()`
pub runs_len : List RunLiteral → ℕ
runs_len [] = 0
runs_len (r ∷ runs) = 8 + length r.literal + runs_len runs

pub encoded_len : PageDelta → ℕ
unfolding runs_len
encoded_len (xor _ runs) = runs_len runs
encoded_len (raw _ _) = page_size

-- The inner loop over zero bytes, from the position where `buf` starts: how far `i` moves, and the
-- bytes from there on.
pub skip_zeros : List ℕ → ℕ × List ℕ
skip_zeros [] = (0, [])
skip_zeros (x ∷ xs) = let (n, rest) = skip_zeros xs in if x == 0 then (suc n, rest) else (0, x ∷ xs)

-- The inner loop over other bytes: `buf[lit_start..i]`, and the bytes from `i` on.
pub take_literal : List ℕ → List ℕ × List ℕ
take_literal [] = ([], [])
take_literal (x ∷ xs) =
    let (lit, rest) = take_literal xs in if x == 0 then ([], x ∷ xs) else (x ∷ lit, rest)

abbrev pub is_nil : List ℕ → Bool
is_nil [] = true
is_nil (_ ∷ _) = false

-- `if zero_run > 0 || !literal.is_empty() { runs.push(..) }`, before what the later rounds push.
pub push_run : ℕ → List ℕ → List RunLiteral → List RunLiteral
push_run z lit runs =
    if ltb 0 z || not (is_nil lit) then (record { zero_run = z; literal = lit }) ∷ runs else runs

-- `while i < PAGE_SIZE`, one unit of fuel for each round; `none` means that the fuel ran out.
pub rle_loop : ℕ → List ℕ → Option (List RunLiteral)
unfolding skip_zeros take_literal push_run
rle_loop zero buf = none
rle_loop (suc f) [] = some []
rle_loop (suc f) (x ∷ xs) =
    let (z, bytes) = skip_zeros (x ∷ xs) in
    let (lit, rest) = take_literal bytes in Option.map (push_run (z % u32) lit) (rle_loop f rest)

pub rle_encode : List ℕ → Option (List RunLiteral)
unfolding rle_loop
rle_encode buf = rle_loop (page_size + 1) buf

-- The copy itself, for bytes that fit.
pub write_at : List ℕ → ℕ → List ℕ → List ℕ
write_at out pos [] = out
write_at [] pos (b ∷ bytes) = []
write_at (_ ∷ out) zero (b ∷ bytes) = b ∷ write_at out zero bytes
write_at (x ∷ out) (suc pos) (b ∷ bytes) = x ∷ write_at out pos (b ∷ bytes)

-- `out[start..end].copy_from_slice(&literal[..end - start])`; each slice panics out of its bounds.
pub copy_literal : List ℕ → ℕ → ℕ → List ℕ → Option (List ℕ)
unfolding write_at
copy_literal out start end literal = do
  assert (leb start end)
  assert (leb end (length out))
  assert (leb (end - start) (length literal))
  some (write_at out start (take (end - start) literal))

pub decode_loop : List RunLiteral → ℕ → List ℕ → Option (List ℕ)
unfolding copy_literal
decode_loop [] pos out = some out
decode_loop (r ∷ runs) pos out = do
  let start = pos + r.zero_run
  let end = min (start + length r.literal) page_size
  out ← (if ltb start page_size then copy_literal out start end r.literal else some out)
  decode_loop runs end out

pub rle_decode : List RunLiteral → Option (List ℕ)
unfolding decode_loop zero_page
rle_decode runs = decode_loop runs 0 zero_page

pub record DeltaEngine : Type 0 where
  pub baseline : List (List ℕ)
  pub have_baseline : List Bool

-- The most pages a `Vec` of pages can hold: `isize::MAX` bytes. A larger one panics.
abbrev pub max_pages : ℕ
max_pages = 2251799813685247

unfoldable pub new : ℕ → Option DeltaEngine
unfolding zero_page
new pages = do
  assert (leb pages max_pages)
  some (record { baseline = replicate pages zero_page; have_baseline = replicate pages false })

pub ensure_capacity : ℕ → DeltaEngine → Option DeltaEngine
unfolding zero_page
ensure_capacity idx e =
    if leb (length e.baseline) idx
    then (do
      assert (ltb idx max_pages)
      some (record {
        baseline = resize (idx + 1) zero_page e.baseline;
        have_baseline = resize (idx + 1) false e.have_baseline;
      }))
    else some e

-- `for i in 0..PAGE_SIZE { out[i] = a[i] ^ b[i]; }`
pub xor_pages : List ℕ → List ℕ → List ℕ
xor_pages (x ∷ xs) (y ∷ ys) = bit_xor x y ∷ xor_pages xs ys
xor_pages _ _ = []

-- The rest of `diff_and_commit` once the page has a baseline.
pub diff_known : ℕ → List ℕ → DeltaEngine → Option (PageDelta × DeltaEngine)
unfolding rle_encode runs_len xor_pages
diff_known idx current e = do
  prev ← get_elem? e.baseline idx
  runs ← rle_encode (xor_pages prev current)
  baseline ← put e.baseline idx current
  some (
    if ltb (runs_len runs) page_size then xor idx runs else raw idx current,
    record e { baseline = baseline },
  )

-- A first observation of the page.
pub diff_first : ℕ → List ℕ → DeltaEngine → Option (PageDelta × DeltaEngine)
diff_first idx current e = do
  baseline ← put e.baseline idx current
  have_baseline ← put e.have_baseline idx true
  some (raw idx current, record { baseline = baseline; have_baseline = have_baseline })

pub diff_and_commit : ℕ → List ℕ → DeltaEngine → Option (PageDelta × DeltaEngine)
unfolding diff_first diff_known ensure_capacity
diff_and_commit idx current e = do
  assert (length current == page_size)
  e ← ensure_capacity idx e
  have ← get_elem? e.have_baseline idx
  if have then diff_known idx current e else diff_first idx current e

-- The page that `apply` reconstructs.
pub apply_to : PageDelta → DeltaEngine → Option (List ℕ)
unfolding rle_decode xor_pages
apply_to (raw idx bytes) e = some bytes
apply_to (xor idx runs) e = do
  have ← get_elem? e.have_baseline idx
  prev ← (if have then get_elem? e.baseline idx else some zero_page)
  bytes ← rle_decode runs
  some (xor_pages prev bytes)

unfoldable pub apply : PageDelta → DeltaEngine → Option (List ℕ × DeltaEngine)
unfolding apply_to ensure_capacity page_idx
apply delta e = do
  e ← ensure_capacity (page_idx delta) e
  out ← apply_to delta e
  baseline ← put e.baseline (page_idx delta) out
  have_baseline ← put e.have_baseline (page_idx delta) true
  some (out, record { baseline = baseline; have_baseline = have_baseline })
