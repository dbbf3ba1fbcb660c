-- ===== src/Delta/Total.antt =====
-- `apply` of delta.rs on any delta.
use chronos_uvm.Prelude.{
  ℕ, zero, suc, ◌<◌, ◌≡◌, refl, sym, ◌∙◌, some, List, [], ◌∷◌, length, get_elem?, true, false, Bool,
  if◌then◌else◌, arith,
}
use chronos_uvm.Page.{page_size, zero_page, length-zero_page}
use chronos_uvm.Delta.{
  PageDelta, xor, raw, page_idx, DeltaEngine, max_pages, xor_pages, apply_to, apply,
}
use chronos_uvm.Delta.Engine.{
  IsValid, Committed, ensure_capacity_lem, ArePages-get, length-xor_pages,
}
use chronos_uvm.Delta.Apply.{apply_decoded}
use chronos_uvm.Delta.Rle.{rle_decode_total}

-- A page index that a `Vec` can hold, and a page `[u8; PAGE_SIZE]` where the delta has one.
abbrev pub IsDelta : PageDelta → Type 0
IsDelta (xor idx runs) = idx < max_pages
IsDelta (raw idx bytes) = (idx < max_pages) × (length bytes ≡ page_size)

get_in_range :
    {A : Type 0} (xs : List A) (i : ℕ) → i < length xs → (a : A) × (get_elem? xs i ≡ some a)
get_in_range [] i h = absurd (omega arith)
get_in_range (x ∷ xs) zero h = (x, refl)
get_in_range (x ∷ xs) (suc i) h = get_in_range xs i (omega arith)

-- The page that a delta of runs is taken against.
base_page :
    (g : DeltaEngine) (idx : ℕ) (have : Bool)
    → IsValid g
    → idx < length g.baseline
    → (page : List ℕ) × ((if have then get_elem? g.baseline idx else some zero_page) ≡ some page)
      × (length page ≡ page_size)
base_page g idx false v room = (zero_page, refl, length-zero_page)
base_page g idx true v room =
    let (page, there) = get_in_range g.baseline idx room in
    (page, there, ArePages-get g.baseline idx page v.pages there)

-- On a well-formed engine, any delta is applied, whether or not the page is known.
pub apply_any :
    (delta : PageDelta) (s : DeltaEngine)
    → IsValid s
    → IsDelta delta
    → (page : List ℕ) × (s' : DeltaEngine) × (apply delta s ≡ some (page, s'))
      × Committed s (page_idx delta) page s'
unfolding apply_to page_idx
apply_any (raw idx bytes) s v (small, whole) =
    let (g, grows, grown) = ensure_capacity_lem idx s v small in
    let (s', done, c) =
      apply_decoded s idx bytes v small whole (raw idx bytes) g grown refl grows refl in
    (bytes, s', done, c)
apply_any (xor idx runs) s v small =
    let (g, grows, grown) = ensure_capacity_lem idx s v small in
    let (have, known) =
      get_in_range g.have_baseline idx (omega (arith, grown.room, grown.valid.same)) in
    let (page, base, whole) = base_page g idx have grown.valid grown.room in
    let (bytes, decoded, full) = rle_decode_total runs in
    let out : List ℕ = xor_pages page bytes in
    let size : length out ≡ page_size = length-xor_pages page bytes (whole ∙ sym full) ∙ whole in
    let (s', done, c) =
      apply_decoded s idx out v small size (xor idx runs) g grown refl grows
        (rw (known, base, decoded)) in
    (out, s', done, c)
