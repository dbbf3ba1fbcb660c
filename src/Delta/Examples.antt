-- ===== src/Delta/Examples.antt =====
-- delta.rs at concrete inputs, and the theorems applied.
use chronos_uvm.Prelude.{
  ℕ, ◌≡◌, refl, ◌∙◌, some, List, [], ◌∷◌, length, length-replicate, length-set, replicate, set,
  arith,
}
use chronos_uvm.Page.{page_size}
use chronos_uvm.Delta.{
  RunLiteral, PageDelta, DeltaEngine, rle_loop, rle_encode, rle_decode, diff_and_commit,
}
use chronos_uvm.Delta.Rle.{rle_decode-rle_encode, rle_decode_total}
use chronos_uvm.Delta.Engine.{IsValid}
use chronos_uvm.Delta.Diff.{Diffed, diff_and_commit_lem}
use chronos_uvm.Delta.Sync.{Write, Shipped, ship_all}

-- Two zeros, two bytes, a zero.
rle_small :
    rle_loop 6 (0 ∷ 0 ∷ 5 ∷ 6 ∷ 0 ∷ [])
    ≡ some (
        (record { zero_run = 2; literal = 5 ∷ 6 ∷ [] })
        ∷ (record { zero_run = 1; literal = [] })
        ∷ [])
unfolding rle_loop
rle_small = refl

-- The page of the test `first_touch_is_raw`.
unfoldable sevens : List ℕ
sevens = replicate page_size 7

length-sevens : length sevens ≡ page_size
unfolding sevens
length-sevens = length-replicate {A = ℕ} page_size 7

-- The same page with one byte changed.
abbrev touched : List ℕ
touched = set sevens 10 42

length-touched : length touched ≡ page_size
length-touched = length-set sevens 10 42 ∙ length-sevens

abbrev blank : DeltaEngine
blank = record { baseline = []; have_baseline = [] }

blank-IsValid : IsValid blank
blank-IsValid = record { same = refl; pages = tt }

abbrev writes : List Write
writes = (0, sevens) ∷ (3, sevens) ∷ (0, touched) ∷ []

rle_decode-rle_encode_example :
    (runs : List RunLiteral) × (rle_encode touched ≡ some runs) × (rle_decode runs ≡ some touched)
rle_decode-rle_encode_example = rle_decode-rle_encode touched length-touched

rle_decode_total_example :
    (page : List ℕ) × (rle_decode (
        (record { zero_run = 4095; literal = 1 ∷ 2 ∷ [] })
        ∷ (record { zero_run = 5000; literal = 1 ∷ [] })
        ∷ [])
      ≡ some page)
    × (length page ≡ page_size)
rle_decode_total_example = rle_decode_total (
    (record { zero_run = 4095; literal = 1 ∷ 2 ∷ [] })
    ∷ (record { zero_run = 5000; literal = 1 ∷ [] })
    ∷ [])

diff_and_commit_lem_example :
    (r : PageDelta × DeltaEngine) × (diff_and_commit 3 sevens blank ≡ some r)
    × Diffed blank 3 sevens r
diff_and_commit_lem_example =
    diff_and_commit_lem 3 sevens blank blank-IsValid (omega arith) length-sevens

ship_all_example :
    (deltas : List PageDelta) × (p' : DeltaEngine) × (s' : DeltaEngine) × Shipped writes blank blank
      deltas p' s'
ship_all_example =
    ship_all writes blank blank blank-IsValid blank-IsValid (λ i page e. e)
      (omega arith, length-sevens, (omega arith, length-sevens, (omega arith, length-touched, tt)))
