-- ===== src/Delta/Diff.antt =====
-- `diff_and_commit` and `apply` of delta.rs: the delta carries the page, and both sides adopt it.
use chronos_uvm.Prelude.{
  ℕ, ◌≤◌, ◌<◌, ◌≡◌, ◌⊎◌, inl, inr, refl, sym, ◌∙◌, Bool, true, false, Option, some, Bool-cases,
  List, length, get_elem?, get_elem?-in_range, set, put-in_range, ltb, set-same, ==_iff,
  if◌then◌else◌, arith,
}
use chronos_uvm.Page.{page_size}
use chronos_uvm.Delta.{
  RunLiteral, PageDelta, xor, raw, DeltaEngine, max_pages, runs_len, rle_decode, xor_pages,
  diff_known, diff_first, diff_and_commit,
}
use chronos_uvm.Delta.Rle.{rle_decode-rle_encode}
use chronos_uvm.Delta.{encoded_len}
use chronos_uvm.Delta.Engine.{
  xor_pages-twice, length-xor_pages, baseline_of, IsValid, ArePages-get, Committed, Grown,
  ensure_capacity_lem, adopt, adopt-Committed,
}

-- A delta from which whoever holds the baseline `prev` of page `idx` gets `current`.
abbrev pub Carries : Option (List ℕ) → ℕ → List ℕ → PageDelta → Type 0
Carries prev idx current delta =
    (delta ≡ raw idx current)
    ⊎ ((runs : List RunLiteral) × (page : List ℕ) × (prev ≡ some page)
        × (delta ≡ xor idx runs)
        × (bytes : List ℕ) × (rle_decode runs ≡ some bytes)
        × (xor_pages page bytes ≡ current))

-- What `diff_and_commit` returns: a delta no larger than a page that carries it, and the engine.
pub record Diffed (e : DeltaEngine) (idx : ℕ) (current : List ℕ) (r : PageDelta × DeltaEngine)
    : Type 0 where
  pub carries : Carries (baseline_of e idx) idx current r.0
  pub fits : encoded_len r.0 ≤ page_size
  pub committed : Committed e idx current r.1

-- What `Diffed` says of a call that does not panic.
abbrev Diff : DeltaEngine → ℕ → List ℕ → Option (PageDelta × DeltaEngine) → Type 0
Diff e idx current o = (r : PageDelta × DeltaEngine) × (o ≡ some r) × Diffed e idx current r

module _ (e g : DeltaEngine) (idx : ℕ) (current : List ℕ) (grown : Grown e idx g)
    (whole : length current ≡ page_size) where
  diff_first_lem : Diff e idx current (diff_first idx current g)
  unfolding diff_first encoded_len
  diff_first_lem = (
    (raw idx current, adopt g idx current),
    rw (
      put-in_range g.baseline idx current grown.room,
      put-in_range g.have_baseline idx true (omega (arith, grown.room, grown.valid.same)),
    ),
    record {
      carries = inl refl;
      fits = omega arith;
      committed = adopt-Committed e g idx current grown whole;
    },
  )

  abbrev chosen : List RunLiteral → PageDelta × DeltaEngine
  chosen runs = (
    if ltb (runs_len runs) page_size then xor idx runs else raw idx current,
    record g { baseline = set g.baseline idx current },
  )

  module _ (have : get_elem? g.have_baseline idx ≡ some true) where
    known_Committed : Committed e idx current (record g { baseline = set g.baseline idx current })
    known_Committed =
        rw (set-same g.have_baseline idx true have) at (adopt-Committed e g idx current grown whole)

    chosen-Diffed :
        (prev : List ℕ) (runs : List RunLiteral)
        → get_elem? g.baseline idx ≡ some prev
        → length prev ≡ page_size
        → rle_decode runs ≡ some (xor_pages prev current)
        → Diffed e idx current (chosen runs)
    unfolding encoded_len
    chosen-Diffed prev runs there l decoded = elim (Bool-cases (ltb (runs_len runs) page_size)) [
      | inl small ↦ rw small (record {
        carries = inr (
          runs,
          prev,
          sym (grown.view idx) ∙ rw (have, there),
          refl,
          xor_pages prev current,
          decoded,
          xor_pages-twice prev current (omega (arith, l, whole)),
        );
        fits = ground arith;
        committed = known_Committed;
      })
      | inr big ↦
          rw big (record { carries = inl refl; fits = omega arith; committed = known_Committed })
    ]

    diff_known_lem : Diff e idx current (diff_known idx current g)
    unfolding diff_known
    diff_known_lem =
        let (prev, there) = get_elem?-in_range g.baseline idx grown.room in
        let l = ArePages-get g.baseline idx prev grown.valid.pages there in
        let same : length prev ≡ length current = omega (arith, l, whole) in
        let (runs, found, decoded) =
          rle_decode-rle_encode (xor_pages prev current) (length-xor_pages prev current same ∙ l) in
        (
          chosen runs,
          rw (there, found, put-in_range g.baseline idx current grown.room),
          chosen-Diffed prev runs there l decoded,
        )

-- On a page in range of the allocator, given whole, `diff_and_commit` does not panic: its delta
-- carries the page to any holder of the same baseline and is no larger than a page, and the engine
-- stays well formed, with that page adopted and no other baseline changed.
pub diff_and_commit_lem :
    (idx : ℕ) (current : List ℕ) (e : DeltaEngine)
    → IsValid e
    → idx < max_pages
    → length current ≡ page_size
    → (r : PageDelta × DeltaEngine) × (diff_and_commit idx current e ≡ some r)
      × Diffed e idx current r
unfolding diff_and_commit
diff_and_commit_lem idx current e v h whole =
    let (g, ok, grown) = ensure_capacity_lem idx e v h in
    let room : idx < length g.have_baseline = omega (arith, grown.room, grown.valid.same) in
    let (b, there) = get_elem?-in_range g.have_baseline idx room in
    rw ((==_iff _ _).1 whole, ok, there) (split b g grown there)
  where
    split :
        (b : Bool) (g : DeltaEngine)
        → Grown e idx g
        → get_elem? g.have_baseline idx ≡ some b
        → Diff e idx current (if b then diff_known idx current g else diff_first idx current g)
    split true g grown there = diff_known_lem e g idx current grown whole there
    split false g grown there = diff_first_lem e g idx current grown whole
