-- ===== src/Delta/Apply.antt =====
-- `apply` of delta.rs, and the two sides of a replication together.
use chronos_uvm.Prelude.{
  ℕ, ◌<◌, ◌≡◌, inl, inr, refl, ap, ◌∙◌, true, Option, some, List, length, get_elem?, put-in_range,
  arith,
}
use chronos_uvm.Page.{page_size}
use chronos_uvm.Delta.{
  RunLiteral, PageDelta, xor, raw, DeltaEngine, max_pages, page_idx, rle_decode, xor_pages,
  ensure_capacity, apply_to, apply,
}
use chronos_uvm.Delta.Engine.{
  baseline_of, known-some, IsValid, Committed, Grown, ensure_capacity_lem, adopt, adopt-Committed,
}
use chronos_uvm.Delta.Diff.{Carries}

module _ (s : DeltaEngine) (idx : ℕ) (current : List ℕ) (v : IsValid s) (h : idx < max_pages)
    (whole : length current ≡ page_size) where
  -- What `apply` returns: the page, and the engine that has adopted it.
  abbrev pub Applied : Option (List ℕ × DeltaEngine) → Type 0
  Applied o = (s' : DeltaEngine) × (o ≡ some (current, s')) × Committed s idx current s'

  -- Once the delta is decoded to the page, it is adopted.
  pub apply_decoded :
      (delta : PageDelta) (g : DeltaEngine)
      → Grown s idx g
      → page_idx delta ≡ idx
      → ensure_capacity idx s ≡ some g
      → apply_to delta g ≡ some current
      → Applied (apply delta s)
  unfolding apply
  apply_decoded delta g grown at ok decoded = (
    adopt g idx current,
    rw (
      at,
      ok,
      decoded,
      put-in_range g.baseline idx current grown.room,
      put-in_range g.have_baseline idx true (omega (arith, grown.room, grown.valid.same)),
    ),
    adopt-Committed s g idx current grown whole,
  )

  apply_xor :
      (g : DeltaEngine) (runs : List RunLiteral) (page bytes : List ℕ)
      → Grown s idx g
      → baseline_of s idx ≡ some page
      → rle_decode runs ≡ some bytes
      → xor_pages page bytes ≡ current
      → apply_to (xor idx runs) g ≡ some current
  unfolding apply_to
  apply_xor g runs page bytes grown base decoded same =
      let (have, there) =
        known-some (get_elem? g.have_baseline idx) (get_elem? g.baseline idx)
          (grown.view idx ∙ base) in
      rw (have, there, decoded) (ap some same)

  pub apply_lem :
      (prev : Option (List ℕ)) (delta : PageDelta)
      → ((page : List ℕ) → prev ≡ some page → baseline_of s idx ≡ some page)
      → Carries prev idx current delta
      → Applied (apply delta s)
  unfolding page_idx apply_to
  apply_lem prev delta held (inl e) =
      let (g, ok, grown) = ensure_capacity_lem idx s v h in
      rw e (apply_decoded (raw idx current) g grown refl ok refl)
  apply_lem prev delta held (inr (runs, page, base, e, bytes, decoded, same)) =
      let (g, ok, grown) = ensure_capacity_lem idx s v h in
      rw e (
        apply_decoded (xor idx runs) g grown refl ok
          (apply_xor g runs page bytes grown (held page base) decoded same))
