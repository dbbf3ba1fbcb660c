-- ===== src/Replicate/Raws.antt =====
-- Batches of whole pages, as the supervisor sends them, at the standby.
use chronos_uvm.Prelude.{
  ℕ, ◌<◌, ◌≡◌, inl, refl, ap, ◌∙◌, none, some, List, [], ◌∷◌, length, ◌==◌, if◌then◌else◌, arith,
  ℕ_discrete,
}
use chronos_uvm.Page.{page_size}
use chronos_uvm.Dirty.Words.{contains}
use chronos_uvm.Delta.{PageDelta, raw, DeltaEngine, max_pages}
use chronos_uvm.Delta.Engine.{IsValid, baseline_of}
use chronos_uvm.Delta.Apply.{apply_lem}
use chronos_uvm.Replicate.{apply_deltas}

-- The deltas of the pages of a memory.
abbrev pub raws : (ℕ → List ℕ) → List ℕ → List PageDelta
raws memory [] = []
raws memory (i ∷ pages) = raw i (memory i) ∷ raws memory pages

abbrev pub AreWhole : (ℕ → List ℕ) → List ℕ → Type 0
AreWhole memory [] = Unit
AreWhole memory (i ∷ pages) =
    (i < max_pages) × (length (memory i) ≡ page_size) × AreWhole memory pages

-- The standby then holds those pages as they were sent, and the others as it did.
pub apply_deltas-raws :
    (memory : ℕ → List ℕ) (pages : List ℕ) (e : DeltaEngine)
    → IsValid e
    → AreWhole memory pages
    → (e' : DeltaEngine) × (apply_deltas (raws memory pages) e ≡ some e')
      × IsValid e'
      × ((i : ℕ)
          → baseline_of e' i ≡ (if contains i pages then some (memory i) else baseline_of e i))
unfolding apply_deltas
apply_deltas-raws memory [] e v h = (e, refl, v, λ i. refl)
apply_deltas-raws memory (j ∷ pages) e v h =
    let (e₁, done, c) =
      apply_lem e j (memory j) v h.0 h.1 none (raw j (memory j)) (λ page none_some. cc)
        (inl refl) in
    let (e', rest, valid, view) = apply_deltas-raws memory pages e₁ c.valid h.2 in
    (e', rw (done, rest), valid, λ i. view i ∙ step e₁ i (c.view i) (ℕ_discrete j i))
  where
    step :
        (e₁ : DeltaEngine) (i : ℕ)
        → baseline_of e₁ i ≡ (if i == j then some (memory j) else baseline_of e i)
        → Dec (j ≡ i)
        → (if contains i pages then some (memory i) else baseline_of e₁ i)
          ≡ (if contains i (j ∷ pages) then some (memory i) else baseline_of e i)
    step e₁ i view (yes same) = ground (arith, view, ap memory same)
    step e₁ i view (no other) = ground (arith, view)
