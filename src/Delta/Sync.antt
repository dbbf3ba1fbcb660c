-- ===== src/Delta/Sync.antt =====
-- The primary's engine and the standby's, over any number of pages shipped.
use chronos_uvm.Prelude.{
  ℕ, ◌<◌, ◌≡◌, ◌⊎◌, refl, ap, ◌∙◌, true, false, Option, some, List, [], ◌∷◌, length, ◌==◌,
  if◌then◌else◌, ◌>>=◌, Bool-cases, inl, inr,
}
use chronos_uvm.Page.{page_size}
use chronos_uvm.Delta.{PageDelta, DeltaEngine, max_pages, diff_and_commit, apply}
use chronos_uvm.Delta.Engine.{baseline_of, IsValid, Committed}
use chronos_uvm.Delta.Diff.{diff_and_commit_lem}
use chronos_uvm.Delta.Apply.{apply_lem}

-- A page index with the bytes that the page then has.
abbrev pub Write : Type 0
Write = ℕ × List ℕ

abbrev pub AreWrites : List Write → Type 0
AreWrites [] = Unit
AreWrites ((idx, page) ∷ writes) = (idx < max_pages) × (length page ≡ page_size) × AreWrites writes

-- The primary diffs each page in turn; the standby applies each delta in turn.
pub diff_all : List Write → DeltaEngine → Option (List PageDelta × DeltaEngine)
diff_all [] e = some ([], e)
diff_all ((idx, page) ∷ writes) e = do
  (delta, e) ← diff_and_commit idx page e
  (deltas, e) ← diff_all writes e
  some (delta ∷ deltas, e)

unfoldable pub apply_all : List PageDelta → DeltaEngine → Option DeltaEngine
apply_all [] e = some e
apply_all (delta ∷ deltas) e = do (out, e) ← apply delta e; apply_all deltas e

-- Page `i` after the writes, if it was `page` before them.
abbrev pub latest : List Write → ℕ → Option (List ℕ) → Option (List ℕ)
latest [] i page = page
latest ((idx, new) ∷ writes) i page = latest writes i (if i == idx then some new else page)

-- The standby holds every baseline that the primary diffs against.
abbrev pub Synced : DeltaEngine → DeltaEngine → Type 0
Synced p s = (i : ℕ) (page : List ℕ) → baseline_of p i ≡ some page → baseline_of s i ≡ some page

-- What both sides are after the writes.
pub record Shipped (writes : List Write) (p s : DeltaEngine) (deltas : List PageDelta)
    (p' s' : DeltaEngine) : Type 0 where
  pub diffed : diff_all writes p ≡ some (deltas, p')
  pub applied : apply_all deltas s ≡ some s'
  pub primary : IsValid p'
  pub standby : IsValid s'
  pub synced : Synced p' s'
  pub pages : (i : ℕ) → baseline_of s' i ≡ latest writes i (baseline_of s i)

Synced-Committed :
    (p s p' s' : DeltaEngine) (idx : ℕ) (page : List ℕ)
    → Synced p s
    → Committed p idx page p'
    → Committed s idx page s'
    → Synced p' s'
Synced-Committed p s p' s' idx page h cp cs i q =
    rw (cp.view i, cs.view i) (step (Bool-cases (i == idx)))
  where
    step :
        ((i == idx) ≡ true) ⊎ ((i == idx) ≡ false)
        → (if i == idx then some page else baseline_of p i) ≡ some q
        → (if i == idx then some page else baseline_of s i) ≡ some q
    step (inl e) = rw e (λ t. t)
    step (inr e) = rw e (h i q)

-- From engines in step, whatever whole pages, of indices below the most that a `Vec` of pages can
-- hold, the primary diffs in whatever order: neither side panics, the engines stay in step and
-- well formed, and the standby then holds each page as it was last written, and every other page
-- as it was before.
pub ship_all :
    (writes : List Write) (p s : DeltaEngine)
    → IsValid p
    → IsValid s
    → Synced p s
    → AreWrites writes
    → (deltas : List PageDelta) × (p' : DeltaEngine) × (s' : DeltaEngine) × Shipped writes p s
        deltas p' s'
unfolding diff_all apply_all
ship_all [] p s vp vs h ok = (
  [],
  p,
  s,
  record {
    diffed = refl;
    applied = refl;
    primary = vp;
    standby = vs;
    synced = h;
    pages = λ i. refl;
  },
)
ship_all ((idx, page) ∷ writes) p s vp vs h ok =
    let ((delta, p₁), diffed, d) = diff_and_commit_lem idx page p vp ok.0 ok.1 in
    let (s₁, applied, c) =
      apply_lem s idx page vs ok.0 ok.1 (baseline_of p idx) delta (h idx) d.carries in
    let (deltas, p', s', rest) =
      ship_all writes p₁ s₁ d.committed.valid c.valid
        (Synced-Committed p s p₁ s₁ idx page h d.committed c) ok.2 in
    (
      delta ∷ deltas,
      p',
      s',
      record {
        diffed = rw (diffed, rest.diffed);
        applied = rw (applied, rest.applied);
        primary = rest.primary;
        standby = rest.standby;
        synced = rest.synced;
        pages = λ i. rest.pages i ∙ ap (latest writes i) (c.view i);
      },
    )
