-- ===== src/Delta/Engine.antt =====
-- The delta engine of delta.rs: what it knows of each page, and what its two operations do to that.
use chronos_uvm.Prelude.{
  ℕ, zero, suc, ◌+◌, ◌≤◌, ◌<◌, ◌≡◌, inl, inr, refl, sym, ap, ◌∙◌, Bool, true, false, Option, none,
  some, Bool-cases, List, [], ◌∷◌, length, length-set, get_elem?, get_elem?-set_self,
  get_elem?-set_ne, get_elem?-resize, length-resize, length-replicate, replicate, resize, set, leb,
  lt→ltb, leb→le, get_elem?-out_of_range, ◌==◌, if◌then◌else◌, arith, ℕ_discrete,
}
use chronos_uvm.Prelude.Bits.{bit_xor-twice}
use chronos_uvm.Page.{page_size, zero_page, length-zero_page}
use chronos_uvm.Delta.{DeltaEngine, max_pages, xor_pages, new, ensure_capacity}

-- `prev ^ (prev ^ current)` is `current`, byte by byte.
pub xor_pages-twice : (xs ys : List ℕ) → length xs ≡ length ys → xor_pages xs (xor_pages xs ys) ≡ ys
unfolding xor_pages
xor_pages-twice [] [] h = refl
xor_pages-twice [] (y ∷ ys) h = absurd (omega arith)
xor_pages-twice (x ∷ xs) [] h = absurd (omega arith)
xor_pages-twice (x ∷ xs) (y ∷ ys) h =
    rw (bit_xor-twice x y) (ap (λ t. y ∷ t) (xor_pages-twice xs ys (omega arith)))

pub length-xor_pages :
    (xs ys : List ℕ) → length xs ≡ length ys → length (xor_pages xs ys) ≡ length xs
unfolding xor_pages
length-xor_pages [] [] h = refl
length-xor_pages [] (y ∷ ys) h = refl
length-xor_pages (x ∷ xs) [] h = absurd (omega arith)
length-xor_pages (x ∷ xs) (y ∷ ys) h = ap suc (length-xor_pages xs ys (omega arith))

abbrev pub known : Option Bool → Option (List ℕ) → Option (List ℕ)
known (some true) page = page
known (some false) page = none
known none page = none

pub known-some :
    (o : Option Bool) (b : Option (List ℕ)) {page : List ℕ}
    → known o b ≡ some page
    → (o ≡ some true) × (b ≡ some page)
known-some none b h = ground arith
known-some (some false) b h = ground arith
known-some (some true) b h = (refl, h)

-- The page that the engine holds as the baseline of page `i`, if it has one.
abbrev pub baseline_of : DeltaEngine → ℕ → Option (List ℕ)
baseline_of e i = known (get_elem? e.have_baseline i) (get_elem? e.baseline i)

abbrev pub ArePages : List (List ℕ) → Type 0
ArePages [] = Unit
ArePages (page ∷ pages) = (length page ≡ page_size) × ArePages pages

pub record IsValid (e : DeltaEngine) : Type 0 where
  pub same : length e.have_baseline ≡ length e.baseline
  pub pages : ArePages e.baseline

ArePages-set :
    (ps : List (List ℕ)) (i : ℕ) (page : List ℕ)
    → ArePages ps
    → length page ≡ page_size
    → ArePages (set ps i page)
ArePages-set [] i page h l = tt
ArePages-set (p ∷ ps) zero page h l = (l, h.1)
ArePages-set (p ∷ ps) (suc i) page h l = (h.0, ArePages-set ps i page h.1 l)

pub ArePages-get :
    (ps : List (List ℕ)) (i : ℕ) (page : List ℕ)
    → ArePages ps
    → get_elem? ps i ≡ some page
    → length page ≡ page_size
ArePages-get [] i page h e = cc
ArePages-get (p ∷ ps) zero page h e = ap page_length (sym e) ∙ h.0
  where
    page_length : Option (List ℕ) → ℕ
    page_length none = 0
    page_length (some q) = length q
ArePages-get (p ∷ ps) (suc i) page h e = ArePages-get ps i page h.1 e

ArePages-resize :
    (n : ℕ) (a : List ℕ) (ps : List (List ℕ))
    → length a ≡ page_size
    → ArePages ps
    → ArePages (resize n a ps)
ArePages-resize zero a ps l h = tt
ArePages-resize (suc n) a [] l h = (l, ArePages-resize n a [] l h)
ArePages-resize (suc n) a (p ∷ ps) l h = (h.0, ArePages-resize n a ps l h.1)

-- What `e'` is after `page` was adopted as the baseline of page `idx`.
pub record Committed (e : DeltaEngine) (idx : ℕ) (page : List ℕ) (e' : DeltaEngine) : Type 0 where
  pub valid : IsValid e'
  pub view : (i : ℕ) → baseline_of e' i ≡ (if i == idx then some page else baseline_of e i)

-- What `ensure_capacity` leaves.
pub record Grown (e : DeltaEngine) (idx : ℕ) (e' : DeltaEngine) : Type 0 where
  pub valid : IsValid e'
  pub room : idx < length e'.baseline
  pub view : (i : ℕ) → baseline_of e' i ≡ baseline_of e i

known-resize :
    (n : ℕ) (e : DeltaEngine) (i : ℕ)
    → length e.baseline ≤ n
    → length e.have_baseline ≡ length e.baseline
    → known
        (get_elem? (resize n false e.have_baseline) i)
        (get_elem? (resize n zero_page e.baseline) i)
      ≡ baseline_of e i
known-resize n e i h same =
    rw
      (
        get_elem?-resize n false e.have_baseline i (omega arith),
        get_elem?-resize n zero_page e.baseline i h,
      )
      (ground
        (arith, get_elem?-out_of_range e.have_baseline i, get_elem?-out_of_range e.baseline i))

pub ensure_capacity_lem :
    (idx : ℕ) (e : DeltaEngine)
    → IsValid e
    → idx < max_pages
    → (e' : DeltaEngine) × (ensure_capacity idx e ≡ some e') × Grown e idx e'
unfolding ensure_capacity
ensure_capacity_lem idx e v h = elim (Bool-cases (leb (length e.baseline) idx)) [
  | inl short ↦ (
    record {
      baseline = resize (idx + 1) zero_page e.baseline;
      have_baseline = resize (idx + 1) false e.have_baseline;
    },
    rw (short, lt→ltb idx max_pages h),
    record {
      valid = record {
        same =
            length-resize (idx + 1) false e.have_baseline
            ∙ sym (length-resize (idx + 1) zero_page e.baseline);
        pages = ArePages-resize (idx + 1) zero_page e.baseline length-zero_page v.pages;
      };
      room = omega (arith, length-resize (idx + 1) zero_page e.baseline);
      view = λ i.
          known-resize (idx + 1) e i (omega (arith, leb→le (length e.baseline) idx short)) v.same;
    },
  )
  | inr long ↦ (e, rw long, record { valid = v; room = ground arith; view = λ i. refl })
]

-- The engine with `page` adopted for page `idx`.
abbrev pub adopt : DeltaEngine → ℕ → List ℕ → DeltaEngine
adopt e idx page = record {
  baseline = set e.baseline idx page;
  have_baseline = set e.have_baseline idx true;
}

pub adopt-Committed :
    (e g : DeltaEngine) (idx : ℕ) (page : List ℕ)
    → Grown e idx g
    → length page ≡ page_size
    → Committed e idx page (adopt g idx page)
adopt-Committed e g idx page grown l = record {
  valid = record {
    same =
        length-set g.have_baseline idx true
        ∙ (grown.valid.same ∙ sym (length-set g.baseline idx page));
    pages = ArePages-set g.baseline idx page grown.valid.pages l;
  };
  view = λ i. elim (ℕ_discrete i idx) [
    | yes same ↦
        rw
          (
            same,
            get_elem?-set_self g.baseline idx page grown.room,
            get_elem?-set_self g.have_baseline idx true
                (omega (arith, grown.room, grown.valid.same)),
          )
          (ground arith)
    | no other ↦
        rw
          (
            get_elem?-set_ne g.baseline {i = idx} {j = i} page (λ e. other (sym e)),
            get_elem?-set_ne g.have_baseline {i = idx} {j = i} true (λ e. other (sym e)),
          )
          (ground (arith, grown.view i))
  ];
}

-- A new engine is well formed and holds no baseline.
pub record Fresh (e : DeltaEngine) : Type 0 where
  pub valid : IsValid e
  pub unknown : (i : ℕ) → baseline_of e i ≡ none

ArePages-replicate : (n : ℕ) → ArePages (replicate n zero_page)
ArePages-replicate zero = tt
ArePages-replicate (suc n) = (length-zero_page, ArePages-replicate n)

unknown-replicate :
    (n i : ℕ) → known (get_elem? (replicate n false) i) (get_elem? (replicate n zero_page) i) ≡ none
unknown-replicate zero i = refl
unknown-replicate (suc n) zero = refl
unknown-replicate (suc n) (suc i) = unknown-replicate n i

-- `new` makes a well-formed engine that holds no page, unless the pages are more than a `Vec` holds.
pub new-Fresh : (n : ℕ) → n ≤ max_pages → (e : DeltaEngine) × (new n ≡ some e) × Fresh e
unfolding new
new-Fresh n h = (
  record { baseline = replicate n zero_page; have_baseline = replicate n false },
  ground arith,
  record {
    valid = record {
      same = length-replicate n false ∙ sym (length-replicate n zero_page);
      pages = ArePages-replicate n;
    };
    unknown = λ i. unknown-replicate n i;
  },
)
