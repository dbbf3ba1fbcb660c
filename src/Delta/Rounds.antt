-- ===== src/Delta/Rounds.antt =====
-- One round of each loop of delta.rs's run-length code: the scans, and the copy of a literal.

use mathlib.Core.List.{append_assoc}
use chronos_uvm.Prelude.{
  ℕ, zero, suc, ◌+◌, ◌-◌, ◌≤◌, ◌<◌, ◌≡◌, ◌⊎◌, leb, Option, some, ◌>>=◌, refl, ap, ◌∙◌, min, true,
  false, not, ◌||◌, List, [], ◌∷◌, ◌++◌, length, length-append, length-replicate, replicate, take,
  ltb, if◌then◌else◌, arith, Bool-cases, inl, inr,
}
use chronos_uvm.Page.{page_size}
use chronos_uvm.Delta.{
  RunLiteral, skip_zeros, take_literal, is_nil, write_at, copy_literal, decode_loop,
}

abbrev pub zeros : ℕ → List ℕ
zeros n = replicate n 0

zeros-add : (a b : ℕ) → zeros (a + b) ≡ zeros a ++ zeros b
zeros-add zero b = ap zeros (omega arith)
zeros-add (suc a) b =
    ap {A = ℕ} zeros {x = suc a + b} {y = suc (a + b)} (omega arith)
    ∙ ap (λ t. 0 ∷ t) (zeros-add a b)

-- The two inner loops split the buffer at the position where they stop.
pub skip_zeros_lem : (xs : List ℕ) → zeros (skip_zeros xs).0 ++ (skip_zeros xs).1 ≡ xs
unfolding skip_zeros
skip_zeros_lem [] = refl
skip_zeros_lem (x ∷ xs) = ground (arith, skip_zeros_lem xs)

pub take_literal_lem : (xs : List ℕ) → (take_literal xs).0 ++ (take_literal xs).1 ≡ xs
unfolding take_literal
take_literal_lem [] = refl
take_literal_lem (x ∷ xs) = ground (arith, take_literal_lem xs)

-- Together they move past the first byte.
pub progress :
    (x : ℕ) (xs : List ℕ)
    → (ltb 0 (skip_zeros (x ∷ xs)).0 || not (is_nil (take_literal (skip_zeros (x ∷ xs)).1).0))
      ≡ true
unfolding skip_zeros take_literal
progress x xs = ground arith

write_at-zero :
    (mid bytes post : List ℕ)
    → length mid ≡ length bytes
    → write_at (mid ++ post) 0 bytes ≡ bytes ++ post
unfolding write_at
write_at-zero [] [] post h = refl
write_at-zero [] (b ∷ bytes) post h = absurd (omega arith)
write_at-zero (m ∷ mid) [] post h = absurd (omega arith)
write_at-zero (m ∷ mid) (b ∷ bytes) post h =
    ap (λ t. b ∷ t) (write_at-zero mid bytes post (omega arith))

write_at-nil : (out : List ℕ) (pos : ℕ) → write_at out pos [] ≡ out
unfolding write_at
write_at-nil out pos = refl

write_at-append :
    (pre mid bytes post : List ℕ)
    → length mid ≡ length bytes
    → write_at (pre ++ (mid ++ post)) (length pre) bytes ≡ pre ++ (bytes ++ post)
unfolding write_at
write_at-append [] mid bytes post h = write_at-zero mid bytes post h
write_at-append (x ∷ pre) [] [] post h = refl
write_at-append (x ∷ pre) (m ∷ mid) [] post h = absurd (omega arith)
write_at-append (x ∷ pre) mid (b ∷ bytes) post h =
    ap (λ t. x ∷ t) (write_at-append pre mid (b ∷ bytes) post h)

take-length : (xs : List ℕ) (n : ℕ) → n ≡ length xs → take n xs ≡ xs
take-length [] zero h = refl
take-length [] (suc n) h = refl
take-length (x ∷ xs) zero h = absurd (omega arith)
take-length (x ∷ xs) (suc n) h = ap (λ t. x ∷ t) (take-length xs n (omega arith))

nil_of_length : (xs : List ℕ) → length xs ≡ 0 → xs ≡ []
nil_of_length [] h = refl
nil_of_length (x ∷ xs) h = absurd (omega arith)

module _ (pre lit : List ℕ) (z n : ℕ) where
  abbrev pub before : List ℕ
  before = pre ++ zeros (z + length lit + n)

  abbrev pub after : List ℕ
  after = pre ++ (zeros z ++ (lit ++ zeros n))

  -- The bytes still to come, cut at the literal.
  before-split : before ≡ (pre ++ zeros z) ++ (zeros (length lit) ++ zeros n)
  before-split =
      ap (λ t. pre ++ t) (zeros-add (z + length lit) n) ∙ (simp (zeros-add, append_assoc))

  length-before : length before ≡ length pre + z + length lit + n
  length-before = omega (
    arith,
    length-append pre (zeros (z + length lit + n)),
    length-replicate {A = ℕ} (z + length lit + n) 0,
  )

  copied-inside : (k : ℕ) → k ≡ length lit → write_at before (length pre + z) (take k lit) ≡ after
  copied-inside k h =
      let at : length pre + z ≡ length (pre ++ zeros z) =
        omega (arith, length-append pre (zeros z), length-replicate {A = ℕ} z 0) in
      let same : length (zeros (length lit)) ≡ length lit = length-replicate (length lit) 0 in
      rw (
        take-length lit k h,
        before-split,
        at,
        write_at-append (pre ++ zeros z) (zeros (length lit)) lit (zeros n) same,
        append_assoc,
      )

  copied-outside : length lit ≡ 0 → before ≡ after
  copied-outside h = before-split ∙ rw (nil_of_length lit h) (append_assoc pre (zeros z) (zeros n))

-- A copy within bounds does not panic.
copy_literal_lem :
    (out : List ℕ) (start end : ℕ) (literal : List ℕ)
    → start ≤ end
    → end ≤ length out
    → end - start ≤ length literal
    → copy_literal out start end literal ≡ some (write_at out start (take (end - start) literal))
unfolding copy_literal
copy_literal_lem out start end literal ordered inside enough =
    let a : leb start end ≡ true = ground (arith, ordered) in
    let b : leb end (length out) ≡ true = ground (arith, inside) in
    let c : leb (end - start) (length literal) ≡ true = ground (arith, enough) in rw (a, b, c)

-- One round of the decoder: it leaves the run, copies the literal, and stops behind it.
pub decode_step :
    (pre lit : List ℕ) (z n : ℕ) (runs : List RunLiteral)
    → length pre + z + length lit + n ≡ page_size
    → decode_loop
        ((record { zero_run = z; literal = lit }) ∷ runs)
        (length pre)
        (before pre lit z n)
      ≡ decode_loop runs (length pre + z + length lit) (after pre lit z n)
unfolding decode_loop
decode_step pre lit z n runs total =
    let end : min (length pre + z + length lit) page_size ≡ length pre + z + length lit =
      omega arith in
    rw end (
      ap (λ (o : Option (List ℕ)). o >>= decode_loop runs (length pre + z + length lit))
        (copied (Bool-cases (ltb (length pre + z) page_size))))
  where
    copied :
        ((ltb (length pre + z) page_size ≡ true) ⊎ (ltb (length pre + z) page_size ≡ false))
        → (if ltb (length pre + z) page_size
            then copy_literal
                (before pre lit z n)
                (length pre + z)
                (length pre + z + length lit)
                lit
            else some (before pre lit z n))
          ≡ some (after pre lit z n)
    copied (inl inside) = rw inside (
        copy_literal_lem (before pre lit z n) (length pre + z) (length pre + z + length lit) lit
          (omega arith) (omega (arith, length-before pre lit z n)) (omega arith)
        ∙ ap some (
            copied-inside pre lit z n (length pre + z + length lit - (length pre + z))
              (omega arith)))
    copied (inr outside) = rw outside (ap some (copied-outside pre lit z n (ground arith)))

length-write_at :
    (out : List ℕ) (pos : ℕ) (bytes : List ℕ) → length (write_at out pos bytes) ≡ length out
unfolding write_at
length-write_at out pos [] = refl
length-write_at [] pos (b ∷ bytes) = refl
length-write_at (x ∷ out) zero (b ∷ bytes) = ap suc (length-write_at out zero bytes)
length-write_at (x ∷ out) (suc pos) (b ∷ bytes) = ap suc (length-write_at out pos (b ∷ bytes))

-- Whatever the runs, no copy is out of bounds.
pub decode_loop_total :
    (runs : List RunLiteral) (pos : ℕ) (out : List ℕ)
    → length out ≡ page_size
    → (page : List ℕ) × (decode_loop runs pos out ≡ some page) × (length page ≡ page_size)
unfolding decode_loop
decode_loop_total [] pos out size = (out, refl, size)
decode_loop_total (r ∷ runs) pos out size =
    copied (Bool-cases (ltb (pos + r.zero_run) page_size))
      (decode_loop_total runs (min (pos + r.zero_run + length r.literal) page_size))
  where
    start : ℕ
    start = pos + r.zero_run

    end : ℕ
    end = min (start + length r.literal) page_size

    copied :
        ((ltb start page_size ≡ true) ⊎ (ltb start page_size ≡ false))
        → ((out : List ℕ)
            → length out ≡ page_size
            → (page : List ℕ) × (decode_loop runs end out ≡ some page) × (length page ≡ page_size))
        → (page : List ℕ) × (((if ltb start page_size
                then copy_literal out start end r.literal
                else some out)
              >>= decode_loop runs end)
            ≡ some page)
          × (length page ≡ page_size)
    copied (inl inside) ih =
        let lt : start < page_size = ground (arith, inside) in
        let bytes = take (end - start) r.literal in
        let (page, done, whole) =
          ih (write_at out start bytes) (length-write_at out start bytes ∙ size) in
        let copies =
          copy_literal_lem out start end r.literal (omega (arith, lt)) (omega (arith, size))
            (omega arith) in
        (page, rw (inside, copies) done, whole)
    copied (inr outside) ih =
        let (page, done, whole) = ih out size in (page, rw outside done, whole)
