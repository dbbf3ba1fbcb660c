-- ===== src/Delta/Rle.antt =====
-- The run-length code of delta.rs: decoding undoes encoding.
use mathlib.Core.Option
use mathlib.Core.List.{append_assoc}
use native.Mathlib.Nat.{mod-eq_of_lt}
use chronos_uvm.Prelude.{
  ℕ, zero, suc, ◌+◌, ◌%◌, ◌<◌, ◌≡◌, refl, sym, ap, ◌∙◌, true, not, ◌||◌, some, List, [], ◌∷◌, ◌++◌,
  length, length-append, length-replicate, ltb, arith, u32,
}
use chronos_uvm.Page.{page_size, zero_page, length-zero_page}
use chronos_uvm.Delta.{
  RunLiteral, skip_zeros, take_literal, push_run, is_nil, rle_loop, rle_encode, decode_loop,
  rle_decode,
}
use chronos_uvm.Delta.Rounds.{
  zeros, after, skip_zeros_lem, take_literal_lem, progress, decode_step, decode_loop_total,
}

-- What one round of the encoder finds in `s`, and what is left of it.
record Round (s : List ℕ) : Type 0 where
  z : ℕ
  lit : List ℕ
  rest : List ℕ
  parts : zeros z ++ (lit ++ rest) ≡ s
  moved : (ltb 0 z || not (is_nil lit)) ≡ true
  loop : (f : ℕ) → rle_loop (suc f) s ≡ Option.map (push_run (z % u32) lit) (rle_loop f rest)

round : (x : ℕ) (xs : List ℕ) → Round (x ∷ xs)
unfolding rle_loop
round x xs = record {
  z = (skip_zeros (x ∷ xs)).0;
  lit = (take_literal (skip_zeros (x ∷ xs)).1).0;
  rest = (take_literal (skip_zeros (x ∷ xs)).1).1;
  parts = rw (take_literal_lem (skip_zeros (x ∷ xs)).1) (skip_zeros_lem (x ∷ xs));
  moved = progress x xs;
  loop = λ f. refl;
}

module _ {s : List ℕ} (r : Round s) where
  round_length : r.z + length r.lit + length r.rest ≡ length s
  round_length = omega (
    arith,
    ap (λ (t : List ℕ). length t) r.parts,
    length-append (zeros r.z) (r.lit ++ r.rest),
    length-append r.lit r.rest,
    length-replicate {A = ℕ} r.z 0,
  )

  is_nil-length : (l : List ℕ) (z : ℕ) → (ltb 0 z || not (is_nil l)) ≡ true → 0 < z + length l
  is_nil-length [] z h = ground arith
  is_nil-length (x ∷ l) z h = omega arith

  rest_shorter : length r.rest < length s
  rest_shorter = omega (arith, round_length, is_nil-length r.lit r.z r.moved)

-- A round, given that the later rounds and the decoder after it are right.
module _ (pre s : List ℕ) (r : Round s) (total : length pre + length s ≡ page_size) where
  abbrev pre' : List ℕ
  pre' = pre ++ (zeros r.z ++ r.lit)

  length-pre' : length pre' ≡ length pre + r.z + length r.lit
  length-pre' = omega (
    arith,
    length-append pre (zeros r.z ++ r.lit),
    length-append (zeros r.z) r.lit,
    length-replicate {A = ℕ} r.z 0,
  )

  pushed :
      (runs : List RunLiteral)
      → push_run (r.z % u32) r.lit runs ≡ (record { zero_run = r.z; literal = r.lit }) ∷ runs
  unfolding push_run
  pushed runs = rw (mod-eq_of_lt {n = r.z} {m = u32} (omega (arith, round_length r)), r.moved)

  after_assoc : after pre r.lit r.z (length r.rest) ≡ pre' ++ zeros (length r.rest)
  after_assoc = simp append_assoc

  whole : pre' ++ r.rest ≡ pre ++ s
  whole =
      append_assoc pre (zeros r.z ++ r.lit) r.rest
      ∙ ap (λ t. pre ++ t) (append_assoc (zeros r.z) r.lit r.rest ∙ r.parts)

  decoded_round :
      (runs : List RunLiteral)
      → decode_loop runs (length pre') (pre' ++ zeros (length r.rest)) ≡ some (pre' ++ r.rest)
      → decode_loop
          ((record { zero_run = r.z; literal = r.lit }) ∷ runs)
          (length pre)
          (pre ++ zeros (length s))
        ≡ some (pre ++ s)
  decoded_round runs ih =
      let len = round_length r in
      rw (← len) (
        decode_step pre r.lit r.z (length r.rest) runs (omega (arith, len))
        ∙ rw (← length-pre', after_assoc) (ih ∙ ap some whole))

-- Encoding what is left of a page and decoding it behind the bytes before gives the page.
rle_loop_lem :
    (f : ℕ) (pre s : List ℕ)
    → length s < f
    → length pre + length s ≡ page_size
    → (runs : List RunLiteral) × (rle_loop f s ≡ some runs)
      × (decode_loop runs (length pre) (pre ++ zeros (length s)) ≡ some (pre ++ s))
unfolding rle_loop decode_loop
rle_loop_lem zero pre s h total = absurd (omega arith)
rle_loop_lem (suc f) pre [] h total = ([], refl, refl)
rle_loop_lem (suc f) pre (x ∷ xs) h total =
    let r = round x xs in
    let (runs, found, decoded) =
      rle_loop_lem f (pre' pre (x ∷ xs) r total) r.rest (omega (arith, rest_shorter r))
        (omega (arith, round_length r, length-pre' pre (x ∷ xs) r total)) in
    (
      (record { zero_run = r.z; literal = r.lit }) ∷ runs,
      r.loop f ∙ rw found (ap some (pushed pre (x ∷ xs) r total runs)),
      decoded_round pre (x ∷ xs) r total runs decoded,
    )

rle_decode_lem :
    (runs : List RunLiteral) (n : ℕ)
    → n ≡ page_size
    → rle_decode runs ≡ decode_loop runs 0 (zeros n)
unfolding rle_decode
rle_decode_lem runs n h = ap (λ t. decode_loop runs 0 (zeros t)) (sym h)

-- The encoder ends within its fuel on every page, and decoding its runs does not panic and gives the
-- page back.
pub rle_decode-rle_encode :
    (buf : List ℕ)
    → length buf ≡ page_size
    → (runs : List RunLiteral) × (rle_encode buf ≡ some runs) × (rle_decode runs ≡ some buf)
unfolding rle_encode
rle_decode-rle_encode buf h =
    let (runs, found, decoded) =
      rle_loop_lem (page_size + 1) [] buf (omega arith) (omega (arith, h)) in
    (runs, found, rle_decode_lem runs (length buf) h ∙ decoded)

-- Whatever the runs, with literals that run over the end of the page or zero runs beyond it too, the
-- decoder does not panic: it slices neither the page nor a literal out of bounds.
pub rle_decode_total :
    (runs : List RunLiteral)
    → (page : List ℕ) × (rle_decode runs ≡ some page) × (length page ≡ page_size)
unfolding rle_decode
rle_decode_total runs = decode_loop_total runs 0 zero_page length-zero_page
