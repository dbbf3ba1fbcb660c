-- ===== src/Prelude/Lists.antt =====
-- Lists measured and indexed by native numbers, under the library's names.
use Prim.Native.Nat.{ℕ, zero, suc, ◌+◌, ◌≤◌, ◌<◌}
use mathlib.Core.Path.{◌≡◌, refl, ap}
use mathlib.Core.Logic.{◌≢◌}
use mathlib.Core.List.{List, [], ◌∷◌, ◌++◌, map}
use mathlib.Core.Option.{Option, none, some}
use native.Mathlib.Omega.{arith}
use chronos_uvm.Prelude.Tests.{ltb, if◌then◌else◌}

module _ {ℓ} {A : Type ℓ} where
  abbrev pub length : List A → ℕ
  length [] = 0
  length (x ∷ xs) = suc (length xs)

  abbrev pub get_elem? : List A → ℕ → Option A
  get_elem? [] i = none
  get_elem? (x ∷ xs) zero = some x
  get_elem? (x ∷ xs) (suc i) = get_elem? xs i

  -- A write out of bounds changes nothing.
  abbrev pub set : List A → ℕ → A → List A
  set [] i v = []
  set (x ∷ xs) zero v = v ∷ xs
  set (x ∷ xs) (suc i) v = x ∷ set xs i v

  pub length-append : (xs ys : List A) → length (xs ++ ys) ≡ length xs + length ys
  length-append [] ys = omega arith
  length-append (x ∷ xs) ys = omega (arith, length-append xs ys)

module _ {ℓ} {A : Type ℓ} where
  pub length-set : (xs : List A) (i : ℕ) (v : A) → length (set xs i v) ≡ length xs
  length-set [] i v = refl
  length-set (x ∷ xs) zero v = refl
  length-set (x ∷ xs) (suc i) v = ap suc (length-set xs i v)

  pub get_elem?-set_self :
      (xs : List A) (i : ℕ) (v : A) → i < length xs → get_elem? (set xs i v) i ≡ some v
  get_elem?-set_self [] i v h = elim h [ ]
  get_elem?-set_self (x ∷ xs) zero v h = refl
  get_elem?-set_self (x ∷ xs) (suc i) v h = get_elem?-set_self xs i v (omega arith)

  pub get_elem?-set_ne :
      (xs : List A) {i j : ℕ} (v : A) → i ≢ j → get_elem? (set xs i v) j ≡ get_elem? xs j
  get_elem?-set_ne [] v h = refl
  get_elem?-set_ne (x ∷ xs) {i = zero} {j = zero} v h = absurd (h refl)
  get_elem?-set_ne (x ∷ xs) {i = zero} {j = suc j} v h = refl
  get_elem?-set_ne (x ∷ xs) {i = suc i} {j = zero} v h = refl
  get_elem?-set_ne (x ∷ xs) {i = suc i} {j = suc j} v h = get_elem?-set_ne xs v (λ e. h (ap suc e))

module _ {ℓ} {A : Type ℓ} where
  abbrev pub get_or : List A → ℕ → A → A
  get_or [] i d = d
  get_or (x ∷ xs) zero d = x
  get_or (x ∷ xs) (suc i) d = get_or xs i d

  abbrev pub take : ℕ → List A → List A
  take zero xs = []
  take (suc n) [] = []
  take (suc n) (x ∷ xs) = x ∷ take n xs

  abbrev pub drop : ℕ → List A → List A
  drop zero xs = xs
  drop (suc n) [] = []
  drop (suc n) (x ∷ xs) = drop n xs

  abbrev pub replicate : ℕ → A → List A
  replicate zero a = []
  replicate (suc n) a = a ∷ replicate n a

  pub length-replicate : (n : ℕ) (a : A) → length (replicate n a) ≡ n
  length-replicate zero a = refl
  length-replicate (suc n) a = ap suc (length-replicate n a)

  pub length-map {κ} : {B : Type κ} (xs : List A) (f : A → B) → length (map f xs) ≡ length xs
  length-map [] f = refl
  length-map (x ∷ xs) f = ap suc (length-map xs f)

  pub get_elem?-in_range :
      (xs : List A) (i : ℕ) → i < length xs → (x : A) × (get_elem? xs i ≡ some x)
  get_elem?-in_range [] i h = absurd (omega arith)
  get_elem?-in_range (x ∷ xs) zero h = (x, refl)
  get_elem?-in_range (x ∷ xs) (suc i) h = get_elem?-in_range xs i (omega arith)

  pub get_elem?-out_of_range : (xs : List A) (i : ℕ) → length xs ≤ i → get_elem? xs i ≡ none
  get_elem?-out_of_range [] i h = refl
  get_elem?-out_of_range (x ∷ xs) zero h = absurd (omega arith)
  get_elem?-out_of_range (x ∷ xs) (suc i) h = get_elem?-out_of_range xs i (omega arith)

  pub set-same : (xs : List A) (i : ℕ) (v : A) → get_elem? xs i ≡ some v → set xs i v ≡ xs
  set-same [] i v h = refl
  set-same (x ∷ xs) zero v h = cc
  set-same (x ∷ xs) (suc i) v h = ap (λ t. x ∷ t) (set-same xs i v h)

  -- `Vec::resize`
  abbrev pub resize : ℕ → A → List A → List A
  resize zero a xs = []
  resize (suc n) a [] = a ∷ resize n a []
  resize (suc n) a (x ∷ xs) = x ∷ resize n a xs

  -- `xs[i] = v`, which panics out of range
  abbrev pub put : List A → ℕ → A → Option (List A)
  put xs i v = if ltb i (length xs) then some (set xs i v) else none

  pub length-resize : (n : ℕ) (a : A) (xs : List A) → length (resize n a xs) ≡ n
  length-resize zero a xs = refl
  length-resize (suc n) a [] = ap suc (length-resize n a [])
  length-resize (suc n) a (x ∷ xs) = ap suc (length-resize n a xs)

  pub put-in_range : (xs : List A) (i : ℕ) (v : A) → i < length xs → put xs i v ≡ some (set xs i v)
  put-in_range xs i v h = ground arith

  -- `last`
  abbrev pub get_last? : List A → Option A
  get_last? [] = none
  get_last? (x ∷ []) = some x
  get_last? (x ∷ y ∷ xs) = get_last? (y ∷ xs)

  pub get_last?-snoc : (xs : List A) (x : A) → get_last? (xs ++ x ∷ []) ≡ some x
  get_last?-snoc [] x = refl
  get_last?-snoc (y ∷ []) x = refl
  get_last?-snoc (y ∷ z ∷ xs) x = get_last?-snoc (z ∷ xs) x

module _ {A : Type 0} where
  -- An element that was there stays, and a new one is the filling.
  pub get_elem?-resize :
      (n : ℕ) (a : A) (xs : List A) (i : ℕ)
      → length xs ≤ n
      → get_elem? (resize n a xs) i
        ≡ (if ltb i (length xs) then get_elem? xs i else if ltb i n then some a else none)
  get_elem?-resize zero a [] i h = ground arith
  get_elem?-resize zero a (x ∷ xs) i h = absurd (omega arith)
  get_elem?-resize (suc n) a [] zero h = ground arith
  get_elem?-resize (suc n) a [] (suc i) h = ground (arith, get_elem?-resize n a [] i)
  get_elem?-resize (suc n) a (x ∷ xs) zero h = ground arith
  get_elem?-resize (suc n) a (x ∷ xs) (suc i) h = ground (arith, get_elem?-resize n a xs i)
