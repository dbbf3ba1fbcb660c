-- ===== src/Smt/Levels.antt =====
-- One level of the loop of `root`: from the nodes at one height to those at the next.
use chronos_uvm.Prelude.{
  ℕ, zero, suc, ◌+◌, ◌*◌, ◌/◌, ◌<◌, ◌≡◌, ◌⊎◌, refl, sym, Bool, true, false, ◌||◌, Option, none,
  some, List, [], ◌∷◌, ℕ_discrete, if◌then◌else◌, ◌==◌, arith, Bool-cases, inl, inr,
}
use chronos_uvm.Prelude.Maps.{HashMap, get, insert, contains_key, get-insert}
use chronos_uvm.Prelude.Bits.{bit}
use mathlib.Core.Path.{ap₂}
use native.Mathlib.Nat.{pow-suc}
use native.Mathlib.Numerals.{add-one}
use chronos_uvm.Blake3.{Blake3}
use chronos_uvm.Smt.{get_or, combine, default_hashes, parent_hash, fill_next, climb}
use chronos_uvm.Smt.Merkle.{node}

-- Whether an entry lies under the node `p` of the next level.
module _ {V : Type 0} where
  abbrev has_child : ℕ → List (ℕ × V) → Bool
  has_child p [] = false
  has_child p ((idx, _) ∷ entries) = idx / 2 == p || has_child p entries

  -- If no entry lies under `p`, neither child of `p` is there.
  no_child :
      (p j : ℕ) (entries : List (ℕ × V))
      → has_child p entries ≡ false
      → j / 2 ≡ p
      → get ℕ_discrete j entries ≡ none
  unfolding get
  no_child p j [] h e = refl
  no_child p j ((idx, v) ∷ entries) h e = ground (arith, no_child p j entries)

abbrev or_else {ℓ} : {A : Type ℓ} → Option A → Option A → Option A
or_else none b = b
or_else (some a) b = some a

or_else-none {ℓ} : {A : Type ℓ} (o : Option A) → or_else o none ≡ o
or_else-none none = refl
or_else-none (some a) = refl

abbrev pub KeysBelow : {V : Type 0} → ℕ → List (ℕ × V) → Type 0
KeysBelow n [] = Unit
KeysBelow n ((k, v) ∷ m) = (k < n) × KeysBelow n m

pub KeysBelow-insert :
    {V : Type 0} (n k : ℕ) (v : V) (m : HashMap ℕ V)
    → k < n
    → KeysBelow n m
    → KeysBelow n (insert ℕ_discrete k v m)
unfolding insert
KeysBelow-insert n k v [] h b = (h, tt)
KeysBelow-insert n k v ((j, w) ∷ m) h b = elim (ℕ_discrete j k) [
  | yes e ↦ ground (arith, KeysBelow-insert n k v m)
  | no ne ↦ ground (arith, KeysBelow-insert n k v m)
]

module _ (B : Blake3) where
  open B use {Hash}

  -- What the loop over a level leaves for the index `p`.
  get-fill_next :
      (d : Hash) (level : HashMap ℕ Hash) (entries : List (ℕ × Hash)) (next : HashMap ℕ Hash)
      (p : ℕ)
      → get ℕ_discrete p (fill_next B d level entries next)
        ≡ or_else
            (get ℕ_discrete p next)
            (if has_child p entries then some (parent_hash B d level p) else none)
  unfolding fill_next
  get-fill_next d level [] next p = sym (or_else-none (get ℕ_discrete p next))
  get-fill_next d level ((idx, h) ∷ entries) next p =
      rw (get-fill_next d level entries) (elim (ℕ_discrete (idx / 2) p) [
        | yes e ↦ rw e (ground (arith, get-insert ℕ_discrete p p (parent_hash B d level p) next))
        | no ne ↦
            ground (arith, get-insert ℕ_discrete (idx / 2) p (parent_hash B d level (idx / 2)) next)
      ])

  KeysBelow-fill_next :
      (n : ℕ) (d : Hash) (level : HashMap ℕ Hash) (entries : List (ℕ × Hash))
      (next : HashMap ℕ Hash)
      → KeysBelow (bit (suc n)) entries
      → KeysBelow (bit n) next
      → KeysBelow (bit n) (fill_next B d level entries next)
  unfolding fill_next
  KeysBelow-fill_next n d level [] next h b = b
  KeysBelow-fill_next n d level ((idx, v) ∷ entries) next h b =
      KeysBelow-fill_next n d level entries _ h.1
        (step (Bool-cases (contains_key ℕ_discrete (idx / 2) next)))
    where
      filled : HashMap ℕ Hash
      filled =
          if contains_key ℕ_discrete (idx / 2) next
          then next
          else insert ℕ_discrete (idx / 2) (parent_hash B d level (idx / 2)) next

      step :
          (contains_key ℕ_discrete (idx / 2) next ≡ true)
            ⊎ (contains_key ℕ_discrete (idx / 2) next ≡ false)
          → KeysBelow (bit n) filled
      step (inl e) = rw e b
      step (inr e) = rw e (
          KeysBelow-insert (bit n) (idx / 2) (parent_hash B d level (idx / 2)) next
            (omega (arith, h.0, pow-suc 2 n)) b)

  -- A level of the map stands for the nodes of the tree at height `d`, `n` levels under the root.
  pub record IsLevel (leaf : ℕ → Hash) (n d : ℕ) (m : HashMap ℕ Hash) : Type 0 where
    pub agrees : (i : ℕ) → get_or (default_hashes B d) (get ℕ_discrete i m) ≡ node B leaf d i
    pub below : KeysBelow (bit n) m

  module _ (leaf : ℕ → Hash) (n d : ℕ) (m : HashMap ℕ Hash) (l : IsLevel leaf (suc n) d m) where
    parent-node : (i : ℕ) → parent_hash B (default_hashes B d) m i ≡ node B leaf (suc d) i
    unfolding parent_hash node
    parent-node i = ap₂ (combine B) (l.agrees (i * 2)) (l.agrees (i * 2 + 1))

    default-node :
        (i : ℕ) → has_child i m ≡ false → default_hashes B (suc d) ≡ node B leaf (suc d) i
    unfolding default_hashes node
    default-node i h =
        let left = no_child i (i * 2) m h (omega arith) in
        let right = no_child i (i * 2 + 1) m h (omega arith) in
        ap₂ (combine B) (rw left at (l.agrees (i * 2))) (rw right at (l.agrees (i * 2 + 1)))

    IsLevel-fill_next : IsLevel leaf n (suc d) (fill_next B (default_hashes B d) m m [])
    unfolding get
    IsLevel-fill_next = record {
      agrees = λ i.
          rw (get-fill_next (default_hashes B d) m m [] i) (step i (Bool-cases (has_child i m)));
      below = KeysBelow-fill_next n (default_hashes B d) m m [] l.below tt;
    }
      where
        step :
            (i : ℕ)
            → (has_child i m ≡ true) ⊎ (has_child i m ≡ false)
            → get_or
                (default_hashes B (suc d))
                (if has_child i m then some (parent_hash B (default_hashes B d) m i) else none)
              ≡ node B leaf (suc d) i
        step i (inl e) = rw e (parent-node i)
        step i (inr e) = rw e (default-node i e)

  pub IsLevel-climb :
      (leaf : ℕ → Hash) (n d k : ℕ) (m : HashMap ℕ Hash)
      → d + n ≡ k
      → IsLevel leaf n d m
      → IsLevel leaf 0 k (climb B (default_hashes B) n d m)
  unfolding climb
  IsLevel-climb leaf zero d k m e l = let e' : d ≡ k = omega arith in rw (← e') l
  IsLevel-climb leaf (suc n) d k m e l =
      IsLevel-climb leaf n (d + 1) k (fill_next B (default_hashes B d) m m []) (omega arith)
        (rw add-one (IsLevel-fill_next leaf n d m l))
