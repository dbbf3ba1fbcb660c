-- ===== src/Supervisor/Worlds.antt =====
-- The cells of a supervisor: those that are scheduled are there, and each is well formed.
use mathlib.Core.Logic.{ite}
use mathlib.Core.Path.{subst}
use mathlib.Core.Option.{some-injective}
use chronos_uvm.Prelude.{
  ℕ, ◌≡◌, ◌≢◌, refl, sym, ap, ◌∙◌, false, Bool, Option, some, List, [], ◌∷◌, ◌++◌, ◌==◌, ==_iff,
  if◌then◌else◌, arith, ℕ_discrete,
}
use chronos_uvm.Prelude.Maps.{HashMap, get, insert, get-insert}
use chronos_uvm.Blake3.{Blake3}
use chronos_uvm.ArrayQueue.{ArrayQueue}
use chronos_uvm.Memory.Pages.{IsPaged}
use chronos_uvm.Cell.{Cell}
use chronos_uvm.Replicate.{TickBatch, DeltaRing}
use chronos_uvm.Supervisor.{Quantum, QuantumExecutor, World, stored}
use chronos_uvm.Supervisor.Cells.{IsValid}

-- Every scheduled cell is there.
abbrev pub IsKnown {ℓ} : {A : Type ℓ} → (ℕ → Option A) → List ℕ → Type ℓ
IsKnown find [] = Unit
IsKnown {A = A} find (id ∷ ids) = ((c : A) × (find id ≡ some c)) × IsKnown find ids

pub IsKnown-snoc {ℓ} :
    {A : Type ℓ} (find : ℕ → Option A) (ids : List ℕ) (id : ℕ)
    → IsKnown find ids
    → (c : A) × (find id ≡ some c)
    → IsKnown find (ids ++ id ∷ [])
IsKnown-snoc find [] id k new = (new, tt)
IsKnown-snoc find (j ∷ ids) id k new = (k.0, IsKnown-snoc find ids id k.1 new)

-- A cell that is put in place leaves the others known.
pub IsKnown-insert :
    {A : Type 0} (id : ℕ) (c : A) (m : HashMap ℕ A) (ids : List ℕ)
    → IsKnown (λ j. get ℕ_discrete j m) ids
    → IsKnown (λ j. get ℕ_discrete j (insert ℕ_discrete id c m)) ids
IsKnown-insert {A = A} id c m [] k = tt
IsKnown-insert {A = A} id c m (j ∷ ids) ((old, found), k) =
    let (a, e) = there (ℕ_discrete id j) in
    ((a, get-insert ℕ_discrete id j c m ∙ e), IsKnown-insert id c m ids k)
  where
    there : (d : Dec (id ≡ j)) → (a : A) × (ite d (some c) (get ℕ_discrete j m) ≡ some a)
    there (yes _) = (c, refl)
    there (no _) = (old, found)

pub get-insert_self :
    {A : Type 0} (id : ℕ) (c : A) (m : HashMap ℕ A)
    → get ℕ_discrete id (insert ℕ_discrete id c m) ≡ some c
get-insert_self id c m = get-insert ℕ_discrete id id c m ∙ step (ℕ_discrete id id)
  where
    step : (d : Dec (id ≡ id)) → ite d (some c) (get ℕ_discrete id m) ≡ some c
    step (yes _) = refl
    step (no n) = absurd (n refl)

pub get-insert_ne :
    {A : Type 0} (id j : ℕ) (c : A) (m : HashMap ℕ A)
    → id ≢ j
    → get ℕ_discrete j (insert ℕ_discrete id c m) ≡ get ℕ_discrete j m
get-insert_ne id j c m n = get-insert ℕ_discrete id j c m ∙ step (ℕ_discrete id j)
  where
    step : (d : Dec (id ≡ j)) → ite d (some c) (get ℕ_discrete j m) ≡ get ℕ_discrete j m
    step (yes e) = absurd (n e)
    step (no _) = refl

module _ (B : Blake3) (Q : ArrayQueue TickBatch) (E : QuantumExecutor B) where
  open E use {Exec, run_quantum, register_digest}

  abbrev pub find : World B Q E → ℕ → Option (Cell B)
  find w id = get ℕ_discrete id w.supervisor.cells

  -- Every scheduled cell is there, and every cell is well formed.
  pub record IsConsistent (w : World B Q E) : Type 0 where
    pub known : IsKnown (find w) w.supervisor.scheduler.order
    pub cells_valid : (id : ℕ) (c : Cell B) → find w id ≡ some c → IsValid B c (w.held id)

  -- Every memory is of whole pages, as it is where the initial sizes are.
  abbrev pub ArePaged : World B Q E → Type 0
  ArePaged w = (id : ℕ) (c : Cell B) → find w id ≡ some c → IsPaged c.memory.size_bytes

  -- A change of one cell's state: the others are as they were.
  pub record Isolated (id : ℕ) (w w' : World B Q E) : Type 0 where
    pub cells : (j : ℕ) → id ≢ j → find w' j ≡ find w j
    pub mappings : (j : ℕ) → id ≢ j → (offset : ℕ) → w'.held j offset ≡ w.held j offset

  differs : (id j : ℕ) → id ≢ j → (j == id) ≡ false
  differs id j n = ground arith

  -- A well-formed cell that is put in place, with its mapping, leaves every cell well formed.
  pub inserted-IsValid :
      (id : ℕ) (c : Cell B) (held : ℕ → ℕ) (w : World B Q E)
      → IsConsistent w
      → IsValid B c held
      → (j : ℕ) (d : Cell B) → get ℕ_discrete j (insert ℕ_discrete id c w.supervisor.cells) ≡ some d
      → IsValid B d (if j == id then held else w.held j)
  inserted-IsValid id c held w k v j d e = at (ℕ_discrete id j)
    where
      at : Dec (id ≡ j) → IsValid B d (if j == id then held else w.held j)
      at (yes same) =
          let found : get ℕ_discrete id (insert ℕ_discrete id c w.supervisor.cells) ≡ some d =
            ap (λ (t : ℕ). get ℕ_discrete t (insert ℕ_discrete id c w.supervisor.cells)) same ∙ e in
          subst (λ (t : Bool). IsValid B d (if t then held else w.held j))
            (sym ((==_iff j id).1 (sym same)))
            (subst (λ (a : Cell B). IsValid B a held)
              (some-injective c d (sym (get-insert_self id c w.supervisor.cells) ∙ found)) v)
      at (no n) =
          subst (λ (t : Bool). IsValid B d (if t then held else w.held j)) (sym (differs id j n))
            (k.cells_valid j d (sym (get-insert_ne id j c w.supervisor.cells n) ∙ e))

  pub stored_lem :
      (id : ℕ) (q : Quantum B Exec) (c : Cell B) (ring : Option (DeltaRing Q)) (w : World B Q E)
      → IsConsistent w
      → IsValid B c q.held
      → IsConsistent (stored B Q E id q c ring w) × Isolated id w (stored B Q E id q c ring w)
  unfolding stored
  stored_lem id q c ring w k v = (
    record {
      known = IsKnown-insert id c w.supervisor.cells w.supervisor.scheduler.order k.known;
      cells_valid = inserted-IsValid id c q.held w k v;
    },
    record {
      cells = λ j n. get-insert_ne id j c w.supervisor.cells n;
      mappings = λ j n offset. ground (arith, n);
    },
  )
