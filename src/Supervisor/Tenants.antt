-- ===== src/Supervisor/Tenants.antt =====
-- The memories of the cells, over any history of spawns and cycles.
use mathlib.Core.Path.{subst}
use mathlib.Core.Option.{some-injective}
use chronos_uvm.Prelude.{
  ℕ, ◌≡◌, ◌≢◌, refl, sym, ap, ◌∙◌, true, false, Bool-cases, inl, inr, ◌⊎◌, Option, some, List, [],
  ◌∷◌, Profile, arith, ℕ_discrete,
}
use chronos_uvm.Prelude.Result.{Result, ok, err}
use chronos_uvm.Blake3.{Blake3}
use chronos_uvm.HostMemory.{Region, Apart, AreApart, is_mapped, same_region, HostMemory}
use chronos_uvm.ArrayQueue.{ArrayQueue}
use chronos_uvm.Memory.{MmapGuardedMemory}
use chronos_uvm.Memory.Layout.{region_of}
use chronos_uvm.Cell.{Cell, CellConfig}
use chronos_uvm.Io.{drain_for_dispatch}
use chronos_uvm.Replicate.{TickBatch}
use chronos_uvm.Supervisor.{
  SupervisorError, duplicate_cell, memory_init, replication_backpressure, QuantumFault, Quantum,
  QuantumExecutor, World, quantum_of,
}
use chronos_uvm.Supervisor.Cells.{IsDisciplined}
use chronos_uvm.Supervisor.Worlds.{find, IsConsistent, Isolated}
use chronos_uvm.Supervisor.Cycle.{Ended}
use chronos_uvm.Supervisor.Dispatch.{dispatched, outcome_of}
use chronos_uvm.Supervisor.Spawn.{Answered}

Apart-sym : (r s : Region) → Apart r s → Apart s r
Apart-sym r s (inl h) = inr h
Apart-sym r s (inr h) = inl h

same_region-eq : (r s : Region) → same_region r s ≡ true → r ≡ s
same_region-eq (a, n) (b, k) h =
    let both : (a ≡ b) × (n ≡ k) = ground (arith, h) in λ i. (both.0 i, both.1 i)

-- Apart from every mapping, so from each one.
AreApart-is_mapped :
    (r s : Region) (regions : List Region)
    → AreApart r regions
    → is_mapped s regions ≡ true
    → Apart r s
AreApart-is_mapped r s [] apart h = absurd (cc h)
AreApart-is_mapped r s (t ∷ regions) (first, others) h = elim (Bool-cases (same_region s t)) [
  | inl e ↦ subst (Apart r) (sym (same_region-eq s t e)) first
  | inr n ↦ AreApart-is_mapped r s regions others (ground (arith, h, n))
]

module _ (B : Blake3) (Q : ArrayQueue TickBatch) (E : QuantumExecutor B) (M : HostMemory) where
  abbrev pub region : Cell B → Region
  region c = region_of c.memory

  -- Every cell has its own mapping.
  pub record AreTenants (w : World B Q E) (h : M.Host) : Type 0 where
    pub mapped :
        (id : ℕ) (c : Cell B)
        → find B Q E w id ≡ some c
        → is_mapped (region c) (M.mappings h) ≡ true
    pub apart :
        (id j : ℕ) (c d : Cell B)
        → id ≢ j
        → find B Q E w id ≡ some c
        → find B Q E w j ≡ some d
        → Apart (region c) (region d)

  -- One cell changes, but for its mapping: then the tenants stay as they are.
  changed-AreTenants :
      (id : ℕ) (c c' : Cell B) (w w' : World B Q E) (h : M.Host)
      → AreTenants w h
      → Isolated B Q E id w w'
      → find B Q E w id ≡ some c
      → find B Q E w' id ≡ some c'
      → region c' ≡ region c
      → AreTenants w' h
  changed-AreTenants id c c' w w' h t isolated found found' same = record {
    mapped = λ j d e.
        let (d₀, before, r) = was j d e (ℕ_discrete id j) in
        ap (λ s. is_mapped s (M.mappings h)) r ∙ t.mapped j d₀ before;
    apart = λ j k d e n fd fe.
        let (d₀, before_d, r) = was j d fd (ℕ_discrete id j) in
        let (e₀, before_e, s) = was k e fe (ℕ_discrete id k) in
        subst (λ x. Apart x (region e)) (sym r)
          (subst (Apart (region d₀)) (sym s) (t.apart j k d₀ e₀ n before_d before_e));
  }
    where
      -- Each cell was there, with the same mapping.
      was :
          (j : ℕ) (d : Cell B)
          → find B Q E w' j ≡ some d
          → Dec (id ≡ j)
          → (d₀ : Cell B) × (find B Q E w j ≡ some d₀) × (region d ≡ region d₀)
      was j d e (yes is) =
          let now : find B Q E w' id ≡ some d = ap (find B Q E w') is ∙ e in
          (
            c,
            ap (find B Q E w) (sym is) ∙ found,
            ap (λ (a : Cell B). region a) (some-injective d c' (sym now ∙ found')) ∙ same,
          )
      was j d e (no n) = (d, sym (isolated.cells j n) ∙ e, refl)

  -- A new cell, over a new mapping.
  pub added-AreTenants :
      (id : ℕ) (c : Cell B) (w w' : World B Q E) (h h' : M.Host)
      → AreTenants w h
      → Isolated B Q E id w w'
      → find B Q E w' id ≡ some c
      → M.mappings h' ≡ region c ∷ M.mappings h
      → AreApart (region c) (M.mappings h)
      → AreTenants w' h'
  added-AreTenants id c w w' h h' t isolated found grown apart = record {
    mapped = λ j d e. ap (is_mapped (region d)) grown ∙ is_there j d e (ℕ_discrete id j);
    apart = λ j k d e n fd fe. pair j k d e n fd fe (ℕ_discrete id j) (ℕ_discrete id k);
  }
    where
      is_new : (j : ℕ) (d : Cell B) → find B Q E w' j ≡ some d → id ≡ j → region d ≡ region c
      is_new j d e is =
          ap (λ (a : Cell B). region a)
            (some-injective d c (sym (ap (find B Q E w') is ∙ e) ∙ found))

      was : (j : ℕ) (d : Cell B) → find B Q E w' j ≡ some d → id ≢ j → find B Q E w j ≡ some d
      was j d e n = sym (isolated.cells j n) ∙ e

      is_there :
          (j : ℕ) (d : Cell B)
          → find B Q E w' j ≡ some d
          → Dec (id ≡ j)
          → is_mapped (region d) (region c ∷ M.mappings h) ≡ true
      is_there j d e (yes is) =
          ap (λ s. is_mapped s (region c ∷ M.mappings h)) (is_new j d e is) ∙ ground arith
      is_there j d e (no n) = let old = t.mapped j d (was j d e n) in ground (arith, old)

      pair :
          (j k : ℕ) (d e : Cell B)
          → j ≢ k
          → find B Q E w' j ≡ some d
          → find B Q E w' k ≡ some e
          → Dec (id ≡ j)
          → Dec (id ≡ k)
          → Apart (region d) (region e)
      pair j k d e n fd fe (yes p) (yes q) = absurd (n (sym p ∙ q))
      pair j k d e n fd fe (yes p) (no q) =
          subst (λ x. Apart x (region e)) (sym (is_new j d fd p))
            (AreApart-is_mapped (region c) (region e) (M.mappings h) apart
              (t.mapped k e (was k e fe q)))
      pair j k d e n fd fe (no p) (yes q) =
          subst (λ x. Apart (region d) x) (sym (is_new k e fe q))
            (Apart-sym (region c) (region d) (
              AreApart-is_mapped (region c) (region d) (M.mappings h) apart
                (t.mapped j d (was j d fd p))))
      pair j k d e n fd fe (no p) (no q) = t.apart j k d e n (was j d fd p) (was k e fe q)

  -- `spawn_cell`, from its answer.
  pub Answered-AreTenants :
      (p : Profile) (config : CellConfig) (w w' : World B Q E) (h h' : M.Host)
      (answer : Result SupervisorError (Unit {0}))
      → AreTenants w h
      → Answered B Q E p M config w h answer w' h'
      → AreTenants w' h' × (w'.supervisor.scheduler.clock ≡ w.supervisor.scheduler.clock)
  Answered-AreTenants p config w w' h h' (ok u) t
        (fresh, (c, found, made, size, grown, apart), order, clock, isolated) =
      (added-AreTenants config.id c w w' h h' t isolated found grown apart, clock)
  Answered-AreTenants p config w w' h h' (err (duplicate_cell id)) t (is, there, same, same_host) =
      rw (same, same_host) (t, refl)
  Answered-AreTenants p config w w' h h' (err (memory_init id e)) t (is, same, refused, kept) =
      subst
        (λ (v : World B Q E).
          AreTenants v h' × (v.supervisor.scheduler.clock ≡ w.supervisor.scheduler.clock))
        (sym same)
        (
          record {
            mapped = λ j d e. ap (is_mapped (region d)) kept ∙ t.mapped j d e;
            apart = t.apart;
          },
          refl,
        )
  Answered-AreTenants p config w w' h h' (err (replication_backpressure id e)) t never =
      absurd never

  -- `run_one_cycle`, from what it does to the cell that it dispatches.
  pub Ended-AreTenants :
      (p : Profile) (w w' : World B Q E) (h : M.Host) (id : ℕ) (rest : List ℕ) (c : Cell B)
      (answer : Result SupervisorError (Option (ℕ × ℕ)))
      → IsDisciplined B E
      → IsConsistent B Q E w
      → AreTenants w h
      → find B Q E w id ≡ some c
      → Ended B Q E
          (outcome_of B Q E p w id)
          (quantum_of B Q E id c (dispatched B Q E p w id rest))
          (dispatched B Q E p w id rest)
          answer
          w'
      → AreTenants w' h
  unfolding quantum_of
  Ended-AreTenants p w w' h id rest c answer disciplined k t found ended =
      split q.result refl (Bool-cases (outcome_of B Q E p w id).checkpoint_due)
    where
      drained : Cell B
      drained = record c { pending_io = (drain_for_dispatch c.pending_io).1 }

      q : Quantum B E.Exec
      q = quantum_of B Q E id c (dispatched B Q E p w id rest)

      isolated : Isolated B Q E id w w'
      isolated = record { cells = ended.isolated.cells; mappings = ended.isolated.mappings }

      ran_region : region q.cell ≡ region c
      ran_region =
          (disciplined drained (w.held id) w.supervisor.max_instructions_per_quantum w.exec
            (k.cells_valid id c found).readable).region_kept

      as_left : find B Q E w' id ≡ some q.cell → AreTenants w' h
      as_left after = changed-AreTenants id c q.cell w w' h t isolated found after ran_region

      split :
          (o : Result QuantumFault ℕ)
          → q.result ≡ o
          → ((outcome_of B Q E p w id).checkpoint_due ≡ true)
            ⊎ ((outcome_of B Q E p w id).checkpoint_due ≡ false)
          → AreTenants w' h
      split (err fault) e d = as_left (ended.faulted fault e).1.0
      split (ok n) e (inr quiet) = as_left (ended.not_due n e quiet).1.0
      split (ok n) e (inl now) =
          let (flushed, c', done, left, settled) = ended.due n e now in
          changed-AreTenants id c c' w w' h t isolated found left.0
            (ap (λ (m : MmapGuardedMemory). region_of m) settled.taken.memory_kept ∙ ran_region)
