-- ===== src/Supervisor/Failover.antt =====
-- The standby against the checkpoint of the primary.
use mathlib.Core.Path.{subst}
use mathlib.Core.Option.{some-injective}
use chronos_uvm.Prelude.{
  ◌*◌, ℕ, ◌+◌, ◌<◌, ◌≡◌, sym, ap, ◌∙◌, true, false, Option, some, [], ◌∷◌, length, Profile, u64,
}
use chronos_uvm.Prelude.Result.{Result, ok}
use chronos_uvm.Blake3.{Blake3}
use chronos_uvm.ArrayQueue.{ArrayQueue}
use chronos_uvm.Dirty.{is_dirty}
use chronos_uvm.Page.{page_size}
use chronos_uvm.Memory.Pages.{slice-ext}
use chronos_uvm.Delta.Engine.{baseline_of}
use chronos_uvm.Smt.Merkle.{merkle_root, merkle_root-ext}
use chronos_uvm.Checkpoint.{CheckpointEntry, latest}
use chronos_uvm.Cell.{Cell}
use chronos_uvm.Io.{drain_for_dispatch}
use chronos_uvm.Scheduler.{DispatchOutcome}
use chronos_uvm.Replicate.{TickBatch, DeltaRing, StandbyApplyLoop}
use chronos_uvm.Replicate.Ring.{batches}
use chronos_uvm.Supervisor.{SupervisorError, Quantum, QuantumExecutor, quantum_of}
use chronos_uvm.Supervisor.Cells.{pages_of, IsDisciplined}
use chronos_uvm.Supervisor.Settle.{Settled, Cleaned}
use chronos_uvm.Supervisor.Worlds.{find}
use chronos_uvm.Supervisor.Paged.{Ended-ArePaged}
use chronos_uvm.Supervisor.Cycle.{Ended}
use chronos_uvm.Supervisor.Dispatch.{dispatched, outcome_of, run_one_cycle_lem}
use chronos_uvm.Supervisor.Backed.{or_zero, Backed-quantum}
use chronos_uvm.Supervisor.Mirror.{
  cycle, ship, Pair, ha_step, ha_run, clock_of, Mirrored, Ended-Mirrored,
}
use chronos_uvm.Supervisor.History.{ship_lem}

module _ (B : Blake3) (Q : ArrayQueue TickBatch) (E : QuantumExecutor B) (id : ℕ) where
  open Q use {capacity}

  -- The Merkle root of the pages at the standby.
  abbrev pub standby_root : StandbyApplyLoop → B.Hash
  standby_root s = merkle_root B (λ i. B.hash (or_zero (baseline_of s.engine i)))

  -- The cell's newest checkpoint has the root of the standby's pages.
  abbrev pub HasRoot : Pair B Q E → Type 0
  HasRoot y =
      (c : Cell B) × (find B Q E y.world id ≡ some c)
      × (e : CheckpointEntry B) × (latest B c.checkpoints ≡ some e)
      × (e.smt_root ≡ standby_root y.standby)

  -- A block that sent its pages leaves no page dirty, and its checkpoint has the root of the pages.
  sent_whole :
      (o : DispatchOutcome) (digest : B.Hash) (held : ℕ → ℕ) (c c' : Cell B) (ring : DeltaRing Q)
      (before : Option (DeltaRing Q)) (answer : Result SupervisorError (Unit {0}))
      (after : Option (DeltaRing Q))
      → before ≡ some ring
      → length (batches Q ring) < capacity ring.queue
      → Settled B Q o digest held c before answer c' after
      → ((i : ℕ) → is_dirty c'.memory.dirty i ≡ false)
        × (e : CheckpointEntry B) × (latest B c'.checkpoints ≡ some e)
        × (e.smt_root ≡ merkle_root B (λ i. B.hash (pages_of held i)))
  sent_whole o digest held c c' ring before answer after has room ended =
      let settled =
        subst (λ (r : Option (DeltaRing Q)). Settled B Q o digest held c r answer c' after) has
          ended in
      let (ring', kept, sends, no_room) = settled.sent in
      let cleared =
        subst (λ (a : Result SupervisorError (Unit {0})). Cleaned B Q a c c') (sends room).0
          settled.cleaned in
      let (e, newest, tick, digests, root) = settled.taken.newest in
      (cleared.none_dirty, e, newest, root)

  module _ (p : Profile) where
    -- The step that ships, from what the cycle before it left: the standby has all that is in `held`.
    ships_whole :
        (x : Pair B Q E) (held : ℕ → ℕ) (c : Cell B)
        → Mirrored B Q E id x
        → find B Q E x.world id ≡ some c
        → ((offset : ℕ) → x.world.held id offset ≡ held offset)
        → ((i : ℕ) → is_dirty c.memory.dirty i ≡ false)
        → (y : Pair B Q E) × (ha_step B Q E p ship x ≡ some y)
          × (find B Q E y.world id ≡ some c)
          × (merkle_root B (λ i. B.hash (pages_of held i)) ≡ standby_root y.standby)
    ships_whole x held c m found same clean =
        let (y, done, my, fresh, at, kept, cells) = ship_lem B Q E id p x m in
        let there : find B Q E y.world id ≡ some c = ap (λ f. f id) cells ∙ found in
        let page = λ (i : ℕ). sym (
          fresh c there i (clean i)
          ∙ ap (λ (h : ℕ → ℕ → ℕ). pages_of (h id) i) kept
          ∙ slice-ext (x.world.held id) held (i * page_size) page_size (λ k l. same k)) in
        (
          y,
          done,
          there,
          merkle_root-ext B (λ i. B.hash (pages_of held i))
              (λ i. B.hash (or_zero (baseline_of y.standby.engine i))) (λ i. ap B.hash (page i)),
        )

    -- One cell whose memory is of whole pages, with a standby that with the ring has its clean
    -- pages, and an executor that marks every page that it writes and only pages with a committed
    -- byte, clears no mark, keeps the memory well formed, grows it by whole pages only, and leaves
    -- the mapping, the config, the checkpoints and their tick alone (`IsDisciplined`). If in the
    -- next cycle the quantum does not fault and a checkpoint is due, the ring has room and the
    -- clock is not at its last tick, then the cycle and a shipment after it end, and the Merkle
    -- root of the cell's newest checkpoint is that of the pages at the standby.
    pub failover_lem :
        (x : Pair B Q E) (c : Cell B) (n : ℕ) (ring : DeltaRing Q)
        → IsDisciplined B E
        → Mirrored B Q E id x
        → x.world.supervisor.replication ≡ some ring
        → clock_of B Q E x + 1 < u64
        → find B Q E x.world id ≡ some c
        → (quantum_of B Q E id c (dispatched B Q E p x.world id [])).result ≡ ok n
        → (outcome_of B Q E p x.world id).checkpoint_due ≡ true
        → length (batches Q ring) < capacity ring.queue
        → (y : Pair B Q E) × (ha_run B Q E p (cycle ∷ ship ∷ []) x ≡ some y) × HasRoot y
    unfolding ha_run ha_step quantum_of
    failover_lem x c n ring disciplined m has room found fine now free =
        let (c₁, found₁, (answer, w), done, ended₁) =
          run_one_cycle_lem B Q E p x.world id [] disciplined m.consistent (m.paged id) m.alone
            room in
        let q : Quantum B E.Exec = quantum_of B Q E id c (dispatched B Q E p x.world id []) in
        let drained : Cell B = record c { pending_io = (drain_for_dispatch c.pending_io).1 } in
        let ended =
          subst
            (λ (a : Cell B).
              Ended B Q E (outcome_of B Q E p x.world id)
                (quantum_of B Q E id a (dispatched B Q E p x.world id []))
                (dispatched B Q E p x.world id []) answer w)
            (some-injective c₁ c (sym found₁ ∙ found)) ended₁ in
        let ran =
          disciplined drained (x.world.held id) x.world.supervisor.max_instructions_per_quantum
            x.world.exec (m.consistent.cells_valid id c found).readable in
        let b =
          Backed-quantum B (batches Q m.ring) x.standby (clock_of B Q E x) drained (x.world.held id)
            q ran (m.backed c found) in
        let paged =
          Ended-ArePaged B Q E p x.world w id [] c answer disciplined m.consistent m.paged found
            ended in
        let mirrored = Ended-Mirrored B Q E id p x m q answer w ran.readable paged b ended in
        let (flushed, c', reported, left, settled) = ended.due n fine now in
        let (clean, e, newest, root) =
          sent_whole (outcome_of B Q E p x.world id) (E.register_digest q.exec q.cell) q.held q.cell
            c' ring x.world.supervisor.replication flushed w.supervisor.replication has free
            settled in
        let (y, shipped, there, same) =
          ships_whole (record x { world = w }) q.held c' mirrored left.0 left.1 clean in
        (y, rw (done, shipped), (c', there, e, newest, root ∙ same))
