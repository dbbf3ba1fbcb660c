-- ===== src/Replicate.antt =====
-- chronos-replicate/src/lib.rs: the ring of deltas between the dispatch thread and the streaming
-- task, and the standby that applies them.
-- A method on a shared `&self` returns the new state of what it shares. The atomic counter lives in
-- the `DeltaRing`, at an address; a producer handle has that address only.
pub mod Ring
pub mod Exchange
pub mod Standby
pub mod Raws
pub mod Backlog
pub mod Order
pub mod Pipeline
mod UnitTests
mod Examples
use chronos_uvm.Prelude.{
  ℕ, zero, suc, ◌+◌, Bool, not, ◌&&◌, Option, none, some, List, [], ◌∷◌, leb, ◌==◌, if◌then◌else◌,
  ◌>>=◌,
}
use chronos_uvm.Prelude.Result.{Result, ok, err}
use chronos_uvm.Delta
use chronos_uvm.Delta.{PageDelta, DeltaEngine, apply}
use chronos_uvm.ArrayQueue.{ArrayQueue}

pub record TickBatch : Type 0 where
  pub tick : ℕ
  pub deltas : List PageDelta

pub data RingError : Type 0 where
  full : ℕ → RingError

pub record DeltaRingProducer : Type 0 where
  pub last_pushed_tick : ℕ

module _ (Q : ArrayQueue TickBatch) where
  open Q use {Queue, capacity}

  pub record DeltaRing : Type 0 where
    pub queue : Queue
    pub address : ℕ
    pub last_pushed_tick : ℕ

  -- A ring that is put at an address; `none` is the panic on a capacity of 0.
  pub new : ℕ → ℕ → Option DeltaRing
  new address capacity = do
    queue ← Q.new capacity
    some (record { queue = queue; address = address; last_pushed_tick = 0 })

  -- What both `push` methods do with the answer of the queue, `store` for the atomic.
  pub pushed :
      (DeltaRing → Option DeltaRing)
      → DeltaRing
      → Result TickBatch (Unit {0}) × Queue
      → Option (Result RingError (Unit {0}) × DeltaRing)
  pushed store r (err batch, q) = some (err (full (capacity q)), record r { queue = q })
  pushed store r (ok u, q) = do r ← store (record r { queue = q }); some (ok tt, r)

  pub push : TickBatch → DeltaRing → Option (Result RingError (Unit {0}) × DeltaRing)
  unfolding pushed
  push batch r =
      pushed (λ r. some (record r { last_pushed_tick = batch.tick })) r (Q.push batch r.queue)

  -- `while let Some(batch) = self.queue.pop()`, one unit of fuel for each round.
  pub drain_loop : ℕ → Queue → Option (List TickBatch × Queue)
  drain_loop zero q = none
  drain_loop (suc f) q =
      let rest = drain_loop f (Q.pop q).1 in
      elim (Q.pop q).0 [
        | none ↦ some ([], (Q.pop q).1)
        | some batch ↦ (do (out, q) ← rest; some (batch ∷ out, q))
      ]

  pub drain : DeltaRing → Option (List TickBatch × DeltaRing)
  unfolding drain_loop
  drain r = do
    (out, q) ← drain_loop (capacity r.queue + 1) r.queue
    some (out, record r { queue = q })

  pub last_pushed_tick : DeltaRing → ℕ
  last_pushed_tick r = r.last_pushed_tick

  pub producer_handle : DeltaRing → DeltaRingProducer
  producer_handle r = record { last_pushed_tick = r.address }

  -- The store through the raw address is undefined, `none`, where no counter lives.
  pub producer_push :
      DeltaRingProducer → TickBatch → DeltaRing → Option (Result RingError (Unit {0}) × DeltaRing)
  unfolding pushed
  producer_push h batch r =
      pushed
        (λ r.
          if h.last_pushed_tick == r.address
          then some (record r { last_pushed_tick = batch.tick })
          else none)
        r (Q.push batch r.queue)

pub record StandbyApplyLoop : Type 0 where
  pub engine : DeltaEngine
  pub last_applied_tick : ℕ

pub data ApplyError : Type 0 where
  out_of_order : ℕ → ℕ → ApplyError

pub new_standby : ℕ → Option StandbyApplyLoop
new_standby initial_capacity_pages = do
  engine ← Delta.new initial_capacity_pages
  some (record { engine = engine; last_applied_tick = 0 })

-- `for delta in &batch.deltas { self.engine.apply(delta); }`
pub apply_deltas : List PageDelta → DeltaEngine → Option DeltaEngine
apply_deltas [] e = some e
apply_deltas (delta ∷ deltas) e = do (out, e) ← apply delta e; apply_deltas deltas e

pub apply_batch :
    TickBatch → StandbyApplyLoop → Option (Result ApplyError (Unit {0}) × StandbyApplyLoop)
unfolding apply_deltas
apply_batch batch s =
    if leb batch.tick s.last_applied_tick && not (s.last_applied_tick == 0)
    then some (err (out_of_order s.last_applied_tick batch.tick), s)
    else (do
      engine ← apply_deltas batch.deltas s.engine
      some (ok tt, record { engine = engine; last_applied_tick = batch.tick }))

pub last_applied_tick : StandbyApplyLoop → ℕ
last_applied_tick s = s.last_applied_tick
