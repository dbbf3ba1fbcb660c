-- ===== src/Replicate/Exchange.antt =====
-- The two threads at the ring: every batch that was accepted comes out once, in order.
use chronos_uvm.Prelude.{
  ◌<◌, ◌≡◌, refl, sym, ap, ◌∙◌, Option, none, some, List, [], ◌∷◌, ◌++◌, length, ◌>>=◌, arith,
  dec_lt,
}
use chronos_uvm.Prelude.Result.{Result, ok, err}
use mathlib.Core.List.{append_assoc, append-nil}
use chronos_uvm.ArrayQueue.{ArrayQueue}
use chronos_uvm.Replicate.{TickBatch, RingError, DeltaRing, push}
use chronos_uvm.Replicate.Ring.{batches, Pushed, push_lem}

-- The two threads at the ring: the producer pushes a batch, the loop of a drain pops one.
pub data RingStep : Type 0 where
  produce : TickBatch → RingStep
  consume : RingStep

abbrev accepted : Result RingError (Unit {0}) → TickBatch → List TickBatch → List TickBatch
accepted (ok u) batch sent = batch ∷ sent
accepted (err e) batch sent = sent

abbrev received : Option TickBatch → List TickBatch → List TickBatch
received none out = out
received (some batch) out = batch ∷ out

-- What was sent and what came out on the way, and the queue at the end.
pub record Exchange (A : Type 0) : Type 0 where
  pub sent : List TickBatch
  pub out : List TickBatch
  pub ring : A

module _ (Q : ArrayQueue TickBatch) where
  open Q use {Queue, contents, capacity}

  pub exchange : List RingStep → DeltaRing Q → Option (Exchange (DeltaRing Q))
  exchange [] r = some (record { sent = []; out = []; ring = r })
  exchange (produce batch ∷ steps) r = do
    (o, r) ← push Q batch r
    x ← exchange steps r
    some (record x { sent = accepted o batch x.sent })
  exchange (consume ∷ steps) r = do
    x ← exchange steps (record r { queue = (Q.pop r.queue).1 })
    some (record x { out = received (Q.pop r.queue).0 x.out })

  Pushed-split :
      (batch : TickBatch) (r r' : DeltaRing Q) (o : Result RingError (Unit {0}))
      (sent : List TickBatch)
      → Pushed Q batch r o r'
      → batches Q r' ++ sent ≡ batches Q r ++ accepted o batch sent
  Pushed-split batch r r' o sent p = split (dec_lt (length (batches Q r)) (capacity r.queue))
    where
      split :
          Dec (length (batches Q r) < capacity r.queue)
          → batches Q r' ++ sent ≡ batches Q r ++ accepted o batch sent
      split (yes h) =
          let (answer, held, _) = p.room h in
          rw (answer, held) (append_assoc (batches Q r) (batch ∷ []) sent)
      split (no n) =
          let (answer, held, _) = p.no_room (omega (arith, Q.bounded r.queue)) in rw (answer, held)

  popped :
      (q : Queue) (xs out : List TickBatch)
      → contents q ≡ xs
      → contents q ++ out ≡ received (Q.pop q).0 (contents (Q.pop q).1 ++ out)
  popped q [] out e = rw (e, (Q.pop_empty q e).0, (Q.pop_empty q e).1)
  popped q (batch ∷ xs) out e = let (first, left) = Q.pop_front q batch xs e in rw (e, first, left)

  received-append :
      (o : Option TickBatch) (xs ys : List TickBatch) → received o (xs ++ ys) ≡ received o xs ++ ys
  received-append none xs ys = refl
  received-append (some batch) xs ys = refl

  -- However the pushes of the producer and the pops of a drain interleave, nothing panics, and what
  -- the ring held at first and then what was accepted since is exactly what came out and then what
  -- the ring still holds, in order: no batch is lost, repeated or overtaken.
  pub exchange_in_order :
      (steps : List RingStep) (r : DeltaRing Q)
      → (x : Exchange (DeltaRing Q)) × (exchange steps r ≡ some x)
        × (batches Q r ++ x.sent ≡ x.out ++ batches Q x.ring)
  unfolding exchange
  exchange_in_order [] r =
      (record { sent = []; out = []; ring = r }, refl, append-nil (batches Q r))
  exchange_in_order (produce batch ∷ steps) r =
      let ((o, r'), done, p) = push_lem Q batch r in
      let (x, rest, order) = exchange_in_order steps r' in
      (
        record x { sent = accepted o batch x.sent },
        rw (done, rest),
        sym (Pushed-split batch r r' o x.sent p) ∙ order,
      )
  exchange_in_order (consume ∷ steps) r =
      let r' : DeltaRing Q = record r { queue = (Q.pop r.queue).1 } in
      let (x, rest, order) = exchange_in_order steps r' in
      (
        record x { out = received (Q.pop r.queue).0 x.out },
        rw rest,
        popped r.queue (contents r.queue) x.sent refl
            ∙ ap (received (Q.pop r.queue).0) order
            ∙ received-append (Q.pop r.queue).0 x.out (batches Q x.ring),
      )
