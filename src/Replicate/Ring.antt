-- ===== src/Replicate/Ring.antt =====
-- The operations of the ring, one thread at a time.
use chronos_uvm.Prelude.{
  ℕ, zero, suc, ◌+◌, ◌<◌, ◌≡◌, refl, sym, ap, ◌∙◌, none, some, List, [], ◌∷◌, ◌++◌, length, ◌==◌,
  if◌then◌else◌, arith,
}
use chronos_uvm.Prelude.Result.{Result, ok, err}
use chronos_uvm.ArrayQueue.{ArrayQueue}
use chronos_uvm.Replicate.{
  TickBatch, RingError, full, DeltaRing, pushed, push, drain_loop, drain, producer_handle,
  producer_push,
}

module _ (Q : ArrayQueue TickBatch) where
  open Q use {Queue, contents, capacity}

  -- What is in the ring, the oldest batch first.
  abbrev pub batches : DeltaRing Q → List TickBatch
  batches r = contents r.queue

  -- What a push does.
  pub record Pushed (batch : TickBatch) (r : DeltaRing Q) (o : Result RingError (Unit {0}))
      (r' : DeltaRing Q) : Type 0 where
    pub kept : (r'.address ≡ r.address) × (capacity r'.queue ≡ capacity r.queue)
    pub room :
        length (batches r) < capacity r.queue
        → (o ≡ ok tt) × (batches r' ≡ batches r ++ batch ∷ []) × (r'.last_pushed_tick ≡ batch.tick)
    pub no_room :
        length (batches r) ≡ capacity r.queue
        → (o ≡ err (full (capacity r.queue)))
          × (batches r' ≡ batches r)
          × (r'.last_pushed_tick ≡ r.last_pushed_tick)

  pushed_lem :
      (batch : TickBatch) (r : DeltaRing Q) (a : Result TickBatch (Unit {0})) (q : Queue)
      → Q.push batch r.queue ≡ (a, q)
      → (x : Result RingError (Unit {0}) × DeltaRing Q) × (push Q batch r ≡ some x)
        × Pushed batch r x.0 x.1
  unfolding push pushed
  pushed_lem batch r (ok u) q e =
      let after : contents q ≡ contents (Q.push batch r.queue).1 = ap (λ x. contents x.1) (sym e) in
      let answer : (Q.push batch r.queue).0 ≡ ok tt = ap (λ x. x.0) e in
      (
        (ok tt, record r { queue = q; last_pushed_tick = batch.tick }),
        rw e,
        record {
          kept = (refl, ap (λ x. capacity x.1) (sym e) ∙ Q.capacity-push batch r.queue);
          room = λ h. (refl, after ∙ (Q.push_room batch r.queue h).1, refl);
          no_room = λ h. absurd (cc (answer, (Q.push_full batch r.queue h).0));
        },
      )
  pushed_lem batch r (err b) q e =
      let after : contents q ≡ contents (Q.push batch r.queue).1 = ap (λ x. contents x.1) (sym e) in
      let answer : (Q.push batch r.queue).0 ≡ err b = ap (λ x. x.0) e in
      let same : capacity q ≡ capacity r.queue =
        ap (λ x. capacity x.1) (sym e) ∙ Q.capacity-push batch r.queue in
      (
        (err (full (capacity q)), record r { queue = q }),
        rw e,
        record {
          kept = (refl, same);
          room = λ h. absurd (cc (answer, (Q.push_room batch r.queue h).0));
          no_room =
              λ h. (ap (λ n. err (full n)) same, after ∙ (Q.push_full batch r.queue h).1, refl);
        },
      )

  -- A push never panics: where there is room the batch is the newest in the ring and its tick the
  -- last one pushed, and a full ring reports its capacity and keeps what it holds.
  pub push_lem :
      (batch : TickBatch) (r : DeltaRing Q)
      → (x : Result RingError (Unit {0}) × DeltaRing Q) × (push Q batch r ≡ some x)
        × Pushed batch r x.0 x.1
  push_lem batch r = pushed_lem batch r (Q.push batch r.queue).0 (Q.push batch r.queue).1 refl

  -- A handle of the ring, while the ring stays where it is, pushes as the ring itself does.
  producer_push-push :
      (r s : DeltaRing Q) (batch : TickBatch)
      → s.address ≡ r.address
      → producer_push Q (producer_handle Q r) batch s ≡ push Q batch s
  unfolding producer_push push producer_handle pushed
  producer_push-push r s batch e = alike (Q.push batch s.queue).0 (Q.push batch s.queue).1
    where
      alike :
          (a : Result TickBatch (Unit {0})) (q : Queue)
          → pushed Q
              (λ t.
                if r.address == t.address
                then some (record t { last_pushed_tick = batch.tick })
                else none)
              s
              (a, q)
            ≡ pushed Q (λ t. some (record t { last_pushed_tick = batch.tick })) s (a, q)
      alike (err b) q = refl
      alike (ok u) q = ground (arith, e)

  -- The loop ends once the queue is empty.
  drain_loop_lem :
      (f : ℕ) (q : Queue) (xs : List TickBatch)
      → contents q ≡ xs
      → length xs < f
      → (x : List TickBatch × Queue) × (drain_loop Q f q ≡ some x)
        × (x.0 ≡ xs)
        × (contents x.1 ≡ [])
        × (capacity x.1 ≡ capacity q)
  unfolding drain_loop
  drain_loop_lem zero q xs e h = absurd (omega arith)
  drain_loop_lem (suc f) q [] e h = (
    ([], (Q.pop q).1),
    rw (drain_loop, (Q.pop_empty q e).0),
    refl,
    (Q.pop_empty q e).1,
    Q.capacity-pop q,
  )
  drain_loop_lem (suc f) q (batch ∷ xs) e h =
      let (first, left) = Q.pop_front q batch xs e in
      let ((out, q'), done, same, empty, cap) =
        drain_loop_lem f (Q.pop q).1 xs left (omega arith) in
      (
        (batch ∷ out, q'),
        rw (drain_loop, first, done),
        ap (λ t. batch ∷ t) same,
        empty,
        cap ∙ Q.capacity-pop q,
      )

  -- A drain with no push beside it ends, returns all that the ring holds, the oldest batch first,
  -- and leaves the ring empty.
  pub drain_lem :
      (r : DeltaRing Q)
      → (x : List TickBatch × DeltaRing Q) × (drain Q r ≡ some x)
        × (x.0 ≡ batches r)
        × (batches x.1 ≡ [])
        × (capacity x.1.queue ≡ capacity r.queue)
  unfolding drain
  drain_lem r =
      let ((out, q), done, same, empty, cap) =
        drain_loop_lem (capacity r.queue + 1) r.queue (contents r.queue) refl
          (omega (arith, Q.bounded r.queue)) in
      ((out, record r { queue = q }), rw done, same, empty, cap)
