-- ===== src/Io/Delivery.antt =====
-- Completions reach the cell once each and in the order of their arrival.
use chronos_uvm.Prelude.{◌≡◌, sym, ap, ◌∙◌, List, [], ◌∷◌, ◌++◌}
use chronos_uvm.Io.{IoCompletion, PendingCompletions, push, drain_for_dispatch}
use mathlib.Core.List.{append-nil, append_assoc}

-- A completion arrives, or the cell is dispatched.
pub data IoStep : Type 0 where
  arrive : IoCompletion → IoStep
  dispatch : IoStep

-- The batches that the dispatches drain, in order, and what is left.
pub deliver : List IoStep → PendingCompletions → List (List IoCompletion) × PendingCompletions
deliver [] q = ([], q)
deliver (arrive c ∷ steps) q = deliver steps (push c q)
deliver (dispatch ∷ steps) q =
    let (batch, q) = drain_for_dispatch q in
    let (batches, q) = deliver steps q in (batch ∷ batches, q)

abbrev pub arrived : List IoStep → List IoCompletion
arrived [] = []
arrived (arrive c ∷ steps) = c ∷ arrived steps
arrived (dispatch ∷ steps) = arrived steps

abbrev pub joined : List (List IoCompletion) → List IoCompletion
joined [] = []
joined (batch ∷ batches) = batch ++ joined batches

-- For arrivals and dispatches interleaved in any way: the batches handed to the cell, one after the
-- other, and then what is still queued, are exactly what was queued at first and what arrived since,
-- in order, with nothing lost, repeated or reordered.
pub joined-deliver :
    (steps : List IoStep) (q : PendingCompletions)
    → joined (deliver steps q).0 ++ (deliver steps q).1.queue ≡ q.queue ++ arrived steps
unfolding deliver push drain_for_dispatch
joined-deliver [] q = sym (append-nil q.queue)
joined-deliver (arrive c ∷ steps) q =
    joined-deliver steps (push c q) ∙ append_assoc q.queue (c ∷ []) (arrived steps)
joined-deliver (dispatch ∷ steps) q =
    append_assoc q.queue (joined (deliver steps (drain_for_dispatch q).1).0)
      (deliver steps (drain_for_dispatch q).1).1.queue
    ∙ ap (λ xs. q.queue ++ xs) (joined-deliver steps (drain_for_dispatch q).1)
