-- ===== src/Scheduler/Rotation.antt =====
-- Round robin: whole rotations of the scheduler.
use chronos_uvm.Prelude.{
  ℕ, zero, suc, ◌+◌, ◌*◌, ◌<◌, ◌≡◌, sym, ap, ◌∙◌, Option, some, List, [], ◌∷◌, ◌++◌, length,
  Profile, ◌>>=◌, add_word_fits, u64, ℕ_discrete, arith,
}
use chronos_uvm.Prelude.Maps.{HashMap, get}
use chronos_uvm.Blake3.{Blake3}
use chronos_uvm.Clock.{advance}
use chronos_uvm.Cell.{Cell}
use chronos_uvm.Scheduler.{DispatchOutcome, Scheduler, due_of, dispatch, next_dispatch}
use mathlib.Core.List.{append-nil, append_assoc}

add-zero : (a : ℕ) → a + 0 ≡ a
add-zero a = omega arith

suc_add : (a b : ℕ) → suc a + b ≡ suc (a + b)
suc_add a b = omega arith

next_tick : (a b : ℕ) → a + 1 + b ≡ a + suc b
next_tick a b = omega arith

zero_add : (a : ℕ) → 0 + a ≡ a
zero_add a = omega arith

suc_mul : (a b : ℕ) → suc a * b ≡ b + a * b
suc_mul a b = omega arith

regroup : (a b c : ℕ) → a + b + c ≡ a + (b + c)
regroup a b c = omega arith

zero_mul : (a : ℕ) → 0 * a ≡ 0
zero_mul a = omega arith

module _ (B : Blake3) (p : Profile) (cells : HashMap ℕ (Cell B)) where
  -- `n` dispatches in a row, and what they return.
  pub dispatch_many : ℕ → Scheduler → Option (List (Option DispatchOutcome) × Scheduler)
  dispatch_many zero s = some ([], s)
  dispatch_many (suc n) s = do
    (outcome, s) ← next_dispatch B p cells s
    (outcomes, s) ← dispatch_many n s
    some (outcome ∷ outcomes, s)

  -- The cells in this order, at the ticks from `tick + 1` on.
  abbrev pub in_turn : ℕ → List ℕ → List (Option DispatchOutcome)
  in_turn tick [] = []
  in_turn tick (id ∷ ids) =
      some (record {
        cell_id = id;
        tick = tick + 1;
        checkpoint_due = due_of B (tick + 1) (get ℕ_discrete id cells);
      })
      ∷ in_turn (tick + 1) ids

  -- Some dispatches in a row: those at the front of the order are dispatched, and go to its back.
  dispatch-front :
      (ids others : List ℕ) (tick n : ℕ) (ys : List (Option DispatchOutcome)) (s : Scheduler)
      → tick + length ids < u64
      → dispatch_many n
          (record { order = others ++ ids; clock = record { tick = tick + length ids } })
        ≡ some (ys, s)
      → dispatch_many
          (length ids + n)
          (record { order = ids ++ others; clock = record { tick = tick } })
        ≡ some (in_turn tick ids ++ ys, s)
  unfolding dispatch_many next_dispatch dispatch advance
  dispatch-front [] others tick n ys s h rest =
      rw (sym (append-nil others), sym (add-zero tick), zero_add n) rest
  dispatch-front (id ∷ ids) others tick n ys s h rest = rw (
    suc_add (length ids) n,
    add_word_fits p u64 tick 1 (omega (arith, h)),
    append_assoc ids others (id ∷ []),
    dispatch-front ids (others ++ (id ∷ [])) (tick + 1) n ys s (omega (arith, h))
        (rw (append_assoc others (id ∷ []) ids, next_tick tick (length ids)) rest),
  )

  -- `k` rotations of the cells.
  abbrev pub turns : ℕ → ℕ → List ℕ → List (Option DispatchOutcome)
  turns zero tick ids = []
  turns (suc k) tick ids = in_turn tick ids ++ turns k (tick + length ids) ids

  -- While the tick fits a `u64`, `k` rotations' worth of dispatches panic nowhere and visit the
  -- cells in the order of registration, all of them before any comes again, at consecutive ticks of
  -- the one clock, each with the answer of its own cell on whether a checkpoint is due; they leave
  -- the order as it was.
  pub round_robin :
      (k : ℕ) (ids : List ℕ) (tick : ℕ)
      → tick + k * length ids < u64
      → dispatch_many (k * length ids) (record { order = ids; clock = record { tick = tick } })
        ≡ some (
          turns k tick ids,
          record { order = ids; clock = record { tick = tick + k * length ids } },
        )
  unfolding dispatch_many
  round_robin zero ids tick h = rw (zero_mul (length ids), add-zero tick)
  round_robin (suc k) ids tick h =
      rw (suc_mul k (length ids), sym (regroup tick (length ids) (k * length ids)))
        (ap
            (λ (order : List ℕ).
              dispatch_many (length ids + k * length ids)
                (record { order = order; clock = record { tick = tick } }))
            (sym (append-nil ids))
          ∙ dispatch-front ids [] tick (k * length ids) (turns k (tick + length ids) ids)
              (record { order = ids; clock = record { tick = tick + length ids + k * length ids } })
              (omega (arith, h, suc_mul k (length ids)))
              (round_robin k ids (tick + length ids) (omega (arith, h, suc_mul k (length ids)))))
