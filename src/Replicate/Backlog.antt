-- ===== src/Replicate/Backlog.antt =====
-- Batches that the standby has still to apply.
use chronos_uvm.Prelude.{◌≡◌, refl, ap, ◌∙◌, some, List, [], ◌∷◌, ◌++◌}
use chronos_uvm.Prelude.Result.{Result, ok}
use chronos_uvm.Replicate.{TickBatch, StandbyApplyLoop, ApplyError, apply_batch}
use chronos_uvm.Replicate.Standby.{apply_batches}

-- Each batch is accepted in turn, and they take the standby from `s` to `t`.
abbrev pub Applies : List TickBatch → StandbyApplyLoop → StandbyApplyLoop → Type 0
Applies [] s t = s ≡ t
Applies (batch ∷ bs) s t =
    (u : StandbyApplyLoop) × (apply_batch batch s ≡ some (ok tt, u)) × Applies bs u t

pub Applies-snoc :
    (bs : List TickBatch) (batch : TickBatch) (s t u : StandbyApplyLoop)
    → Applies bs s t
    → apply_batch batch t ≡ some (ok tt, u)
    → Applies (bs ++ batch ∷ []) s u
Applies-snoc [] batch s t u e done = (u, ap (apply_batch batch) e ∙ done, refl)
Applies-snoc (b ∷ bs) batch s t u (s₁, first, rest) done =
    (s₁, first, Applies-snoc bs batch s₁ t u rest done)

abbrev pub all_accepted : List TickBatch → List (Result ApplyError (Unit {0}))
all_accepted [] = []
all_accepted (_ ∷ bs) = ok tt ∷ all_accepted bs

pub Applies-apply_batches :
    (bs : List TickBatch) (s t : StandbyApplyLoop)
    → Applies bs s t
    → apply_batches bs s ≡ some (all_accepted bs, t)
unfolding apply_batches
Applies-apply_batches [] s t e = ap (λ u. some ([], u)) e
Applies-apply_batches (b ∷ bs) s t (u, first, rest) = rw (first, Applies-apply_batches bs u t rest)
