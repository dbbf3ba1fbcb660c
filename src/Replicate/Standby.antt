-- ===== src/Replicate/Standby.antt =====
-- The standby against the primary: batches of deltas, tick by tick.
use chronos_uvm.Prelude.{
  ℕ, suc, ◌<◌, ◌≡◌, refl, sym, ap, ◌∙◌, Option, none, some, List, [], ◌∷◌, ◌++◌, length, ◌>>=◌,
  ◌==◌, if◌then◌else◌, arith,
}
use chronos_uvm.Prelude.Result.{Result, ok}
use chronos_uvm.Delta.{PageDelta, DeltaEngine, apply}
use chronos_uvm.Delta.Engine.{IsValid, baseline_of}
use chronos_uvm.Delta.Sync.{Write, AreWrites, diff_all, apply_all, latest, Synced, ship_all}
use chronos_uvm.Replicate.{TickBatch, StandbyApplyLoop, ApplyError, apply_deltas, apply_batch}

apply_deltas-apply_all :
    (deltas : List PageDelta) (e : DeltaEngine) → apply_deltas deltas e ≡ apply_all deltas e
unfolding apply_deltas apply_all
apply_deltas-apply_all [] e = refl
apply_deltas-apply_all (delta ∷ deltas) e =
    same (apply delta e) (λ e. apply_deltas-apply_all deltas e)
  where
    same :
        (o : Option (List ℕ × DeltaEngine))
        → ((e : DeltaEngine) → apply_deltas deltas e ≡ apply_all deltas e)
        → (o >>= λ (out, e). apply_deltas deltas e) ≡ (o >>= λ (out, e). apply_all deltas e)
    same none ih = refl
    same (some (out, e)) ih = ih e

-- A batch that is not stale is applied whole; a stale one is refused and changes nothing.
pub apply_batch_fresh :
    (batch : TickBatch) (s : StandbyApplyLoop) (e : DeltaEngine)
    → s.last_applied_tick < batch.tick
    → apply_deltas batch.deltas s.engine ≡ some e
    → apply_batch batch s ≡ some (ok tt, record { engine = e; last_applied_tick = batch.tick })
unfolding apply_batch
apply_batch_fresh batch s e h done = ground (arith, h, done)

-- Every answer of the standby, in order.
unfoldable pub apply_batches :
    List TickBatch
    → StandbyApplyLoop
    → Option (List (Result ApplyError (Unit {0})) × StandbyApplyLoop)
apply_batches [] s = some ([], s)
apply_batches (batch ∷ batches) s = do
  (answer, s) ← apply_batch batch s
  (answers, s) ← apply_batches batches s
  some (answer ∷ answers, s)

-- The pages that were written in a tick.
abbrev pub Ticked : Type 0
Ticked = ℕ × List Write

-- The primary diffs what each tick wrote, and makes a batch of it.
pub diff_ticks : List Ticked → DeltaEngine → Option (List TickBatch × DeltaEngine)
diff_ticks [] p = some ([], p)
diff_ticks ((tick, writes) ∷ ticks) p = do
  (deltas, p) ← diff_all writes p
  (batches, p) ← diff_ticks ticks p
  some (record { tick = tick; deltas = deltas } ∷ batches, p)

-- Strictly ascending ticks of whole pages.
abbrev pub AreTicks : ℕ → List Ticked → Type 0
AreTicks last [] = Unit
AreTicks last ((tick, writes) ∷ ticks) = (last < tick) × AreWrites writes × AreTicks tick ticks

abbrev pub all_writes : List Ticked → List Write
all_writes [] = []
all_writes ((tick, writes) ∷ ticks) = writes ++ all_writes ticks

abbrev pub last_tick : ℕ → List Ticked → ℕ
last_tick last [] = last
last_tick last ((tick, writes) ∷ ticks) = last_tick tick ticks

abbrev pub accepts : List Ticked → List (Result ApplyError (Unit {0}))
accepts [] = []
accepts (_ ∷ ticks) = ok tt ∷ accepts ticks

latest-append :
    (xs ys : List Write) (i : ℕ) (page : Option (List ℕ))
    → latest (xs ++ ys) i page ≡ latest ys i (latest xs i page)
latest-append [] ys i page = refl
latest-append ((idx, new) ∷ xs) ys i page =
    latest-append xs ys i (if i == idx then some new else page)

-- What the two sides are after the ticks.
pub record Replicated (ticks : List Ticked) (p : DeltaEngine) (s : StandbyApplyLoop)
    (batches : List TickBatch) (p' : DeltaEngine) (s' : StandbyApplyLoop) : Type 0 where
  pub diffed : diff_ticks ticks p ≡ some (batches, p')
  pub applied : apply_batches batches s ≡ some (accepts ticks, s')
  pub primary : IsValid p'
  pub standby : IsValid s'.engine
  pub synced : Synced p' s'.engine
  pub pages :
      (i : ℕ) → baseline_of s'.engine i ≡ latest (all_writes ticks) i (baseline_of s.engine i)
  pub tick : s'.last_applied_tick ≡ last_tick s.last_applied_tick ticks
  pub as_many : length batches ≡ length ticks

-- From engines in step, over ticks that ascend from the last one applied, whatever whole pages each
-- tick wrote: the primary's batches are all accepted, neither side panics, the engines stay in step,
-- and the standby then holds each page as the last tick that wrote it left it.
pub replicate_ticks :
    (ticks : List Ticked) (p : DeltaEngine) (s : StandbyApplyLoop)
    → IsValid p
    → IsValid s.engine
    → Synced p s.engine
    → AreTicks s.last_applied_tick ticks
    → (batches : List TickBatch) × (p' : DeltaEngine) × (s' : StandbyApplyLoop) × Replicated ticks p
        s batches p' s'
unfolding diff_ticks apply_batches
replicate_ticks [] p s vp vs h after = (
  [],
  p,
  s,
  record {
    diffed = refl;
    applied = refl;
    primary = vp;
    standby = vs;
    synced = h;
    pages = λ i. refl;
    tick = refl;
    as_many = refl;
  },
)
replicate_ticks ((tick, writes) ∷ ticks) p s vp vs h (after, whole, later) =
    let (deltas, p₁, e₁, shipped) = ship_all writes p s.engine vp vs h whole in
    let s₁ : StandbyApplyLoop = record { engine = e₁; last_applied_tick = tick } in
    let batch : TickBatch = record { tick = tick; deltas = deltas } in
    let applied =
      apply_batch_fresh batch s e₁ after
        (apply_deltas-apply_all deltas s.engine ∙ shipped.applied) in
    let (batches, p', s', rest) =
      replicate_ticks ticks p₁ s₁ shipped.primary shipped.standby shipped.synced later in
    (
      batch ∷ batches,
      p',
      s',
      record {
        diffed = rw (shipped.diffed, rest.diffed);
        applied = rw (applied, rest.applied);
        primary = rest.primary;
        standby = rest.standby;
        synced = rest.synced;
        pages = λ i.
            rest.pages i
            ∙ ap (latest (all_writes ticks) i) (shipped.pages i)
            ∙ sym (latest-append writes (all_writes ticks) i (baseline_of s.engine i));
        tick = rest.tick;
        as_many = ap suc rest.as_many;
      },
    )
