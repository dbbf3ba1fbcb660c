-- ===== src/IoUring/Loopback.antt =====
-- A ring of eight places that completes every entry at the next poll, to evaluate the model on: it
-- meets what `IoUring` asks.
use mathlib.Core.List.{Perm}
use mathlib.Core.List.Perm
use mathlib.Core.Path.{subst}
use chronos_uvm.Prelude.Integers.{pos}
use chronos_uvm.Prelude.{ℕ, ◌<◌, ◌≡◌, refl, ap, List, [], ◌∷◌, ◌++◌, map, length, dec_lt}
use chronos_uvm.Prelude.Result.{Result, ok, err}
use chronos_uvm.IoUring.{IoUring, Completion}

pub put_if : ℕ → (q : List ℕ) → Dec (length q < 8) → Result (Unit {0}) (Unit {0}) × List ℕ
put_if user_data q (yes _) = (ok tt, q ++ user_data ∷ [])
put_if user_data q (no _) = (err tt, q)

pub put_ok :
    (user_data : ℕ) (q : List ℕ) (d : Dec (length q < 8))
    → (put_if user_data q d).0 ≡ ok tt
    → (put_if user_data q d).1 ≡ q ++ user_data ∷ []
unfolding put_if
put_ok user_data q (yes _) h = refl
put_ok user_data q (no _) h = absurd (cc h)

pub put_full :
    (user_data : ℕ) (q : List ℕ) (d : Dec (length q < 8))
    → (put_if user_data q d).0 ≡ err tt
    → (put_if user_data q d).1 ≡ q
unfolding put_if
put_full user_data q (yes _) h = absurd (cc h)
put_full user_data q (no _) h = refl

abbrev pub all_done : List ℕ → List Completion
all_done [] = []
all_done (u ∷ q) = (record { user_data = u; result = pos 0 }) ∷ all_done q

pub all_done_data : (q : List ℕ) → map (λ (c : Completion). c.user_data) (all_done q) ++ [] ≡ q
all_done_data [] = refl
all_done_data (u ∷ q) = ap (λ t. u ∷ t) (all_done_data q)

pub started_empty : (r : List ℕ) → ◌≡◌ {A = Result (List ℕ) (List ℕ)} (ok []) (ok r) → r ≡ []
started_empty r h = cc

abbrev pub loopback : IoUring
loopback = record {
  Ring = List ℕ;
  in_flight = λ q. q;
  new = λ entries. ok [];
  register_buffers = λ bufs q. (ok tt, q);
  push = λ e q. put_if e.user_data q (dec_lt (length q) 8);
  submit = λ q. (ok (length q), q);
  completions = λ q. (all_done q, []);
  new_empty = λ entries r h. started_empty r h;
  register_buffers_kept = λ bufs r. refl;
  push_ok = λ e q h. put_ok e.user_data q (dec_lt (length q) 8) h;
  push_full = λ e q h. put_full e.user_data q (dec_lt (length q) 8) h;
  submit_kept = λ q. refl;
  completed = λ q.
      subst (λ (l : List ℕ). Perm (map (λ (c : Completion). c.user_data) (all_done q) ++ []) l)
        (all_done_data q) (Perm.refl _);
}
