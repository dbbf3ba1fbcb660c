-- ===== src/ArrayQueue/Bounded.antt =====
-- A bounded list, to evaluate the model on: it meets what `ArrayQueue` asks.
use chronos_uvm.Prelude.{
  ℕ, zero, suc, ◌≤◌, ◌<◌, ◌≡◌, refl, Option, none, some, List, [], ◌∷◌, ◌++◌, length, length-append,
  arith, dec_lt,
}
use chronos_uvm.Prelude.Result.{Result, ok, err}
use chronos_uvm.ArrayQueue.{ArrayQueue}

module _ (A : Type 0) where
  pub record Slots : Type 0 where
    pub held : List A
    pub room : ℕ
    pub fits : length held ≤ room

  abbrev pub fresh : ℕ → Option Slots
  fresh zero = none
  fresh (suc n) = some (record { held = []; room = suc n; fits = omega arith })

  pub fresh_empty :
      (n : ℕ) → 0 < n → (q : Slots) × (fresh n ≡ some q) × (q.held ≡ []) × (q.room ≡ n)
  fresh_empty zero h = absurd (omega arith)
  fresh_empty (suc n) h = (record { held = []; room = suc n; fits = omega arith }, refl, refl, refl)

  abbrev extended : (a : A) (q : Slots) → length q.held < q.room → Slots
  extended a q h = record {
    held = q.held ++ a ∷ [];
    room = q.room;
    fits = omega (arith, length-append q.held (a ∷ []));
  }

  unfoldable pub put_if :
      (a : A) (q : Slots) → Dec (length q.held < q.room) → Result A (Unit {0}) × Slots
  put_if a q (yes h) = (ok tt, extended a q h)
  put_if a q (no _) = (err a, q)

  pub put_room :
      (a : A) (q : Slots) (d : Dec (length q.held < q.room))
      → length q.held < q.room
      → ((put_if a q d).0 ≡ ok tt) × ((put_if a q d).1.held ≡ q.held ++ a ∷ [])
  unfolding put_if
  put_room a q (yes _) h = (refl, refl)
  put_room a q (no n) h = absurd (n h)

  pub put_full :
      (a : A) (q : Slots) (d : Dec (length q.held < q.room))
      → length q.held ≡ q.room
      → ((put_if a q d).0 ≡ err a) × ((put_if a q d).1.held ≡ q.held)
  unfolding put_if
  put_full a q (yes l) h = absurd (omega arith)
  put_full a q (no _) h = (refl, refl)

  pub put-room :
      (a : A) (q : Slots) (d : Dec (length q.held < q.room)) → (put_if a q d).1.room ≡ q.room
  unfolding put_if
  put-room a q (yes _) = refl
  put-room a q (no _) = refl

  unfoldable pub take_front : (xs : List A) (room : ℕ) → length xs ≤ room → Option A × Slots
  take_front [] room h = (none, record { held = []; room = room; fits = h })
  take_front (x ∷ xs) room h = (some x, record { held = xs; room = room; fits = omega arith })

  pub take_empty :
      (xs : List A) (room : ℕ) (h : length xs ≤ room)
      → xs ≡ []
      → ((take_front xs room h).0 ≡ none) × ((take_front xs room h).1.held ≡ [])
  unfolding take_front
  take_empty [] room h e = (refl, refl)
  take_empty (x ∷ xs) room h e = absurd (cc e)

  pub take_first :
      (xs : List A) (room : ℕ) (h : length xs ≤ room) (a : A) (rest : List A)
      → xs ≡ a ∷ rest
      → ((take_front xs room h).0 ≡ some a) × ((take_front xs room h).1.held ≡ rest)
  unfolding take_front
  take_first [] room h a rest e = absurd (cc e)
  take_first (x ∷ xs) room h a rest e = (cc e, cc e)

  pub take-room :
      (xs : List A) (room : ℕ) (h : length xs ≤ room) → (take_front xs room h).1.room ≡ room
  unfolding take_front
  take-room [] room h = refl
  take-room (x ∷ xs) room h = refl

  abbrev pub slots : ArrayQueue A
  slots = record {
    Queue = Slots;
    contents = λ q. q.held;
    capacity = λ q. q.room;
    new = fresh;
    push = λ a q. put_if a q (dec_lt (length q.held) q.room);
    pop = λ q. take_front q.held q.room q.fits;
    new_empty = fresh_empty;
    bounded = λ q. q.fits;
    push_room = λ a q h. put_room a q (dec_lt (length q.held) q.room) h;
    push_full = λ a q h. put_full a q (dec_lt (length q.held) q.room) h;
    capacity-push = λ a q. put-room a q (dec_lt (length q.held) q.room);
    pop_empty = λ q e. take_empty q.held q.room q.fits e;
    pop_front = λ q a rest e. take_first q.held q.room q.fits a rest e;
    capacity-pop = λ q. take-room q.held q.room q.fits;
  }
