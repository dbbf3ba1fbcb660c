-- ===== src/Prelude/Maps.antt =====
-- `std::collections::HashMap`, as a list of entries with no key twice. The order of the list is
-- the order in which an iteration yields the entries.
use mathlib.Core.Logic.{ite}
use mathlib.Core.Path.{◌≡◌}
use mathlib.Core.Bool.{Bool, true, false}
use mathlib.Core.Option.{Option, none, some}
use mathlib.Core.List.{List, [], ◌∷◌}
use native.Mathlib.Omega.{arith}

abbrev pub HashMap : Type 0 → Type 0 → Type 0
HashMap K V = List (K × V)

abbrev pub is_some {ℓ} : {A : Type ℓ} → Option A → Bool
is_some none = false
is_some (some a) = true

module _ {K V : Type 0} (same : Discrete K) where
  unfoldable pub get : K → HashMap K V → Option V
  get k [] = none
  get k ((j, v) ∷ m) = ite (same j k) (some v) (get k m)

  unfoldable pub insert : K → V → HashMap K V → HashMap K V
  insert k v [] = (k, v) ∷ []
  insert k v ((j, w) ∷ m) = ite (same j k) ((k, v) ∷ m) ((j, w) ∷ insert k v m)

  pub remove : K → HashMap K V → HashMap K V
  remove k [] = []
  remove k ((j, w) ∷ m) = let rest = remove k m in ite (same j k) rest ((j, w) ∷ rest)

  abbrev pub contains_key : K → HashMap K V → Bool
  contains_key k m = is_some (get k m)

  pub get-insert :
      (k j : K) (v : V) (m : HashMap K V) → get j (insert k v m) ≡ ite (same k j) (some v) (get j m)
  unfolding get insert
  get-insert k j v [] = ground arith
  get-insert k j v ((i, w) ∷ m) = ground (arith, get-insert k j v m)

  pub get-remove : (k j : K) (m : HashMap K V) → get j (remove k m) ≡ ite (same k j) none (get j m)
  unfolding get remove
  get-remove k j [] = ground arith
  get-remove k j ((i, w) ∷ m) = ground (arith, get-remove k j m)
