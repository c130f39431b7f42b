-- ===== src/Prelude/HashMap.antt =====
-- `std::collections::HashMap` with text keys. The program never iterates over such a map, so it is
-- an association list whose order cannot be seen.
use mathlib.Core.Path.{◌≡◌, refl}
use mathlib.Core.Bool.{Bool, false, ◌||◌}
use mathlib.Core.List.{List, [], ◌∷◌}
use mathlib.Core.Option.{Option, none, some}
use native.Mathlib.Omega.{arith}
use rig_veh.Prelude.Tests.{if◌then◌else◌}
use rig_veh.Prelude.Utf8.{Text, ◌==◌, ==_iff}

abbrev pub HashMap {ℓ} : Type ℓ → Type ℓ
HashMap V = List (Text × V)

module _ {ℓ} {V : Type ℓ} where
  unfoldable pub get : HashMap V → Text → Option V
  get [] k = none
  get ((j, v) ∷ m) k = if j == k then some v else get m k

  unfoldable pub insert : HashMap V → Text → V → HashMap V
  insert [] k v = (k, v) ∷ []
  insert ((j, w) ∷ m) k v = if j == k then (k, v) ∷ m else (j, w) ∷ insert m k v

  unfoldable pub contains_key : HashMap V → Text → Bool
  contains_key [] k = false
  contains_key ((j, v) ∷ m) k = j == k || contains_key m k

  pub get-insert :
      (m : HashMap V) (k j : Text) (v : V)
      → get (insert m k v) j ≡ (if k == j then some v else get m j)
  unfolding get insert
  get-insert [] k j v = refl
  get-insert ((i, w) ∷ m) k j v =
      ground (arith, ==_iff k j, ==_iff i k, ==_iff i j, get-insert m k j v)

  pub get_of_contains_key : (m : HashMap V) (k : Text) → contains_key m k ≡ false → get m k ≡ none
  unfolding get contains_key
  get_of_contains_key [] k h = refl
  get_of_contains_key ((j, v) ∷ m) k h = ground (arith, get_of_contains_key m k)

  pub contains_key_of_get : (m : HashMap V) (k : Text) → get m k ≡ none → contains_key m k ≡ false
  unfolding get contains_key
  contains_key_of_get [] k h = refl
  contains_key_of_get ((j, v) ∷ m) k h = ground (arith, contains_key_of_get m k)

  pub contains_key-insert :
      (m : HashMap V) (k j : Text) (v : V)
      → contains_key (insert m k v) j ≡ (k == j || contains_key m j)
  unfolding contains_key insert
  contains_key-insert [] k j v = refl
  contains_key-insert ((i, w) ∷ m) k j v =
      ground (arith, ==_iff k j, ==_iff i k, ==_iff i j, contains_key-insert m k j v)
