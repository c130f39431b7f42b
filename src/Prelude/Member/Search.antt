-- ===== src/Prelude/Member/Search.antt =====
-- What the iterator methods return is in the list.
use Prim.Native.Nat.{ℕ, zero, suc, ◌<◌}
use mathlib.Core.Path.{◌≡◌, refl}
use mathlib.Core.Logic.{◌⊎◌, inl, inr}
use mathlib.Core.Bool.{Bool, true, false}
use mathlib.Core.List.{List, [], ◌∷◌, map}
use mathlib.Core.Option.{none, some}
use native.Mathlib.Omega.{arith}
use rig_veh.Prelude.Tests.{Bool-cases}
use rig_veh.Prelude.Lists.{any, filter, length, nth, next_back, find_back}
use rig_veh.Prelude.Member.{In, here, there, In-cons}

module _ {ℓ} {A : Type ℓ} where
  pub find_back_cases :
      (p : A → Bool) (xs : List A)
      → ((find_back p xs ≡ none) × (any p xs ≡ false))
        ⊎ ((x : A) × (find_back p xs ≡ some x) × In x xs × (p x ≡ true))
  find_back_cases p [] = inl (refl, refl)
  find_back_cases p (x ∷ xs) = elim (find_back_cases p xs) [
    | inr (y, q, m, t) ↦ inr (y, rw q refl, there x m, t)
    | inl (q, none_there) ↦ elim (Bool-cases (p x)) [
      | inl t ↦ inr (x, rw (q, t) refl, here xs, t)
      | inr t ↦ inl (rw (q, t) refl, rw t none_there)
    ]
  ]

  pub next_back-In : (x : A) (xs : List A) → (y : A) × (next_back (x ∷ xs) ≡ some y) × In y (x ∷ xs)
  next_back-In x [] = (x, refl, here [])
  next_back-In x (z ∷ zs) = let (y, q, m) = next_back-In z zs in (y, q, there x m)

  pub nth-In : (xs : List A) (n : ℕ) → n < length xs → (y : A) × (nth xs n ≡ some y) × In y xs
  nth-In [] n h = absurd (omega arith)
  nth-In (x ∷ xs) zero h = (x, refl, here xs)
  nth-In (x ∷ xs) (suc n) h = let (y, q, m) = nth-In xs n (omega arith) in (y, q, there x m)

  -- A filter either keeps nothing, or begins with something.
  pub filter_cases :
      (p : A → Bool) (xs : List A)
      → ((filter p xs ≡ []) × (any p xs ≡ false))
        ⊎ ((y : A) × (ys : List A) × (filter p xs ≡ y ∷ ys))
  filter_cases p [] = inl (refl, refl)
  filter_cases p (x ∷ xs) = elim (Bool-cases (p x)) [
    | inl t ↦ inr (x, filter p xs, rw t refl)
    | inr t ↦ elim (filter_cases p xs) [
      | inl (q, none_there) ↦ inl (rw (t, q) refl, rw t none_there)
      | inr (y, ys, q) ↦ inr (y, ys, rw (t, q) refl)
    ]
  ]

module _ {ℓ κ} {A : Type ℓ} {B : Type κ} where
  pub In-map : (f : A → B) {b : B} (xs : List A) → In b (map f xs) → (a : A) × In a xs × (b ≡ f a)
  In-map f [] m = elim m [ ]
  In-map f (x ∷ xs) m = elim (In-cons m) [
    | inl q ↦ (x, here xs, q)
    | inr k ↦ let (a, l, q) = In-map f xs k in (a, there x l, q)
  ]
