-- ===== src/Prelude/Order/Laws.antt =====
-- The order of texts is total, so the sorted list does not depend on the order of the input.
use mathlib.Core.Path.{◌≡◌, refl}
use mathlib.Core.Logic.{inl, inr}
use mathlib.Core.Bool.{Bool, true, false, ◌||◌}
use mathlib.Core.List.{List, [], ◌∷◌}
use native.Mathlib.Omega.{arith}
use rig_veh.Prelude.Tests.{Bool-cases}
use rig_veh.Prelude.Lists.{All, any}
use rig_veh.Prelude.Utf8.{Text}
use rig_veh.Prelude.Order.{le_text, insert_sorted, sort}

pub le_text_total : (s t : Text) → le_text s t ≡ false → le_text t s ≡ true
unfolding le_text
le_text_total [] t h = ground arith
le_text_total (a ∷ s) [] h = refl
le_text_total (a ∷ s) (b ∷ t) h = ground (arith, le_text_total s t)

pub le_text_antisymm : (s t : Text) → le_text s t ≡ true → le_text t s ≡ true → s ≡ t
unfolding le_text
le_text_antisymm [] [] h k = refl
le_text_antisymm [] (b ∷ t) h k = ground arith
le_text_antisymm (a ∷ s) [] h k = ground arith
le_text_antisymm (a ∷ s) (b ∷ t) h k = ground (arith, le_text_antisymm s t)

pub le_text_trans : (s t u : Text) → le_text s t ≡ true → le_text t u ≡ true → le_text s u ≡ true
unfolding le_text
le_text_trans [] t u h k = refl
le_text_trans (a ∷ s) [] u h k = ground arith
le_text_trans (a ∷ s) (b ∷ t) [] h k = ground arith
le_text_trans (a ∷ s) (b ∷ t) (c ∷ u) h k = ground (arith, le_text_trans s t u)

pub insert_sorted_comm :
    (x y : Text) (l : List Text)
    → insert_sorted x (insert_sorted y l) ≡ insert_sorted y (insert_sorted x l)
unfolding insert_sorted
insert_sorted_comm x y [] = ground (arith, le_text_total x y, le_text_antisymm x y)
insert_sorted_comm x y (z ∷ l) = ground (
  arith,
  le_text_total x y,
  le_text_antisymm x y,
  le_text_trans x y z,
  le_text_trans y x z,
  insert_sorted_comm x y l,
)

module _ (P : Text → Type 0) where
  All-insert_sorted : (x : Text) (xs : List Text) → P x → All P xs → All P (insert_sorted x xs)
  unfolding insert_sorted
  All-insert_sorted x [] h hs = (h, tt)
  All-insert_sorted x (y ∷ ys) h hs = elim (Bool-cases (le_text x y)) [
    | inl e ↦ rw e (h, (hs.0, hs.1))
    | inr e ↦ rw e (hs.0, All-insert_sorted x ys h hs.1)
  ]

  -- Sorting keeps what holds of every element.
  pub All-sort : (xs : List Text) → All P xs → All P (sort xs)
  unfolding sort
  All-sort [] hs = tt
  All-sort (x ∷ xs) hs = All-insert_sorted x (sort xs) hs.0 (All-sort xs hs.1)

module _ (p : Text → Bool) where
  any-insert_sorted : (x : Text) (xs : List Text) → any p (insert_sorted x xs) ≡ (p x || any p xs)
  unfolding insert_sorted
  any-insert_sorted x [] = refl
  any-insert_sorted x (y ∷ ys) = ground (arith, any-insert_sorted x ys)

  -- Sorting keeps what is found.
  pub any-sort : (xs : List Text) → any p (sort xs) ≡ any p xs
  unfolding sort
  any-sort [] = refl
  any-sort (x ∷ xs) = rw (any-insert_sorted x (sort xs), any-sort xs)
