-- ===== src/Prelude/Order.antt =====
-- `Ord` of `String`, `slice::sort` and `Vec::dedup`. Equal texts cannot be told apart, so every
-- sort gives the list that insertion gives.
pub mod Laws
pub mod Sorted
pub mod Members
use mathlib.Core.Bool.{Bool, true, false, ◌&&◌}
use mathlib.Core.List.{List, [], ◌∷◌}
use rig_veh.Prelude.Tests.{eqb, ltb, if◌then◌else◌}
use rig_veh.Prelude.Utf8.{Text, ◌==◌}

-- Byte by byte.
unfoldable pub le_text : Text → Text → Bool
le_text [] t = true
le_text (a ∷ s) [] = false
le_text (a ∷ s) (b ∷ t) = let rest = le_text s t in if ltb a b then true else eqb a b && rest

unfoldable pub insert_sorted : Text → List Text → List Text
insert_sorted x [] = x ∷ []
insert_sorted x (y ∷ ys) = if le_text x y then x ∷ y ∷ ys else y ∷ insert_sorted x ys

unfoldable pub sort : List Text → List Text
unfolding insert_sorted le_text
sort [] = []
sort (x ∷ xs) = insert_sorted x (sort xs)

-- What follows an element that is kept.
unfoldable pub dedup_after : Text → List Text → List Text
dedup_after x [] = []
dedup_after x (y ∷ ys) = if x == y then dedup_after x ys else y ∷ dedup_after y ys

unfoldable pub dedup : List Text → List Text
unfolding dedup_after ◌==◌
dedup [] = []
dedup (x ∷ xs) = x ∷ dedup_after x xs
