-- ===== src/Prelude/Order/Sorted.antt =====
-- What sorting and then dropping repetitions gives: a strictly ascending list.
use mathlib.Core.Path.{◌≡◌, sym, ◌∙◌}
use mathlib.Core.Logic.{inl, inr}
use mathlib.Core.Bool.{true, false, false≢true}
use mathlib.Core.List.{List, [], ◌∷◌}
use rig_veh.Prelude.Tests.{Bool-cases}
use rig_veh.Prelude.Lists.{All}
use rig_veh.Prelude.Utf8.{Text, ◌==◌, ==_iff}
use rig_veh.Prelude.Order.{le_text, insert_sorted, sort, dedup_after, dedup}
use rig_veh.Prelude.Order.Laws.{le_text_total, le_text_antisymm, le_text_trans}

abbrev pub Below : Text → Text → Type 0
Below x y = (le_text x y ≡ true) × ((x == y) ≡ false)

-- Each text is strictly below every later one.
abbrev pub Ascends : List Text → Type 0
Ascends [] = Unit
Ascends (x ∷ xs) = All (Below x) xs × Ascends xs

-- Each text is at most every later one.
abbrev Sorted : List Text → Type 0
Sorted [] = Unit
Sorted (x ∷ xs) = All (λ y. le_text x y ≡ true) xs × Sorted xs

All-above :
    (x y : Text) (ys : List Text)
    → le_text x y ≡ true
    → All (λ z. le_text y z ≡ true) ys
    → All (λ z. le_text x z ≡ true) ys
All-above x y [] p h = tt
All-above x y (z ∷ zs) p h = (le_text_trans x y z p h.0, All-above x y zs p h.1)

All-insert_sorted :
    (P : Text → Type 0) (x : Text) (ys : List Text) → P x → All P ys → All P (insert_sorted x ys)
unfolding insert_sorted
All-insert_sorted P x [] p h = (p, tt)
All-insert_sorted P x (y ∷ ys) p h = elim (Bool-cases (le_text x y)) [
  | inl t ↦ rw t (p, h)
  | inr t ↦ rw t (h.0, All-insert_sorted P x ys p h.1)
]

insert_sorted-Sorted : (x : Text) (ys : List Text) → Sorted ys → Sorted (insert_sorted x ys)
unfolding insert_sorted
insert_sorted-Sorted x [] h = (tt, tt)
insert_sorted-Sorted x (y ∷ ys) h = elim (Bool-cases (le_text x y)) [
  | inl t ↦ rw t ((t, All-above x y ys t h.0), h)
  | inr t ↦ rw t (All-insert_sorted _ x ys (le_text_total x y t) h.0, insert_sorted-Sorted x ys h.1)
]

sort-Sorted : (xs : List Text) → Sorted (sort xs)
unfolding sort
sort-Sorted [] = tt
sort-Sorted (x ∷ xs) = insert_sorted-Sorted x (sort xs) (sort-Sorted xs)

-- Strictly below what is strictly above.
Below-trans : (x y z : Text) → Below x y → Below y z → Below x z
Below-trans x y z (p, p') (q, q') = (
  le_text_trans x y z p q,
  elim (Bool-cases (x == z)) [
    | inr t ↦ t
    | inl t ↦
        let same : x ≡ z = (==_iff x z).0 t in
        let back : le_text y x ≡ true = rw same q in
        absurd (false≢true (sym p' ∙ (==_iff x y).1 (le_text_antisymm x y p back)))
  ],
)

All-Below : (x y : Text) (ys : List Text) → Below x y → All (Below y) ys → All (Below x) ys
All-Below x y [] p h = tt
All-Below x y (z ∷ zs) p h = (Below-trans x y z p h.0, All-Below x y zs p h.1)

dedup_after-Ascends : (x : Text) (ys : List Text) → Sorted (x ∷ ys) → Ascends (x ∷ dedup_after x ys)
unfolding dedup_after
dedup_after-Ascends x [] h = (tt, tt)
dedup_after-Ascends x (y ∷ ys) h = elim (Bool-cases (x == y)) [
  | inl t ↦ rw t (dedup_after-Ascends x ys (h.0.1, h.1.1))
  | inr t ↦
      let r = dedup_after-Ascends y ys h.1 in rw t (((h.0.0, t), All-Below x y _ (h.0.0, t) r.0), r)
]

pub dedup-sort-Ascends : (xs : List Text) → Ascends (dedup (sort xs))
unfolding dedup
dedup-sort-Ascends xs = ascends (sort xs) (sort-Sorted xs)
  where
    ascends : (ys : List Text) → Sorted ys → Ascends (dedup ys)
    ascends [] h = tt
    ascends (y ∷ ys) h = dedup_after-Ascends y ys h
