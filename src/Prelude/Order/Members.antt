-- ===== src/Prelude/Order/Members.antt =====
-- Sorting and then dropping repetitions keeps the members, and they determine a strictly ascending
-- list.
use mathlib.Core.Path.{◌≡◌, refl, sym, ◌∙◌}
use mathlib.Core.Logic.{◌↔◌, inl, inr}
use mathlib.Core.Bool.{false≢true}
use mathlib.Core.List.{List, [], ◌∷◌}
use rig_veh.Prelude.Tests.{Bool-cases}
use rig_veh.Prelude.Lists.{All}
use rig_veh.Prelude.Utf8.{Text, ◌==◌, ==_iff}
use rig_veh.Prelude.Member.{In, here, there, In-cons}
use rig_veh.Prelude.Order.{le_text, insert_sorted, sort, dedup_after, dedup}
use rig_veh.Prelude.Order.Laws.{le_text_antisymm}
use rig_veh.Prelude.Order.Sorted.{Below, Ascends}

module _ (c : Text) where
  In-insert_of : (x : Text) (ys : List Text) → In c (insert_sorted x ys) → In c (x ∷ ys)
  unfolding insert_sorted
  In-insert_of x [] m = m
  In-insert_of x (y ∷ ys) m = elim (Bool-cases (le_text x y)) [
    | inl t ↦ rw t at m
    | inr t ↦ elim (In-cons (rw t at m)) [
      | inl p ↦ there x (rw p (here ys))
      | inr k ↦ elim (In-cons (In-insert_of x ys k)) [
        | inl p ↦ rw p (here (y ∷ ys))
        | inr l ↦ there x (there y l)
      ]
    ]
  ]

  insert-In_here : (x : Text) (ys : List Text) → c ≡ x → In c (insert_sorted x ys)
  unfolding insert_sorted
  insert-In_here x [] p = rw p (here [])
  insert-In_here x (y ∷ ys) p = elim (Bool-cases (le_text x y)) [
    | inl t ↦ rw (t, p) (here (y ∷ ys))
    | inr t ↦ rw t (there y (insert-In_here x ys p))
  ]

  insert-In_there : (x : Text) (ys : List Text) → In c ys → In c (insert_sorted x ys)
  unfolding insert_sorted
  insert-In_there x ys (here zs) = elim (Bool-cases (le_text x c)) [
    | inl t ↦ rw t (there x (here zs))
    | inr t ↦ rw t (here (insert_sorted x zs))
  ]
  insert-In_there x ys (there y {xs = zs} m) = elim (Bool-cases (le_text x y)) [
    | inl t ↦ rw t (there x (there y m))
    | inr t ↦ rw t (there y (insert-In_there x zs m))
  ]

  pub In-sort_of : (xs : List Text) → In c (sort xs) → In c xs
  unfolding sort
  In-sort_of [] m = m
  In-sort_of (x ∷ xs) m = elim (In-cons (In-insert_of x (sort xs) m)) [
    | inl p ↦ rw p (here xs)
    | inr k ↦ there x (In-sort_of xs k)
  ]

  sort-In : (xs : List Text) → In c xs → In c (sort xs)
  unfolding sort
  sort-In xs (here ys) = insert-In_here c (sort ys) refl
  sort-In xs (there x {xs = ys} m) = insert-In_there x (sort ys) (sort-In ys m)

  In-dedup_after_of : (x : Text) (ys : List Text) → In c (dedup_after x ys) → In c ys
  unfolding dedup_after
  In-dedup_after_of x [] m = m
  In-dedup_after_of x (y ∷ ys) m = elim (Bool-cases (x == y)) [
    | inl t ↦ there y (In-dedup_after_of x ys (rw t at m))
    | inr t ↦ elim (In-cons (rw t at m)) [
      | inl p ↦ rw p (here ys)
      | inr k ↦ there y (In-dedup_after_of y ys k)
    ]
  ]

  dedup_after-In : (x : Text) (ys : List Text) → In c ys → In c (x ∷ dedup_after x ys)
  unfolding dedup_after
  dedup_after-In x [] m = elim m [ ]
  dedup_after-In x (y ∷ ys) m = elim (Bool-cases (x == y)) [
    | inl t ↦ elim (In-cons m) [
      | inl p ↦ rw (t, p, (==_iff x y).0 t) (here (dedup_after y ys))
      | inr k ↦ rw t (dedup_after-In x ys k)
    ]
    | inr t ↦ elim (In-cons m) [
      | inl p ↦ rw (t, p) (there x (here (dedup_after y ys)))
      | inr k ↦ rw t (there x (dedup_after-In y ys k))
    ]
  ]

  In-dedup_of : (ys : List Text) → In c (dedup ys) → In c ys
  unfolding dedup
  In-dedup_of [] m = m
  In-dedup_of (y ∷ ys) m = elim (In-cons m) [
    | inl p ↦ rw p (here ys)
    | inr k ↦ there y (In-dedup_after_of y ys k)
  ]

  dedup-In : (ys : List Text) → In c ys → In c (dedup ys)
  unfolding dedup
  dedup-In [] m = m
  dedup-In (y ∷ ys) m = elim (In-cons m) [
    | inl p ↦ rw p (here (dedup_after y ys))
    | inr k ↦ dedup_after-In y ys k
  ]

  pub In-dedup-sort_iff : (xs : List Text) → In c (dedup (sort xs)) ↔ In c xs
  In-dedup-sort_iff xs =
      (λ m. In-sort_of xs (In-dedup_of (sort xs) m), λ m. dedup-In (sort xs) (sort-In xs m))

first_of : (x : Text) {c : Text} {xs : List Text} → All (Below x) xs → In c xs → Below x c
first_of x h (here ys) = h.0
first_of x h (there y m) = first_of x h.1 m

-- The members of the tail are not the head.
tail_of :
    (x c : Text) (xs ys : List Text)
    → All (Below x) xs
    → ((d : Text) → In d (x ∷ xs) → In d (x ∷ ys))
    → In c xs
    → In c ys
tail_of x c xs ys h keep m = elim (In-cons (keep c (there x m))) [
  | inr k ↦ k
  | inl p ↦
      let strict = first_of x h m in absurd (false≢true (sym strict.1 ∙ (==_iff x c).1 (sym p)))
]

-- Two strictly ascending lists with the same members are the same list.
pub Ascends-unique :
    (xs ys : List Text)
    → Ascends xs
    → Ascends ys
    → ((c : Text) → In c xs → In c ys)
    → ((c : Text) → In c ys → In c xs)
    → xs ≡ ys
Ascends-unique [] [] hx hy to back = refl
Ascends-unique [] (y ∷ ys) hx hy to back = elim (back y (here ys)) [ ]
Ascends-unique (x ∷ xs) [] hx hy to back = elim (to x (here xs)) [ ]
Ascends-unique (x ∷ xs) (y ∷ ys) hx hy to back =
    let same : x ≡ y = heads in
    let tails =
      Ascends-unique xs ys hx.1 hy.1 (λ c. tail_of x c xs ys hx.0 (λ d m. rw same (to d m)))
        (λ c. tail_of y c ys xs hy.0 (λ d m. rw (← same) (back d m))) in
    λ i. same i ∷ tails i
  where
    heads : x ≡ y
    heads = elim (In-cons (to x (here xs))) [
      | inl p ↦ p
      | inr k ↦ elim (In-cons (back y (here ys))) [
        | inl q ↦ sym q
        | inr l ↦ le_text_antisymm x y (first_of x hx.0 l).0 (first_of y hy.0 k).0
      ]
    ]
