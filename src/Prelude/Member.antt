-- ===== src/Prelude/Member.antt =====
-- Membership as a relation, and the Boolean searches that decide it.
pub mod Search
use mathlib.Core.Path.{◌≡◌, refl}
use mathlib.Core.Logic.{◌↔◌, ◌⊎◌, inl, inr}
use mathlib.Core.Bool.{Bool, true, false}
use mathlib.Core.List.{List, [], ◌∷◌, ◌++◌, map}
use mathlib.Core.Option.{none, some}
use native.Mathlib.Omega.{arith}
use rig_veh.Prelude.Tests.{Bool-cases}
use rig_veh.Prelude.Lists.{any, find, filter}
use rig_veh.Prelude.Utf8.{Text, ◌==◌, ==_iff, ==_refl}

pub data In {ℓ} {A : Type ℓ} (a : A) : List A → Type ℓ where
  here : (xs : List A) → In a (a ∷ xs)
  there : (x : A) {xs : List A} → In a xs → In a (x ∷ xs)

module _ {ℓ} {A : Type ℓ} where
  pub any_of_In : (p : A → Bool) {a : A} {xs : List A} → In a xs → p a ≡ true → any p xs ≡ true
  any_of_In p (here xs) h = rw h
  any_of_In p (there x {xs} m) h = ground (arith, any_of_In p m h)

  pub In-of_any : (p : A → Bool) (xs : List A) → any p xs ≡ true → (a : A) × In a xs × (p a ≡ true)
  In-of_any p [] h = cc h
  In-of_any p (x ∷ xs) h = elim (Bool-cases (p x)) [
    | inl t ↦ (x, here xs, t)
    | inr t ↦ let (a, m, q) = In-of_any p xs (rw t at h) in (a, there x m, q)
  ]

  pub find-eq_some :
      (p : A → Bool) (xs : List A) (a : A) → find p xs ≡ some a → In a xs × (p a ≡ true)
  find-eq_some p [] a h = ground arith
  find-eq_some p (x ∷ xs) a h = elim (Bool-cases (p x)) [
    | inl t ↦ let same : x ≡ a = cc (rw t at h) in rw (← same) (here xs, t)
    | inr t ↦ let (m, q) = find-eq_some p xs a (rw t at h) in (there x m, q)
  ]

  fails : (p : A → Bool) (a : A) (xs : List A) → find p xs ≡ none → In a xs → p a ≡ false
  fails p a xs h (here ys) = ground arith
  fails p a xs h (there x {xs = ys} m) = fails p a ys (ground arith) m

  finds_none : (p : A → Bool) (xs : List A) → ((a : A) → In a xs → p a ≡ false) → find p xs ≡ none
  finds_none p [] h = refl
  finds_none p (x ∷ xs) h = rw (h x (here xs)) (finds_none p xs (λ a m. h a (there x m)))

  -- A search that finds nothing has seen every element fail.
  pub find-none_iff :
      (p : A → Bool) (xs : List A) → (find p xs ≡ none) ↔ ((a : A) → In a xs → p a ≡ false)
  find-none_iff p xs = (λ h a m. fails p a xs h m, finds_none p xs)

  pub In-cons : {a x : A} {xs : List A} → In a (x ∷ xs) → (a ≡ x) ⊎ In a xs
  In-cons (here ys) = inl refl
  In-cons (there x m) = inr m

  pub In-append_of : {a : A} (xs ys : List A) → In a (xs ++ ys) → In a xs ⊎ In a ys
  In-append_of [] ys m = inr m
  In-append_of (x ∷ xs) ys m = elim (In-cons m) [
    | inl p ↦ inl (rw p (here xs))
    | inr k ↦ elim (In-append_of xs ys k) [ inl l ↦ inl (there x l) | inr l ↦ inr l ]
  ]

  pub append-In_left : {a : A} (xs ys : List A) → In a xs → In a (xs ++ ys)
  append-In_left xs ys (here zs) = here (zs ++ ys)
  append-In_left xs ys (there x {xs = zs} m) = there x (append-In_left zs ys m)

  pub append-In_right : {a : A} (xs ys : List A) → In a ys → In a (xs ++ ys)
  append-In_right [] ys m = m
  append-In_right (x ∷ xs) ys m = there x (append-In_right xs ys m)

  In-filter_of : (p : A → Bool) {a : A} (xs : List A) → In a (filter p xs) → In a xs × (p a ≡ true)
  In-filter_of p [] m = elim m [ ]
  In-filter_of p (x ∷ xs) m = elim (Bool-cases (p x)) [
    | inl t ↦ elim (In-cons (rw t at m)) [
      | inl q ↦ rw q (here xs, t)
      | inr k ↦ let (l, q) = In-filter_of p xs k in (there x l, q)
    ]
    | inr t ↦ let (l, q) = In-filter_of p xs (rw t at m) in (there x l, q)
  ]

  filter-In : (p : A → Bool) {a : A} (xs : List A) → In a xs → p a ≡ true → In a (filter p xs)
  filter-In p xs (here ys) h = rw h (here (filter p ys))
  filter-In p xs (there x {xs = ys} m) h = elim (Bool-cases (p x)) [
    | inl t ↦ rw t (there x (filter-In p ys m h))
    | inr t ↦ rw t (filter-In p ys m h)
  ]

  pub In-filter :
      (p : A → Bool) (a : A) (xs : List A) → In a (filter p xs) ↔ (In a xs × (p a ≡ true))
  In-filter p a xs = (In-filter_of p xs, λ h. filter-In p xs h.0 h.1)

pub any-==_iff : (a : Text) (xs : List Text) → (any (λ x. x == a) xs ≡ true) ↔ In a xs
any-==_iff a xs = (
  λ h. let (b, m, q) = In-of_any (λ x. x == a) xs h in rw (← (==_iff b a).0 q) m,
  λ m. any_of_In (λ x. x == a) m (==_refl a),
)

module _ {A B : Type 0} where
  pub In-map_of :
      (f : A → B) {b : B} (xs : List A) → In b (map f xs) → (a : A) × In a xs × (b ≡ f a)
  In-map_of f [] m = elim m [ ]
  In-map_of f (x ∷ xs) m = elim (In-cons m) [
    | inl p ↦ (x, here xs, p)
    | inr k ↦ let (a, l, p) = In-map_of f xs k in (a, there x l, p)
  ]

  pub map-In : (f : A → B) {a : A} (xs : List A) → In a xs → In (f a) (map f xs)
  map-In f xs (here ys) = here (map f ys)
  map-In f xs (there x {xs = ys} m) = there (f x) (map-In f ys m)
