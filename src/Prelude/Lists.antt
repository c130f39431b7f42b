-- ===== src/Prelude/Lists.antt =====
-- Lists measured by native numbers, and Boolean searches, under the library's names.
use Prim.Native.Nat.{ℕ, zero, suc, ◌+◌}
use mathlib.Core.Path.{◌≡◌, refl, ap}
use mathlib.Core.Bool.{Bool, true, false, ◌||◌}
use mathlib.Core.List.{List, [], ◌∷◌, ◌++◌}
use mathlib.Core.Option.{Option, none, some}
use mathlib.Core.Logic.{◌≢◌}
use native.Mathlib.Omega.{arith}
use rig_veh.Prelude.Tests.{if◌then◌else◌}

-- A predicate on every element, by recursion, so that the tactics read its parts.
abbrev pub All {ℓ κ} : {A : Type ℓ} → (A → Type κ) → List A → Type κ
All P [] = Unit
All P (x ∷ xs) = P x × All P xs

module _ {ℓ} {A : Type ℓ} where
  abbrev pub length : List A → ℕ
  length [] = 0
  length (x ∷ xs) = suc (length xs)

  -- `iter().any(p)`
  abbrev pub any : (A → Bool) → List A → Bool
  any p [] = false
  any p (x ∷ xs) = p x || any p xs

  -- `iter().find(p)`
  abbrev pub find : (A → Bool) → List A → Option A
  find p [] = none
  find p (x ∷ xs) = if p x then some x else find p xs

  -- `iter().filter(p).collect()`
  abbrev pub filter : (A → Bool) → List A → List A
  filter p [] = []
  filter p (x ∷ xs) = if p x then x ∷ filter p xs else filter p xs

  -- `iter().next_back()`, which `last()` is too
  abbrev pub next_back : List A → Option A
  next_back [] = none
  next_back (x ∷ []) = some x
  next_back (x ∷ y ∷ ys) = next_back (y ∷ ys)

  -- `iter().nth(n)`
  abbrev pub nth : List A → ℕ → Option A
  nth [] n = none
  nth (x ∷ xs) zero = some x
  nth (x ∷ xs) (suc n) = nth xs n

  -- `iter().take(n)`, and what it leaves
  abbrev pub take : ℕ → List A → List A
  take zero xs = []
  take (suc n) [] = []
  take (suc n) (x ∷ xs) = x ∷ take n xs

  abbrev pub drop : ℕ → List A → List A
  drop zero xs = xs
  drop (suc n) [] = []
  drop (suc n) (x ∷ xs) = drop n xs

  pub take-drop : (n : ℕ) (xs : List A) → take n xs ++ drop n xs ≡ xs
  take-drop zero xs = refl
  take-drop (suc n) [] = refl
  take-drop (suc n) (x ∷ xs) = ap (λ l. x ∷ l) (take-drop n xs)

  -- What `iter().rev().find(p)` goes on with in front of what it found.
  abbrev pub found_or : Option A → (A → Bool) → A → Option A
  found_or none p x = if p x then some x else none
  found_or (some y) p x = some y

  -- `iter().rev().find(p)`
  abbrev pub find_back : (A → Bool) → List A → Option A
  find_back p [] = none
  find_back p (x ∷ xs) = found_or (find_back p xs) p x

  pub length-append : (xs ys : List A) → length (xs ++ ys) ≡ length xs + length ys
  length-append [] ys = omega arith
  length-append (x ∷ xs) ys = omega (arith, length-append xs ys)

  pub any-append : (p : A → Bool) (xs ys : List A) → any p (xs ++ ys) ≡ (any p xs || any p ys)
  any-append p [] ys = refl
  any-append p (x ∷ xs) ys = ground (arith, any-append p xs ys)

  -- A search in a longer list finds what the first part holds, or goes on in the second.
  pub find-append_none :
      (p : A → Bool) (xs ys : List A) → any p xs ≡ false → find p (xs ++ ys) ≡ find p ys
  find-append_none p [] ys h = refl
  find-append_none p (x ∷ xs) ys h = ground (arith, find-append_none p xs ys)

  pub find-append_some :
      (p : A → Bool) (xs ys : List A) (a : A) → find p xs ≡ some a → find p (xs ++ ys) ≡ some a
  find-append_some p [] ys a h = ground arith
  find-append_some p (x ∷ xs) ys a h = ground (arith, find-append_some p xs ys a)

  pub find-eq_none : (p : A → Bool) (xs : List A) → any p xs ≡ false → find p xs ≡ none
  find-eq_none p [] h = refl
  find-eq_none p (x ∷ xs) h = ground (arith, find-eq_none p xs)

  pub any_of_find : (p : A → Bool) (xs : List A) (a : A) → find p xs ≡ some a → any p xs ≡ true
  any_of_find p [] a h = ground arith
  any_of_find p (x ∷ xs) a h = ground (arith, any_of_find p xs a)

  pub find_of_any : (p : A → Bool) (xs : List A) → any p xs ≡ true → find p xs ≢ none
  find_of_any p [] h = ground arith
  find_of_any p (x ∷ xs) h = ground (arith, find_of_any p xs)

  -- What a search returns passes its test.
  pub find_passes : (p : A → Bool) (xs : List A) (a : A) → find p xs ≡ some a → p a ≡ true
  find_passes p [] a h = ground arith
  find_passes p (x ∷ xs) a h = ground (arith, find_passes p xs a)

module _ {ℓ κ} {A : Type ℓ} (P : A → Type κ) where
  pub All-append : (xs ys : List A) → All P xs → All P ys → All P (xs ++ ys)
  All-append [] ys hx hy = hy
  All-append (x ∷ xs) ys hx hy = (hx.0, All-append xs ys hx.1 hy)

  pub All_find : (p : A → Bool) (xs : List A) (a : A) → All P xs → find p xs ≡ some a → P a
  All_find p [] a h e = ground arith
  All_find p (x ∷ xs) a h e = ground (arith, All_find p xs a)

module _ {ℓ} {A : Type ℓ} where
  -- Two splits of one list with ends of one length are the same split.
  pub append_inj_right :
      (xs ys zs ws : List A) → length ys ≡ length ws → xs ++ ys ≡ zs ++ ws → (xs ≡ zs) × (ys ≡ ws)
  append_inj_right [] ys [] ws l h = (refl, h)
  append_inj_right [] ys (z ∷ zs) ws l h = absurd (omega (arith, length-append zs ws, ap length h))
  append_inj_right (x ∷ xs) ys [] ws l h = absurd (omega (arith, length-append xs ys, ap length h))
  append_inj_right (x ∷ xs) ys (z ∷ zs) ws l h =
      let t : xs ++ ys ≡ zs ++ ws = cc h in
      let (p, q) = append_inj_right xs ys zs ws l t in let r : x ≡ z = cc h in (cc (p, r), q)
