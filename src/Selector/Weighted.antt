-- ===== src/Selector/Weighted.antt =====
-- Where `weighted_choice` of src/selector.rs lands.
use rig_veh.Prelude.{
  ℕ, true, false, List, [], ◌∷◌, ◌++◌, Option, none, some, ok, err, ◌≡◌, refl, ◌⊎◌, inl, inr,
  next_back, Bool-cases,
}
use rig_veh.Host.{Env}
use rig_veh.Error.{Outcome}
use rig_veh.Node.{AgentId}
use rig_veh.Selector.{no_parents, Weighted, total_weight, pseudo_unit, walk, weighted_choice}

-- A list that is not empty has a last element, which `next_back` returns.
next_back-split {ℓ} :
    {A : Type ℓ} (x : A) (xs : List A)
    → (before : List A) × (y : A) × (x ∷ xs ≡ before ++ y ∷ []) × (next_back (x ∷ xs) ≡ some y)
next_back-split x [] = ([], x, refl, refl)
next_back-split x (y ∷ ys) =
    let (before, z, p, q) = next_back-split y ys in (x ∷ before, z, (λ i. x ∷ p i), q)

module _ ⦃e : Env⦄ where
  -- The running sums from `acc` on are all below `r`.
  abbrev pub Missed : e.F64 → e.F64 → Weighted → Type 0
  Missed r acc [] = Unit
  Missed r acc ((w, id) ∷ rest) =
      (e.f64_le r (e.f64_add acc w) ≡ false) × Missed r (e.f64_add acc w) rest

  -- The identifier of the last entry.
  pub record IsLast (weighted : Weighted) (id : AgentId) : Type 0 where
    pub before : Weighted
    pub weight : e.F64
    pub split : weighted ≡ before ++ (weight, id) ∷ []

  -- The identifier of the first entry at which the running sum from `acc` on reaches `r`.
  pub record Reaches (r acc : e.F64) (weighted : Weighted) (id : AgentId) : Type 0 where
    pub before : Weighted
    pub weight : e.F64
    pub after : Weighted
    pub split : weighted ≡ before ++ (weight, id) ∷ after
    pub missed : Missed r acc before
    pub reached : e.f64_le r (e.f64_add (total_weight before acc) weight) ≡ true

  -- The point that the hash picks between zero and the total.
  abbrev pub point : Option ℕ → ℕ → Weighted → e.F64
  point seed now weighted =
      e.f64_mul (pseudo_unit seed now weighted) (total_weight weighted e.f64_zero)

  -- What a choice returns.
  pub data Lands (seed : Option ℕ) (now : ℕ) (weighted : Weighted) : Outcome AgentId → Type 0 where
    no_entries : weighted ≡ [] → Lands seed now weighted (err no_parents)
    -- no weight at all: the last entry
    weightless :
        (id : AgentId)
        → e.f64_le (total_weight weighted e.f64_zero) e.f64_zero ≡ true
        → IsLast weighted id
        → Lands seed now weighted (ok id)
    inside :
        (id : AgentId)
        → e.f64_le (total_weight weighted e.f64_zero) e.f64_zero ≡ false
        → Reaches (point seed now weighted) e.f64_zero weighted id
        → Lands seed now weighted (ok id)
    -- the sums stay below the point: the last entry
    beyond :
        (id : AgentId)
        → e.f64_le (total_weight weighted e.f64_zero) e.f64_zero ≡ false
        → Missed (point seed now weighted) e.f64_zero weighted
        → IsLast weighted id
        → Lands seed now weighted (ok id)

  walk_cases :
      (r acc : e.F64) (weighted : Weighted)
      → ((walk r acc weighted ≡ none) × Missed r acc weighted)
        ⊎ ((id : AgentId) × (walk r acc weighted ≡ some id) × Reaches r acc weighted id)
  unfolding walk total_weight
  walk_cases r acc [] = inl (refl, tt)
  walk_cases r acc ((w, id) ∷ rest) = elim (Bool-cases (e.f64_le r (e.f64_add acc w))) [
    | inl t ↦ inr (
      id,
      rw t refl,
      record { before = []; weight = w; after = rest; split = refl; missed = tt; reached = t },
    )
    | inr t ↦ elim (walk_cases r (e.f64_add acc w) rest) [
      | inl (p, missed) ↦ inl (rw t p, (t, missed))
      | inr (found, p, h) ↦ inr (
        found,
        rw t p,
        record {
          before = (w, id) ∷ h.before;
          weight = h.weight;
          after = h.after;
          split = λ i. (w, id) ∷ h.split i;
          missed = (t, h.missed);
          reached = h.reached;
        },
      )
    ]
  ]

  -- A weighted choice fails only without entries. Where the weights add up to nothing it returns
  -- the last entry; else the first at which the running sum reaches the point that the hash picks
  -- between zero and the total, or the last one if no sum does.
  pub weighted_choice-Lands :
      (weighted : Weighted) (seed : Option ℕ) (now : ℕ)
      → Lands seed now weighted (weighted_choice weighted seed now)
  unfolding weighted_choice
  weighted_choice-Lands [] seed now = no_entries refl
  weighted_choice-Lands ((w, id) ∷ ws) seed now =
      let weighted = (w, id) ∷ ws in
      let (before, (weight, end), split, at_end) = next_back-split (w, id) ws in
      let last : IsLast weighted end = record { before = before; weight = weight; split = split } in
      elim (Bool-cases (e.f64_le (total_weight weighted e.f64_zero) e.f64_zero)) [
        | inl t ↦ rw (t, at_end) (weightless end t last)
        | inr t ↦ elim (walk_cases (point seed now weighted) e.f64_zero weighted) [
          | inl (p, missed) ↦ rw (t, p, at_end) (beyond end t missed last)
          | inr (found, p, h) ↦ rw (t, p) (inside found t h)
        ]
      ]
