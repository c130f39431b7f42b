-- ===== src/Selector/Chooses.antt =====
-- Every selector of src/selector.rs returns a node that can be a parent, and fails only where there
-- is none.
use rig_veh.Prelude.{
  ℕ, ◌%◌, true, false, List, [], ◌∷◌, map, Option, none, some, ok, err, ◌≡◌, refl, ◌⊎◌, inl, inr,
  any, length, Bool-cases, arith, ap, ◌∙◌,
}
use rig_veh.Prelude.Member.{In, here, there, In-filter}
use rig_veh.Prelude.Member.Search.{find_back_cases, next_back-In, nth-In, filter_cases, In-map}
use rig_veh.Host.{Env}
use rig_veh.Error.{Outcome}
use rig_veh.Node.{AgentId, AgentNode}
use rig_veh.Selector.{
  no_parents, latest, random_pick, random, Weighted, walk, exhausted, total_weight, pseudo_unit,
  weighted_choice, weigh,
}

module _ ⦃e : Env⦄ where
  -- A choice among the nodes: the error exactly where no node can be a parent, and else the
  -- identifier of one that can.
  abbrev pub Chooses : List AgentNode → Outcome AgentId → Type 0
  Chooses nodes r =
      ((any (λ n. n.valid_parent) nodes ≡ false) × (r ≡ err no_parents))
      ⊎ ((n : AgentNode) × In n nodes × (n.valid_parent ≡ true) × (r ≡ ok n.agent_id))

  pub latest-Chooses : (nodes : List AgentNode) → Chooses nodes (latest nodes)
  unfolding latest
  latest-Chooses nodes = elim (find_back_cases (λ n. n.valid_parent) nodes) [
    | inl (p, nobody) ↦ inl (nobody, rw p refl)
    | inr (n, p, m, valid) ↦ inr (n, m, valid, rw p refl)
  ]

  pub random-Chooses :
      (seed : Option ℕ) (now : ℕ) (nodes : List AgentNode) → Chooses nodes (random seed now nodes)
  unfolding random
  random-Chooses seed now nodes = elim (filter_cases (λ n. n.valid_parent) nodes) [
    | inl (p, nobody) ↦ inl (nobody, rw p refl)
    | inr (y, ys, p) ↦
        let (n, q, m) =
          nth-In (y ∷ ys) (random_pick seed now (y ∷ ys) % length (y ∷ ys)) (omega arith) in
        let (k, valid) = (In-filter (λ n. n.valid_parent) n nodes).0 (rw p m) in
        inr (n, k, valid, rw (p, q) refl)
  ]

  walk-In :
      (r acc : e.F64) (ws : Weighted) (id : AgentId)
      → walk r acc ws ≡ some id
      → (w : e.F64 × AgentId) × In w ws × (w.1 ≡ id)
  unfolding walk
  walk-In r acc [] id h = cc h
  walk-In r acc ((w, i) ∷ ws) id h = elim (Bool-cases (e.f64_le r (e.f64_add acc w))) [
    | inl t ↦ ((w, i), here ws, cc (rw t at h))
    | inr t ↦
        let (v, m, q) = walk-In r (e.f64_add acc w) ws id (rw t at h) in (v, there (w, i) m, q)
  ]

  exhausted-In :
      (w : e.F64 × AgentId) (ws : Weighted) (found : Option AgentId)
      → ((id : AgentId) → found ≡ some id → (v : e.F64 × AgentId) × In v (w ∷ ws) × (v.1 ≡ id))
      → (v : e.F64 × AgentId) × In v (w ∷ ws) × (exhausted found (w ∷ ws) ≡ ok v.1)
  exhausted-In w ws none h = let (v, q, m) = next_back-In w ws in (v, m, rw q refl)
  exhausted-In w ws (some id) h = let (v, m, q) = h id refl in (v, m, rw q refl)

  -- A weighted choice among some nodes returns one of them: it never runs out.
  weighted_choice-In :
      (w : e.F64 × AgentId) (ws : Weighted) (seed : Option ℕ) (now : ℕ)
      → (v : e.F64 × AgentId) × In v (w ∷ ws) × (weighted_choice (w ∷ ws) seed now ≡ ok v.1)
  unfolding weighted_choice total_weight
  weighted_choice-In w ws seed now =
      let total = total_weight (w ∷ ws) e.f64_zero in
      let r = e.f64_mul (pseudo_unit seed now (w ∷ ws)) total in
      elim (Bool-cases (e.f64_le total e.f64_zero)) [
        | inl t ↦ let (v, q, m) = next_back-In w ws in (v, m, rw (t, q) refl)
        | inr t ↦
            let (v, m, q) =
              exhausted-In w ws (walk r e.f64_zero (w ∷ ws))
                (λ id. walk-In r e.f64_zero (w ∷ ws) id) in
            (v, m, rw t q)
      ]

  pub weigh-Chooses :
      (weight : AgentNode → e.F64) (nodes : List AgentNode) (seed : Option ℕ) (now : ℕ)
      → Chooses nodes (weighted_choice (weigh weight nodes) seed now)
  unfolding weighted_choice
  weigh-Chooses weight nodes seed now = elim (filter_cases (λ n. n.valid_parent) nodes) [
    | inl (p, nobody) ↦ inl (nobody, rw p refl)
    | inr (y, ys, p) ↦
        let pair : AgentNode → e.F64 × AgentId = λ n. (weight n, n.agent_id) in
        let (v, m, q) = weighted_choice-In (pair y) (map pair ys) seed now in
        let (n, k, same) = In-map pair (y ∷ ys) m in
        let (l, valid) = (In-filter (λ n. n.valid_parent) n nodes).0 (rw p k) in
        inr (n, l, valid, rw p (q ∙ ap (λ x. ok x.1) same))
  ]
