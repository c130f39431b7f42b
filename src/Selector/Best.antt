-- ===== src/Selector/Best.antt =====
-- What the loop of `Best` in src/selector.rs keeps: the pair of a node that can be a parent.
pub mod Maximum
use rig_veh.Prelude.{
  true, false, List, [], ◌∷◌, Option, none, some, ok, err, ◌≡◌, refl, ◌⊎◌, inl, inr, any,
  Bool-cases, Option-cases, ap, sym, ◌∙◌, text,
}
use mathlib.Core.Option.{some-injective}
use rig_veh.Prelude.Member.{In, here, there, In-cons}
use rig_veh.Host.{Env, Json, IsScoreOrder}
use rig_veh.Json.{null, bool, number, string, array, object, get}
use rig_veh.Node.{AgentId, AgentNode}
use rig_veh.Evaluator.{recorded_score, as_f64}
use rig_veh.Selector.{no_parents, score_of, consider, best_of, best}
use rig_veh.Selector.Chooses.{Chooses}

module _ ⦃e : Env⦄ where
  abbrev Scored : Type 0
  Scored = e.F64 × AgentId

  -- The pair that a node enters the comparison with.
  abbrev scored : AgentNode → Scored
  scored n = (score_of n, n.agent_id)

  skips : (b : Option Scored) (n : AgentNode) → n.valid_parent ≡ false → consider b n ≡ b
  unfolding consider score_of
  skips b n t = rw t refl

  starts : (n : AgentNode) → n.valid_parent ≡ true → consider none n ≡ some (scored n)
  unfolding consider score_of
  starts n t = rw t refl

  keeps :
      (x : Scored) (n : AgentNode) → e.f64_le (score_of n) x.0 ≡ true → consider (some x) n ≡ some x
  unfolding consider score_of
  keeps x n u = elim (Bool-cases n.valid_parent) [ inl t ↦ rw (t, u) refl | inr t ↦ rw t refl ]

  replaces :
      (x : Scored) (n : AgentNode)
      → n.valid_parent ≡ true
      → e.f64_le (score_of n) x.0 ≡ false
      → consider (some x) n ≡ some (scored n)
  unfolding consider score_of
  replaces x n t u = rw (t, u) refl

  best_of-cons :
      (b b' : Option Scored) (n : AgentNode) (nodes : List AgentNode)
      → consider b n ≡ b'
      → best_of b (n ∷ nodes) ≡ best_of b' nodes
  unfolding best_of
  best_of-cons b b' n nodes p = ap (λ c. best_of c nodes) p

  best_of-nil : (b : Option Scored) → best_of b [] ≡ b
  unfolding best_of
  best_of-nil b = refl

  -- Where the pair that wins comes from: it is the first one, or a valid parent's.
  abbrev Wins : Scored → List AgentNode → Scored → Type 0
  Wins x nodes y =
      (y ≡ x) ⊎ ((n : AgentNode) × In n nodes × (n.valid_parent ≡ true) × (y ≡ scored n))

  Wins-later :
      {x y : Scored} (n : AgentNode) {nodes : List AgentNode}
      → Wins x nodes y
      → Wins x (n ∷ nodes) y
  Wins-later n (inl p) = inl p
  Wins-later n (inr (m, k, t, p)) = inr (m, there n k, t, p)

  Wins-first :
      {x y : Scored} (n : AgentNode) {nodes : List AgentNode}
      → n.valid_parent ≡ true
      → Wins (scored n) nodes y
      → Wins x (n ∷ nodes) y
  Wins-first n {nodes} t (inl p) = inr (n, here nodes, t, p)
  Wins-first n t (inr (m, k, u, p)) = inr (m, there n k, u, p)

  best_of-some :
      (x : Scored) (nodes : List AgentNode)
      → (y : Scored) × (best_of (some x) nodes ≡ some y) × Wins x nodes y
  best_of-some x [] = (x, best_of-nil (some x), inl refl)
  best_of-some x (n ∷ nodes) = elim (Bool-cases (e.f64_le (score_of n) x.0)) [
    | inl u ↦
        let (y, p, w) = best_of-some x nodes in
        (y, best_of-cons (some x) (some x) n nodes (keeps x n u) ∙ p, Wins-later n w)
    | inr u ↦ elim (Bool-cases n.valid_parent) [
      | inl t ↦
          let (y, p, w) = best_of-some (scored n) nodes in
          (
            y,
            best_of-cons (some x) (some (scored n)) n nodes (replaces x n t u) ∙ p,
            Wins-first n t w,
          )
      | inr t ↦
          let (y, p, w) = best_of-some x nodes in
          (y, best_of-cons (some x) (some x) n nodes (skips (some x) n t) ∙ p, Wins-later n w)
    ]
  ]

  best_of-none :
      (nodes : List AgentNode)
      → ((any (λ n. n.valid_parent) nodes ≡ false) × (best_of none nodes ≡ none))
        ⊎ ((n : AgentNode) × In n nodes
            × (n.valid_parent ≡ true)
            × (best_of none nodes ≡ some (scored n)))
  best_of-none [] = inl (refl, best_of-nil none)
  best_of-none (n ∷ nodes) = elim (Bool-cases n.valid_parent) [
    | inl t ↦ first (best_of-some (scored n) nodes) t
    | inr t ↦ elim (best_of-none nodes) [
      | inl (q, p) ↦ inl (rw t q, best_of-cons none none n nodes (skips none n t) ∙ p)
      | inr (m, k, u, p) ↦
          inr (m, there n k, u, best_of-cons none none n nodes (skips none n t) ∙ p)
    ]
  ]
    where
      first :
          (y : Scored) × (best_of (some (scored n)) nodes ≡ some y) × Wins (scored n) nodes y
          → n.valid_parent ≡ true
          → ((any (λ n. n.valid_parent) (n ∷ nodes) ≡ false) × (best_of none (n ∷ nodes) ≡ none))
            ⊎ ((m : AgentNode) × In m (n ∷ nodes)
                × (m.valid_parent ≡ true)
                × (best_of none (n ∷ nodes) ≡ some (scored m)))
      first (y, p, inl q) t = inr (
        n,
        here nodes,
        t,
        best_of-cons none (some (scored n)) n nodes (starts n t) ∙ p ∙ ap some q,
      )
      first (y, p, inr (m, k, u, q)) t = inr (
        m,
        there n k,
        u,
        best_of-cons none (some (scored n)) n nodes (starts n t) ∙ p ∙ ap some q,
      )

  pub best-Chooses : (nodes : List AgentNode) → Chooses nodes (best nodes)
  unfolding best
  best-Chooses nodes = elim (best_of-none nodes) [
    | inl (q, p) ↦ inl (q, rw p refl)
    | inr (n, k, t, p) ↦ inr (n, k, t, rw p refl)
  ]
