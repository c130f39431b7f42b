-- ===== src/Selector/Promoted.antt =====
-- What a selector of src/selector.rs picks from a sound ledger.
use rig_veh.Prelude.{
  ℕ, true, List, [], Option, some, ok, ◌≡◌, refl, inl, inr, any, find, ◌==◌, ==_iff, ==_refl,
  Bool-cases, ap, sym, ◌∙◌, ok-injective, All, false≢true,
}
use rig_veh.Prelude.Member.{In, here, there, any_of_In}
use rig_veh.Host.{Env}
use rig_veh.Error.{Outcome}
use rig_veh.Node.{AgentId, AgentNode, is_promoted}
use rig_veh.Identity.{verify_node}
use rig_veh.Ledger.Store.{LineageStore, IsLineageStore}
use rig_veh.Graph.Step.{IsSound, Unique}
use rig_veh.Selector.{
  latest, best, random, score_of, child_counts, child_weight, score_proportional,
  score_child_proportional, over_nodes,
}
use rig_veh.Selector.Chooses.{Chooses, latest-Chooses, random-Chooses, weigh-Chooses}
use rig_veh.Selector.Best.{best-Chooses}

module _ ⦃e : Env⦄ where
  score_proportional-Chooses :
      (seed : Option ℕ) (now : ℕ) (nodes : List AgentNode)
      → Chooses nodes (score_proportional seed now nodes)
  unfolding score_proportional
  score_proportional-Chooses seed now nodes =
      weigh-Chooses (λ n. e.f64_max (score_of n) e.f64_zero) nodes seed now

  score_child_proportional-Chooses :
      (seed : Option ℕ) (now : ℕ) (nodes : List AgentNode)
      → Chooses nodes (score_child_proportional seed now nodes)
  unfolding score_child_proportional
  score_child_proportional-Chooses seed now nodes =
      weigh-Chooses (child_weight (child_counts [] nodes)) nodes seed now

  -- All five selectors, on any nodes and at any time, return the identifier of a node that can
  -- be a parent; they fail, with the error for it, exactly where no node can.
  pub selectors-Chooses :
      (seed : Option ℕ) (now : ℕ) (nodes : List AgentNode)
      → Chooses nodes (latest nodes)
        × Chooses nodes (best nodes)
        × Chooses nodes (random seed now nodes)
        × Chooses nodes (score_proportional seed now nodes)
        × Chooses nodes (score_child_proportional seed now nodes)
  selectors-Chooses seed now nodes = (
    latest-Chooses nodes,
    best-Chooses nodes,
    random-Chooses seed now nodes,
    score_proportional-Chooses seed now nodes,
    score_child_proportional-Chooses seed now nodes,
  )

  -- With unique identifiers, a node is what is found under its identifier.
  find-In :
      (n : AgentNode) (nodes : List AgentNode)
      → Unique nodes
      → In n nodes
      → find (λ m. m.agent_id == n.agent_id) nodes ≡ some n
  find-In n nodes u (here ns) = rw (==_refl n.agent_id) refl
  find-In n nodes u (there m {xs = ns} k) = elim (Bool-cases (m.agent_id == n.agent_id)) [
    | inl t ↦
        let held = any_of_In (λ j. j.agent_id == n.agent_id) k (==_refl n.agent_id) in
        absurd (
          false≢true
            (sym u.0 ∙ ap (λ id. any (λ j. j.agent_id == id) ns) ((==_iff _ _).0 t) ∙ held))
    | inr t ↦ rw t (find-In n ns u.1 k)
  ]

  All-In :
      (P : AgentNode → Type 0) (n : AgentNode) (nodes : List AgentNode)
      → All P nodes
      → In n nodes
      → P n
  All-In P n nodes h (here ns) = h.0
  All-In P n nodes h (there m {xs = ns} k) = All-In P n ns h.1 k

module _ ⦃e : Env⦄ (store : LineageStore) (laws : IsLineageStore store) where
  open store use {State, get}
  open laws use {IsValid, view}

  -- On a sound ledger, a selector that chooses among the valid parents picks a node that is in the
  -- ledger, verifies and is promoted.
  pub select-promoted :
      (choose : List AgentNode → Outcome AgentId)
      → ((nodes : List AgentNode) → Chooses nodes (choose nodes))
      → (s : State) (id : AgentId) → IsValid s
      → IsSound (view s)
      → (over_nodes store choose).select s ≡ ok id
      → (n : AgentNode) × (get id s ≡ ok n)
        × (n.agent_id ≡ id)
        × (verify_node n ≡ ok tt)
        × (is_promoted n.status ≡ true)
  unfolding over_nodes
  select-promoted choose chooses s id v sound h = elim (chooses (view s).nodes) [
    | inl (nobody, p) ↦ cc (rw (laws.nodes_lem s v, p) at h)
    | inr (n, k, valid, p) ↦
        let same : n.agent_id ≡ id = ok-injective (rw (laws.nodes_lem s v, p) at h) in
        let found = find-In n (view s).nodes sound.unique k in
        (
          n,
          rw (← same, laws.get_lem n.agent_id s v, found) refl,
          same,
          All-In (λ m. verify_node m ≡ ok tt) n (view s).nodes sound.verified k,
          sym (
                All-In (λ m. m.valid_parent ≡ is_promoted m.status) n (view s).nodes sound.eligible
                  k)
              ∙ valid,
        )
  ]
