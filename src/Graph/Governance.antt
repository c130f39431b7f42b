-- ===== src/Graph/Governance.antt =====
-- What the default gate guarantees of a promoted node (SR-1): `Veh::run_cycle` of src/graph.rs with
-- the gate of src/policy.rs.
use rig_veh.Prelude.{
  ℕ, ◌≤◌, ◌<◌, some, Text, ok, true, Bool-cases, ◌≡◌, refl, inl, inr, ◌⊎◌, ap, ◌∙◌, sym, arith, any,
  ◌==◌, false≢true,
}
use rig_veh.Prelude.Member.{In, any-==_iff}
use rig_veh.Host.{Env}
use rig_veh.Evaluator.{EvalResult}
use rig_veh.Artifact.{capability_sbom}
use rig_veh.Node.{AgentNode, next_generation, is_promoted}
use rig_veh.Identity.{sign_node, seal}
use rig_veh.Identity.RoundTrip.{sign_node-eq_ok}
use rig_veh.Policy.{approve, evaluate, capability_in_scope}
use rig_veh.Policy.Scope.{InScope, capability_in_scope_iff}
use rig_veh.Policy.Decision.{Widens, evaluate_cases}
use rig_veh.Ledger.Store.{LineageStore, IsLineageStore}
use rig_veh.Graph.Runner.{Veh, CycleInputs, promoted}
use rig_veh.Graph.Operations.{run_cycle, promoted_inputs}
use rig_veh.Graph.Cycle.{Cycles, run_cycle-Cycles}

le_of_not_lt : (a b : ℕ) → ¬ (b < a) → a ≤ b
le_of_not_lt a b h = omega arith

module _ ⦃e : Env⦄ where
  -- The node stays within what its parent allows.
  pub record IsGoverned (parent n : AgentNode) : Type 0 where
    pub parent_id : n.parent_id ≡ some parent.agent_id
    pub generation : n.generation ≡ next_generation parent.generation
    pub depth : (m : ℕ) → parent.allowed_scope.max_generation ≡ some m → n.generation ≤ m
    pub scoped :
        (capability : Text)
        → In capability n.capability_sbom
        → In capability parent.capability_sbom ⊎ InScope parent.allowed_scope capability
    pub ungated :
        (gated : Text)
        → In gated parent.allowed_scope.gated_capabilities
        → ¬ In gated n.capability_sbom × ¬ In gated n.mutation_intent.constraints
    pub status : is_promoted n.status ≡ true

  -- An approval leaves no capability that is neither the parent's nor in scope.
  covered :
      (c : CycleInputs) (capability : Text)
      → ¬ Widens c.parent c.intent (capability_sbom c.candidate)
      → In capability (capability_sbom c.candidate)
      → In capability c.parent.capability_sbom ⊎ InScope c.parent.allowed_scope capability
  covered c capability narrow m =
      elim (Bool-cases (any (λ p. p == capability) c.parent.capability_sbom)) [
        | inl t ↦ inl ((any-==_iff capability _).0 t)
        | inr t ↦ elim (Bool-cases (capability_in_scope capability c.parent.allowed_scope)) [
          | inl u ↦ inr ((capability_in_scope_iff _ capability).0 u)
          | inr u ↦ absurd (
              narrow (
                capability,
                m,
                (λ i. false≢true (sym t ∙ (any-==_iff capability _).1 i)),
                (λ i. false≢true (sym u ∙ (capability_in_scope_iff _ capability).1 i)),
              ))
        ]
      ]

  IsGoverned-approve :
      (c : CycleInputs) (d : Text) (ev : EvalResult) (key : e.SigningKey) (n : AgentNode)
      → evaluate c.parent c.intent (capability_sbom c.candidate) ≡ approve
      → sign_node (promoted_inputs c d ev) key ≡ ok n
      → IsGoverned c.parent n
  unfolding promoted_inputs seal
  IsGoverned-approve c d ev key n approved signed =
      let (payload, p, s) = sign_node-eq_ok (promoted_inputs c d ev) key n signed in
      let sbom = capability_sbom c.candidate in
      elim (evaluate_cases c.parent c.intent sbom) [
        | inl (r, q, deep) ↦ cc (q, approved)
        | inr (inl (r, q, sh, rest)) ↦ cc (q, approved)
        | inr (inr (q, shallow, narrow, ungated)) ↦ rw s (record {
          parent_id = refl;
          generation = refl;
          depth = λ m h. le_of_not_lt _ m (λ deep. shallow (m, h, deep));
          scoped = λ capability m. covered c capability narrow m;
          ungated = λ g m. ((λ i. ungated (g, m, inl i)), (λ i. ungated (g, m, inr i)));
          status = refl;
        })
      ]

module _ ⦃e : Env⦄ (store : LineageStore) (laws : IsLineageStore store) where
  open store use {State}
  open laws use {IsValid, view}

  -- On a store that keeps the laws of the trait, with the default gate, a promoted node stays
  -- within what its parent allows: its depth is within the limit, each capability is the
  -- parent's or in the parent's scope, and it touches nothing gated.
  pub run_cycle-IsGoverned :
      (veh : Veh) (c : CycleInputs) (s s' : State) (n : AgentNode) (ev : EvalResult)
      → IsValid s
      → veh.policy ≡ evaluate
      → run_cycle store veh c s ≡ (ok (promoted n ev), s')
      → IsGoverned c.parent n
  run_cycle-IsGoverned veh c s s' n ev v default h =
      let k : Cycles veh c (view s) (ok (promoted n ev)) (view s') =
        rw h at (run_cycle-Cycles store laws veh c s v) in
      IsGoverned-approve c k.0 ev veh.signing_key n
        (ap (λ f. f c.parent c.intent (capability_sbom c.candidate)) (sym default) ∙ k.3) k.4.0
