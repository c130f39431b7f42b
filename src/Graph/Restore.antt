-- ===== src/Graph/Restore.antt =====
-- What a signed rollback appends (`Veh::commit_rollback` of src/graph.rs).
use rig_veh.Prelude.{none, some, Text, ok, ◌≡◌, refl, ap, ◌∙◌, inl, inr, true}
use rig_veh.Host.{Env}
use rig_veh.Intent.{rollback, rollback_target}
use rig_veh.Evaluator.{EvalResult, recorded_score}
use rig_veh.Node.{AgentNode, AgentId, next_generation, is_promoted}
use rig_veh.Identity.{sign_node, seal}
use rig_veh.Identity.RoundTrip.{sign_node-eq_ok}
use rig_veh.Ledger.View.{push}
use rig_veh.Ledger.Store.{LineageStore, IsLineageStore}
use rig_veh.Graph.Runner.{Veh, CycleInputs}
use rig_veh.Graph.Operations.{shortfall, commit_rollback, rollback_inputs}
use rig_veh.Graph.Commit.{Commits, sign_and_append-Commits}
use rig_veh.Graph.Cycle.{fr5}
use rig_veh.Graph.Target.{rollback_parts}
use rig_veh.Graph.Rollback.{commit_rollback_cases}

module _ ⦃e : Env⦄ where
  -- A rollback intent names its target.
  pub rollback_target-rollback : (id : Text) → rollback_target (rollback id) ≡ some id
  unfolding rollback_target rollback
  rollback_target-rollback id = refl

  -- The node that a signed rollback to `id` appends: the target's artifact and scope, under the
  -- head, with the target's identifier in its signed intent and no evaluation.
  pub record Restores (id : AgentId) (parent target n : AgentNode) : Type 0 where
    pub artifact : n.artifact ≡ target.artifact
    pub allowed_scope : n.allowed_scope ≡ target.allowed_scope
    pub parent_id : n.parent_id ≡ some parent.agent_id
    pub generation : n.generation ≡ next_generation parent.generation
    pub names_target : rollback_target n.mutation_intent ≡ some id
    pub status : is_promoted n.status ≡ true
    pub unscored : n.eval_results ≡ none

  Restores-sign_node :
      (parent target : AgentNode) (id : AgentId) (at : Text) (key : e.SigningKey) (n : AgentNode)
      → sign_node (rollback_inputs parent target id at) key ≡ ok n
      → Restores id parent target n
  unfolding seal rollback_inputs
  Restores-sign_node parent target id at key n h =
      let (payload, p, s) = sign_node-eq_ok (rollback_inputs parent target id at) key n h in
      rw s (record {
        artifact = refl;
        allowed_scope = refl;
        parent_id = refl;
        generation = refl;
        names_target = rollback_target-rollback id;
        status = refl;
        unscored = refl;
      })

module _ ⦃e : Env⦄ (store : LineageStore) (laws : IsLineageStore store) where
  open store use {State}
  open laws use {IsValid, view}

  -- From a valid state, a signed rollback that returns a node found a verified, promoted target
  -- and a head, appended the node that restores the target under the head, and made it the head.
  pub commit_rollback-Restores :
      (veh : Veh) (id : AgentId) (at : Text) (s s' : State) (n : AgentNode)
      → IsValid s
      → commit_rollback store veh id at s ≡ (ok n, s')
      → (target : AgentNode) × (parent : AgentNode) × (rollback_parts id (view s)
          ≡ ok (target, parent))
        × Restores id parent target n
        × (view s' ≡ push n (view s))
        × ((view s').head ≡ some n.agent_id)
  commit_rollback-Restores veh id at s s' n v h =
      elim (commit_rollback_cases store laws veh id at s v) [
        | inl (x, p, q) ↦ cc (q, h)
        | inr (target, parent, p, q) ↦
            let inputs = rollback_inputs parent target id at in
            let k : Commits inputs veh.signing_key (view s) (ok n) (view s') =
              rw (← q, h) at (sign_and_append-Commits store laws inputs veh.signing_key s v) in
            let r = Restores-sign_node parent target id at veh.signing_key n k.0 in
            (target, parent, p, r, k.2, rw (k.2, r.status) refl)
      ]

  -- A child of a node that a signed rollback appended, from a valid state, is never held to
  -- FR-5, whatever its score and the strictness of the runner: the node records no score.
  pub rollback_lifts_fr5 :
      (veh other : Veh) (id : AgentId) (at : Text) (s s' : State) (n : AgentNode)
      → IsValid s
      → commit_rollback store veh id at s ≡ (ok n, s')
      → (c : CycleInputs) → c.parent ≡ n
      → (ev : EvalResult) → fr5 other c ev ≡ none
  unfolding shortfall recorded_score
  rollback_lifts_fr5 veh other id at s s' n v h c child ev =
      let (target, parent, p, r, q, head) = commit_rollback-Restores veh id at s s' n v h in
      rw (ap (λ m. m.eval_results) child ∙ r.unscored) refl
