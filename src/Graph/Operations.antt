-- ===== src/Graph/Operations.antt =====
-- The operations of `Veh` (src/graph.rs) over any lineage store. Each returns its result and the
-- ledger that it leaves, on every path.
use mathlib.Core.List.{[]}
use mathlib.Core.Bool.{◌&&◌}
use rig_veh.Prelude.{
  Bool, true, false, not, Option, none, some, Text, text, ◌++◌, err, ok_or, if◌then◌else◌,
}
use rig_veh.Prelude.Exec.{Exec, pure, lift, reads, ◌>>=◌, ◌>>◌}
use rig_veh.Error.{Error}
use rig_veh.Host.{Env}
use rig_veh.Intent.{AllowedScope, new_intent, rollback}
use rig_veh.Evaluator.{EvalResult, eval_to_value, recorded_score}
use rig_veh.Artifact.{AgentArtifact, capability_sbom}
use rig_veh.Node.{AgentId, AgentNode, NodeStatus, is_promoted, next_generation}
use rig_veh.Diff.{manifest_diff}
use rig_veh.Identity.{CommitInputs, sign_node, verify_node}
use rig_veh.Policy.{PolicyDecision, approve, deny, require_approval}
use rig_veh.Ledger.Store.{LineageStore}
use rig_veh.Graph.Runner.{
  Veh, CycleInputs, CycleOutcome, promoted, rejected, awaiting_approval, PendingApproval,
}

module _ ⦃e : Env⦄ where
  -- The `CommitInputs` of `commit_root`.
  unfoldable pub root_inputs : AgentArtifact → AllowedScope → Text → CommitInputs
  root_inputs artifact scope created_at = record {
    parent_id = none;
    generation = 0;
    created_at = created_at;
    mutation_intent = new_intent (text "genesis");
    mutation_diff = [];
    allowed_scope = scope;
    eval_results = none;
    artifact = artifact;
    status = NodeStatus.promoted;
    parent_agent_success = true;
    valid_parent = true;
    eval_stage = none;
  }

  -- The `CommitInputs` of `commit_promoted`.
  unfoldable pub promoted_inputs : CycleInputs → Text → EvalResult → CommitInputs
  promoted_inputs c mutation_diff eval = record {
    parent_id = some c.parent.agent_id;
    generation = next_generation c.parent.generation;
    created_at = c.created_at;
    mutation_intent = c.intent;
    mutation_diff = mutation_diff;
    allowed_scope = c.allowed_scope;
    eval_results = some (eval_to_value eval);
    artifact = c.candidate;
    status = NodeStatus.promoted;
    parent_agent_success = true;
    valid_parent = true;
    eval_stage = none;
  }

  -- The `CommitInputs` of `commit_rejected`.
  unfoldable pub rejected_inputs : CycleInputs → Text → EvalResult → CommitInputs
  rejected_inputs c mutation_diff eval = record {
    parent_id = some c.parent.agent_id;
    generation = next_generation c.parent.generation;
    created_at = c.created_at;
    mutation_intent = c.intent;
    mutation_diff = mutation_diff;
    allowed_scope = c.allowed_scope;
    eval_results = some (eval_to_value eval);
    artifact = c.candidate;
    status = NodeStatus.rejected;
    parent_agent_success = true;
    valid_parent = false;
    eval_stage = none;
  }

  -- The `CommitInputs` of `resume_with_approval`.
  unfoldable pub approved_inputs : PendingApproval → CommitInputs
  approved_inputs p = record {
    parent_id = p.parent_id;
    generation = next_generation p.parent_generation;
    created_at = p.created_at;
    mutation_intent = p.intent;
    mutation_diff = p.mutation_diff;
    allowed_scope = p.allowed_scope;
    eval_results = some p.eval_results;
    artifact = p.candidate;
    status = NodeStatus.promoted;
    parent_agent_success = true;
    valid_parent = true;
    eval_stage = none;
  }

  -- The `CommitInputs` of `commit_rollback`, from the head and the target.
  unfoldable pub rollback_inputs : AgentNode → AgentNode → AgentId → Text → CommitInputs
  rollback_inputs parent target target_id created_at = record {
    parent_id = some parent.agent_id;
    generation = next_generation parent.generation;
    created_at = created_at;
    mutation_intent = rollback target_id;
    mutation_diff = [];
    allowed_scope = target.allowed_scope;
    eval_results = none;
    artifact = target.artifact;
    status = NodeStatus.promoted;
    parent_agent_success = true;
    valid_parent = true;
    eval_stage = none;
  }

  -- The FR-5 check: the reason for which a score falls short of the parent's.
  unfoldable pub shortfall : Bool → Option e.F64 → e.F64 → Option Text
  shortfall strict none score = none
  shortfall strict (some parent_score) score =
      if strict && e.f64_le score parent_score
      then some (
          text "candidate score "
          ++ (e.f64_display score
              ++ (text " did not exceed parent " ++ e.f64_display parent_score)))
      else none

  unfoldable pub pending : CycleInputs → Text → EvalResult → Text → PendingApproval
  pending c mutation_diff eval reason = record {
    parent_id = some c.parent.agent_id;
    parent_generation = c.parent.generation;
    intent = c.intent;
    candidate = c.candidate;
    allowed_scope = c.allowed_scope;
    created_at = c.created_at;
    eval_results = eval_to_value eval;
    mutation_diff = mutation_diff;
    decision_reason = reason;
  }

module _ ⦃e : Env⦄ (store : LineageStore) where
  open store use {State, append, get, head, set_head}

  -- The last steps of every commit: sign, append, and return the node.
  unfoldable pub sign_and_append : CommitInputs → e.SigningKey → Exec State Error AgentNode
  sign_and_append inputs key = do node ← lift (sign_node inputs key); append node; pure node

  unfoldable pub commit_root :
      Veh → AgentArtifact → AllowedScope → Text → Exec State Error AgentNode
  commit_root veh artifact scope created_at =
      sign_and_append (root_inputs artifact scope created_at) veh.signing_key

  unfoldable pub commit_promoted :
      Veh → CycleInputs → Text → EvalResult → Exec State Error AgentNode
  commit_promoted veh c mutation_diff eval =
      sign_and_append (promoted_inputs c mutation_diff eval) veh.signing_key

  unfoldable pub commit_rejected :
      Veh → CycleInputs → Text → EvalResult → Exec State Error AgentNode
  commit_rejected veh c mutation_diff eval =
      sign_and_append (rejected_inputs c mutation_diff eval) veh.signing_key

  -- COMMIT_OR_DISCARD, by the decision of the gate.
  unfoldable pub decide :
      Veh → CycleInputs → Text → EvalResult → PolicyDecision → Exec State Error CycleOutcome
  decide veh c mutation_diff eval approve = do
    node ← commit_promoted veh c mutation_diff eval
    pure (promoted node eval)
  decide veh c mutation_diff eval (deny reason) = do
    node ← commit_rejected veh c mutation_diff eval
    pure (rejected node reason)
  decide veh c mutation_diff eval (require_approval reason) =
      pure (awaiting_approval (pending c mutation_diff eval reason))

  -- The FR-5 rejection, or else POLICY_GATE.
  unfoldable pub gate :
      Veh → CycleInputs → Text → EvalResult → Option Text → Exec State Error CycleOutcome
  gate veh c mutation_diff eval (some reason) = do
    node ← commit_rejected veh c mutation_diff eval
    pure (rejected node reason)
  gate veh c mutation_diff eval none =
      decide veh c mutation_diff eval (veh.policy c.parent c.intent (capability_sbom c.candidate))

  unfoldable pub run_cycle : Veh → CycleInputs → Exec State Error CycleOutcome
  run_cycle veh c = do
    mutation_diff ← lift (manifest_diff c.parent.artifact c.candidate)
    eval ← lift (veh.evaluator.evaluate c.candidate)
    gate veh c mutation_diff eval
        (shortfall veh.require_strict_improvement (recorded_score c.parent.eval_results) eval.score)

  unfoldable pub resume_with_approval : PendingApproval → e.SigningKey → Exec State Error AgentNode
  resume_with_approval p approval_key = sign_and_append (approved_inputs p) approval_key

  -- The checks on a rollback target: it exists, verifies and is promoted.
  unfoldable pub rollback_target_of : AgentId → Exec State Error AgentNode
  rollback_target_of id = do
    target ← reads (get id)
    lift (verify_node target)
    if not (is_promoted target.status)
        then lift (err (Error.policy_denied (text "cannot roll back to non-promoted node " ++ id)))
        else pure target

  unfoldable pub rollback_to : AgentId → Exec State Error (Unit {0})
  rollback_to id = do rollback_target_of id; set_head id

  unfoldable pub commit_rollback : Veh → AgentId → Text → Exec State Error AgentNode
  commit_rollback veh target_id created_at = do
    target ← rollback_target_of target_id
    found ← reads head
    parent_id ← lift (ok_or (Error.ledger (text "ledger has no head; nothing to roll back")) found)
    parent ← reads (get parent_id)
    sign_and_append (rollback_inputs parent target target_id created_at) veh.signing_key
