-- ===== src/Graph/Runner.antt =====
-- src/graph.rs: the runner `Veh`, and the inputs and outcomes of a cycle. The ledger is the state
-- of the operations; the other collaborators are fields.
use rig_veh.Prelude.{ℕ, Bool, true, Option, Text}
use rig_veh.Host.{Env, Json}
use rig_veh.Intent.{MutationIntent, AllowedScope}
use rig_veh.Evaluator.{EvalResult, Evaluator}
use rig_veh.Artifact.{AgentArtifact}
use rig_veh.Node.{AgentId, AgentNode}
use rig_veh.Policy.{PolicyGate, evaluate}

module _ ⦃e : Env⦄ where
  pub record CycleInputs : Type 0 where
    pub parent : AgentNode
    pub intent : MutationIntent
    pub candidate : AgentArtifact
    pub allowed_scope : AllowedScope
    pub created_at : Text

  pub record PendingApproval : Type 0 where
    pub parent_id : Option AgentId
    pub parent_generation : ℕ
    pub intent : MutationIntent
    pub candidate : AgentArtifact
    pub allowed_scope : AllowedScope
    pub created_at : Text
    pub eval_results : Json
    pub mutation_diff : Text
    pub decision_reason : Text

  pub data CycleOutcome : Type 0 where
    promoted : AgentNode → EvalResult → CycleOutcome
    rejected : AgentNode → Text → CycleOutcome
    awaiting_approval : PendingApproval → CycleOutcome

  pub record Veh : Type 0 where
    pub evaluator : Evaluator
    pub policy : PolicyGate
    pub signing_key : e.SigningKey
    pub require_strict_improvement : Bool

  -- `Veh::new`
  unfoldable pub new_veh : Evaluator → e.SigningKey → Veh
  new_veh evaluator key = record {
    evaluator = evaluator;
    policy = evaluate;
    signing_key = key;
    require_strict_improvement = true;
  }

  unfoldable pub with_policy : Veh → PolicyGate → Veh
  with_policy veh policy = record veh { policy = policy }

  unfoldable pub with_strict_improvement : Veh → Bool → Veh
  with_strict_improvement veh strict = record veh { require_strict_improvement = strict }
