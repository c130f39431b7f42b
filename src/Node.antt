-- ===== src/Node.antt =====
-- src/node.rs: the record of one agent in the lineage.
use rig_veh.Prelude.{
  ℕ, ◌+◌, ◌%◌, ◌^◌, List, [], ◌∷◌, Option, Text, text, Bool, true, false, Result, ok, ◌>>=◌,
}
use rig_veh.Host.{Env, Json}
use rig_veh.Json.{string, bool, number, array, object, Items, nil, cons, end, field, texts}
use rig_veh.Intent.{MutationIntent, AllowedScope, option_to_value, intent_to_value, scope_to_value}
use rig_veh.Artifact.{AgentArtifact}
use rig_veh.Evaluator.{EvalStage, stage_to_value}

abbrev pub AgentId : Type 0
AgentId = Text

pub data NodeStatus : Type 0 where
  promoted : NodeStatus
  rejected : NodeStatus

-- `matches!(status, NodeStatus::Promoted)`
abbrev pub is_promoted : NodeStatus → Bool
is_promoted promoted = true
is_promoted rejected = false

module _ ⦃e : Env⦄ where
  -- The derived `Serialize`, with `rename_all = "snake_case"`.
  unfoldable pub status_to_value : NodeStatus → Json
  status_to_value promoted = string (text "promoted")
  status_to_value rejected = string (text "rejected")

  -- `generation` is a u32.
  pub record AgentNode : Type 0 where
    pub agent_id : AgentId
    pub parent_id : Option AgentId
    pub generation : ℕ
    pub created_at : Text
    pub mutation_intent : MutationIntent
    pub capability_sbom : List Text
    pub eval_results : Option Json
    pub mutation_diff : Text
    pub allowed_scope : AllowedScope
    pub artifact : AgentArtifact
    pub signer_public_key : Text
    pub signature : Text
    pub status : NodeStatus
    pub parent_agent_success : Bool
    pub valid_parent : Bool
    pub eval_stage : Option EvalStage

  -- The derived `Serialize` of `AgentNode`; it fails where the manifest does not serialise.
  unfoldable pub node_to_value : AgentNode → Result Text Json
  unfolding status_to_value intent_to_value scope_to_value stage_to_value texts
  node_to_value n = do
    manifest ← e.manifest_to_value n.artifact.manifest
    ok (
        object (
          field (text "agent_id") (string n.agent_id) (
            field (text "parent_id") (option_to_value string n.parent_id) (
              field (text "generation") (number (e.number_from n.generation)) (
                field (text "created_at") (string n.created_at) (
                  field (text "mutation_intent") (intent_to_value n.mutation_intent) (
                    field (text "capability_sbom") (array (texts n.capability_sbom)) (
                      field (text "eval_results") (option_to_value (λ v. v) n.eval_results) (
                        field (text "mutation_diff") (string n.mutation_diff) (
                          field (text "allowed_scope") (scope_to_value n.allowed_scope) (
                            field (text "artifact") (object (field (text "manifest") manifest end))
                              (field (text "signer_public_key") (string n.signer_public_key) (
                                field (text "signature") (string n.signature) (
                                  field (text "status") (status_to_value n.status) (
                                    field (text "parent_agent_success")
                                      (bool n.parent_agent_success)
                                      (field (text "valid_parent") (bool n.valid_parent) (
                                        field (text "eval_stage")
                                          (option_to_value stage_to_value n.eval_stage)
                                          end)))))))))))))))))

  -- The nodes of an export, as one JSON array.
  unfoldable pub nodes_to_value : List AgentNode → Result Text (Items e.Number)
  unfolding node_to_value
  nodes_to_value [] = ok nil
  nodes_to_value (n ∷ ns) = do v ← node_to_value n; vs ← nodes_to_value ns; ok (cons v vs)

-- `generation + 1` on a u32, as a release build computes it.
unfoldable pub next_generation : ℕ → ℕ
next_generation g = (g + 1) % 2 ^ 32
