-- ===== src/Evidence.antt =====
-- src/evidence.rs: the evidence that a node can carry in its `eval_results`, and the audit record
-- that is projected from a node.
pub mod Reader
pub mod RoundTrip
pub mod Unaudited
use rig_veh.Prelude.{
  ℕ, Bool, List, [], ◌∷◌, ◌++◌, Option, none, some, Text, text, Result, ok, err, map_err, map,
  ◌>>=◌,
}
use rig_veh.Host.{Env, Json}
use rig_veh.Json.{Value, Items, Fields, string, number, array, object, field, end, items}
use rig_veh.Error
use rig_veh.Error.{Outcome}
use rig_veh.Intent.{MutationIntent}
use rig_veh.Node.{AgentId, AgentNode}
use rig_veh.Policy.{PolicyDecision, approve, deny, require_approval}
use rig_veh.Identity.{verify_node}

abbrev pub evidence_bundle_version : ℕ
evidence_bundle_version = 1

pub data PolicyVerdict : Type 0 where
  approved : Text → PolicyVerdict
  denied : Text → PolicyVerdict
  requires_approval : Text → PolicyVerdict

-- `From<&PolicyDecision>`
unfoldable pub verdict_from : PolicyDecision → PolicyVerdict
verdict_from approve = approved (text "approved")
verdict_from (deny reason) = denied reason
verdict_from (require_approval reason) = requires_approval reason

pub record OperatorApproval : Type 0 where
  pub operator : Text
  pub note : Text

module _ ⦃e : Env⦄ where
  pub record EvidenceBundle : Type 0 where
    pub version : ℕ
    pub policy : PolicyVerdict
    pub evaluator_report : Option Json
    pub context_items : List Json
    pub operator_approvals : List OperatorApproval

  -- `EvidenceBundle::new`
  unfoldable pub new_bundle : PolicyVerdict → EvidenceBundle
  new_bundle policy = record {
    version = evidence_bundle_version;
    policy = policy;
    evaluator_report = none;
    context_items = [];
    operator_approvals = [];
  }

  unfoldable pub with_evaluator_report : EvidenceBundle → Json → EvidenceBundle
  with_evaluator_report b report = record b { evaluator_report = some report }

  unfoldable pub with_context_items : EvidenceBundle → List Json → EvidenceBundle
  with_context_items b context = record b { context_items = context }

  unfoldable pub with_operator_approval : EvidenceBundle → OperatorApproval → EvidenceBundle
  with_operator_approval b approval = record b {
    operator_approvals = b.operator_approvals ++ approval ∷ [];
  }

  -- The derived `Serialize` of the verdict: the variant under the tag `outcome`.
  unfoldable pub verdict_to_value : PolicyVerdict → Json
  verdict_to_value (approved reason) = object (
      field (text "outcome") (string (text "approved")) (field (text "reason") (string reason) end))
  verdict_to_value (denied reason) =
      object (
        field (text "outcome") (string (text "denied")) (field (text "reason") (string reason) end))
  verdict_to_value (requires_approval reason) = object (
      field (text "outcome") (string (text "requires_approval"))
        (field (text "reason") (string reason) end))

  unfoldable pub approval_to_value : OperatorApproval → Json
  approval_to_value a =
      object (field (text "operator") (string a.operator) (field (text "note") (string a.note) end))

  -- `skip_serializing_if`
  abbrev pub unless_empty : Text → List Json → Fields e.Number → Fields e.Number
  unless_empty name [] rest = rest
  unless_empty name (v ∷ vs) rest = field name (array (items (v ∷ vs))) rest

  abbrev pub unless_none : Text → Option Json → Fields e.Number → Fields e.Number
  unless_none name none rest = rest
  unless_none name (some v) rest = field name v rest

  -- `EvidenceBundle::to_value`
  unfoldable pub bundle_to_value : EvidenceBundle → Outcome Json
  unfolding verdict_to_value approval_to_value items
  bundle_to_value b = ok (
      object (
        field (text "version") (number (e.number_from b.version)) (
          field (text "policy") (verdict_to_value b.policy) (
            unless_none (text "evaluator_report") b.evaluator_report (
              unless_empty (text "context_items") b.context_items (
                unless_empty (text "operator_approvals")
                  (map approval_to_value b.operator_approvals) end))))))

  pub record AuditRecord : Type 0 where
    pub agent_id : AgentId
    pub parent_id : Option AgentId
    pub timestamp : Text
    pub mutation_intent : MutationIntent
    pub mutation_diff : Text
    pub evidence : EvidenceBundle
    pub signer_public_key : Text
    pub signature : Text
    pub verification_valid : Bool

-- `parse` is the derived `Deserialize` of the bundle, which the compiler generates.
module _ ⦃e : Env⦄ (parse : Json → Result Text EvidenceBundle) where
  -- `EvidenceBundle::from_value`
  unfoldable pub from_value : Json → Outcome EvidenceBundle
  from_value value = map_err Error.json (parse value)

  -- The evidence of a node.
  abbrev pub evidence_of : Option Json → Outcome EvidenceBundle
  evidence_of (some value) = from_value value
  evidence_of none = ok (new_bundle (approved (text "legacy_or_root")))

  abbrev pub succeeds : Outcome (Unit {0}) → Bool
  succeeds (ok u) = Bool.true
  succeeds (err x) = Bool.false

  -- `AuditRecord::from_node`
  unfoldable pub from_node : AgentNode → Outcome AuditRecord
  from_node node = do
    evidence ← evidence_of node.eval_results
    ok (record {
      agent_id = node.agent_id;
      parent_id = node.parent_id;
      timestamp = node.created_at;
      mutation_intent = node.mutation_intent;
      mutation_diff = node.mutation_diff;
      evidence = evidence;
      signer_public_key = node.signer_public_key;
      signature = node.signature;
      verification_valid = succeeds (verify_node node);
    })
