-- ===== src/Identity.antt =====
-- src/identity.rs: the signing payload, the identifier, signing and verification.
pub mod RoundTrip
pub mod Binding
pub mod Content
pub mod Payload
pub mod Coverage
use rig_veh.Prelude.{
  ℕ, ◌++◌, Option, Text, Bytes, text, Bool, not, ok, err, map_err, ◌>>=◌, if◌then◌else◌, eqb,
  length, ◌==◌,
}
use rig_veh.Error.{Outcome}
use rig_veh.Error
use rig_veh.Host.{Env, Json}
use rig_veh.Json.{Fields, bool, number, string, array, object, end, insert_field, texts}
use rig_veh.Intent.{MutationIntent, AllowedScope, option_to_value, intent_to_value, scope_to_value}
use rig_veh.Evaluator.{EvalStage, stage_to_value}
use rig_veh.Artifact.{AgentArtifact, canonical_json, capability_sbom}
use rig_veh.Node.{AgentId, AgentNode, NodeStatus, status_to_value}

module _ ⦃e : Env⦄ where
  pub record CommitInputs : Type 0 where
    pub parent_id : Option AgentId
    pub generation : ℕ
    pub created_at : Text
    pub mutation_intent : MutationIntent
    pub mutation_diff : Text
    pub allowed_scope : AllowedScope
    pub eval_results : Option Json
    pub artifact : AgentArtifact
    pub status : NodeStatus
    pub parent_agent_success : Bool
    pub valid_parent : Bool
    pub eval_stage : Option EvalStage

  -- The map that `signing_payload` builds; `manifest` is the serialised manifest.
  unfoldable pub payload_fields : CommitInputs → Json → Fields e.Number
  unfolding insert_field intent_to_value scope_to_value texts stage_to_value status_to_value
      capability_sbom
  payload_fields inputs manifest =
      let m = insert_field end (text "parent_id") (option_to_value string inputs.parent_id) in
      let m = insert_field m (text "generation") (number (e.number_from inputs.generation)) in
      let m = insert_field m (text "created_at") (string inputs.created_at) in
      let m = insert_field m (text "mutation_intent") (intent_to_value inputs.mutation_intent) in
      let m = insert_field m (text "mutation_diff") (string inputs.mutation_diff) in
      let m = insert_field m (text "allowed_scope") (scope_to_value inputs.allowed_scope) in
      let m = insert_field m (text "eval_results") (option_to_value (λ v. v) inputs.eval_results) in
      let m =
        insert_field m (text "capability_sbom") (array (texts (capability_sbom inputs.artifact))) in
      let m = insert_field m (text "manifest") manifest in
      let m = insert_field m (text "status") (status_to_value inputs.status) in
      let m = insert_field m (text "parent_agent_success") (bool inputs.parent_agent_success) in
      let m = insert_field m (text "valid_parent") (bool inputs.valid_parent) in
      insert_field m (text "eval_stage") (option_to_value stage_to_value inputs.eval_stage)

  unfoldable pub signing_payload : CommitInputs → Outcome Bytes
  signing_payload inputs = do
    manifest ← map_err Error.json (e.manifest_to_value inputs.artifact.manifest)
    canonical_json (object (payload_fields inputs manifest))

  unfoldable pub compute_agent_id : Bytes → Bytes → AgentId
  compute_agent_id payload signature = e.hex_encode (e.sha256 (payload ++ signature))

  -- The node that `sign_node` seals over this payload.
  unfoldable pub seal : CommitInputs → e.SigningKey → Bytes → AgentNode
  seal inputs key payload =
      let signature = e.sign key payload in
      record {
        agent_id = compute_agent_id payload signature;
        parent_id = inputs.parent_id;
        generation = inputs.generation;
        created_at = inputs.created_at;
        mutation_intent = inputs.mutation_intent;
        capability_sbom = capability_sbom inputs.artifact;
        eval_results = inputs.eval_results;
        mutation_diff = inputs.mutation_diff;
        allowed_scope = inputs.allowed_scope;
        artifact = inputs.artifact;
        signer_public_key = e.hex_encode (e.key_to_bytes (e.verifying_key key));
        signature = e.hex_encode signature;
        status = inputs.status;
        parent_agent_success = inputs.parent_agent_success;
        valid_parent = inputs.valid_parent;
        eval_stage = inputs.eval_stage;
      }

  unfoldable pub sign_node : CommitInputs → e.SigningKey → Outcome AgentNode
  sign_node inputs key = do payload ← signing_payload inputs; ok (seal inputs key payload)

  -- The inputs that `verify_node` rebuilds from a stored node.
  unfoldable pub inputs_of : AgentNode → CommitInputs
  inputs_of node = record {
    parent_id = node.parent_id;
    generation = node.generation;
    created_at = node.created_at;
    mutation_intent = node.mutation_intent;
    mutation_diff = node.mutation_diff;
    allowed_scope = node.allowed_scope;
    eval_results = node.eval_results;
    artifact = node.artifact;
    status = node.status;
    parent_agent_success = node.parent_agent_success;
    valid_parent = node.valid_parent;
    eval_stage = node.eval_stage;
  }

  -- `hex::decode` and the conversion to an array of `n` bytes.
  unfoldable pub decode_array : (Text → Error.Error) → Text → ℕ → Text → Outcome Bytes
  decode_array failed wrong_length n s = do
    bytes ← map_err (λ why. failed (text "hex decode: " ++ why)) (e.hex_decode s)
    if eqb (length bytes) n then ok bytes else err (failed wrong_length)

  unfoldable pub verify_node : AgentNode → Outcome (Unit {0})
  unfolding inputs_of
  verify_node node = do
    payload ← signing_payload (inputs_of node)
    signature ←
        decode_array Error.signature_invalid (text "wrong signature length") 64 node.signature
    let expected_id = compute_agent_id payload signature
    if not (expected_id == node.agent_id)
        then err (Error.hash_mismatch node.agent_id expected_id)
        else do
          public ←
              decode_array Error.invalid_key (text "wrong key length") 32 node.signer_public_key
          verifying ← map_err Error.invalid_key (e.key_from_bytes public)
          map_err Error.signature_invalid (e.verify verifying payload signature)
