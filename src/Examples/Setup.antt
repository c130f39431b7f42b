-- ===== src/Examples/Setup.antt =====
-- A ledger in memory with a root and a promoted child, and what it takes to run the operations.
use rig_veh.Prelude.{
  ℕ, true, List, [], some, Text, Bytes, text, ok, err, Result, ◌≡◌, refl, display, ◌==◌, split_once,
}
use rig_veh.Prelude.HashMap.{get, insert, contains_key}
use rig_veh.Prelude.Order.{sort, dedup}
use rig_veh.Error.{Error}
use rig_veh.Json.{texts, insert_field}
use rig_veh.Intent.{new_intent, rollback, intent_to_value, scope_to_value}
use rig_veh.Evaluator.{eval_to_value, recorded_score, stage_to_value}
use rig_veh.Artifact.{canonical_json, canonical_bytes, capability_sbom}
use rig_veh.Node.{AgentNode, next_generation, status_to_value}
use rig_veh.Diff.{manifest_diff}
use rig_veh.Identity.{
  CommitInputs, signing_payload, payload_fields, compute_agent_id, seal, sign_node, inputs_of,
  decode_array, verify_node,
}
use rig_veh.Policy.{evaluate, capability_in_scope}
use rig_veh.Ledger.InMemory.{
  InMemoryInner, new, in_memory, append, collect, get as get_node, head, set_head,
}
use rig_veh.Ledger.InMemory.Refines.{in_memory_laws, new-IsValid}
use rig_veh.Graph.Soundness.{run_cycle-Moves}
use rig_veh.Graph.Runner.{CycleOutcome, promoted, Veh, CycleInputs}
use rig_veh.Graph.Operations.{
  root_inputs, promoted_inputs, rejected_inputs, shortfall, sign_and_append, commit_root,
  commit_promoted, commit_rejected, decide, gate, run_cycle,
}
use rig_veh.Graph.Operations.{commit_rollback, rollback_to, rollback_target_of, rollback_inputs}
use rig_veh.Graph.Refines.{commit_root-Moves}
use rig_veh.Examples.Demo.{demo, agent, scope, scoring}

-- Opening this opens what a run of the operations computes with.
unfoldable pub running : Unit {0}
unfolding commit_root sign_and_append sign_node signing_payload payload_fields canonical_json seal
    append contains_key root_inputs new_intent promoted_inputs rejected_inputs shortfall
    commit_promoted commit_rejected decide gate run_cycle manifest_diff canonical_bytes
    recorded_score evaluate capability_sbom eval_to_value display next_generation compute_agent_id
    intent_to_value scope_to_value texts insert_field stage_to_value status_to_value get insert sort
    dedup capability_in_scope commit_rollback rollback_to rollback_target_of rollback_inputs
    rollback get_node head set_head verify_node inputs_of decode_array ◌==◌ split_once collect
running = tt

abbrev pub payload_of : CommitInputs → Bytes
payload_of inputs = elim (signing_payload inputs) [ ok b ↦ b | err x ↦ [] ]

abbrev pub veh : ℕ → Veh
veh score = record {
  evaluator = scoring score;
  policy = evaluate;
  signing_key = true;
  require_strict_improvement = true;
}

abbrev pub rooted : InMemoryInner
rooted = (commit_root in_memory (veh 7) (agent (text "root") []) scope (text "t0") new).1

pub rooted-IsValid : in_memory_laws.IsValid rooted
rooted-IsValid =
    (commit_root-Moves in_memory in_memory_laws (veh 7) (agent (text "root") []) scope (text "t0")
      new new-IsValid).valid

abbrev pub root : AgentNode
root =
    seal (root_inputs (agent (text "root") []) scope (text "t0")) true
      (payload_of (root_inputs (agent (text "root") []) scope (text "t0")))

abbrev pub cycle : AgentNode → List Text → CycleInputs
cycle parent tools = record {
  parent = parent;
  intent = new_intent (text "improve");
  candidate = agent (text "child") tools;
  allowed_scope = scope;
  created_at = text "t1";
}

root_head : rooted.head ≡ some root.agent_id
unfolding running
root_head = refl

-- The node of a promotion.
abbrev pub promoted_node : Result Error CycleOutcome → AgentNode
promoted_node (ok (promoted n ev)) = n
promoted_node _ = root

abbrev pub first_cycle : Result Error CycleOutcome × InMemoryInner
first_cycle = run_cycle in_memory (veh 7) (cycle root []) rooted

abbrev pub child : AgentNode
child = promoted_node first_cycle.0

abbrev pub grown : InMemoryInner
grown = first_cycle.1

pub grown-IsValid : in_memory_laws.IsValid grown
grown-IsValid =
    (run_cycle-Moves in_memory in_memory_laws (veh 7) (cycle root []) rooted rooted-IsValid).valid
