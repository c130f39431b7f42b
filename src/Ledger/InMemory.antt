-- ===== src/Ledger/InMemory.antt =====
-- `InMemoryLineage` of src/ledger.rs. The state is what the lock guards.
mod Collect
pub mod Refines
use rig_veh.Prelude.{
  Bool, true, false, List, [], ◌∷◌, ◌++◌, Option, none, some, Text, text, Result, ok, err, ok_or,
  if◌then◌else◌, not, map_err, ◌>>=◌,
}
use rig_veh.Prelude.HashMap
use rig_veh.Prelude.HashMap.{HashMap}
use rig_veh.Prelude.Exec.{Exec}
use rig_veh.Error.{Error, Outcome, Fault, Attempt}
use rig_veh.Error
use rig_veh.Host.{Env, Json}
use rig_veh.Node.{AgentId, AgentNode, is_promoted, nodes_to_value}
use rig_veh.Json.{string, array, object, end, field}
use rig_veh.Intent.{option_to_value}
use rig_veh.Ledger.Store.{LineageStore}

-- One step of `filter_map`.
abbrev pub prepend {ℓ} : {A : Type ℓ} → Option A → List A → List A
prepend none xs = xs
prepend (some x) xs = x ∷ xs

module _ ⦃e : Env⦄ where
  pub record InMemoryInner : Type 0 where
    pub nodes : HashMap AgentNode
    pub insertion_order : List AgentId
    pub head : Option AgentId

  -- `InMemoryLineage::new`
  abbrev pub new : InMemoryInner
  new = record { nodes = []; insertion_order = []; head = none }

  unfoldable pub append : AgentNode → Exec InMemoryInner Error (Unit {0})
  append node guard =
      if HashMap.contains_key guard.nodes node.agent_id
      then (err (Error.ledger (text "duplicate agent_id " ++ node.agent_id)), guard)
      else (
        ok tt,
        record {
          nodes = HashMap.insert guard.nodes node.agent_id node;
          insertion_order = guard.insertion_order ++ node.agent_id ∷ [];
          head = if is_promoted node.status then some node.agent_id else guard.head;
        },
      )

  unfoldable pub get : AgentId → InMemoryInner → Outcome AgentNode
  get id guard = ok_or (Error.not_found id) (HashMap.get guard.nodes id)

  unfoldable pub head : InMemoryInner → Outcome (Option AgentId)
  head guard = ok guard.head

  unfoldable pub set_head : AgentId → Exec InMemoryInner Error (Unit {0})
  set_head id guard =
      if not (HashMap.contains_key guard.nodes id)
      then (err (Error.not_found id), guard)
      else (ok tt, record guard { head = some id })

  -- `insertion_order.iter().filter_map(|id| nodes.get(id))`
  unfoldable pub collect : HashMap AgentNode → List AgentId → List AgentNode
  collect m [] = []
  collect m (id ∷ ids) = prepend (HashMap.get m id) (collect m ids)

  unfoldable pub nodes : InMemoryInner → Outcome (List AgentNode)
  unfolding collect
  nodes guard = ok (collect guard.nodes guard.insertion_order)

  -- `json!` unwraps, and so panics where a manifest does not serialise.
  unfoldable pub export_dag_json : InMemoryInner → Attempt Json
  unfolding collect nodes_to_value
  export_dag_json guard = do
    nodes ← map_err Fault.panicked (nodes_to_value (collect guard.nodes guard.insertion_order))
    ok (
        object (
          field (text "head") (option_to_value string guard.head)
            (field (text "nodes") (array nodes) end)))

  -- `impl LineageStore for InMemoryLineage`
  abbrev pub in_memory : LineageStore
  in_memory = record {
    State = InMemoryInner;
    append = append;
    get = get;
    head = head;
    set_head = set_head;
    export_dag_json = export_dag_json;
    nodes = nodes;
  }
