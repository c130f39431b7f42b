-- ===== src/Ledger/Default.antt =====
-- The default body of `LineageStore::nodes` in src/ledger.rs, which decodes the JSON export, for
-- stores that do not replace it. `decode` is `serde_json::from_value` of a list of nodes.
use rig_veh.Prelude.{
  List, Text, text, Result, ok, ok_or, map_err, ◌>>=◌, ◌≡◌, refl, ok-injective, ◌==◌,
}
use rig_veh.Error
use rig_veh.Error.{Fault, Attempt}
use rig_veh.Host.{Env, Json}
use rig_veh.Json.{Items, array, get, get_field}
use rig_veh.Node.{AgentNode, nodes_to_value}
use rig_veh.Ledger.Store.{LineageStore}
use rig_veh.Ledger.InMemory.{in_memory, export_dag_json, nodes, InMemoryInner}

module _ ⦃e : Env⦄ (decode : Json → Result Text (List AgentNode)) where
  unfoldable pub default_nodes : (store : LineageStore) → store.State → Attempt (List AgentNode)
  unfolding get
  default_nodes store s = do
    dag ← store.export_dag_json s
    found ←
        ok_or (Fault.raised (Error.ledger (text "dag export missing nodes")))
          (get dag (text "nodes"))
    map_err (λ why. Fault.raised (Error.json why)) (decode found)

  -- On an in-memory ledger whose manifests serialise, the default `nodes` decodes the JSON of the
  -- nodes that the store's own `nodes` returns, in their order.
  pub default_nodes_lem :
      (s : InMemoryInner) (ns : List AgentNode) (vs : Items e.Number)
      → nodes s ≡ ok ns
      → nodes_to_value ns ≡ ok vs
      → default_nodes in_memory s
        ≡ map_err (λ why. Fault.raised (Error.json why)) (decode (array vs))
  unfolding default_nodes export_dag_json nodes get_field ◌==◌
  default_nodes_lem s ns vs p h = rw (ok-injective p, h) refl
