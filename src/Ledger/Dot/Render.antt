-- ===== src/Ledger/Dot/Render.antt =====
-- What `export_dot` draws of an in-memory ledger (src/ledger.rs).
use rig_veh.Prelude.{
  ◌<◌, ◌^◌, List, [], ◌∷◌, ◌++◌, Option, none, some, Text, text, ok, ◌≡◌, refl, All, >>=-eq-ok,
  ok-injective, ◌==◌,
}
use rig_veh.Host.{Env, Json, IsU32Number}
use rig_veh.Json.{Items, string, get, get_field, as_str}
use rig_veh.Intent.{option_to_value}
use rig_veh.Node.{
  AgentNode, NodeStatus, promoted, rejected, node_to_value, nodes_to_value, status_to_value,
}
use rig_veh.Ledger.InMemory.{InMemoryInner, in_memory, export_dag_json}
use rig_veh.Ledger.InMemory.Refines.{view}
use rig_veh.Ledger.Dot.{
  node_line, parent_line, text_at, number_at, render_value, render_values, export_dot,
}

module _ ⦃e : Env⦄ where
  abbrev pub status_text : NodeStatus → Text
  status_text promoted = text "promoted"
  status_text rejected = text "rejected"

  -- The drawing of a node, and of a ledger.
  abbrev pub draw_node : AgentNode → Text
  draw_node n =
      node_line n.agent_id n.generation (status_text n.status) ++ parent_line n.parent_id n.agent_id

  abbrev pub draw_nodes : List AgentNode → Text
  draw_nodes [] = []
  draw_nodes (n ∷ ns) = draw_node n ++ draw_nodes ns

  abbrev pub draw : List AgentNode → Text
  draw ns = text "digraph lineage {" ++ b'\n' ∷ [] ++ draw_nodes ns ++ text "}" ++ b'\n' ∷ []

  of_status : (s : NodeStatus) → as_str (status_to_value s) ≡ some (status_text s)
  unfolding as_str status_to_value
  of_status promoted = refl
  of_status rejected = refl

  of_parent : (p : Option Text) → as_str {N = e.Number} (option_to_value string p) ≡ p
  unfolding as_str
  of_parent none = refl
  of_parent (some id) = refl

  -- Reading back the identifiers of a node from its JSON.
  read_parts :
      (n : AgentNode) (v : Json)
      → node_to_value n ≡ ok v
      → (text_at v (text "agent_id") ≡ some n.agent_id)
        × (number_at v (text "generation") ≡ e.number_as_u64 (e.number_from n.generation))
        × (text_at v (text "status") ≡ some (status_text n.status))
        × (text_at v (text "parent_id") ≡ n.parent_id)
  unfolding node_to_value text_at number_at get get_field as_str ◌==◌ status_to_value
  read_parts n v h =
      let (manifest, p, k) = >>=-eq-ok (e.manifest_to_value n.artifact.manifest) _ h in
      rw (← ok-injective k) (refl, refl, of_status n.status, of_parent n.parent_id)

  render_value-node :
      (u : IsU32Number) (n : AgentNode) (v : Json)
      → n.generation < 2 ^ 32
      → node_to_value n ≡ ok v
      → render_value v ≡ draw_node n
  unfolding render_value
  render_value-node u n v small h =
      let (a, b, c, d) = read_parts n v h in rw (a, b, c, d, u.read_back n.generation small) refl

  render_values-nodes :
      (u : IsU32Number) (ns : List AgentNode) (vs : Items e.Number)
      → All (λ n. n.generation < 2 ^ 32) ns
      → nodes_to_value ns ≡ ok vs
      → render_values vs ≡ draw_nodes ns
  unfolding nodes_to_value render_values
  render_values-nodes u [] vs small h = rw (← ok-injective h) refl
  render_values-nodes u (n ∷ ns) vs small h =
      let (v, p, k) = >>=-eq-ok (node_to_value n) _ h in
      let (ws, q, l) = >>=-eq-ok (nodes_to_value ns) _ k in
      let first = render_value-node u n v small.0 p in
      let others = render_values-nodes u ns ws small.1 q in
      rw (← ok-injective l) (λ i. first i ++ others i)

  -- The DOT export of an in-memory ledger, of which every manifest serialises and every
  -- generation is a u32 that serde_json reads back, has one line for each node with its
  -- identifier, generation and status, in the order of the ledger, each followed by the edge
  -- from its parent if it has one.
  pub export_dot-draw :
      (u : IsU32Number) (s : InMemoryInner) (vs : Items e.Number)
      → All (λ n. n.generation < 2 ^ 32) (view s).nodes
      → nodes_to_value (view s).nodes ≡ ok vs
      → export_dot in_memory s ≡ ok (draw (view s).nodes)
  unfolding export_dot export_dag_json view get get_field ◌==◌
  export_dot-draw u s vs small h = rw (h, render_values-nodes u (view s).nodes vs small h) refl
