-- ===== src/Ledger/Dot.antt =====
-- `export_dot` of src/ledger.rs (feature `dot-export`), on the JSON that a store exports.
pub mod Render
use rig_veh.Prelude.{
  ℕ, zero, suc, Bool, ◌&&◌, not, List, [], ◌∷◌, ◌++◌, Option, none, some, Text, text, ok, ok_or,
  ltb, display, ◌>>=◌, if◌then◌else◌,
}
use mathlib.Core.Option.{get_or}
use rig_veh.Host.{Env, Json}
use rig_veh.Json.{Value, Items, nil, cons, array, number, get, as_str}
use rig_veh.Error
use rig_veh.Error.{Fault, Attempt}
use rig_veh.Ledger.Store.{LineageStore}

-- A byte that goes on with a character.
abbrev continuation : ℕ → Bool
continuation c = not (ltb c 128) && ltb c 192

-- `chars().take(n).collect()`
unfoldable pub take_chars : ℕ → Text → Text
take_chars n [] = []
take_chars zero (c ∷ s) = if continuation c then c ∷ take_chars zero s else []
take_chars (suc n) (c ∷ s) =
    let same = take_chars (suc n) s in
    let next = take_chars n s in if continuation c then c ∷ same else c ∷ next

abbrev pub quoted : Text → Text
quoted s = b'"' ∷ s ++ b'"' ∷ []

-- A backslash and an `n`, which Graphviz reads as a line break.
abbrev pub line_break : Text
line_break = 92 ∷ b'n' ∷ []

-- The line of a node: its identifier, and a label.
abbrev pub node_line : Text → ℕ → Text → Text
node_line id generation status =
    text "  "
    ++ quoted id
    ++ text " [label="
    ++ quoted
        (text "gen=" ++ display generation ++ line_break ++ status ++ line_break ++ take_chars 8 id)
    ++ text "];"
    ++ b'\n' ∷ []

abbrev pub edge_line : Text → Text → Text
edge_line parent id =
    text "  " ++ quoted parent ++ text " -> " ++ quoted id ++ text ";" ++ b'\n' ∷ []

-- The edge to a node from its parent, if it has one.
abbrev pub parent_line : Option Text → Text → Text
parent_line none id = []
parent_line (some parent) id = edge_line parent id

module _ ⦃e : Env⦄ where
  -- `get(key).and_then(|v| v.as_str())`
  unfoldable pub text_at : Json → Text → Option Text
  unfolding get as_str
  text_at v key = elim (get v key) [ none ↦ none | some w ↦ as_str w ]

  -- `Value::as_u64` and `Value::as_array`
  abbrev pub as_u64 : Json → Option ℕ
  as_u64 (number n) = e.number_as_u64 n
  as_u64 _ = none

  abbrev pub as_array : Json → Option (Items e.Number)
  as_array (array vs) = some vs
  as_array _ = none

  unfoldable pub number_at : Json → Text → Option ℕ
  unfolding get
  number_at v key = elim (get v key) [ none ↦ none | some w ↦ as_u64 w ]

  -- One turn of the loop.
  unfoldable pub render_value : Json → Text
  unfolding text_at number_at take_chars display
  render_value node =
      let id = get_or (text_at node (text "agent_id")) (text "?") in
      let generation = get_or (number_at node (text "generation")) 0 in
      let status = get_or (text_at node (text "status")) (text "promoted") in
      node_line id generation status ++ parent_line (text_at node (text "parent_id")) id

  unfoldable pub render_values : Items e.Number → Text
  unfolding render_value
  render_values nil = []
  render_values (cons v vs) = render_value v ++ render_values vs

  abbrev pub nodes_of : Json → Option (Items e.Number)
  nodes_of dag = elim (get dag (text "nodes")) [ none ↦ none | some v ↦ as_array v ]

  unfoldable pub export_dot : (store : LineageStore) → store.State → Attempt Text
  unfolding get render_values
  export_dot store s = do
    dag ← store.export_dag_json s
    nodes ← ok_or (Fault.raised (Error.ledger (text "dag export missing nodes"))) (nodes_of dag)
    ok (text "digraph lineage {" ++ b'\n' ∷ [] ++ render_values nodes ++ text "}" ++ b'\n' ∷ [])
