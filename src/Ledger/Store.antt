-- ===== src/Ledger/Store.antt =====
-- The trait `LineageStore` of src/ledger.rs, and the lineage that every store stands for.
use rig_veh.Prelude.{false, List, [], Option, ◌≡◌, ok, err, ok_or, ◌==◌, find, if◌then◌else◌}
use rig_veh.Prelude.Exec.{Exec}
use rig_veh.Error.{Error, Outcome, Attempt}
use rig_veh.Host.{Env, Json}
use rig_veh.Node.{AgentId, AgentNode}
use rig_veh.Ledger.View.{Lineage, has, after_append}

module _ ⦃e : Env⦄ where
  -- The methods of a store over its state. Each takes its lock for its whole body, so it is one
  -- step; those that only read leave the state alone.
  pub record LineageStore : Type 1 where
    pub State : Type 0
    pub append : AgentNode → Exec State Error (Unit {0})
    pub get : AgentId → State → Outcome AgentNode
    pub head : State → Outcome (Option AgentId)
    pub set_head : AgentId → Exec State Error (Unit {0})
    pub export_dag_json : State → Attempt Json
    pub nodes : State → Outcome (List AgentNode)

module _ ⦃e : Env⦄ (store : LineageStore) where
  open store use {State, append, get, head, set_head, nodes}

  -- What the trait asks of an implementation: behind each valid state stands a lineage, and the
  -- methods read and change that. The state in which the store starts is valid, and its lineage is
  -- empty; so every state that the methods reach from it is valid. An `append` may fail for the store's own reasons, and then the
  -- lineage stays as it was.
  pub record IsLineageStore : Type 1 where
    pub IsValid : State → Type 0
    pub view : State → Lineage
    pub start : State
    pub start-IsValid : IsValid start
    pub start_view : view start ≡ record { nodes = []; head = Option.none }
    pub append-IsValid : (n : AgentNode) (s : State) → IsValid s → IsValid (append n s).1
    pub set_head-IsValid : (id : AgentId) (s : State) → IsValid s → IsValid (set_head id s).1
    pub view-append :
        (n : AgentNode) (s : State)
        → IsValid s
        → view (append n s).1 ≡ after_append (append n s).0 n (view s)
    pub append_fresh :
        (n : AgentNode) (s : State)
        → IsValid s
        → (append n s).0 ≡ ok tt
        → has n.agent_id (view s).nodes ≡ false
    pub get_lem :
        (id : AgentId) (s : State)
        → IsValid s
        → get id s ≡ ok_or (Error.not_found id) (find (λ n. n.agent_id == id) (view s).nodes)
    pub head_lem : (s : State) → IsValid s → head s ≡ ok (view s).head
    pub set_head_result :
        (id : AgentId) (s : State)
        → IsValid s
        → (set_head id s).0 ≡ (if has id (view s).nodes then ok tt else err (Error.not_found id))
    pub view-set_head :
        (id : AgentId) (s : State)
        → IsValid s
        → view (set_head id s).1
          ≡ (if has id (view s).nodes then record (view s) { head = Option.some id } else view s)
    pub nodes_lem : (s : State) → IsValid s → nodes s ≡ ok (view s).nodes
