-- ===== src/Ledger/View.antt =====
-- The abstract ledger: the nodes in the order in which they were appended, and the head.
use rig_veh.Prelude.{
  Bool, List, [], ◌∷◌, ◌++◌, Option, some, ◌==◌, any, Result, ok, err, if◌then◌else◌,
}
use rig_veh.Host.{Env}
use rig_veh.Error.{Error}
use rig_veh.Node.{AgentId, AgentNode, is_promoted}

module _ ⦃e : Env⦄ where
  pub record Lineage : Type 0 where
    pub nodes : List AgentNode
    pub head : Option AgentId

  -- Some node has this identifier.
  abbrev pub has : AgentId → List AgentNode → Bool
  has id = any (λ n. n.agent_id == id)

  -- One more node; a promoted one becomes the head.
  abbrev pub push : AgentNode → Lineage → Lineage
  push n l = record {
    nodes = l.nodes ++ n ∷ [];
    head = if is_promoted n.status then some n.agent_id else l.head;
  }

  -- The lineage after an `append` with this result.
  abbrev pub after_append : Result Error (Unit {0}) → AgentNode → Lineage → Lineage
  after_append (ok _) n l = push n l
  after_append (err _) n l = l
