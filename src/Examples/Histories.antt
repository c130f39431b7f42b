-- ===== src/Examples/Histories.antt =====
-- The theorems on histories and rollbacks at concrete inputs.
use rig_veh.Prelude.{[], ◌∷◌, some, text, ok, Result, ◌≡◌, refl, List, ◌>>=◌}
use rig_veh.Error.{Error}
use rig_veh.Node.{AgentNode}
use rig_veh.Ledger.View.{push}
use rig_veh.Ledger.InMemory.{InMemoryInner, new, in_memory, collect}
use rig_veh.Ledger.InMemory.Refines.{in_memory_laws, new-IsValid, view}
use rig_veh.Ledger.Store.{IsLineageStore}
use rig_veh.Ledger.InMemory.Refines.{in_memory-IsLineageStore}
use rig_veh.Graph.Operations.{rollback_to, commit_rollback}
use rig_veh.Graph.Step.{IsSound-empty}
use rig_veh.Graph.Target.{target_in, after_rollback, rollback_parts}
use rig_veh.Graph.Rollback.{rollback_to_lem}
use rig_veh.Graph.Restore.{Restores, commit_rollback-Restores}
use rig_veh.Graph.Soundness.{
  Call, cycle, back_to, roll_back, perform_all, IsHistory, perform_all-IsHistory,
}
use rig_veh.Examples.Demo.{demo, agent, scope, demo-IsCrypto}
use rig_veh.Examples.Setup.{running, veh, root, child, grown, grown-IsValid, cycle as cycle_from}

in_memory-IsLineageStore_example : (laws : IsLineageStore in_memory) × (laws.start ≡ new)
in_memory-IsLineageStore_example = in_memory-IsLineageStore ⦃e = demo⦄

abbrev pub history : List Call
history =
    Call.root (veh 7) (agent (text "root") []) scope (text "t0")
    ∷ cycle (veh 7) (cycle_from root [])
    ∷ back_to root.agent_id
    ∷ roll_back (veh 7) child.agent_id (text "t2")
    ∷ []

perform_all-IsHistory_example :
    IsHistory in_memory in_memory_laws
      (in_memory_laws.view new)
      (in_memory_laws.view (perform_all in_memory history new))
unfolding in_memory_laws view collect
perform_all-IsHistory_example =
    perform_all-IsHistory in_memory in_memory_laws demo-IsCrypto history new new-IsValid
      IsSound-empty

rollback_to_lem_example :
    ((rollback_to in_memory root.agent_id grown).0
      ≡ (target_in root.agent_id (in_memory_laws.view grown).nodes >>= λ n. ok tt))
    × (in_memory_laws.view (rollback_to in_memory root.agent_id grown).1
        ≡ after_rollback root.agent_id
            (target_in root.agent_id (in_memory_laws.view grown).nodes)
            (in_memory_laws.view grown))
rollback_to_lem_example = rollback_to_lem in_memory in_memory_laws root.agent_id grown grown-IsValid

abbrev returned : Result Error AgentNode → AgentNode
returned (ok n) = n
returned _ = root

abbrev rolled : Result Error AgentNode × InMemoryInner
rolled = commit_rollback in_memory (veh 7) root.agent_id (text "t2") grown

commit_rollback-Restores_example :
    (target : AgentNode) × (parent : AgentNode) × (rollback_parts root.agent_id
        (in_memory_laws.view grown)
      ≡ ok (target, parent))
    × Restores root.agent_id parent target (returned rolled.0)
    × (in_memory_laws.view rolled.1 ≡ push (returned rolled.0) (in_memory_laws.view grown))
    × ((in_memory_laws.view rolled.1).head ≡ some (returned rolled.0).agent_id)
unfolding running
commit_rollback-Restores_example =
    commit_rollback-Restores in_memory in_memory_laws (veh 7) root.agent_id (text "t2") grown
      rolled.1 (returned rolled.0) grown-IsValid refl
