-- ===== src/Examples/Forests.antt =====
-- The theorems on the shape of the lineage at concrete inputs.
use rig_veh.Prelude.{[], ◌∷◌, some, text, All, refl, arith}
use rig_veh.Ledger.InMemory.{new, in_memory, collect}
use rig_veh.Ledger.InMemory.Refines.{in_memory_laws, new-IsValid, view}
use rig_veh.Graph.Forest.{IsForest, Planted-IsForest}
use rig_veh.Graph.Soundness.{perform, perform_all}
use rig_veh.Graph.Step.{IsSound}
use rig_veh.Graph.Ancestry.{AllNamed, perform_all-IsForest}
use rig_veh.Graph.Bounds.{IsCounted, perform_all-IsCounted}
use rig_veh.Examples.Selection.{grown-IsSound}
use rig_veh.Evolution.{run_generation}
use rig_veh.Evolution.Ancestry.{run_generation-IsForest}
use rig_veh.Selector.Weighted.{Lands, weighted_choice-Lands}
use rig_veh.Selector.{weighted_choice}
use rig_veh.Examples.Demo.{demo, demo-IsCrypto}
use rig_veh.Examples.Setup.{running, grown, grown-IsValid, veh}
use rig_veh.Examples.Setup
use rig_veh.Examples.Histories.{history}
use rig_veh.Examples.Driving.{driver, counting, request}

new-IsForest : IsForest (view new)
unfolding view collect
new-IsForest = Planted-IsForest _ tt

history_named : AllNamed in_memory in_memory_laws history new
unfolding running perform in_memory_laws view
history_named = (tt, (refl, (tt, (tt, tt))))

perform_all-IsForest_example : IsForest (in_memory_laws.view (perform_all in_memory history new))
unfolding in_memory_laws view
perform_all-IsForest_example =
    perform_all-IsForest in_memory in_memory_laws history new new-IsValid history_named new-IsForest

perform_all-IsCounted_example :
    All
      (IsCounted (in_memory_laws.view (perform_all in_memory history new)).nodes)
      (in_memory_laws.view (perform_all in_memory history new)).nodes
unfolding in_memory_laws view perform_all perform running
perform_all-IsCounted_example =
    perform_all-IsCounted in_memory in_memory_laws history new new-IsValid history_named
      new-IsForest (omega arith)

pub grown-IsForest : IsForest (view grown)
unfolding running view
grown-IsForest = Planted-IsForest (view grown) (refl, ((Setup.root, refl, refl), tt))

run_generation-IsForest_example :
    in_memory_laws.IsValid (run_generation in_memory counting driver request (grown, 0)).1
    × IsSound (in_memory_laws.view (run_generation in_memory counting driver request (grown, 0)).1)
    × IsForest (in_memory_laws.view (run_generation in_memory counting driver request (grown, 0)).1)
unfolding in_memory_laws view
run_generation-IsForest_example =
    run_generation-IsForest in_memory in_memory_laws counting driver request demo-IsCrypto grown 0
      grown-IsValid grown-IsSound grown-IsForest

weighted_choice-Lands_example :
    Lands
      (some 5)
      0
      ((3, text "a") ∷ (4, text "b") ∷ [])
      (weighted_choice ((3, text "a") ∷ (4, text "b") ∷ []) (some 5) 0)
weighted_choice-Lands_example =
    weighted_choice-Lands ((3, text "a") ∷ (4, text "b") ∷ []) (some 5) 0
