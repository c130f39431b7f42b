-- ===== src/Examples/Turns.antt =====
-- The theorems on calls and generations that take turns, at concrete inputs.
use rig_veh.Prelude.{ℕ, List, [], ◌∷◌, map, text, All, refl}
use rig_veh.Selector.{latest}
use rig_veh.Ledger.InMemory.{in_memory}
use rig_veh.Ledger.InMemory.Refines.{in_memory_laws, view}
use rig_veh.Graph.Soundness.{cycle, roll_back, IsHistory}
use rig_veh.Graph.Forest.{IsForest}
use rig_veh.Graph.Tasks.{interleave}
use rig_veh.Evolution.Tasks.{Job, call, generation, job_task}
use rig_veh.Evolution.Tasks.Alone.{run_of}
use rig_veh.Evolution.Tasks.Concurrent.{NamedJob, interleave-IsHistory, interleave-IsForest}
use rig_veh.Examples.Demo.{demo, demo-IsCrypto}
use rig_veh.Examples.Setup.{running, grown, grown-IsValid, veh}
use rig_veh.Examples.Setup
use rig_veh.Examples.Selection.{grown-IsSound}
use rig_veh.Examples.Driving.{driver, counting, request}
use rig_veh.Examples.Forests.{grown-IsForest}

-- A cycle, a signed rollback and a generation.
abbrev rivals : List Job
rivals =
    call (cycle (veh 9) (Setup.cycle Setup.root []))
    ∷ call (roll_back (veh 9) Setup.root.agent_id (text "t4"))
    ∷ generation (run_of in_memory counting driver request latest 0)
    ∷ []

-- The generation chooses its parent before the cycle appends, and appends after the rollback.
abbrev turns : List ℕ
turns = 2 ∷ 1 ∷ 0 ∷ 2 ∷ 1 ∷ 1 ∷ 1 ∷ 2 ∷ []

interleave-IsHistory_example :
    IsHistory in_memory in_memory_laws
      (in_memory_laws.view grown)
      (in_memory_laws.view (interleave in_memory turns (map job_task rivals) grown).1)
interleave-IsHistory_example =
    interleave-IsHistory in_memory in_memory_laws demo-IsCrypto turns rivals grown grown-IsValid
      grown-IsSound

rivals-NamedJob : All (NamedJob (in_memory_laws.view grown)) rivals
unfolding running in_memory_laws view
rivals-NamedJob = (refl, (tt, (tt, tt)))

interleave-IsForest_example :
    IsForest (in_memory_laws.view (interleave in_memory turns (map job_task rivals) grown).1)
unfolding in_memory_laws view
interleave-IsForest_example =
    interleave-IsForest in_memory in_memory_laws turns rivals grown grown-IsValid rivals-NamedJob
      grown-IsForest
