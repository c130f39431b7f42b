-- ===== src/Examples/Driving.antt =====
-- The theorems on the evolution driver at concrete inputs.
use rig_veh.Prelude.{ℕ, ◌+◌, ◌-◌, [], text, ok, refl}
use rig_veh.Json.{null}
use rig_veh.Evaluator.{EvalResult}
use rig_veh.Intent.{new_intent}
use rig_veh.Ledger.InMemory.{in_memory, nodes}
use rig_veh.Ledger.InMemory.Refines.{in_memory_laws}
use rig_veh.Selector.{latest, over_nodes}
use rig_veh.Selector.Chooses.{latest-Chooses}
use rig_veh.Evolution.{
  EvolutionDriver, Request, empty_context, static_mutator, Sandbox, run_generation, prepare,
}
use rig_veh.Evolution.Endings.{Ends, run_generation-Ends}
use rig_veh.Evolution.Descent.{Descends, run_generation-Descends}
use rig_veh.Examples.Demo.{demo, agent, scope}
use rig_veh.Examples.Setup.{running, grown, grown-IsValid, veh, promoted_node}
use rig_veh.Examples.Selection.{grown-IsSound}

-- A sandbox that counts what is open.
abbrev pub counting : Sandbox
counting = record {
  Box = ℕ;
  enforce = λ artifact scope box. (ok tt, box + 1);
  teardown = λ box. (ok tt, box - 1);
}

abbrev pub driver : EvolutionDriver in_memory counting
driver = record {
  veh = veh 9;
  selector = over_nodes in_memory latest;
  mutator = static_mutator (agent (text "grandchild") []);
}

abbrev pub request : Request
request = record {
  intent = new_intent (text "improve");
  allowed_scope = scope;
  context = empty_context;
  created_at = text "t3";
}

run_generation-Ends_example :
    Ends in_memory counting driver request grown 0
      (run_generation in_memory counting driver request (grown, 0)).0
      (run_generation in_memory counting driver request (grown, 0)).1
      (run_generation in_memory counting driver request (grown, 0)).2
run_generation-Ends_example = run_generation-Ends in_memory counting driver request grown 0

abbrev nine : EvalResult
nine = record { score = 9; details = null }

run_generation-Descends_example :
    Descends in_memory in_memory_laws counting driver request grown 0
      (promoted_node (run_generation in_memory counting driver request (grown, 0)).0)
      (run_generation in_memory counting driver request (grown, 0)).1
      (run_generation in_memory counting driver request (grown, 0)).2
unfolding running run_generation prepare over_nodes nodes latest static_mutator
run_generation-Descends_example =
    run_generation-Descends in_memory in_memory_laws counting driver request latest latest-Chooses
      refl grown 0 _ nine grown-IsValid grown-IsSound refl
