-- ===== src/Examples/Cycles.antt =====
-- The theorems on cycles at concrete inputs.
use rig_veh.Prelude.{false, [], ◌∷◌, text, ok, Result, ◌≡◌, refl, Text}
use rig_veh.Ledger.InMemory.{in_memory}
use rig_veh.Ledger.InMemory.Refines.{in_memory_laws}
use rig_veh.Error.{Error}
use rig_veh.Json.{null}
use rig_veh.Evaluator.{EvalResult}
use rig_veh.Policy.{require_approval}
use rig_veh.Graph.Runner.{CycleInputs, CycleOutcome, awaiting_approval, PendingApproval}
use rig_veh.Graph.Operations.{
  run_cycle, pending, promoted_inputs, resume_with_approval, sign_and_append,
}
use rig_veh.Graph.Approval.{resume-run_cycle}
use rig_veh.Graph.Cycle.{Measured, verdict, Cycles, run_cycle-Cycles}
use rig_veh.Graph.Score.{run_cycle-improves}
use rig_veh.Graph.Governance.{IsGoverned, run_cycle-IsGoverned}
use rig_veh.Examples.Demo.{demo}
use rig_veh.Examples.Setup.{
  running, veh, cycle, root, rooted, rooted-IsValid, child, grown, grown-IsValid,
}

run_cycle-Cycles_example :
    Cycles
      (veh 9)
      (cycle child [])
      (in_memory_laws.view grown)
      (run_cycle in_memory (veh 9) (cycle child []) grown).0
      (in_memory_laws.view (run_cycle in_memory (veh 9) (cycle child []) grown).1)
run_cycle-Cycles_example =
    run_cycle-Cycles in_memory in_memory_laws (veh 9) (cycle child []) grown grown-IsValid

run_cycle-improves_example : demo.f64_le 9 7 ≡ false
unfolding running
run_cycle-improves_example =
    run_cycle-improves in_memory in_memory_laws (veh 9) (cycle child []) grown _ _ _ 7 grown-IsValid
      refl refl refl

run_cycle-IsGoverned_example : IsGoverned root child
unfolding running
run_cycle-IsGoverned_example =
    run_cycle-IsGoverned in_memory in_memory_laws (veh 7) (cycle root []) rooted grown child _
      rooted-IsValid refl refl

abbrev seven : EvalResult
seven = record { score = 7; details = null }

-- A tool outside the scope.
abbrev widening : CycleInputs
widening = cycle root (text "shell" ∷ [])

abbrev pending_of : Result Error CycleOutcome → PendingApproval
pending_of (ok (awaiting_approval p)) = p
pending_of _ = pending widening [] (record { score = 0; details = null }) []

abbrev paused : PendingApproval
paused = pending_of (run_cycle in_memory (veh 7) widening rooted).0

resume-run_cycle_example :
    (d : Text) × (ev : EvalResult) × Measured (veh 7) widening d ev
    × (verdict (veh 7) widening ≡ require_approval paused.decision_reason)
    × (in_memory_laws.view rooted ≡ in_memory_laws.view rooted)
    × (resume_with_approval in_memory paused false grown
        ≡ sign_and_append in_memory (promoted_inputs widening d ev) false grown)
unfolding running
resume-run_cycle_example =
    resume-run_cycle in_memory in_memory_laws (veh 7) widening rooted rooted grown paused false
      rooted-IsValid refl
