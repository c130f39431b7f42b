-- ===== src/Graph/Score.antt =====
-- The strict-improvement rule FR-5 (src/graph.rs).
use rig_veh.Prelude.{true, false, none, some, ok, ◌≡◌, arith}
use rig_veh.Host.{Env}
use rig_veh.Evaluator.{EvalResult, recorded_score}
use rig_veh.Node.{AgentNode}
use rig_veh.Ledger.Store.{LineageStore, IsLineageStore}
use rig_veh.Graph.Runner.{Veh, CycleInputs, promoted}
use rig_veh.Graph.Operations.{shortfall, run_cycle}
use rig_veh.Graph.Cycle.{Cycles, run_cycle-Cycles}

module _ ⦃e : Env⦄ where
  shortfall-none :
      (p score : e.F64) → shortfall true (some p) score ≡ none → e.f64_le score p ≡ false
  unfolding shortfall
  shortfall-none p score h = ground arith

module _ ⦃e : Env⦄ (store : LineageStore) (laws : IsLineageStore store) where
  open store use {State}
  open laws use {IsValid, view}

  -- From a valid state and under the strict rule, a candidate whose score is at most the
  -- recorded score of its parent is never promoted.
  pub run_cycle-improves :
      (veh : Veh) (c : CycleInputs) (s s' : State) (n : AgentNode) (ev : EvalResult) (p : e.F64)
      → IsValid s
      → veh.require_strict_improvement ≡ true
      → recorded_score c.parent.eval_results ≡ some p
      → run_cycle store veh c s ≡ (ok (promoted n ev), s')
      → e.f64_le ev.score p ≡ false
  run_cycle-improves veh c s s' n ev p v strict score h =
      let k : Cycles veh c (view s) (ok (promoted n ev)) (view s') =
        rw h at (run_cycle-Cycles store laws veh c s v) in
      shortfall-none p ev.score (rw (strict, score) at k.2)
