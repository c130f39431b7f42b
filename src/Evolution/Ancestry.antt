-- ===== src/Evolution/Ancestry.antt =====
-- A generation takes its parent from the ledger, so it keeps the lineage a forest
-- (`EvolutionDriver::run_generation` of src/evolution.rs).
use rig_veh.Prelude.{[], some, ok, Result, ◌≡◌, ◌∙◌, sym, ==_iff, ◌==◌, find_passes, subst}
use rig_veh.Error.{Error}
use rig_veh.Host.{Env, IsCrypto}
use rig_veh.Node.{AgentId, AgentNode}
use rig_veh.Ledger.Store.{LineageStore, IsLineageStore}
use rig_veh.Graph.Runner.{CycleOutcome}
use rig_veh.Graph.Cycle.{run_cycle-Cycles}
use rig_veh.Graph.Step.{IsSound}
use rig_veh.Graph.Target.{ok_or-eq_ok}
use rig_veh.Graph.Forest.{lookup, Planted, IsForest, Planted-IsForest}
use rig_veh.Graph.Ancestry.{Cycles-Planted}
use rig_veh.Evolution.{Sandbox, Request, cycle_inputs, EvolutionDriver, run_generation}
use rig_veh.Evolution.Generation.{Generation, unprepared, refused, ran, run_generation-Generation}
use rig_veh.Evolution.Descent.{prepare-eq_ok, run_generation-IsSound}

module _ ⦃e : Env⦄ (store : LineageStore) (laws : IsLineageStore store) (sandbox : Sandbox)
    (driver : EvolutionDriver store sandbox) (r : Request) where
  open store use {State, get}
  open sandbox use {Box}
  open laws use {IsValid, view, get_lem}

  -- What a store returns stands in the lineage under its own identifier.
  get-lookup :
      (id : AgentId) (s : State) (n : AgentNode)
      → IsValid s
      → get id s ≡ ok n
      → lookup n.agent_id (view s).nodes ≡ some n
  get-lookup id s n v h =
      let found = ok_or-eq_ok (Error.not_found id) _ n (sym (get_lem id s v) ∙ h) in
      let named = (==_iff _ _).0 (find_passes (λ k. k.agent_id == id) (view s).nodes n found) in
      subst (λ i. lookup i (view s).nodes ≡ some n) (sym named) found

  Generation-Planted :
      {s : State} {b : Box} {o : Result Error CycleOutcome} {s' : State} {b' : Box}
      → IsValid s
      → Planted [] (view s).nodes
      → Generation store sandbox driver r s b o s' b'
      → Planted [] (view s').nodes
  Generation-Planted v h (unprepared x p) = h
  Generation-Planted v h (refused parent candidate x p q) = h
  Generation-Planted {s} v h (ran parent candidate p q) =
      let (id, chosen, got, made) =
        prepare-eq_ok store laws sandbox driver r s parent candidate p in
      let c = cycle_inputs parent candidate r in
      Cycles-Planted driver.veh c (view s) _ _ (get-lookup id s parent v got)
        (run_cycle-Cycles store laws driver.veh c s v) h

  -- With what the cryptography promises, a generation takes a valid state whose lineage is sound
  -- and a forest, in which generations count the steps to a node without a parent, modulo 2 ^ 32,
  -- to another such state: whatever the selector, the mutator, the evaluator and the sandbox do.
  pub run_generation-IsForest :
      (c : IsCrypto) (s : State) (b : Box)
      → IsValid s
      → IsSound (view s)
      → IsForest (view s)
      → IsValid (run_generation store sandbox driver r (s, b)).1
        × IsSound (view (run_generation store sandbox driver r (s, b)).1)
        × IsForest (view (run_generation store sandbox driver r (s, b)).1)
  run_generation-IsForest c s b v sound h =
      let kept = run_generation-IsSound store laws sandbox driver r c s b v sound in
      let planted =
        Generation-Planted v h.planted (run_generation-Generation store sandbox driver r s b) in
      (
        kept.0,
        kept.1,
        Planted-IsForest (view (run_generation store sandbox driver r (s, b)).1) planted,
      )
