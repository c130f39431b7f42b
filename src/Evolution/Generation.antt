-- ===== src/Evolution/Generation.antt =====
-- The steps of one generation (`EvolutionDriver::run_generation` of src/evolution.rs).
use rig_veh.Prelude.{Result, Result-cases, ok, err, ◌≡◌, inl, inr}
use rig_veh.Error.{Error}
use rig_veh.Host.{Env}
use rig_veh.Artifact.{AgentArtifact}
use rig_veh.Node.{AgentNode}
use rig_veh.Ledger.Store.{LineageStore}
use rig_veh.Graph.Runner.{CycleOutcome}
use rig_veh.Graph.Operations.{run_cycle}
use rig_veh.Evolution.{
  Sandbox, Request, cycle_inputs, EvolutionDriver, prepare, settle, run_generation,
}

module _ ⦃e : Env⦄ (store : LineageStore) (sandbox : Sandbox)
    (driver : EvolutionDriver store sandbox) (r : Request) where
  open store use {State}
  open sandbox use {Box, enforce, teardown}

  -- What a generation does to the ledger and to the sandbox.
  pub data Generation (s : State) (b : Box) : Result Error CycleOutcome → State → Box → Type 0 where
    -- no parent, or no candidate: nothing is touched
    unprepared : (x : Error) → prepare store sandbox driver r s ≡ err x → Generation s b (err x) s b
    -- the sandbox refuses, and is not torn down
    refused :
        (parent : AgentNode) (candidate : AgentArtifact) (x : Error)
        → prepare store sandbox driver r s ≡ ok (parent, candidate)
        → (enforce candidate r.allowed_scope b).0 ≡ err x
        → Generation s b (err x) s (enforce candidate r.allowed_scope b).1
    -- the cycle runs, and the sandbox is torn down after it, whatever its outcome
    ran :
        (parent : AgentNode) (candidate : AgentArtifact)
        → prepare store sandbox driver r s ≡ ok (parent, candidate)
        → (enforce candidate r.allowed_scope b).0 ≡ ok tt
        → Generation s b
            (settle store sandbox
              (run_cycle store driver.veh (cycle_inputs parent candidate r) s).0
              (teardown (enforce candidate r.allowed_scope b).1).0)
            (run_cycle store driver.veh (cycle_inputs parent candidate r) s).1
            (teardown (enforce candidate r.allowed_scope b).1).1

  -- A generation ends in one of three ways: without a parent or a candidate it touches nothing;
  -- where the sandbox refuses, the ledger is as it was and the sandbox is left as it is; and else
  -- one cycle runs on the candidate and the sandbox is torn down after it, also when the cycle
  -- fails, whose error comes first.
  pub run_generation-Generation :
      (s : State) (b : Box)
      → Generation s b
          (run_generation store sandbox driver r (s, b)).0
          (run_generation store sandbox driver r (s, b)).1
          (run_generation store sandbox driver r (s, b)).2
  unfolding run_generation
  run_generation-Generation s b = elim (Result-cases (prepare store sandbox driver r s)) [
    | inr (x, p) ↦ rw (p, run_generation) (unprepared x p)
    | inl ((parent, candidate), p) ↦ elim (Result-cases (enforce candidate r.allowed_scope b).0) [
      | inr (x, q) ↦ rw (p, q, run_generation) (refused parent candidate x p q)
      | inl (u, q) ↦ rw (p, q, run_generation) (ran parent candidate p q)
    ]
  ]
