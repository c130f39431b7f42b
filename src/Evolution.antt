-- ===== src/Evolution.antt =====
-- src/evolution.rs with the traits it drives: src/mutator.rs and src/sandbox.rs. One generation
-- selects a parent, proposes a candidate, and runs a cycle inside the sandbox.
pub mod Generation
pub mod Endings
pub mod Descent
pub mod Ancestry
pub mod Tasks
use rig_veh.Prelude.{ℕ, Option, none, some, Text, Result, ok, err, ◌>>=◌}
use rig_veh.Prelude.Exec.{Exec, pure}
use rig_veh.Error.{Error, Outcome}
use rig_veh.Json.{null}
use rig_veh.Host.{Env, Json}
use rig_veh.Intent.{MutationIntent, AllowedScope}
use rig_veh.Artifact.{AgentArtifact}
use rig_veh.Node.{AgentNode}
use rig_veh.Ledger.Store.{LineageStore}
use rig_veh.Selector.{ParentSelector}
use rig_veh.Graph.Runner.{Veh, CycleInputs, CycleOutcome}
use rig_veh.Graph.Operations.{run_cycle}

module _ ⦃e : Env⦄ where
  pub record MutationContext : Type 0 where
    pub iterations_left : Option ℕ
    pub metadata : Json

  -- `MutationContext::new`
  abbrev pub empty_context : MutationContext
  empty_context = record { iterations_left = none; metadata = null }

  unfoldable pub with_iterations_left : MutationContext → ℕ → MutationContext
  with_iterations_left context iterations = record context { iterations_left = some iterations }

  unfoldable pub with_metadata : MutationContext → Json → MutationContext
  with_metadata context metadata = record context { metadata = metadata }

  -- The trait `Mutator`, for one call.
  pub record Mutator : Type 0 where
    pub propose : AgentNode → MutationIntent → MutationContext → Outcome AgentArtifact

  unfoldable pub static_mutator : AgentArtifact → Mutator
  static_mutator artifact = record { propose = λ parent intent context. ok artifact }

  -- The trait `Sandbox`; `Box` is what it keeps.
  pub record Sandbox : Type 1 where
    pub Box : Type 0
    pub enforce : AgentArtifact → AllowedScope → Exec Box Error (Unit {0})
    pub teardown : Exec Box Error (Unit {0})

  unfoldable pub noop_sandbox : Sandbox
  noop_sandbox = record { Box = Unit; enforce = λ artifact scope. pure tt; teardown = pure tt }

  -- The arguments of `run_generation`.
  pub record Request : Type 0 where
    pub intent : MutationIntent
    pub allowed_scope : AllowedScope
    pub context : MutationContext
    pub created_at : Text

  abbrev pub cycle_inputs : AgentNode → AgentArtifact → Request → CycleInputs
  cycle_inputs parent candidate r = record {
    parent = parent;
    intent = r.intent;
    candidate = candidate;
    allowed_scope = r.allowed_scope;
    created_at = r.created_at;
  }

module _ ⦃e : Env⦄ (store : LineageStore) (sandbox : Sandbox) where
  open store use {State, get}
  open sandbox use {Box, enforce, teardown}

  pub record EvolutionDriver : Type 0 where
    pub veh : Veh
    pub selector : ParentSelector store
    pub mutator : Mutator

  -- The parent and the candidate, before the sandbox is touched.
  unfoldable pub prepare : EvolutionDriver → Request → State → Outcome (AgentNode × AgentArtifact)
  prepare driver r s = do
    parent_id ← driver.selector.select s
    parent ← get parent_id s
    candidate ← driver.mutator.propose parent r.intent r.context
    ok (parent, candidate)

  -- `outcome?`, then `teardown?`
  abbrev pub settle : Result Error CycleOutcome → Result Error (Unit {0}) → Outcome CycleOutcome
  settle outcome down = do result ← outcome; down >>= λ u. ok result

  -- What follows once the sandbox has answered.
  abbrev pub in_sandbox :
      EvolutionDriver
      → CycleInputs
      → Result Error (Unit {0})
      → State × Box
      → Result Error CycleOutcome × State × Box
  in_sandbox driver c (err x) (s, b) = (err x, s, b)
  in_sandbox driver c (ok u) (s, b) =
      let outcome = run_cycle store driver.veh c s in
      let down = teardown b in (settle outcome.0 down.0, outcome.1, down.1)

  abbrev pub attempt :
      EvolutionDriver
      → Request
      → Outcome (AgentNode × AgentArtifact)
      → State × Box
      → Result Error CycleOutcome × State × Box
  attempt driver r (err x) (s, b) = (err x, s, b)
  attempt driver r (ok (parent, candidate)) (s, b) =
      let entered = enforce candidate r.allowed_scope b in
      in_sandbox driver (cycle_inputs parent candidate r) entered.0 (s, entered.1)

  -- `EvolutionDriver::run_generation`
  unfoldable pub run_generation :
      EvolutionDriver → Request → State × Box → Result Error CycleOutcome × State × Box
  unfolding prepare
  run_generation driver r (s, b) = attempt driver r (prepare driver r s) (s, b)
