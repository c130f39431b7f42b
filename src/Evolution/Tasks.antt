-- ===== src/Evolution/Tasks.antt =====
-- A generation (src/evolution.rs) as a task that stops at every call of the store: the selector
-- reads the nodes, the driver gets the parent, and the cycle appends its node. What the sandbox
-- answers meanwhile is given. Generations take turns with each other and with the runner's calls.
pub mod Start
pub mod Alone
pub mod Concurrent
use rig_veh.Prelude.{List, Result, ok, ◌>>=◌}
use rig_veh.Error.{Error, Outcome}
use rig_veh.Host.{Env}
use rig_veh.Artifact.{AgentArtifact}
use rig_veh.Node.{AgentId, AgentNode}
use rig_veh.Graph.Runner.{Veh}
use rig_veh.Graph.Soundness.{Call}
use rig_veh.Graph.Tasks.{
  Answer, Task, finished, gets, heads, lists, appends, sets_head, try_with, cycle_task, task_of,
}
use rig_veh.Evolution.{Mutator, Request, cycle_inputs}

module _ ⦃e : Env⦄ where
  -- A driver with a selector that chooses among the nodes of the store, the arguments of a
  -- generation, and what the sandbox answers.
  pub record Run : Type 0 where
    pub veh : Veh
    pub choose : List AgentNode → Outcome AgentId
    pub mutator : Mutator
    pub request : Request
    pub enforced : AgentArtifact → Result Error (Unit {0})
    pub torn_down : AgentArtifact → Result Error (Unit {0})

  -- A task that makes this of its answer.
  unfoldable pub finish_with : (Outcome Answer → Outcome Answer) → Task → Task
  finish_with f (finished r) = finished (f r)
  finish_with f (gets id k) = gets id λ r. finish_with f (k r)
  finish_with f (heads k) = heads λ r. finish_with f (k r)
  finish_with f (lists k) = lists λ r. finish_with f (k r)
  finish_with f (appends n k) = appends n λ r. finish_with f (k r)
  finish_with f (sets_head id k) = sets_head id λ r. finish_with f (k r)

  -- `outcome?`, then `teardown?`
  abbrev pub settle_answer : Result Error (Unit {0}) → Outcome Answer → Outcome Answer
  settle_answer down outcome = do result ← outcome; down >>= λ u. ok result

  -- What follows once the sandbox has answered.
  unfoldable pub sandboxed_task : Run → AgentNode → AgentArtifact → Task
  unfolding finish_with cycle_task
  sandboxed_task run parent candidate =
      finish_with (settle_answer (run.torn_down candidate))
        (cycle_task run.veh (cycle_inputs parent candidate run.request))

  unfoldable pub propose_task : Run → AgentNode → Task
  unfolding sandboxed_task
  propose_task run parent =
      try_with (run.mutator.propose parent run.request.intent run.request.context)
        λ candidate. try_with (run.enforced candidate) λ u. sandboxed_task run parent candidate

  -- `EvolutionDriver::run_generation`
  unfoldable pub generation_task : Run → Task
  unfolding propose_task
  generation_task run = lists λ nodes.
      try_with (nodes >>= run.choose)
        λ parent_id. gets parent_id λ found. try_with found λ parent. propose_task run parent

  -- A call of the runner, or a generation.
  pub data Job : Type 0 where
    call : Call → Job
    generation : Run → Job

  unfoldable pub job_task : Job → Task
  unfolding task_of generation_task
  job_task (call c) = task_of c
  job_task (generation run) = generation_task run
