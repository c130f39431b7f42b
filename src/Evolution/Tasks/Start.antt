-- ===== src/Evolution/Tasks/Start.antt =====
-- Every job is a safe task, if the inputs that it may commit are permitted (src/evolution.rs).
use rig_veh.Prelude.{List, [], ◌∷◌, map, All, ◌≡◌, ok, ◌>>=◌}
use rig_veh.Error.{Outcome}
use rig_veh.Host.{Env}
use rig_veh.Artifact.{AgentArtifact}
use rig_veh.Node.{AgentId, AgentNode}
use rig_veh.Identity.{CommitInputs}
use rig_veh.Ledger.View.{Lineage}
use rig_veh.Graph.Tasks.{Answer, Task, finished, gets, heads, lists, appends, sets_head}
use rig_veh.Graph.Tasks.Safe.{held, Safe}
use rig_veh.Graph.Tasks.Start.{try_with-Safe, cycle_task-Safe, Permits, PermitsCycle, task_of-Safe}
use rig_veh.Evolution.{cycle_inputs}
use rig_veh.Evolution.Tasks.{
  Run, finish_with, sandboxed_task, propose_task, generation_task, Job, call, generation, job_task,
  settle_answer,
}

module _ ⦃e : Env⦄ (Permitted : Lineage → CommitInputs → Type 0) where
  finish_with-Safe :
      (f : Outcome Answer → Outcome Answer) (t : Task) (l : Lineage)
      → Safe Permitted l t
      → Safe Permitted l (finish_with f t)
  unfolding Safe finish_with
  finish_with-Safe f (finished r) l h = tt
  finish_with-Safe f (gets id k) l h = λ m x. finish_with-Safe f (k (held id m)) m (h m x)
  finish_with-Safe f (heads k) l h = λ m x. finish_with-Safe f (k (ok m.head)) m (h m x)
  finish_with-Safe f (lists k) l h = λ m x. finish_with-Safe f (k (ok m.nodes)) m (h m x)
  finish_with-Safe f (appends n k) l h = (h.0, λ m r x. finish_with-Safe f (k r) m (h.1 m r x))
  finish_with-Safe f (sets_head id k) l h = (h.0, λ m r x. finish_with-Safe f (k r) m (h.1 m r x))

  -- The commits of a generation are permitted wherever it finds its parent.
  abbrev pub PermitsRun : Run → Type 0
  PermitsRun run =
      (l : Lineage) (id : AgentId) (parent : AgentNode) (candidate : AgentArtifact)
      → held id l ≡ ok parent
      → PermitsCycle Permitted (cycle_inputs parent candidate run.request) l

  abbrev pub PermitsJob : Lineage → Job → Type 0
  PermitsJob l (call c) = Permits Permitted l c
  PermitsJob l (generation run) = PermitsRun run

  propose_task-Safe :
      (run : Run) (parent : AgentNode) (l : Lineage)
      → ((candidate : AgentArtifact)
          → PermitsCycle Permitted (cycle_inputs parent candidate run.request) l)
      → Safe Permitted l (propose_task run parent)
  unfolding propose_task sandboxed_task
  propose_task-Safe run parent l h =
      try_with-Safe Permitted l (run.mutator.propose parent run.request.intent run.request.context)
        _
        λ candidate p. try_with-Safe Permitted l (run.enforced candidate) _ λ u q.
          finish_with-Safe (settle_answer (run.torn_down candidate)) _ l (
            cycle_task-Safe Permitted run.veh (cycle_inputs parent candidate run.request) l
              (h candidate))

  generation_task-Safe :
      (run : Run) (l : Lineage) → PermitsRun run → Safe Permitted l (generation_task run)
  unfolding generation_task Safe
  generation_task-Safe run l h = λ m x.
      try_with-Safe Permitted m (ok m.nodes >>= run.choose) _ λ id p. λ m₁ x₁.
        try_with-Safe Permitted m₁ (held id m₁) _
          λ parent q. propose_task-Safe run parent m₁ λ candidate. h m₁ id parent candidate q

  pub jobs-Safe :
      (jobs : List Job) (l : Lineage)
      → All (PermitsJob l) jobs
      → All (Safe Permitted l) (map job_task jobs)
  unfolding job_task
  jobs-Safe [] l h = tt
  jobs-Safe (call c ∷ jobs) l h = (task_of-Safe Permitted c l h.0, jobs-Safe jobs l h.1)
  jobs-Safe (generation run ∷ jobs) l h = (generation_task-Safe run l h.0, jobs-Safe jobs l h.1)
