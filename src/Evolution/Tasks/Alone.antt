-- ===== src/Evolution/Tasks/Alone.antt =====
-- A generation that runs alone does what `run_generation` does (src/evolution.rs).
use rig_veh.Prelude.{List, Result, Result-cases, ok, err, ◌>>=◌, ◌≡◌, refl, ◌∙◌, ap, inl, inr}
use rig_veh.Error.{Error, Outcome}
use rig_veh.Host.{Env}
use rig_veh.Artifact.{AgentArtifact}
use rig_veh.Node.{AgentId, AgentNode}
use rig_veh.Ledger.Store.{LineageStore}
use rig_veh.Selector.{over_nodes}
use rig_veh.Graph.Runner.{CycleOutcome}
use rig_veh.Graph.Operations.{run_cycle}
use rig_veh.Graph.Tasks.{
  Answer, cycled, Task, finished, gets, heads, lists, appends, sets_head, alone, cycle_task,
}
use rig_veh.Graph.Tasks.Alone.{answered, alone-cycle}
use rig_veh.Evolution.{
  Request, Sandbox, EvolutionDriver, cycle_inputs, prepare, settle, in_sandbox, attempt,
  run_generation,
}
use rig_veh.Evolution.Tasks.{
  Run, finish_with, settle_answer, sandboxed_task, propose_task, generation_task,
}

module _ ⦃e : Env⦄ (store : LineageStore) where
  open store use {State, get, append, nodes, set_head, head}

  alone-finish_with :
      (f : Outcome Answer → Outcome Answer) (t : Task) (s : State)
      → alone store (finish_with f t) s ≡ (f (alone store t s).0, (alone store t s).1)
  unfolding alone finish_with
  alone-finish_with f (finished r) s = refl
  alone-finish_with f (gets id k) s = alone-finish_with f (k (get id s)) s
  alone-finish_with f (heads k) s = alone-finish_with f (k (head s)) s
  alone-finish_with f (lists k) s = alone-finish_with f (k (nodes s)) s
  alone-finish_with f (appends n k) s = alone-finish_with f (k (append n s).0) (append n s).1
  alone-finish_with f (sets_head id k) s =
      alone-finish_with f (k (set_head id s).0) (set_head id s).1

module _ ⦃e : Env⦄ (store : LineageStore) (sandbox : Sandbox)
    (driver : EvolutionDriver store sandbox) (r : Request) where
  open store use {State, get, nodes}
  open sandbox use {Box, enforce, teardown}

  -- The generation of a driver whose selector chooses so, with what this sandbox answers.
  abbrev pub run_of : (List AgentNode → Outcome AgentId) → Box → Run
  run_of choose b = record {
    veh = driver.veh;
    choose = choose;
    mutator = driver.mutator;
    request = r;
    enforced = λ a. (enforce a r.allowed_scope b).0;
    torn_down = λ a. (teardown (enforce a r.allowed_scope b).1).0;
  }

  answered-settle :
      (o : Result Error CycleOutcome) (down : Result Error (Unit {0}))
      → settle_answer down (o >>= λ a. ok (cycled a))
        ≡ (settle store sandbox o down >>= λ a. ok (cycled a))
  answered-settle (err x) down = refl
  answered-settle (ok a) (ok u) = refl
  answered-settle (ok a) (err x) = refl

  -- The result and the ledger, without the sandbox.
  abbrev pub outside : Result Error CycleOutcome × State × Box → Outcome Answer × State
  outside (o, s, b) = answered store cycled (o, s)

  alone-sandboxed :
      (choose : List AgentNode → Outcome AgentId) (b : Box) (parent : AgentNode)
      (candidate : AgentArtifact) (s : State)
      → (enforce candidate r.allowed_scope b).0 ≡ ok tt
      → alone store (sandboxed_task (run_of choose b) parent candidate) s
        ≡ outside (
            in_sandbox store sandbox driver
              (cycle_inputs parent candidate r)
              (ok tt)
              (s, (enforce candidate r.allowed_scope b).1))
  unfolding sandboxed_task
  alone-sandboxed choose b parent candidate s p =
      let c = cycle_inputs parent candidate r in
      let down = (teardown (enforce candidate r.allowed_scope b).1).0 in
      let outcome = run_cycle store driver.veh c s in
      alone-finish_with store (settle_answer down) (cycle_task driver.veh c) s
      ∙ ap (λ x. (settle_answer down x.0, x.1)) (alone-cycle store driver.veh c s)
      ∙ ap (λ x. (x, outcome.1)) (answered-settle outcome.0 down)

  alone-propose :
      (choose : List AgentNode → Outcome AgentId) (b : Box) (parent : AgentNode) (s : State)
      (o : Outcome AgentArtifact)
      → driver.mutator.propose parent r.intent r.context ≡ o
      → alone store (propose_task (run_of choose b) parent) s
        ≡ outside
            (attempt store sandbox driver r (o >>= λ candidate. ok (parent, candidate)) (s, b))
  unfolding alone propose_task
  alone-propose choose b parent s (err x) p = rw p refl
  alone-propose choose b parent s (ok candidate) p =
      elim (Result-cases (enforce candidate r.allowed_scope b).0) [
        | inr (x, q) ↦ rw (p, q) refl
        | inl (u, q) ↦ rw (p, q) (alone-sandboxed choose b parent candidate s q)
      ]

  -- What the generation has prepared, by the nodes that the selector chooses from.
  prepare-over_nodes :
      (choose : List AgentNode → Outcome AgentId) (s : State)
      → driver.selector ≡ over_nodes store choose
      → prepare store sandbox driver r s ≡ (do
        parent_id ← nodes s >>= choose
        parent ← get parent_id s
        candidate ← driver.mutator.propose parent r.intent r.context
        ok (parent, candidate))
  unfolding prepare over_nodes
  prepare-over_nodes choose s selects =
      ap
        (λ f. do
          parent_id ← f.select s
          parent ← get parent_id s
          candidate ← driver.mutator.propose parent r.intent r.context
          ok (parent, candidate))
        selects

  -- With a selector that chooses among the nodes of the store, the task of a generation that runs
  -- with no other in between, and to which the sandbox answers as it does, returns what
  -- `run_generation` returns and leaves the ledger that it leaves.
  pub generation_alone :
      (choose : List AgentNode → Outcome AgentId) (s : State) (b : Box)
      → driver.selector ≡ over_nodes store choose
      → alone store (generation_task (run_of choose b)) s
        ≡ outside (run_generation store sandbox driver r (s, b))
  unfolding alone generation_task run_generation
  generation_alone choose s b selects = elim (Result-cases (nodes s >>= choose)) [
    | inr (x, p) ↦ rw (alone, run_generation, prepare-over_nodes choose s selects, p) refl
    | inl (id, p) ↦ elim (Result-cases (get id s)) [
      | inr (x, q) ↦ rw (alone, run_generation, prepare-over_nodes choose s selects, p, q) refl
      | inl (parent, q) ↦
          rw (alone, run_generation, prepare-over_nodes choose s selects, p, q)
            (alone-propose choose b parent s _ refl)
    ]
  ]
