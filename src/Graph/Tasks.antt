-- ===== src/Graph/Tasks.antt =====
-- The operations of `Veh` (src/graph.rs) as tasks that stop at every call of the store, as the
-- async code does at each `.await` on the ledger, and the runs in which several of them take turns.
pub mod Safe
pub mod Start
pub mod Interleaving
pub mod Placed
pub mod Alone
use rig_veh.Prelude.{
  ℕ, zero, suc, List, [], ◌∷◌, Option, none, some, Text, text, ◌++◌, Result, ok, err, ok_or, not,
  if◌then◌else◌,
}
use rig_veh.Error.{Error, Outcome}
use rig_veh.Host.{Env}
use rig_veh.Evaluator.{EvalResult, recorded_score}
use rig_veh.Artifact.{capability_sbom}
use rig_veh.Node.{AgentId, AgentNode, is_promoted}
use rig_veh.Diff.{manifest_diff}
use rig_veh.Identity.{CommitInputs, sign_node, verify_node}
use rig_veh.Policy.{PolicyDecision, approve, deny, require_approval}
use rig_veh.Ledger.Store.{LineageStore}
use rig_veh.Graph.Runner.{Veh, CycleInputs, CycleOutcome, promoted, rejected, awaiting_approval}
use rig_veh.Graph.Operations.{
  root_inputs, promoted_inputs, rejected_inputs, approved_inputs, rollback_inputs, shortfall,
  pending,
}
use rig_veh.Graph.Soundness.{Call, root, cycle, resume, back_to, roll_back}

module _ ⦃e : Env⦄ where
  -- What an operation returns.
  pub data Answer : Type 0 where
    committed : AgentNode → Answer
    cycled : CycleOutcome → Answer
    moved : Answer

  -- A task has finished, or waits for a call of the store and goes on with its result.
  pub data Task : Type 0 where
    finished : Outcome Answer → Task
    gets : AgentId → (Outcome AgentNode → Task) → Task
    heads : (Outcome (Option AgentId) → Task) → Task
    lists : (Outcome (List AgentNode) → Task) → Task
    appends : AgentNode → (Result Error (Unit {0}) → Task) → Task
    sets_head : AgentId → (Result Error (Unit {0}) → Task) → Task

  -- The `?` operator.
  abbrev pub try_with : {A : Type 0} → Outcome A → (A → Task) → Task
  try_with (ok a) k = k a
  try_with (err x) k = finished (err x)

  -- Sign, append, and return the node.
  unfoldable pub commit_task : CommitInputs → e.SigningKey → (AgentNode → Answer) → Task
  commit_task inputs key answer =
      try_with (sign_node inputs key) λ n. appends n λ r. try_with r λ u. finished (ok (answer n))

  unfoldable pub decide_task : Veh → CycleInputs → Text → EvalResult → PolicyDecision → Task
  unfolding commit_task
  decide_task veh c d ev approve =
      commit_task (promoted_inputs c d ev) veh.signing_key λ n. cycled (promoted n ev)
  decide_task veh c d ev (deny why) =
      commit_task (rejected_inputs c d ev) veh.signing_key λ n. cycled (rejected n why)
  decide_task veh c d ev (require_approval why) =
      finished (ok (cycled (awaiting_approval (pending c d ev why))))

  unfoldable pub gate_task : Veh → CycleInputs → Text → EvalResult → Option Text → Task
  unfolding decide_task commit_task
  gate_task veh c d ev (some why) =
      commit_task (rejected_inputs c d ev) veh.signing_key λ n. cycled (rejected n why)
  gate_task veh c d ev none =
      decide_task veh c d ev (veh.policy c.parent c.intent (capability_sbom c.candidate))

  unfoldable pub cycle_task : Veh → CycleInputs → Task
  unfolding gate_task
  cycle_task veh c = try_with (manifest_diff c.parent.artifact c.candidate) λ d.
      try_with (veh.evaluator.evaluate c.candidate) λ ev.
        gate_task veh c d ev
          (shortfall veh.require_strict_improvement (recorded_score c.parent.eval_results) ev.score)

  -- The checks on a rollback target.
  unfoldable pub check_target : AgentId → Outcome AgentNode → (AgentNode → Task) → Task
  check_target id found k = try_with found λ target. try_with (verify_node target) λ u.
      if not (is_promoted target.status)
      then finished
          (err (Error.policy_denied (text "cannot roll back to non-promoted node " ++ id)))
      else k target

  unfoldable pub rollback_to_task : AgentId → Task
  unfolding check_target
  rollback_to_task id =
      gets id λ found.
        check_target id found λ target. sets_head id λ r. try_with r λ u. finished (ok moved)

  -- What follows once the head has been looked up.
  abbrev pub roll_back_under : Veh → AgentId → Text → AgentNode → Outcome AgentNode → Task
  unfolding commit_task
  roll_back_under veh id at target found =
      try_with found
        λ parent. commit_task (rollback_inputs parent target id at) veh.signing_key committed

  unfoldable pub commit_rollback_task : Veh → AgentId → Text → Task
  unfolding check_target
  commit_rollback_task veh id at = gets id λ found. check_target id found λ target. heads λ r.
      try_with r λ head.
        try_with (ok_or (Error.ledger (text "ledger has no head; nothing to roll back")) head)
          λ parent_id. gets parent_id (roll_back_under veh id at target)

  unfoldable pub task_of : Call → Task
  unfolding commit_task cycle_task rollback_to_task commit_rollback_task
  task_of (root veh artifact scope at) =
      commit_task (root_inputs artifact scope at) veh.signing_key committed
  task_of (cycle veh c) = cycle_task veh c
  task_of (resume p key) = commit_task (approved_inputs p) key committed
  task_of (back_to id) = rollback_to_task id
  task_of (roll_back veh id at) = commit_rollback_task veh id at

module _ ⦃e : Env⦄ (store : LineageStore) where
  open store use {State, append, get, head, set_head, nodes}

  -- The next call of a task, and what it waits for then.
  unfoldable pub advance : Task → State → Task × State
  advance (finished r) s = (finished r, s)
  advance (gets id k) s = (k (get id s), s)
  advance (heads k) s = (k (head s), s)
  advance (lists k) s = (k (nodes s), s)
  advance (appends n k) s = let (r, s') = append n s in (k r, s')
  advance (sets_head id k) s = let (r, s') = set_head id s in (k r, s')

  -- The task at this place takes a turn.
  unfoldable pub turn : ℕ → List Task → State → List Task × State
  unfolding advance
  turn i [] s = ([], s)
  turn zero (t ∷ ts) s = let (t', s') = advance t s in (t' ∷ ts, s')
  turn (suc i) (t ∷ ts) s = let (ts', s') = turn i ts s in (t ∷ ts', s')

  -- The tasks take turns in this order.
  unfoldable pub interleave : List ℕ → List Task → State → List Task × State
  unfolding turn
  interleave [] ts s = (ts, s)
  interleave (i ∷ order) ts s = let (ts', s') = turn i ts s in interleave order ts' s'

  -- A task that runs alone, to its end.
  unfoldable pub alone : Task → State → Outcome Answer × State
  alone (finished r) s = (r, s)
  alone (gets id k) s = alone (k (get id s)) s
  alone (heads k) s = alone (k (head s)) s
  alone (lists k) s = alone (k (nodes s)) s
  alone (appends n k) s = let (r, s') = append n s in alone (k r) s'
  alone (sets_head id k) s = let (r, s') = set_head id s in alone (k r) s'
