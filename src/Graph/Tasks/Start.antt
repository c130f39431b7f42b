-- ===== src/Graph/Tasks/Start.antt =====
-- Every call is a safe task, if the inputs that it may commit are permitted (src/graph.rs).
use rig_veh.Prelude.{Option, none, some, Text, ok, err, ok_or, ◌≡◌, refl, Bool-cases, inl, inr}
use rig_veh.Error.{Error, Outcome}
use rig_veh.Host.{Env}
use rig_veh.Evaluator.{EvalResult}
use rig_veh.Node.{AgentId, AgentNode, is_promoted}
use rig_veh.Identity.{CommitInputs, sign_node, verify_node}
use rig_veh.Policy.{PolicyDecision, approve, deny, require_approval}
use rig_veh.Ledger.View.{Lineage}
use rig_veh.Graph.Runner.{Veh, CycleInputs}
use rig_veh.Graph.Operations.{
  root_inputs, promoted_inputs, rejected_inputs, approved_inputs, rollback_inputs,
}
use rig_veh.Diff.{manifest_diff}
use rig_veh.Graph.Cycle.{fr5}
use rig_veh.Graph.Target.{IsTarget, ok_or-eq_ok, no_head}
use rig_veh.Graph.Soundness.{Call, root, cycle, resume, back_to, roll_back}
use rig_veh.Graph.Tasks.{
  Answer, Task, gets, committed, roll_back_under, try_with, commit_task, decide_task, gate_task,
  cycle_task, check_target, rollback_to_task, commit_rollback_task, task_of,
}
use rig_veh.Graph.Tasks.Safe.{held, Safe}

module _ ⦃e : Env⦄ (Permitted : Lineage → CommitInputs → Type 0) where
  pub try_with-Safe :
      {A : Type 0} (l : Lineage) (r : Outcome A) (k : A → Task)
      → ((a : A) → r ≡ ok a → Safe Permitted l (k a))
      → Safe Permitted l (try_with r k)
  unfolding Safe
  try_with-Safe l (ok a) k h = h a refl
  try_with-Safe l (err x) k h = tt

  commit_task-Safe :
      (inputs : CommitInputs) (key : e.SigningKey) (answer : AgentNode → Answer) (l : Lineage)
      → inputs.valid_parent ≡ is_promoted inputs.status
      → Permitted l inputs
      → Safe Permitted l (commit_task inputs key answer)
  unfolding commit_task Safe
  commit_task-Safe inputs key answer l flag permitted =
      try_with-Safe l (sign_node inputs key) _ λ n signed. (
        record { inputs = inputs; key = key; signed = signed; flag = flag; permitted = permitted },
        λ m r x. try_with-Safe m r _ (λ u p. tt),
      )

  check_target-Safe :
      (id : AgentId) (l : Lineage) (k : AgentNode → Task)
      → ((n : AgentNode) → IsTarget id l.nodes n → Safe Permitted l (k n))
      → Safe Permitted l (check_target id (held id l) k)
  unfolding check_target Safe
  check_target-Safe id l k h = try_with-Safe l (held id l) _ λ n p.
      try_with-Safe l (verify_node n) _ λ u q. elim (Bool-cases (is_promoted n.status)) [
        | inl t ↦ rw t (
            h n
              (record { found = ok_or-eq_ok (Error.not_found id) _ n p; verified = q; status = t }))
        | inr t ↦ rw t tt
      ]

  -- The commits that a cycle may come to are permitted.
  abbrev pub PermitsCycle : CycleInputs → Lineage → Type 0
  PermitsCycle c l =
      (d : Text) (ev : EvalResult)
      → Permitted l (promoted_inputs c d ev) × Permitted l (rejected_inputs c d ev)

  -- The commits that a call may come to are permitted, where a signed rollback finds its parent in
  -- the ledger.
  abbrev pub Permits : Lineage → Call → Type 0
  Permits l (root veh artifact scope at) = Permitted l (root_inputs artifact scope at)
  Permits l (cycle veh c) = PermitsCycle c l
  Permits l (resume p key) = Permitted l (approved_inputs p)
  Permits l (back_to id) = Unit
  Permits l (roll_back veh id at) =
      (m : Lineage) (parent_id : AgentId) (parent target : AgentNode)
      → held parent_id m ≡ ok parent
      → Permitted m (rollback_inputs parent target id at)

  decide-Safe :
      (veh : Veh) (c : CycleInputs) (d : Text) (ev : EvalResult) (decision : PolicyDecision)
      (l : Lineage)
      → PermitsCycle c l
      → Safe Permitted l (decide_task veh c d ev decision)
  unfolding decide_task promoted_inputs rejected_inputs Safe
  decide-Safe veh c d ev approve l h =
      commit_task-Safe (promoted_inputs c d ev) veh.signing_key _ l refl (h d ev).0
  decide-Safe veh c d ev (deny why) l h =
      commit_task-Safe (rejected_inputs c d ev) veh.signing_key _ l refl (h d ev).1
  decide-Safe veh c d ev (require_approval why) l h = tt

  gate-Safe :
      (veh : Veh) (c : CycleInputs) (d : Text) (ev : EvalResult) (short : Option Text) (l : Lineage)
      → PermitsCycle c l
      → Safe Permitted l (gate_task veh c d ev short)
  unfolding gate_task rejected_inputs
  gate-Safe veh c d ev none l h = decide-Safe veh c d ev _ l h
  gate-Safe veh c d ev (some why) l h =
      commit_task-Safe (rejected_inputs c d ev) veh.signing_key _ l refl (h d ev).1

  pub cycle_task-Safe :
      (veh : Veh) (c : CycleInputs) (l : Lineage)
      → PermitsCycle c l
      → Safe Permitted l (cycle_task veh c)
  unfolding cycle_task
  cycle_task-Safe veh c l h =
      let evaluated = veh.evaluator.evaluate c.candidate in
      try_with-Safe l (manifest_diff c.parent.artifact c.candidate)
        (λ d. try_with evaluated (λ ev. gate_task veh c d ev (fr5 veh c ev)))
        λ d p.
          try_with-Safe l evaluated (λ ev. gate_task veh c d ev (fr5 veh c ev))
            λ ev q. gate-Safe veh c d ev (fr5 veh c ev) l h

  -- Every call whose commits are permitted starts safe.
  pub task_of-Safe : (call : Call) (l : Lineage) → Permits l call → Safe Permitted l (task_of call)
  unfolding task_of cycle_task rollback_to_task commit_rollback_task root_inputs approved_inputs
      rollback_inputs Safe
  task_of-Safe (root veh artifact scope at) l h =
      commit_task-Safe (root_inputs artifact scope at) veh.signing_key _ l refl h
  task_of-Safe (cycle veh c) l h = cycle_task-Safe veh c l h
  task_of-Safe (resume p key) l h = commit_task-Safe (approved_inputs p) key _ l refl h
  task_of-Safe (back_to id) l h =
      λ m x. check_target-Safe id m _ λ n t. ((n, t), λ m' r y. try_with-Safe m' r _ (λ u p. tt))
  task_of-Safe (roll_back veh id at) l h = λ m x. check_target-Safe id m _ λ target t. λ m₁ x₁.
      try_with-Safe m₁ (ok_or no_head m₁.head)
        (λ parent_id. gets parent_id (roll_back_under veh id at target))
        λ parent_id q. λ m₂ x₂. try_with-Safe m₂ (held parent_id m₂) _ λ parent w.
          commit_task-Safe (rollback_inputs parent target id at) veh.signing_key committed m₂ refl
            (h m₂ parent_id parent target w)
