-- ===== src/Graph/Tasks/Alone.antt =====
-- A task that runs alone does what the operation does (src/graph.rs).
use rig_veh.Prelude.{
  Option, none, some, Text, Result, Result-cases, ok, err, ok_or, ◌>>=◌, ◌≡◌, refl, ◌∙◌, inl, inr,
  Bool-cases,
}
use rig_veh.Prelude.Exec.{pure, proceed}
use rig_veh.Error.{Error, Outcome}
use rig_veh.Host.{Env}
use rig_veh.Evaluator.{EvalResult}
use rig_veh.Node.{AgentId, AgentNode, is_promoted}
use rig_veh.Diff.{manifest_diff}
use rig_veh.Identity.{CommitInputs, sign_node, verify_node}
use rig_veh.Policy.{PolicyDecision, approve, deny, require_approval}
use rig_veh.Ledger.Store.{LineageStore}
use rig_veh.Graph.Runner.{Veh, CycleInputs, promoted, rejected}
use rig_veh.Graph.Operations.{
  promoted_inputs, rejected_inputs, approved_inputs, rollback_inputs, root_inputs, sign_and_append,
  commit_root, commit_promoted, commit_rejected, decide, gate, run_cycle, resume_with_approval,
  rollback_target_of, rollback_to, commit_rollback,
}
use rig_veh.Graph.Cycle.{fr5}
use rig_veh.Graph.Target.{no_head}
use rig_veh.Graph.Soundness.{Call, root, cycle, resume, back_to, roll_back}
use rig_veh.Graph.Tasks.{
  Answer, committed, cycled, moved, commit_task, decide_task, gate_task, cycle_task, check_target,
  rollback_to_task, commit_rollback_task, task_of, alone, Task, try_with, finished, heads, gets,
  sets_head, roll_back_under,
}

module _ ⦃e : Env⦄ (store : LineageStore) where
  open store use {State, append, get, head, set_head}

  -- The result of an operation, as an answer.
  abbrev pub answered : {A : Type 0} → (A → Answer) → Outcome A × State → Outcome Answer × State
  answered f (r, s) = (r >>= λ a. ok (f a), s)

  -- What a call returns, and the ledger that it leaves.
  unfoldable pub call_alone : Call → State → Outcome Answer × State
  call_alone (root veh artifact scope at) s =
      answered committed (commit_root store veh artifact scope at s)
  call_alone (cycle veh c) s = answered cycled (run_cycle store veh c s)
  call_alone (resume p key) s = answered committed (resume_with_approval store p key s)
  call_alone (back_to id) s = answered (λ u. moved) (rollback_to store id s)
  call_alone (roll_back veh id at) s = answered committed (commit_rollback store veh id at s)

  answered-proceed :
      {A B : Type 0} (f : B → Answer) (g : A → B) (x : Outcome A × State)
      → answered (λ a. f (g a)) x ≡ answered f (proceed x.0 (λ a. pure (g a)) x.1)
  answered-proceed f g (ok a, s) = refl
  answered-proceed f g (err x, s) = refl

  alone-appended :
      (f : AgentNode → Answer) (n : AgentNode) (r : Result Error (Unit {0})) (s : State)
      → alone store (try_with r (λ u. finished (ok (f n)))) s
        ≡ answered f (proceed r (λ u. pure n) s)
  unfolding alone
  alone-appended f n (ok u) s = refl
  alone-appended f n (err x) s = refl

  alone-commit_task :
      (inputs : CommitInputs) (key : e.SigningKey) (f : AgentNode → Answer) (s : State)
      → alone store (commit_task inputs key f) s ≡ answered f (sign_and_append store inputs key s)
  unfolding alone commit_task sign_and_append
  alone-commit_task inputs key f s = elim (Result-cases (sign_node inputs key)) [
    | inr (x, p) ↦ rw (p, sign_and_append) refl
    | inl (n, p) ↦ rw (p, sign_and_append) (alone-appended f n (append n s).0 (append n s).1)
  ]

  alone-decide :
      (veh : Veh) (c : CycleInputs) (d : Text) (ev : EvalResult) (decision : PolicyDecision)
      (s : State)
      → alone store (decide_task veh c d ev decision) s
        ≡ answered cycled (decide store veh c d ev decision s)
  unfolding decide_task decide commit_promoted commit_rejected
  alone-decide veh c d ev approve s =
      alone-commit_task (promoted_inputs c d ev) veh.signing_key _ s
      ∙ answered-proceed cycled (λ n. promoted n ev) (sign_and_append store _ _ s)
  alone-decide veh c d ev (deny why) s =
      alone-commit_task (rejected_inputs c d ev) veh.signing_key _ s
      ∙ answered-proceed cycled (λ n. rejected n why) (sign_and_append store _ _ s)
  alone-decide veh c d ev (require_approval why) s = unfold alone in refl

  alone-gate :
      (veh : Veh) (c : CycleInputs) (d : Text) (ev : EvalResult) (short : Option Text) (s : State)
      → alone store (gate_task veh c d ev short) s ≡ answered cycled (gate store veh c d ev short s)
  unfolding gate_task gate commit_rejected
  alone-gate veh c d ev none s = alone-decide veh c d ev _ s
  alone-gate veh c d ev (some why) s =
      alone-commit_task (rejected_inputs c d ev) veh.signing_key _ s
      ∙ answered-proceed cycled (λ n. rejected n why) (sign_and_append store _ _ s)

  pub alone-cycle :
      (veh : Veh) (c : CycleInputs) (s : State)
      → alone store (cycle_task veh c) s ≡ answered cycled (run_cycle store veh c s)
  unfolding alone cycle_task run_cycle
  alone-cycle veh c s = elim (Result-cases (manifest_diff c.parent.artifact c.candidate)) [
    | inr (x, p) ↦ rw (p, run_cycle) refl
    | inl (d, p) ↦ elim (Result-cases (veh.evaluator.evaluate c.candidate)) [
      | inr (x, q) ↦ rw (p, q, run_cycle) refl
      | inl (ev, q) ↦ rw (p, q, run_cycle) (alone-gate veh c d ev (fr5 veh c ev) s)
    ]
  ]

  -- The checks on a rollback target, and what follows them.
  alone-check :
      (id : AgentId) (k : AgentNode → Task) (s : State) (o : Outcome Answer × State)
      → ((n : AgentNode) → rollback_target_of store id s ≡ (ok n, s) → alone store (k n) s ≡ o)
      → ((x : Error) → rollback_target_of store id s ≡ (err x, s) → (err x, s) ≡ o)
      → alone store (check_target id (get id s) k) s ≡ o
  unfolding alone check_target rollback_target_of
  alone-check id k s o good bad = elim (Result-cases (get id s)) [
    | inr (x, p) ↦ rw p (bad x (rw (p, rollback_target_of) refl))
    | inl (n, p) ↦ elim (Result-cases (verify_node n)) [
      | inr (x, q) ↦ rw (p, q) (bad x (rw (p, q, rollback_target_of) refl))
      | inl (u, q) ↦ elim (Bool-cases (is_promoted n.status)) [
        | inl t ↦ rw (p, q, t) (good n (rw (p, q, t, rollback_target_of) refl))
        | inr t ↦ rw (p, q, t) (bad _ (rw (p, q, t, rollback_target_of) refl))
      ]
    ]
  ]

  alone-moved :
      (r : Result Error (Unit {0})) (s : State)
      → alone store (try_with r (λ u. finished (ok moved))) s ≡ answered (λ u. moved) (r, s)
  unfolding alone
  alone-moved (ok u) s = refl
  alone-moved (err x) s = refl

  alone-rollback_to :
      (id : AgentId) (s : State)
      → alone store (rollback_to_task id) s ≡ answered (λ u. moved) (rollback_to store id s)
  unfolding alone rollback_to_task rollback_to
  alone-rollback_to id s =
      alone-check id (λ n. sets_head id (λ r. try_with r (λ u. finished (ok moved)))) s _
        (λ n p. rw (p, rollback_to) (alone-moved (set_head id s).0 (set_head id s).1))
        (λ x p. rw (p, rollback_to) refl)

  -- What follows the checks of a signed rollback: the head, and then its node.
  abbrev after_id : Veh → AgentId → Text → AgentNode → AgentId → Task
  after_id veh id at target parent_id = gets parent_id (roll_back_under veh id at target)

  abbrev after_head : Veh → AgentId → Text → AgentNode → Outcome (Option AgentId) → Task
  after_head veh id at target r =
      try_with r λ head. try_with (ok_or no_head head) (after_id veh id at target)

  module _ (veh : Veh) (id : AgentId) (at : Text) (target : AgentNode) (s : State)
      (checked : rollback_target_of store id s ≡ (ok target, s)) where
    alone-parent :
        (h : Option AgentId) (parent_id : AgentId) (o : Outcome AgentNode)
        → head s ≡ ok h
        → ok_or no_head h ≡ ok parent_id
        → get parent_id s ≡ o
        → alone store (roll_back_under veh id at target o) s
          ≡ answered committed (commit_rollback store veh id at s)
    unfolding alone commit_rollback roll_back_under
    alone-parent h parent_id (err x) q r w = rw (checked, q, r, w, commit_rollback) refl
    alone-parent h parent_id (ok parent) q r w =
        rw (checked, q, r, w, commit_rollback)
          (alone-commit_task (rollback_inputs parent target id at) veh.signing_key committed s)

    alone-id :
        (h : Option AgentId) (o : Outcome AgentId)
        → head s ≡ ok h
        → ok_or no_head h ≡ o
        → alone store (try_with o (after_id veh id at target)) s
          ≡ answered committed (commit_rollback store veh id at s)
    unfolding alone commit_rollback
    alone-id h (err x) q r = rw (checked, q, r, commit_rollback) refl
    alone-id h (ok parent_id) q r = alone-parent h parent_id (get parent_id s) q r refl

    alone-head :
        (o : Outcome (Option AgentId))
        → head s ≡ o
        → alone store (after_head veh id at target o) s
          ≡ answered committed (commit_rollback store veh id at s)
    unfolding alone commit_rollback
    alone-head (err x) q = rw (checked, q, commit_rollback) refl
    alone-head (ok h) q = alone-id h (ok_or no_head h) q refl

  alone-roll_back :
      (veh : Veh) (id : AgentId) (at : Text) (s : State)
      → alone store (commit_rollback_task veh id at) s
        ≡ answered committed (commit_rollback store veh id at s)
  unfolding alone commit_rollback_task commit_rollback
  alone-roll_back veh id at s =
      alone-check id (λ n. heads (after_head veh id at n)) s _
        (λ n p. alone-head veh id at n s p (head s) refl) (λ x p. rw (p, commit_rollback) refl)

  -- On any store, the task of a call that runs with no other in between returns what the call
  -- returns and leaves the ledger that it leaves.
  pub alone_lem : (call : Call) (s : State) → alone store (task_of call) s ≡ call_alone call s
  unfolding task_of call_alone commit_root resume_with_approval
  alone_lem (root veh artifact scope at) s =
      alone-commit_task (root_inputs artifact scope at) veh.signing_key committed s
  alone_lem (cycle veh c) s = alone-cycle veh c s
  alone_lem (resume p key) s = alone-commit_task (approved_inputs p) key committed s
  alone_lem (back_to id) s = alone-rollback_to id s
  alone_lem (roll_back veh id at) s = alone-roll_back veh id at s
