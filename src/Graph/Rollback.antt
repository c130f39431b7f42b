-- ===== src/Graph/Rollback.antt =====
-- The two rollbacks of src/graph.rs: `rollback_to` moves the head, `commit_rollback` appends a
-- signed node.
use rig_veh.Prelude.{
  Text, ok, err, Result-cases, Option-cases, ◌≡◌, refl, ◌⊎◌, inl, inr, arith, find, ◌==◌,
  any_of_find, ◌>>=◌,
}
use rig_veh.Error.{Error, Outcome}
use rig_veh.Host.{Env}
use rig_veh.Node.{AgentId, AgentNode}
use rig_veh.Identity.{verify_node}
use rig_veh.Ledger.View.{Lineage}
use rig_veh.Ledger.Store.{LineageStore, IsLineageStore}
use rig_veh.Graph.Runner.{Veh}
use rig_veh.Graph.Operations.{
  rollback_inputs, sign_and_append, rollback_target_of, rollback_to, commit_rollback,
}
use rig_veh.Graph.Step.{Step, stay, revert}
use rig_veh.Graph.Target.{no_head, target_in, target_in-IsTarget, rollback_parts, after_rollback}
use rig_veh.Graph.Refines.{Moves}

module _ ⦃e : Env⦄ (store : LineageStore) (laws : IsLineageStore store) where
  open store use {State, get, set_head}
  open laws use {IsValid, view, get_lem, head_lem, set_head_result, view-set_head, set_head-IsValid}

  rollback_target_of_lem :
      (id : AgentId) (s : State)
      → IsValid s
      → rollback_target_of store id s ≡ (target_in id (view s).nodes, s)
  unfolding rollback_target_of
  rollback_target_of_lem id s v =
      elim (Option-cases (find (λ m. m.agent_id == id) (view s).nodes)) [
        | inl p ↦ rw (get_lem id s v, p) refl
        | inr (n, p) ↦ elim (Result-cases (verify_node n)) [
          | inr (x, q) ↦ rw (get_lem id s v, p, q) refl
          | inl (u, q) ↦ rw (get_lem id s v, p, q) (ground arith)
        ]
      ]

  -- From a valid state, `rollback_to` runs its three checks and sets the head, and does nothing
  -- else to the lineage: on an error the ledger is as it was.
  pub rollback_to_lem :
      (id : AgentId) (s : State)
      → IsValid s
      → ((rollback_to store id s).0 ≡ (target_in id (view s).nodes >>= λ n. ok tt))
        × (view (rollback_to store id s).1
            ≡ after_rollback id (target_in id (view s).nodes) (view s))
  unfolding rollback_to
  rollback_to_lem id s v = elim (Result-cases (target_in id (view s).nodes)) [
    | inr (x, p) ↦ rw (rollback_target_of_lem id s v, p, rollback_to) (refl, refl)
    | inl (n, p) ↦
        let held =
          any_of_find (λ m. m.agent_id == id) (view s).nodes n
            (target_in-IsTarget id _ n p).found in
        rw (rollback_target_of_lem id s v, p, rollback_to)
          (rw held at (set_head_result id s v), rw held at (view-set_head id s v))
  ]

  rollback_to-IsValid : (id : AgentId) (s : State) → IsValid s → IsValid (rollback_to store id s).1
  unfolding rollback_to
  rollback_to-IsValid id s v = elim (Result-cases (target_in id (view s).nodes)) [
    | inr (x, p) ↦ rw (rollback_target_of_lem id s v, p, rollback_to) v
    | inl (n, p) ↦ rw (rollback_target_of_lem id s v, p, rollback_to) (set_head-IsValid id s v)
  ]

  Step-after_rollback :
      (id : AgentId) (l l' : Lineage) (r : Outcome AgentNode)
      → target_in id l.nodes ≡ r
      → l' ≡ after_rollback id r l
      → Step l l'
  Step-after_rollback id l l' (ok n) p q =
      let t = target_in-IsTarget id l.nodes n p in revert id n t.found t.verified t.status q
  Step-after_rollback id l l' (err x) p q = stay q

  pub rollback_to-Moves :
      (id : AgentId) (s : State) → IsValid s → Moves store laws s (rollback_to store id s).1
  rollback_to-Moves id s v = record {
    valid = rollback_to-IsValid id s v;
    step = Step-after_rollback id _ _ _ refl (rollback_to_lem id s v).1;
  }

  -- A signed rollback stops at the first check that fails, or is the commit over its inputs.
  pub commit_rollback_cases :
      (veh : Veh) (id : AgentId) (at : Text) (s : State)
      → IsValid s
      → ((x : Error) × (rollback_parts id (view s) ≡ err x)
          × (commit_rollback store veh id at s ≡ (err x, s)))
        ⊎ ((target : AgentNode) × (parent : AgentNode) × (rollback_parts id (view s)
              ≡ ok (target, parent))
            × (commit_rollback store veh id at s
                ≡ sign_and_append store (rollback_inputs parent target id at) veh.signing_key s))
  unfolding commit_rollback
  commit_rollback_cases veh id at s v = elim (Result-cases (target_in id (view s).nodes)) [
    | inr (x, p) ↦ inl (x, rw p refl, rw (rollback_target_of_lem id s v, p, commit_rollback) refl)
    | inl (t, p) ↦ elim (Option-cases (view s).head) [
      | inl q ↦ inl (
        no_head,
        rw (p, q) refl,
        rw (rollback_target_of_lem id s v, p, head_lem s v, q, commit_rollback) refl,
      )
      | inr (pid, q) ↦ elim (Option-cases (find (λ m. m.agent_id == pid) (view s).nodes)) [
        | inl r ↦ inl (
          Error.not_found pid,
          rw (p, q, r) refl,
          rw
              (
                rollback_target_of_lem id s v,
                p,
                head_lem s v,
                q,
                get_lem pid s v,
                r,
                commit_rollback,
              )
              refl,
        )
        | inr (n, r) ↦ inr (
          t,
          n,
          rw (p, q, r) refl,
          rw
              (
                rollback_target_of_lem id s v,
                p,
                head_lem s v,
                q,
                get_lem pid s v,
                r,
                commit_rollback,
              )
              refl,
        )
      ]
    ]
  ]
