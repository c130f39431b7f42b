-- ===== src/Graph/Ancestry.antt =====
-- The runner keeps the lineage a forest, as long as its callers name parents from the ledger: it
-- does not look them up itself (src/graph.rs).
use rig_veh.Prelude.{
  List, [], ◌∷◌, some, Text, ok, err, Result, ◌==◌, ==_iff, find_passes, ◌≡◌, refl, ap, inl, inr,
  >>=-eq-ok, ok_or,
}
use rig_veh.Host.{Env}
use rig_veh.Error.{Error, Outcome}
use rig_veh.Node.{AgentId, AgentNode, next_generation}
use rig_veh.Ledger.View.{Lineage}
use rig_veh.Ledger.Store.{LineageStore, IsLineageStore}
use rig_veh.Graph.Runner.{Veh, CycleInputs, CycleOutcome, promoted, rejected, awaiting_approval}
use rig_veh.Graph.Operations.{
  root_inputs, promoted_inputs, rejected_inputs, approved_inputs, rollback_inputs, commit_root,
  resume_with_approval, commit_rollback,
}
use rig_veh.Graph.Commit.{sign_and_append-Commits}
use rig_veh.Graph.Cycle.{Cycles, run_cycle-Cycles}
use rig_veh.Graph.Target.{rollback_parts, target_in, after_rollback, no_head, ok_or-eq_ok}
use rig_veh.Graph.Rollback.{rollback_to_lem, commit_rollback_cases}
use rig_veh.Graph.Soundness.{
  Call, root, cycle, resume, back_to, roll_back, perform, perform_all, perform-Moves,
}
use rig_veh.Graph.Forest.{lookup, Planted, IsForest, Planted-IsForest, Commits-Planted}

module _ ⦃e : Env⦄ where
  -- The parent that a call names stands in the ledger.
  abbrev pub Named : Lineage → Call → Type 0
  Named l (cycle veh c) = lookup c.parent.agent_id l.nodes ≡ some c.parent
  Named l (resume p key) =
      (m : AgentNode) × (p.parent_id ≡ some m.agent_id)
      × (lookup m.agent_id l.nodes ≡ some m)
      × (p.parent_generation ≡ m.generation)
  Named l _ = Unit

  pub Cycles-Planted :
      (veh : Veh) (c : CycleInputs) (l : Lineage) (r : Result Error CycleOutcome) (l' : Lineage)
      → lookup c.parent.agent_id l.nodes ≡ some c.parent
      → Cycles veh c l r l'
      → Planted [] l.nodes
      → Planted [] l'.nodes
  unfolding promoted_inputs rejected_inputs
  Cycles-Planted veh c l (ok (promoted n ev)) l' named (d, measured, enough, approved, q) h =
      Commits-Planted (promoted_inputs c d ev) veh.signing_key l (ok n) l' (c.parent, named, refl) q
        h
  Cycles-Planted veh c l (ok (rejected n why)) l' named (d, ev, measured, reason, q) h =
      Commits-Planted (rejected_inputs c d ev) veh.signing_key l (ok n) l' (c.parent, named, refl) q
        h
  Cycles-Planted veh c l (ok (awaiting_approval p)) l' named q h = rw q.6 h
  Cycles-Planted veh c l (err x) l' named q h = rw q h

  after_rollback-Planted :
      (id : AgentId) (r : Outcome AgentNode) (l : Lineage)
      → Planted [] l.nodes
      → Planted [] (after_rollback id r l).nodes
  after_rollback-Planted id (ok n) l h = h
  after_rollback-Planted id (err x) l h = h

  -- The parent of a signed rollback is the head, found in the ledger.
  rollback_parts-parent :
      (id : AgentId) (l : Lineage) (target parent : AgentNode)
      → rollback_parts id l ≡ ok (target, parent)
      → lookup parent.agent_id l.nodes ≡ some parent
  rollback_parts-parent id l target parent h =
      let (t, p, h₁) = >>=-eq-ok (target_in id l.nodes) _ h in
      let (head, q, h₂) = >>=-eq-ok (ok_or no_head l.head) _ h₁ in
      let (m, r, h₃) = >>=-eq-ok (ok_or (Error.not_found head) (lookup head l.nodes)) _ h₂ in
      let same : m ≡ parent = cc h₃ in
      let found = ok_or-eq_ok _ _ m r in
      let named = (==_iff _ _).0 (find_passes (λ k. k.agent_id == head) l.nodes m found) in
      rw (← same) (rw named found)

module _ ⦃e : Env⦄ (store : LineageStore) (laws : IsLineageStore store) where
  open store use {State}
  open laws use {IsValid, view}

  -- Every call of a history names its parent from the ledger that it finds.
  abbrev pub AllNamed : List Call → State → Type 0
  AllNamed [] s = Unit
  AllNamed (call ∷ calls) s = Named (view s) call × AllNamed calls (perform store call s)

  roll_back-Planted :
      (veh : Veh) (id : AgentId) (at : Text) (s : State)
      → IsValid s
      → Planted [] (view s).nodes
      → Planted [] (view (commit_rollback store veh id at s).1).nodes
  unfolding rollback_inputs
  roll_back-Planted veh id at s v h = elim (commit_rollback_cases store laws veh id at s v) [
    | inl (x, p, q) ↦ rw q h
    | inr (target, parent, p, q) ↦
        let inputs = rollback_inputs parent target id at in
        rw q (
          Commits-Planted inputs veh.signing_key (view s) _ _
            (parent, rollback_parts-parent id (view s) target parent p, refl)
            (sign_and_append-Commits store laws inputs veh.signing_key s v) h)
  ]

  perform-Planted :
      (call : Call) (s : State)
      → IsValid s
      → Named (view s) call
      → Planted [] (view s).nodes
      → Planted [] (view (perform store call s)).nodes
  unfolding perform commit_root resume_with_approval root_inputs approved_inputs
  perform-Planted (root veh artifact scope at) s v named h =
      let inputs = root_inputs artifact scope at in
      Commits-Planted inputs veh.signing_key (view s) _ _ refl
        (sign_and_append-Commits store laws inputs veh.signing_key s v) h
  perform-Planted (cycle veh c) s v named h =
      Cycles-Planted veh c (view s) _ _ named (run_cycle-Cycles store laws veh c s v) h
  perform-Planted (resume p key) s v (m, parent, found, generation) h =
      Commits-Planted (approved_inputs p) key (view s) _ _
        (rw parent (m, found, ap next_generation generation))
        (sign_and_append-Commits store laws (approved_inputs p) key s v) h
  perform-Planted (back_to id) s v named h =
      rw (rollback_to_lem store laws id s v).1
        (after_rollback-Planted id (target_in id (view s).nodes) (view s) h)
  perform-Planted (roll_back veh id at) s v named h = roll_back-Planted veh id at s v h

  perform_all-Planted :
      (calls : List Call) (s : State)
      → IsValid s
      → AllNamed calls s
      → Planted [] (view s).nodes
      → Planted [] (view (perform_all store calls s)).nodes
  unfolding perform_all
  perform_all-Planted [] s v named h = h
  perform_all-Planted (call ∷ calls) s v named h =
      perform_all-Planted calls (perform store call s) (perform-Moves store laws call s v).valid
        named.1 (perform-Planted call s v named.0 h)

  -- On a store that keeps the laws of the trait, calls of any runners whose cycles and approvals
  -- name a parent from the ledger keep the lineage a forest: every node with a parent has it among
  -- the nodes before it, from every node the parents lead to one without a parent, in fewer steps
  -- than there are nodes, and the generation of a node is the number of these steps, modulo 2 ^ 32.
  pub perform_all-IsForest :
      (calls : List Call) (s : State)
      → IsValid s
      → AllNamed calls s
      → IsForest (view s)
      → IsForest (view (perform_all store calls s))
  perform_all-IsForest calls s v named h =
      Planted-IsForest (view (perform_all store calls s))
        (perform_all-Planted calls s v named h.planted)
