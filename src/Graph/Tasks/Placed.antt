-- ===== src/Graph/Tasks/Placed.antt =====
-- What the commits of the runner's calls have in common, when others append in between
-- (src/graph.rs).
use rig_veh.Prelude.{
  ℕ, [], Option, none, some, ok, ◌≡◌, refl, ap, subst, sym, find_passes, find-append_some, ==_iff,
  ◌==◌,
}
use rig_veh.Error
use rig_veh.Host.{Env}
use rig_veh.Node.{AgentId, AgentNode, next_generation}
use rig_veh.Identity.{CommitInputs}
use rig_veh.Ledger.View.{Lineage}
use rig_veh.Graph.Operations.{
  root_inputs, promoted_inputs, rejected_inputs, approved_inputs, rollback_inputs,
}
use rig_veh.Graph.Step.{Extends}
use rig_veh.Graph.Target.{ok_or-eq_ok}
use rig_veh.Graph.Soundness.{Call, root, cycle, resume, back_to, roll_back}
use rig_veh.Graph.Forest.{lookup, Placed, Planted, Commits-Planted}
use rig_veh.Graph.Ancestry.{Named}
use rig_veh.Graph.Tasks.Safe.{held, Writes, nothing, appended, reverted}
use rig_veh.Graph.Tasks.Start.{Permits}
use rig_veh.Graph.Tasks.Interleaving.{Reaches, here, next}

module _ ⦃e : Env⦄ where
  -- No condition on the inputs.
  abbrev pub Anything : Lineage → CommitInputs → Type 0
  Anything l inputs = Unit

  pub call-Anything : (call : Call) (l : Lineage) → Permits Anything l call
  call-Anything (root veh artifact scope at) l = tt
  call-Anything (cycle veh c) l = λ d ev. (tt, tt)
  call-Anything (resume p key) l = tt
  call-Anything (back_to id) l = tt
  call-Anything (roll_back veh id at) l = λ m parent_id parent target found. tt

  -- The inputs are placed in the lineage.
  abbrev pub PlacedIn : Lineage → CommitInputs → Type 0
  PlacedIn l inputs = Placed l.nodes inputs.generation inputs.parent_id

  pub Placed-Extends :
      (generation : ℕ) (parent : Option AgentId) (l m : Lineage)
      → Extends l m
      → Placed l.nodes generation parent
      → Placed m.nodes generation parent
  Placed-Extends generation none l m x h = h
  Placed-Extends generation (some id) l m (ns, p) (parent, found, q) =
      (parent, rw p (find-append_some (λ k. k.agent_id == id) l.nodes ns parent found), q)

  pub held-lookup :
      (id : AgentId) (l : Lineage) (n : AgentNode)
      → held id l ≡ ok n
      → lookup n.agent_id l.nodes ≡ some n
  held-lookup id l n h =
      let found = ok_or-eq_ok (Error.not_found id) (lookup id l.nodes) n h in
      let named = (==_iff n.agent_id id).0 (find_passes (λ k. k.agent_id == id) l.nodes n found) in
      subst (λ i. lookup i l.nodes ≡ some n) (sym named) found

  pub call-PlacedIn : (call : Call) (l : Lineage) → Named l call → Permits PlacedIn l call
  unfolding root_inputs promoted_inputs rejected_inputs approved_inputs rollback_inputs
  call-PlacedIn (root veh artifact scope at) l h = refl
  call-PlacedIn (cycle veh c) l h = λ d ev. ((c.parent, h, refl), (c.parent, h, refl))
  call-PlacedIn (resume p key) l (m, parent, found, generation) =
      rw parent (m, found, ap next_generation generation)
  call-PlacedIn (back_to id) l h = tt
  call-PlacedIn (roll_back veh id at) l h =
      λ m parent_id parent target found. (parent, held-lookup parent_id m parent found, refl)

  Writes-Planted : {l m : Lineage} → Writes PlacedIn l m → Planted [] l.nodes → Planted [] m.nodes
  Writes-Planted (nothing p) h = rw p h
  Writes-Planted {l} {m} (appended n s fresh p) h =
      Commits-Planted s.inputs s.key l (ok n) m s.permitted (s.signed, fresh, p) h
  Writes-Planted (reverted id n t p) h = rw p h

  pub Reaches-Planted :
      {l m : Lineage} → Reaches PlacedIn l m → Planted [] l.nodes → Planted [] m.nodes
  Reaches-Planted here h = h
  Reaches-Planted (next r w) h = Writes-Planted w (Reaches-Planted r h)
