-- ===== src/Graph/Refines.antt =====
-- Every operation of the runner is a step of the protocol, over any lawful store (src/graph.rs).
use rig_veh.Prelude.{Text, ok, err, Result, ◌≡◌, refl}
use rig_veh.Error.{Error}
use rig_veh.Host.{Env}
use rig_veh.Artifact.{AgentArtifact}
use rig_veh.Intent.{AllowedScope}
use rig_veh.Node.{AgentNode, is_promoted}
use rig_veh.Identity.{CommitInputs}
use rig_veh.Ledger.View.{Lineage}
use rig_veh.Ledger.Store.{LineageStore, IsLineageStore}
use rig_veh.Graph.Runner.{
  Veh, CycleInputs, CycleOutcome, promoted, rejected, awaiting_approval, PendingApproval,
}
use rig_veh.Graph.Operations.{
  root_inputs, promoted_inputs, rejected_inputs, approved_inputs, sign_and_append, commit_root,
  resume_with_approval,
}
use rig_veh.Graph.Commit.{Commits, sign_and_append-Commits, sign_and_append-IsValid}
use rig_veh.Graph.Cycle.{Cycles}
use rig_veh.Graph.Step.{Step, stay, commit}

module _ ⦃e : Env⦄ where
  -- A commit is a step, if its inputs make exactly the promoted eligible.
  pub Step-Commits :
      (inputs : CommitInputs) (key : e.SigningKey) (l : Lineage) (r : Result Error AgentNode)
      (l' : Lineage)
      → inputs.valid_parent ≡ is_promoted inputs.status
      → Commits inputs key l r l'
      → Step l l'
  Step-Commits inputs key l (ok n) l' flag (p, fresh, q) = commit inputs key n p flag fresh q
  Step-Commits inputs key l (err x) l' flag q = stay q

  pub Step-Cycles :
      (veh : Veh) (c : CycleInputs) (l : Lineage) (r : Result Error CycleOutcome) (l' : Lineage)
      → Cycles veh c l r l'
      → Step l l'
  unfolding promoted_inputs rejected_inputs
  Step-Cycles veh c l (ok (promoted n ev)) l' (d, measured, enough, approved, h) =
      Step-Commits (promoted_inputs c d ev) veh.signing_key l (ok n) l' refl h
  Step-Cycles veh c l (ok (rejected n why)) l' (d, ev, measured, reason, h) =
      Step-Commits (rejected_inputs c d ev) veh.signing_key l (ok n) l' refl h
  Step-Cycles veh c l (ok (awaiting_approval p)) l' h = stay h.6
  Step-Cycles veh c l (err x) l' h = stay h

module _ ⦃e : Env⦄ (store : LineageStore) (laws : IsLineageStore store) where
  open store use {State, get, set_head}
  open laws use {IsValid, view, get_lem, set_head_result, view-set_head, set_head-IsValid}

  -- A state that an operation may leave behind.
  pub record Moves (s s' : State) : Type 0 where
    pub valid : IsValid s'
    pub step : Step (view s) (view s')

  pub sign_and_append-Moves :
      (inputs : CommitInputs) (key : e.SigningKey) (s : State)
      → inputs.valid_parent ≡ is_promoted inputs.status
      → IsValid s
      → Moves s (sign_and_append store inputs key s).1
  sign_and_append-Moves inputs key s flag v = record {
    valid = sign_and_append-IsValid store laws inputs key s v;
    step = Step-Commits inputs key _ _ _ flag (sign_and_append-Commits store laws inputs key s v);
  }

  pub commit_root-Moves :
      (veh : Veh) (artifact : AgentArtifact) (scope : AllowedScope) (at : Text) (s : State)
      → IsValid s
      → Moves s (commit_root store veh artifact scope at s).1
  unfolding commit_root root_inputs
  commit_root-Moves veh artifact scope at s v =
      sign_and_append-Moves (root_inputs artifact scope at) veh.signing_key s refl v

  pub resume-Moves :
      (p : PendingApproval) (key : e.SigningKey) (s : State)
      → IsValid s
      → Moves s (resume_with_approval store p key s).1
  unfolding resume_with_approval approved_inputs
  resume-Moves p key s v = sign_and_append-Moves (approved_inputs p) key s refl v
