-- ===== src/Graph/Soundness.antt =====
-- Any history of operations of any runners over one ledger (src/graph.rs).
use rig_veh.Prelude.{
  Option, none, some, Text, ok, err, Result, Result-cases, refl, inl, inr, List, [], ◌∷◌,
}
use rig_veh.Prelude.Exec.{pure, proceed}
use rig_veh.Error.{Error}
use rig_veh.Host.{Env, IsCrypto}
use rig_veh.Evaluator.{EvalResult}
use rig_veh.Artifact.{AgentArtifact}
use rig_veh.Intent.{AllowedScope}
use rig_veh.Node.{AgentId}
use rig_veh.Diff.{manifest_diff}
use rig_veh.Policy.{PolicyDecision, approve, deny, require_approval}
use rig_veh.Ledger.View.{Lineage}
use rig_veh.Ledger.Store.{LineageStore, IsLineageStore}
use rig_veh.Graph.Runner.{Veh, CycleInputs, PendingApproval}
use rig_veh.Graph.Operations.{
  promoted_inputs, rejected_inputs, rollback_inputs, commit_root, commit_promoted, commit_rejected,
  decide, gate, run_cycle, resume_with_approval, rollback_to, commit_rollback,
}
use rig_veh.Graph.Commit.{sign_and_append-IsValid}
use rig_veh.Graph.Cycle.{fr5, run_cycle-Cycles}
use rig_veh.Graph.Step.{stay, IsSound, Step-IsSound, Extends, Step-Extends, Extends-trans}
use rig_veh.Graph.Refines.{
  Moves, Step-Cycles, sign_and_append-Moves, commit_root-Moves, resume-Moves,
}
use rig_veh.Graph.Rollback.{rollback_to-Moves, commit_rollback_cases}

-- The rest of a `do` block that only builds a value.
proceed-pure {ℓ} :
    {S A B : Type 0} (P : S → Type ℓ) (r : Result Error A) (f : A → B) (s : S)
    → P s
    → P (proceed r (λ a. pure {E = Error} (f a)) s).1
proceed-pure P (ok a) f s h = h
proceed-pure P (err x) f s h = h

module _ ⦃e : Env⦄ where
  -- One call of an operation, by some runner.
  pub data Call : Type 0 where
    root : Veh → AgentArtifact → AllowedScope → Text → Call
    cycle : Veh → CycleInputs → Call
    resume : PendingApproval → e.SigningKey → Call
    back_to : AgentId → Call
    roll_back : Veh → AgentId → Text → Call

module _ ⦃e : Env⦄ (store : LineageStore) where
  open store use {State}

  -- The ledger after a call, whether it succeeded or not.
  unfoldable pub perform : Call → State → State
  perform (root veh artifact scope at) s = (commit_root store veh artifact scope at s).1
  perform (cycle veh c) s = (run_cycle store veh c s).1
  perform (resume p key) s = (resume_with_approval store p key s).1
  perform (back_to id) s = (rollback_to store id s).1
  perform (roll_back veh id at) s = (commit_rollback store veh id at s).1

  unfoldable pub perform_all : List Call → State → State
  unfolding perform
  perform_all [] s = s
  perform_all (call ∷ calls) s = perform_all calls (perform call s)

module _ ⦃e : Env⦄ (store : LineageStore) (laws : IsLineageStore store) where
  open store use {State}
  open laws use {IsValid, view}

  module _ (veh : Veh) (c : CycleInputs) where
    decide-IsValid :
        (d : Text) (ev : EvalResult) (decision : PolicyDecision) (s : State)
        → IsValid s
        → IsValid (decide store veh c d ev decision s).1
    unfolding decide commit_promoted commit_rejected
    decide-IsValid d ev approve s v =
        proceed-pure IsValid _ _ _
          (sign_and_append-IsValid store laws (promoted_inputs c d ev) veh.signing_key s v)
    decide-IsValid d ev (deny why) s v =
        proceed-pure IsValid _ _ _
          (sign_and_append-IsValid store laws (rejected_inputs c d ev) veh.signing_key s v)
    decide-IsValid d ev (require_approval why) s v = v

    gate-IsValid :
        (d : Text) (ev : EvalResult) (short : Option Text) (s : State)
        → IsValid s
        → IsValid (gate store veh c d ev short s).1
    unfolding gate commit_rejected
    gate-IsValid d ev none s v = decide-IsValid d ev _ s v
    gate-IsValid d ev (some why) s v =
        proceed-pure IsValid _ _ _
          (sign_and_append-IsValid store laws (rejected_inputs c d ev) veh.signing_key s v)

    run_cycle-IsValid : (s : State) → IsValid s → IsValid (run_cycle store veh c s).1
    unfolding run_cycle
    run_cycle-IsValid s v = elim (Result-cases (manifest_diff c.parent.artifact c.candidate)) [
      | inr (x, p) ↦ rw (p, run_cycle) v
      | inl (d, p) ↦ elim (Result-cases (veh.evaluator.evaluate c.candidate)) [
        | inr (x, q) ↦ rw (p, q, run_cycle) v
        | inl (ev, q) ↦ rw (p, q, run_cycle) (gate-IsValid d ev (fr5 veh c ev) s v)
      ]
    ]

    pub run_cycle-Moves : (s : State) → IsValid s → Moves store laws s (run_cycle store veh c s).1
    run_cycle-Moves s v = record {
      valid = run_cycle-IsValid s v;
      step = Step-Cycles veh c _ _ _ (run_cycle-Cycles store laws veh c s v);
    }

  pub commit_rollback-Moves :
      (veh : Veh) (id : AgentId) (at : Text) (s : State)
      → IsValid s
      → Moves store laws s (commit_rollback store veh id at s).1
  unfolding rollback_inputs
  commit_rollback-Moves veh id at s v = elim (commit_rollback_cases store laws veh id at s v) [
    | inl (x, p, q) ↦ rw q (record { valid = v; step = stay refl })
    | inr (target, parent, p, q) ↦ rw q (
        sign_and_append-Moves store laws (rollback_inputs parent target id at) veh.signing_key s
          refl v)
  ]

  -- Every call of the runner is one step of the protocol, whether it succeeds or fails.
  pub perform-Moves :
      (call : Call) (s : State) → IsValid s → Moves store laws s (perform store call s)
  unfolding perform
  perform-Moves (root veh artifact scope at) s v =
      commit_root-Moves store laws veh artifact scope at s v
  perform-Moves (cycle veh c) s v = run_cycle-Moves veh c s v
  perform-Moves (resume p key) s v = resume-Moves store laws p key s v
  perform-Moves (back_to id) s v = rollback_to-Moves store laws id s v
  perform-Moves (roll_back veh id at) s v = commit_rollback-Moves veh id at s v

  -- What a history has kept.
  pub record IsHistory (l l' : Lineage) : Type 0 where
    pub sound : IsSound l'
    pub extends : Extends l l'

  -- On a store that keeps the laws of the trait, with what the cryptography promises, any calls
  -- of any runners, with any evaluators, gates and keys, take a valid state with a sound ledger
  -- to a sound ledger: every node verifies, identifiers are unique, exactly the promoted nodes
  -- can be parents, and the head is a promoted node, or there is none where nothing was
  -- promoted. The nodes that were there stay, in their order.
  pub perform_all-IsHistory :
      (c : IsCrypto) (calls : List Call) (s : State)
      → IsValid s
      → IsSound (view s)
      → IsHistory (view s) (view (perform_all store calls s))
  unfolding perform_all
  perform_all-IsHistory c [] s v h = record {
    sound = h;
    extends = Step-Extends (stay {l = view s} refl);
  }
  perform_all-IsHistory c (call ∷ calls) s v h =
      let m = perform-Moves call s v in
      let r =
        perform_all-IsHistory c calls (perform store call s) m.valid (Step-IsSound c m.step h) in
      record {
        sound = r.sound;
        extends =
            Extends-trans (view s) (view (perform store call s))
              (view (perform_all store calls (perform store call s))) (Step-Extends m.step)
              r.extends;
      }
