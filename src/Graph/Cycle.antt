-- ===== src/Graph/Cycle.antt =====
-- What one evolutionary cycle does, on every path (`Veh::run_cycle` of src/graph.rs).
use rig_veh.Prelude.{
  Option, none, some, Text, ok, err, Result, Result-cases, ◌≡◌, refl, ◌⊎◌, inl, inr,
}
use rig_veh.Prelude.Exec.{pure, proceed}
use rig_veh.Error.{Error}
use rig_veh.Host.{Env}
use rig_veh.Evaluator.{EvalResult, recorded_score}
use rig_veh.Artifact.{capability_sbom}
use rig_veh.Diff.{manifest_diff}
use rig_veh.Policy.{PolicyDecision, approve, deny, require_approval}
use rig_veh.Ledger.View.{Lineage}
use rig_veh.Ledger.Store.{LineageStore, IsLineageStore}
use rig_veh.Graph.Runner.{Veh, CycleInputs, CycleOutcome, promoted, rejected, awaiting_approval}
use rig_veh.Graph.Operations.{
  promoted_inputs, rejected_inputs, shortfall, pending, commit_promoted, commit_rejected, decide,
  gate, run_cycle,
}
use rig_veh.Graph.Commit.{Commits, sign_and_append-Commits}

module _ ⦃e : Env⦄ (veh : Veh) (c : CycleInputs) where
  -- The diff and the evaluation that the cycle went by.
  abbrev pub Measured : Text → EvalResult → Type 0
  Measured d ev =
      (manifest_diff c.parent.artifact c.candidate ≡ ok d)
      × (veh.evaluator.evaluate c.candidate ≡ ok ev)

  -- The FR-5 check on this evaluation.
  abbrev pub fr5 : EvalResult → Option Text
  fr5 ev = shortfall veh.require_strict_improvement (recorded_score c.parent.eval_results) ev.score

  abbrev pub verdict : PolicyDecision
  verdict = veh.policy c.parent c.intent (capability_sbom c.candidate)

  -- What a cycle from the lineage `l` to `l'` has done, by its result.
  abbrev pub Cycles : Lineage → Result Error CycleOutcome → Lineage → Type 0
  Cycles l (ok (promoted n ev)) l' =
      (d : Text) × Measured d ev
      × (fr5 ev ≡ none)
      × (verdict ≡ approve)
      × Commits (promoted_inputs c d ev) veh.signing_key l (ok n) l'
  Cycles l (ok (rejected n why)) l' =
      (d : Text) × (ev : EvalResult) × Measured d ev
      × ((fr5 ev ≡ some why) ⊎ (fr5 ev ≡ none) × (verdict ≡ deny why))
      × Commits (rejected_inputs c d ev) veh.signing_key l (ok n) l'
  Cycles l (ok (awaiting_approval p)) l' =
      (d : Text) × (ev : EvalResult) × Measured d ev
      × (fr5 ev ≡ none)
      × (verdict ≡ require_approval p.decision_reason)
      × (p ≡ pending c d ev p.decision_reason)
      × (l' ≡ l)
  Cycles l (err x) l' = l' ≡ l

module _ ⦃e : Env⦄ (store : LineageStore) (laws : IsLineageStore store) (veh : Veh)
    (c : CycleInputs) where
  open store use {State}
  open laws use {IsValid, view}

  module _ (d : Text) (ev : EvalResult) (measured : Measured veh c d ev) (s : State)
      (v : IsValid s) where
    -- A rejection, for either reason.
    rejects :
        (why : Text)
        → (fr5 veh c ev ≡ some why) ⊎ (fr5 veh c ev ≡ none) × (verdict veh c ≡ deny why)
        → (r : Result Error _) (s' : State)
        → Commits (rejected_inputs c d ev) veh.signing_key (view s) r (view s')
        → Cycles veh c
            (view s)
            (proceed r (λ n. pure (rejected n why)) s').0
            (view (proceed r (λ n. pure (rejected n why)) s').1)
    rejects why reason (ok n) s' h = (d, ev, measured, reason, h)
    rejects why reason (err x) s' h = h

    promotes :
        fr5 veh c ev ≡ none
        → verdict veh c ≡ approve
        → (r : Result Error _) (s' : State)
        → Commits (promoted_inputs c d ev) veh.signing_key (view s) r (view s')
        → Cycles veh c
            (view s)
            (proceed r (λ n. pure (promoted n ev)) s').0
            (view (proceed r (λ n. pure (promoted n ev)) s').1)
    promotes enough approved (ok n) s' h = (d, measured, enough, approved, h)
    promotes enough approved (err x) s' h = h

    decides :
        fr5 veh c ev ≡ none
        → (decision : PolicyDecision) → verdict veh c ≡ decision
        → Cycles veh c
            (view s)
            (decide store veh c d ev decision s).0
            (view (decide store veh c d ev decision s).1)
    unfolding decide commit_promoted commit_rejected pending
    decides enough approve p =
        promotes enough p _ _
          (sign_and_append-Commits store laws (promoted_inputs c d ev) veh.signing_key s v)
    decides enough (deny why) p =
        rejects why (inr (enough, p)) _ _
          (sign_and_append-Commits store laws (rejected_inputs c d ev) veh.signing_key s v)
    decides enough (require_approval why) p = (d, ev, measured, enough, p, refl, refl)

    gates :
        (short : Option Text)
        → fr5 veh c ev ≡ short
        → Cycles veh c
            (view s)
            (gate store veh c d ev short s).0
            (view (gate store veh c d ev short s).1)
    unfolding gate commit_rejected
    gates none p = decides p (verdict veh c) refl
    gates (some why) p =
        rejects why (inl p) _ _
          (sign_and_append-Commits store laws (rejected_inputs c d ev) veh.signing_key s v)

  -- One cycle from a valid state of a store that keeps the laws of the trait. A promoted
  -- candidate passed the FR-5 check and the gate, and its signed node, new to the ledger, was
  -- appended as the head; a rejected one failed the check or was denied, and its node was
  -- appended; where the gate asks for approval, or on any error, the ledger is as it was.
  pub run_cycle-Cycles :
      (s : State)
      → IsValid s
      → Cycles veh c (view s) (run_cycle store veh c s).0 (view (run_cycle store veh c s).1)
  unfolding run_cycle
  run_cycle-Cycles s v = elim (Result-cases (manifest_diff c.parent.artifact c.candidate)) [
    | inr (x, p) ↦ rw (p, run_cycle) refl
    | inl (d, p) ↦ elim (Result-cases (veh.evaluator.evaluate c.candidate)) [
      | inr (x, q) ↦ rw (p, q, run_cycle) refl
      | inl (ev, q) ↦ rw (p, q, run_cycle) (gates d ev (p, q) s v (fr5 veh c ev) refl)
    ]
  ]
