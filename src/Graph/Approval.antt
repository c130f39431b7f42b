-- ===== src/Graph/Approval.antt =====
-- The pause for an out-of-band approval (`PendingApproval` and `resume_with_approval` of
-- src/graph.rs).
use rig_veh.Prelude.{ok, Text, ◌≡◌, refl, ap, ◌∙◌}
use rig_veh.Host.{Env}
use rig_veh.Evaluator.{EvalResult}
use rig_veh.Policy.{require_approval}
use rig_veh.Ledger.Store.{LineageStore, IsLineageStore}
use rig_veh.Graph.Runner.{Veh, CycleInputs, awaiting_approval, PendingApproval}
use rig_veh.Graph.Operations.{
  promoted_inputs, approved_inputs, pending, run_cycle, resume_with_approval, sign_and_append,
}
use rig_veh.Graph.Cycle.{Measured, verdict, Cycles, run_cycle-Cycles}

module _ ⦃e : Env⦄ (store : LineageStore) (laws : IsLineageStore store) (veh : Veh)
    (c : CycleInputs) where
  open store use {State}
  open laws use {IsValid, view}

  -- A pending approval holds all of what an approval would have committed.
  approved-pending :
      (d : Text) (ev : EvalResult) (why : Text)
      → approved_inputs (pending c d ev why) ≡ promoted_inputs c d ev
  unfolding approved_inputs pending promoted_inputs
  approved-pending d ev why = refl

  -- From a valid state, a cycle that pauses leaves the ledger alone, and resuming it later, on
  -- any ledger and with any key, commits exactly what the approved cycle would have committed,
  -- signed with that key.
  pub resume-run_cycle :
      (s s' t : State) (p : PendingApproval) (key : e.SigningKey)
      → IsValid s
      → run_cycle store veh c s ≡ (ok (awaiting_approval p), s')
      → (d : Text) × (ev : EvalResult) × Measured veh c d ev
        × (verdict veh c ≡ require_approval p.decision_reason)
        × (view s' ≡ view s)
        × (resume_with_approval store p key t
            ≡ sign_and_append store (promoted_inputs c d ev) key t)
  unfolding resume_with_approval
  resume-run_cycle s s' t p key v h =
      let (d, ev, measured, enough, asks, same, kept) =
        cycled (run_cycle-Cycles store laws veh c s v) in
      (
        d,
        ev,
        measured,
        asks,
        kept,
        ap (λ i. sign_and_append store i key t)
            (ap approved_inputs same ∙ approved-pending d ev p.decision_reason),
      )
    where
      cycled :
          Cycles veh c (view s) (run_cycle store veh c s).0 (view (run_cycle store veh c s).1)
          → Cycles veh c (view s) (ok (awaiting_approval p)) (view s')
      cycled k = rw h at k
