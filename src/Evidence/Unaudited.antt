-- ===== src/Evidence/Unaudited.antt =====
-- The nodes that the runner commits carry no evidence bundle (src/graph.rs and src/evidence.rs).
use rig_veh.Prelude.{none, Text, text, Result, ok, err, ◌≡◌, refl, ◌==◌}
use rig_veh.Error.{Error}
use rig_veh.Host.{Env, Json}
use rig_veh.Json.{object, Fields, get_field, field, end}
use rig_veh.Node.{AgentNode}
use rig_veh.Identity.{seal}
use rig_veh.Identity.RoundTrip.{sign_node-eq_ok}
use rig_veh.Evaluator.{EvalResult, eval_to_value}
use rig_veh.Ledger.Store.{LineageStore, IsLineageStore}
use rig_veh.Graph.Runner.{Veh, CycleInputs, promoted}
use rig_veh.Graph.Operations.{run_cycle, promoted_inputs}
use rig_veh.Graph.Cycle.{Cycles, run_cycle-Cycles}
use rig_veh.Evidence.{EvidenceBundle, from_value, from_node}

module _ ⦃e : Env⦄ where
  -- What the derived `Deserialize` promises of an object without the required field `version`.
  pub record NeedsVersion (parse : Json → Result Text EvidenceBundle) : Type 0 where
    pub rejects :
        (fs : Fields e.Number)
        → get_field fs (text "version") ≡ none
        → (why : Text) × (parse (object fs) ≡ err why)

module _ ⦃e : Env⦄ (store : LineageStore) (laws : IsLineageStore store)
    (parse : Json → Result Text EvidenceBundle) where
  open store use {State}
  open laws use {IsValid, view}

  -- No node that a cycle promotes from a valid state can be audited, if the parser of evidence
  -- bundles rejects objects without a version: the `eval_results` of the node are the score and
  -- the details of the evaluation.
  pub run_cycle-unaudited :
      (needs : NeedsVersion parse) (veh : Veh) (c : CycleInputs) (s s' : State) (n : AgentNode)
      (ev : EvalResult)
      → IsValid s
      → run_cycle store veh c s ≡ (ok (promoted n ev), s')
      → (why : Text) × (from_node parse n ≡ err (Error.json why))
  unfolding from_node from_value seal promoted_inputs eval_to_value get_field ◌==◌
  run_cycle-unaudited needs veh c s s' n ev v h =
      let k : Cycles veh c (view s) (ok (promoted n ev)) (view s') =
        rw h at (run_cycle-Cycles store laws veh c s v) in
      let (payload, p, sealed) =
        sign_node-eq_ok (promoted_inputs c k.0 ev) veh.signing_key n k.4.0 in
      let (why, q) =
        needs.rejects
          (field (text "score") (e.f64_to_value ev.score) (field (text "details") ev.details end))
          refl in
      (why, rw (sealed, q) refl)
