-- ===== src/Policy/Forged.antt =====
-- The gate compares a candidate with the SBOM that is recorded on the parent, and `verify_node`
-- does not cover that list (src/policy.rs; src/identity.rs).
use rig_veh.Prelude.{Text, List, ok, ◌≡◌, inl, inr, ◌∙◌}
use rig_veh.Host.{Env}
use rig_veh.Intent.{MutationIntent}
use rig_veh.Node.{AgentNode}
use rig_veh.Identity.{verify_node}
use rig_veh.Identity.Coverage.{verify_node-any_sbom}
use rig_veh.Policy.{approve, evaluate}
use rig_veh.Policy.Decision.{TooDeep, Gated, evaluate_cases}

module _ ⦃e : Env⦄ where
  abbrev pub forged : AgentNode → List Text → AgentNode
  forged n sbom = record n { capability_sbom = sbom }

  -- A verified parent whose recorded SBOM is replaced by the candidate's still verifies, and the
  -- default gate approves the candidate, whatever its capabilities, if it is not too deep and
  -- touches nothing gated.
  pub forged_sbom-approved :
      (n : AgentNode) (intent : MutationIntent) (sbom : List Text)
      → verify_node n ≡ ok tt
      → ¬ TooDeep n intent sbom
      → ¬ Gated n intent sbom
      → (verify_node (forged n sbom) ≡ ok tt) × (evaluate (forged n sbom) intent sbom ≡ approve)
  forged_sbom-approved n intent sbom v shallow ungated = (
    verify_node-any_sbom n sbom ∙ v,
    elim (evaluate_cases (forged n sbom) intent sbom) [
      | inl (r, p, deep) ↦ absurd (shallow deep)
      | inr (inl (r, p, q, inl (c, m, new, out))) ↦ absurd (new m)
      | inr (inl (r, p, q, inr g)) ↦ absurd (ungated g)
      | inr (inr (p, a, b, d)) ↦ p
    ],
  )
