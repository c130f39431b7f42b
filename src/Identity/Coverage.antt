-- ===== src/Identity/Coverage.antt =====
-- What `verify_node` leaves out: `CommitInputs` carries no SBOM, so the one recorded on the node is
-- neither hashed nor compared with the artifact's (src/identity.rs).
use rig_veh.Prelude.{List, Text, ◌≡◌, refl}
use rig_veh.Host.{Env}
use rig_veh.Node.{AgentNode}
use rig_veh.Identity.{verify_node}

module _ ⦃e : Env⦄ where
  -- Replacing the recorded SBOM of a node by any other list does not change what `verify_node`
  -- returns.
  pub verify_node-any_sbom :
      (n : AgentNode) (sbom : List Text)
      → verify_node (record n { capability_sbom = sbom }) ≡ verify_node n
  unfolding verify_node
  verify_node-any_sbom n sbom = refl
