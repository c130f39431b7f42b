-- ===== src/Diff.antt =====
-- src/diff.rs: the diff of two manifests, over `similar`'s unified diff.
use rig_veh.Prelude.{Text, ok, ◌>>=◌}
use rig_veh.Error.{Outcome}
use rig_veh.Host.{Env}
use rig_veh.Artifact.{AgentArtifact, canonical_bytes}

module _ ⦃e : Env⦄ where
  unfoldable pub manifest_diff : AgentArtifact → AgentArtifact → Outcome Text
  manifest_diff parent candidate = do
    parent_bytes ← canonical_bytes parent
    candidate_bytes ← canonical_bytes candidate
    ok (e.unified_diff parent_bytes candidate_bytes)
