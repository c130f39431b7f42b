-- ===== src/Artifact.antt =====
-- src/artifact.rs: the wrapped manifest, its canonical bytes and its capability SBOM.
pub mod Canonical
pub mod Sbom
use rig_veh.Prelude.{List, [], ◌∷◌, ◌++◌, map, Text, Bytes, text, Result, ok, err, map_err, ◌>>=◌}
use rig_veh.Prelude.Order.{sort, dedup}
use rig_veh.Error.{Outcome}
use rig_veh.Error
use rig_veh.Host.{Env, Json, ToolSpec, local}
use rig_veh.Json.Canonical.{always, write_canonical}

abbrev pub tool_capability : ToolSpec → Text
tool_capability (local name) = text "tool:" ++ name

module _ ⦃e : Env⦄ where
  pub record AgentArtifact : Type 0 where
    pub manifest : e.Manifest

  -- `to_string` fails on no text: serde_json fails only where a `Serialize` or a writer does.
  unfoldable pub canonical_json : Json → Outcome Bytes
  unfolding write_canonical
  canonical_json value =
      map_err Error.canonical (write_canonical (always e.escape) e.number_display value)

  -- `AgentArtifact::canonical_bytes`
  unfoldable pub canonical_bytes : AgentArtifact → Outcome Bytes
  canonical_bytes a = do
    value ← map_err Error.json (e.manifest_to_value a.manifest)
    canonical_json value

  -- The three loops of `capability_sbom`, in their order.
  unfoldable pub collect_capabilities : e.Manifest → List Text
  collect_capabilities m =
      map tool_capability (e.tools m)
      ++ (map (λ name. text "mcp:" ++ name) (e.mcp_servers m)
          ++ map (λ name. text "delegate:" ++ name) (e.delegates m))

  unfoldable pub capability_sbom : AgentArtifact → List Text
  unfolding collect_capabilities sort dedup
  capability_sbom a = dedup (sort (collect_capabilities a.manifest))
