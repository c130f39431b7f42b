-- ===== src/Artifact/Sbom.antt =====
-- The capability SBOM as a set (`AgentArtifact::capability_sbom` of src/artifact.rs).
use rig_veh.Prelude.{Text, text, map, ◌++◌, ◌≡◌, ◌↔◌, inl, inr}
use rig_veh.Prelude.Member.{In, In-append_of, append-In_left, append-In_right, In-map_of, map-In}
use rig_veh.Prelude.Order.Sorted.{Ascends, dedup-sort-Ascends}
use rig_veh.Prelude.Order.Members.{In-dedup-sort_iff, Ascends-unique}
use rig_veh.Host.{Env, ToolSpec, local}
use rig_veh.Artifact.{AgentArtifact, tool_capability, collect_capabilities, capability_sbom}

module _ ⦃e : Env⦄ where
  -- The capabilities that a manifest declares.
  pub data Declares (m : e.Manifest) : Text → Type 0 where
    tool : (name : Text) → In (local name) (e.tools m) → Declares m (text "tool:" ++ name)
    mcp_server : (name : Text) → In name (e.mcp_servers m) → Declares m (text "mcp:" ++ name)
    delegate : (name : Text) → In name (e.delegates m) → Declares m (text "delegate:" ++ name)

  tool-Declares :
      (m : e.Manifest) (c : Text) (spec : ToolSpec)
      → In spec (e.tools m)
      → c ≡ tool_capability spec
      → Declares m c
  tool-Declares m c (local name) k p = rw p (tool name k)

  collected-Declares : (m : e.Manifest) (c : Text) → In c (collect_capabilities m) → Declares m c
  unfolding collect_capabilities
  collected-Declares m c k = elim (In-append_of (map tool_capability (e.tools m)) _ k) [
    | inl t ↦
        let (spec, l, p) = In-map_of tool_capability (e.tools m) t in tool-Declares m c spec l p
    | inr k' ↦ elim (In-append_of (map (λ name. text "mcp:" ++ name) (e.mcp_servers m)) _ k') [
      | inl t ↦
          let (name, l, p) = In-map_of (λ name. text "mcp:" ++ name) (e.mcp_servers m) t in
          rw p (mcp_server name l)
      | inr t ↦
          let (name, l, p) = In-map_of (λ name. text "delegate:" ++ name) (e.delegates m) t in
          rw p (delegate name l)
    ]
  ]

  Declares-collected : (m : e.Manifest) (c : Text) → Declares m c → In c (collect_capabilities m)
  unfolding collect_capabilities
  Declares-collected m c (tool name k) =
      append-In_left (map tool_capability (e.tools m)) _ (map-In tool_capability (e.tools m) k)
  Declares-collected m c (mcp_server name k) =
      append-In_right (map tool_capability (e.tools m)) _
        (append-In_left _ _ (map-In (λ name. text "mcp:" ++ name) (e.mcp_servers m) k))
  Declares-collected m c (delegate name k) = append-In_right (map tool_capability (e.tools m)) _ (
      append-In_right (map (λ name. text "mcp:" ++ name) (e.mcp_servers m)) _
        (map-In (λ name. text "delegate:" ++ name) (e.delegates m) k))

  -- The SBOM of an artifact is strictly ascending, so without repetitions, and lists exactly
  -- `tool:` with the name of a local tool, `mcp:` with that of an MCP server, and `delegate:` with
  -- that of a delegate of its manifest.
  pub capability_sbom-Ascends :
      (a : AgentArtifact)
      → Ascends (capability_sbom a)
        × ((c : Text) → In c (capability_sbom a) ↔ Declares a.manifest c)
  unfolding capability_sbom
  capability_sbom-Ascends a = (
    dedup-sort-Ascends (collect_capabilities a.manifest),
    λ c.
        let sorted = In-dedup-sort_iff c (collect_capabilities a.manifest) in
        (
          λ m. collected-Declares a.manifest c (sorted.0 m),
          λ d. sorted.1 (Declares-collected a.manifest c d),
        ),
  )

  -- Two artifacts that declare the same capabilities, in whatever order and however often, have
  -- the same SBOM.
  pub capability_sbom-same :
      (a b : AgentArtifact)
      → ((c : Text) → Declares a.manifest c ↔ Declares b.manifest c)
      → capability_sbom a ≡ capability_sbom b
  capability_sbom-same a b same =
      let (p, ma) = capability_sbom-Ascends a in
      let (q, mb) = capability_sbom-Ascends b in
      Ascends-unique (capability_sbom a) (capability_sbom b) p q
        (λ c m. (mb c).1 ((same c).0 ((ma c).0 m))) (λ c m. (ma c).1 ((same c).1 ((mb c).0 m)))
