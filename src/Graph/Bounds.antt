-- ===== src/Graph/Bounds.antt =====
-- The generations of a lineage that is not too long for them (src/graph.rs).
use rig_veh.Prelude.{
  length, ◌<◌, ℕ, suc, ◌^◌, List, [], ◌∷◌, ◌++◌, append_assoc, Option, none, some, ◌==◌,
  find-append_some, All, All_find, ◌≡◌, arith,
}
use rig_veh.Host.{Env}
use rig_veh.Node.{AgentId, AgentNode, next_generation}
use rig_veh.Ledger.View.{Lineage}
use rig_veh.Ledger.Store.{LineageStore, IsLineageStore}
use rig_veh.Graph.Forest.{lookup, Placed, Planted, HasDepth, IsForest}
use rig_veh.Graph.Soundness.{Call, perform_all}
use rig_veh.Graph.Ancestry.{AllNamed, perform_all-IsForest}

module _ ⦃e : Env⦄ where
  -- A founder has generation 0, and a child the generation of its parent and one, with no wrap.
  abbrev pub Counts : List AgentNode → ℕ → Option AgentId → Type 0
  Counts ns generation none = generation ≡ 0
  Counts ns generation (some id) =
      (m : AgentNode) × (lookup id ns ≡ some m) × (generation ≡ suc m.generation)

  abbrev pub IsCounted : List AgentNode → AgentNode → Type 0
  IsCounted ns n = (n.generation < length ns) × Counts ns n.generation n.parent_id

  HasDepth-small :
      (ns : List AgentNode) (n : AgentNode)
      → length ns < 2 ^ 32
      → HasDepth ns (length ns) n
      → n.generation < length ns
  HasDepth-small ns n small (d, chain, p, h) = omega (arith, p)

  Placed-Counts :
      (before rest : List AgentNode) (generation : ℕ) (parent : Option AgentId)
      → length (before ++ rest) < 2 ^ 32
      → All (HasDepth (before ++ rest) (length (before ++ rest))) (before ++ rest)
      → Placed before generation parent
      → Counts (before ++ rest) generation parent
  unfolding next_generation
  Placed-Counts before rest generation none small h p = p
  Placed-Counts before rest generation (some id) small h (m, found, p) =
      let whole = before ++ rest in
      let later = find-append_some (λ k. k.agent_id == id) before rest m found in
      let depth = All_find (HasDepth whole (length whole)) _ whole m h later in
      let low = HasDepth-small whole m small depth in (m, later, omega (arith, p))

  Planted-Counts :
      (before rest : List AgentNode)
      → length (before ++ rest) < 2 ^ 32
      → All (HasDepth (before ++ rest) (length (before ++ rest))) (before ++ rest)
      → Planted before rest
      → All (λ n. Counts (before ++ rest) n.generation n.parent_id) rest
  Planted-Counts before [] small h p = tt
  Planted-Counts before (n ∷ ns) small h p =
      let e = append_assoc before (n ∷ []) ns in
      (
        Placed-Counts before (n ∷ ns) n.generation n.parent_id small h p.0,
        rw e at (Planted-Counts (before ++ n ∷ []) ns (rw e small) (rw e h) p.1),
      )

  All-IsCounted :
      (whole ns : List AgentNode)
      → length whole < 2 ^ 32
      → All (HasDepth whole (length whole)) ns
      → All (λ n. Counts whole n.generation n.parent_id) ns
      → All (IsCounted whole) ns
  All-IsCounted whole [] small h c = tt
  All-IsCounted whole (n ∷ ns) small h c =
      ((HasDepth-small whole n small h.0, c.0), All-IsCounted whole ns small h.1 c.1)

  pub IsForest-IsCounted :
      (l : Lineage) → IsForest l → length l.nodes < 2 ^ 32 → All (IsCounted l.nodes) l.nodes
  IsForest-IsCounted l h small =
      All-IsCounted l.nodes l.nodes small h.depths
        (Planted-Counts [] l.nodes small h.depths h.planted)

module _ ⦃e : Env⦄ (store : LineageStore) (laws : IsLineageStore store) where
  open store use {State}
  open laws use {IsValid, view}

  -- On a store that keeps the laws of the trait, from a valid state whose lineage is a forest,
  -- after calls whose cycles and approvals name a parent from the ledger that they find, no
  -- generation has wrapped if there are then fewer than 2 ^ 32 nodes: a node without a parent has
  -- generation 0, every other node the generation of its parent and one, and every generation is
  -- smaller than the number of nodes.
  pub perform_all-IsCounted :
      (calls : List Call) (s : State)
      → IsValid s
      → AllNamed store laws calls s
      → IsForest (view s)
      → let ns = (view (perform_all store calls s)).nodes in
        length ns < 2 ^ 32 → All (IsCounted ns) ns
  perform_all-IsCounted calls s v named h small =
      IsForest-IsCounted (view (perform_all store calls s))
        (perform_all-IsForest store laws calls s v named h) small
