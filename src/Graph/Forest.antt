-- ===== src/Graph/Forest.antt =====
-- The lineage as a forest: what every node says of its parent and of its depth (src/graph.rs).
use rig_veh.Prelude.{
  length, length-append, ◌<◌, ℕ, suc, ◌%◌, ◌^◌, List, [], ◌∷◌, ◌++◌, append_assoc, append-nil,
  Option, none, some, ok, err, ◌==◌, find, find-append_some, All, All-append, All_find, ◌≡◌, refl,
  ◌∙◌, arith, Result,
}
use rig_veh.Host.{Env}
use rig_veh.Error.{Error}
use rig_veh.Node.{AgentId, AgentNode, next_generation}
use rig_veh.Identity.{CommitInputs, seal}
use rig_veh.Identity.RoundTrip.{sign_node-eq_ok}
use rig_veh.Ledger.View.{Lineage}
use rig_veh.Graph.Commit.{Commits}

module _ ⦃e : Env⦄ where
  -- The node with this identifier.
  abbrev pub lookup : AgentId → List AgentNode → Option AgentNode
  lookup id = find (λ m. m.agent_id == id)

  -- Without a parent the generation is 0; else the parent stands among these nodes, and the
  -- generation is the next one, as a u32.
  abbrev pub Placed : List AgentNode → ℕ → Option AgentId → Type 0
  Placed before generation none = generation ≡ 0
  Placed before generation (some id) =
      (m : AgentNode) × (lookup id before ≡ some m) × (generation ≡ next_generation m.generation)

  -- Every node is placed among those before it.
  abbrev pub Planted : List AgentNode → List AgentNode → Type 0
  Planted before [] = Unit
  Planted before (n ∷ ns) = Placed before n.generation n.parent_id × Planted (before ++ n ∷ []) ns

  -- So many steps from parent to parent lead from a node to one without a parent.
  pub data Descends (ns : List AgentNode) : AgentNode → ℕ → Type 0 where
    founder : (n : AgentNode) → n.parent_id ≡ none → Descends ns n 0
    child :
        (n m : AgentNode) (id : AgentId) (d : ℕ)
        → n.parent_id ≡ some id
        → lookup id ns ≡ some m
        → Descends ns m d
        → Descends ns n (suc d)

  -- The parents of a node lead to a founder in fewer than `k` steps, and its generation counts
  -- them, as a u32.
  abbrev pub HasDepth : List AgentNode → ℕ → AgentNode → Type 0
  HasDepth ns k n = (d : ℕ) × Descends ns n d × (n.generation ≡ d % 2 ^ 32) × (d < k)

  Planted-append :
      (before ns : List AgentNode) (n : AgentNode)
      → Planted before ns
      → Placed (before ++ ns) n.generation n.parent_id
      → Planted before (ns ++ n ∷ [])
  Planted-append before [] n h p = (rw append-nil at p, tt)
  Planted-append before (m ∷ ns) n h p =
      (h.0, Planted-append (before ++ m ∷ []) ns n h.1 (rw (append_assoc before (m ∷ []) ns) p))

  HasDepth-Placed :
      (before rest : List AgentNode) (n : AgentNode) (generation : ℕ) (parent : Option AgentId)
      → n.generation ≡ generation
      → n.parent_id ≡ parent
      → All (HasDepth (before ++ rest) (length before)) before
      → Placed before generation parent
      → HasDepth (before ++ rest) (suc (length before)) n
  unfolding next_generation
  HasDepth-Placed before rest n generation none g p h q = (0, founder n p, g ∙ q, omega arith)
  HasDepth-Placed before rest n generation (some id) g p h (m, found, q) =
      let (d, chain, r, small) =
        All_find (HasDepth (before ++ rest) (length before)) _ before m h found in
      (
        suc d,
        child n m id d p (find-append_some (λ k. k.agent_id == id) before rest m found) chain,
        omega (arith, g, q, r),
        omega arith,
      )

  HasDepth-suc :
      (ns : List AgentNode) (k : ℕ) (ms : List AgentNode)
      → All (HasDepth ns k) ms
      → All (HasDepth ns (suc k)) ms
  HasDepth-suc ns k [] h = tt
  HasDepth-suc ns k (m ∷ ms) ((d, chain, r, small), hs) =
      ((d, chain, r, omega arith), HasDepth-suc ns k ms hs)

  Planted-HasDepth :
      (before ns : List AgentNode)
      → All (HasDepth (before ++ ns) (length before)) before
      → Planted before ns
      → All (HasDepth (before ++ ns) (length (before ++ ns))) (before ++ ns)
  Planted-HasDepth before [] h p = rw append-nil (rw append-nil at h)
  Planted-HasDepth before (n ∷ ns) h p =
      let whole = before ++ n ∷ ns in
      let here = HasDepth-Placed before (n ∷ ns) n n.generation n.parent_id refl refl h p.0 in
      let k = suc (length before) in
      let e = append_assoc before (n ∷ []) ns in
      let longer : length (before ++ n ∷ []) ≡ k = omega (arith, length-append before (n ∷ [])) in
      let up =
        All-append (HasDepth whole k) before (n ∷ []) (HasDepth-suc whole (length before) before h)
          (here, tt) in
      rw e at (Planted-HasDepth (before ++ n ∷ []) ns (rw (e, longer) up) p.1)

  pub record IsForest (l : Lineage) : Type 0 where
    pub planted : Planted [] l.nodes
    pub depths : All (HasDepth l.nodes (length l.nodes)) l.nodes

  pub Planted-IsForest : (l : Lineage) → Planted [] l.nodes → IsForest l
  Planted-IsForest l p = record { planted = p; depths = Planted-HasDepth [] l.nodes tt p }

  -- A commit whose inputs are placed in the ledger keeps it planted.
  pub Commits-Planted :
      (inputs : CommitInputs) (key : e.SigningKey) (l : Lineage) (r : Result Error AgentNode)
      (l' : Lineage)
      → Placed l.nodes inputs.generation inputs.parent_id
      → Commits inputs key l r l'
      → Planted [] l.nodes
      → Planted [] l'.nodes
  unfolding seal
  Commits-Planted inputs key l (ok n) l' p (signed, fresh, q) h =
      let (payload, k, s) = sign_node-eq_ok inputs key n signed in
      rw (q, s) (Planted-append [] l.nodes (seal inputs key payload) h p)
  Commits-Planted inputs key l (err x) l' p q h = rw q h
