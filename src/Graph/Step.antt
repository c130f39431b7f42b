-- ===== src/Graph/Step.antt =====
-- The protocol behind the runner: what a single operation may do to the lineage, and the invariant
-- that every such step keeps.
use rig_veh.Prelude.{
  true, false, List, [], ◌∷◌, ◌++◌, Option, none, some, ok, ◌==◌, ==_iff, ==_refl, find, All,
  All-append, find-append_some, find-append_none, any-append, ◌≡◌, refl, arith, Bool-cases, inl,
  inr, append_assoc, append-nil, sym,
}
use rig_veh.Host.{Env, IsCrypto}
use rig_veh.Node.{AgentId, AgentNode, is_promoted}
use rig_veh.Identity.{CommitInputs, sign_node, verify_node, seal}
use rig_veh.Identity.RoundTrip.{verify-sign_node, sign_node-eq_ok}
use rig_veh.Ledger.View.{Lineage, push, has}

module _ ⦃e : Env⦄ where
  pub data Step : Lineage → Lineage → Type 0 where
    -- nothing happens
    stay : {l l' : Lineage} → l' ≡ l → Step l l'
    -- a freshly signed node is appended; it can be a parent exactly if it is promoted
    commit :
        {l l' : Lineage} (inputs : CommitInputs) (key : e.SigningKey) (n : AgentNode)
        → sign_node inputs key ≡ ok n
        → inputs.valid_parent ≡ is_promoted inputs.status
        → has n.agent_id l.nodes ≡ false
        → l' ≡ push n l
        → Step l l'
    -- the head moves to a node that is there, verifies and is promoted
    revert :
        {l l' : Lineage} (id : AgentId) (n : AgentNode)
        → find (λ m. m.agent_id == id) l.nodes ≡ some n
        → verify_node n ≡ ok tt
        → is_promoted n.status ≡ true
        → l' ≡ record l { head = some id }
        → Step l l'

  abbrev pub Unique : List AgentNode → Type 0
  Unique [] = Unit
  Unique (n ∷ ns) = (has n.agent_id ns ≡ false) × Unique ns

  -- The head is a promoted node of the ledger; there is none only where nothing was promoted.
  abbrev pub HeadIsPromoted : List AgentNode → Option AgentId → Type 0
  HeadIsPromoted ns none = All (λ n. is_promoted n.status ≡ false) ns
  HeadIsPromoted ns (some id) =
      (n : AgentNode) × (find (λ m. m.agent_id == id) ns ≡ some n) × (is_promoted n.status ≡ true)

  pub record IsSound (l : Lineage) : Type 0 where
    pub verified : All (λ n. verify_node n ≡ ok tt) l.nodes
    pub eligible : All (λ n. n.valid_parent ≡ is_promoted n.status) l.nodes
    pub unique : Unique l.nodes
    pub headed : HeadIsPromoted l.nodes l.head

  pub IsSound-empty : IsSound (record { nodes = []; head = none })
  IsSound-empty = record { verified = tt; eligible = tt; unique = tt; headed = tt }

  Unique-append :
      (ns : List AgentNode) (n : AgentNode)
      → Unique ns
      → has n.agent_id ns ≡ false
      → Unique (ns ++ n ∷ [])
  Unique-append [] n u h = (refl, tt)
  Unique-append (m ∷ ns) n u h = (
    rw (any-append (λ k. k.agent_id == m.agent_id) ns (n ∷ []), u.0)
        (ground (arith, ==_iff n.agent_id m.agent_id, ==_iff m.agent_id n.agent_id)),
    Unique-append ns n u.1 (ground arith),
  )

  -- The node that was appended is found under its identifier.
  find-push :
      (ns : List AgentNode) (n : AgentNode)
      → has n.agent_id ns ≡ false
      → find (λ m. m.agent_id == n.agent_id) (ns ++ n ∷ []) ≡ some n
  find-push ns n h =
      rw (find-append_none (λ m. m.agent_id == n.agent_id) ns (n ∷ []) h, ==_refl n.agent_id)

  HeadIsPromoted-append :
      (ns : List AgentNode) (n : AgentNode)
      → is_promoted n.status ≡ false
      → (head : Option AgentId) → HeadIsPromoted ns head
      → HeadIsPromoted (ns ++ n ∷ []) head
  HeadIsPromoted-append ns n t none h = All-append _ ns (n ∷ []) h (t, tt)
  HeadIsPromoted-append ns n t (some id) (m, p, q) =
      (m, find-append_some (λ k. k.agent_id == id) ns (n ∷ []) m p, q)

  HeadIsPromoted-push :
      (l : Lineage) (n : AgentNode)
      → has n.agent_id l.nodes ≡ false
      → HeadIsPromoted l.nodes l.head
      → HeadIsPromoted (push n l).nodes (push n l).head
  HeadIsPromoted-push l n fresh h = elim (Bool-cases (is_promoted n.status)) [
    | inl t ↦ rw t (n, find-push l.nodes n fresh, t)
    | inr t ↦ rw t (HeadIsPromoted-append l.nodes n t l.head h)
  ]

  -- The node that was signed has the inputs' status and flag.
  sealed :
      (inputs : CommitInputs) (key : e.SigningKey) (n : AgentNode)
      → sign_node inputs key ≡ ok n
      → inputs.valid_parent ≡ is_promoted inputs.status
      → n.valid_parent ≡ is_promoted n.status
  unfolding seal
  sealed inputs key n p h = let (payload, q, s) = sign_node-eq_ok inputs key n p in rw s h

module _ ⦃e : Env⦄ (c : IsCrypto) where
  -- Every step keeps the ledger sound.
  pub Step-IsSound : {l l' : Lineage} → Step l l' → IsSound l → IsSound l'
  Step-IsSound (stay p) h = rw p h
  Step-IsSound (commit {l} inputs key n p flag fresh q) h = rw q (record {
    verified = All-append _ l.nodes (n ∷ []) h.verified (verify-sign_node c inputs key n p, tt);
    eligible = All-append _ l.nodes (n ∷ []) h.eligible (sealed inputs key n p flag, tt);
    unique = Unique-append l.nodes n h.unique fresh;
    headed = HeadIsPromoted-push l n fresh h.headed;
  })
  Step-IsSound (revert id n found p status q) h = rw q (record {
    verified = h.verified;
    eligible = h.eligible;
    unique = h.unique;
    headed = (n, found, status);
  })

module _ ⦃e : Env⦄ where
  -- The nodes of the first lineage begin the second.
  abbrev pub Extends : Lineage → Lineage → Type 0
  Extends l l' = (ns : List AgentNode) × (l'.nodes ≡ l.nodes ++ ns)

  pub Step-Extends : {l l' : Lineage} → Step l l' → Extends l l'
  Step-Extends (stay {l} p) = ([], rw p (sym (append-nil l.nodes)))
  Step-Extends (commit inputs key n p flag fresh q) = (n ∷ [], rw q)
  Step-Extends (revert {l} id n found p status q) = ([], rw q (sym (append-nil l.nodes)))

  pub Extends-trans : (l m n : Lineage) → Extends l m → Extends m n → Extends l n
  Extends-trans l m n (xs, p) (ys, q) = (xs ++ ys, rw (q, p) (append_assoc l.nodes xs ys))
