-- ===== src/Ledger/InMemory/Refines.antt =====
-- The in-memory store implements the lineage (src/ledger.rs).
use rig_veh.Prelude.{
  none, false, [], ◌∷◌, some, ◌==◌, ==_iff, any, find, ok, err, ok_or, inl, inr, if◌then◌else◌, ◌≡◌,
  refl, ◌∙◌, arith, any-append, Bool-cases,
}
use rig_veh.Prelude.HashMap
use rig_veh.Prelude.HashMap.{
  HashMap, get-insert, contains_key-insert, get_of_contains_key, contains_key_of_get,
}
use rig_veh.Host.{Env}
use rig_veh.Error
use rig_veh.Node.{AgentId, AgentNode}
use rig_veh.Ledger.View.{Lineage, has, after_append}
use rig_veh.Ledger.Store.{IsLineageStore}
use rig_veh.Ledger.InMemory.Collect.{Keyed, find-collect, has-collect, collect-insert}
use rig_veh.Ledger.InMemory.{
  InMemoryInner, new, append, get, head, set_head, collect, nodes, in_memory,
}

module _ ⦃e : Env⦄ where
  -- The index and the map agree.
  pub record IsValid (s : InMemoryInner) : Type 0 where
    pub keyed : Keyed s.nodes
    pub indexed :
        (id : AgentId) → any (λ j. j == id) s.insertion_order ≡ HashMap.contains_key s.nodes id

  unfoldable pub view : InMemoryInner → Lineage
  view s = record { nodes = collect s.nodes s.insertion_order; head = s.head }

  -- A key is in the map exactly when a node with that identifier is in the lineage.
  has-view :
      (s : InMemoryInner) (id : AgentId)
      → IsValid s
      → has id (view s).nodes ≡ HashMap.contains_key s.nodes id
  unfolding view
  has-view s id v =
      rw (has-collect s.nodes s.insertion_order id v.keyed, v.indexed id)
        (ground (arith, get_of_contains_key s.nodes id, contains_key_of_get s.nodes id))

  pub append-IsValid : (n : AgentNode) (s : InMemoryInner) → IsValid s → IsValid (append n s).1
  unfolding append
  append-IsValid n s v = elim (Bool-cases (HashMap.contains_key s.nodes n.agent_id)) [
    | inl t ↦ rw t v
    | inr t ↦ rw t (record {
      keyed = λ id m p.
          ground (arith, get-insert s.nodes n.agent_id id n, ==_iff n.agent_id id, v.keyed id m);
      indexed = λ id.
          rw
            (
              any-append (λ j. j == id) s.insertion_order (n.agent_id ∷ []),
              v.indexed id,
              contains_key-insert s.nodes n.agent_id id n,
            )
            (ground arith);
    })
  ]

  pub set_head-IsValid : (id : AgentId) (s : InMemoryInner) → IsValid s → IsValid (set_head id s).1
  unfolding set_head
  set_head-IsValid id s v = elim (Bool-cases (HashMap.contains_key s.nodes id)) [
    | inl t ↦ rw t (record { keyed = v.keyed; indexed = v.indexed })
    | inr t ↦ rw t v
  ]

  pub view-append :
      (n : AgentNode) (s : InMemoryInner)
      → IsValid s
      → view (append n s).1 ≡ after_append (append n s).0 n (view s)
  unfolding append view
  view-append n s v = elim (Bool-cases (HashMap.contains_key s.nodes n.agent_id)) [
    | inl t ↦ rw t refl
    | inr t ↦ rw (t, collect-insert s.nodes s.insertion_order n (v.indexed n.agent_id ∙ t)) refl
  ]

  pub get-view :
      (id : AgentId) (s : InMemoryInner)
      → IsValid s
      → get id s ≡ ok_or (Error.not_found id) (find (λ n. n.agent_id == id) (view s).nodes)
  unfolding get view
  get-view id s v =
      rw (find-collect s.nodes s.insertion_order id v.keyed, v.indexed id)
        (ground (arith, get_of_contains_key s.nodes id))

  pub head-view : (s : InMemoryInner) → head s ≡ ok (view s).head
  unfolding head view
  head-view s = refl

  pub set_head-result :
      (id : AgentId) (s : InMemoryInner)
      → IsValid s
      → (set_head id s).0 ≡ (if has id (view s).nodes then ok tt else err (Error.not_found id))
  unfolding set_head
  set_head-result id s v = rw (has-view s id v) (ground arith)

  pub view-set_head :
      (id : AgentId) (s : InMemoryInner)
      → IsValid s
      → view (set_head id s).1
        ≡ (if has id (view s).nodes then record (view s) { head = some id } else view s)
  unfolding set_head
  view-set_head id s v = rw (has-view s id v) (unfold view in ground arith)

  pub nodes-view : (s : InMemoryInner) → nodes s ≡ ok (view s).nodes
  unfolding nodes view
  nodes-view s = refl

  pub append_fresh :
      (n : AgentNode) (s : InMemoryInner)
      → IsValid s
      → (append n s).0 ≡ ok tt
      → has n.agent_id (view s).nodes ≡ false
  unfolding append
  append_fresh n s v h = rw (has-view s n.agent_id v) (ground arith)

  pub start-IsValid : IsValid new
  unfolding HashMap.get HashMap.contains_key
  start-IsValid = record { keyed = λ id n p. ground arith; indexed = λ id. refl }

  pub new-view : view new ≡ record { nodes = []; head = none }
  unfolding view collect
  new-view = refl

  unfoldable pub in_memory_laws : IsLineageStore in_memory
  in_memory_laws = record {
    IsValid = IsValid;
    view = view;
    start = new;
    start-IsValid = start-IsValid;
    start_view = new-view;
    append-IsValid = append-IsValid;
    set_head-IsValid = set_head-IsValid;
    view-append = view-append;
    append_fresh = append_fresh;
    get_lem = get-view;
    head_lem = λ s v. head-view s;
    set_head_result = set_head-result;
    view-set_head = view-set_head;
    nodes_lem = λ s v. nodes-view s;
  }

  pub in_memory-IsLineageStore : (laws : IsLineageStore in_memory) × (laws.start ≡ new)
  unfolding in_memory_laws
  in_memory-IsLineageStore = (in_memory_laws, refl)

  pub new-IsValid : in_memory_laws.IsValid new
  unfolding in_memory_laws
  new-IsValid = start-IsValid
