-- ===== src/Ledger/Jsonl/Refines.antt =====
-- The store with a file implements the lineage too (`JsonlLineage` of src/ledger.rs).
use rig_veh.Prelude.{
  false, List, [], ◌∷◌, none, Text, Result, ok, err, inl, inr, ◌≡◌, refl, Bool-cases, Result-cases,
}
use rig_veh.Prelude.HashMap
use rig_veh.Error.{Error}
use rig_veh.Host.{Env}
use rig_veh.Node.{AgentId, AgentNode}
use rig_veh.Ledger.View.{has, after_append}
use rig_veh.Ledger.Store.{IsLineageStore}
use rig_veh.Ledger.InMemory
use rig_veh.Ledger.InMemory.{InMemoryInner, new}
use rig_veh.Ledger.InMemory.Refines.{in_memory_laws, new-IsValid}
use rig_veh.Ledger.Jsonl.{
  Writing, written, create_fails, write_fails, LineFormat, JsonlState, enter, write_line, append,
  set_head, jsonl,
}

module _ ⦃e : Env⦄ (format : LineFormat) where
  open in_memory_laws use {IsValid, view}

  -- What a write does to the maps, by its result.
  pub data Entered (n : AgentNode) (before : InMemoryInner)
      : Result Error (Unit {0}) → InMemoryInner → Type 0 where
    entered :
        HashMap.contains_key before.nodes n.agent_id ≡ false
        → Entered n before (ok tt) (enter n before)
    refused : (x : Error) → Entered n before (err x) before

  Entered-write_line :
      (writing : List Writing) (line : Text) (n : AgentNode) (s : JsonlState)
      → HashMap.contains_key s.inner.nodes n.agent_id ≡ false
      → Entered n s.inner
          (write_line format writing line n s).0
          (write_line format writing line n s).1.inner
  Entered-write_line [] line n s h = entered h
  Entered-write_line (written ∷ next) line n s h = entered h
  Entered-write_line (create_fails why ∷ next) line n s h = refused (Error.io why)
  Entered-write_line (write_fails part why ∷ next) line n s h = refused (Error.io why)

  pub Entered-append :
      (n : AgentNode) (s : JsonlState)
      → Entered n s.inner (append format n s).0 (append format n s).1.inner
  unfolding append
  Entered-append n s = elim (Result-cases (format.to_line n)) [
    | inr (why, p) ↦ rw p (refused (Error.json why))
    | inl (line, p) ↦ elim (Bool-cases (HashMap.contains_key s.inner.nodes n.agent_id)) [
      | inl t ↦ rw (p, t) (refused _)
      | inr t ↦ rw (p, t) (Entered-write_line s.upcoming line n s t)
    ]
  ]

  -- Entering a fresh node is what the in-memory `append` does.
  pub append-enter :
      (n : AgentNode) (s : InMemoryInner)
      → HashMap.contains_key s.nodes n.agent_id ≡ false
      → InMemory.append n s ≡ (ok tt, enter n s)
  unfolding InMemory.append
  append-enter n s h = rw h refl

  pub Entered-IsValid :
      (n : AgentNode) (s : InMemoryInner) (r : Result Error (Unit {0})) (s' : InMemoryInner)
      → IsValid s
      → Entered n s r s'
      → IsValid s'
  Entered-IsValid n s r s' v (entered h) =
      rw (append-enter n s h) at (in_memory_laws.append-IsValid n s v)
  Entered-IsValid n s r s' v (refused x) = v

  pub view-Entered :
      (n : AgentNode) (s : InMemoryInner) (r : Result Error (Unit {0})) (s' : InMemoryInner)
      → IsValid s
      → Entered n s r s'
      → view s' ≡ after_append r n (view s)
  view-Entered n s r s' v (entered h) =
      rw (append-enter n s h) at (in_memory_laws.view-append n s v)
  view-Entered n s r s' v (refused x) = refl

  pub fresh-Entered :
      (n : AgentNode) (s : InMemoryInner) (r : Result Error (Unit {0})) (s' : InMemoryInner)
      → IsValid s
      → Entered n s r s'
      → r ≡ ok tt
      → has n.agent_id (view s).nodes ≡ false
  fresh-Entered n s r s' v (entered h) q =
      in_memory_laws.append_fresh n s v (rw (append-enter n s h))
  fresh-Entered n s r s' v (refused x) q = cc q

  pub set_head-inner :
      (id : AgentId) (s : JsonlState)
      → ((set_head format id s).0 ≡ (InMemory.set_head id s.inner).0)
        × ((set_head format id s).1.inner ≡ (InMemory.set_head id s.inner).1)
  unfolding set_head
  set_head-inner id s = (refl, refl)

  -- The ledger that `open` gives where there is no file.
  abbrev pub created : List Writing → JsonlState
  created upcoming = record { file = none; inner = new; upcoming = upcoming }

  unfoldable pub jsonl_laws : List Writing → IsLineageStore (jsonl format)
  unfolding in_memory_laws
  jsonl_laws upcoming = record {
    IsValid = λ s. IsValid s.inner;
    view = λ s. view s.inner;
    start = created upcoming;
    start-IsValid = new-IsValid;
    start_view = in_memory_laws.start_view;
    append-IsValid = λ n s v. Entered-IsValid n s.inner _ _ v (Entered-append n s);
    set_head-IsValid =
        λ id s v. rw (set_head-inner id s).1 (in_memory_laws.set_head-IsValid id s.inner v);
    view-append = λ n s v. view-Entered n s.inner _ _ v (Entered-append n s);
    append_fresh = λ n s v. fresh-Entered n s.inner _ _ v (Entered-append n s);
    get_lem = λ id s v. in_memory_laws.get_lem id s.inner v;
    head_lem = λ s v. in_memory_laws.head_lem s.inner v;
    set_head_result =
        λ id s v. rw (set_head-inner id s).0 (in_memory_laws.set_head_result id s.inner v);
    view-set_head =
        λ id s v. rw (set_head-inner id s).1 (in_memory_laws.view-set_head id s.inner v);
    nodes_lem = λ s v. in_memory_laws.nodes_lem s.inner v;
  }

  pub jsonl-IsLineageStore :
      (upcoming : List Writing)
      → (laws : IsLineageStore (jsonl format)) × (laws.start ≡ created upcoming)
  unfolding jsonl_laws
  jsonl-IsLineageStore upcoming = (jsonl_laws upcoming, refl)
