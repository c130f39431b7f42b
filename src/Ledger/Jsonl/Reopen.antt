-- ===== src/Ledger/Jsonl/Reopen.antt =====
-- What `JsonlLineage::open` finds in the file that `append` wrote (src/ledger.rs).
use rig_veh.Prelude.{
  false, List, [], ◌∷◌, none, Text, ok, inl, inr, ◌≡◌, refl, ap, All, ◌∙◌, Bool-cases, Result-cases,
}
use rig_veh.Prelude.HashMap
use rig_veh.Prelude.HashMap.{HashMap}
use rig_veh.Host.{Env}
use rig_veh.Node.{AgentId, AgentNode}
use rig_veh.Ledger.InMemory
use rig_veh.Ledger.InMemory.{InMemoryInner, new}
use rig_veh.Ledger.InMemory.Refines.{view}
use rig_veh.Ledger.Jsonl.{
  reads_all, Writing, written, create_fails, write_fails, LineFormat, JsonlState, open_ledger,
  write_line, append, set_head,
}
use rig_veh.Ledger.Jsonl.Saved.{
  IsLineFormat, ReadsBack, rebuild, IsSaved, IsSaved-new, IsSaved-write, same_collected,
}

-- No write leaves a part of a line.
abbrev pub IsWhole : List Writing → Type 0
IsWhole [] = Unit
IsWhole (written ∷ next) = IsWhole next
IsWhole (create_fails why ∷ next) = IsWhole next
IsWhole (write_fails part why ∷ next) = ⊥

module _ ⦃e : Env⦄ where
  -- The two methods that change a ledger.
  pub data Change : Type 0 where
    appends : AgentNode → Change
    moves_head : AgentId → Change

module _ ⦃e : Env⦄ (format : LineFormat) where
  -- What is appended reads back as it was.
  abbrev pub Rereads : Change → Type 0
  Rereads (appends n) = ReadsBack format n
  Rereads (moves_head id) = Unit

  abbrev pub change : Change → JsonlState → JsonlState
  change (appends n) s = (append format n s).1
  change (moves_head id) s = (set_head format id s).1

  abbrev pub change_all : List Change → JsonlState → JsonlState
  change_all [] s = s
  change_all (c ∷ cs) s = change_all cs (change c s)

module _ ⦃e : Env⦄ (format : LineFormat) (reads : IsLineFormat format) where
  -- The ledger is saved, and its next writes are whole.
  pub record IsDurable (s : JsonlState) : Type 0 where
    pub saved : IsSaved format s.file s.inner
    pub whole : IsWhole s.upcoming

  IsDurable-write_line :
      (writing : List Writing) (line : Text) (n : AgentNode) (s : JsonlState)
      → ReadsBack format n
      → format.to_line n ≡ ok line
      → HashMap.contains_key s.inner.nodes n.agent_id ≡ false
      → IsWhole writing
      → writing ≡ s.upcoming
      → IsSaved format s.file s.inner
      → IsDurable (write_line format writing line n s).1
  IsDurable-write_line [] line n s back p fresh w q h = record {
    saved = IsSaved-write format reads s.file s.inner n line back p fresh h;
    whole = rw (← q) tt;
  }
  IsDurable-write_line (written ∷ next) line n s back p fresh w q h = record {
    saved = IsSaved-write format reads s.file s.inner n line back p fresh h;
    whole = w;
  }
  IsDurable-write_line (create_fails why ∷ next) line n s back p fresh w q h = record {
    saved = h;
    whole = w;
  }
  IsDurable-write_line (write_fails part why ∷ next) line n s back p fresh w q h = absurd w

  IsDurable-append :
      (n : AgentNode) (s : JsonlState)
      → ReadsBack format n
      → IsDurable s
      → IsDurable (append format n s).1
  unfolding append
  IsDurable-append n s back h = elim (Result-cases (format.to_line n)) [
    | inr (why, p) ↦ rw p h
    | inl (line, p) ↦ elim (Bool-cases (HashMap.contains_key s.inner.nodes n.agent_id)) [
      | inl t ↦ rw (p, t) h
      | inr t ↦ rw (p, t) (IsDurable-write_line s.upcoming line n s back p t h.whole refl h.saved)
    ]
  ]

  IsDurable-set_head :
      (id : AgentId) (s : JsonlState) → IsDurable s → IsDurable (set_head format id s).1
  unfolding set_head InMemory.set_head
  IsDurable-set_head id s h = elim (Bool-cases (HashMap.contains_key s.inner.nodes id)) [
    | inr t ↦ rw t h
    | inl t ↦ rw t (record {
      saved = record {
        closed = h.saved.closed;
        found = h.saved.found;
        opens = h.saved.opens;
        nodes = h.saved.nodes;
        order = h.saved.order;
        valid = h.saved.valid;
        rebuilt = h.saved.rebuilt;
      };
      whole = h.whole;
    })
  ]

  IsDurable-change :
      (c : Change) (s : JsonlState) → Rereads format c → IsDurable s → IsDurable (change format c s)
  IsDurable-change (appends n) s back h = IsDurable-append n s back h
  IsDurable-change (moves_head id) s back h = IsDurable-set_head id s h

  IsDurable-change_all :
      (cs : List Change) (s : JsonlState)
      → All (Rereads format) cs
      → IsDurable s
      → IsDurable (change_all format cs s)
  IsDurable-change_all [] s back h = h
  IsDurable-change_all (c ∷ cs) s back h =
      IsDurable-change_all cs (change format c s) back.1 (IsDurable-change c s back.0 h)

  -- Where serde_json reads the line of each appended node as that node, a new ledger can be
  -- reopened after any appends and head moves, some of which may fail but none of which leaves a
  -- part of a line: `open` succeeds and finds the same nodes in the same order, with the head that
  -- their appends alone give. A head that was moved is lost.
  pub reopen_lem :
      (cs : List Change) (upcoming : List Writing)
      → All (Rereads format) cs
      → IsWhole upcoming
      → let s = change_all format cs (record { file = none; inner = new; upcoming = upcoming }) in
        (found : InMemoryInner) × (open_ledger format reads_all s.file ≡ ok found)
        × ((view found).nodes ≡ (view s.inner).nodes)
        × (view found ≡ rebuild (view s.inner).nodes)
  unfolding view
  reopen_lem cs upcoming back w =
      let d =
        IsDurable-change_all cs (record { file = none; inner = new; upcoming = upcoming }) back
          (record { saved = IsSaved-new format; whole = w }) in
      let h = d.saved in
      let same = same_collected format h.nodes h.order in
      (h.found, h.opens, same, h.rebuilt ∙ ap rebuild same)
