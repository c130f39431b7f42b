-- ===== src/Ledger/Jsonl/Saved.antt =====
-- A file that holds the nodes of a ledger, and one line more (`JsonlLineage` of src/ledger.rs).
use rig_veh.Prelude.{
  true, false, List, [], ◌∷◌, ◌++◌, Option, none, some, Text, Bytes, ok, inl, inr, ◌≡◌, refl, ap,
  sym, ◌∙◌, Result-cases, ◌>>=◌,
}
use rig_veh.Prelude.HashMap
use rig_veh.Prelude.HashMap.{HashMap}
use rig_veh.Prelude.Lines.{
  lines, is_blank, is_utf8, Closed, IsLine, lines-append, lines-line, Closed-append,
}
use rig_veh.Host.{Env}
use rig_veh.Node.{AgentId, AgentNode}
use rig_veh.Ledger.View.{Lineage, push}
use rig_veh.Ledger.InMemory
use rig_veh.Ledger.InMemory.{InMemoryInner, new}
use rig_veh.Ledger.InMemory.Refines.{in_memory_laws, new-IsValid, view}
use rig_veh.Ledger.Jsonl.{reads_all, LineFormat, enter, read_line, replay, open_ledger, content}
use rig_veh.Ledger.Jsonl.Refines.{append-enter}

module _ ⦃e : Env⦄ where
  -- What serde_json promises of the text of a node: it is UTF-8, on one line, and not blank.
  pub record IsLineFormat (format : LineFormat) : Type 0 where
    pub encoded : (n : AgentNode) (line : Text) → format.to_line n ≡ ok line → is_utf8 line ≡ true
    pub one_line : (n : AgentNode) (line : Text) → format.to_line n ≡ ok line → IsLine line
    pub visible : (n : AgentNode) (line : Text) → format.to_line n ≡ ok line → is_blank line ≡ false

  -- The line of this node is read as the node. A NaN or a null in an optional field is read as
  -- none, so not every node is.
  abbrev pub ReadsBack : LineFormat → AgentNode → Type 0
  ReadsBack format n = (line : Text) → format.to_line n ≡ ok line → format.from_line line ≡ ok n

  -- The lineage in which these nodes were appended one after the other.
  abbrev pub rebuild_on : Lineage → List AgentNode → Lineage
  rebuild_on l [] = l
  rebuild_on l (n ∷ ns) = rebuild_on (push n l) ns

  abbrev pub rebuild : List AgentNode → Lineage
  rebuild = rebuild_on (record { nodes = []; head = none })

  rebuild_on-append :
      (ns : List AgentNode) (n : AgentNode) (l : Lineage)
      → rebuild_on l (ns ++ n ∷ []) ≡ push n (rebuild_on l ns)
  rebuild_on-append [] n l = refl
  rebuild_on-append (m ∷ ns) n l = rebuild_on-append ns n (push m l)

module _ ⦃e : Env⦄ (format : LineFormat) where
  open in_memory_laws use {IsValid}

  pub open_ledger-content :
      (file : Option Bytes)
      → open_ledger format reads_all file
        ≡ replay format reads_all (lines (content format file)) new
  unfolding open_ledger
  open_ledger-content none = refl
  open_ledger-content (some bytes) = refl

  pub replay-append :
      (ls : List Text) (line : Text) (inner : InMemoryInner)
      → replay format reads_all (ls ++ line ∷ []) inner
        ≡ (replay format reads_all ls inner >>= read_line format line)
  unfolding replay
  replay-append [] line inner = elim (Result-cases (read_line format line inner)) [
    | inl (r, p) ↦ rw p refl
    | inr (x, p) ↦ rw p refl
  ]
  replay-append (l ∷ ls) line inner = elim (Result-cases (read_line format l inner)) [
    | inl (r, p) ↦ rw p (replay-append ls line r)
    | inr (x, p) ↦ rw p refl
  ]

  -- The file holds the nodes of the lineage, in their order.
  pub record IsSaved (file : Option Bytes) (inner : InMemoryInner) : Type 0 where
    pub closed : Closed (content format file)
    pub found : InMemoryInner
    pub opens : open_ledger format reads_all file ≡ ok found
    pub nodes : found.nodes ≡ inner.nodes
    pub order : found.insertion_order ≡ inner.insertion_order
    pub valid : IsValid found
    pub rebuilt : view found ≡ rebuild (view found).nodes

  pub IsSaved-new : IsSaved none new
  unfolding open_ledger view InMemory.collect
  IsSaved-new = record {
    closed = tt;
    found = new;
    opens = refl;
    nodes = refl;
    order = refl;
    valid = new-IsValid;
    rebuilt = refl;
  }

  pub same_collected :
      {m m' : HashMap AgentNode} {ids ids' : List AgentId}
      → m ≡ m'
      → ids ≡ ids'
      → InMemory.collect m ids ≡ InMemory.collect m' ids'
  same_collected p q = rw (p, q) refl

  module _ (reads : IsLineFormat format) where
    read_line-to_line :
        (n : AgentNode) (line : Text) (inner : InMemoryInner)
        → ReadsBack format n
        → format.to_line n ≡ ok line
        → read_line format line inner ≡ ok (enter n inner)
    unfolding read_line
    read_line-to_line n line inner back p =
        rw (reads.encoded n line p, reads.visible n line p, back line p) refl

    opens-line :
        (bytes : Bytes) (n : AgentNode) (line : Text) (found : InMemoryInner)
        → Closed bytes
        → ReadsBack format n
        → format.to_line n ≡ ok line
        → replay format reads_all (lines bytes) new ≡ ok found
        → replay format reads_all (lines (bytes ++ (line ++ b'\n' ∷ []))) new ≡ ok (enter n found)
    opens-line bytes n line found c back p h =
        ap (λ ls. replay format reads_all ls new)
          (lines-append bytes (line ++ b'\n' ∷ []) c
            ∙ ap (λ ls. lines bytes ++ ls) (lines-line line (reads.one_line n line p)))
        ∙ replay-append (lines bytes) line new
        ∙ ap (λ r. r >>= read_line format line) h
        ∙ read_line-to_line n line found back p

    rebuilt-enter :
        (n : AgentNode) (found : InMemoryInner)
        → IsValid found
        → HashMap.contains_key found.nodes n.agent_id ≡ false
        → view found ≡ rebuild (view found).nodes
        → view (enter n found) ≡ rebuild (view (enter n found)).nodes
    unfolding view in_memory_laws
    rebuilt-enter n found v fresh h =
        let pushed : view (enter n found) ≡ push n (view found) =
          rw (append-enter format n found fresh) at (in_memory_laws.view-append n found v) in
        pushed
        ∙ ap (push n) h
        ∙ sym (rebuild_on-append (view found).nodes n _)
        ∙ ap rebuild (sym (ap (λ l. l.nodes) pushed))

    pub IsSaved-write :
        (file : Option Bytes) (inner : InMemoryInner) (n : AgentNode) (line : Text)
        → ReadsBack format n
        → format.to_line n ≡ ok line
        → HashMap.contains_key inner.nodes n.agent_id ≡ false
        → IsSaved file inner
        → IsSaved (some (content format file ++ (line ++ b'\n' ∷ []))) (enter n inner)
    IsSaved-write file inner n line back p fresh h =
        let fresh_found : HashMap.contains_key h.found.nodes n.agent_id ≡ false =
          ap (λ m. HashMap.contains_key m n.agent_id) h.nodes ∙ fresh in
        record {
          closed = Closed-append (content format file) line;
          found = enter n h.found;
          opens =
              open_ledger-content _
              ∙ opens-line (content format file) n line h.found h.closed back p
                  (sym (open_ledger-content file) ∙ h.opens);
          nodes = ap (λ m. HashMap.insert m n.agent_id n) h.nodes;
          order = ap (λ ids. ids ++ n.agent_id ∷ []) h.order;
          valid =
              rw (append-enter format n h.found fresh_found) at
                (in_memory_laws.append-IsValid n h.found h.valid);
          rebuilt = rebuilt-enter n h.found h.valid fresh_found h.rebuilt;
        }
