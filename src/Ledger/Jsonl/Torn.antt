-- ===== src/Ledger/Jsonl/Torn.antt =====
-- A write of `JsonlLineage::append` that fails in the middle of a line (src/ledger.rs).
use rig_veh.Prelude.{
  ℕ, false, true, List, [], ◌∷◌, ◌++◌, append_assoc, append-nil, some, Option, Text, text, Bytes,
  Bool-cases, inl, inr, ok, err, ◌>>=◌, All, All-append, ◌≡◌, refl, ap, sym, ◌∙◌,
}
use rig_veh.Prelude.HashMap
use rig_veh.Prelude.Lines.{
  lines, is_blank, is_utf8, blank_from, Closed, IsLine, lines-append, lines-line, lines-last,
}
use rig_veh.Error.{Error}
use rig_veh.Host.{Env}
use rig_veh.Node.{AgentNode}
use rig_veh.Ledger.InMemory.{InMemoryInner, new}
use rig_veh.Ledger.Jsonl.{
  reads_all, Writing, written, write_fails, LineFormat, JsonlState, enter, read_line, replay,
  open_ledger, content, append,
}
use rig_veh.Ledger.Jsonl.Saved.{IsLineFormat, IsSaved, open_ledger-content, replay-append}

module _ ⦃e : Env⦄ where
  -- The beginning of the line of this node, neither empty nor the whole line.
  pub record IsPart (format : LineFormat) (n : AgentNode) (part : Text) : Type 0 where
    pub line : Text
    pub first : ℕ
    pub more : Text
    pub last : ℕ
    pub rest : Text
    pub written_as : format.to_line n ≡ ok line
    pub begins : part ≡ first ∷ more
    pub splits : line ≡ part ++ last ∷ rest

  -- What serde_json promises of JSON objects: they open with a brace, and the beginning of one is
  -- no JSON text, nor with a whole one after it.
  pub record RejectsParts (format : LineFormat) : Type 0 where
    pub opens :
        (n : AgentNode) (line : Text) → format.to_line n ≡ ok line → (s : Text) × (line ≡ b'{' ∷ s)
    pub rejects :
        (n : AgentNode) (part : Text)
        → IsPart format n part
        → is_utf8 part ≡ true
        → (why : Text) × (format.from_line part ≡ err why)
    pub rejects_longer :
        (n m : AgentNode) (part line : Text)
        → IsPart format n part
        → format.to_line m ≡ ok line
        → is_utf8 (part ++ line) ≡ true
        → (why : Text) × (format.from_line (part ++ line) ≡ err why)

  All-first : (P : ℕ → Type 0) (s t : Text) → All P (s ++ t) → All P s
  All-first P [] t h = tt
  All-first P (c ∷ s) t h = (h.0, All-first P s t h.1)

module _ ⦃e : Env⦄ (format : LineFormat) (reads : IsLineFormat format)
    (parts : RejectsParts format) where
  part-IsLine : (n : AgentNode) (part : Text) → IsPart format n part → IsLine part
  part-IsLine n part h =
      All-first _ part (h.last ∷ h.rest) (rw h.splits at (reads.one_line n h.line h.written_as))

  visible-part :
      (n : AgentNode) (part more : Text) → IsPart format n part → is_blank (part ++ more) ≡ false
  unfolding is_blank blank_from
  visible-part n part more h =
      let (s, p) = parts.opens n h.line h.written_as in
      let brace : h.first ≡ b'{' =
        cc (sym p ∙ h.splits ∙ ap (λ q. q ++ h.last ∷ h.rest) h.begins) in
      rw (h.begins, brace) refl

  -- Bytes that are not UTF-8, or no node, are no line of a ledger.
  read_line-bad :
      (line : Bytes) (inner : InMemoryInner)
      → is_blank line ≡ false
      → (is_utf8 line ≡ true → (why : Text) × (format.from_line line ≡ err why))
      → (x : Error) × (read_line format line inner ≡ err x)
  unfolding read_line
  read_line-bad line inner visible bad = elim (Bool-cases (is_utf8 line)) [
    | inl u ↦ let (why, p) = bad u in (Error.json why, rw (u, visible, p) refl)
    | inr u ↦ (Error.io (text "stream did not contain valid UTF-8"), rw u refl)
  ]

  -- A ledger whose last line is no node does not open.
  open-bad_line :
      (bytes : Bytes) (tail line : Bytes) (x : Error) (found : InMemoryInner)
      → lines (bytes ++ tail) ≡ lines bytes ++ line ∷ []
      → read_line format line found ≡ err x
      → replay format reads_all (lines bytes) new ≡ ok found
      → open_ledger format reads_all (some (bytes ++ tail)) ≡ err x
  open-bad_line bytes tail line x found p bad h =
      open_ledger-content format (some (bytes ++ tail))
      ∙ ap (λ ls. replay format reads_all ls new) p
      ∙ replay-append format (lines bytes) line new
      ∙ ap (λ r. r >>= read_line format line) h
      ∙ bad

  lines-part :
      (bytes : Bytes) (n : AgentNode) (part : Text)
      → Closed bytes
      → IsPart format n part
      → lines (bytes ++ part) ≡ lines bytes ++ part ∷ []
  lines-part bytes n part c h =
      let whole : IsLine (h.first ∷ h.more) = rw h.begins at (part-IsLine n part h) in
      lines-append bytes part c
      ∙ ap (λ ls. lines bytes ++ ls) (rw h.begins (lines-last h.first h.more whole))

  lines-joined :
      (bytes : Bytes) (n m : AgentNode) (part line : Text)
      → Closed bytes
      → IsPart format n part
      → format.to_line m ≡ ok line
      → lines (bytes ++ ((part ++ line) ++ b'\n' ∷ [])) ≡ lines bytes ++ (part ++ line) ∷ []
  lines-joined bytes n m part line c h p =
      lines-append bytes ((part ++ line) ++ b'\n' ∷ []) c
      ∙ ap (λ ls. lines bytes ++ ls)
          (lines-line (part ++ line)
            (All-append _ part line (part-IsLine n part h) (reads.one_line m line p)))

  module _ (file : Option Bytes) (inner : InMemoryInner) (n m : AgentNode) (part line why : Text)
      (next : List Writing) (part_of : IsPart format n part) (line_of : format.to_line m ≡ ok line)
      (n_new : HashMap.contains_key inner.nodes n.agent_id ≡ false)
      (m_new : HashMap.contains_key inner.nodes m.agent_id ≡ false) where
    abbrev before : JsonlState
    before = record { file = file; inner = inner; upcoming = write_fails part why ∷ written ∷ next }

    abbrev torn : JsonlState
    torn = record {
      file = some (content format file ++ part);
      inner = inner;
      upcoming = written ∷ next;
    }

    abbrev joined : JsonlState
    joined = record {
      file = some (content format file ++ ((part ++ line) ++ b'\n' ∷ []));
      inner = enter m inner;
      upcoming = next;
    }

    append-torn : append format n before ≡ (err (Error.io why), torn)
    unfolding append
    append-torn = rw (part_of.written_as, n_new) refl

    append-joined : append format m torn ≡ (ok tt, joined)
    unfolding append
    append-joined =
        rw (line_of, m_new)
          (ap
            (λ bytes. (ok tt, record { file = some bytes; inner = enter m inner; upcoming = next }))
            (append_assoc (content format file) part (line ++ b'\n' ∷ [])
              ∙ ap (λ t. content format file ++ t) (sym (append_assoc part line (b'\n' ∷ [])))))

    -- Where serde_json rejects the beginnings of its lines, alone and with a line after them, and
    -- the file of a ledger holds its nodes: if the write of a new node fails and leaves the
    -- beginning of its line, the file does not open; the next append of a new node succeeds, and
    -- the file does not open then either.
    pub torn_lem :
        IsSaved format file inner
        → ((append format n before).0 ≡ err (Error.io why))
          × ((x : Error) × (open_ledger format reads_all (append format n before).1.file ≡ err x))
          × ((append format m (append format n before).1).0 ≡ ok tt)
          × ((y : Error) × (open_ledger format reads_all
                  (append format m (append format n before).1).1.file
                ≡ err y))
    torn_lem h =
        let bytes = content format file in
        let replayed = sym (open_ledger-content format file) ∙ h.opens in
        let (x, rejected) =
          read_line-bad part h.found (rw (append-nil part) at (visible-part n part [] part_of))
            (parts.rejects n part part_of) in
        let (y, rejected_longer) =
          read_line-bad (part ++ line) h.found (visible-part n part line part_of)
            (parts.rejects_longer n m part line part_of line_of) in
        rw (append-torn, append-joined)
          (
            refl,
            (
              x,
              open-bad_line bytes part part x h.found (lines-part bytes n part h.closed part_of)
                  rejected replayed,
            ),
            refl,
            (
              y,
              open-bad_line bytes _ (part ++ line) y h.found
                  (lines-joined bytes n m part line h.closed part_of line_of) rejected_longer
                  replayed,
            ),
          )
