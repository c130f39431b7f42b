-- ===== src/Ledger/Jsonl.antt =====
-- `JsonlLineage` of src/ledger.rs (feature `jsonl-ledger`): the in-memory ledger with a file, which
-- has one node on each line.
pub mod Refines
pub mod Saved
pub mod Reopen
pub mod Torn
use rig_veh.Prelude.{
  ℕ, suc, List, [], ◌∷◌, ◌++◌, Option, none, some, Text, Bytes, text, Result, ok, err, map_err,
  ◌>>=◌, not, if◌then◌else◌,
}
use Prim.Native.Nat.{zero}
use rig_veh.Prelude.Exec.{Exec}
use rig_veh.Prelude.HashMap
use rig_veh.Prelude.Lines.{lines, is_blank, is_utf8}
use rig_veh.Error
use rig_veh.Error.{Error, Outcome}
use rig_veh.Host.{Env, Json}
use rig_veh.Node.{AgentId, AgentNode, is_promoted}
use rig_veh.Ledger.Store.{LineageStore}
use rig_veh.Ledger.InMemory
use rig_veh.Ledger.InMemory.{InMemoryInner, new}

-- How reading the file goes.
pub data Reading : Type 0 where
  reads_all : Reading
  open_fails : Text → Reading
  line_fails : ℕ → Text → Reading

-- How writing one line goes; a write that fails may leave the first bytes of the line.
pub data Writing : Type 0 where
  written : Writing
  create_fails : Text → Writing
  write_fails : Bytes → Text → Writing

module _ ⦃e : Env⦄ where
  -- `serde_json::to_string` and `from_str` of a node.
  pub record LineFormat : Type 0 where
    pub to_line : AgentNode → Result Text Text
    pub from_line : Text → Result Text AgentNode

  -- The file, what the lock guards, and how the next writes go.
  pub record JsonlState : Type 0 where
    pub file : Option Bytes
    pub inner : InMemoryInner
    pub upcoming : List Writing

  -- What `open` and `append` do to the maps.
  abbrev pub enter : AgentNode → InMemoryInner → InMemoryInner
  enter node inner = record {
    nodes = HashMap.insert inner.nodes node.agent_id node;
    insertion_order = inner.insertion_order ++ node.agent_id ∷ [];
    head = if is_promoted node.status then some node.agent_id else inner.head;
  }

module _ ⦃e : Env⦄ (format : LineFormat) where
  -- One line of the file; `BufRead::lines` fails on bytes that are not UTF-8.
  unfoldable pub read_line : Bytes → InMemoryInner → Outcome InMemoryInner
  read_line line inner =
      if not (is_utf8 line)
      then err (Error.io (text "stream did not contain valid UTF-8"))
      else if is_blank line
      then ok inner
      else map_err Error.json (format.from_line line) >>= λ node. ok (enter node inner)

  -- The loop of `JsonlLineage::open`.
  unfoldable pub replay : Reading → List Text → InMemoryInner → Outcome InMemoryInner
  unfolding read_line is_blank is_utf8
  replay reading [] inner = ok inner
  replay reads_all (line ∷ rest) inner =
      read_line line inner >>= λ inner. replay reads_all rest inner
  replay (open_fails why) (line ∷ rest) inner = err (Error.io why)
  replay (line_fails zero why) (line ∷ rest) inner = err (Error.io why)
  replay (line_fails (suc n) why) (line ∷ rest) inner =
      read_line line inner >>= λ inner. replay (line_fails n why) rest inner

  -- `JsonlLineage::open`; there may be no file.
  unfoldable pub open_ledger : Reading → Option Bytes → Outcome InMemoryInner
  unfolding replay lines
  open_ledger reading none = ok new
  open_ledger (open_fails why) (some content) = err (Error.io why)
  open_ledger reading (some content) = replay reading (lines content) new

  abbrev pub content : Option Bytes → Bytes
  content none = []
  content (some bytes) = bytes

  -- The write of one line, and what follows it.
  abbrev pub write_line :
      List Writing → Text → AgentNode → JsonlState → Result Error (Unit {0}) × JsonlState
  write_line [] line node s = (
    ok tt,
    record s { file = some (content s.file ++ (line ++ b'\n' ∷ [])); inner = enter node s.inner },
  )
  write_line (written ∷ next) line node s = (
    ok tt,
    record {
      file = some (content s.file ++ (line ++ b'\n' ∷ []));
      inner = enter node s.inner;
      upcoming = next;
    },
  )
  write_line (create_fails why ∷ next) line node s =
      (err (Error.io why), record s { upcoming = next })
  write_line (write_fails part why ∷ next) line node s =
      (err (Error.io why), record s { file = some (content s.file ++ part); upcoming = next })

  abbrev pub append_line : Result Text Text → AgentNode → Exec JsonlState Error (Unit {0})
  append_line (err why) node s = (err (Error.json why), s)
  append_line (ok line) node s =
      if HashMap.contains_key s.inner.nodes node.agent_id
      then (err (Error.ledger (text "duplicate agent_id " ++ node.agent_id)), s)
      else write_line s.upcoming line node s

  unfoldable pub append : AgentNode → Exec JsonlState Error (Unit {0})
  append node s = append_line (format.to_line node) node s

  -- The file is not touched.
  unfoldable pub set_head : AgentId → Exec JsonlState Error (Unit {0})
  set_head id s =
      let (result, inner) = InMemory.set_head id s.inner in (result, record s { inner = inner })

  -- `impl LineageStore for JsonlLineage`; the methods that read are those of the in-memory store.
  abbrev pub jsonl : LineageStore
  jsonl = record {
    State = JsonlState;
    append = append;
    get = λ id s. InMemory.get id s.inner;
    head = λ s. InMemory.head s.inner;
    set_head = set_head;
    export_dag_json = λ s. InMemory.export_dag_json s.inner;
    nodes = λ s. InMemory.nodes s.inner;
  }
