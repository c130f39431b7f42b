-- ===== src/Examples/Files.antt =====
-- The theorems on the ledger with a file at concrete inputs.
use rig_veh.Prelude.{[], ◌∷◌, none, text, ok, ◌≡◌, List}
use rig_veh.Ledger.Store.{IsLineageStore}
use rig_veh.Ledger.InMemory.{InMemoryInner, new}
use rig_veh.Ledger.InMemory.Refines.{view}
use rig_veh.Ledger.Jsonl.{
  reads_all, Writing, written, create_fails, write_fails, JsonlState, open_ledger, enter, jsonl,
  append,
}
use rig_veh.Ledger.Jsonl.Refines.{created, jsonl-IsLineageStore}
use rig_veh.Ledger.Jsonl.Saved.{rebuild, IsSaved, IsSaved-new, IsSaved-write}
use rig_veh.Ledger.Jsonl.Torn.{torn_lem}
use rig_veh.Error.{Error}
use rig_veh.Prelude.{some, ◌++◌}
use rig_veh.Examples.Setup.{running}
use rig_veh.Prelude.HashMap
use rig_veh.Prelude.{err, refl}
use rig_veh.Ledger.Jsonl.Reopen.{Change, appends, moves_head, change_all, reopen_lem}
use rig_veh.Examples.Demo.{demo}
use rig_veh.Examples.Setup.{root, child}
use rig_veh.Examples.Format.{
  short_format, short_format-IsLineFormat, short_format-RejectsParts, root-ReadsBack,
  child-ReadsBack, child-IsPart, short-root, short-child,
}

jsonl-IsLineageStore_example :
    (laws : IsLineageStore (jsonl short_format)) × (laws.start
      ≡ created short_format (written ∷ []))
jsonl-IsLineageStore_example = jsonl-IsLineageStore short_format (written ∷ [])

-- The first write fails, the others go through, and the head is moved back.
abbrev changes : List Change
changes = appends root ∷ appends root ∷ appends child ∷ moves_head root.agent_id ∷ []

abbrev writings : List Writing
writings = create_fails (text "read-only") ∷ written ∷ []

abbrev left : JsonlState
left = change_all short_format changes (record { file = none; inner = new; upcoming = writings })

reopen_lem_example :
    (found : InMemoryInner) × (open_ledger short_format reads_all left.file ≡ ok found)
    × ((view found).nodes ≡ (view left.inner).nodes)
    × (view found ≡ rebuild (view left.inner).nodes)
reopen_lem_example =
    reopen_lem short_format short_format-IsLineFormat changes writings
      (root-ReadsBack, (root-ReadsBack, (child-ReadsBack, (tt, tt)))) tt

-- The root is in the file. The disk fills up in the middle of the child's line, and then the child
-- is appended again.
abbrev full : JsonlState
full = record {
  file = some (text "{r}" ++ b'\n' ∷ []);
  inner = enter root new;
  upcoming = write_fails (text "{") (text "disk full") ∷ written ∷ [];
}

full-IsSaved : IsSaved short_format full.file full.inner
unfolding HashMap.contains_key
full-IsSaved =
    IsSaved-write short_format short_format-IsLineFormat none new root (text "{r}") root-ReadsBack
      short-root refl (IsSaved-new short_format)

torn_lem_example :
    ((append short_format child full).0 ≡ err (Error.io (text "disk full")))
    × ((x : Error) × (open_ledger short_format reads_all (append short_format child full).1.file
          ≡ err x))
    × ((append short_format child (append short_format child full).1).0 ≡ ok tt)
    × ((y : Error) × (open_ledger short_format reads_all
            (append short_format child (append short_format child full).1).1.file
          ≡ err y))
unfolding HashMap.contains_key HashMap.insert running
torn_lem_example =
    torn_lem short_format short_format-IsLineFormat short_format-RejectsParts full.file full.inner
      child child (text "{") (text "{c}") (text "disk full") [] child-IsPart short-child refl refl
      full-IsSaved
