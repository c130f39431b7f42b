-- ===== src/Examples/Dot.antt =====
-- The theorems on what a ledger exports, at concrete ledgers.
use rig_veh.Prelude.{ok, ◌≡◌, refl, arith}
use rig_veh.Node.{nodes_to_value}
use rig_veh.Ledger.InMemory.{in_memory}
use rig_veh.Ledger.InMemory.Refines.{view}
use rig_veh.Ledger.Dot.{export_dot}
use rig_veh.Ledger.Dot.Render.{draw, export_dot-draw}
use rig_veh.Examples.Demo.{demo}
use rig_veh.Examples.Tokens.{demo-IsU32Number}
use rig_veh.Examples.Setup.{running, grown}

export_dot-draw_example : export_dot in_memory grown ≡ ok (draw (view grown).nodes)
unfolding running view nodes_to_value
export_dot-draw_example =
    export_dot-draw demo-IsU32Number grown _ (omega arith, (omega arith, tt)) refl
