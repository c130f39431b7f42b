-- ===== src/Examples/Audits.antt =====
-- The theorems on audit records at concrete inputs.
use rig_veh.Prelude.{[], ◌∷◌, arith, none, some, Text, text, Result, ok, err, ◌≡◌, refl}
use rig_veh.Error
use rig_veh.Host.{Json}
use rig_veh.Json.{get, object, string, null}
use rig_veh.Ledger.InMemory.{in_memory}
use rig_veh.Ledger.InMemory.Refines.{in_memory_laws}
use rig_veh.Evidence.{EvidenceBundle, AuditRecord, denied, new_bundle, from_node}
use rig_veh.Evidence.Unaudited.{NeedsVersion, run_cycle-unaudited}
use rig_veh.Evidence.{
  with_evaluator_report, with_context_items, with_operator_approval, bundle_to_value, from_value,
}
use rig_veh.Evidence.Reader.{read_bundle, ReadsFields}
use rig_veh.Evidence.RoundTrip.{as_read, from_value-bundle_to_value}
use rig_veh.Examples.Demo.{demo}
use rig_veh.Examples.Tokens.{demo-IsU32Number}
use rig_veh.Examples.Setup.{running, root, child, cycle, veh, rooted, rooted-IsValid, grown}

-- A parser that asks for the version only.
abbrev parse : Json → Result Text EvidenceBundle
parse v = elim (get v (text "version")) [
  | none ↦ err (text "missing field version")
  | some w ↦ ok (new_bundle (denied (text "given")))
]

parse-NeedsVersion : NeedsVersion parse
unfolding get
parse-NeedsVersion = record { rejects = λ fs h. (text "missing field version", rw (h, parse) refl) }

run_cycle-unaudited_example : (why : Text) × (from_node parse child ≡ err (Error.json why))
unfolding running
run_cycle-unaudited_example =
    run_cycle-unaudited in_memory in_memory_laws parse parse-NeedsVersion (veh 7) (cycle root [])
      rooted grown child _ rooted-IsValid refl

-- A parser that takes the objects that `Serialize` writes, and nothing else.
abbrev parse_object : Json → Result Text EvidenceBundle
parse_object (object fs) = read_bundle fs
parse_object _ = err (text "expected an object")

parse_object-ReadsFields : ReadsFields parse_object
parse_object-ReadsFields = record { reads = λ fs b h. h }

abbrev bundle : EvidenceBundle
bundle =
    with_operator_approval
      (with_context_items (with_evaluator_report (new_bundle (denied (text "late"))) null)
        (string (text "memo") ∷ []))
      (record { operator = text "alice"; note = text "ship it" })

from_value-bundle_to_value_example :
    (v : Json) × (r : AuditRecord) × (bundle_to_value bundle ≡ ok v)
    × (from_value parse_object v ≡ ok (as_read bundle))
    × (from_node parse_object (record root { eval_results = some v }) ≡ ok r)
    × (r.evidence ≡ as_read bundle)
unfolding new_bundle with_operator_approval with_context_items with_evaluator_report
from_value-bundle_to_value_example =
    from_value-bundle_to_value parse_object parse_object-ReadsFields demo-IsU32Number bundle root
      (omega arith)
