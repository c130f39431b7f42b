-- ===== src/Examples/Agents.antt =====
-- The theorems on values, nodes and the policy gate at concrete inputs.
use rig_veh.Prelude.{
  [], ◌∷◌, text, ok, ◌≡◌, refl, Text, ◌↔◌, ◌⊎◌, ◌≢◌, ◌==◌, ==_iff, false≢true, true, List, inl, inr,
  arith,
}
use mathlib.Core.Option.{some-injective}
use rig_veh.Prelude.Member.{In, In-cons, any-==_iff}
use rig_veh.Host.{Json}
use rig_veh.Json.{number, object, field, end}
use rig_veh.Artifact.{canonical_json}
use rig_veh.Json.Canonical.Normal.{normal}
use rig_veh.Artifact.Canonical.{canonical_json_iff}
use rig_veh.Intent.{new_intent}
use rig_veh.Identity.{verify_node, inputs_of}
use rig_veh.Identity.RoundTrip.{verify-sign_node}
use rig_veh.Identity.Binding.{IsVerified, verify_node_iff, Collision}
use rig_veh.Identity.Content.{SameInputs}
use rig_veh.Identity.Payload.{same_content}
use rig_veh.Node.{AgentNode}
use rig_veh.Policy.{approve, deny, require_approval, evaluate, capability_in_scope}
use rig_veh.Policy.Scope.{InScope, capability_in_scope_iff}
use rig_veh.Policy.Decision.{TooDeep, Widens, Gated, evaluate_cases}
use rig_veh.Policy.Forged.{forged, forged_sbom-approved}
use rig_veh.Graph.Operations.{root_inputs}
use rig_veh.Examples.Demo.{demo, demo-IsCrypto, agent, scope}
use rig_veh.Examples.Tokens.{demo-IsTokenFormat, demo-IsU32Number}
use rig_veh.Examples.Setup.{running, root, child}

a_not_b : text "a" ≢ text "b"
unfolding ◌==◌
a_not_b p = false≢true ((==_iff (text "a") (text "b")).1 p)

abbrev ab : Json
ab = object (field (text "a") (number 1) (field (text "b") (number 2) end))

abbrev ba : Json
ba = object (field (text "b") (number 2) (field (text "a") (number 1) end))

canonical_json_iff_example : (canonical_json ab ≡ canonical_json ba) ↔ (normal ab ≡ normal ba)
canonical_json_iff_example = canonical_json_iff demo-IsTokenFormat ab ba

verify-sign_node_example : verify_node root ≡ ok tt
unfolding running
verify-sign_node_example =
    verify-sign_node demo-IsCrypto (root_inputs (agent (text "root") []) scope (text "t0")) true
      root refl

verify_node_iff_example : (verify_node child ≡ ok tt) ↔ IsVerified child
verify_node_iff_example = verify_node_iff child

root_verifies : verify_node root ≡ ok tt
unfolding running
root_verifies = refl

capability_in_scope_iff_example :
    (capability_in_scope (text "tool:search") scope ≡ true) ↔ InScope scope (text "tool:search")
capability_in_scope_iff_example = capability_in_scope_iff scope (text "tool:search")

evaluate_cases_example :
    ((r : Text) × (evaluate root (new_intent (text "x")) (text "tool:shell" ∷ []) ≡ deny r)
      × TooDeep root (new_intent (text "x")) (text "tool:shell" ∷ []))
    ⊎ ((r : Text) × (evaluate root (new_intent (text "x")) (text "tool:shell" ∷ [])
          ≡ require_approval r)
        × ¬ TooDeep root (new_intent (text "x")) (text "tool:shell" ∷ [])
        × (Widens root (new_intent (text "x")) (text "tool:shell" ∷ [])
            ⊎ Gated root (new_intent (text "x")) (text "tool:shell" ∷ [])))
    ⊎ (evaluate root (new_intent (text "x")) (text "tool:shell" ∷ []) ≡ approve)
      × ¬ TooDeep root (new_intent (text "x")) (text "tool:shell" ∷ [])
      × ¬ Widens root (new_intent (text "x")) (text "tool:shell" ∷ [])
      × ¬ Gated root (new_intent (text "x")) (text "tool:shell" ∷ [])
evaluate_cases_example = evaluate_cases root (new_intent (text "x")) (text "tool:shell" ∷ [])

abbrev shell : List Text
shell = text "tool:shell" ∷ []

root_shallow : ¬ TooDeep root (new_intent (text "x")) shell
unfolding running
root_shallow (m, p, deep) = let limit : 3 ≡ m = some-injective _ _ p in absurd (omega arith)

trade_not-In-shell : ¬ In (text "tool:trade") shell
unfolding ◌==◌
trade_not-In-shell m = false≢true ((any-==_iff (text "tool:trade") shell).1 m)

root_ungated : ¬ Gated root (new_intent (text "x")) shell
unfolding running
root_ungated (g, m, used) = elim (In-cons m) [
  | inr k ↦ elim k [ ]
  | inl p ↦ elim used [ inl i ↦ trade_not-In-shell (rw p at i) | inr i ↦ elim i [ ] ]
]

forged_sbom-approved_example :
    (verify_node (forged root shell) ≡ ok tt)
    × (evaluate (forged root shell) (new_intent (text "x")) shell ≡ approve)
forged_sbom-approved_example =
    forged_sbom-approved root (new_intent (text "x")) shell root_verifies root_shallow root_ungated

-- The root with another SBOM recorded, which verifies too.
abbrev relabelled : AgentNode
unfolding running
relabelled = record root { capability_sbom = text "tool:trade" ∷ [] }

relabelled_verifies : verify_node relabelled ≡ ok tt
unfolding running
relabelled_verifies = refl

same_content_example :
    SameInputs (inputs_of root) (inputs_of relabelled)
      × (demo.hex_decode root.signature ≡ demo.hex_decode relabelled.signature)
    ⊎ Collision
unfolding running inputs_of
same_content_example =
    same_content demo-IsTokenFormat demo-IsU32Number demo-IsCrypto root relabelled
      (omega arith, omega arith) (omega arith, omega arith) root_verifies relabelled_verifies refl
