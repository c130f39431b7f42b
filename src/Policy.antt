-- ===== src/Policy.antt =====
-- src/policy.rs: the decision of the default gate.
pub mod Scope
pub mod Decision
pub mod Forged
use rig_veh.Prelude.{
  ℕ, List, [], ◌∷◌, ◌++◌, Option, none, some, Text, text, Bool, true, false, not, ◌||◌, any, find,
  filter, if◌then◌else◌, ltb, ◌==◌, split_once, display,
}
use rig_veh.Host.{Env}
use rig_veh.Intent.{MutationIntent, AllowedScope}
use rig_veh.Node.{AgentNode, next_generation}

pub data PolicyDecision : Type 0 where
  approve : PolicyDecision
  deny : Text → PolicyDecision
  require_approval : Text → PolicyDecision

-- The allow-list for a kind of capability; `none` is the early `return false`.
abbrev pub allow_list : Text → AllowedScope → Option (List Text)
allow_list kind scope =
    if kind == text "tool"
    then some scope.allowed_tools
    else if kind == text "mcp"
    then some scope.allowed_mcp_servers
    else if kind == text "delegate"
    then some scope.allowed_delegates
    else none

abbrev listed : Text → Option (List Text) → Bool
listed name none = false
listed name (some list) = any (λ allowed. allowed == name) list

abbrev pub parts_in_scope : AllowedScope → Option (Text × Text) → Bool
parts_in_scope scope none = false
parts_in_scope scope (some (kind, name)) = listed name (allow_list kind scope)

unfoldable pub capability_in_scope : Text → AllowedScope → Bool
capability_in_scope capability scope = parts_in_scope scope (split_once b':' capability)

abbrev exceeds : Option ℕ → ℕ → Option ℕ
exceeds none generation = none
exceeds (some max) generation = if ltb max (next_generation generation) then some max else none

abbrev pub depth_reason : ℕ → ℕ → Text
depth_reason max generation =
    text "max_generation "
    ++ (display max ++ (text " exceeded (parent gen " ++ (display generation ++ text ")")))

abbrev pub scope_reason : Text → Text
scope_reason cap = text "capability " ++ (cap ++ text " outside allowed_scope")

abbrev pub gated_reason : Text → Text
gated_reason gated = text "gated capability " ++ (gated ++ text " present")

module _ ⦃e : Env⦄ where
  -- `PolicyGate`: a gate is deterministic and has no effects.
  abbrev pub PolicyGate : Type 0
  PolicyGate = AgentNode → MutationIntent → List Text → PolicyDecision

  -- The capabilities that the parent does not have.
  abbrev pub added : AgentNode → List Text → List Text
  added parent = filter (λ s. not (any (λ p. p == s) parent.capability_sbom))

  abbrev pub uses_gated : MutationIntent → List Text → Text → Bool
  uses_gated intent sbom gated =
      any (λ c. c == gated) sbom || any (λ c. c == gated) intent.constraints

  -- `DefaultPolicyGate::evaluate`
  unfoldable pub evaluate : PolicyGate
  evaluate parent intent candidate_sbom =
      let scope = parent.allowed_scope in
      elim (exceeds scope.max_generation parent.generation) [
        | some max ↦ deny (depth_reason max parent.generation)
        | none ↦
            elim (find (λ cap. not (capability_in_scope cap scope)) (added parent candidate_sbom)) [
              | some cap ↦ require_approval (scope_reason cap)
              | none ↦ elim (find (uses_gated intent candidate_sbom) scope.gated_capabilities) [
                | some gated ↦ require_approval (gated_reason gated)
                | none ↦ approve
              ]
            ]
      ]
