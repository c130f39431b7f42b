-- ===== src/Intent.antt =====
-- src/intent.rs: what a mutation declares, and the scope that descendants inherit.
use rig_veh.Prelude.{
  ℕ, List, [], ◌∷◌, ◌++◌, Option, none, some, Text, text, if◌then◌else◌, ◌==◌, not,
}
use rig_veh.Host.{Env, Json}
use rig_veh.Json.{Value, null, number, string, array, object, end, field, get, as_str, texts}

-- `to_value` of an `Option`
abbrev pub option_to_value : {N A : Type 0} → (A → Value N) → Option A → Value N
option_to_value f none = null
option_to_value f (some a) = f a

pub record AllowedScope : Type 0 where
  pub allowed_tools : List Text
  pub allowed_mcp_servers : List Text
  pub allowed_delegates : List Text
  pub max_generation : Option ℕ
  pub gated_capabilities : List Text

module _ ⦃e : Env⦄ where
  pub record MutationIntent : Type 0 where
    pub goal : Text
    pub rationale : Text
    pub expected_improvement : Option e.F64
    pub constraints : List Text
    pub metadata : Json

  -- `MutationIntent::new`
  unfoldable pub new_intent : Text → MutationIntent
  new_intent goal = record {
    goal = goal;
    rationale = [];
    expected_improvement = none;
    constraints = [];
    metadata = null;
  }

  unfoldable pub with_rationale : MutationIntent → Text → MutationIntent
  with_rationale intent rationale = record intent { rationale = rationale }

  unfoldable pub with_expected_improvement : MutationIntent → e.F64 → MutationIntent
  with_expected_improvement intent delta = record intent { expected_improvement = some delta }

  unfoldable pub with_constraint : MutationIntent → Text → MutationIntent
  with_constraint intent tag = record intent { constraints = intent.constraints ++ tag ∷ [] }

  -- `MutationIntent::rollback`
  unfoldable pub rollback : Text → MutationIntent
  rollback target = record {
    goal = text "rollback";
    rationale = text "revert to " ++ target;
    expected_improvement = none;
    constraints = [];
    metadata = object (field (text "rollback_target") (string target) end);
  }

  unfoldable pub rollback_target : MutationIntent → Option Text
  unfolding ◌==◌ get as_str
  rollback_target intent =
      if not (intent.goal == text "rollback")
      then none
      else elim (get intent.metadata (text "rollback_target")) [ none ↦ none | some v ↦ as_str v ]

  -- The derived `Serialize` of the two structs: every field under its name.
  unfoldable pub intent_to_value : MutationIntent → Json
  unfolding texts
  intent_to_value intent = object (
      field (text "goal") (string intent.goal) (
        field (text "rationale") (string intent.rationale) (
          field (text "expected_improvement")
            (option_to_value e.f64_to_value intent.expected_improvement)
            (field (text "constraints") (array (texts intent.constraints))
              (field (text "metadata") intent.metadata end)))))

  unfoldable pub scope_to_value : AllowedScope → Json
  unfolding texts
  scope_to_value scope = object (
      field (text "allowed_tools") (array (texts scope.allowed_tools)) (
        field (text "allowed_mcp_servers") (array (texts scope.allowed_mcp_servers)) (
          field (text "allowed_delegates") (array (texts scope.allowed_delegates)) (
            field (text "max_generation")
              (option_to_value (λ g. number (e.number_from g)) scope.max_generation)
              (field (text "gated_capabilities") (array (texts scope.gated_capabilities)) end)))))
