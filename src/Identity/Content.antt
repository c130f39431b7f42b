-- ===== src/Identity/Content.antt =====
-- What a signing payload says of the inputs that it was made from (src/identity.rs).
use rig_veh.Prelude.{
  ℕ, ◌<◌, ◌^◌, Bool, List, [], ◌∷◌, Option, none, some, ◌≡◌, refl, ◌∙◌, sym, ap, Text, text, ok,
  arith, ◌==◌,
}
use rig_veh.Host.{Env, Json, IsU32Number}
use rig_veh.Json.{bool, number, string, array, get_field, texts}
use rig_veh.Json.Canonical.Normal.{normal, normal_items}
use rig_veh.Json.Canonical.Lookup.{normal-field}
use rig_veh.Artifact.{capability_sbom}
use rig_veh.Intent.{MutationIntent, AllowedScope, option_to_value, intent_to_value, scope_to_value}
use rig_veh.Evaluator.{EvalStage, stage_to_value, stage_name}
use rig_veh.Node.{AgentId, NodeStatus, status_to_value}
use rig_veh.Identity.{CommitInputs}

module _ ⦃e : Env⦄ where
  -- Equal up to the order of the keys in its objects.
  abbrev pub SameJson : Json → Json → Type 0
  SameJson v w = normal v ≡ normal w

  pub record SameIntent (a b : MutationIntent) : Type 0 where
    pub goal : a.goal ≡ b.goal
    pub rationale : a.rationale ≡ b.rationale
    -- as JSON, where NaN is null
    pub expected_improvement :
        SameJson
          (option_to_value e.f64_to_value a.expected_improvement)
          (option_to_value e.f64_to_value b.expected_improvement)
    pub constraints : a.constraints ≡ b.constraints
    pub metadata : SameJson a.metadata b.metadata

  pub record SameScope (a b : AllowedScope) : Type 0 where
    pub allowed_tools : a.allowed_tools ≡ b.allowed_tools
    pub allowed_mcp_servers : a.allowed_mcp_servers ≡ b.allowed_mcp_servers
    pub allowed_delegates : a.allowed_delegates ≡ b.allowed_delegates
    pub max_generation : a.max_generation ≡ b.max_generation
    pub gated_capabilities : a.gated_capabilities ≡ b.gated_capabilities

  -- The inputs agree in every field; those that hold JSON, up to the order of keys.
  pub record SameInputs (a b : CommitInputs) : Type 0 where
    pub parent_id : a.parent_id ≡ b.parent_id
    pub generation : a.generation ≡ b.generation
    pub created_at : a.created_at ≡ b.created_at
    pub mutation_intent : SameIntent a.mutation_intent b.mutation_intent
    pub mutation_diff : a.mutation_diff ≡ b.mutation_diff
    pub allowed_scope : SameScope a.allowed_scope b.allowed_scope
    -- as JSON, where `None` is null
    pub eval_results :
        SameJson (option_to_value (λ v. v) a.eval_results) (option_to_value (λ v. v) b.eval_results)
    pub capability_sbom : capability_sbom a.artifact ≡ capability_sbom b.artifact
    pub manifest :
        (x y : Json) × (e.manifest_to_value a.artifact.manifest ≡ ok x)
        × (e.manifest_to_value b.artifact.manifest ≡ ok y)
        × SameJson x y
    pub status : a.status ≡ b.status
    pub parent_agent_success : a.parent_agent_success ≡ b.parent_agent_success
    pub valid_parent : a.valid_parent ≡ b.valid_parent
    pub eval_stage : a.eval_stage ≡ b.eval_stage

  -- The numbers are u32.
  abbrev pub IsU32Option : Option ℕ → Type 0
  IsU32Option none = Unit
  IsU32Option (some g) = g < 2 ^ 32

  abbrev pub IsU32Inputs : CommitInputs → Type 0
  IsU32Inputs a = (a.generation < 2 ^ 32) × IsU32Option a.allowed_scope.max_generation

  -- Which texts, flags and numbers a value shows.
  pub same_string : (s t : Text) → SameJson (string s) (string t) → s ≡ t
  unfolding normal
  same_string s t h = cc h

  pub same_bool : (a b : Bool) → SameJson (bool a) (bool b) → a ≡ b
  unfolding normal
  same_bool a b h = cc h

  pub same_parent :
      (a b : Option AgentId)
      → SameJson (option_to_value string a) (option_to_value string b)
      → a ≡ b
  unfolding normal
  same_parent none none h = refl
  same_parent none (some b) h = cc h
  same_parent (some a) none h = cc h
  same_parent (some a) (some b) h = cc h

  pub same_status : (a b : NodeStatus) → SameJson (status_to_value a) (status_to_value b) → a ≡ b
  unfolding normal status_to_value
  same_status NodeStatus.promoted NodeStatus.promoted h = refl
  same_status NodeStatus.promoted NodeStatus.rejected h = ground (arith)
  same_status NodeStatus.rejected NodeStatus.promoted h = ground (arith)
  same_status NodeStatus.rejected NodeStatus.rejected h = refl

  normal_items-texts : (ss : List Text) → normal_items {N = e.Number} (texts ss) ≡ texts ss
  unfolding normal texts
  normal_items-texts [] = refl
  normal_items-texts (s ∷ ss) = rw (normal_items-texts ss)

  texts-injective : (ss ts : List Text) → texts {N = e.Number} ss ≡ texts ts → ss ≡ ts
  unfolding texts
  texts-injective [] [] h = refl
  texts-injective [] (t ∷ ts) h = cc h
  texts-injective (s ∷ ss) [] h = cc h
  texts-injective (s ∷ ss) (t ∷ ts) h =
      let p : s ≡ t = cc h in
      let q : texts {N = e.Number} ss ≡ texts ts = cc h in cc (p, texts-injective ss ts q)

  pub same_texts : (ss ts : List Text) → SameJson (array (texts ss)) (array (texts ts)) → ss ≡ ts
  unfolding normal
  same_texts ss ts h =
      let p : normal_items {N = e.Number} (texts ss) ≡ normal_items (texts ts) = cc h in
      texts-injective ss ts (sym (normal_items-texts ss) ∙ p ∙ normal_items-texts ts)

  pub same_stage :
      (a b : Option EvalStage)
      → SameJson (option_to_value stage_to_value a) (option_to_value stage_to_value b)
      → a ≡ b
  unfolding normal stage_to_value
  same_stage none none h = refl
  same_stage none (some b) h = cc h
  same_stage (some a) none h = cc h
  same_stage (some a) (some b) h = ap some (same_stage_name a b (cc h))
    where
      same_stage_name : (a b : EvalStage) → stage_name a ≡ stage_name b → a ≡ b
      same_stage_name EvalStage.continue EvalStage.continue h = refl
      same_stage_name EvalStage.promote EvalStage.promote h = refl
      same_stage_name EvalStage.stop EvalStage.stop h = refl
      same_stage_name EvalStage.continue EvalStage.promote h = ground arith
      same_stage_name EvalStage.continue EvalStage.stop h = ground arith
      same_stage_name EvalStage.promote EvalStage.continue h = ground arith
      same_stage_name EvalStage.promote EvalStage.stop h = ground arith
      same_stage_name EvalStage.stop EvalStage.continue h = ground arith
      same_stage_name EvalStage.stop EvalStage.promote h = ground arith

  module _ (u : IsU32Number) where
    pub same_number :
        (g h : ℕ)
        → g < 2 ^ 32
        → h < 2 ^ 32
        → SameJson (number (e.number_from g)) (number (e.number_from h))
        → g ≡ h
    unfolding normal
    same_number g h p q r =
        let s : e.number_from g ≡ e.number_from h = cc r in cc (u.read_back g p, u.read_back h q, s)

    same_limit :
        (a b : Option ℕ)
        → IsU32Option a
        → IsU32Option b
        → SameJson
            (option_to_value (λ g. number (e.number_from g)) a)
            (option_to_value (λ g. number (e.number_from g)) b)
        → a ≡ b
    same_limit none none p q h = refl
    same_limit none (some b) p q h = unfold normal in cc h
    same_limit (some a) none p q h = unfold normal in cc h
    same_limit (some a) (some b) p q h = ap some (same_number a b p q h)

    pub same_scope :
        (a b : AllowedScope)
        → IsU32Option a.max_generation
        → IsU32Option b.max_generation
        → SameJson (scope_to_value a) (scope_to_value b)
        → SameScope a b
    unfolding scope_to_value get_field ◌==◌
    same_scope a b p q h = record {
      allowed_tools = same_texts _ _ (normal-field _ _ (text "allowed_tools") _ _ h refl refl);
      allowed_mcp_servers =
          same_texts _ _ (normal-field _ _ (text "allowed_mcp_servers") _ _ h refl refl);
      allowed_delegates =
          same_texts _ _ (normal-field _ _ (text "allowed_delegates") _ _ h refl refl);
      max_generation =
          same_limit _ _ p q (normal-field _ _ (text "max_generation") _ _ h refl refl);
      gated_capabilities =
          same_texts _ _ (normal-field _ _ (text "gated_capabilities") _ _ h refl refl);
    }

  pub same_intent :
      (a b : MutationIntent) → SameJson (intent_to_value a) (intent_to_value b) → SameIntent a b
  unfolding intent_to_value get_field ◌==◌
  same_intent a b h = record {
    goal = same_string _ _ (normal-field _ _ (text "goal") _ _ h refl refl);
    rationale = same_string _ _ (normal-field _ _ (text "rationale") _ _ h refl refl);
    expected_improvement = normal-field _ _ (text "expected_improvement") _ _ h refl refl;
    constraints = same_texts _ _ (normal-field _ _ (text "constraints") _ _ h refl refl);
    metadata = normal-field _ _ (text "metadata") _ _ h refl refl;
  }
