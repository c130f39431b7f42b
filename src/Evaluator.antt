-- ===== src/Evaluator.antt =====
-- src/evaluator.rs: what an evaluation returns, and the benchmark interface.
pub mod Composite
pub mod Staged
pub mod Retrieval
use rig_veh.Prelude.{ℕ, Option, none, some, Text, text}
use rig_veh.Host.{Env, Json}
use rig_veh.Json.{null, string, object, end, field, get, number}
use rig_veh.Error.{Outcome}
use rig_veh.Artifact.{AgentArtifact}

pub data EvalStage : Type 0 where
  continue : EvalStage
  promote : EvalStage
  stop : EvalStage

-- The derived `Serialize`, with `rename_all = "snake_case"`.
unfoldable pub stage_name : EvalStage → Text
stage_name continue = text "continue"
stage_name promote = text "promote"
stage_name stop = text "stop"

module _ ⦃e : Env⦄ where
  pub record EvalResult : Type 0 where
    pub score : e.F64
    pub details : Json

  -- `EvalResult::from_score`
  unfoldable pub from_score : e.F64 → EvalResult
  from_score score = record { score = score; details = null }

  -- The derived `Serialize` of `EvalResult`.
  unfoldable pub eval_to_value : EvalResult → Json
  eval_to_value r =
      object (field (text "score") (e.f64_to_value r.score) (field (text "details") r.details end))

  unfoldable pub stage_to_value : EvalStage → Json
  unfolding stage_name
  stage_to_value s = string (stage_name s)

  -- `Value::as_f64`
  unfoldable pub as_f64 : Json → Option e.F64
  as_f64 (number n) = e.number_as_f64 n
  as_f64 _ = none

  -- `EvalResult::score` as the lifecycle reads it back from a node's `eval_results`.
  unfoldable pub recorded_score : Option Json → Option e.F64
  unfolding get as_f64
  recorded_score none = none
  recorded_score (some results) = elim (get results (text "score")) [
    | none ↦ none
    | some v ↦ as_f64 v
  ]

  -- One stage of a staged evaluation.
  pub record StagedResult : Type 0 where
    pub result : EvalResult
    pub decision : EvalStage

  -- The trait `Evaluator`: the host's benchmark.
  pub record Evaluator : Type 0 where
    pub evaluate : AgentArtifact → Outcome EvalResult
    pub evaluate_staged : AgentArtifact → ℕ → Outcome StagedResult
