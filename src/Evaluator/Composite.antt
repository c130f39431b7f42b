-- ===== src/Evaluator/Composite.antt =====
-- `StubEvaluator` and `CompositeEvaluator` of src/evaluator.rs.
use rig_veh.Prelude.{
  ℕ, suc, Bool, true, false, List, [], ◌∷◌, text, ok, ok_or, next_back, ◌>>=◌, if◌then◌else◌,
}
use rig_veh.Host.{Env}
use rig_veh.Error
use rig_veh.Error.{Outcome}
use rig_veh.Artifact.{AgentArtifact}
use rig_veh.Evaluator.{
  EvalStage, continue, promote, stop, EvalResult, from_score, StagedResult, Evaluator,
}

-- `matches!(decision, EvalStage::Stop | EvalStage::Promote)`
abbrev pub settles : EvalStage → Bool
settles continue = false
settles promote = true
settles stop = true

module _ ⦃e : Env⦄ where
  -- An evaluator with the trait's own `evaluate_staged`.
  unfoldable pub single_stage : (AgentArtifact → Outcome EvalResult) → Evaluator
  single_stage evaluate = record {
    evaluate = evaluate;
    evaluate_staged = λ artifact stage.
        evaluate artifact >>= λ result. ok (record { result = result; decision = continue });
  }

  -- `StubEvaluator`
  unfoldable pub stub_evaluator : e.F64 → Evaluator
  unfolding from_score single_stage
  stub_evaluator score = single_stage (λ artifact. ok (from_score score))

  -- The loop of `CompositeEvaluator::run`, from the stage at `idx` on.
  unfoldable pub run_from : List Evaluator → ℕ → AgentArtifact → Outcome (List StagedResult)
  run_from [] idx artifact = ok []
  run_from (stage ∷ stages) idx artifact = do
    staged ← stage.evaluate_staged artifact idx
    let later = run_from stages (suc idx) artifact
    rest ← if settles staged.decision then ok [] else later
    ok (staged ∷ rest)

  unfoldable pub run : List Evaluator → AgentArtifact → Outcome (List StagedResult)
  unfolding run_from
  run stages artifact = run_from stages 0 artifact

  unfoldable pub composite_evaluate : List Evaluator → AgentArtifact → Outcome EvalResult
  composite_evaluate stages artifact = do
    runs ← run stages artifact
    last ← ok_or (Error.evaluator (text "composite has no stages")) (next_back runs)
    ok last.result

  -- `impl Evaluator for CompositeEvaluator`
  unfoldable pub composite_evaluator : List Evaluator → Evaluator
  unfolding composite_evaluate single_stage
  composite_evaluator stages = single_stage (composite_evaluate stages)
