-- ===== src/Evaluator/Retrieval.antt =====
-- `RetrievalEvaluator` of src/rag_evaluator.rs. The report is that of another crate: its rows and
-- its JSON are parameters, and so is the closure of the host that makes it.
use rig_veh.Prelude.{
  List, [], ◌∷◌, ◌++◌, Option, none, some, Text, text, Result, ok, err, ok_or, ◌≡◌, refl, ◌==◌,
  ==_iff, find, any, ◌>>=◌, >>=-eq-ok, ok-injective, Bool-cases, inl, inr, false, ap, sym,
}
use rig_veh.Host.{Env, Json}
use rig_veh.Json.{null}
use rig_veh.Error
use rig_veh.Error.{Outcome}
use rig_veh.Artifact.{AgentArtifact}
use rig_veh.Evaluator.{EvalResult, Evaluator}
use rig_veh.Evaluator.Composite.{single_stage}

module _ ⦃e : Env⦄ where
  -- A row of a report: the name of a metric, and its mean.
  pub record MetricRow : Type 0 where
    pub metric : Text
    pub mean : e.F64

  -- What the evaluator reads of a report.
  pub record MultiReport : Type 0 where
    pub metrics : List MetricRow
    pub to_value : Result Text Json

  abbrev pub ReportFactory : Type 0
  ReportFactory = AgentArtifact → Outcome MultiReport

  -- `unwrap_or(Value::Null)`
  abbrev pub or_null : Result Text Json → Json
  or_null (ok v) = v
  or_null (err why) = null

  -- The error for a metric that is not there.
  abbrev pub no_metric : Text → Error.Error
  no_metric name = Error.evaluator (text "metric " ++ name ++ text " not in report")

  unfoldable pub retrieval_evaluate : Text → ReportFactory → AgentArtifact → Outcome EvalResult
  retrieval_evaluate primary_metric factory artifact = do
    report ← factory artifact
    row ← ok_or (no_metric primary_metric) (find (λ r. r.metric == primary_metric) report.metrics)
    ok (record { score = row.mean; details = or_null report.to_value })

  -- `RetrievalEvaluator`
  unfoldable pub retrieval_evaluator : Text → ReportFactory → Evaluator
  unfolding retrieval_evaluate single_stage
  retrieval_evaluator primary_metric factory =
      single_stage (retrieval_evaluate primary_metric factory)

  -- The first row with a name.
  pub record First (name : Text) (rows : List MetricRow) (row : MetricRow) : Type 0 where
    pub before : List MetricRow
    pub after : List MetricRow
    pub split : rows ≡ before ++ row ∷ after
    pub unnamed : any (λ r. r.metric == name) before ≡ false
    pub named : row.metric ≡ name

  First-find :
      (name : Text) (rows : List MetricRow) (row : MetricRow)
      → find (λ r. r.metric == name) rows ≡ some row
      → First name rows row
  First-find name [] row h = cc h
  First-find name (r ∷ rows) row h = elim (Bool-cases (r.metric == name)) [
    | inl t ↦
        let same : r ≡ row = cc (rw t at h) in
        rw (← same) (record {
          before = [];
          after = rows;
          split = refl;
          unnamed = refl;
          named = (==_iff r.metric name).0 t;
        })
    | inr t ↦
        let later = First-find name rows row (rw t at h) in
        record {
          before = r ∷ later.before;
          after = later.after;
          split = ap (λ l. r ∷ l) later.split;
          unnamed = rw t later.unnamed;
          named = later.named;
        }
  ]

  found_row :
      (x : Error.Error) (o : Option MetricRow) (row : MetricRow) → ok_or x o ≡ ok row → o ≡ some row
  found_row x none row h = cc h
  found_row x (some r) row h = cc h

  -- A retrieval evaluation that returns a result scores the candidate by the mean of the first row
  -- of its report that has the name of the primary metric.
  pub retrieval_evaluate-First :
      (name : Text) (factory : ReportFactory) (artifact : AgentArtifact) (result : EvalResult)
      → retrieval_evaluate name factory artifact ≡ ok result
      → (report : MultiReport) × (row : MetricRow) × (factory artifact ≡ ok report)
        × First name report.metrics row
        × (result.score ≡ row.mean)
  unfolding retrieval_evaluate
  retrieval_evaluate-First name factory artifact result h =
      let (report, p, k) = >>=-eq-ok (factory artifact) _ h in
      let (row, q, l) =
        >>=-eq-ok (ok_or (no_metric name) (find (λ r. r.metric == name) report.metrics)) _ k in
      (
        report,
        row,
        p,
        First-find name report.metrics row (found_row (no_metric name) _ row q),
        ap (λ r. r.score) (sym (ok-injective l)),
      )
