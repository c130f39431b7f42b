-- ===== src/Evaluator/Staged.antt =====
-- Which stage decides a composite evaluation (`CompositeEvaluator` of src/evaluator.rs).
use rig_veh.Prelude.{
  ℕ, suc, true, false, List, [], ◌∷◌, Option, none, some, ok, err, ok_or, next_back, ◌≡◌, refl, ◌↔◌,
  ◌⊎◌, inl, inr, ◌>>=◌, >>=-eq-ok, ok-injective, Bool-cases, Result-cases, sym, ap, ◌∙◌,
}
use mathlib.Core.Option.{some-injective}
use rig_veh.Host.{Env}
use rig_veh.Error
use rig_veh.Error.{Outcome}
use rig_veh.Artifact.{AgentArtifact}
use rig_veh.Evaluator.{EvalResult, StagedResult, Evaluator}
use rig_veh.Evaluator.Composite.{settles, run_from, run, composite_evaluate}

module _ ⦃e : Env⦄ (artifact : AgentArtifact) where
  run_from-empty : (idx : ℕ) → run_from [] idx artifact ≡ ok []
  unfolding run_from
  run_from-empty idx = refl

  run_from-fails :
      (stage : Evaluator) (rest : List Evaluator) (idx : ℕ) (x : Error.Error)
      → stage.evaluate_staged artifact idx ≡ err x
      → run_from (stage ∷ rest) idx artifact ≡ err x
  unfolding run_from
  run_from-fails stage rest idx x p = rw p refl

  next_back-cons :
      (r : StagedResult) (out : List StagedResult) (last : StagedResult)
      → next_back out ≡ some last
      → next_back (r ∷ out) ≡ some last
  next_back-cons r [] last l = cc l
  next_back-cons r (x ∷ xs) last l = l

  ok_or-eq-ok :
      (x : Error.Error) (o : Option StagedResult) {last : StagedResult}
      → ok_or x o ≡ ok last
      → o ≡ some last
  ok_or-eq-ok x none h = cc h
  ok_or-eq-ok x (some a) h = cc h

  -- The stage that decides: the ones before it said to continue, and it settles the evaluation or
  -- is the last one.
  pub data Decides : List Evaluator → ℕ → StagedResult → Type 0 where
    here :
        (stage : Evaluator) (rest : List Evaluator) (idx : ℕ) (r : StagedResult)
        → stage.evaluate_staged artifact idx ≡ ok r
        → (settles r.decision ≡ true) ⊎ (rest ≡ [])
        → Decides (stage ∷ rest) idx r
    later :
        (stage : Evaluator) (rest : List Evaluator) (idx : ℕ) (r last : StagedResult)
        → stage.evaluate_staged artifact idx ≡ ok r
        → settles r.decision ≡ false
        → Decides rest (suc idx) last
        → Decides (stage ∷ rest) idx last

  run_from-settles :
      (stage : Evaluator) (rest : List Evaluator) (idx : ℕ) (r : StagedResult)
      → stage.evaluate_staged artifact idx ≡ ok r
      → settles r.decision ≡ true
      → run_from (stage ∷ rest) idx artifact ≡ ok (r ∷ [])
  unfolding run_from
  run_from-settles stage rest idx r p t = rw (p, t) refl

  run_from-continues :
      (stage : Evaluator) (rest : List Evaluator) (idx : ℕ) (r : StagedResult)
      → stage.evaluate_staged artifact idx ≡ ok r
      → settles r.decision ≡ false
      → run_from (stage ∷ rest) idx artifact
        ≡ (run_from rest (suc idx) artifact >>= λ more. ok (r ∷ more))
  unfolding run_from
  run_from-continues stage rest idx r p t = rw (p, t) refl

  -- A run without results had no stages.
  run_from-nil :
      (stages : List Evaluator) (idx : ℕ) → run_from stages idx artifact ≡ ok [] → stages ≡ []
  run_from-nil [] idx h = refl
  run_from-nil (stage ∷ rest) idx h = elim (Result-cases (stage.evaluate_staged artifact idx)) [
    | inr (x, p) ↦ cc (run_from-fails stage rest idx x p, h)
    | inl (r, p) ↦ elim (Bool-cases (settles r.decision)) [
      | inl t ↦ cc (run_from-settles stage rest idx r p t, h)
      | inr t ↦
          let (more, q, k) =
            >>=-eq-ok (run_from rest (suc idx) artifact) (λ more. ok (r ∷ more))
              (sym (run_from-continues stage rest idx r p t) ∙ h) in
          cc k
    ]
  ]

  -- A stage that continues, by what the stages after it returned.
  decided :
      (stage : Evaluator) (rest : List Evaluator) (idx : ℕ) (last r : StagedResult)
      → stage.evaluate_staged artifact idx ≡ ok r
      → settles r.decision ≡ false
      → (more : List StagedResult) → run_from rest (suc idx) artifact ≡ ok more
      → (next_back more ≡ some last → Decides rest (suc idx) last)
      → next_back (r ∷ more) ≡ some last
      → Decides (stage ∷ rest) idx last
  decided stage rest idx last r p t [] q recur k =
      let same : r ≡ last = some-injective _ _ k in
      rw (← same) (here stage rest idx r p (inr (run_from-nil rest (suc idx) q)))
  decided stage rest idx last r p t (m ∷ ms) q recur k = later stage rest idx r last p t (recur k)

  Decides-of :
      (stages : List Evaluator) (idx : ℕ) (out : List StagedResult) (last : StagedResult)
      → run_from stages idx artifact ≡ ok out
      → next_back out ≡ some last
      → Decides stages idx last
  Decides-of [] idx out last h l = cc (h, l, run_from-empty idx)
  Decides-of (stage ∷ rest) idx out last h l =
      elim (Result-cases (stage.evaluate_staged artifact idx)) [
        | inr (x, p) ↦ cc (run_from-fails stage rest idx x p, h)
        | inl (r, p) ↦ elim (Bool-cases (settles r.decision)) [
          | inl t ↦
              let o : r ∷ [] ≡ out =
                ok-injective (sym (run_from-settles stage rest idx r p t) ∙ h) in
              let same : r ≡ last = some-injective _ _ (ap next_back o ∙ l) in
              rw (← same) (here stage rest idx r p (inl t))
          | inr t ↦
              let (more, q, k) =
                >>=-eq-ok (run_from rest (suc idx) artifact) (λ more. ok (r ∷ more))
                  (sym (run_from-continues stage rest idx r p t) ∙ h) in
              decided stage rest idx last r p t more q (Decides-of rest (suc idx) more last q)
                (ap next_back (ok-injective k) ∙ l)
        ]
      ]

  run_from-Decides :
      {stages : List Evaluator} {idx : ℕ} {last : StagedResult}
      → Decides stages idx last
      → (out : List StagedResult) × (run_from stages idx artifact ≡ ok out)
        × (next_back out ≡ some last)
  run_from-Decides (here stage rest idx r p (inl t)) =
      (r ∷ [], run_from-settles stage rest idx r p t, refl)
  run_from-Decides (here stage rest idx r p (inr none_left)) =
      elim (Bool-cases (settles r.decision)) [
        | inl t ↦ (r ∷ [], run_from-settles stage rest idx r p t, refl)
        | inr t ↦ (
          r ∷ [],
          run_from-continues stage rest idx r p t ∙ rw (none_left, run_from-empty (suc idx)) refl,
          refl,
        )
      ]
  run_from-Decides (later stage rest idx r last p t d) =
      let (out, q, l) = run_from-Decides d in
      (r ∷ out, run_from-continues stage rest idx r p t ∙ rw q refl, next_back-cons r out last l)

  -- A composite evaluation returns exactly the result of the stage that decides: every stage
  -- before it ran, at its own index, and said to continue, and it said to stop or to promote or
  -- was the last stage. With no stages, or when a stage that runs fails, there is no result.
  pub composite_evaluate_iff :
      (stages : List Evaluator) (result : EvalResult)
      → (composite_evaluate stages artifact ≡ ok result)
        ↔ ((last : StagedResult) × Decides stages 0 last × (last.result ≡ result))
  unfolding composite_evaluate run
  composite_evaluate_iff stages result = (forth, back)
    where
      forth :
          composite_evaluate stages artifact ≡ ok result
          → (last : StagedResult) × Decides stages 0 last × (last.result ≡ result)
      forth h =
          let (out, p, h₁) = >>=-eq-ok (run stages artifact) _ h in
          let (last, q, k) = >>=-eq-ok _ _ h₁ in
          (last, Decides-of stages 0 out last p (ok_or-eq-ok _ _ q), ok-injective k)

      back :
          (last : StagedResult) × Decides stages 0 last × (last.result ≡ result)
          → composite_evaluate stages artifact ≡ ok result
      back (last, d, same) = let (out, p, l) = run_from-Decides d in rw (p, l, same) refl
