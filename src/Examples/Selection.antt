-- ===== src/Examples/Selection.antt =====
-- The theorems on evaluators and selectors at concrete inputs.
use rig_veh.Prelude.{
  true, false, List, [], ◌∷◌, some, text, ok, err, ◌≡◌, ◌↔◌, ◌⊎◌, any, length, arith,
}
use rig_veh.Prelude.Member.{In}
use mathlib.Core.List.{Perm}
use rig_veh.Prelude.Order.Sorted.{Ascends}
use rig_veh.Artifact.{AgentArtifact, capability_sbom}
use rig_veh.Artifact.Sbom.{Declares, capability_sbom-Ascends}
use rig_veh.Ensemble.{top_k}
use rig_veh.Ensemble.Top.{Ranked, tied, top_k-Ranked}
use rig_veh.Prelude.{map, filter, ◌++◌, ◌≤◌, Text}
use rig_veh.Host.{IsScoreOrder}
use rig_veh.Json.{null}
use rig_veh.Evaluator.{Evaluator, StagedResult, EvalResult, stop}
use rig_veh.Evaluator.Composite.{composite_evaluate}
use rig_veh.Evaluator.Staged.{Decides, composite_evaluate_iff}
use rig_veh.Node.{AgentNode}
use rig_veh.Ledger.InMemory.{in_memory}
use rig_veh.Ledger.InMemory.Refines.{in_memory_laws, new-IsValid, view}
use rig_veh.Graph.Step.{IsSound, IsSound-empty}
use rig_veh.Graph.Soundness.{cycle as cycle_call, perform_all, perform_all-IsHistory, Call}
use rig_veh.Selector.{
  no_parents, latest, best, random, score_proportional, score_child_proportional, score_of,
}
use rig_veh.Selector.Chooses.{Chooses}
use rig_veh.Selector.Best.Maximum.{best-IsMax}
use rig_veh.Selector.Promoted.{selectors-Chooses}
use rig_veh.Examples.Demo.{demo, demo-IsCrypto, agent, scope, scoring}
use rig_veh.Examples.Setup.{running, root, child, grown, veh, cycle}

demo-IsScoreOrder : IsScoreOrder
demo-IsScoreOrder = record {
  IsNumber = λ x. Unit;
  zero_IsNumber = tt;
  read_IsNumber = λ n x h. tt;
  le_refl = λ x h. ground arith;
  le_total = λ x y hx hy h. ground arith;
  le_trans = λ x y z hx hy hz p q. ground arith;
}

-- A stage that ends the evaluation.
abbrev stopping : Evaluator
stopping = record (scoring 4) {
  evaluate_staged =
      λ a i. ok (record { result = record { score = 4; details = null }; decision = stop });
}

abbrev stages : List Evaluator
stages = scoring 1 ∷ stopping ∷ scoring 9 ∷ []

abbrev four : EvalResult
four = record { score = 4; details = null }

composite_evaluate_iff_example :
    (composite_evaluate stages (agent (text "a") []) ≡ ok four)
    ↔ ((last : StagedResult) × Decides (agent (text "a") []) stages 0 last × (last.result ≡ four))
composite_evaluate_iff_example = composite_evaluate_iff (agent (text "a") []) stages four

abbrev family : List AgentNode
family = root ∷ child ∷ []

selectors-Chooses_example :
    Chooses family (latest family)
    × Chooses family (best family)
    × Chooses family (random (some 5) 0 family)
    × Chooses family (score_proportional (some 5) 0 family)
    × Chooses family (score_child_proportional (some 5) 0 family)
selectors-Chooses_example = selectors-Chooses (some 5) 0 family

best-IsMax_example :
    ((any (λ n. n.valid_parent) family ≡ false) × (best family ≡ err no_parents))
    ⊎ ((n : AgentNode) × In n family
        × (n.valid_parent ≡ true)
        × (best family ≡ ok n.agent_id)
        × ((m : AgentNode)
            → In m family
            → m.valid_parent ≡ true
            → demo.f64_le (score_of m) (score_of n) ≡ true))
best-IsMax_example = best-IsMax demo-IsScoreOrder family

abbrev founding : List Call
founding =
    Call.root (veh 7) (agent (text "root") []) scope (text "t0")
    ∷ cycle_call (veh 7) (cycle root [])
    ∷ []

pub grown-IsSound : IsSound (in_memory_laws.view grown)
unfolding running in_memory_laws view perform_all
grown-IsSound =
    (perform_all-IsHistory in_memory in_memory_laws demo-IsCrypto founding _ new-IsValid
      IsSound-empty).sound

top_k-Ranked_example :
    (taken : List AgentNode) × (rest : List AgentNode) × (top_k 1 family
      ≡ ok (map (λ n. n.agent_id) taken))
    × Perm (taken ++ rest) (filter (λ n. n.valid_parent) family)
    × Ranked (taken ++ rest)
    × ((x : AgentNode)
        → filter (tied x) (taken ++ rest) ≡ filter (tied x) (filter (λ n. n.valid_parent) family))
    × ((length taken ≡ 1) ⊎ (length taken ≤ 1) × (rest ≡ []))
top_k-Ranked_example = top_k-Ranked demo-IsScoreOrder 1 family

abbrev untidy : AgentArtifact
untidy = agent (text "b") (text "search" ∷ text "calc" ∷ text "search" ∷ [])

capability_sbom-Ascends_example :
    Ascends (capability_sbom untidy)
    × ((c : Text) → In c (capability_sbom untidy) ↔ Declares untidy.manifest c)
capability_sbom-Ascends_example = capability_sbom-Ascends untidy
