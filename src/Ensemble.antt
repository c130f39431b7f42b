-- ===== src/Ensemble.antt =====
-- src/ensemble.rs: the top nodes by score. The default `score_of` of this trait is that of
-- src/selector.rs, word for word.
pub mod Top
use rig_veh.Prelude.{ℕ, Bool, not, ◌&&◌, List, [], ◌∷◌, map, ok, ◌>>=◌, if◌then◌else◌, filter, take}
use rig_veh.Host.{Env}
use rig_veh.Error.{Outcome}
use rig_veh.Node.{AgentId, AgentNode}
use rig_veh.Ledger.Store.{LineageStore}
use rig_veh.Selector.{score_of}

module _ ⦃e : Env⦄ where
  -- `score_of(b).partial_cmp(&score_of(a))` is `Greater`; without an order it counts as `Equal`.
  abbrev pub overtakes : AgentNode → AgentNode → Bool
  overtakes b a = e.f64_le (score_of a) (score_of b) && not (e.f64_le (score_of b) (score_of a))

  -- A node goes behind those of the later ones that overtake it.
  unfoldable pub insert_ranked : AgentNode → List AgentNode → List AgentNode
  insert_ranked n [] = n ∷ []
  insert_ranked n (m ∷ ms) =
      let behind = insert_ranked n ms in if overtakes m n then m ∷ behind else n ∷ m ∷ ms

  -- `sort_by` is stable, and on scores that are ordered it gives what stable insertion gives.
  unfoldable pub sort_by_score : List AgentNode → List AgentNode
  unfolding insert_ranked
  sort_by_score [] = []
  sort_by_score (n ∷ ns) = insert_ranked n (sort_by_score ns)

  -- `BestByMetric::select`, on the nodes of the store
  unfoldable pub top_k : ℕ → List AgentNode → Outcome (List AgentId)
  unfolding sort_by_score
  top_k k nodes =
      ok (map (λ n. n.agent_id) (take k (sort_by_score (filter (λ n. n.valid_parent) nodes))))

module _ ⦃e : Env⦄ (store : LineageStore) where
  -- The trait `EnsembleSelector`, on this store.
  pub record EnsembleSelector : Type 0 where
    pub select : store.State → Outcome (List AgentId)

  -- `BestByMetric`
  unfoldable pub best_by_metric : ℕ → EnsembleSelector
  unfolding top_k
  best_by_metric k = record { select = λ s. store.nodes s >>= top_k k }
