-- ===== src/Selector.antt =====
-- src/selector.rs: which node of the ledger the next candidate descends from.
pub mod Chooses
pub mod Best
pub mod Children
pub mod Weighted
pub mod Promoted
use rig_veh.Prelude.{
  ℕ, ◌+◌, ◌*◌, ◌-◌, ◌^◌, ◌%◌, List, [], ◌∷◌, ◌++◌, map, Option, none, some, text, ok, err, ok_or,
  ◌>>=◌, if◌then◌else◌, filter, length, nth, next_back, find_back,
}
use mathlib.Core.Option.{get_or}
use rig_veh.Prelude.HashMap
use rig_veh.Prelude.HashMap.{HashMap}
use rig_veh.Host.{Env, HashInput, hash_u64, hash_u128, hash_text}
use rig_veh.Error
use rig_veh.Error.{Error, Outcome}
use rig_veh.Evaluator.{recorded_score}
use rig_veh.Node.{AgentId, AgentNode}
use rig_veh.Ledger.Store.{LineageStore}

abbrev pub no_parents : Error
no_parents = Error.ledger (text "no valid parent nodes in ledger")

module _ ⦃e : Env⦄ where
  -- `ParentSelector::score_of`
  unfoldable pub score_of : AgentNode → e.F64
  score_of node = get_or (recorded_score node.eval_results) e.f64_zero

  -- The identifier of the node that was found.
  abbrev pub id_or : Error → Option AgentNode → Outcome AgentId
  id_or missing none = err missing
  id_or missing (some n) = ok n.agent_id

  -- `Latest::select`, on the nodes of the store
  unfoldable pub latest : List AgentNode → Outcome AgentId
  latest nodes = id_or no_parents (find_back (λ n. n.valid_parent) nodes)

  abbrev pub Weighted : Type 0
  Weighted = List (e.F64 × AgentId)

  abbrev pub second_or : Error → Option (e.F64 × AgentId) → Outcome AgentId
  second_or missing none = err missing
  second_or missing (some (w, id)) = ok id

  -- The `match` in the loop of `Best::select`.
  abbrev pub better : Option (e.F64 × AgentId) → e.F64 → AgentId → Option (e.F64 × AgentId)
  better none score id = some (score, id)
  better (some (b, best_id)) score id =
      if e.f64_le score b then some (b, best_id) else some (score, id)

  -- One turn of the loop of `Best::select`.
  unfoldable pub consider : Option (e.F64 × AgentId) → AgentNode → Option (e.F64 × AgentId)
  consider best n = if n.valid_parent then better best (score_of n) n.agent_id else best

  unfoldable pub best_of : Option (e.F64 × AgentId) → List AgentNode → Option (e.F64 × AgentId)
  best_of best [] = best
  best_of best (n ∷ nodes) = best_of (consider best n) nodes

  -- `Best::select`
  unfoldable pub best : List AgentNode → Outcome AgentId
  unfolding best_of consider
  best nodes = second_or no_parents (best_of none nodes)

  -- The index that `Random::select` computes before the remainder; `now` is the system time in
  -- nanoseconds.
  unfoldable pub random_pick : Option ℕ → ℕ → List AgentNode → ℕ
  random_pick (some seed) now valid = seed
  random_pick none now valid =
      e.hash_finish (map (λ n. hash_text n.agent_id) valid ++ hash_u128 now ∷ [])

  abbrev pub random_from : Option ℕ → ℕ → List AgentNode → Outcome AgentId
  random_from seed now [] = err no_parents
  random_from seed now (n ∷ ns) =
      id_or (Error.ledger (text "random index out of bounds"))
        (nth (n ∷ ns) (random_pick seed now (n ∷ ns) % length (n ∷ ns)))

  -- `Random::select`
  unfoldable pub random : Option ℕ → ℕ → List AgentNode → Outcome AgentId
  random seed now nodes = random_from seed now (filter (λ n. n.valid_parent) nodes)

  unfoldable pub total_weight : Weighted → e.F64 → e.F64
  total_weight [] sum = sum
  total_weight ((w, id) ∷ rest) sum = total_weight rest (e.f64_add sum w)

  unfoldable pub pseudo_unit : Option ℕ → ℕ → Weighted → e.F64
  pseudo_unit seed now weighted =
      e.f64_div (e.f64_from (e.hash_finish (start seed ∷ map (λ w. hash_text w.1) weighted)))
        (e.f64_from (2 ^ 64 - 1))
    where
      start : Option ℕ → HashInput
      start none = hash_u128 now
      start (some s) = hash_u64 s

  -- The loop of `weighted_choice`.
  unfoldable pub walk : e.F64 → e.F64 → Weighted → Option AgentId
  walk r acc [] = none
  walk r acc ((w, id) ∷ rest) =
      let acc = e.f64_add acc w in
      let later = walk r acc rest in if e.f64_le r acc then some id else later

  -- What follows the loop.
  abbrev pub exhausted : Option AgentId → Weighted → Outcome AgentId
  exhausted (some id) weighted = ok id
  exhausted none weighted =
      second_or (Error.ledger (text "weighted_choice exhausted")) (next_back weighted)

  unfoldable pub weighted_choice : Weighted → Option ℕ → ℕ → Outcome AgentId
  unfolding total_weight walk
  weighted_choice [] seed now = err no_parents
  weighted_choice (w ∷ ws) seed now =
      let total = total_weight (w ∷ ws) e.f64_zero in
      if e.f64_le total e.f64_zero
      then second_or (Error.ledger (text "weighted_choice empty fallback")) (next_back (w ∷ ws))
      else exhausted (walk (e.f64_mul (pseudo_unit seed now (w ∷ ws)) total) e.f64_zero (w ∷ ws))
          (w ∷ ws)

  -- The nodes that can be parents, each with its weight.
  abbrev pub weigh : (AgentNode → e.F64) → List AgentNode → Weighted
  weigh weight nodes = map (λ n. (weight n, n.agent_id)) (filter (λ n. n.valid_parent) nodes)

  -- `ScoreProportional::select`
  unfoldable pub score_proportional : Option ℕ → ℕ → List AgentNode → Outcome AgentId
  score_proportional seed now nodes =
      weighted_choice (weigh (λ n. e.f64_max (score_of n) e.f64_zero) nodes) seed now

  -- `*child_counts.entry(parent).or_insert(0) += 1`, on a u32
  abbrev pub count_child : HashMap ℕ → Option AgentId → HashMap ℕ
  count_child counts none = counts
  count_child counts (some parent) =
      HashMap.insert counts parent ((get_or (HashMap.get counts parent) 0 + 1) % 2 ^ 32)

  unfoldable pub child_counts : HashMap ℕ → List AgentNode → HashMap ℕ
  child_counts counts [] = counts
  child_counts counts (n ∷ nodes) = child_counts (count_child counts n.parent_id) nodes

  -- The weight of a node: its score over one more than its children.
  unfoldable pub child_weight : HashMap ℕ → AgentNode → e.F64
  child_weight counts n =
      e.f64_div (e.f64_max (score_of n) e.f64_zero)
        (e.f64_add e.f64_one (e.f64_from (get_or (HashMap.get counts n.agent_id) 0)))

  -- `ScoreChildProportional::select`
  unfoldable pub score_child_proportional : Option ℕ → ℕ → List AgentNode → Outcome AgentId
  unfolding child_counts child_weight
  score_child_proportional seed now nodes =
      weighted_choice (weigh (child_weight (child_counts [] nodes)) nodes) seed now

module _ ⦃e : Env⦄ (store : LineageStore) where
  -- The trait `ParentSelector`, on this store.
  pub record ParentSelector : Type 0 where
    pub select : store.State → Outcome AgentId

  -- A selector that reads the nodes of the store and chooses among them, as all of the above do.
  unfoldable pub over_nodes : (List AgentNode → Outcome AgentId) → ParentSelector
  over_nodes choose = record { select = λ s. store.nodes s >>= choose }
