-- ===== src/Selector/Children.antt =====
-- The child counts of `ScoreChildProportional` (src/selector.rs).
use rig_veh.Prelude.{
  ℕ, suc, ◌+◌, ◌%◌, ◌^◌, ◌<◌, Bool, false, List, [], ◌∷◌, Option, none, some, ◌≡◌, refl, filter,
  length, arith, ◌==◌, if◌then◌else◌, Bool-cases, ==_iff, inl, inr, ◌∙◌,
}
use mathlib.Core.Option.{get_or}
use rig_veh.Prelude.HashMap
use rig_veh.Prelude.HashMap.{HashMap, get-insert}
use rig_veh.Host.{Env}
use rig_veh.Node.{AgentId, AgentNode}
use rig_veh.Selector.{count_child, child_counts}

abbrev counted : HashMap ℕ → AgentId → ℕ
counted counts id = get_or (HashMap.get counts id) 0

abbrev names : Option AgentId → AgentId → Bool
names none id = false
names (some parent) id = parent == id

module _ ⦃e : Env⦄ where
  -- The nodes whose parent has this identifier.
  abbrev pub children : AgentId → List AgentNode → List AgentNode
  children id = filter (λ n. names n.parent_id id)

  counted-count_child :
      (counts : HashMap ℕ) (parent : Option AgentId) (id : AgentId)
      → counted (count_child counts parent) id
        ≡ (if names parent id then (counted counts id + 1) % 2 ^ 32 else counted counts id)
  counted-count_child counts none id = refl
  counted-count_child counts (some p) id = elim (Bool-cases (p == id)) [
    | inl t ↦
        let same = (==_iff p id).0 t in
        rw (get-insert counts p id ((counted counts p + 1) % 2 ^ 32), t, same) refl
    | inr t ↦ rw (get-insert counts p id ((counted counts p + 1) % 2 ^ 32), t) refl
  ]

  -- One node more.
  wraps : (a k m r : ℕ) → a ≡ (m + 1) % 2 ^ 32 → r ≡ (a + k) % 2 ^ 32 → r ≡ (m + suc k) % 2 ^ 32
  wraps a k m r p q = omega arith

  remainder_small : (m : ℕ) → (m + 1) % 2 ^ 32 < 2 ^ 32
  remainder_small m = omega arith

  counted-child_counts :
      (counts : HashMap ℕ) (nodes : List AgentNode) (id : AgentId)
      → counted counts id < 2 ^ 32
      → counted (child_counts counts nodes) id
        ≡ (counted counts id + length (children id nodes)) % 2 ^ 32
  unfolding child_counts
  counted-child_counts counts [] id h = omega arith
  counted-child_counts counts (n ∷ nodes) id h = elim (Bool-cases (names n.parent_id id)) [
    | inl t ↦
        let step = rw t at (counted-count_child counts n.parent_id id) in
        let rest =
          counted-child_counts (count_child counts n.parent_id) nodes id
            (rw step (remainder_small (counted counts id))) in
        rw t (wraps _ (length (children id nodes)) (counted counts id) _ step rest)
    | inr t ↦
        let step = rw t at (counted-count_child counts n.parent_id id) in
        let rest = counted-child_counts (count_child counts n.parent_id) nodes id (rw step h) in
        rw t (rw step at rest)
  ]

  -- The count for a node is the number of nodes that name it as their parent, modulo 2 ^ 32.
  pub child_counts-children :
      (nodes : List AgentNode) (id : AgentId)
      → get_or (HashMap.get (child_counts [] nodes) id) 0 ≡ length (children id nodes) % 2 ^ 32
  unfolding HashMap.get
  child_counts-children nodes id =
      counted-child_counts [] nodes id (omega arith) ∙ plus_none (length (children id nodes))
    where
      plus_none : (k : ℕ) → (0 + k) % 2 ^ 32 ≡ k % 2 ^ 32
      plus_none k = omega arith
