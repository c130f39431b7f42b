-- ===== src/Ensemble/Top.antt =====
-- `BestByMetric` of src/ensemble.rs takes the highest scores.
use rig_veh.Prelude.{
  Bool, ◌&&◌, ◌∙◌, if◌then◌else◌, ℕ, zero, suc, ◌≤◌, true, false, List, [], ◌∷◌, ◌++◌, map, ok, ◌≡◌,
  refl, ◌⊎◌, inl, inr, filter, length, take, drop, take-drop, All, Bool-cases, ap, arith,
}
use mathlib.Core.List.{Perm}
use mathlib.Core.List.Perm
use rig_veh.Host.{Env, IsScoreOrder}
use rig_veh.Node.{AgentNode}
use rig_veh.Selector.{score_of}
use rig_veh.Selector.Best.Maximum.{score_of-IsNumber}
use rig_veh.Ensemble.{overtakes, insert_ranked, sort_by_score, top_k}

module _ ⦃e : Env⦄ where
  -- Each node has at least the score of every later one.
  abbrev pub Ranked : List AgentNode → Type 0
  Ranked [] = Unit
  Ranked (n ∷ ns) = All (λ m. e.f64_le (score_of m) (score_of n) ≡ true) ns × Ranked ns

  -- Neither score is below the other.
  abbrev pub tied : AgentNode → AgentNode → Bool
  tied x n = e.f64_le (score_of x) (score_of n) && e.f64_le (score_of n) (score_of x)

  insert_ranked-Perm : (n : AgentNode) (ns : List AgentNode) → Perm (insert_ranked n ns) (n ∷ ns)
  unfolding insert_ranked
  insert_ranked-Perm n [] = Perm.refl (n ∷ [])
  insert_ranked-Perm n (m ∷ ms) = elim (Bool-cases (overtakes m n)) [
    | inl t ↦ rw t (Perm.trans (Perm.cons m (insert_ranked-Perm n ms)) (Perm.swap n m ms))
    | inr t ↦ rw t (Perm.refl (n ∷ m ∷ ms))
  ]

  sort_by_score-Perm : (ns : List AgentNode) → Perm (sort_by_score ns) ns
  unfolding sort_by_score
  sort_by_score-Perm [] = Perm.refl []
  sort_by_score-Perm (n ∷ ns) =
      Perm.trans (insert_ranked-Perm n (sort_by_score ns)) (Perm.cons n (sort_by_score-Perm ns))

  All-insert :
      (P : AgentNode → Type 0) (n : AgentNode) (ns : List AgentNode)
      → P n
      → All P ns
      → All P (insert_ranked n ns)
  unfolding insert_ranked
  All-insert P n [] p h = (p, tt)
  All-insert P n (m ∷ ms) p h = elim (Bool-cases (overtakes m n)) [
    | inl t ↦ rw t (h.0, All-insert P n ms p h.1)
    | inr t ↦ rw t (p, h)
  ]

module _ ⦃e : Env⦄ (order : IsScoreOrder) where
  -- A score that bounds another bounds what that one bounds.
  All-below :
      (n m : AgentNode) (ms : List AgentNode)
      → e.f64_le (score_of m) (score_of n) ≡ true
      → All (λ k. e.f64_le (score_of k) (score_of m) ≡ true) ms
      → All (λ k. e.f64_le (score_of k) (score_of n) ≡ true) ms
  All-below n m [] p h = tt
  All-below n m (k ∷ ms) p h = (
    order.le_trans (score_of k) (score_of m) (score_of n) (score_of-IsNumber order k)
        (score_of-IsNumber order m) (score_of-IsNumber order n) h.0 p,
    All-below n m ms p h.1,
  )

  below : (n m : AgentNode) → overtakes m n ≡ false → e.f64_le (score_of m) (score_of n) ≡ true
  below n m h = ground (
    arith,
    order.le_total (score_of n) (score_of m) (score_of-IsNumber order n)
        (score_of-IsNumber order m),
  )

  insert_ranked-Ranked :
      (n : AgentNode) (ns : List AgentNode) → Ranked ns → Ranked (insert_ranked n ns)
  unfolding insert_ranked
  insert_ranked-Ranked n [] h = (tt, tt)
  insert_ranked-Ranked n (m ∷ ms) h = elim (Bool-cases (overtakes m n)) [
    | inl t ↦ rw t (All-insert _ n ms (ground arith) h.0, insert_ranked-Ranked n ms h.1)
    | inr t ↦ let b = below n m t in rw t ((b, All-below n m ms b h.0), h)
  ]

  sort_by_score-Ranked : (ns : List AgentNode) → Ranked (sort_by_score ns)
  unfolding sort_by_score
  sort_by_score-Ranked [] = tt
  sort_by_score-Ranked (n ∷ ns) =
      insert_ranked-Ranked n (sort_by_score ns) (sort_by_score-Ranked ns)

  -- Of two nodes that are tied with a third, neither overtakes the other.
  tied_apart : (x n m : AgentNode) → overtakes m n ≡ true → tied x n ≡ true → tied x m ≡ false
  tied_apart x n m h p = ground (
    arith,
    order.le_trans (score_of m) (score_of x) (score_of n) (score_of-IsNumber order m)
        (score_of-IsNumber order x) (score_of-IsNumber order n),
  )

  insert_ranked-tied :
      (x n : AgentNode) (ns : List AgentNode)
      → filter (tied x) (insert_ranked n ns) ≡ filter (tied x) (n ∷ ns)
  unfolding insert_ranked
  insert_ranked-tied x n [] = refl
  insert_ranked-tied x n (m ∷ ms) = elim (Bool-cases (overtakes m n)) [
    | inr t ↦ rw t refl
    | inl t ↦ elim (Bool-cases (tied x n)) [
      | inl p ↦ rw (t, insert_ranked-tied x n ms, tied_apart x n m t p, p) refl
      | inr p ↦ rw (t, insert_ranked-tied x n ms, p) refl
    ]
  ]

  -- Sorting keeps the order of the nodes that are tied.
  sort_by_score-tied :
      (x : AgentNode) (ns : List AgentNode)
      → filter (tied x) (sort_by_score ns) ≡ filter (tied x) ns
  unfolding sort_by_score
  sort_by_score-tied x [] = refl
  sort_by_score-tied x (n ∷ ns) =
      insert_ranked-tied x n (sort_by_score ns)
      ∙ ap (λ l. if tied x n then n ∷ l else l) (sort_by_score-tied x ns)

  -- The first `k` of a list are `k`, unless the list ends before.
  length-take :
      (k : ℕ) (ns : List AgentNode)
      → (length (take k ns) ≡ k) ⊎ (length (take k ns) ≤ k) × (drop k ns ≡ [])
  length-take zero ns = inl refl
  length-take (suc k) [] = inr (omega arith, refl)
  length-take (suc k) (n ∷ ns) = elim (length-take k ns) [
    | inl p ↦ inl (ap suc p)
    | inr (p, q) ↦ inr (omega arith, q)
  ]

  -- On scores that compare as finite numbers do, `BestByMetric` splits the nodes that can be
  -- parents into those it takes and the rest, in an order in which no node has a lower score
  -- than a later one, and nodes with one score stand as in the ledger; it takes `k` of them, or all where there are no more.
  pub top_k-Ranked :
      (k : ℕ) (nodes : List AgentNode)
      → (taken : List AgentNode) × (rest : List AgentNode) × (top_k k nodes
          ≡ ok (map (λ n. n.agent_id) taken))
        × Perm (taken ++ rest) (filter (λ n. n.valid_parent) nodes)
        × Ranked (taken ++ rest)
        × ((x : AgentNode)
            → filter (tied x) (taken ++ rest)
              ≡ filter (tied x) (filter (λ n. n.valid_parent) nodes))
        × ((length taken ≡ k) ⊎ (length taken ≤ k) × (rest ≡ []))
  unfolding top_k
  top_k-Ranked k nodes =
      let eligible = filter (λ n. n.valid_parent) nodes in
      let sorted = sort_by_score eligible in
      (
        take k sorted,
        drop k sorted,
        refl,
        rw (take-drop k sorted) (sort_by_score-Perm eligible),
        rw (take-drop k sorted) (sort_by_score-Ranked eligible),
        (λ x. rw (take-drop k sorted) (sort_by_score-tied x eligible)),
        length-take k sorted,
      )
