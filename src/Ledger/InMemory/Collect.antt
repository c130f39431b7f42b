-- ===== src/Ledger/InMemory/Collect.antt =====
-- What the listing of the in-memory store holds (src/ledger.rs).
use rig_veh.Prelude.{
  Bool, true, false, List, [], ◌∷◌, ◌++◌, Option, none, some, ◌==◌, ==_iff, ==_refl, any, find, inl,
  inr, if◌then◌else◌, ◌≡◌, refl, arith, ◌||◌, ◌&&◌, Bool-cases,
}
use rig_veh.Prelude.HashMap
use rig_veh.Prelude.HashMap.{
  HashMap, get-insert, contains_key-insert, get_of_contains_key, contains_key_of_get,
}
use rig_veh.Host.{Env}
use rig_veh.Node.{AgentId, AgentNode}
use rig_veh.Ledger.View.{has}
use rig_veh.Ledger.InMemory.{prepend, collect}

module _ ⦃e : Env⦄ where
  abbrev pub or_else : Option AgentNode → Option AgentNode → Option AgentNode
  or_else none o = o
  or_else (some n) o = some n

  abbrev pub is_some : Option AgentNode → Bool
  is_some none = false
  is_some (some n) = true

  -- Each node stands under its own identifier.
  abbrev pub Keyed : HashMap AgentNode → Type 0
  Keyed m = (id : AgentId) (n : AgentNode) → HashMap.get m id ≡ some n → n.agent_id ≡ id

  -- Under its own key, a node is found by the key.
  find-prepend :
      (o : Option AgentNode) (j id : AgentId) (ns : List AgentNode)
      → ((n : AgentNode) → o ≡ some n → n.agent_id ≡ j)
      → find (λ n. n.agent_id == id) (prepend o ns) ≡ (
          if j == id
          then or_else o (find (λ n. n.agent_id == id) ns)
          else find (λ n. n.agent_id == id) ns)
  find-prepend none j id ns h = ground arith
  find-prepend (some n) j id ns h = rw (h n refl) (ground arith)

  or_else_again : (b : Bool) (o : Option AgentNode) → or_else o (if b then o else none) ≡ o
  or_else_again b none = ground arith
  or_else_again b (some n) = refl

  pub find-collect :
      (m : HashMap AgentNode) (ids : List AgentId) (id : AgentId)
      → Keyed m
      → find (λ n. n.agent_id == id) (collect m ids)
        ≡ (if any (λ j. j == id) ids then HashMap.get m id else none)
  unfolding collect
  find-collect m [] id h = refl
  find-collect m (j ∷ ids) id h =
      rw (find-prepend (HashMap.get m j) j id (collect m ids) (h j), find-collect m ids id h)
        (elim (Bool-cases (j == id)) [
          | inl t ↦ rw ((==_iff j id).0 t, ==_refl id) (or_else_again (any (λ k. k == id) ids) _)
          | inr t ↦ rw t refl
        ])

  has-prepend :
      (o : Option AgentNode) (j id : AgentId) (ns : List AgentNode)
      → ((n : AgentNode) → o ≡ some n → n.agent_id ≡ j)
      → has id (prepend o ns) ≡ (j == id && is_some o || has id ns)
  has-prepend none j id ns h = ground arith
  has-prepend (some n) j id ns h = rw (h n refl) (ground arith)

  pub has-collect :
      (m : HashMap AgentNode) (ids : List AgentId) (id : AgentId)
      → Keyed m
      → has id (collect m ids) ≡ (any (λ j. j == id) ids && is_some (HashMap.get m id))
  unfolding collect
  has-collect m [] id h = refl
  has-collect m (j ∷ ids) id h =
      rw (has-prepend (HashMap.get m j) j id (collect m ids) (h j), has-collect m ids id h)
        (elim (Bool-cases (j == id)) [
          | inl t ↦ rw ((==_iff j id).0 t, ==_refl id) (ground arith)
          | inr t ↦ rw t refl
        ])

  prepend-append :
      (o : Option AgentNode) (xs ys : List AgentNode) → prepend o (xs ++ ys) ≡ prepend o xs ++ ys
  prepend-append none xs ys = refl
  prepend-append (some x) xs ys = refl

  pub collect-insert :
      (m : HashMap AgentNode) (ids : List AgentId) (n : AgentNode)
      → any (λ j. j == n.agent_id) ids ≡ false
      → collect (HashMap.insert m n.agent_id n) (ids ++ n.agent_id ∷ []) ≡ collect m ids ++ n ∷ []
  unfolding collect
  collect-insert m [] n h = rw (get-insert m n.agent_id n.agent_id n, ==_refl n.agent_id)
  collect-insert m (j ∷ ids) n h =
      let apart : (n.agent_id == j) ≡ false =
        ground (arith, ==_iff j n.agent_id, ==_iff n.agent_id j) in
      rw (get-insert m n.agent_id j n, apart, collect-insert m ids n (ground arith))
        (prepend-append (HashMap.get m j) (collect m ids) (n ∷ []))
