-- ===== src/Graph/Target.antt =====
-- The checks of the two rollbacks of src/graph.rs, read off the lineage.
use rig_veh.Prelude.{
  Option, none, some, text, ◌++◌, ok, err, ◌≡◌, inl, inr, ap, true, ok_or, find, ◌==◌, Bool-cases,
  if◌then◌else◌, ok-injective, ◌∙◌, List, >>=-eq-ok, ◌>>=◌,
}
use rig_veh.Error.{Error, Outcome}
use rig_veh.Host.{Env}
use rig_veh.Node.{AgentId, AgentNode, is_promoted}
use rig_veh.Identity.{verify_node}
use rig_veh.Ledger.View.{Lineage}

-- What `commit_rollback` returns where nothing was ever promoted.
abbrev pub no_head : Error
no_head = Error.ledger (text "ledger has no head; nothing to roll back")

module _ ⦃e : Env⦄ where
  abbrev pub promoted_only : AgentId → AgentNode → Outcome AgentNode
  promoted_only id n =
      if is_promoted n.status
      then ok n
      else err (Error.policy_denied (text "cannot roll back to non-promoted node " ++ id))

  -- The checks on a rollback target, read off the nodes of the ledger: it is there, it verifies,
  -- and it is promoted.
  abbrev pub target_in : AgentId → List AgentNode → Outcome AgentNode
  target_in id ns = ok_or (Error.not_found id) (find (λ m. m.agent_id == id) ns) >>= λ n.
      verify_node n >>= λ _. promoted_only id n

  pub record IsTarget (id : AgentId) (ns : List AgentNode) (n : AgentNode) : Type 0 where
    pub found : find (λ m. m.agent_id == id) ns ≡ some n
    pub verified : verify_node n ≡ ok tt
    pub status : is_promoted n.status ≡ true

  promoted_only-eq_ok :
      (id : AgentId) (n m : AgentNode)
      → promoted_only id n ≡ ok m
      → (n ≡ m) × (is_promoted n.status ≡ true)
  promoted_only-eq_ok id n m h = elim (Bool-cases (is_promoted n.status)) [
    | inl t ↦ (ok-injective (rw t at h), t)
    | inr t ↦ cc (rw t at h)
  ]

  pub ok_or-eq_ok :
      (x : Error) (o : Option AgentNode) (n : AgentNode) → ok_or x o ≡ ok n → o ≡ some n
  ok_or-eq_ok x none n h = cc h
  ok_or-eq_ok x (some m) n h = ap some (ok-injective h)

  pub target_in-IsTarget :
      (id : AgentId) (ns : List AgentNode) (n : AgentNode)
      → target_in id ns ≡ ok n
      → IsTarget id ns n
  target_in-IsTarget id ns n h =
      let (m, p, h₁) = >>=-eq-ok _ _ h in
      let (u, q, h₂) = >>=-eq-ok _ _ h₁ in
      let (same, t) = promoted_only-eq_ok id m n h₂ in
      record {
        found = ok_or-eq_ok _ _ m p ∙ ap some same;
        verified = rw (← same) q;
        status = rw (← same) t;
      }

  -- The target and the head of a signed rollback, or the first check that fails.
  abbrev pub rollback_parts : AgentId → Lineage → Outcome (AgentNode × AgentNode)
  rollback_parts id l = target_in id l.nodes >>= λ target. ok_or no_head l.head >>= λ parent_id.
      ok_or (Error.not_found parent_id) (find (λ m. m.agent_id == parent_id) l.nodes) >>= λ parent.
      ok (target, parent)

  -- The lineage after a rollback of the head, by the outcome of the checks.
  abbrev pub after_rollback : AgentId → Outcome AgentNode → Lineage → Lineage
  after_rollback id (ok n) l = record l { head = some id }
  after_rollback id (err x) l = l
