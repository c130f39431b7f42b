-- ===== src/Graph/Commit.antt =====
-- What a commit does to the ledger (src/graph.rs: the last steps of every operation that appends).
use rig_veh.Prelude.{ok, err, Result, Result-cases, ◌≡◌, refl, false, inl, inr}
use rig_veh.Error.{Error}
use rig_veh.Host.{Env}
use rig_veh.Node.{AgentNode}
use rig_veh.Identity.{CommitInputs, sign_node}
use rig_veh.Ledger.View.{Lineage, push, has}
use rig_veh.Ledger.Store.{LineageStore, IsLineageStore}
use rig_veh.Graph.Operations.{sign_and_append}

-- A commit over these inputs: the node that it returns is signed over them, is new, and is the
-- one node that was appended; on an error the lineage is as it was.
module _ ⦃e : Env⦄ (inputs : CommitInputs) (key : e.SigningKey) where
  abbrev pub Commits : Lineage → Result Error AgentNode → Lineage → Type 0
  Commits l (ok n) l' =
      (sign_node inputs key ≡ ok n) × (has n.agent_id l.nodes ≡ false) × (l' ≡ push n l)
  Commits l (err x) l' = l' ≡ l

module _ ⦃e : Env⦄ (store : LineageStore) (laws : IsLineageStore store) where
  open store use {State, append}
  open laws use {IsValid, view, append-IsValid, view-append, append_fresh}

  pub sign_and_append-IsValid :
      (inputs : CommitInputs) (key : e.SigningKey) (s : State)
      → IsValid s
      → IsValid (sign_and_append store inputs key s).1
  unfolding sign_and_append
  sign_and_append-IsValid inputs key s v = elim (Result-cases (sign_node inputs key)) [
    | inr (x, p) ↦ rw (p, sign_and_append) v
    | inl (n, p) ↦ elim (Result-cases (append n s).0) [
      | inl (u, q) ↦ rw (p, q, sign_and_append) (append-IsValid n s v)
      | inr (x, q) ↦ rw (p, q, sign_and_append) (append-IsValid n s v)
    ]
  ]

  pub sign_and_append-Commits :
      (inputs : CommitInputs) (key : e.SigningKey) (s : State)
      → IsValid s
      → Commits inputs key
          (view s)
          (sign_and_append store inputs key s).0
          (view (sign_and_append store inputs key s).1)
  unfolding sign_and_append
  sign_and_append-Commits inputs key s v = elim (Result-cases (sign_node inputs key)) [
    | inr (x, p) ↦ rw (p, sign_and_append) refl
    | inl (n, p) ↦ elim (Result-cases (append n s).0) [
      | inl (u, q) ↦
          rw (p, q, sign_and_append) (p, append_fresh n s v q, rw q at (view-append n s v))
      | inr (x, q) ↦ rw (p, q, sign_and_append) (rw q at (view-append n s v))
    ]
  ]
