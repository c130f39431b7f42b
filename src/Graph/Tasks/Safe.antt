-- ===== src/Graph/Tasks/Safe.antt =====
-- What a task may still write, whatever the others do in between (src/graph.rs).
use rig_veh.Prelude.{
  false, some, [], append-nil, Result, Result-cases, ok, ok_or, find, ◌==◌, find-append_some, ◌≡◌,
  refl, sym, inl, inr, any_of_find,
}
use rig_veh.Error.{Error, Outcome}
use rig_veh.Host.{Env}
use rig_veh.Node.{AgentId, AgentNode, is_promoted}
use rig_veh.Identity.{CommitInputs, sign_node}
use rig_veh.Ledger.View.{Lineage, push, has}
use rig_veh.Ledger.Store.{LineageStore, IsLineageStore}
use rig_veh.Graph.Step.{Step, stay, commit, revert, Extends, Step-Extends, Extends-trans}
use rig_veh.Graph.Target.{IsTarget}
use rig_veh.Graph.Tasks.{Task, finished, gets, heads, lists, appends, sets_head, advance}

module _ ⦃e : Env⦄ where
  -- What a store with this lineage returns for an identifier.
  abbrev pub held : AgentId → Lineage → Outcome AgentNode
  held id l = ok_or (Error.not_found id) (find (λ n. n.agent_id == id) l.nodes)

  pub Extends-refl : (l : Lineage) → Extends l l
  Extends-refl l = ([], sym (append-nil l.nodes))

-- `Permitted` says which inputs a task may commit on a lineage.
module _ ⦃e : Env⦄ (Permitted : Lineage → CommitInputs → Type 0) where
  -- A node signed over permitted inputs, which make exactly the promoted eligible.
  pub record IsSigned (l : Lineage) (n : AgentNode) : Type 0 where
    pub inputs : CommitInputs
    pub key : e.SigningKey
    pub signed : sign_node inputs key ≡ ok n
    pub flag : inputs.valid_parent ≡ is_promoted inputs.status
    pub permitted : Permitted l inputs

  -- From this lineage on, and however others extend it before each call, the task appends only
  -- signed nodes, and moves the head only to promoted nodes that verify.
  unfoldable pub Safe : Lineage → Task → Type 0
  Safe l (finished r) = Unit
  Safe l (gets id k) = (m : Lineage) → Extends l m → Safe m (k (held id m))
  Safe l (heads k) = (m : Lineage) → Extends l m → Safe m (k (ok m.head))
  Safe l (lists k) = (m : Lineage) → Extends l m → Safe m (k (ok m.nodes))
  Safe l (appends n k) =
      IsSigned l n × ((m : Lineage) → (r : Result Error (Unit {0})) → Extends l m → Safe m (k r))
  Safe l (sets_head id k) =
      ((n : AgentNode) × IsTarget id l.nodes n)
      × ((m : Lineage) → (r : Result Error (Unit {0})) → Extends l m → Safe m (k r))

  -- What one call of the store may do to the lineage.
  pub data Writes (l l' : Lineage) : Type 0 where
    nothing : l' ≡ l → Writes l l'
    appended :
        (n : AgentNode)
        → IsSigned l n
        → has n.agent_id l.nodes ≡ false
        → l' ≡ push n l
        → Writes l l'
    reverted :
        (id : AgentId) (n : AgentNode)
        → IsTarget id l.nodes n
        → l' ≡ record l { head = some id }
        → Writes l l'

  pub Writes-Step : {l l' : Lineage} → Writes l l' → Step l l'
  Writes-Step (nothing p) = stay p
  Writes-Step (appended n h fresh p) = commit h.inputs h.key n h.signed h.flag fresh p
  Writes-Step (reverted id n t p) = revert id n t.found t.verified t.status p

module _ ⦃e : Env⦄ where
  IsTarget-Extends :
      (id : AgentId) (l m : Lineage) (n : AgentNode)
      → Extends l m
      → IsTarget id l.nodes n
      → IsTarget id m.nodes n
  IsTarget-Extends id l m n (ns, p) t = record {
    found = rw p (find-append_some (λ k. k.agent_id == id) l.nodes ns n t.found);
    verified = t.verified;
    status = t.status;
  }

-- What is permitted stays so when others append.
module _ ⦃e : Env⦄ (Permitted : Lineage → CommitInputs → Type 0)
    (lasts : (inputs : CommitInputs) (l m : Lineage)
      → Extends l m
      → Permitted l inputs
      → Permitted m inputs) where
  -- What others append does not make a task unsafe.
  pub Safe-Extends :
      (t : Task) (l m : Lineage) → Extends l m → Safe Permitted l t → Safe Permitted m t
  unfolding Safe
  Safe-Extends (finished r) l m x h = tt
  Safe-Extends (gets id k) l m x h = λ m' y. h m' (Extends-trans l m m' x y)
  Safe-Extends (heads k) l m x h = λ m' y. h m' (Extends-trans l m m' x y)
  Safe-Extends (lists k) l m x h = λ m' y. h m' (Extends-trans l m m' x y)
  Safe-Extends (appends n k) l m x h = (
    record {
      inputs = h.0.inputs;
      key = h.0.key;
      signed = h.0.signed;
      flag = h.0.flag;
      permitted = lasts h.0.inputs l m x h.0.permitted;
    },
    λ m' r y. h.1 m' r (Extends-trans l m m' x y),
  )
  Safe-Extends (sets_head id k) l m x h = (
    (h.0.0, IsTarget-Extends id l m h.0.0 x h.0.1),
    λ m' r y. h.1 m' r (Extends-trans l m m' x y),
  )

module _ ⦃e : Env⦄ (Permitted : Lineage → CommitInputs → Type 0) (store : LineageStore)
    (laws : IsLineageStore store) where
  open store use {State, append, get, head, set_head}
  open laws use {
    IsValid, view, append-IsValid, set_head-IsValid, view-append, append_fresh, get_lem, head_lem,
    nodes_lem, view-set_head,
  }

  -- What one call of a safe task does.
  pub record Advances (s : State) (t' : Task) (s' : State) : Type 0 where
    pub valid : IsValid s'
    pub written : Writes Permitted (view s) (view s')
    pub safe : Safe Permitted (view s') t'

  append-Writes :
      (n : AgentNode) (s : State)
      → IsValid s
      → IsSigned Permitted (view s) n
      → Writes Permitted (view s) (view (append n s).1)
  append-Writes n s v h = elim (Result-cases (append n s).0) [
    | inl (u, q) ↦ appended n h (append_fresh n s v q) (rw q at (view-append n s v))
    | inr (x, q) ↦ nothing (rw q at (view-append n s v))
  ]

  set_head-Writes :
      (id : AgentId) (n : AgentNode) (s : State)
      → IsValid s
      → IsTarget id (view s).nodes n
      → Writes Permitted (view s) (view (set_head id s).1)
  set_head-Writes id n s v t =
      let there = any_of_find (λ m. m.agent_id == id) (view s).nodes n t.found in
      reverted id n t (rw there at (view-set_head id s v))

  -- A turn of a safe task writes what the task may write, and the task stays safe.
  pub advance-Advances :
      (t : Task) (s : State)
      → IsValid s
      → Safe Permitted (view s) t
      → Advances s (advance store t s).0 (advance store t s).1
  unfolding Safe advance
  advance-Advances (finished r) s v h = record { valid = v; written = nothing refl; safe = tt }
  advance-Advances (gets id k) s v h = record {
    valid = v;
    written = nothing refl;
    safe = rw (get_lem id s v) (h (view s) (Extends-refl (view s)));
  }
  advance-Advances (heads k) s v h = record {
    valid = v;
    written = nothing refl;
    safe = rw (head_lem s v) (h (view s) (Extends-refl (view s)));
  }
  advance-Advances (lists k) s v h = record {
    valid = v;
    written = nothing refl;
    safe = rw (nodes_lem s v) (h (view s) (Extends-refl (view s)));
  }
  advance-Advances (appends n k) s v h =
      let w = append-Writes n s v h.0 in
      record {
        valid = append-IsValid n s v;
        written = w;
        safe = h.1 (view (append n s).1) (append n s).0 (Step-Extends (Writes-Step Permitted w));
      }
  advance-Advances (sets_head id k) s v h =
      let w = set_head-Writes id h.0.0 s v h.0.1 in
      record {
        valid = set_head-IsValid id s v;
        written = w;
        safe =
            h.1 (view (set_head id s).1) (set_head id s).0 (Step-Extends (Writes-Step Permitted w));
      }
