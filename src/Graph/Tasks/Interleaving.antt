-- ===== src/Graph/Tasks/Interleaving.antt =====
-- Any number of tasks that take turns on one ledger, at every call of the store (src/graph.rs).
use rig_veh.Prelude.{ℕ, zero, suc, List, [], ◌∷◌, All}
use rig_veh.Host.{Env, IsCrypto}
use rig_veh.Identity.{CommitInputs}
use rig_veh.Ledger.View.{Lineage}
use rig_veh.Ledger.Store.{LineageStore, IsLineageStore}
use rig_veh.Graph.Step.{IsSound, Step-IsSound, Extends, Step-Extends, Extends-trans}
use rig_veh.Graph.Tasks.{Task, turn, interleave}
use rig_veh.Graph.Tasks.Safe.{
  Writes, Writes-Step, Safe, Extends-refl, Safe-Extends, advance-Advances,
}

-- What the lineage goes through.
module _ ⦃e : Env⦄ (Permitted : Lineage → CommitInputs → Type 0) where
  pub data Reaches (l : Lineage) : Lineage → Type 0 where
    here : Reaches l l
    next : {m n : Lineage} → Reaches l m → Writes Permitted m n → Reaches l n

  Reaches-trans : {l m n : Lineage} → Reaches l m → Reaches m n → Reaches l n
  Reaches-trans r here = r
  Reaches-trans r (next s w) = next (Reaches-trans r s) w

  pub Reaches-Extends : (l : Lineage) {m : Lineage} → Reaches l m → Extends l m
  Reaches-Extends l here = Extends-refl l
  Reaches-Extends l (next {m} {n} r w) =
      Extends-trans l m n (Reaches-Extends l r) (Step-Extends (Writes-Step Permitted w))

  pub Reaches-IsSound : (c : IsCrypto) {l m : Lineage} → Reaches l m → IsSound l → IsSound m
  Reaches-IsSound c here h = h
  Reaches-IsSound c (next r w) h = Step-IsSound c (Writes-Step Permitted w) (Reaches-IsSound c r h)

module _ ⦃e : Env⦄ (Permitted : Lineage → CommitInputs → Type 0)
    (lasts : (inputs : CommitInputs) (l m : Lineage)
      → Extends l m
      → Permitted l inputs
      → Permitted m inputs) where
  All-Safe-Extends :
      (ts : List Task) (l m : Lineage)
      → Extends l m
      → All (Safe Permitted l) ts
      → All (Safe Permitted m) ts
  All-Safe-Extends [] l m x h = tt
  All-Safe-Extends (t ∷ ts) l m x h =
      (Safe-Extends Permitted lasts t l m x h.0, All-Safe-Extends ts l m x h.1)

module _ ⦃e : Env⦄ (Permitted : Lineage → CommitInputs → Type 0)
    (lasts : (inputs : CommitInputs) (l m : Lineage)
      → Extends l m
      → Permitted l inputs
      → Permitted m inputs)
    (store : LineageStore) (laws : IsLineageStore store) where
  open store use {State}
  open laws use {IsValid, view}

  -- A state that the tasks may go on from.
  pub record Running (l : Lineage) (ts : List Task) (s : State) : Type 0 where
    pub valid : IsValid s
    pub reached : Reaches Permitted l (view s)
    pub safe : All (Safe Permitted (view s)) ts

  turn-Running :
      (i : ℕ) (ts : List Task) (s : State)
      → IsValid s
      → All (Safe Permitted (view s)) ts
      → Running (view s) (turn store i ts s).0 (turn store i ts s).1
  unfolding turn
  turn-Running i [] s v safe = record { valid = v; reached = here; safe = tt }
  turn-Running zero (t ∷ ts) s v safe =
      let a = advance-Advances Permitted store laws t s v safe.0 in
      let x = Step-Extends (Writes-Step Permitted a.written) in
      record {
        valid = a.valid;
        reached = next here a.written;
        safe = (a.safe, All-Safe-Extends Permitted lasts ts (view s) _ x safe.1);
      }
  turn-Running (suc i) (t ∷ ts) s v safe =
      let r = turn-Running i ts s v safe.1 in
      let x = Reaches-Extends Permitted (view s) r.reached in
      record {
        valid = r.valid;
        reached = r.reached;
        safe = (Safe-Extends Permitted lasts t (view s) _ x safe.0, r.safe);
      }

  -- Tasks that start safe reach, in any order of turns, only what they may write.
  pub interleave-Running :
      (order : List ℕ) (ts : List Task) (s : State)
      → IsValid s
      → All (Safe Permitted (view s)) ts
      → Running (view s) (interleave store order ts s).0 (interleave store order ts s).1
  unfolding interleave
  interleave-Running [] ts s v safe = record { valid = v; reached = here; safe = safe }
  interleave-Running (i ∷ order) ts s v safe =
      let a = turn-Running i ts s v safe in
      let r = interleave-Running order (turn store i ts s).0 (turn store i ts s).1 a.valid a.safe in
      record {
        valid = r.valid;
        reached = Reaches-trans Permitted a.reached r.reached;
        safe = r.safe;
      }
