-- ===== src/Evolution/Tasks/Concurrent.antt =====
-- What calls of the runner and generations that take turns on one ledger keep (src/graph.rs and
-- src/evolution.rs).
use rig_veh.Prelude.{ℕ, List, [], ◌∷◌, map, All, refl}
use rig_veh.Host.{Env, IsCrypto}
use rig_veh.Ledger.View.{Lineage}
use rig_veh.Ledger.Store.{LineageStore, IsLineageStore}
use rig_veh.Graph.Operations.{promoted_inputs, rejected_inputs}
use rig_veh.Graph.Step.{IsSound}
use rig_veh.Graph.Soundness.{IsHistory}
use rig_veh.Graph.Forest.{IsForest, Planted-IsForest}
use rig_veh.Graph.Ancestry.{Named}
use rig_veh.Graph.Tasks.{interleave}
use rig_veh.Graph.Tasks.Interleaving.{Reaches-Extends, Reaches-IsSound, interleave-Running}
use rig_veh.Graph.Tasks.Placed.{
  Anything, call-Anything, PlacedIn, Placed-Extends, held-lookup, call-PlacedIn, Reaches-Planted,
}
use rig_veh.Evolution.Tasks.{Job, call, generation, job_task}
use rig_veh.Evolution.Tasks.Start.{PermitsJob, jobs-Safe}

module _ ⦃e : Env⦄ where
  jobs-Anything : (jobs : List Job) (l : Lineage) → All (PermitsJob Anything l) jobs
  jobs-Anything [] l = tt
  jobs-Anything (call c ∷ jobs) l = (call-Anything c l, jobs-Anything jobs l)
  jobs-Anything (generation run ∷ jobs) l =
      (λ m id parent candidate p. λ d ev. (tt, tt), jobs-Anything jobs l)

  -- A call names its parent from this ledger; a generation gets its own from the store.
  abbrev pub NamedJob : Lineage → Job → Type 0
  NamedJob l (call c) = Named l c
  NamedJob l (generation run) = Unit

  jobs-PlacedIn :
      (jobs : List Job) (l : Lineage) → All (NamedJob l) jobs → All (PermitsJob PlacedIn l) jobs
  unfolding promoted_inputs rejected_inputs
  jobs-PlacedIn [] l h = tt
  jobs-PlacedIn (call c ∷ jobs) l h = (call-PlacedIn c l h.0, jobs-PlacedIn jobs l h.1)
  jobs-PlacedIn (generation run ∷ jobs) l h = (
    λ m id parent candidate p. λ d ev.
        let found = held-lookup id m parent p in ((parent, found, refl), (parent, found, refl)),
    jobs-PlacedIn jobs l h.1,
  )

module _ ⦃e : Env⦄ (store : LineageStore) (laws : IsLineageStore store) where
  open store use {State}
  open laws use {IsValid, view}

  -- On a store that keeps the laws of the trait, with what the cryptography promises, any calls
  -- of any runners, and generations of any drivers whose selector chooses among the nodes of the
  -- store, that take turns at every call of the store, in any order and to any point, keep the
  -- ledger of a valid state sound, and the nodes that were there, in their order.
  pub interleave-IsHistory :
      (c : IsCrypto) (order : List ℕ) (jobs : List Job) (s : State)
      → IsValid s
      → IsSound (view s)
      → IsHistory store laws (view s) (view (interleave store order (map job_task jobs) s).1)
  interleave-IsHistory c order jobs s v h =
      let r =
        interleave-Running Anything (λ inputs l m x p. tt) store laws order (map job_task jobs) s v
          (jobs-Safe Anything jobs (view s) (jobs-Anything jobs (view s))) in
      record {
        sound = Reaches-IsSound Anything c r.reached h;
        extends = Reaches-Extends Anything (view s) r.reached;
      }

  -- On a store that keeps the laws of the trait, generations whose selector chooses
  -- among the nodes of the store, and calls that name their parents
  -- from the ledger of the valid state in which they start, keep its lineage a forest, in whatever
  -- order they take turns.
  pub interleave-IsForest :
      (order : List ℕ) (jobs : List Job) (s : State)
      → IsValid s
      → All (NamedJob (view s)) jobs
      → IsForest (view s)
      → IsForest (view (interleave store order (map job_task jobs) s).1)
  interleave-IsForest order jobs s v named h =
      let r =
        interleave-Running PlacedIn
          (λ inputs l m x p. Placed-Extends inputs.generation inputs.parent_id l m x p) store laws
          order (map job_task jobs) s v
          (jobs-Safe PlacedIn jobs (view s) (jobs-PlacedIn jobs (view s) named)) in
      Planted-IsForest (view (interleave store order (map job_task jobs) s).1)
        (Reaches-Planted r.reached h.planted)
