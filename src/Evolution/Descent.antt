-- ===== src/Evolution/Descent.antt =====
-- What a generation keeps of the ledger, and where a promoted candidate descends from
-- (`EvolutionDriver::run_generation` of src/evolution.rs).
use rig_veh.Prelude.{
  List, some, Result, ok, err, ◌≡◌, refl, ◌∙◌, sym, >>=-eq-ok, ok-injective, true, ap,
}
use rig_veh.Error.{Error, Outcome}
use rig_veh.Host.{Env, IsCrypto}
use rig_veh.Artifact.{AgentArtifact}
use rig_veh.Node.{AgentNode, AgentId, is_promoted}
use rig_veh.Identity.{verify_node, seal}
use rig_veh.Identity.RoundTrip.{sign_node-eq_ok}
use rig_veh.Ledger.Store.{LineageStore, IsLineageStore}
use rig_veh.Selector.{over_nodes}
use rig_veh.Selector.Chooses.{Chooses}
use rig_veh.Selector.Promoted.{select-promoted}
use rig_veh.Evaluator.{EvalResult}
use rig_veh.Graph.Runner.{CycleOutcome, promoted}
use rig_veh.Graph.Operations.{run_cycle, promoted_inputs}
use rig_veh.Graph.Cycle.{Cycles, run_cycle-Cycles}
use rig_veh.Graph.Step.{IsSound, stay, Step-IsSound}
use rig_veh.Graph.Refines.{Moves}
use rig_veh.Graph.Soundness.{run_cycle-Moves}
use rig_veh.Evolution.{
  Sandbox, Request, cycle_inputs, EvolutionDriver, prepare, settle, run_generation,
}
use rig_veh.Evolution.Generation.{Generation, unprepared, refused, ran, run_generation-Generation}

module _ ⦃e : Env⦄ (store : LineageStore) (laws : IsLineageStore store) (sandbox : Sandbox) where
  open store use {State, get}
  open sandbox use {Box, enforce, teardown}
  open laws use {IsValid, view}

  module _ (driver : EvolutionDriver store sandbox) (r : Request) where
    Generation-Moves :
        {s : State} {b : Box} {o : Result Error CycleOutcome} {s' : State} {b' : Box}
        → IsValid s
        → Generation store sandbox driver r s b o s' b'
        → Moves store laws s s'
    Generation-Moves v (unprepared x p) = record { valid = v; step = stay refl }
    Generation-Moves v (refused parent candidate x p q) = record { valid = v; step = stay refl }
    Generation-Moves {s} v (ran parent candidate p q) =
        run_cycle-Moves store laws driver.veh (cycle_inputs parent candidate r) s v

    -- With what the cryptography promises, a generation takes a valid state with a sound ledger
    -- to another, whatever the selector, the mutator and the sandbox do.
    pub run_generation-IsSound :
        (c : IsCrypto) (s : State) (b : Box)
        → IsValid s
        → IsSound (view s)
        → IsValid (run_generation store sandbox driver r (s, b)).1
          × IsSound (view (run_generation store sandbox driver r (s, b)).1)
    run_generation-IsSound c s b v h =
        let m = Generation-Moves v (run_generation-Generation store sandbox driver r s b) in
        (m.valid, Step-IsSound c m.step h)

  settle-ok :
      (o : Result Error CycleOutcome) (down : Result Error (Unit {0})) (result : CycleOutcome)
      → settle store sandbox o down ≡ ok result
      → (o ≡ ok result) × (down ≡ ok tt)
  settle-ok (ok x) (ok u) result h = (h, refl)
  settle-ok (ok x) (err y) result h = cc h
  settle-ok (err x) down result h = cc h

  module _ (driver : EvolutionDriver store sandbox) (r : Request) where
    pub prepare-eq_ok :
        (s : State) (parent : AgentNode) (candidate : AgentArtifact)
        → prepare store sandbox driver r s ≡ ok (parent, candidate)
        → (id : AgentId) × (driver.selector.select s ≡ ok id)
          × (get id s ≡ ok parent)
          × (driver.mutator.propose parent r.intent r.context ≡ ok candidate)
    unfolding prepare
    prepare-eq_ok s parent candidate h =
        let (id, p, h₁) = >>=-eq-ok (driver.selector.select s) _ h in
        let (found, q, h₂) = >>=-eq-ok (get id s) _ h₁ in
        let (proposed, t, h₃) = >>=-eq-ok (driver.mutator.propose found r.intent r.context) _ h₂ in
        let pair = ok-injective h₃ in
        let same : found ≡ parent = ap (λ x. x.0) pair in
        let made : proposed ≡ candidate = ap (λ x. x.1) pair in
        (
          id,
          p,
          q ∙ ap ok same,
          ap (λ n. driver.mutator.propose n r.intent r.context) (sym same) ∙ t ∙ ap ok made,
        )

    -- Where a promoted node comes from, and what happened to the sandbox on the way.
    pub record Descends (s : State) (b : Box) (n : AgentNode) (s' : State) (b' : Box) : Type 0 where
      pub parent : AgentNode
      pub in_ledger : get parent.agent_id s ≡ ok parent
      pub verified : verify_node parent ≡ ok tt
      pub status : is_promoted parent.status ≡ true
      pub parent_id : n.parent_id ≡ some parent.agent_id
      pub proposed : driver.mutator.propose parent r.intent r.context ≡ ok n.artifact
      pub enforced : (enforce n.artifact r.allowed_scope b).0 ≡ ok tt
      pub torn_down : teardown (enforce n.artifact r.allowed_scope b).1 ≡ (ok tt, b')

    -- The parts of a promoted node that the cycle takes from its inputs.
    promoted_parts :
        (parent : AgentNode) (candidate : AgentArtifact) (s : State) (n : AgentNode)
        (ev : EvalResult)
        → IsValid s
        → (run_cycle store driver.veh (cycle_inputs parent candidate r) s).0 ≡ ok (promoted n ev)
        → (n.parent_id ≡ some parent.agent_id) × (n.artifact ≡ candidate)
    unfolding promoted_inputs seal
    promoted_parts parent candidate s n ev v h =
        let c = cycle_inputs parent candidate r in
        let s' = (run_cycle store driver.veh c s).1 in
        let k : Cycles driver.veh c (view s) (ok (promoted n ev)) (view s') =
          rw h at (run_cycle-Cycles store laws driver.veh c s v) in
        let (payload, p, sealed) =
          sign_node-eq_ok (promoted_inputs c k.0 ev) driver.veh.signing_key n k.4.0 in
        rw sealed (refl, refl)

    module _ (choose : List AgentNode → Outcome AgentId)
        (chooses : (nodes : List AgentNode) → Chooses nodes (choose nodes))
        (selects : driver.selector ≡ over_nodes store choose) where
      descends :
          {s : State} {b : Box} {o : Result Error CycleOutcome} {s' : State} {b' : Box}
          (n : AgentNode) (ev : EvalResult)
          → IsValid s
          → IsSound (view s)
          → Generation store sandbox driver r s b o s' b'
          → o ≡ ok (promoted n ev)
          → Descends s b n s' b'
      descends n ev v h (unprepared x p) q = cc q
      descends n ev v h (refused parent candidate x p t) q = cc q
      descends {s} {b} n ev v h (ran parent candidate p t) q =
          let (id, chosen, got, made) = prepare-eq_ok s parent candidate p in
          let (m, held, same, verified, status) =
            select-promoted store laws choose chooses s id v h
              (ap (λ f. f.select s) (sym selects) ∙ chosen) in
          let is_parent : m ≡ parent = ok-injective (sym held ∙ got) in
          let entered = enforce candidate r.allowed_scope b in
          let (done, down) =
            settle-ok (run_cycle store driver.veh (cycle_inputs parent candidate r) s).0
              (teardown entered.1).0 (promoted n ev) q in
          let (named, kept) = promoted_parts parent candidate s n ev v done in
          record {
            parent = parent;
            in_ledger = ap (λ i. get i s) (ap (λ x. x.agent_id) (sym is_parent) ∙ same) ∙ got;
            verified = rw (← is_parent) verified;
            status = rw (← is_parent) status;
            parent_id = named;
            proposed = made ∙ ap ok (sym kept);
            enforced = rw kept t;
            torn_down = rw (kept, ← down) refl;
          }

      -- With a selector that chooses among the valid parents of a sound ledger, a generation that
      -- promotes a node took its parent from the ledger, and that parent verifies and is promoted;
      -- the node is the mutator's proposal for it, the sandbox admitted it, and the sandbox was
      -- torn down afterwards without an error.
      pub run_generation-Descends :
          (s : State) (b : Box) (n : AgentNode) (ev : EvalResult)
          → IsValid s
          → IsSound (view s)
          → (run_generation store sandbox driver r (s, b)).0 ≡ ok (promoted n ev)
          → Descends s b n
              (run_generation store sandbox driver r (s, b)).1
              (run_generation store sandbox driver r (s, b)).2
      run_generation-Descends s b n ev v h q =
          descends n ev v h (run_generation-Generation store sandbox driver r s b) q
