-- ===== src/Evolution/Endings.antt =====
-- How a generation ends (`EvolutionDriver::run_generation` of src/evolution.rs).
use rig_veh.Prelude.{Result, Result-cases, ok, err, ◌≡◌, inl, inr}
use rig_veh.Error.{Error}
use rig_veh.Host.{Env}
use rig_veh.Artifact.{AgentArtifact}
use rig_veh.Node.{AgentId, AgentNode}
use rig_veh.Ledger.Store.{LineageStore}
use rig_veh.Graph.Runner.{CycleOutcome}
use rig_veh.Graph.Operations.{run_cycle}
use rig_veh.Evolution.{Sandbox, Request, cycle_inputs, EvolutionDriver, prepare, run_generation}

module _ ⦃e : Env⦄ (store : LineageStore) (sandbox : Sandbox)
    (driver : EvolutionDriver store sandbox) (r : Request) where
  open store use {State, get}
  open sandbox use {Box, enforce, teardown}

  -- The selector chooses this parent from the ledger, and the mutator proposes this candidate.
  pub record Proposes (s : State) (parent : AgentNode) (candidate : AgentArtifact) : Type 0 where
    pub id : AgentId
    pub chosen : driver.selector.select s ≡ ok id
    pub found : get id s ≡ ok parent
    pub proposed : driver.mutator.propose parent r.intent r.context ≡ ok candidate

  -- The result, the ledger and the sandbox that a generation leaves.
  pub data Ends (s : State) (b : Box) : Result Error CycleOutcome → State → Box → Type 0 where
    no_choice : (x : Error) → driver.selector.select s ≡ err x → Ends s b (err x) s b
    no_parent :
        (id : AgentId) (x : Error)
        → driver.selector.select s ≡ ok id
        → get id s ≡ err x
        → Ends s b (err x) s b
    no_candidate :
        (id : AgentId) (parent : AgentNode) (x : Error)
        → driver.selector.select s ≡ ok id
        → get id s ≡ ok parent
        → driver.mutator.propose parent r.intent r.context ≡ err x
        → Ends s b (err x) s b
    -- the sandbox refuses, and is not torn down
    refused :
        (parent : AgentNode) (candidate : AgentArtifact) (x : Error) (entered : Box)
        → Proposes s parent candidate
        → enforce candidate r.allowed_scope b ≡ (err x, entered)
        → Ends s b (err x) s entered
    -- the cycle fails; its error hides the one of the teardown
    failed :
        (parent : AgentNode) (candidate : AgentArtifact) (x : Error) (entered : Box) (s' : State)
        → Proposes s parent candidate
        → enforce candidate r.allowed_scope b ≡ (ok tt, entered)
        → run_cycle store driver.veh (cycle_inputs parent candidate r) s ≡ (err x, s')
        → Ends s b (err x) s' (teardown entered).1
    -- the cycle comes to an outcome, which is lost where the teardown fails
    left_up :
        (parent : AgentNode) (candidate : AgentArtifact) (o : CycleOutcome) (x : Error)
        (entered b' : Box) (s' : State)
        → Proposes s parent candidate
        → enforce candidate r.allowed_scope b ≡ (ok tt, entered)
        → run_cycle store driver.veh (cycle_inputs parent candidate r) s ≡ (ok o, s')
        → teardown entered ≡ (err x, b')
        → Ends s b (err x) s' b'
    done :
        (parent : AgentNode) (candidate : AgentArtifact) (o : CycleOutcome) (entered b' : Box)
        (s' : State)
        → Proposes s parent candidate
        → enforce candidate r.allowed_scope b ≡ (ok tt, entered)
        → run_cycle store driver.veh (cycle_inputs parent candidate r) s ≡ (ok o, s')
        → teardown entered ≡ (ok tt, b')
        → Ends s b (ok o) s' b'

  -- A pair, by its first part.
  with_first : {A B : Type 0} (x : A × B) (a : A) → x.0 ≡ a → x ≡ (a, x.1)
  with_first x a p = λ i. (p i, x.1)

  proposed-Ends :
      (s : State) (b : Box) (id : AgentId) (parent : AgentNode) (candidate : AgentArtifact)
      → driver.selector.select s ≡ ok id
      → get id s ≡ ok parent
      → driver.mutator.propose parent r.intent r.context ≡ ok candidate
      → Ends s b
          (run_generation store sandbox driver r (s, b)).0
          (run_generation store sandbox driver r (s, b)).1
          (run_generation store sandbox driver r (s, b)).2
  unfolding run_generation prepare
  proposed-Ends s b id parent candidate p q t =
      let h : Proposes s parent candidate = record {
        id = id;
        chosen = p;
        found = q;
        proposed = t;
      } in
      let entered = enforce candidate r.allowed_scope b in
      let cycle = run_cycle store driver.veh (cycle_inputs parent candidate r) s in
      let down = teardown entered.1 in
      elim (Result-cases entered.0) [
        | inr (x, u) ↦
            rw (p, q, t, u, prepare, run_generation)
              (refused parent candidate x entered.1 h (with_first entered (err x) u))
        | inl (v, u) ↦ elim (Result-cases cycle.0) [
          | inr (x, w) ↦
              rw (p, q, t, u, w, prepare, run_generation)
                (failed parent candidate x entered.1 cycle.1 h (with_first entered (ok tt) u)
                  (with_first cycle (err x) w))
          | inl (o, w) ↦ elim (Result-cases down.0) [
            | inr (x, z) ↦
                rw (p, q, t, u, w, z, prepare, run_generation)
                  (left_up parent candidate o x entered.1 down.1 cycle.1 h
                    (with_first entered (ok tt) u) (with_first cycle (ok o) w)
                    (with_first down (err x) z))
            | inl (v', z) ↦
                rw (p, q, t, u, w, z, prepare, run_generation)
                  (done parent candidate o entered.1 down.1 cycle.1 h (with_first entered (ok tt) u)
                    (with_first cycle (ok o) w) (with_first down (ok tt) z))
          ]
        ]
      ]

  -- A generation ends in one of seven ways: no choice of the selector, a chosen parent that the
  -- ledger lacks, or no candidate, and neither the ledger nor the sandbox is touched; a sandbox
  -- that refuses, which leaves the ledger as it was and is not torn down; or the cycle runs on the
  -- candidate under the chosen parent, and then the sandbox is torn down, also when the cycle
  -- fails, whose error is the one that is returned; else a failed teardown gives the error, and
  -- the outcome of the cycle is returned only where both go well.
  pub run_generation-Ends :
      (s : State) (b : Box)
      → Ends s b
          (run_generation store sandbox driver r (s, b)).0
          (run_generation store sandbox driver r (s, b)).1
          (run_generation store sandbox driver r (s, b)).2
  unfolding run_generation prepare
  run_generation-Ends s b = elim (Result-cases (driver.selector.select s)) [
    | inr (x, p) ↦ rw (p, prepare, run_generation) (no_choice x p)
    | inl (id, p) ↦ elim (Result-cases (get id s)) [
      | inr (x, q) ↦ rw (p, q, prepare, run_generation) (no_parent id x p q)
      | inl (parent, q) ↦ elim (Result-cases (driver.mutator.propose parent r.intent r.context)) [
        | inr (x, t) ↦ rw (p, q, t, prepare, run_generation) (no_candidate id parent x p q t)
        | inl (candidate, t) ↦ proposed-Ends s b id parent candidate p q t
      ]
    ]
  ]
