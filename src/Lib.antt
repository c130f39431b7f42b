-- ===== src/Lib.antt =====
-- rig-veh: verifiable evolution of agents. A runner proposes no mutations itself: it takes a
-- candidate, diffs it against its parent, has it evaluated, asks a policy gate, and commits a
-- signed node to a ledger. This library models the program: the runner, the ledgers, the
-- signatures, the gate, the selectors and the driver of the evolution.
--
-- Parts, and the files that model them:
--
--  * Error: the error enum of src/error.rs.
--  * Host: what the program takes from elsewhere, as one record `Env` that every module has as an
--    instance: f64, serde_json's numbers and escaping, the manifest of rig_compose, ed25519_dalek,
--    sha2, hex, similar and the standard hasher. `IsCrypto` says what the cryptography promises.
--  * Json and Json/Canonical: `serde_json::Value`, and `write_canonical` of src/artifact.rs. Its
--    children say what the bytes stand for (Normal, Print), how writing them can fail (Errors), and
--    that they can be read back (Reader, ReadBack), which tells different values apart; the reader
--    is not code of the program.
--  * Artifact and Diff: `AgentArtifact` of src/artifact.rs, `manifest_diff` of src/diff.rs.
--    Artifact/Canonical and Artifact/Sbom are about the canonical bytes and the capability SBOM.
--  * Intent, Node, Evaluator: the records and enums of src/intent.rs, src/node.rs and
--    src/evaluator.rs with the JSON that their derived `Serialize` gives.
--  * Identity: `CommitInputs`, `signing_payload`, `sign_node` and `verify_node` of src/identity.rs.
--    Identity/RoundTrip, Identity/Binding, Identity/Payload and Identity/Coverage say what a
--    signature covers.
--  * Ledger: the trait `LineageStore` of src/ledger.rs (Ledger/Store) with the lineage it stands
--    for (Ledger/View), and the in-memory store (Ledger/InMemory). Ledger/Jsonl is the store with a
--    file (feature `jsonl-ledger`; Ledger/Jsonl/Reopen and Torn on its file), and Prelude/Lines
--    cuts a file into lines. Ledger/Dot is `export_dot` (feature `dot-export`), Ledger/Default the
--    `nodes` of a store that does not replace it.
--  * Policy: the default gate of src/policy.rs.
--  * Graph: the lifecycle runner `Veh` of src/graph.rs. Graph/Operations has one function for each
--    method; Graph/Step has the protocol as a step relation on lineages, Graph/Forest the shape of
--    a lineage, Graph/Bounds the generations. Graph/Tasks has the same methods as tasks that stop
--    at every call of the store, and runs in which several of them take turns.
--  * Evaluator/Composite: `StubEvaluator` and `CompositeEvaluator` of src/evaluator.rs, with
--    Evaluator/Staged on the stage that decides. Evaluator/Retrieval: `RetrievalEvaluator` of
--    src/rag_evaluator.rs.
--  * Selector: the five parent selectors of src/selector.rs, over the nodes of a store.
--  * Ensemble: `BestByMetric` of src/ensemble.rs.
--  * Evolution: `EvolutionDriver` of src/evolution.rs, with the traits of src/mutator.rs and
--    src/sandbox.rs. Evolution/Tasks has a generation as a task, to which the answers of the
--    sandbox are given.
--  * Evidence: the evidence bundle and the audit record of src/evidence.rs. Evidence/Reader is what
--    is asked of the derived `Deserialize`, which is a parameter.
--  * Examples: a small concrete environment, and the theorems at concrete inputs.
--
-- How code becomes definitions. `Result` with `?` is a `do` block over `Result`. A method that
-- changes the ledger is a function from the state of the store to a result and the next state
-- (Prelude/Exec), and an error keeps the state reached so far. The runner is proved over any store
-- that keeps the laws of the trait, not over one of them. Text is its list of UTF-8 bytes. The map
-- of the ledger is an association list. A u32 is a number below 2 ^ 32, and `generation + 1` wraps,
-- as a release build does. No loop of the program needs fuel, since all of them follow a list, but
-- for the twenty digits of `display`, which are enough for every u64; the reader of canonical
-- bytes, a proof device, takes as much as the value is large.
--
-- The outcomes of file reads and writes are data that an operation is given. The system time is an
-- argument. A panic is a result of its own (`Fault` in Error) in the one method that can panic on
-- what other code does, `export_dag_json`. The error of serde_json's `to_string` is a result of the
-- encoder that `write_canonical` is given, and `canonical_json` gives it one that writes every
-- text, since serde_json fails on none. `IsScoreOrder` says what comparison of f64 gives away from
-- NaN, and `IsLineFormat` what serde_json gives for the text of every node, `ReadsBack` that the
-- text of one node is read as that node, and `RejectsParts` that no part of a text is.
-- `IsTokenFormat` says that the JSON text of a string or a number reads back, and `IsU32Number`
-- that a u32 does.
--
-- Not modelled: logging, the crate root (module declarations and re-exports), the examples and the
-- tests. A store method takes its lock for its whole body, so a call of it is one step; between two
-- such steps of a runner or a driver others can take turns. What other calls do to a sandbox in the
-- meantime is not modelled: its answers are given.
pub mod Prelude
pub mod Json
pub mod Error
pub mod Host
pub mod Intent
pub mod Evaluator
pub mod Artifact
pub mod Node
pub mod Identity
pub mod Ledger
pub mod Policy
pub mod Selector
pub mod Diff
pub mod Graph
pub mod Ensemble
pub mod Evolution
pub mod Evidence
pub mod Examples
