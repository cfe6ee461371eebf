-- ===== src/Lib.antt =====
-- Models of the core of Maestro-Orchestrator, with theorems about them.
--
-- The program asks several language models one question and combines their answers.
-- `run_orchestration_async` (maestro/orchestrator.py) queries the agents, lets them deliberate
-- (maestro/deliberation.py), and goes through these parts: `DissentAnalyzer` (maestro/dissent.py)
-- measures how far the answers are from each other, `DriftDetector` (maestro/ncg/drift.py) how far
-- they are from a baseline, `aggregate_responses` (maestro/aggregator.py) clusters the agents and
-- decides on the quorum, and `R2Engine` (maestro/r2.py) grades the session. Inference may be spread
-- over weight hosts: `WeightHostRegistry` (maestro/shard_registry.py) keeps them and strings them to
-- pipelines, and `StorageProofEngine` (maestro/storage_proof.py) challenges them and keeps their
-- reputations. The connections to the services are pinned (maestro/security/cert_pinning.py and
-- maestro/security/pinned_transport.py). `Scribe` and `Librarian` (maestro/librarian/scribe.py and
-- maestro/librarian/store.py) sign, check and store manifests of cartridges. `CodeInjector`
-- (maestro/applicator.py) changes the running program by proposals and takes the changes back.
-- `ModManager` (maestro/plugins/manager.py) loads and enables plugins, which hook into the session.
-- `ShardManager` (maestro/shard_manager.py) indexes the shard files on disk. A cluster of instances
-- runs in Docker (maestro/instances.py), where the orchestrator dispatches tasks to shards by way of a
-- bus (maestro/api_cluster.py). The keys of the providers are kept in the environment and a file
-- (maestro/keyring.py). The Router (maestro/router) measures how far a claim is from a question in a
-- graph of cartridges, items and tags, and picks the agent that is to dissent.
--
-- Which file models what:
--   Prelude        names and lemmas that the others share: tests, lists, Python's dict, integers,
--                  and floats as an interface of operations
--   Registry       the table of hosts and its files; Registry/Pipeline the assembly of pipelines, with
--                  Rounds, Coverage and Members about the result; Persistence and Reputation about the table
--   Dissent        `analyze` and the distance of two texts; Dissent/Outliers and Dissent/Distance about
--                  these
--   Drift          `DriftDetector.analyze`
--   Aggregator     clusters and agreement; Result the whole result; Clusters, Partition, Quorum and
--                  Levels about them
--   R2             `score_session`, `detect_signals`; R2/Grades about grades, flags and the quorum
--   StorageProof   reputations and `validate_response`; Challenges `issue_challenge` and
--                  `run_challenge_cycle`; Responses and Invariants about them
--   Pins           the pin store, its file and the transport; Pins/Store and Pins/Verify about them
--   Librarian      hashes and `verify_manifest`, with Threshold about it; Store `load` and `commit`;
--                  Scribe `anchor`; Store/Commit and Scribe/Signers about these
--   Injection      the guard and the log of injections (maestro/injection_guard.py, maestro/rollback.py);
--                  Injector `apply` and `rollback` (maestro/applicator.py); Limits, Restore and Cycle about
--                  them
--   Plugins        `ModManager`, its hooks and what plugins call; Lifecycle `load`, `enable`, `disable`,
--                  `unload`, `reload`, with Hooks, Growth, Enabling, Enabled and Acyclic about them;
--                  Validation `validate`, with Valid about it; Snapshots the configurations and
--                  snapshots, with Restoring about them
--   Instances      the registry, ports and numbers of instances; Spawn `spawn` and `stop`; Indices, Runs,
--                  Numbers and Counts about them
--   Router         the graph distance, with Hops about it; Graph `CompositeGraphView`, with Views about it;
--                  Conformity the scores, with Dissenter about them
--   Shards         the manifest of the shard files on disk (maestro/shard_manager.py), with Layers about
--                  its ranges
--   Dispatch       the configuration of the nodes of a cluster, the bus and the dispatch of tasks
--                  (maestro/cluster.py, maestro/state_bus.py, maestro/api_cluster.py, and tasks of
--                  maestro/node_server.py), with Routing and Health about it
--   Keys           the API keys and their file (maestro/keyring.py), with Files about it
--   Session        `run_orchestration_async` from the request to the grade, out of the parts above;
--                  Deliberation the rounds, with Rounds about them; Answers about the responses
--   Examples       the theorems at concrete inputs
--
-- State is passed on: an operation takes a registry, an engine, a pin store or a library and returns
-- the next one, with what the method returns. Files of JSON are modelled by the values that they stand
-- for. An exception is a constructor of the result or `none`. Time stamps come in as arguments.
--
-- Floats are an interface without laws (Prelude/Float), so that no theorem depends on rounding; the
-- examples use numbers with four digits. Parameters stand for what libraries do: the cosine similarity
-- of two texts, the splitting into words, SHA-256, the JSON text of a manifest, base64, Ed25519, the
-- SPKI hash of a certificate, random draws, the key files of a Scribe, the import of modules and the
-- rewriting of sources, and the code of a plugin, which is modelled by the calls that it makes on its
-- context. What the commands of Docker answer, and what the librarian and the whirlpools answer to the
-- Router, are arguments too, as are the node that answers at a URL and the answers of the agents and
-- of the headless generator.
--
-- Loops over a list are recursion on the list. Loops that run on fuel: `while shard_nodes` has one
-- round for each entry, since a round takes one out; `while changed` has one more than there are agents
-- left, since each round but the last takes one out; `while remaining` has one for each agent.
-- `enable` of a plugin calls itself for dependencies and takes fuel: it is enough above the length of
-- every chain of dependencies, and none is where they form a cycle. The search for a shard index has one
-- round more than there are indices in use. The hops of the graph distance are limited by the code.
--
-- Not modelled: HTTP handlers, command line and terminal interfaces, agents and generators that call
-- remote models, the streaming session, the inference and challenge handlers of a node, the resolver of
-- dependencies, the ledger and session files, the making of proposals,
-- the Whirlpool, the Rust skeleton and the browser interface.
pub mod Prelude
pub mod Registry
pub mod Dissent
pub mod Aggregator
pub mod Drift
pub mod R2
pub mod StorageProof
pub mod Pins
pub mod Librarian
pub mod Examples
pub mod Dispatch
pub mod Injection
pub mod Instances
pub mod Keys
pub mod Plugins
pub mod Router
pub mod Session
pub mod Shards
