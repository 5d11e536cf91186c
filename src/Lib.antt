-- ===== src/Lib.antt =====
-- LogLookup.AI: a verification of the core of the engine, which polls security alerts, correlates
-- them, and lets people approve actions that are then sent to a workflow service.
--
-- The parts that are modelled, and their files. Paths are from the repository's root.
--   Prelude     Boolean tests with their lemmas, lists over native numbers, tables with a text key
--               (find, update, the uniqueness of keys), and the outcomes of calls that may raise.
--   Response    engine/response: an action is proposed (approvals.py, policy.py), approved by other
--               people or rejected or cancelled, put on the outbox (outbox.py), claimed and sent
--               (dispatcher.py), settled or reconciled by a person (reconcile.py), and checked
--               against the remote run (run_status.py); every step is logged on a hash chain
--               (audit.py).
--     Models, Policy, Audit, Tables    the records, the allowlist, the audit trail, the SQL
--               statements over the tables of a `World`, and the transactions: an error rolls back
--     Approvals, Decisions             propose, and approve, reject, cancel
--     Dispatcher, Delivery, RunStatus  _claim and the settling of a send; run_once, recover,
--               resolve; lookup and check
--     Trace     the operations in any order, as the event loop interleaves them; a crash is a trace
--               that stops, and `recover` is the restart
--     Soundness what an operation may do to the rows of an action (Change), each operation in turn,
--               the invariant of the tables, and what follows for traces
--     Chain, Payload, Matching, Queue  the audit trail, payload validation, the run that is
--               reported, and the queue
--   Connectors  engine/connectors: a worker polls its source, commits each page through the ledger,
--               counts, and waits longer after each failure (Supervisor, supervisor.py), or re-reads
--               an interval beside the live cursor (the backfill of Supervisor/Running).
--   Store       engine/store: a polled page becomes durable (Ledger, ledger.py) and its alerts are
--               queued for correlation (WorkQueue, workqueue.py); an administrator may replace
--               a cursor (Cursors, cursors.py); chains become durable investigations with
--               revisions, merges and review flags (Investigations, investigations.py).
--   Correlate   engine/correlate: alerts (Alerts, engine/normalize/ocsf.py) are correlated into chains.
--     Entities  the hosts, users and addresses of an alert (entities.py): Identifiers are extracted,
--               Addresses belong to an entity for a time, Resolving finds or makes the entities,
--               Flushing drops the stale ones; Validity, Joined and Anchoring prove what they promise
--     Timelines the timeline of an entity with its binary search and the edges that an alert gets
--     ClusterIds  the ids of chains and their numbers (cluster_id.py)
--     Engine    the engine's state (engine.py): add; Evaluation (the watermark, evaluate), Clusters
--               (the chain of a connected component, merges), Changes and Revisions (revise), Pruning
--               (prune_before), Operations (all of them in any order); the other modules prove
--     Chains    the order of a chain's tactics (chains.py)
--     Risk      the scores of entities and chains (risk.py), over a parameter for Python's floats
--   Triage      the suppression of known-benign alerts (Prefilter, engine/prefilter/rules.py) and
--               the grounding of a model's verdict (Validator, engine/ai/validator.py).
--
-- A handler takes the tables and the present time and returns the tables after it with its result or
-- its exception. An UPDATE with a state in its WHERE is a compare-and-set (`hits`, `when_state`).
-- Times are numbers of microseconds; the code's texts of a fixed width compare as they do. The
-- record `Env` holds what comes from Python and the deployment: the allowlist, hashes, JSON and
-- formatted texts, the cleaning and cutting of texts. The transport, Azure and the vault are
-- arguments too.
--
-- Bounds: the loop of `_claim` runs on fuel, one round for each queued row and one more; a round
-- that goes on takes a row out of the queue. `current_revision` follows five merges and the
-- paging of runs reads five pages, as the code does. The binary search of a timeline runs on its
-- length, `_live_cluster` on the number of chains and one more, since no chain is met twice, and `resolve` of
-- the investigations on the number of aliases and one more, since no alias is followed twice.
--
-- An entity of the resolver is an object that the resolutions of alerts keep after it is merged away:
-- `objects` has them all, by number, and `live` says which `_entities` still has. NetworkX's graph is
-- its list of edges, and its connected components are a parameter.
--
-- Not modelled: network and file I/O, the HTTP API, the vendors' connectors, the language models, the
-- redaction of secrets (`scrub` is a function of `Env`), and, so far,
-- the mapping of vendor records; of the ledger, context observations, incident links and reads;
-- of the investigations, the state of the ids, notes and reads.
pub mod Prelude
pub mod Response
pub mod Store
pub mod Correlate
pub mod Triage
pub mod Connectors
