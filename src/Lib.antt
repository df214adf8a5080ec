-- ===== src/Lib.antt =====
-- Agent RCA: the incident pipeline's durable core.
--
-- The program turns Alertmanager alerts into incidents, collects Evidence about them, localizes
-- them, freezes a Context Package and lets an Agent write a Report, every step of which goes through
-- one repository and three work queues. This library models that core.
--
-- Parts and files:
--   Repository        src/incident_platform/repository.py: InMemoryIncidentRepository. The record
--                     Repository holds the eight dictionaries; each method is a function of the
--                     same name from the state to its result or exception beside the state that
--                     it leaves, so that what was written before a raise stays written. Children:
--                     Documents (Evidence, contexts, reports, agent runs), Localization (the
--                     supplemental collection), Step (the writes as a relation, with the
--                     invariants Index, Trail, Permanence and Citations below it), Transitions,
--                     Updates, Creation, Storing and Supplement (each method follows the
--                     relation), Calls (any sequence of calls), Lifecycle, and Queries (the
--                     viewer's queries, with Paging and Reports below it).
--   Alerts            src/incident_platform/incidents.py: AlertmanagerNormalizer, from a webhook's JSON
--                     to incidents. Normalizer has normalize, Accepted what it accepted, Window
--                     and Identity what its incidents hold.
--   Ingestion         AlertmanagerIngestionService of the same file, over Repository: Writes and
--                     Again (a webhook delivered again).
--   Checkpoint        src/incident_platform/localization_collection.py. Prepare has the checks, Guards
--                     and Merging what they guarantee.
--   Scope             ResourceScope of src/incident_platform/evidence.py.
--   Work              src/incident_platform/incident_work.py: the collection, localization and
--                     analysis queues. A queue holds a reference to the repository, so its state
--                     is its items beside the repository's state.
--   Gate              EvidenceGate of src/incident_platform/agent_rca.py: Validate has its checks,
--                     Accepted and Inspection what an accepted draft guarantees, Storable
--                     leads to Repository. The proof engine is an argument, as in the source.
--                     Proof joins the gate to the engine below.
--   Deterministic     src/incident_platform/deterministic.py: Rules has the three rules, Engine the
--                     engine, Restricted what the Evidence that a rule cites proves.
--   FastPath          src/incident_platform/fast_path.py, over Repository: Settled says how a run ends.
--                     The report builder is an argument.
--   StateGraph        src/incident_platform/stategraph.py: InMemoryStateGraphRepository, its state a
--                     record of four dictionaries. Validate has the identities and the validation,
--                     Write the interval histories, Entities the entities, events and projections,
--                     Plan and Reconcile the reconciliation of a complete cycle, Find the lookup of
--                     entities. Timeline, Snapshots, Relations, Temporal and Kept prove the
--                     histories' invariant, Gone, Retired and Reconciled what a cycle leaves. Paths
--                     is find_state_paths: Search has its loop, Localize the whole; Found, Trails,
--                     Selected and Bounded are its proofs.
--   Tools             AgentToolRuntime of src/incident_platform/agent_rca.py: the Agent's two tools and
--                     their budget.
--   Incident, Documents, Json
--                     the documents, by contracts/schemas. Fields that no modelled code reads
--                     stand together as `rest`. Json.Equality has Python's `==` of JSON values, by
--                     which the repository compares a document with the one stored under its id.
--   Outcome, Dict, Sort, Text, Time, Prelude
--                     exceptions as values, Python's dict, sorted, str and datetime.
--   Runtime           what the program takes from outside: the rendering and the parsing of
--                     timestamps, the redaction of texts, SHA-256, casefold, the verdicts of jsonschema.
--   Examples          concrete inputs, and each theorem at one of them.
--
-- Locks are held through each method, so a method is one step. Loops are recursions on the lists
-- that they go through, but for the search of the StateGraph: its fuel is the length of its queue
-- and the number of entities that it may visit, and Bounded proves that it ends. Lengths, counters
-- and instants are natural numbers, as Python's integers have no bound; instants count microseconds.
--
-- Not modelled: the texts of messages; the PostgreSQL and Neo4j adapters, the HTTP front ends, the
-- providers, the projectors and the Agent's model calls, which are input and output; the rendering of
-- reports and the retrieval of knowledge, which are text; GraphLocalizer.build_context and the
-- retention of the StateGraph, the localization service, the ranking of drilldown and the evaluation,
-- which are not translated yet; the documents' fields that the modelled code passes on unread.
pub mod Prelude
pub mod Outcome
pub mod Time
pub mod Text
pub mod Sort
pub mod Json
pub mod Dict
pub mod Incident
pub mod Documents
pub mod Runtime
pub mod Alerts
pub mod Scope
pub mod Checkpoint
pub mod Repository
pub mod Ingestion
pub mod Deterministic
pub mod FastPath
pub mod StateGraph
pub mod Tools
pub mod Gate
pub mod Work
mod Examples
