-- ===== src/Lib.antt =====
-- Crash-Cap takes crash dumps and symbol files, analyses the dumps with a Rust core, and keeps the
-- results. This library models the parts of its Python platform (platform/api and platform/worker)
-- that decide what happens: the states of an analysis Run, the hand-over of tasks between the API, the
-- relay and the workers, uploads and the bytes of dumps, the scheduler of automatic analysis and its
-- demands, and the comparison of two analyses. Definitions follow the source function by function, and theorems are proved of them.
--
-- How the parts interact. A completed upload stages the task that verifies it, and a verified dump
-- becomes a blob whose bytes are retained until it expires. A new dump, a change of symbols or roles and a manual restart bring work to
-- the demand of an occurrence. The scheduler gives an execution slot to a demand that waits; planning
-- turns the demand into a Run, which binds the slot; a task intent carries the Run to a worker through
-- the relay; the worker claims the task, moves the Run through its states, and finishes the claim;
-- its result is compared with the current one, which may move Current, and settles the
-- demand; when the Run is terminal, the scheduler frees the slot.
--
-- Base            what the parts share: tests on numbers, lists, results of calls that may raise,
--                 tables as lists of rows under a key, a stable sort, and pages of
--                 ascending ids.
-- Identifiers     platform/api/crashcap_api/ids.py: _encode, new_ulid, new_id and validate_id; a call of
--                 new_ulid is one step on the two globals, given what the clock shows and what is drawn
-- Lifecycle       platform/api/crashcap_api/analysis_states.py and services/analysis_lifecycle.py:
--                 State is ANALYSIS_STATES, allowed is the transition table, transition_analysis and
--                 fail_analysis act on a Run, the columns of AnalysisRun that they read and write.
-- Tasks           platform/api/crashcap_api/task_handoff.py on the tables task_intents and
--                 task_executions (models.py).
--   Message       task messages, validate_task_message with the contract of
--                 contracts/task-message-v3.schema.json, task_identity, _semantic_payload
--   Rows          the rows and the private helpers (_matches, _relay_matches, _assert_compatible,
--                 _assert_intent_envelope, _poison_intent)
--   Intents       create_task_intent, stage_task_message, request_task_redelivery
--   Claims        claim_task, heartbeat_claim, claim_is_current, finish_claim, poison_task_delivery
--   Relay         claim_relay_intent, acknowledge_relay_publish, reject_relay_publish
--   History       any sequence of these calls, as the API, the relay and several workers make them, with
--                 the heartbeats and ends that commit within a call of claim_task (Raced)
-- Workers         what platform/worker/crashcap_worker does with the tables of the hand-over
--   Publish       the dispatcher of platform/api/crashcap_api/queueing.py, which picks the actor of a message
--   Outbox        outbox_relay.py: relay_once, its transactions and what happens between them
--   Leases        leases.py: the thread that renews the lease of a claim
-- Retention       platform/worker/crashcap_worker/retention.py: expire_dump_blobs, with the bytes of
--                 platform/api/crashcap_api/services/dump_content.py and the rows that _accept_dump of
--                 processor.py writes; each transaction is one step, since it locks the content
-- Uploads         platform/api/crashcap_api/services/uploads.py and the table of states of services/common.py
--   Completion    complete_upload, which stages the task that verifies the upload
--   History       any calls on uploads
-- Demand          the row of auto_analysis_demands (models.py)
-- Scheduler       platform/api/crashcap_api/services/analysis_scheduler.py
--   Slots         the slots, _reconcile_slots, bind_execution_slot, heartbeat_planning_slot, and the
--                 two releases
--   Ranking       the query for the waiting demands
--   Rounds        the two loops that hand out slots
--   Claiming      claim_execution_slots
-- Demands         platform/api/crashcap_api/services/analysis_demands.py
--   Rows          the dump, the occurrence, _live and _demand
--   Changes       ensure_demand, restart_exhausted_demand, _note_change
--   Settlement    the settlements after a failure or a comparison, and the restoration of a change
--                 that is pending
--   Inspections   register_inspection
--   Targets       freeze_target
--   Fanout        fanout_workspace_role_next
--   History       any sequence of these changes of one demand
-- FrozenInputs    platform/api/crashcap_api/frozen_inputs.py: the manifest, verify_selection and
--                 resolution_fingerprint
-- Evidence        platform/api/crashcap_api/evidence_comparison.py
--   Sources       _loss_class and has_retryable_source_gaps
--   Shape         AnalysisEvidence, _shape_valid and EvidenceAuthorization.covers
--   Alignment     _align
--   Decision      ComparisonDecision, _Loss and what a comparison has found so far
--   Frames        the loops over threads and frames of compare_evidence
--   Modules       its loops over modules
--   Comparison    compare_evidence: its early returns and how it decides
--   Contract      contracts/drafts/qa-symbol-import/comparison-decision-v1.schema.json (in Decision)
-- Current         platform/api/crashcap_api/services/current_decisions.py: select_current_run and
--                 promote_current_by_evidence, on the occurrences, the Runs and the decisions
--
-- Conventions. Instants are microseconds since the epoch. A call takes the tables and returns them; a
-- call that raises returns the error and the tables as the session then has them. Each call is one
-- step, since the code takes row locks or an advisory lock for it; where it does not, what others do
-- meanwhile is a parameter: `race` of create_task_intent are the rows that other transactions commit
-- before its INSERT, `locked` of claim_relay_intent are the rows that SKIP LOCKED passes over, and `race`
-- of claim_task are the heartbeats and the ends of claims that commit between its read of the
-- execution, which takes no lock, and its UPDATE; whatever else writes executions waits for the row of
-- the intent, which is locked. Of the columns of a row that is changed after such a read, the UPDATE writes
-- those whose value is another than the one that was read, as SQLAlchemy documents. The order of texts in SQL and in Python is that of code points. A value in a message is a text, a natural
-- number, a float without a fraction, or something else, which is kept apart by its JSON text only. Identifiers that a call draws, digests of
-- canonical JSON, the lower case of a text and the validation of a manifest by its schema are
-- parameters.
--
-- Fuel. Only the rounds of claim_execution_slots run on fuel: one more than the slots that are
-- available, which is enough, since a round that leaves something to do has made a claim. The loop in which
-- new_ulid waits for the clock runs over the readings of the clock, and a call that never sees a later
-- one does not return.
--
-- Not modelled: fanout_next, which hands changes of the catalog to the demands, the conversion of
-- reports in JSON to evidence (build_native_evidence), the reviews of results, metrics and log lines,
-- the SQLite branch of create_task_intent, which serves the tests, and the services, the worker, the
-- HTTP interface and the programs in other languages that the list above does not name.
pub mod Base
pub mod Current
pub mod Demand
pub mod Demands
pub mod Evidence
pub mod FrozenInputs
pub mod Identifiers
pub mod Lifecycle
pub mod Retention
pub mod Scheduler
pub mod Tasks
pub mod Uploads
pub mod Workers
