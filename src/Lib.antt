-- ===== src/Lib.antt =====
-- phlo-observe: a verification library for the telemetry runtime and the observer's state engine.
--
-- The program has two halves. observe_core (packages/observe-core/src/observe_core) runs inside an
-- application: it samples finalized events, buffers them per run, queues them for drains and spools
-- the critical ones. phlo_observer (services/phlo-observer/src/phlo_observer) receives the events
-- and folds them into projections of runs and assets, incrementally and in rebuilds; the two agree
-- only if the folds do not depend on the order of arrival.
--
-- StateEngine models services/phlo-observer/src/phlo_observer/state_engine.py:
--   Event       the fields of an event dict that the reducers read, event_key, _verb_of
--   Keys        _insert_sorted, _set_latest, _record; Keys/Windows and Keys/Writers hold their laws
--   Asset       new_asset_state, _asset_status, materialized_before, apply_asset_event
--   Run         new_run_state, apply_run_event
--   Attributes  merge_attributes, gated_attr_merge
--   Entities    event_producer, event_entities, _branch_attributes, entity_rows, edges_of, derive
-- Runtime models packages/observe-core/src/observe_core:
--   Canonical   drains/base.py and the enumerations of models.py
--   Tail        tail.py, the tail sampler
--   Worker      backends.py, DrainDelivery.spool_event and the admission side of WorkerBackend
--               Worker/Loop has _worker_loop and the steps of several threads, Worker/Barrier the
--               admission barrier that flush waits on
--   Deliver     backends.py, DrainDelivery.deliver
--   Capture     backends.py, CaptureBackend
--   Sampling    sampling.py: base rates and policy rules; Sampling/Policy has the decision log and
--               the settings
--   Spool       spool.py: the write path of one spool directory; Spool/Replay has replay
--   Redaction   redaction.py: Redactor, with the verdicts on keys in Redaction/Keys
--   Identifiers identifiers.py; Identifiers/RoundTrip and /Build have the laws of printing and parsing
--   Aggregate   aggregate.py; Aggregate/Refines relates the buckets to the log of samples
--   Contracts   contracts.py, with Contracts/Registry; Contracts/Schema models schema_registry.py
-- Observer models services/phlo-observer/src/phlo_observer:
--   Incidents   incidents.py: the membership records and _attach; Incidents/Grouping has
--               group_insight and detach_member
-- Common holds the shared names, total orders, sorted lists, folds over permutations and a model of
-- a dict with text keys (Common/Dict).
--
-- State is a record, a method is a function from the state to the new state and its reply. A
-- method that raises returns that as a value, beside the state it has left behind.
--
-- How Python's values are modelled. A timestamp is an aware datetime and stands as the microseconds
-- since the year 1; the parsing of RFC3339 texts is not modelled. Durations, ages and the monotonic
-- clock's readings are whole numbers of a fixed unit. An outcome is one of the Outcome
-- enumeration. A set is a strictly ascending list, so that equal sets are equal lists. An entry of
-- field_at stands beside the field it guards. bisect works on ascending lists and is modelled by a
-- scan of them. queue.Queue is a list with a capacity, where 0 is no bound. A lock is not modelled,
-- since each method is one atomic step; in the worker loop a step is one item, taken from the queue
-- together with its admission sequence. The spools that take critical events are a parameter of
-- the worker: a function from a spool state, a destination and an event to the new state, a reply
-- and the number of errors that the attempt itself has counted. A failing drain raises, or raises one
-- of the two exceptions that deliver passes on. The eviction scan's budget
-- is the source's own limit of 256 items. The spool's capacity loop runs on fuel one above the
-- number of files, since each turn removes a file, and a worker thread on its own runs for as many
-- turns as the queue has items, since each turn takes one. Every other recursion is structural.
-- Sampling rates are whole numbers of 2^-64, the resolution of the hash; a negative rate, which
-- the source raises to 0, is not represented. The hash is a parameter, and so is the file system:
-- which sizes it can read, which files it unlinks, and how much of a line it writes. Floats are a
-- parameter with an order, a sum and a quotient; NaN is left out. Texts that are taken apart are
-- lists of code points, with ASCII's letters and white space. A union type lists its members in
-- one fixed order.
--
-- How the parts meet. The tail sampler hands the events it releases to the backend's emit. The worker
-- queues them, or spools a critical one when the queue is full; its loop delivers batches to the
-- drains, and what a remote drain rejects goes to that drain's spool. The observer receives what
-- drains send, and folds it.
--
-- Not modelled: the deadlines of flush and close and when the worker replays, appends during a replay
-- and the spools' destination directories under one budget, sanitize_url, JSON Schema export and the
-- compilation of contract classes, the context propagation of observe_core; the observer's
-- insights, projections, storage, queries, adapters and HTTP application; rendering, network and
-- file output, settings, the SDK and the query client.

pub mod Common
pub mod Observer
pub mod Runtime
pub mod StateEngine
