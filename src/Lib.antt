-- ===== src/Lib.antt =====
-- skill2workflow turns skill documents into workflows and runs them. This library models the part
-- that runs them and keeps the runs: the local executor (src/skill2workflow/executor.py) and the
-- SQLite run store (`SqliteRunStore` of src/skill2workflow/storage.py); the checks before a run, of a
-- workflow document (src/skill2workflow/compiler.py) and of a trigger's input against the workflow's
-- schema (src/skill2workflow/input_schema.py); the dispatcher of recurring schedules
-- (src/skill2workflow/schedules.py); and the comparison of two workflows
-- (src/skill2workflow/workflow_diff.py), which stands apart.
--
-- The executor walks the nodes of a workflow. It holds one run document, which it changes in place,
-- and saves it through the store after each change; between two saves it calls connectors, sleeps,
-- and asks the store whether the run is still its own and whether somebody wants it cancelled. The
-- store keeps three tables: the documents, one ticket for each run that says which process executes
-- it, and the requests to cancel. Several processes may work on the same tables; each store method
-- is one transaction.
--
-- Modules:
--   Prelude, Dict, Json, Result   names, list lemmas, maps as association lists, Python values, and
--     results with the exceptions the code raises
--   Run, Clock     the run document, its statuses and events; timestamps and deadlines
--   Store.Db       the tables and the helpers of storage.py that the transactions share
--   Store.Save     save, start_execution, claim_execution, save_execution, ensure_execution_active
--   Store.Cancel   request_cancellation, cancellation_requested, mark_cancellation_applied
--   Store.Recover  recover_interrupted_batch
--   Store.Sweep    expire_waiting_workflow_deadlines
--   Store.Locks, Fencing, Effects, Keyed, Passes, Lifecycle, Deadlines, Requests   proofs on the
--     transactions
--   Executor.Policy      retry and timeout policies of a node and of the workflow
--   Executor.Session     the state of a call and the actions on it; `Env` is its surroundings
--   Executor.Windows     the execution, workflow and node deadlines, and cancellation
--   Executor.Projection  what of a connector's result may be kept in the run document
--   Executor.Connector, Executor.Transition   _execute_connector_node
--   Executor.Drive       _drive and the other kinds of node
--   Executor.NewRun, Executor.Api   run, resume and request_cancel
--   Executor.Upkeep      cancel, recover_interrupted_runs, expire_workflow_deadlines
--   Executor.Rules, History, Timeline, Progress   proofs on the run's history
--   Executor.Endings, Checks, Attempts, Outcome, Returns   proofs on the status at which it returns
--   Executor.Cancelling  proofs on open requests to cancel
--   Executor.Effort      proofs on the number of connector calls
--   Schedules.Db, Lease, Claim, Finish   the tables of the recurring schedules and the operations on them,
--     of src/skill2workflow/schedules.py
--   Schedules.Steps   sequences of those operations
--   Schedules.Exclusion, Occurrences, Keeps, Settled, Takeover   proofs on leases, claims and dispatches
--   Schedules.Homes, Housed, Finishing   proofs that the schedule of an open claim stays
--   HttpAssertions   validate_http_assertion_binding of src/skill2workflow/http_assertions.py
--   Pointer, Pointer.RoundTrip   evaluate_http_assertions and _json_pointer, and proofs on both
--   Compiler.Tables, Policies, Http, Nodes, Edges, Reach, Validate   validate_workflow_structured of
--     src/skill2workflow/compiler.py
--   Compiler.Reach.Ends, Correct   proofs on the walk that finds the reachable nodes
--   Compiler.Texted, Wired, Indexed, Validated, Runs   proofs on documents without reports
--   Issues, Texts    the reports of the validators; lists of texts
--   InputSchema.Contract, InputSchema.Value   the two checks of src/skill2workflow/input_schema.py
--   InputSchema.Conforms   when a value keeps to a schema, as a relation
--   InputSchema.Sound, Complete, Trigger   proofs that the check decides that relation
--   WorkflowDiff, Json.Same   workflow_diff_changes of src/skill2workflow/workflow_diff.py, and ==
--   Examples       a sample surrounding and workflow, and instances of the theorems
--
-- A method of the executor is an action on a `Session`: the run document, the tables, and what was
-- done outside (connector calls and sleeps). It returns or raises, and what it did before it raised
-- stays done. The loops of the executor are bounded in the source by `range`, and the model counts
-- the same rounds, so nothing depends on a bound of its own.
--
-- The validators answer with a list of reports, or raise. A report is its code and its path; the message
-- is left out. The check of a schema has the source's limit of 8 levels below the root, and the walk
-- that finds the reachable nodes is given three rounds for each node and one more, which is enough.
--
-- Parameters, for what is outside the modelled code: `Env` gives the clock, fresh ids, the connector
-- runtime, the metadata policy of an external connector, `str` of a value and `str.isalnum`, and `others`,
-- which is what other processes do to the tables before each transaction; `Datetime` gives the
-- parsing and printing of timestamps; `encodes` says that a document's JSON text keeps within the
-- store's byte limit; `order_by` is the order of a query's rows; `state_json` is the text that the
-- store keeps of a document, and `like` SQLite's operator on texts. `Outside` gives the validator the size
-- of a JSON text, the parts of a URL, and `str` of an entry that is not a text. `Claimer` gives a
-- dispatcher its clock, the digest that names a dispatch and the greatest datetime.
--
-- Restrictions: in the executor the ids of nodes and the entry are texts. A run document is a typed
-- record, so a stored document with some but not all keys of `execution` cannot be stated; one without
-- `execution` has `none`. The text of an exception says which test raised it and is not Python's. A
-- transaction that raises changes nothing. A schedule's timestamps are whole seconds in UTC, and stand
-- for their number; the floating times of leases and claims are whole numbers of some unit. An
-- assertion is evaluated from the parsed response on.
--
-- Not modelled: the derived tables run_events, run_summaries and recurring_schedule_summaries, the
-- columns with update times, the listing queries, the JSON run store, the parser, the making of a
-- workflow from a skill, the connectors themselves, the patch of a schedule and the review of a
-- dispatch, the control plane that runs a claim, the HTTP service, the pages and the command line.
pub mod Prelude
pub mod Texts
pub mod Dict
pub mod Json
pub mod Result
pub mod Issues
pub mod InputSchema
pub mod HttpAssertions
pub mod Pointer
pub mod Compiler
pub mod Run
pub mod Clock
pub mod Store
pub mod Executor
pub mod WorkflowDiff
pub mod Schedules
pub mod Examples
