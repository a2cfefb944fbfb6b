-- ===== src/Lib.antt =====
-- Rigo: the core of an agent harness with governed domain actions (packages/, TypeScript). The
-- library models thirteen of its parts, each cut at its awaits into steps, so that what holds is
-- stated for every interleaving of calls.
--
-- The parts and how they interact:
--   * Actions (packages/shared/actions/src/index.ts): ActionsService validates a domain action,
--     reserves a row under an idempotency key or replays the row that is there, asks the policy
--     hooks, records `running`, calls the executor, and settles the row, the audit entries and the
--     map of flights. A restart turns orphaned rows to recovery-required.
--   * Json: the texts that Actions stores and compares (stableStringify, JSON.parse,
--     JSON.stringify), as lists of tokens.
--   * Approvals (packages/shared/approvals/src/index.ts): ApprovalsService keeps one request per
--     suspended execution and decides it by a conditional update; it calls `resume` and
--     `cancel_execution` of Actions on the database that the two share.
--   * Surface (packages/harness/session/src/surface.ts): the ordered view of the events of a
--     session's append-only log that make up the model's messages, complete and incremental.
--   * Repair (packages/harness/session/src/repair.ts): the events that close the open turn of a
--     log that broke off, before the log is folded and resumed.
--   * Trace (packages/harness/session/src/invariant.ts): the relations between the events of a log
--     that an invariant companion checks at each append: turns and steps in order, calls answered.
--   * ChunkRows (packages/harness/session/src/chunk-rows.ts): runs of streamed deltas packed into
--     one storage record each, and the reader that expands them.
--   * WriteBehind (packages/harness/session-persistence/src/write-behind.ts): the controller that
--     batches a live session's events into durable writes.
--   * Inbox (packages/harness/agent/src/inbox.ts): an agent's pending messages, whose every change
--     is first an event of the session's log and which a new process replays from that log.
--   * Assembler (packages/harness/llm/src/assembler.ts): the one algorithm that turns a stream of
--     chunks, with interleaved blocks, into the blocks of a message and its replay metadata.
--   * RetryPolicy (packages/harness/llm/src/retry-policy.ts): the checks and defaults of a
--     provider's retry policy.
--   * Scope (packages/harness/scope/src/index.ts): the parent relation of the scope keys that tag
--     contexts, its cycle check, and the filter that routes an event up the chain.
--   * Layers (packages/harness/scope/src/store.ts): the tables that registries keep per scope,
--     merged along the chain of Scope.
--
-- The files:
--   * Base: shared names, tests on numbers and texts, list and option helpers; Base/Int: integers.
--   * Json holds the definitions, Json/RoundTrip, Canonical, KeyOrder and Alike the laws that Actions
--     uses: a text is read back, and which values have one stable text.
--   * Actions/Types, Table, Registry, Policy, Replay, Execute, Settle and Service follow the
--     source from its types and SQL statements to its methods. `execute` is `admit` (up to the
--     policy stage), `resolve_policy` and `govern` (to the executor's call), and `settle` (from
--     the executor's end); `resume` starts like `govern` ends. Actions/System is the step relation
--     of a service with executions at each of these points. Effects, Endings, Starts and
--     Admissions say what each method does to a row; Lifecycle, Invariant and Safety carry that
--     through all runs; Verdict, Replaying and Outcomes treat single methods; Tests runs them.
--   * Approvals holds the definitions; Table, Decisions, Resolution and Consistency the laws.
--   * Surface holds the checks, the plan and the fold, Surface/Manager class SurfaceManager;
--     Marker, Range, Fold, Nodes and Incremental the laws.
--   * Repair holds the scan and the closers; Repair/Balance the laws.
--   * Trace holds the checks, on the events of Repair; Trace/Pending and Trace/Link tie the trace
--     of a log to the scan of the repair, Trace/Repaired treats a log with its repair.
--   * ChunkRows/Values, Classify, Pack and Decode hold the definitions; Keys, Checks, Reading,
--     Runs, Rows, Restoring and RoundTrip the laws: an object with exactly certain keys is the one
--     that is put together from them, an event that may be packed is the one its delta stands for,
--     a row decodes to its run.
--   * WriteBehind holds the controller and its step relation; Conservation and Barrier the laws.
--   * Inbox holds the data and the steps of a mutation, Inbox/Calls the methods; Coordinates,
--     Identities and Replaying the laws of each change, Deletion, Delivery and Draining those of claims.
--   * Assembler holds `push`, Assembler/Output the readings; Assembler/Streams, Closing, Finding
--     and Replays the laws.
--   * RetryPolicy holds the resolution; RetryPolicy/Bounds what a resolved policy guarantees.
--   * Scope holds the relation, the walks and the filter; Scope/Forest the laws. Layers holds the
--     tables and the merged view; Layers/Merging and Layers/Entries the laws.
--
-- How state and calls are rendered: a service is a record, a method a function from the record to a
-- result and the record after it, a table a list of rows in order of insertion. A JavaScript number
-- in a value is its bit pattern where the code only passes it on, and minus zero is then written to
-- a text, and compared, as zero; it is an integer or another double where the code calculates
-- (ChunkRows, RetryPolicy), with a minus zero of its own for the arguments of an inbox's splice; counters, versions, sequence numbers and clocks are
-- natural numbers, with the bound of safe integers (2 ^ 53) where the source checks it. What a call
-- learns from outside stands among its arguments: the clock, fresh ids, what a hook answers at its
-- turn, whether the recorder throws, and how the executor ends. The JSON Schema validator is the
-- parameter `violations`. Loops are structural recursion, or recursion on the evidence that a walk
-- ends (Scope); `parse` runs on twice as much fuel as its text has tokens, since a level of a value
-- takes at most two turns for each token.
--
-- Not modelled: the harness's contexts and effects (vendor/cordis), the SQLite driver beyond the
-- statements that the services run, the HTTP and SDK layers, the agent loop, tools, providers,
-- settings, knowledge search and the web application. Guards on arguments that the TypeScript types
-- rule out are left out. Event objects are immutable, so a copy of one is the event itself.
pub mod Actions
pub mod Approvals
pub mod Assembler
pub mod Base
pub mod ChunkRows
pub mod Inbox
pub mod Json
pub mod Layers
pub mod Repair
pub mod RetryPolicy
pub mod Scope
pub mod Surface
pub mod Trace
pub mod WriteBehind
