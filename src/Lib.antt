-- ===== src/Lib.antt =====
-- SuperMew: the life of a run, its events and messages, rate limits, refresh tokens and calls of
-- providers.
--
-- SuperMew answers the messages of a user's threads by runs of an agent. A request of a client
-- reserves a run with its two messages (backend/runs/repository.py, `RunRepository`), a worker
-- claims it under a lease and a fencing token, and ends it. Every change appends an event to a
-- journal (backend/events/journal.py) and to a transactional outbox, from which it is published.
-- The library models these transactions over the tables of backend/db/models.py, and proves what
-- holds over every sequence of them.
--
-- Which file models which part:
--   * Prelude: library names passed on, Boolean tests, lists and integers over the native numbers.
--   * Errors: backend/core/errors.py, and what a transaction returns.
--   * Db.Rows: the rows of the tables of backend/db/models.py. Db.Session: transactions over the
--     tables, their queries, and the writes with the unique constraints. Db.Session.Ensures: what
--     holds if a transaction returns.
--   * Events.Contracts: backend/events/generated/run_event_v1.py. Events.Journal:
--     backend/events/journal.py, `append_event_in_session`, `append`, `assert_access`,
--     `read_after`; Page has what a page holds. Outbox: backend/events/outbox.py and `publish` of
--     backend/events/bus.py, with Relay, Batch, Drain, Order and Sent. Bus: `subscribe` of
--     backend/events/bus.py, with Stream and Delivery.
--   * Runs.State: backend/runs/state.py.
--   * Runs.Repository: backend/runs/repository.py. Validate has the checks of the arguments, Reserve
--     `reserve`, Claim `claim`, Hold `heartbeat`, `set_waiting_input` and `mark_cancelling`,
--     Finalize `finalize` with `_promote_next_queued`, Reconcile `reconcile_orphans`, and Skill
--     `pin_skill_activation`.
--   * Runs.Service: backend/runs/service.py, with `get` and `get_internal` of
--     backend/runs/repository.py; Cancellation has what `request_cancel` does.
--   * Runs.Execution: backend/runs/cancellation.py, its token and `execute`; Settlement and Reasons have
--     what holds of them.
--   * Runs.Evolution: the moves that the tables make, as a relation, and its invariants. Runs.Moves:
--     every transaction is a sequence of those moves.
--   * Runs.System: the transactions as operations, histories of them, and what holds over histories.
--     The eight transactions of runs are `reserve`, `claim`, `heartbeat`, `set_waiting_input`,
--     `mark_cancelling`, `finalize`, `pin_skill_activation` and `append` (`Op`); Deletions adds
--     `delete_thread` (`Change`), and Removals has what holds beside it.
--   * Threads: backend/threads/repository.py. Records has its records and queries, Messages
--     `append_message`, `create_assistant_placeholder` and `finalize_message`, Lists
--     `list_messages_before`, `create_thread` and `delete_thread`; Numbering, Opening, Kept, Windows and
--     Removal have what holds of them.
--   * RateLimits: backend/rate_limits. Contracts has the data of contracts.py, Memory and Redis the two
--     adapters of adapters.py with the Lua script, Limiter limiter.py, Policy policy.py with Routes;
--     Counter is what they promise, and Refinement relates both adapters to it.
--   * Auth: refresh tokens. Tokens has the table and its queries, Service `AuthTokenService` of
--     backend/auth/service.py, Cleanup backend/auth/cleanup.py, System the histories of their calls;
--     SingleUse, Rotation, Reuse, Replay and Keys have what holds over them.
--   * Providers: backend/providers/core.py. Codes has the codes and their tables, Error and Snapshot
--     `ProviderError`, Exceptions what is read of an exception, Executor the retry loop of `call`;
--     Retries, Deadline, Reference, RoundTrip and Refusals have what holds of them.
--   * Tests: runs of the model, and the theorems at concrete tables.
--
-- How the state and the operations correspond to the code:
--   * `Db` is the state of the database: one list for each table, in the order of insertion. A
--     transaction is a function from it to a result and the new tables, or to an error. An error
--     leaves the tables as they were, as the rollback does. The row locks (`with_for_update`) put
--     the transactions that touch a run in an order, and a history is a list of operations in that
--     order; whatever interleaving the clients and workers cause is such a list.
--   * What the code takes from outside is an argument: the clock (`utcnow`, counted in
--     microseconds), the identifiers of `uuid4` and the keys that the database generates (`Stamp`,
--     `Fresh`), the settings. SHA-256 over the canonical JSON of a request is the parameter
--     `digest`, and `EMPTY_MODEL_CATALOG_SNAPSHOT` the parameter `empty`.
--   * An `AppError` is modelled by its code. The unique constraints are checked on each insertion
--     and update, where the session flushes. A frozenset is given by its sorted list, a cost in
--     millionths.
--   * Runs are found oldest first by `created_at`; among equals the database may return any, and the
--     model takes the first in the table.
--
--   * The clock of the rate limits is counted in milliseconds, which the code has as a float of seconds
--     in the in-memory adapter and as whole milliseconds in Redis. Its commands are the parameter
--     `Redis`, and `IsRedis` what its documentation says of them. The HMAC of a client is the
--     parameter `fingerprint`, and the routes the parameter `matcher`, for which `match_route` of RateLimits.Policy is meant.
--
--   * The publishers of the outbox work on one table in steps that may interleave; what the transport
--     was handed is a list, and an attempt may also be lost halfway (`Delivery`). A subscription is
--     the list of items that it yields over the polls that it makes.
--   * A ledger of refresh tokens is a state of two tables, and a call of the service a function on it.
--     `hash` and `access` stand for SHA-256 and the signing of an access token. A date is a number of
--     microseconds.
--   * What a provider call takes from outside is a `World`: the n-th reading of the clock, the n-th
--     answer of the probe and the n-th outcome. Times are natural numbers of a unit, as precise as
--     one likes; floats round, which the model does not. The product of the backoff with a power of
--     its multiplier, which may overflow, is the parameter `scaled`. The attributes of an exception
--     are given as the numbers that the code parses of them (`Link`).
--
-- Fuel and bounds: the loop that sleeps in slices under a probe (`sleep_loop`) is on fuel, one more
-- than the delay, which is enough as each slice is at least one unit; the walk along the causes of
-- an exception is bounded by 16, as in the code. Every other loop is over a list or a number of
-- attempts.
--
-- Where the model is coarser than the code: a run without its thread, which the foreign key rules
-- out, is found by `pin_skill_activation` until the thread is read, where the join of the code gives
-- RUN_NOT_FOUND; the handler of an IntegrityError in `reserve` reads the tables of before the
-- transaction, and so not what another commits in between; a lease in seconds is not below 0.
--
-- What is not modelled: the writes of runs by the checkpoints of backend/rag/checkpoint_runner.py, which
-- pause and resume them; the queries that only read (`find_pending`, `list_pending`, …), `record_tool_audit`
-- and `load_execution_snapshot`; `updated_at` of a run; the format of dates in `RunRecord`; and the
-- rest of the system: the registry of cancellations and a cancellation that arrives while a
-- transaction of `execute` is under way, the asynchronous twin of the retry loop, the HTTP interface, the agent,
-- retrieval, the adapters of the providers and the frontend.
pub mod Auth
pub mod Db
pub mod Errors
pub mod Events
pub mod Prelude
pub mod Providers
pub mod RateLimits
pub mod Runs
pub mod Tests
pub mod Threads
