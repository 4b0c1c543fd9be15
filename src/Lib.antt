-- ===== src/Lib.antt =====
-- Cartesi release validation platform: a model of its services' core, in Python, and theorems on it.
--
-- A run goes through four services, which exchange messages. The orchestrator queues it, for a release
-- that the GitHub watcher announces or for a request, with the versions that belong to the release:
-- the watcher and the release routes keep them in a catalog.
-- The sandbox manager takes a slot, provisions a sandbox and keeps it while tests run; its log lines go through a
-- buffer. The orchestrator's event consumer notes the sandbox's progress and publishes a command for
-- each selected test definition; the test runner executes a command's assertions and publishes a
-- result; the orchestrator's result consumer closes the run when the last result is in. In sessions
-- with the AI agent, a manager waits for the sandbox, a loop calls a model and its tools through an
-- executor that audits them, and verdicts claim the tool calls as trails.
--
-- Files, each with the code that it models (paths from the repository's root):
--   Prelude       library names, Boolean tests, lists and dictionaries that all parts share
--   Pool          services/sandbox-manager/pool.py: `SandboxPool`. Capacity: proofs
--   LogBuffer     services/sandbox-manager/log_buffer.py: `LogBatchBuffer`, whose threads are
--                 interleaved steps; a drained batch is passed to the callback by a step of
--                 its own. Delivery: proofs
--   Manager       services/sandbox-manager/consumers/sandbox_queue.py: `_handle` and `_teardown` as
--                 tasks that pass a state and may raise (Effects). Wait: `_wait_for_tests`. Queue:
--                 `run` and the tasks as events. Startup: the port offset, the sweep of orphans
--                 and the garbage collection. Frame, Cleanup, Leaks, Wait/Ending, Queue/Lost,
--                 Startup/Sweep: proofs
--   Runs          services/orchestrator/models/run.py, `cancel_run` of api/routes/runs.py.
--                 Results: consumers/test_results.py; Results/Closing: proofs.
--                 Dispatch: `_dispatch_tests` of consumers/sandbox_events.py; Dispatch/Selection: proofs.
--                 Events: `_handle` and `_store_log_batch` there; Status: proofs.
--                 Ready: the event consumer and the result consumer together
--   Runner        services/test-runner/executor.py: `run_test`. Commands:
--                 consumers/test_commands.py, `_handle`. Passing, Commands/Overrides,
--                 Commands/Publishing: proofs
--   Executors     services/test-runner/executors/base.py. Notice: executors/notice_check.py;
--                 Notice/Passing: proofs
--   Agent         services/ai-agent/agent_loop.py: `AgentLoop`; Content: `_bounded_tool_content`.
--                 Retries, Bounds, Termination, Compression: proofs
--   Verdicts      services/ai-agent/tools/verdicts.py: `record_test_verdict`. Claims: proofs
--   Sessions      services/ai-agent/session_manager.py: the session's row, its missing verdicts and its
--                 budgets. Bootstrap: `_bootstrap_environment`. Modes: `run_autonomous`,
--                 `run_collaborative`, `run_interactive`. Verdicts, Status, Bootstrap/Ending: proofs
--   Tools         services/ai-agent/tool_executor.py: `_dispatch`. Execute: `execute` and
--                 tools/audit.py. Execute/Audit: proofs
--   Text          `lstrip`, `split`, `int` and the searches of `re` that the services use. Matching: proofs
--   Versions      shared/sdk_resolver.py: the patterns and the image tag. Resolve: the scan and the
--                 functions that resolve versions. Body, Resolve/Scan, Resolve/Cached: proofs
--   Releases      services/orchestrator/consumers/releases.py and publishers/sandbox_requests.py.
--                 Trigger: `trigger_run` of api/routes/runs.py. Once, Order: proofs
--   Catalog       the tables of github.* in infra/postgres/init.sql, and the statements that write
--                 them. References, Keys, Transactions, Leaves: proofs
--   Watcher       services/github-watcher/poller.py: the watcher of the node's releases. Toolchain: the
--                 watchers of the CLI's and the contracts' releases. Rounds: `run_poller`. Catalogued,
--                 Keeping, Foreign, Completion, Stored, Repeats, Lost, Backfill, Announcement, Announced,
--                 Announced/Polling: proofs
--   ReleaseRoutes services/orchestrator/api/routes/releases.py: the synchronisations. Toolchain: PATCH
--                 /releases/{tag}/toolchain, POST /releases and DELETE /releases/{tag}. Foreign, States,
--                 Preempts, Toolchain/Updates, Toolchain/Links, Toolchain/Replies: proofs
--   SessionRoutes services/orchestrator/api/routes/sessions.py: `create_session`. Selection, Created, Creation: proofs
--   Tests of each part: sample runs, at which its theorems are applied
--
-- State and effects. Database rows are records, with the columns that the code reads or writes; a
-- statement is one step on them, and a consumer's transaction one function. In Manager the outside is
-- a `World` that says which awaited calls raise, and the calls made are a trace. Executors, the API of
-- the model, the GitHub API, the clock, fresh uuids and the formatting of tracebacks are arguments. In
-- Releases an operation gives the list of its effects, in order, and the states apply them.
--
-- `run` of the sandbox queue is a list of events, each naming the task that goes on; the runner's
-- INSERT of a result raises where the id has a row.
--
-- A transaction of the catalog is a list of statements: it is none where one of them breaks a foreign
-- key, and then the tables are the old ones. A call of the watchers gives the state that it leaves and
-- whether it raises, for what was committed before an exception stays.
--
-- Fuel and bounds. `_wait_for_tests` counts its polls, `timeout / 5`. The loop of a session runs over a
-- list of turns, and its result is none where the list ends first: a list that is long enough is one with
-- a turn that would start at the time limit. The bootstrap of a session runs on fuel, and `timeout / 5 + 2`
-- is enough, for it sleeps five seconds in each turn. The notice check runs on fuel too, and more than
-- its timeout is enough, for the clock advances. The patterns are matched by recursion on the pattern
-- and the text. Numbers are Python's unbounded integers, also in
-- node_major_version, whose column is a SMALLINT that larger ones do not fit; texts in patterns are
-- ASCII. The pass rate of a run is an exact fraction and its thresholds are natural numbers of percent,
-- where the code compares floats.
--
-- Not modelled: Docker, HTTP and the broker; most of the database's errors outside Manager and the
-- catalog, and the catalog's column added_at; the executors but for the notice check; the routes but for
-- `cancel_run`, `trigger_run`, `create_session` and those that write the catalog; what the agent's tools do, its prompts
-- and chaos sessions; the pull requests of a release, the webhook, the notifier and the dashboard.
mod Prelude
pub mod Catalog
pub mod Pool
pub mod Manager
pub mod LogBuffer
pub mod Runs
pub mod Text
pub mod Versions
pub mod Releases
pub mod Runner
pub mod Agent
pub mod Verdicts
pub mod Sessions
pub mod Tools
pub mod Executors
pub mod Watcher
pub mod ReleaseRoutes
pub mod SessionRoutes
