-- ===== src/Lib.antt =====
-- A verification library for Agent Diaries, the TypeScript package under src/: diaries that let
-- many agents claim and run tasks once, workflows with a state machine and a coordinator, and the
-- tools, locks and records around them.
--
-- The program's parts and their files:
-- - src/shared/types.ts, src/shared/utils.ts: Shared (records, events, errors), Shared/Signature
--   (titles to signatures) and Shared/Effect (state, results and thrown errors).
-- - src/diary.ts, the class AgentDiary: Diary (configuration, world, common steps), Diary/Claims
--   (claimTask, batchClaimTasks, executeOnce), Diary/Outcomes (writeTaskResult, failTask,
--   deleteTask), Diary/Views (the reading methods) and Diary/Upkeep (pruning, import, clearing).
--   Each method holds the storage's lock of its agent, so it is one function of the world; calls of
--   several agents are a list in the order in which the lock lets them in.
-- - src/core/state/WorkflowStateMachine.ts: Workflow/Machine.
-- - src/core/repositories/index.ts: Workflow/Repository (WorkflowRepository), Workflow/Domain
--   (TimelineRepository, recordMetric), Diary/Entries (DiaryRepository), Observability/Providers,
--   Metrics and Traces (the others).
-- - src/core/coordinator/WorkflowCoordinator.ts: Workflow/Coordinator. It calls the repositories
--   and the worker registry on one world. A client (Workflow/Lifecycle) is any sequence of calls;
--   the function that an execution runs is such a client, too.
-- - src/core/timeline/TimelineService.ts: Workflow/Timeline; src/core/benchmark/BenchmarkEngine.ts:
--   Workflow/Benchmark.
-- - src/memory/MemoryProviders.ts: Memory/Persistence, Memory/Cache, Memory/Leases (locks with a
--   time to live) and Memory/Mutex (withLock, as a step relation on the queue of its calls).
-- - src/core/workers/WorkerRegistry.ts: Workers.
-- - src/tools/ToolExecutor.ts, src/tools/ToolRegistry.ts and src/tools/contracts.ts: Tools/Executor
--   and Tools/Registry.
-- - src/core/providers/SearchOrchestrator.ts, src/core/metrics/MetricsEngine.ts,
--   src/core/dashboard/Dashboard.ts, src/core/tracing/TracingService.ts: Observability.
-- - src/core/events/EventBus.ts: Events. The calls of the bus are tasks on a list, those that a
--   handler makes in front of what is due already.
-- - src/agents: Agents and Agents/Statistics (AgentRegistry).
-- - src/runtime: Runtime/Lifecycle (AgentLifecycle.run, the context of an agent and the trace),
--   Runtime/Environment (ExecutionEnvironment, AgentRuntime) and Runtime/Collector
--   (RuntimeMetricsCollector: counts, percentiles, snapshots and rankings; its rank is computed in
--   double precision, as the code does). Runtime/Counted joins a run and the collector that listens
--   to it. Warm-ups and shut-downs are parts between awaits, which Runtime/Environment/Turns lets
--   overlap with other calls.
-- - src/langchain: Langchain/Cache, Langchain/Tool and Langchain/Callbacks, over a diary.
-- - src/core/memory/LruMemoryProvider.ts: Memory/Lru, over Memory/Cache.
-- - src/core/storage/StorageManager.ts and src/memory/storage.ts: Storage (StorageManager),
--   Storage/Adapter (MemoryStorage), Storage/Files (LocalFileStorage) and Storage/Bridge
--   (StorageAdapterBridge).
-- - src/core/plugins/PluginRegistry.ts: Plugins, over Storage and Events.
-- - src/adapters: Adapters/Retry (the loop of withLock that they share), Adapters/Postgres (as a
--   step relation on the statements of its clients, whose clocks are taken to agree),
--   Adapters/Sqlite, Mongo and Redis. A release may fail: Postgres and SQLite log that, the others
--   throw it.
-- - Sorting and Windows: `Array.prototype.sort` and buffers that keep the last items.
--
-- How it is modelled: a string is its list of UTF-16 code units, a time a number of milliseconds,
-- a Map the list of its entries in the order of insertion (JsMap), an optional field an Option.
-- Readings of the clock are arguments, or come from the host in their order (Workflow/Domain), as
-- random identifiers do; where they must be distinct, a hypothesis says so. The other parts keep
-- the events that they emit as a log. The functions that a caller passes in, and what a tool or a
-- search provider ends with, are parameters, as are the package lru-cache, the host's JSON and the
-- databases, with the laws that the code relies on. The loop of the tool executor is recursion on
-- the retries that are left, as is that of the adapters' locks, so they need no fuel. The handlers
-- of the bus may emit without end, so Events takes the number of tasks to work off, and what is
-- stated holds for every such number; no other loop is unbounded.
--
-- Not modelled: reading and writing in the database adapters, the Redis and Postgres providers,
-- logging (calls of drivers, placeholders and output), and the copies of the same classes under
-- packages/. What a handler of the event bus does after its first `await` is not followed. Letters
-- outside ASCII keep their case, and JSON texts are given by the host.
pub mod Prelude
pub mod JsMap
pub mod Shared
pub mod Diary
pub mod Workflow
pub mod Memory
pub mod Workers
pub mod Tools
pub mod Runtime
pub mod Observability
pub mod Tests
pub mod Events
pub mod Agents
pub mod Sorting
pub mod Windows
pub mod Langchain
pub mod Storage
pub mod Plugins
pub mod Adapters
