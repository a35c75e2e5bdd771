-- ===== src/Lib.antt =====
-- Verification of the core of ai_pipe, a C++ framework that runs a directed graph of nodes over
-- streams of frames.
--
-- The parts and how they interact. Packets wait at each input port of a node in a bounded queue
-- (src/lock_free_queue.hpp): a ring buffer, `LockFreeMPMCQueue`, inside `LockFreeNodeQueue`, which
-- applies a drop policy when the ring is full, counts, and calls a drop callback. When a branch of the
-- graph drops a frame, the branches that join it later must drop it too: `SyncCoordinator` keeps a
-- `SyncGroup` for each join (src/sync_coordinator.hpp). A join takes from its input queues only packets
-- that belong together: `gatherAligned` (src/frame_alignment.hpp) peeks at the heads, asks a policy
-- whether they are aligned, and discards those that can never be; the engine hands it callbacks
-- (src/execution_engine_impl.cpp).
--
-- The nodes and their connections form a `Graph` (src/graph.cpp), which refuses edges that do not fit and
-- keeps degrees and adjacency lists. `CompiledGraph` (include/ai_pipe/compiled_graph.hpp) turns it into
-- vectors by index, with a topological order, for the parts that run it, or tells by an `Error`
-- (include/ai_pipe/error.hpp) why it cannot be run. The engine asks a scheduler strategy whether a node is to
-- run, and claims the node, posts its task and closes the node at the end of the stream through one atomic state
-- (src/execution_engine_impl.cpp). `JoinAwareSyncStrategy` (src/join_aware_sync_strategy.hpp) finds the
-- paths between forks and joins, and passes the drops of a node on to the coordinator for each group of it.
--
-- The tasks that the engine posts are run by a thread pool (src/work_stealing_thread_pool.hpp): each worker has a
-- queue, takes tasks from its front, and steals from the back of the others. The engine calls the hooks of the nodes
-- when it starts, stops and is reset (src/execution_engine_impl.cpp). A user holds a `Pipeline`
-- (src/pipeline_impl.cpp), which keeps a state of its own, calls the engine, and hands out results as
-- return values, futures and calls of callbacks.
--
-- Which file models which part.
--   Prelude, Prelude/*: shared names, Boolean tests, lists, sets, maps, bits and 64-bit words.
--   Errors: `Error`; Errors/Codes: `ErrorCode`; Errors/Results: `Result<T>` and `Result<void>`.
--   Topology: sums and occurrences, and the loop that peels nodes off a graph, on functions in place of tables;
--     for the two loops of the program that look for cycles.
--   Queue/Capacity: `roundUpPowerOf2`. Queue/Ring: `LockFreeMPMCQueue`; Ring/Holds says when a ring holds
--     a list of items, Ring/Fifo what each operation does to that list; Ring/Force: `forcePush`. Queue/Node:
--     `LockFreeNodeQueue`, its setters in Node/Settings; Node/Policies treats the three drop policies,
--     Node/Pop pops and `clear`, Node/Balance the counters.
--   Sync/Group: `BranchState` and `SyncGroup`; Group/Watermark, Group/Drops, Group/Cleanup and
--     Group/Reasons prove its properties. Sync/Coordinator: `SyncCoordinator`. Sync/Context: `NodeSyncContext`.
--   Align: `FrameIdPolicy`, `StreamFrameIdPolicy` and `TimestampPolicy` (`aligned`, `stale` for
--     `forEachStale`, `pairs_with`), with proofs in Align/Frames, Streams, Times and Discard.
--     Align/Gather: `gatherAligned` with `runAlignedGather`, `peekAlignmentHead`, `portDrained` and
--     `dropStaleHead` of the engine; Gather/Flags and Gather/Delivery treat its phases, Gather/Ends the loop.
--   Graph: `Graph` and `Edge`; Graph/Steps and Graph/Agreement relate the tables to the edges, Graph/Calls
--     treats histories of calls, Graph/Cycle `hasCycle`. The virtual functions of `ILogicNode` are a parameter.
--   Compiled: `CompiledGraph`; Compiled/Kahn relates its Kahn's algorithm to the peeling loop, Compiled/Edges and
--     Routes treat the pass over the edges, Index the map from nodes to indices, Ports the validation of
--     ports, Run a whole run, Loops the loops of the two graphs, Correct and Connected what the run returns.
--   Engine/Tasks: the state machine of a node and the count of active tasks (`scheduleNodeExecution`,
--     `executeNodeTask`, `handleNodeFailure`, `checkNodeEndOfStream`) as events of any number of threads.
--     Engine/Ports: the latches for the end of the stream (`signalEndOfStream`, `latchPortEos`,
--     `portDrained` and the tests on it) and what `tryScheduleNode` counts for the scheduler.
--   Engine/Control: the engine's life, by the calls that start, stop, end and reset it (Control/Methods), cut where they
--     wait; Control/Histories has the pieces in any order, Hooks, Sound and Begins treat `setup` and `teardown`,
--     Running and Ends what a history keeps and how it ends.
--   Pool: `WorkStealingThreadPool`, by the accesses of its threads; Pool/Deque: `WorkStealingDeque`, Pool/Steps the
--     step relation, Weights sums over the places of tasks, Kept that no task is lost, Counters and Drain what the
--     counters and a shutdown promise. Pool/Alone: the searches through the queues, for a caller alone.
--   Pipeline: `Pipeline::Impl`, with its calls in Pipeline/Methods, what the engine's threads do in Pipeline/Events, and
--     both together in Pipeline/Histories; Threads, Waits, Runs, Calls and Idle relate its state to the engine's, Refusals,
--     Recovery, Cancelled, Promises and Futures treat refused calls, `reset`, `cancel` and the futures.
--   Join: `JoinAwareSyncStrategy` without `initialize`; Join/Drops treats the drops that it passes on,
--     Join/Paths `findAllPaths`.
--   Schedule: `BatchSchedulerStrategy` of src/scheduler_strategies.hpp; Schedule/Batch proves what it decides.
--     Schedule/Stream: `StreamSchedulerStrategy`.
--   Latency: `LatencyHistogram` of include/ai_pipe/execution_types.hpp.
--   The theorems at concrete inputs stand in the modules named Tests.
--
-- State. A record holds an object's members; a method returns the new record. Hash maps are
-- association lists and hash sets are lists that are asked by `contains`, so the order in which a loop
-- visits them is the list's. Calls of a callback are collected in a list, oldest first. A method is run
-- alone: for the lock-free queue this is one thread at a time, so an exchange of a position succeeds. Threads
-- that run at once are modelled for the thread pool, as a relation of steps, for the states of the nodes, as events,
-- and for the engine's life, as pieces of methods. The calls of a `Pipeline` do not overlap; while one waits, and
-- between them, the engine's threads report completions, fail, call callbacks of which they hold copies, and stop
-- the execution, step by step.
-- A loop that its fuel cuts off has a result of its own (`spinning`, `none`, `out_of_fuel`).
--
-- Bounds and fuel. Positions, tags and counters are 64-bit words that wrap; theorems that read a size or
-- a counter suppose that positions have not wrapped (`Fresh`, and the bound of `size_lem`). The loop over
-- a position has two rounds and the last loop of a push has two, since alone at work the first decides.
-- The loop of `pushKeepLatest` and that of `clear` have one round more than the queue has items. The
-- gather loop has more rounds than packets are queued, since each round that goes on discards one. The loop
-- of `hasCycle` has one round more than there are nodes and in-degrees, and that of `compile` one round more than
-- there are nodes: each round takes another node off the queue. The depth of `findAllPathsDFS` is bounded by
-- the number of nodes, since each call visits one more. An index has 32 bits and a compiled graph is supposed
-- to have fewer than 2^32 nodes, so no index is the invalid one. A mask of latches has 64 bits. The counters of the
-- thread pool are 64-bit words, and theorems that read them suppose fewer than 2^64 submitted tasks. A search
-- through the pool's queues has as many rounds as there are queues, as in the code.
-- Time stamps and their differences are 64-bit numbers that wrap around.
--
-- Not modelled: interleavings of threads inside the queue, time stamps of drop events, floating point
-- rates, text output; `findLowestCommonFork` and `initialize` of the join-aware strategy; of the engine the routing of
-- inputs and outputs, the gather without alignment, the join timeouts, statistics and options; of the thread
-- pool its futures, its clocks and `waitForTasks`; of the facade
-- its options, its observers and the calls it only hands on; the context, the trace, the node registry, the loaders of
-- graphs and plugins, and the logger.
pub mod Prelude
pub mod Queue
pub mod Sync
pub mod Align
pub mod Errors
pub mod Topology
pub mod Graph
pub mod Compiled
pub mod Schedule
pub mod Engine
pub mod Join
pub mod Latency
pub mod Pool
pub mod Pipeline
