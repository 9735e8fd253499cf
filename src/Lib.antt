-- ===== src/Lib.antt =====
-- A verification library for snmpproxy, a proxy that polls SNMP devices on a schedule, keeps the
-- samples and the state of every poller, and serves them to clients.
--
-- The parts that are modelled, and how they work together. The scheduler says when each poller runs;
-- workers poll and report the outcome, which the poller's state machine and its statistics record.
-- What a poll uses, the community or the credentials and the timings, comes from the resolution of
-- its configuration through the levels server, namespace, target and poller. Clients find targets
-- through the tag index and the combined indices. The daemon validates its configuration file
-- before it starts anything. Clients connect in sessions, which are bound to a namespace that their
-- token may access and subscribe to pollers; the poller manager caches the pollers of the store and
-- tells the scheduler of them. Samples go through the buffer of the sync manager to the store, and in
-- the older server through the ring buffer of each target.
--
-- The files, with the code that each is about:
--   State.antt       internal/manager/state.go: the record PollerState and one function for each
--                    method, with proofs in State/Machine and State/Health; State/Manager
--                    for StateManager, State/Flush for flushStates of internal/manager/sync.go.
--   Stats.antt       internal/manager/stats.go: PollerStats and StatsManager; Stats/History for one
--                    poller's record, Stats/Totals for the aggregates.
--   TagIndex.antt    internal/server/tagindex.go: the two maps of TagIndex, as association lists;
--                    TagIndex/Prefixes, TagIndex/Invariant and TagIndex/Queries.
--   Indices.antt     internal/server/indices.go: StringSet, Indices and Filter; Indices/Sets,
--                    Indices/Targets and Indices/Search.
--   Resolver.antt    internal/manager/config_resolver.go: the resolution by levels; Resolver/Merge,
--                    Resolver/Cache for `Resolve` and the invalidations, Resolver/Secrets.
--   Config.antt      config/config.go: the validation; Config/Validity.
--   Scheduler.antt   internal/scheduler/scheduler.go: the scheduler; Scheduler/Heap for PollHeap and
--                    container/heap, with its index fields in Scheduler/Heap/Indexed and
--                    Scheduler/Heap/Moves; Scheduler/Invariant for the methods, Scheduler/Due for
--                    processDueItems, Scheduler/Races for what methods do to each other.
--   Ring.antt        internal/server/poller.go: the ring buffer of a target; Ring/Holds for a write and a
--                    copy, Ring/Refine for the buffer as a list of the last samples.
--   Target.antt      internal/server/poller.go: Target with its owners, state and statistics;
--                    Target/Health.
--   Sessions.antt    internal/handler/session.go: Session; Sessions/Manager for SessionManager, with
--                    the pointers that its maps share, Sessions/Agree, Sessions/Moves and
--                    Sessions/Traffic for its maps, Sessions/Expiry and Sessions/Restoration for
--                    Cleanup and TryRestore, Sessions/Subscriptions and Sessions/Updates for the
--                    reverse index; Sessions/Requests, Sessions/Answers, Sessions/Served and
--                    Sessions/Bound for the requests of internal/handler/subscription.go and
--                    BindNamespace, with the checks of internal/handler/handler.go.
--   Pollers.antt     internal/manager/poller.go: PollerManager; Pollers/Operations for its methods
--                    and UpdatePoller of internal/handler/poller.go, Pollers/Names for the names
--                    and keys, Pollers/Lists and Pollers/Listing for the indexes, Pollers/Edits for
--                    what updates tell the scheduler, Pollers/Deletion for Delete.
--   Targets.antt     internal/manager/target.go: TargetManager, with Targets/Changes for updates and
--                    deletions; Targets/Filing and Targets/Reached for the keys of its cache,
--                    Targets/Versions for the version in an update.
--   Samples.antt     internal/manager/sync.go: the sample buffer and its flushes.
--   Tree.antt        internal/manager/tree.go: the cache of tree nodes and the references of links;
--                    Tree/Formats for the references that CreateTreeLink of
--                    internal/store/tree.go stores; Tree/Cached, Tree/Links.
--   Shell.antt       cmd/snmpctl/shell/context.go: the path of the shell; Shell/Paths for paths and
--                    their parts, Shell/Directions for where a path leads without the code,
--                    Shell/Navigation for Cd.
--   Base.antt        what the files share: lists and tests on native numbers, byte strings and Go's
--                    string functions, association lists, sets, indexes,
--                    sorting, 64-bit arithmetic, options, results.
--   Tests.antt       the operations at concrete values.
--
-- How the code is read. Strings are lists of bytes. An integer of 64 bits that is counted up is kept
-- modulo 2 ^ 64, as a bit pattern; times and intervals are plain numbers, far below the bounds of
-- int64. A Go map is an association list with distinct keys in use, a set of strings a list; where Go
-- walks a map in any order, the lists here follow the order of insertion, on which no caller relies,
-- and strings that the code sorts are sorted here. A pointer to a poll item is a number, and each field of the
-- items is a map from pointers; sessions and cached pollers are reached through a heap from addresses
-- in the same way. Every function runs under the lock that the code takes for it; the
-- present time and the random jitter are arguments. A panic is `none` in the scheduler, in the
-- ring buffer and in the sending of messages, and an error
-- that the code returns is a constructor for its message.
--
-- Loops on fuel. The loops of the heap get as much fuel as there are slots, and the loop of
-- processDueItems one more than the items in the heap: each round of a sift moves on by a slot at
-- least, and each round of collecting takes an item out. A loop that ran out would return `none`, as
-- for a panic.
--
-- What is not modelled: the database and its statements, whose answers are arguments of the
-- resolution and of the managers; glob matching of host names, an argument of the queries, and Go's
-- path.Clean, an argument of the tree; networking, protobuf messages and the rest of the command
-- line; the manager of namespaces, and the flush of statistics. Go's memory model is left aside: a method
-- that holds its lock is one step.
pub mod Base
pub mod State
pub mod TagIndex
pub mod Indices
pub mod Stats
pub mod Resolver
pub mod Config
pub mod Scheduler
pub mod Ring
pub mod Target
pub mod Sessions
pub mod Pollers
pub mod Samples
pub mod Shell
pub mod Targets
pub mod Tree
pub mod Tests
