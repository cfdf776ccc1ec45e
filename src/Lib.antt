-- ===== src/Lib.antt =====
-- Nova Runtime: a model of the parts of the runtime that decide, in the terms of their source, and
-- the theorems that make them correct.
--
-- The runtime is one process with a crate for each subsystem. A request enters the executor, which
-- queues it by priority (crates/nova-executor/src/operation_queue.rs) and guards each subsystem by
-- a circuit breaker (crates/nova-executor/src/circuit_breaker.rs). Subsystems tell one another of
-- changes through the event bus, which finds the subscribers of an event in a trie of topic
-- patterns (crates/nova-event/src/trie.rs, subscription.rs, event.rs). Roles decide what a user
-- may do (crates/nova-auth/src/rbac.rs) and failed logins lock a user out (crates/nova-
-- auth/src/brute_force.rs), the scheduler fires jobs from a wheel of slots or a sorted vector
-- (crates/nova-scheduler/src/time_wheel.rs), and the search matches terms up to a number of edits
-- (crates/nova-search/src/fuzzy/levenshtein.rs). Blobs are cut into chunks (crates/nova-
-- blob/src/chunk.rs) under a tree of hashes (crates/nova-blob/src/merkle.rs), and chunks that
-- several blobs share are counted (crates/nova-blob/src/dedup.rs). The storage engine keeps
-- transactions (crates/nova-storage/src/txn.rs) and collects writes in a table in memory before
-- they are flushed (crates/nova-storage/src/lsm.rs); a log of records is written ahead
-- (crates/nova-storage/src/wal.rs). Message queues keep their state in the storage engine
-- (crates/nova-queue/src/backend.rs, types.rs). A cache in memory is bounded by bytes
-- (crates/nova-cache/src/backend/hashmap.rs, mod.rs), and a wrapper keeps times of expiry beside it
-- (crates/nova-cache/src/backend/ttl.rs). Memory is counted by budgets (crates/nova-
-- memory/src/budget.rs) and by pages (crates/nova-memory/src/page_allocator.rs).
--
-- How the code is read:
--   - A method that takes `&mut self`, or that works under its lock, is a function that returns the
--     new state. Methods that take several locks in turn are one step too: interleavings of two such
--     calls are not modelled.
--   - Clocks and random identifiers are arguments. `Instant` and `Duration` are numbers of one unit,
--     and the difference of two instants stops at 0, as the standard library's does.
--   - `u64` counters that the source adds to atomically wrap around; sizes bounded by a capacity are
--     plain numbers.
--   - A `HashMap` is an association list with one entry for a key (Base/Assoc.antt). A `Vec` or
--     `VecDeque` is a list, front first.
--   - Error values keep their kind and not their text.
--
-- Files:
--   - Base: numbers, tests, lists, equality, maps, results.
--   - Executor/OperationQueue: `push`, `pop_priority` with its aging loops, `drain`, `cancel_all`,
--     `stats`; Counts, Invariant, Aging, Service, History, Admission and Accounting hold the proofs.
--   - Executor/CircuitBreaker: `execute`, `transition`, `open` (here `trip`), `close`, `force_open`,
--     `force_close`, `reset`; Moves says what one call may do, and Cases, Settling, Transitions
--     and Windows hold the proofs.
--   - Event/Topic: `EventType::new`, `TopicPattern::new`, `matches`.
--   - Event/Trie: `insert`, `lookup`, `remove`, `set_active`, `all_subscriptions`; Routing and Removal
--     hold the proofs.
--   - Scheduler/TimeWheel and Scheduler/PriorityQueue: `schedule`, `tick`, `pop_due`, `cancel`; Slots,
--     Firing and Due hold the proofs.
--   - Search/Levenshtein: the table of `levenshtein_distance`, `find_fuzzy_matches`, the automaton;
--     Rows relates the table to a recursion, Scripts defines edit scripts, Optimal holds the rest.
--   - Auth/Rbac: every method of `RbacEngine`; Matching, Grants, Removal and Assignment hold the proofs.
--   - Blob/Merkle: `build`, `verify`, `generate_proof`; Blob/Chunks: `split`; Blob/Dedup: the table of
--     counts. The hash is a parameter. The loops over levels run on fuel, one unit for each hash, and
--     the loop over chunks on one unit for each byte: a round halves the level, and a chunk
--     takes at least one byte.
--   - Storage/Transactions: every method of `TransactionManager`; Reads holds the proofs.
--   - Storage/MemTable: `MemTable` of lsm.rs, read by key; Contents and Size hold the proofs.
--   - Storage/Bytes: little-endian numbers. Storage/Wal: the record format of wal.rs; Writer, Reader and
--     GroupCommit hold its types of these names; Log is the abstract log, Refinement, Order, Payload,
--     Records, Recovery, Replay, Scanning and Checking hold the proofs. A scan runs on one unit of fuel
--     more than the log has bytes, and a record takes at least one byte.
--   - Queue: the types of types.rs; Backend and Sweeps: every call of `StorageQueueBackend` but
--     `list_queues`; IdMap is a scan in the order of keys, Invariant and History hold the invariant,
--     Delivery, Repeats and Sweeping the rest.
--   - Storage/Bloom: `BloomFilter` of lsm.rs, with `|` and `&` of one bit by recursion on the bit; Members
--     and Encoding hold the proofs.
--   - Storage/SsTable: the blocks of `SSTable::create_with_tombstones` and `get_with_tombstone` of lsm.rs; the
--     parse of a block runs on one unit of fuel for a byte, and an entry takes more. Blocks and Lookup
--     hold the proofs. The bytes of the index and the footer, and scans, are not modelled.
--   - Cache: Glob is `matches_glob`; Lru is the interface of the crate lru; HashMapBackend has every call
--     of the type of this name, where making room runs on one unit of fuel for an entry, since a round
--     takes one out. Accounting and Matching hold the proofs. TtlBackend has every call of the type of
--     this name in crates/nova-cache/src/backend/ttl.rs, over the trait's calls as an interface; Wrapped
--     fills the interface with HashMapBackend, and Expiry holds the proofs.
--   - Auth/BruteForce: every method of `BruteForceDetector`; Lockout holds the proofs.
--   - Memory/Budget: `reserve`, `release`, `allocate`; Memory/PageAllocator: `allocate_pages`,
--     `free_pages`; Outcomes and Balance hold the proofs.
--
-- Not modelled: input and output (HTTP, files, the command line), code of other crates (hashes,
-- regular expressions, JSON, which are parameters where a modelled part uses them), floating-point
-- rates and percentages, and the asynchronous code that joins the parts.
pub mod Base
pub mod Executor
pub mod Event
pub mod Scheduler
pub mod Search
pub mod Auth
pub mod Blob
pub mod Storage
pub mod Memory
pub mod Queue
pub mod Cache
