-- ===== src/Lib.antt =====
-- netconnpool: a pool of TCP and UDP connections that threads borrow and return.
--
-- The parts and their files. The names are the code's, in this language's spelling.
--   Protocol, IpVersion, Mode: src/protocol.rs, src/ipversion.rs, src/mode.rs; Names has their laws.
--   Errors: src/errors.rs.  Net: what the code uses of std::net and std::time.
--   Config, Config/Builder: src/config.rs; Config/Validity says what is accepted.
--   Udp, Udp/Clearing: src/udp_utils.rs, the packets left over from an earlier borrower.
--   Connection, with Connection/Evolution and Connection/Timing: src/connection.rs.
--   Stats, Stats/Snapshot: src/stats.rs; Stats/Saturation and Stats/Balance have the laws.
--   SegQueue: the interface of crossbeam_queue::SegQueue, a parameter of everything about the pool.
--   Pool/*: src/pool/mod.rs and src/pool/pooled_connection.rs.
--     State: PoolInner, the buckets, the counters.  Remove: remove_connection.
--     Idle: return_connection, add_idle_connection, try_push_idle, the borrower's handle.
--     Create: create_connection.  Get: get_connection.  Cleanup: cleanup.  Close: close.
--     Threads: Pool::new, prewarm, reaper, stats.  System: the steps of a pool with many threads.
--     Bounds, Liveness, Fitness, Returning, Dropping, Drained, Emptied, Matching, Insertion, Buckets,
--     Ids, Leaks: theorems, on the lemmas of Frame, Store, Map, Removal and Creation.
--     Owners: a pool with the connections that its threads hold; Lending: and which of them are lent.
--     Follows, Bends: from handler to handler, for any relation that the small changes keep; Retains,
--     Settles and Accounted, about the places of the connections made since `new`, are such. Their
--     children, and Queued, Minting and Sorting, follow a connection through the handlers. Probing: the
--     search for an id.
--     Sweeping: what is through with `cleanup`. Outcomes: what a call of get_connection is counted as.
--     Reuse: the idle connection that a pass of get_connection takes, also while it waits.
--     Progress: a pass that can succeed. Prewarm: a prewarm in which every creation succeeds.
--   Racing: the loops over compare_exchange_weak, with any number of threads on one atomic. Its Uses are
--     safe_increment_i64, try_push_idle and the generator of ids; Racing/Bucket is one idle queue and
--     its counter, with pushes, pops and close half done; Racing/Wakeup is the wait on a full pool.
--   Samples and the modules called Tests, LeakTests or CallTests: sample data, and the theorems applied
--   to it.
--
-- How they interact. The pool holds the connections in a map by id and, those that are idle, in four
-- queues, one for each protocol and IP version. get_connection takes from the queues of the kinds that
-- fit, or calls create_connection, which dials by a callback of Config; the handle that the borrower
-- drops calls return_connection; the reaper calls cleanup. Each reports to the counters of Stats.
--
-- How state is modelled. A handler is a function on the record PoolInner. An Arc<Connection> is a place
-- in the heap `store`, so that the map and the queues share connections. A Moment is the readings of the
-- clocks in one pass of a handler, the same for all its readings. A callback of the user is a function
-- of the moment; one that returns nothing, or whose result is thrown away, is an entry of `trace`, as a
-- wake-up is. Numbers of the code that wrap around or saturate do so here. The heap and the
-- generator of ids are the process's, though they are fields of the record: other pools and callers of
-- Connection::new take from them, by steps of their own.
--
-- How threads are modelled. In get_connection, other threads work between two passes. In System, whole passes are steps, and so are their parts, each a locked section or
-- an atomic, but a push to an idle queue or a pop is one with its counter, and the draining of a queue in
-- close is one with the reset of its counter. In Owners and Lending, a whole pass is a step, and so is
-- the part of create_connection after the dialling. A call of a borrower on its connection is a step of
-- each of the three, except update_id, which the code keeps for conflicts of ids, and in Lending
-- mark_in_use, mark_idle and try_mark_idle too; Lending has one pool that lends. In Racing, a step is one
-- access to one atomic or queue.
--
-- Bounds. The loops over a queue run on its length and one more, the last loop of close on the length
-- of the map and one more; each of their rounds takes at least one entry away. The search for a free id
-- runs on the length of the map and one more, as many ids as the map cannot all hold; a search that ran
-- out would end in the error of a search that came round, and Probing is about that. The loops with
-- waits run over the turns that the environment gives.
--
-- Not modelled. Debug and Display texts except the names that to_string prints, and messages on the
-- standard error; the numbers in the reasons of InvalidConfig; poisoned locks, which need a panic;
-- interleavings inside a pass, but for those of System and Racing; a borrower's call of update_id and,
-- in Lending, of the methods that set the mark of use, though the handle gives all methods of
-- Connection; memory orderings weaker than a single order of
-- the accesses to one atomic; what frees a pool that no strong reference holds; case conversion outside
-- ASCII. average_reuse_count is the exact fraction, not rounded.
pub mod Base
pub mod Errors
pub mod Protocol
pub mod IpVersion
pub mod Mode
pub mod Net
pub mod Config
pub mod Udp
pub mod Connection
pub mod Stats
pub mod SegQueue
pub mod Pool
pub mod Racing
pub mod Names
pub mod Samples
