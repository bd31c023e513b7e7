-- ===== src/Lib.antt =====
-- TinyKV: a distributed key-value store, with a consensus core (tinykv/raft), a server with
-- transactions over it (tinykv/kv), and a scheduler of regions (tinykv/scheduler). This library
-- models parts of it as functions and proves what they do.
--
-- The parts and their files
--   Prelude          the shared helpers: tests on numbers, lists and maps over native numbers,
--                    64-bit words with their wrap-around, panics as `none`.
--   Keys             byte strings in the order of bytes.Compare (`compare_bytes`). Trees is the interface of
--                    an ordered tree, `OrderedTree`: it stands for tinykv/scheduler/pkg/btree and for
--                    GoLLRB, which both keep items in the order of their keys; its laws compare each
--                    operation with one on a sorted list. Sorted has the lemmas on such lists.
--   Raft             tinykv/raft, the consensus core:
--     Types          the messages and states of tinykv/proto/pkg/eraftpb/eraftpb.pb.go that the package
--                    exchanges, and its error values.
--     Util           tinykv/raft/util.go.
--     Storage        tinykv/raft/storage.go: the interface `Storage`, which a log reads, and
--                    `MemoryStorage`, which implements it by `to_storage`. Shape, Compaction and Changes say what
--                    its methods answer on a storage that is in order, and that they keep it so.
--     Log            tinykv/raft/log.go: `RaftLog`. Shape says what LastIndex and Term answer for a log of
--                    consecutive entries, Windows what is to be persisted and to be applied.
--     Node           tinykv/raft/raft.go up to becomeLeader: the state `Raft`, newRaft, what a node sends,
--                    and how it changes its role. Valid holds the invariant of a node, `IsValid`, and
--                    `Runs`: a computation that does not panic and keeps the invariant.
--     Step           tinykv/raft/raft.go from Step on: one function per message and role, composed by
--                    `step_follower`, `step_candidate`, `step_leader` and `step`; and `tick`.
--     Election       the election protocol of one node as a relation (`Turn`), with the turns that each
--                    message allows, which `step` refines;
--                    Elected and Majority are about the node that becomes the leader;
--                    Histories follows a node over any number of messages and ticks.
--     RawNode        tinykv/raft/rawnode.go: the calls of the application.
--     Tests          concrete nodes and the theorems at them.
--   Kv               parts of tinykv/kv, the storage server:
--     Codec          tinykv/kv/util/codec/codec.go: byte strings in groups; Groups, RoundTrip and Order
--                    hold its lemmas.
--     Endian         numbers as bytes, as binary.BigEndian writes and reads them.
--     Mvcc           tinykv/kv/transaction/mvcc/lock.go and write.go (Records), and the keys with a
--                    timestamp of transaction.go (Keys).
--     Latches        tinykv/kv/transaction/latches/latches.go; Exclusion has the moves of its holders.
--     Checks         tinykv/kv/raftstore/util/util.go: what is checked of a key (Keys), of the epoch and
--                    the term of a command (Epochs), and the peers of a region (Peers).
--     MetaKeys       tinykv/kv/raftstore/meta/keys.go; Order has the order of the keys of logs.
--     MemStorage     tinykv/kv/storage/mem_storage.go and modify.go: three ordered trees, one for each
--                    column family, with their reader and iterator.
--     RawApi         tinykv/kv/server/raw_api.go over MemStorage: Maps on puts, deletes and gets, Scans on
--                    scans.
--     Tests          concrete keys, regions and latches, and the theorems at them.
--   Scheduler        parts of tinykv/scheduler:
--     Regions        `RegionInfo` of tinykv/scheduler/server/core/region.go and its options, region_option.go.
--     Tree           tinykv/scheduler/server/core/region_tree.go. Shape has trees of regions that do not
--                    overlap (`IsDisjoint`), Overlaps what a region overlaps there, Updates and Removals
--                    what changes the tree.
--     RegionsInfo    regionMap, regionSubTree and RegionsInfo of region.go. Parts says which operations touch
--                    the map or the tree, Consistent relates the two (`IsConsistent`), Changes is about
--                    SetRegion.
--     TypeUtil       tinykv/scheduler/pkg/typeutil/convension.go and time.go, and pkg/tsoutil/tso.go.
--     Ids            tinykv/scheduler/server/id/id.go, and `Etcd`, the interface of the store that the
--                    servers share. Unique has the members that allocate ids side by side, Windows the
--                    ranges that they hold, Fresh a call of Alloc among them.
--     Timestamps     tinykv/scheduler/server/tso/tso.go. Saves relates the oracle to the time in etcd, Calls
--                    has each call, Deposed the calls of a member without the leader key, Monotone one
--                    leader in office after another among them, Bounds what GetRespTS returns.
--     Stores         tinykv/scheduler/server/core/store.go and store_option.go, and the stores of a region of
--                    basic_cluster.go.
--     Operators      tinykv/scheduler/server/schedule/operator: Progress is about Check, Moves and
--                    Removals about the order of the steps.
--     Filters        tinykv/scheduler/server/schedule/filter/filters.go.
--     Selector       tinykv/scheduler/server/schedule/selector/selector.go; Best is about SelectTarget.
--     ReplicaChecker tinykv/scheduler/server/schedule/checker/replica_checker.go, over Regions, Stores, Operators, Filters and Selector;
--                    Choices is about the peers that it adds, Safe about every operator that it makes.
--     Tests          three regions, an operator, five stores, two members and a leader, and an etcd in memory (MapEtcd).
--
-- A message goes from RawNode.step to Step.step, which changes the role (Node) and the log (Log), and
-- adds the answers to the outbox `msgs`; the log reads older terms from the storage.
--
-- Conventions. A Go function that changes its receiver returns the new state. A panic (an index out of
-- range, a nil dereference, an explicit panic) is `none`. A Go pair of a value and an error is a pair
-- with an `Option Error`. uint64 arithmetic is `add64` and `sub64`, modulo 2 ^ 64. A Go map is an
-- association list, whose order is one of the orders in which `range` may go. Slices are values: the
-- model does not see that the entries of a new log share an array with the storage, and a slice
-- expression panics where its upper bound passes the length. A node's `rand.Intn` reads the next number
-- of an arbitrary sequence.
--
-- Within Kv, a byte is a number below 256 and a byte string is a list of them; the keys of a lock or a
-- region use the encoding of Codec only through Mvcc.Keys.
--
-- Within Scheduler, a region that the code shares by pointer and does not change is a value; an option
-- of Clone changes the copy. A time is its UnixNano plus 6795364578871345152, so that the zero time is 0
-- and times of an int64 are numbers below a bound `top`; a difference of times compares as Go's 64-bit
-- Duration does, for the arguments that the lemmas name. The random numbers of RandomRegion are a function.
-- `Etcd` asks that a read returns the value or an error, and that a transaction, if it is reported
-- done, found its conditions and wrote its key; if refused, changed nothing; and if it failed, either.
-- A timestamp oracle whose ts is still nil has `is_set` false; its use ends the Go program, here it is
-- the error `nil_pointer`. A timestamp that a leader gives out after it has lost the leader key, before
-- its lease is seen to have expired, is outside of Monotone.
--
-- Bounds. `IsValid` asks that the last index is below 2 ^ 64, and `IsOrdered` of a storage that it is
-- below 2 ^ 63, so that no difference is a negative `int`. `Fits` asks for room for the entries of a
-- message, and that terms do not overflow. Loops are structural; the only counter, `rounds` in
-- `copy_entries`, is the number of the entries from Next to the last index. The rounds of
-- `encode_groups` are those of the loop over the data, and the rounds of `decode_groups` are the groups
-- of nine bytes that the input has, after which it is too short. RawScan walks at most one round more than the tree has
-- items. GetRespTS tries 100 times, as the code does; between two tries it sleeps, and other calls
-- change the oracle. The allocation of ids is about counters below 2 ^ 64.
--
-- Not modelled: the functions of tinykv/raft and of MvccTxn without a body (snapshots, membership changes,
-- Ready, reads and writes of transactions), the waiting loop of the latches, the other packages of
-- tinykv/kv, the controller of operators, the balancing schedulers and the services of tinykv/scheduler, the two libraries of ordered trees,
-- generated code and printing.
pub mod Prelude
pub mod Keys
pub mod Raft
pub mod Kv
pub mod Scheduler
