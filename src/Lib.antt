-- ===== src/Lib.antt =====
-- CCBench: a benchmark of concurrency control protocols, each a program of its own that runs worker
-- threads over one table in memory and shares the helpers of include/ and common/.
--
-- Each worker draws a list of procedures (include/procedure.hh), runs them as one transaction of
-- its protocol's executor, and then commits or aborts. The protocols here are ss2pl/, strict
-- two-phase locking with a reader-writer lock (include/rwlock.hh) in each tuple, occ/, where
-- workers read without locks and validate one at a time under one global lock of the same kind,
-- tictoc/, where a worker locks its write set and computes a commit timestamp from the words of its
-- tuples, silo/, where it validates by the TID words of the tuples, and si/, where it reads old
-- versions of the tuples and the first to update a tuple wins. In lock-manager/ a transaction
-- registers all its accesses in the wait lists of the tuples before it takes a lock.
--
-- Common: numbers, lists, families of numbers (one per worker), `int` as an integer, sorting.
--
-- Build: common/util.cc, the number of threads that makeDB starts, and their parts of the table.
--
-- Procedure: include/procedure.hh, Ope, Procedure and operator< as `less`.
--
-- Serial: what a concurrency control promises, transactions run one at a time on a database.
--
-- Rwlock: include/rwlock.hh. A method is a function for one turn of its loop, from the counter and
-- the local `expected`, to the counter and the outcome `again` or `done`. Rwlock/System lets
-- threads take such turns in any order.
--
-- Ss2pl: ss2pl/transaction.cc and the loop of ss2pl/ss2pl.cc. Types has the data, Operations the
-- methods of TxExecutor, Workers the workers and their steps, with a record of the payloads that
-- each transaction reads, by read or by readWrite. Effects, Executing, Loading, Progress, Serial
-- and Refinement carry the invariant through every step. Once, LockedOnce and Conflicts are about
-- the locks of one worker and of the others, Alone about the loops of commit.
--
-- Occ: occ/transaction.cc and the loop of occ/occ.cc, arranged in the same way. History names the
-- committed transactions by their ids, Validation reads the answers of validationPhase off that
-- history, Window follows ws_list through gc, and Invariant, Reading, Refinement, Publishing and
-- Steps carry the invariant through every step.
--
-- Tictoc: tictoc/transaction.cc and the loop of tictoc/tictoc.cc, arranged in the same way. Words
-- has the arithmetic of TsWord, World and Invariant the invariant between the workers and the
-- table, as an instance of Timestamps, and Calm to Steps carry it through every step.
--
-- Timestamps: what silo/ and tictoc/ have in common, a system whose transactions lock what they
-- write and are serial in the order of a number that each draws. History has the transactions
-- sorted by that number, Protocol what a worker of such a system shows, Invariant the invariant,
-- and Advance, Calm, Commits and Stores the steps that keep it.
--
-- Silo: silo/transaction.cc, the loop of silo/silo.cc and the epochs of silo/util.cc. Tidword has
-- the TID words and the choice of a commit TID, Operations the methods of TxnExecutor, each as one
-- step on the table; Unlocking and Validation carry their proofs. Workers has the same methods
-- access by access, System the workers and the leader, World and Invariant the invariant between
-- the workers and the table, as an instance of Timestamps, and Growing and Reading to Steps carry
-- it through every step. Epochs follows GlobalEpoch and Room the TIDs.
--
-- LockManager: lock-manager/ss2pl.cc. Operations has lockmanager_regist, check_waitlist, the
-- methods of Transaction and a round of worker, each on a table that no other worker changes;
-- Register, Acquire, Waitlist, Release and Alone carry their proofs, and Order those about the order
-- of the wait lists.
--
-- Tpcc: tpcc_silo/tpcc/tpcc_tables.hpp and tpcc_util.hpp. Memory has the integers in memory, Keys
-- the keys of the tables and Order their comparison, Names the key of the last name and copy_cstr,
-- History the generator of history keys, Permutation the shuffled ids of the initial load; Numbers,
-- Bytes, Fields, Tables and Copying carry the proofs. The machine keeps the least significant byte
-- first, the random numbers are a parameter, the asserts of Permutation and random_int are errors
-- and the size of Permutation wraps at 64 bits, and memory that the source does not initialise
-- holds anything.
--
-- Si: si/transaction.cc and the loop of si/si.cc. Types has the versions and the data of a
-- transaction, Workers its operations access by access, System the workers. Invariant says what
-- holds of the versions of a tuple and of what a worker has found, Growing, Reading, Versions,
-- Storing, Publishing, Keeping and Committing carry it to Steps, and Runs has two runs that
-- snapshot isolation would not allow. A version exists from the compare-and-swap that publishes it,
-- as nobody else sees one before.
--
-- A system is a number of workers that take steps in any order. A step of ss2pl/ is one operation
-- of a transaction, one copy into a tuple or one unlock: an operation makes a single attempt at a
-- lock, and what else it touches is its own or guarded by that lock. A step of occ/ is one
-- operation, one attempt at global_lock, the validation (all it reads is written only under
-- global_lock), one copy into a tuple, or the end of writePhase. A step of tictoc/ is one load of a
-- word or one compare-and-swap on it together with the tests on the words before, one copy of a
-- payload, or one store of a word, and so is a step of silo/ and of si/, where in silo/ the
-- leader's load and compare-and-swap in atomicAddGE are one. The copy of one payload counts as one
-- step. Steps follow one another, as with sequentially consistent memory.
--
-- A tuple is the index of its key in Table, and a payload is the list of its bytes. The builds are
-- those without Masstree, back-off, logging and analysis counters, and for ss2pl/, silo/ and
-- tictoc/ those that do not wait for locks (DLR1, NO_WAIT_LOCKING_IN_VALIDATION), for tictoc/ with
-- PREEMPTIVE_ABORTS; TIMESTAMP_HISTORY is a flag of the model, and serializability is shown without
-- it. Loops go through lists or are steps; only check_waitlist of lock-manager/ has fuel, for its
-- outer loop, and one round is shown to be enough where the transaction is first. The counter of a
-- lock is an integer without a bound, as at most one unit per thread is added to it. The ids of
-- occ/ are computed at the widths of the source, uint64_t and int, and its theorems ask for fewer
-- than 2^31 commits. The fields of a word of silo/ and tictoc/ wrap at their widths, and a run of
-- tictoc/ is taken to have fewer than 2^48 steps, so that no timestamp wraps, and one of si/ fewer
-- than 2^32; serializability of silo/ asks that no TID field is at its largest value and that the
-- epochs fit their field, which 2^29 steps cannot exceed. makeDB of ss2pl/ leaves the locks of the
-- tuples as posix_memalign returns them; the model starts with free ones.
--
-- Not modelled: how the workers of lock-manager/ interleave; the log of silo/ and its Masstree
-- index; the other protocols (mocc/, cicada/, ermia/), the garbage collection of si/, which reuses
-- versions, the rest of tpcc_silo/, and the variants of ss2pl/ and of lock-manager/, which take
-- over most of their code; random numbers, time measurement (the leader of silo/ may ask between
-- any two transactions), back-off and results, which the protocols' correctness does not rest on;
-- files; and third-party code.
pub mod Common
pub mod Build
pub mod Procedure
pub mod Serial
pub mod Rwlock
pub mod Ss2pl
pub mod Occ
pub mod Timestamps
pub mod Silo
pub mod Tictoc
pub mod LockManager
pub mod Tpcc
pub mod Si
