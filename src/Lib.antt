-- ===== src/Lib.antt =====
-- Contreap: a persistent, concurrent search tree of counters, behind three database backends.
--
-- The program keeps a multiset of 64-bit keys in a treap: a search tree by key whose heap order is
-- that of `aes_hash::hash(key)`. Each update makes a new version of the tree that shares what it
-- does not copy, and queries name the version that they read. `main.cpp` drives one backend (`db/`)
-- with a file of transactions; the backends stand on the tree libraries `lib/treap` and `lib/pam`.
--
-- Files, with the code that they model:
--   Prelude, Prelude/*         Boolean tests, `uint64_t` arithmetic (`wrap`), lists, arrays with
--                              faults (`Slots`), the monad of steps that may fault
--   Tree, Tree/*               trees over any cell type, and the routines that lib/treap and lib/pam
--                              share in text: splitting, concatenation, union; search order, heap
--                              order, contents, and that contents determine the shape
--   Tree/Release, */           release_node and release_tree of lib/treap/node.hpp and lib/pam/node.hpp,
--                              on a memory of nodes and arrays, where `delete` on memory of `new[]`
--                              has no result
--   Treap/Node                 lib/treap/node.hpp
--   Treap/Augment              lib/treap/augment.hpp
--   Treap/SearchInsert, */     lib/treap/search_insert.hpp
--   Treap/SearchDelete, */     lib/treap/search_delete.hpp
--   Treap/Build, */            lib/treap/build.hpp
--   Treap/Query, */            lib/treap/query.hpp
--   Treap/Represents, Update   what a version of the treap stands for, and the effect of an update
--   Treap/Scheduler/Store, Task, Machine, Threads
--                              lib/treap/scheduler.hpp: nodes whose children are assigned later, the
--                              execution of one task, the state of all threads and their actions
--   Treap/Scheduler/*          its invariant, and what each step does to it
--   Pam/Node, Augment, Build   lib/pam/node.hpp, augment.hpp, build.hpp
--   Pam/BuildVersioned, */     lib/pam/build_versioned.hpp
--   Pam/CopyMerge, */          lib/pam/copy_merge.hpp
--   Pam/CopySubtract, */       lib/pam/copy_subtract.hpp
--   Pam/Sums, */               the cached sums of a version, and how old its entries are
--   Pam/Query, Interface, */   lib/pam/query.hpp, interface.hpp
--   Db/Interface               db/include/interface.hpp, and the meaning of a sequence of calls
--   Db/QueryProcessor, */      db/include/query_processor.hpp: the calls of the modifier thread, the
--                              client threads, and what happens to the queries
--   Db/Sequential, */          db/sequential.hpp, and the loop of main.cpp over the transactions
--   Db/Logging                 the messages of the backends that read `t->aug`, and fail for an empty tree
--   Db/ClientThreads, */       the client threads while main.cpp runs: which queries end the process
--   Db/Batch, */               db/batch.hpp (the calls of the modifier thread, and the search of a
--                              client thread for a version), and the same loop of main.cpp
--   Db/Contreap, */            db/contreap.hpp (the calls of the modifier thread, and what a client thread
--                              does for a point), and the same loop of main.cpp while the threads of the
--                              scheduler take their turns
--   AesHash, */                lib/aes_hash.hpp, over the bytes of its integers
--   CommandLine, */            main.cpp: ParseCommandLine, and the choice of the backend
--   Workload/Export            ycsbc/db/export.hpp, and DelegateClient and the phases of ycsbc/ycsbc.cc
--   Workload/Bytes, Load       the bytes of the workload file, and how main.cpp reads them
--   Workload/RoundTrip         what is written against what is read
--   Workload/Setup, */         the command line of ycsbc/ycsbc.cc, the start of its main, and
--                              ycsbc/db/db_factory.hpp
--   Program, */                main.cpp: main as a whole, and its runs on files of the generator
--   Log                        utils/log.h
--   Latency, */                test/query_latency.cpp: test_perversion
--   Examples/*                 runs, and the theorems at concrete inputs
--
-- How the code is read:
--   - a `node_t*` is the tree that it leads to, null or a cell with two subtrees. Versions share
--     nodes; the only field that is written after a node is published is the cached sum `aug`, and
--     `augment` returns the tree with its sums written;
--   - `uint64_t` and `size_t` are natural numbers with the reduction modulo 2^64 written out;
--   - `parlay::par_do` runs its two closures on disjoint subtrees, so their results do not depend on
--     an order, and the model computes both;
--   - `aes_hash::hash` is the parameter `hash`, and where the code relies on it the theorems assume
--     that it is injective, as the class comment says (a perfect hash for integers);
--   - recursions that are not on one subtree are on fuel: `merge_fuel` takes one more than the number
--     of nodes of both trees and so do `copy_merge_fuel` and `copy_subtract_fuel`, `build_fuel` and
--     `build_versioned_fuel` take the number of keys, and all are shown to be enough;
--   - the array `vals` of a node of lib/pam is its first entry and the list of the others;
--   - an array access out of bounds, or to a slot that was never written, has no result (`none`);
--   - in the scheduler a pointer is a tree that is complete when it is made, or the address of a node
--     whose children are assigned later; an address has a ghost, the tree that it will lead to. A
--     turn is one action of a thread: a step with the publication that follows it, such as the
--     token of a pipe, or one call of `execute_one_step_` or `execute_to_complete_`; a call that waits
--     inside is taken when its wait has ended. The fuel
--     bounds the depth of the trees that are read and is at least the size of every version;
--   - `Program` is given, as `takes`, which queries the client threads take before `Stop`; it looks at their
--     answers at the end, since a version does not change once it is there. A query of one key that the
--     version does not hold ends the process, and a build that logs debug messages ends where it shows the
--     sum of an empty tree;
--   - the key of a workload has at least four bytes, as the client makes it (`user...`);
--   - `release_tree` is on fuel, and the number of nodes of the tree is enough;
--   - the workload file is the list of its bytes, little-endian; the padding of a `tx_context` and
--     `strtoull` and `stoi` of the C and C++ libraries are parameters. A file that is too short has no
--     result, and so has a call after which the program aborts.
--
-- Not modelled: the other functions of test/, the sums that `work_estimate_` writes and their readers,
-- the estimate of db/contreap.hpp for a query of a range, the vendored libraries (lib/parlay,
-- lib/moodycamel, and ycsbc/core, a copy of YCSB-C, whose properties and `CoreWorkload::Init` are parameters), the several
-- threads of ycsbc.cc (`Init` aborts on the second one), how printf fills in its arguments, and
-- timing.
pub mod Prelude
pub mod Tree
pub mod Treap
pub mod Pam
pub mod Db
pub mod AesHash
pub mod CommandLine
pub mod Log
pub mod Latency
pub mod Workload
pub mod Program
pub mod Examples
