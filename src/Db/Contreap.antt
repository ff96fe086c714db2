-- ===== src/Db/Contreap.antt =====
-- db/contreap.hpp: the calls of the modifier thread, each of which makes one task of the scheduler, and
-- the loop of main.cpp over the transactions while the threads of the scheduler take their turns.
pub mod Closing
pub mod Contents
pub mod Follows
pub mod Points
pub mod Versions
use contreap.Prelude.{
  ℕ, zero, suc, ◌+◌, Bool, true, false, ltb, leb, ◌==◌, ◌&&◌, Option, none, some, List, [], ◌∷◌,
}
use contreap.Log.{enabled, debug}
use contreap.Treap.Build.{build_parallel}
use contreap.Treap.Scheduler.Store.{View, look, Result, ok, waits, fault, ◌>>=◌}
use contreap.Treap.Scheduler.Task.{Operation, op_none, op_insert, op_delete}
use contreap.Treap.Scheduler.Machine.{
  Request, Machine, Worker, WorkerPhase, stopped, scheduler, get_snapshot,
}
use contreap.Treap.Scheduler.Threads
use contreap.Treap.Scheduler.Threads.{Turn, init_context}
use contreap.Db.Interface
use contreap.Db.QueryProcessor
use contreap.Db.QueryProcessor.{QueryContext, QueryProcessor}

-- `machine` is `contreap_`, none where the pointer is null.
pub record Contreap (Q : Type 0) : Type 0 where
  pub num_threads : ℕ
  pub block_size : ℕ
  pub machine : Option Machine
  pub query_processor : QueryProcessor Q

-- The request of a call to the scheduler.
abbrev pub request : Operation → ℕ → Request
request op elem = record { op = op; elem = elem }

abbrev pub deref : Option Machine → Result Machine
deref none = fault
deref (some m) = ok m

module _ {Q : Type 0} where
  unfoldable pub create : ℕ → ℕ → ℕ → Q → Contreap Q
  create num_threads num_clients block_size empty = record {
    num_threads = num_threads;
    block_size = block_size;
    machine = none;
    query_processor = QueryProcessor.create num_clients empty;
  }

  unfoldable pub init : (ℕ → ℕ) → (ℕ → ℕ) → Contreap Q → ℕ → List ℕ → Contreap Q
  init double_log hash b m elems =
      let t = build_parallel hash elems in
      record b {
        machine = some (scheduler double_log b.num_threads m b.block_size t);
        query_processor = QueryProcessor.start b.query_processor;
      }

module _ (fuel : ℕ) (hash : ℕ → ℕ) where
  -- `insert_elem`, `delete_elem` and `nop` of the scheduler.
  unfoldable pub insert_elem : ℕ → Machine → Result Machine
  insert_elem elem m = init_context fuel hash (λ i. request op_insert elem) m

  unfoldable pub delete_elem : ℕ → Machine → Result Machine
  delete_elem elem m = init_context fuel hash (λ i. request op_delete elem) m

  unfoldable pub nop : Machine → Result Machine
  nop m = init_context fuel hash (λ i. request op_none 0) m

  module _ {Q : Type 0} (enqueue : Q → QueryContext → Bool × Q) where
    -- The calls, with their return codes; the version of a query is the number of issued tasks.
    unfoldable pub query : Contreap Q → ℕ → ℕ → Result (Contreap Q × ℕ)
    query b l r = do
      m ← deref b.machine
      m' ← nop m
      let pushed = QueryProcessor.push enqueue b.query_processor m'.num_issued l r
      ok (record b { machine = some m'; query_processor = pushed.0 }, pushed.1)

    unfoldable pub insert : Contreap Q → ℕ → Result (Contreap Q × ℕ)
    insert b k = do
      m ← deref b.machine
      m' ← insert_elem k m
      ok (record b { machine = some m' }, 0)

    unfoldable pub delete : Contreap Q → ℕ → Result (Contreap Q × ℕ)
    delete b k = do
      m ← deref b.machine
      m' ← delete_elem k m
      ok (record b { machine = some m' }, 0)

    -- One transaction of `main`.
    unfoldable pub step : Interface.Call → Contreap Q → Result (Contreap Q × ℕ)
    step (Interface.Call.query l r) b = query b l r
    step (Interface.Call.insert k) b = insert b k
    step (Interface.Call.delete k) b = delete b k

    -- A turn of a thread: the master of the scheduler is `main`, with its next transaction.
    unfoldable pub move :
        Turn → List Interface.Call → Contreap Q → Result (Contreap Q × List Interface.Call)
    move Turn.master [] b = waits
    move Turn.master (c ∷ calls) b = do (b', code) ← step c b; ok (b', calls)
    move turn calls b = do
      m ← deref b.machine
      m' ← Threads.step fuel hash (λ i. request op_none 0) turn m
      ok (record b { machine = some m' }, calls)

    -- The transactions of `main`, while the threads take these turns.
    unfoldable pub run :
        List Turn → List Interface.Call → Contreap Q → Result (Contreap Q × List Interface.Call)
    run [] calls b = ok (b, calls)
    run (t ∷ turns) calls b = do (b', calls') ← move t calls b; run turns calls' b'

-- Whether the threads 1 to `n` satisfy a test.
abbrev pub all_threads : (ℕ → Bool) → ℕ → Bool
all_threads test zero = true
all_threads test (suc n) = test (suc n) && all_threads test n

abbrev pub has_stopped : WorkerPhase → Bool
has_stopped stopped = true
has_stopped _ = false

-- `process` of the scheduler returns when all its threads have ended.
unfoldable pub process : Machine → Result Machine
process m =
    elim (all_threads (λ k. ltb m.num_tasks (m.pipes k).pos) m.num_pipes
      && (leb m.num_tasks m.local_submitted
          && (all_threads (λ k. has_stopped (m.workers k).phase) m.num_workers
              && leb m.num_tasks m.collector.local_committed))) [ false ↦ waits | true ↦ ok m ]

-- `last_version` of the scheduler.
unfoldable pub last_version : Machine → ℕ
last_version m = m.num_issued

-- `->aug`
abbrev pub aug_of : View → Result ℕ
aug_of View.void = fault
aug_of (View.fields c l r) = ok c.aug

-- The argument of the message that `Close` logs.
unfoldable pub final_result : Machine → Result ℕ
final_result m = do t ← get_snapshot m (last_version m); aug_of (look m.store t)

module _ {Q : Type 0} where
  -- `Close` in a build of this level: the message of the final result is for debugging.
  unfoldable pub close : ℕ → Contreap Q → Result (Contreap Q)
  close log_level b = do
    m ← deref b.machine
    m' ← process m
    let b' = record b { machine = some m'; query_processor = QueryProcessor.stop b.query_processor }
    elim (enabled log_level debug) [ false ↦ ok b' | true ↦ do result ← final_result m'; ok b' ]
