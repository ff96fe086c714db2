-- ===== src/Examples/Scheduler.antt =====
-- Tests of lib/treap/scheduler.hpp: a tree of one node, and the tasks of the scheduler on it.
use contreap.Prelude.{ℕ, ◌+◌, ◌≡◌, ◌<◌, ◌⊎◌, refl, arith, u64_mod}
use contreap.Tree.{Tree, null, node}
use contreap.Treap.Node.{Cell, make_weak_copy, make_node}
use contreap.Treap.SearchInsert.{search_insert}
use contreap.Treap.Scheduler.Store.{tree, at, Store, alloc, ok, waits, read_tree}
use contreap.Treap.Scheduler.Task.{
  Context, op_insert, dir_left, execute_one_step, execute_to_complete, new_context,
}
use contreap.Treap.Scheduler.Ghost.{Ghost, deep_tree}
use contreap.Treap.Scheduler.Invariant.{set_context, Inv, IsRunning}
use contreap.Treap.Scheduler.Stepped.{Stepped}
use contreap.Treap.Scheduler.Steps.{execute_one_step-Stepped}
use contreap.Treap.Scheduler.Settled.{AllDone}
use contreap.Treap.Scheduler.Complete.{execute_to_complete-Stepped}
use contreap.Treap.Scheduler.Issue.{begin, begin_new}
use contreap.Treap.Scheduler.Start.{no_ghost, scheduler-AllDone, scheduler-Inv}
use contreap.Treap.Scheduler.Issuing.{MayIssue, init_op-Issued}
use contreap.Treap.Scheduler.Machine.{
  Request, Machine, scheduler, decide_num_pipes, decide_num_workers,
}
use contreap.Treap.Scheduler.Threads.{init_op}
use contreap.Treap.Scheduler.Threads.{
  Turn, run, step, init_context, pipe_thread, pipe_phase, run_task, boarder_thread, worker_thread,
  worker_phase, stage_head, finish_stage, collector_thread,
}
use contreap.Treap.Scheduler.Serializable.{run-version_of}
use contreap.Treap.Scheduler.Runs.{InOrder, run-InOrder}
use contreap.Treap.Scheduler.Task.{execute_fn, step_search, update, place_new, done}
use contreap.Treap.Scheduler.Store.{Result, fault, put, set_child, look}
use contreap.Prelude.{List, [], ◌∷◌}
use contreap.Treap.Scheduler.Protocol.{version_of}

abbrev root_cell : Cell
root_cell = record { ver = 0; pry = 5; key = 5; val = 1; aug = 1 }

abbrev first_tree : Tree Cell
first_tree = node root_cell null null

-- Every task inserts the key 3, whose priority is 3.
abbrev same_hash : ℕ → ℕ
same_hash x = x

abbrev always_insert : ℕ → Request
always_insert i = record { op = op_insert; elem = 3 }

abbrev versions : ℕ → Tree Cell
versions i = version_of same_hash always_insert first_tree i

abbrev machine : Machine
machine = scheduler same_hash 4 2 1 first_tree

abbrev first_context : Context
first_context = record new_context {
  op = op_insert;
  dir = dir_left;
  ver = 1;
  pry = 3;
  key = 3;
  t_past = tree first_tree;
}

machine_fits : machine.num_issued + 1 < u64_mod
unfolding scheduler
machine_fits = omega arith

machine_Inv : Inv 9 versions machine.num_issued machine.store machine.ctxs no_ghost
machine_Inv = scheduler-Inv same_hash 4 2 1 first_tree 9 same_hash always_insert

machine_AllDone : AllDone machine.ctxs machine.num_committed
machine_AllDone = scheduler-AllDone same_hash 4 2 1 first_tree

init_op-Issued_example :
    MayIssue 9 same_hash always_insert versions machine no_ghost machine_Inv machine_AllDone
      machine_fits
      (init_op 9 same_hash always_insert op_insert 3 machine
        (machine.num_issued + 1)
        (record (machine.ctxs (machine.num_issued + 1)) {
          op = op_insert;
          ver = machine.num_issued + 1;
        }))
unfolding scheduler version_of search_insert
init_op-Issued_example =
    init_op-Issued 9 same_hash always_insert versions machine no_ghost machine_Inv machine_AllDone
      machine_fits op_insert 3 refl refl (omega arith)

-- The first task has made a copy of the root and has still to fill it.
abbrev begun_store : Store
begun_store = alloc machine.store (make_weak_copy 1 root_cell)

abbrev begun_contexts : ℕ → Context
begun_contexts =
    set_context machine.ctxs 1
      (record first_context { root = at machine.store.next; t_cur = at machine.store.next })

abbrev begun_ghost : Ghost
begun_ghost = begin no_ghost machine.store.next 1 (versions 1)

begun : Inv 9 versions 1 begun_store begun_contexts begun_ghost
unfolding version_of search_insert make_weak_copy scheduler
begun =
    begin_new 9 versions 0 machine.store machine.ctxs no_ghost machine_Inv 1 refl first_context
      (make_weak_copy 1 root_cell) (search_insert 1 null 3 3) null refl refl refl refl (omega arith)
      (record {
        past_good = tt;
        past_cell = root_cell;
        past_lch = null;
        past_rch = null;
        past = refl;
        kept = refl;
        changed = refl;
      })

begun_AllDone : AllDone begun_contexts 0
begun_AllDone j pos le = absurd (omega arith)

begun_task : IsRunning 9 begun_store begun_ghost 1 (begun_contexts 1)
begun_task = begun.tasks 1 (omega arith) (omega arith) refl

execute_one_step-Stepped_example :
    (execute_one_step 9 0 begun_store (begun_contexts 1) ≡ waits)
    ⊎ Stepped 9 versions 1 0 begun_store begun_contexts begun_ghost begun begun_AllDone 1
        (omega arith)
        (omega arith)
        begun_task
        (execute_one_step 9 0 begun_store (begun_contexts 1))
execute_one_step-Stepped_example =
    execute_one_step-Stepped 9 versions 1 0 begun_store begun_contexts begun_ghost begun
      begun_AllDone 1 (omega arith) (omega arith) begun_task refl tt

execute_to_complete-Stepped_example :
    Stepped 9 versions 1 0 begun_store begun_contexts begun_ghost begun begun_AllDone 1
      (omega arith)
      (omega arith)
      begun_task
      (execute_to_complete 9 begun_store (begun_contexts 1))
execute_to_complete-Stepped_example =
    execute_to_complete-Stepped 9 versions 1 0 begun_store begun_contexts begun_ghost begun
      begun_AllDone 1 (omega arith) (omega arith) begun_task refl (deep_tree first_tree)

-- The first task goes through both pipes and to a worker.
abbrev turns : List Turn
turns =
    Turn.master
    ∷ Turn.pipe 1
    ∷ Turn.pipe 1
    ∷ Turn.pipe 1
    ∷ Turn.pipe 2
    ∷ Turn.pipe 2
    ∷ Turn.boarder
    ∷ Turn.worker 1
    ∷ Turn.worker 1
    ∷ Turn.worker 1
    ∷ Turn.worker 1
    ∷ Turn.collector
    ∷ Turn.collector
    ∷ []

abbrev reached_by : Result Machine → Machine
reached_by (ok m) = m
reached_by waits = machine
reached_by fault = machine

abbrev reached : Machine
reached = reached_by (run 9 same_hash always_insert turns machine)

run-InOrder_example : InOrder reached
unfolding run step init_context init_op update pipe_thread pipe_phase run_task execute_one_step
    execute_fn step_search boarder_thread worker_thread worker_phase stage_head finish_stage
    collector_thread scheduler look place_new set_child put alloc done decide_num_pipes
    decide_num_workers
run-InOrder_example =
    run-InOrder 9 same_hash always_insert same_hash 4 2 1 first_tree turns reached (omega arith)
      refl

-- The worker has completed the task, and the collector has committed it.
reached_committed : reached.num_committed ≡ 1
unfolding run step init_context init_op update pipe_thread pipe_phase run_task execute_one_step
    execute_fn step_search boarder_thread worker_thread worker_phase stage_head finish_stage
    collector_thread scheduler look place_new set_child put alloc done decide_num_pipes
    decide_num_workers
reached_committed = refl

reached_version : read_tree 9 reached.store (reached.ctxs 1).root ≡ ok (versions 1)
unfolding read_tree version_of search_insert make_weak_copy make_node run step init_context init_op
    update pipe_thread pipe_phase run_task execute_one_step execute_fn step_search boarder_thread
    worker_thread worker_phase stage_head finish_stage collector_thread scheduler look place_new
    set_child put alloc done decide_num_pipes decide_num_workers
reached_version = refl

run-version_of_example : read_tree 9 reached.store (reached.ctxs 1).root ≡ ok (versions 1)
unfolding run step init_context init_op update pipe_thread pipe_phase run_task execute_one_step
    execute_fn step_search boarder_thread worker_thread worker_phase stage_head finish_stage
    collector_thread scheduler look place_new set_child put alloc done decide_num_pipes
    decide_num_workers
run-version_of_example =
    run-version_of 9 same_hash always_insert same_hash 4 2 1 first_tree turns reached 1
      (omega arith) (omega arith) (omega arith) (omega arith) refl (omega arith)
