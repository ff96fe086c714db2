-- ===== src/Examples/Contreaps.antt =====
-- Tests of db/contreap.hpp: one thread, one record, an insertion and a query.
use contreap.Prelude.{
  ℕ, false, ◌≡◌, ◌≤◌, refl, arith, Bool, true, Option, none, some, List, [], ◌∷◌, count,
}
use contreap.Log.{rank, default_level, enabled}
use contreap.Db.Interface
use contreap.Db.Interface.{history}
use contreap.Db.QueryProcessor
use contreap.Db.QueryProcessor.{QueryContext}
use contreap.Treap.Scheduler.Store.{
  Result, ok, waits, fault, look, alloc, put, set_child, read_tree,
}
use contreap.Treap.Scheduler.Task.{
  done, execute_to_complete, complete_fn, update, update_absent, place_new, concat,
}
use contreap.Treap.Scheduler.Machine.{
  Machine, get_snapshot, scheduler, decide_num_pipes, decide_num_workers,
}
use contreap.Treap.Scheduler.Threads
use contreap.Treap.Scheduler.Threads.{
  Turn, init_context, init_op, boarder_thread, worker_thread, worker_phase, stage_head,
  finish_stage, collector_thread, pipe_thread,
}
use contreap.Treap.Build.{build_parallel, build}
use contreap.Db.Contreap
use contreap.Db.Contreap.{
  Contreap, create, init, run, move, step, insert, query, insert_elem, nop, close, last_version,
  final_result, process,
}
use contreap.Db.Contreap.Versions.{Committed, run-Committed}
use contreap.Db.Contreap.Points.{point_query}
use contreap.Db.Contreap.Points.Answers.{point_query-answers}
use contreap.Db.Contreap.Closing.{close-Committed}

abbrev identity : ℕ → ℕ
identity k = k

-- A queue that takes every query.
abbrev enqueue : List QueryContext → QueryContext → Bool × List QueryContext
enqueue queries q = (true, q ∷ queries)

abbrev elems : List ℕ
elems = 5 ∷ []

abbrev calls : List Interface.Call
calls = Interface.Call.insert 7 ∷ Interface.Call.query 5 5 ∷ []

abbrev w : Turn
w = Turn.worker 1

abbrev turns : List Turn
turns =
    Turn.master ∷ Turn.master ∷ Turn.boarder ∷ w ∷ w ∷ w ∷ w ∷ w ∷ w ∷ w ∷ w ∷ w ∷ w ∷ w
    ∷ Turn.collector ∷ Turn.collector ∷ Turn.collector ∷ []

abbrev start : Contreap (List QueryContext)
start = init identity identity (create 1 1 10 []) 2 elems

abbrev backend_of :
    Result (Contreap (List QueryContext) × List Interface.Call) → Contreap (List QueryContext)
backend_of (ok (b, rest)) = b
backend_of waits = start
backend_of fault = start

abbrev reached : Contreap (List QueryContext)
reached = backend_of (run 9 identity enqueue turns calls start)

abbrev machine_of : Option Machine → Machine
machine_of (some m) = m
machine_of none = scheduler identity 1 2 10 (build_parallel identity elems)

abbrev reached_machine : Machine
reached_machine = machine_of reached.machine

reached_by_turns : run 9 identity enqueue turns calls start ≡ ok (reached, [])
unfolding run move Contreap.step insert query insert_elem nop init create build_parallel build
    Threads.step init_context init_op update place_new concat boarder_thread worker_thread
    worker_phase stage_head finish_stage collector_thread pipe_thread scheduler look put set_child
    alloc done decide_num_pipes decide_num_workers execute_to_complete complete_fn read_tree
    QueryProcessor.create QueryProcessor.start QueryProcessor.push
    contreap.Treap.Augment.augment_parallel contreap.Treap.Build.build_fuel update_absent
reached_by_turns = refl

reached_committed : reached_machine.num_committed ≡ 2
unfolding run move Contreap.step insert query insert_elem nop init create build_parallel build
    Threads.step init_context init_op update place_new concat boarder_thread worker_thread
    worker_phase stage_head finish_stage collector_thread pipe_thread scheduler look put set_child
    alloc done decide_num_pipes decide_num_workers execute_to_complete complete_fn read_tree
    QueryProcessor.create QueryProcessor.start QueryProcessor.push
    contreap.Treap.Augment.augment_parallel contreap.Treap.Build.build_fuel update_absent
reached_committed = refl

abbrev closed : Contreap (List QueryContext)
closed = record reached { query_processor = QueryProcessor.stop reached.query_processor }

closes : close (default_level true) reached ≡ ok closed
unfolding run move Contreap.step insert query insert_elem nop init create build_parallel build
    Threads.step init_context init_op update place_new concat boarder_thread worker_thread
    worker_phase stage_head finish_stage collector_thread pipe_thread scheduler look put set_child
    alloc done decide_num_pipes decide_num_workers execute_to_complete complete_fn read_tree
    QueryProcessor.create QueryProcessor.start QueryProcessor.push
    contreap.Treap.Augment.augment_parallel contreap.Treap.Build.build_fuel update_absent close
    process default_level rank enabled last_version final_result
closes = refl

run-Committed_example :
    (m : Machine) × (reached.machine ≡ some m)
    × ((v : ℕ)
        → v ≤ m.num_committed
        → v ≤ 2
        → Committed identity 9 m v (history (λ j. count j elems) calls v))
run-Committed_example =
    run-Committed identity (λ a b e. e) 9 identity enqueue 1 1 10 [] elems calls [] turns reached
      (omega arith) (omega arith) (omega arith) reached_by_turns

reached-machine : reached.machine ≡ some reached_machine
unfolding run move Contreap.step insert query insert_elem nop init create build_parallel build
    Threads.step init_context init_op update place_new concat boarder_thread worker_thread
    worker_phase stage_head finish_stage collector_thread pipe_thread scheduler look put set_child
    alloc done decide_num_pipes decide_num_workers execute_to_complete complete_fn read_tree
    QueryProcessor.create QueryProcessor.start QueryProcessor.push
    contreap.Treap.Augment.augment_parallel contreap.Treap.Build.build_fuel update_absent
reached-machine = refl

issued_two : reached_machine.num_issued ≡ 2
unfolding run move Contreap.step insert query insert_elem nop init create build_parallel build
    Threads.step init_context init_op update place_new concat boarder_thread worker_thread
    worker_phase stage_head finish_stage collector_thread pipe_thread scheduler look put set_child
    alloc done decide_num_pipes decide_num_workers execute_to_complete complete_fn read_tree
    QueryProcessor.create QueryProcessor.start QueryProcessor.push
    contreap.Treap.Augment.augment_parallel contreap.Treap.Build.build_fuel update_absent
issued_two = refl

blocks_of_ten : reached_machine.block_size ≡ 10
unfolding run move Contreap.step insert query insert_elem nop init create build_parallel build
    Threads.step init_context init_op update place_new concat boarder_thread worker_thread
    worker_phase stage_head finish_stage collector_thread pipe_thread scheduler look put set_child
    alloc done decide_num_pipes decide_num_workers execute_to_complete complete_fn read_tree
    QueryProcessor.create QueryProcessor.start QueryProcessor.push
    contreap.Treap.Augment.augment_parallel contreap.Treap.Build.build_fuel update_absent
blocks_of_ten = refl

point_query-answers_example : point_query 9 reached_machine 1 7 ≡ ok 1
unfolding run move Contreap.step insert query insert_elem nop init create build_parallel build
    Threads.step init_context init_op update place_new concat boarder_thread worker_thread
    worker_phase stage_head finish_stage collector_thread pipe_thread scheduler look put set_child
    alloc done decide_num_pipes decide_num_workers execute_to_complete complete_fn read_tree
    QueryProcessor.create QueryProcessor.start QueryProcessor.push
    contreap.Treap.Augment.augment_parallel contreap.Treap.Build.build_fuel update_absent history
point_query-answers_example =
    point_query-answers identity (λ a b e. e) 9 identity enqueue 1 1 10 [] elems calls [] turns
      reached reached_machine 1 7 (omega arith) (omega arith) (omega arith) reached_by_turns
      reached-machine (omega (arith, blocks_of_ten)) (omega (arith, issued_two))
      (omega (arith, reached_committed)) (omega arith)

close-Committed_example :
    (m : Machine) × (closed.machine ≡ some m)
    × ((v : ℕ) → v ≤ 2 → Committed identity 9 m v (history (λ j. count j elems) calls v))
close-Committed_example =
    close-Committed identity (λ a b e. e) 9 identity enqueue 1 1 10 [] elems calls [] turns
      (default_level true) reached closed (omega arith) (omega arith) (omega arith) reached_by_turns
      closes

-- An empty database that gets no calls: its only worker ends, and the collector has nothing to count.
abbrev empty_turns : List Turn
empty_turns = w ∷ w ∷ []

abbrev no_start : Contreap (List QueryContext)
no_start = init identity identity (create 1 1 10 []) 0 []

abbrev empty_reached : Contreap (List QueryContext)
empty_reached = backend_of (run 9 identity enqueue empty_turns [] no_start)

-- A debugging build reads the sum of the null pointer that its last version is.
close_debug : close (default_level false) empty_reached ≡ fault
unfolding run move Contreap.step insert query insert_elem nop init create build_parallel build
    Threads.step init_context init_op update place_new concat boarder_thread worker_thread
    worker_phase stage_head finish_stage collector_thread pipe_thread scheduler look put set_child
    alloc done decide_num_pipes decide_num_workers execute_to_complete complete_fn read_tree
    QueryProcessor.create QueryProcessor.start QueryProcessor.push
    contreap.Treap.Augment.augment_parallel contreap.Treap.Build.build_fuel update_absent close
    process default_level rank enabled last_version final_result get_snapshot
close_debug = refl

close_release :
    close (default_level true) empty_reached
    ≡ ok (record empty_reached {
      query_processor = QueryProcessor.stop empty_reached.query_processor;
    })
unfolding run move Contreap.step insert query insert_elem nop init create build_parallel build
    Threads.step init_context init_op update place_new concat boarder_thread worker_thread
    worker_phase stage_head finish_stage collector_thread pipe_thread scheduler look put set_child
    alloc done decide_num_pipes decide_num_workers execute_to_complete complete_fn read_tree
    QueryProcessor.create QueryProcessor.start QueryProcessor.push
    contreap.Treap.Augment.augment_parallel contreap.Treap.Build.build_fuel update_absent close
    process default_level rank enabled
close_release = refl
