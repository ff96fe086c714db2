-- ===== src/Treap/Scheduler/Machine.antt =====
-- The state of the scheduler: what its threads share, and their local variables.
use contreap.Prelude.{
  ℕ, ◌/◌, ◌%◌, ◌+◌, ◌-◌, ◌*◌, true, false, ltb, leb, ◌==◌, wrap, u64_mod, if◌then◌else◌,
}
use Prim.Native.Nat.{min}
use contreap.Tree.{Tree, null}
use contreap.Treap.Node.{Cell}
use contreap.Treap.Scheduler.Store.{Ptr, tree, Store, Result, ok, waits, fault}
use contreap.Treap.Scheduler.Task.{Context, new_context, Operation, done}

-- A call of `insert_elem`, `delete_elem` or `nop`.
pub record Request : Type 0 where
  pub op : Operation
  pub elem : ℕ

-- Where a pipe is with the task `pos`: before it takes a token, waiting for one, or with one.
pub data PipePhase : Type 0 where
  fetching waiting holding : PipePhase

pub record Pipe : Type 0 where
  pub pos : ℕ
  pub phase : PipePhase

-- Where a worker is: before it takes a task, waiting for its submission, at the head of the loop over
-- the stages, after it has set the stage, waiting for the task that it depends on, after the task,
-- or out of its loop.
pub data WorkerPhase : Type 0 where
  taking submitting deciding depending working estimating stopped : WorkerPhase

pub record Worker : Type 0 where
  pub phase : WorkerPhase
  pub task_id : ℕ
  pub cached_submit : ℕ
  pub stage : ℕ
  pub block_count : ℕ
  pub block_start : ℕ
  pub block_end : ℕ

pub record Collector : Type 0 where
  pub local_committed : ℕ
  pub next_committable : ℕ

-- `scheduler`, with the local variables of its threads. Pipes and workers are counted from 1.
pub record Machine : Type 0 where
  pub num_pipes : ℕ
  pub num_workers : ℕ
  pub block_size : ℕ
  pub num_tasks : ℕ
  pub store : Store
  pub ctxs : ℕ → Context
  pub tokens : ℕ → ℕ
  pub num_estimated : ℕ → ℕ
  pub num_issued : ℕ
  pub num_submitted : ℕ
  pub num_fetched : ℕ
  pub num_committed : ℕ
  pub pipes : ℕ → Pipe
  pub local_submitted : ℕ
  pub workers : ℕ → Worker
  pub collector : Collector

abbrev pub set_at {ℓ} : {A : Type ℓ} → (ℕ → A) → ℕ → A → ℕ → A
set_at f i x = λ j. if j == i then x else f j

-- `tokens_[k].fetch_add(1)`
abbrev pub add_token : (ℕ → ℕ) → ℕ → ℕ → ℕ
add_token tokens k = set_at tokens k (wrap (tokens k + 1))

-- A word of all ones: the pipe behind has taken a token that is not there yet.
abbrev pub no_token : ℕ
no_token = u64_mod - 1

-- `decide_num_pipes_`; `double_log` stands for `ceil(2*log2(num_threads))`.
unfoldable pub decide_num_pipes : (ℕ → ℕ) → ℕ → ℕ
decide_num_pipes double_log num_threads =
    if ltb num_threads 16 then num_threads / 2 else double_log num_threads

unfoldable pub decide_num_workers : (ℕ → ℕ) → ℕ → ℕ
unfolding decide_num_pipes
decide_num_workers double_log num_threads =
    let p = wrap (num_threads + u64_mod - decide_num_pipes double_log num_threads) in
    if ltb 0 p then p else 1

-- The local variables of a worker when it starts.
abbrev pub start_worker : ℕ → ℕ → ℕ → Worker
start_worker block_size num_tasks id =
    let start = wrap ((id - 1) * block_size + 1) in
    record {
      phase = taking;
      task_id = 0;
      cached_submit = 0;
      stage = 0;
      block_count = 0;
      block_start = start;
      block_end = min (wrap (start + block_size + u64_mod - 1)) num_tasks;
    }

-- The constructor.
unfoldable pub scheduler : (ℕ → ℕ) → ℕ → ℕ → ℕ → Tree Cell → Machine
unfolding done
scheduler double_log num_threads num_tasks block_size t0 = record {
  num_pipes = decide_num_pipes double_log num_threads;
  num_workers = decide_num_workers double_log num_threads;
  block_size = block_size;
  num_tasks = num_tasks;
  store = record {
    next = 0;
    nodes = λ a. record {
      cell = record { ver = 0; pry = 0; key = 0; val = 0; aug = 0 };
      lch = tree null;
      rch = tree null;
    };
  };
  ctxs = λ i. if i == 0 then done (record new_context { root = tree t0 }) else new_context;
  tokens = λ k. 0;
  num_estimated = λ k. 0;
  num_issued = 0;
  num_submitted = 0;
  num_fetched = 0;
  num_committed = 0;
  pipes = λ k. record { pos = 1; phase = fetching };
  local_submitted = 0;
  workers = start_worker block_size num_tasks;
  collector = record { local_committed = 0; next_committable = 0 };
}

-- `get_snapshot`: a null pointer for a version that was not issued. Blocks of no tasks divide by zero.
unfoldable pub get_snapshot : Machine → ℕ → Result Ptr
get_snapshot m ver = elim (ltb m.num_issued ver) [
  | true ↦ ok (tree null)
  | false ↦ elim (m.block_size == 0) [
    | true ↦ fault
    | false ↦
        let block_id = ver / m.block_size in
        elim (leb (m.num_estimated (block_id % m.num_workers)) (block_id / m.num_workers)) [
          | true ↦ waits
          | false ↦ ok (m.ctxs ver).root
        ]
  ]
]
