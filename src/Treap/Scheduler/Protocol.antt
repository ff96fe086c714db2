-- ===== src/Treap/Scheduler/Protocol.antt =====
-- What the threads know of the tasks: which pipes a task has passed, how many tokens are on the way,
-- and who works on what.
use contreap.Prelude.{
  ℕ, zero, suc, ◌+◌, ◌-◌, ◌≡◌, ◌≢◌, ◌<◌, ◌≤◌, ◌⊎◌, Bool, true, false, ◌==◌, if◌then◌else◌,
}
use contreap.Tree.{Tree}
use contreap.Treap.Node.{Cell}
use contreap.Treap.Scheduler.Task.{
  Context, new_context, Operation, op_none, op_insert, op_delete, st_running, st_done, operate,
}
use contreap.Treap.Scheduler.Ghost.{Ghost}
use contreap.Treap.Scheduler.Invariant.{Inv}
use contreap.Treap.Scheduler.Settled.{AllDone}
use contreap.Treap.Scheduler.Machine.{
  Request, Pipe, PipePhase, fetching, waiting, holding, WorkerPhase, taking, submitting, deciding,
  depending, working, estimating, stopped, Worker, Collector, Machine, no_token,
}

-- The version that a request makes.
abbrev pub perform : (ℕ → ℕ) → Operation → ℕ → ℕ → Tree Cell → Tree Cell
perform hash op_none elem ver t = t
perform hash op_insert elem ver t = operate op_insert ver (hash elem) elem t
perform hash op_delete elem ver t = operate op_delete ver (hash elem) elem t

-- The trees that the requests make one after the other.
unfoldable pub version_of : (ℕ → ℕ) → (ℕ → Request) → Tree Cell → ℕ → Tree Cell
version_of hash program t0 zero = t0
version_of hash program t0 (suc i) =
    perform hash (program (suc i)).op (program (suc i)).elem (suc i) (version_of hash program t0 i)

-- A task is done, or it has done so many steps.
abbrev pub Beyond : (ℕ → Context) → Ghost → ℕ → ℕ → Type 0
Beyond ctxs g i k = ((ctxs i).st ≡ st_done) ⊎ (k ≤ g.depth i)

pub record Marks (num_pipes issued : ℕ) (ctxs : ℕ → Context) (g : Ghost) : Type 0 where
  pub first : (ctxs 0).st ≡ st_done
  pub blank : (i : ℕ) → issued < i → ctxs i ≡ new_context
  pub staged :
      (i : ℕ)
      → 0 < i
      → i ≤ issued
      → (ctxs i).st ≡ st_running
      → ((ctxs i).stage ≡ 0) ⊎ (num_pipes + (ctxs i).stage ≤ g.depth i + 1)

-- A task before a pipe has done fewer steps than the pipe's number, a task behind it as many.
pub record Depths (num_pipes issued : ℕ) (ctxs : ℕ → Context) (g : Ghost) (pipes : ℕ → Pipe)
    : Type 0 where
  pub passed : (k i : ℕ) → 0 < k → k ≤ num_pipes → 0 < i → i < (pipes k).pos → Beyond ctxs g i k
  pub before :
      (k i : ℕ)
      → 0 < k
      → k ≤ num_pipes
      → (pipes k).pos ≤ i
      → i ≤ issued
      → (ctxs i).st ≡ st_running
      → g.depth i < k

-- The tokens that a pipe has taken, and the tasks that have come through the pipe `k`; the pipe 0 is
-- the master.
abbrev pub taken : PipePhase → ℕ → ℕ
taken fetching pos = pos - 1
taken waiting pos = pos
taken holding pos = pos

abbrev pub arrived : ℕ → (ℕ → Pipe) → ℕ → ℕ
arrived issued pipes k = if k == 0 then issued else (pipes k).pos - 1

-- A pipe with so many tokens before it, `a` tasks having come to it: a word of all ones, when it waits
-- for the next task.
abbrev pub Counts : ℕ → ℕ → PipePhase → ℕ → Type 0
Counts a token phase pos =
    (token + taken phase pos ≡ a) ⊎ ((token ≡ no_token) × (phase ≡ waiting) × (pos ≡ a + 1))

pub record Flow (num_pipes num_tasks issued : ℕ) (pipes : ℕ → Pipe) (tokens : ℕ → ℕ) (submitted : ℕ)
    : Type 0 where
  pub issued_le : issued ≤ num_tasks
  pub started : (k : ℕ) → 0 < (pipes k).pos
  pub balance :
      (k : ℕ)
      → k < num_pipes
      → Counts (arrived issued pipes k) (tokens k) (pipes (k + 1)).phase (pipes (k + 1)).pos
  pub last : tokens num_pipes + submitted ≡ arrived issued pipes num_pipes

-- A worker that has taken a task and has not finished it, and one that executes it.
abbrev pub has_task : WorkerPhase → Bool
has_task taking = false
has_task submitting = true
has_task deciding = true
has_task depending = true
has_task working = true
has_task estimating = false
has_task stopped = false

abbrev pub executes : WorkerPhase → Bool
executes taking = false
executes submitting = false
executes deciding = true
executes depending = true
executes working = true
executes estimating = false
executes stopped = false

-- A worker in the middle of a stage.
abbrev pub in_stage : WorkerPhase → Bool
in_stage taking = false
in_stage submitting = false
in_stage deciding = false
in_stage depending = true
in_stage working = true
in_stage estimating = false
in_stage stopped = false

pub record WorkerKnows (num_pipes submitted fetched : ℕ) (ctxs : ℕ → Context) (g : Ghost)
    (w : Worker) : Type 0 where
  pub cached : w.cached_submit ≤ submitted
  pub has_fetched : has_task w.phase ≡ true → (0 < w.task_id) × (w.task_id ≤ fetched)
  pub is_submitted : executes w.phase ≡ true → w.task_id ≤ submitted
  pub positive : executes w.phase ≡ true → 0 < w.stage
  pub staged :
      executes w.phase ≡ true
      → (ctxs w.task_id).st ≡ st_running
      → g.depth w.task_id + 1 ≡ num_pipes + w.stage
  pub runs : in_stage w.phase ≡ true → (ctxs w.task_id).st ≡ st_running
  pub fresh :
      has_task w.phase ≡ true
      → executes w.phase ≡ false
      → (ctxs w.task_id).st ≡ st_running
      → g.depth w.task_id ≤ num_pipes

pub record Workers (num_pipes submitted fetched : ℕ) (ctxs : ℕ → Context) (g : Ghost)
    (workers : ℕ → Worker) : Type 0 where
  pub knows : (id : ℕ) → WorkerKnows num_pipes submitted fetched ctxs g (workers id)
  pub apart :
      (v w : ℕ)
      → v ≢ w
      → has_task (workers v).phase ≡ true
      → has_task (workers w).phase ≡ true
      → (workers v).task_id ≢ (workers w).task_id
  pub unfetched : (i : ℕ) → fetched < i → (ctxs i).st ≡ st_running → g.depth i ≤ num_pipes

pub record Commits (committed : ℕ) (ctxs : ℕ → Context) (c : Collector) : Type 0 where
  pub local : committed ≡ c.local_committed
  pub ordered : c.local_committed ≤ c.next_committable
  pub all_done : AllDone ctxs c.next_committable

-- The invariant of the machine after `steps` turns, but for the tokens.
pub record IsValid (fuel : ℕ) (version : ℕ → Tree Cell) (steps : ℕ) (m : Machine) (g : Ghost)
    : Type 0 where
  pub inv : Inv fuel version m.num_issued m.store m.ctxs g
  pub marks : Marks m.num_pipes m.num_issued m.ctxs g
  pub depths : Depths m.num_pipes m.num_issued m.ctxs g m.pipes
  pub workers : Workers m.num_pipes m.local_submitted m.num_fetched m.ctxs g m.workers
  pub submits : m.num_submitted ≡ m.local_submitted
  pub commits : Commits m.num_committed m.ctxs m.collector
  pub counted : m.num_fetched ≤ steps

abbrev pub Valid : ℕ → (ℕ → Tree Cell) → ℕ → Machine → Type 0
Valid fuel version steps m = (g : Ghost) × IsValid fuel version steps m g
