-- ===== src/Treap/Scheduler/Runs.antt =====
-- Whatever the order of the turns, the tasks go through the pipes one after the other.
use contreap.Prelude.{
  ℕ, List, [], ◌∷◌, ◌+◌, ◌≡◌, ◌<◌, ◌≤◌, refl, arith, ◌==◌, Bool-cases, u64_mod, inl, inr,
}
use mathlib.Core.Path.{subst}
use contreap.Tree.{Tree}
use contreap.Treap.Node.{Cell}
use contreap.Treap.Scheduler.Store.{ok}
use contreap.Treap.Scheduler.Machine.{
  Request, fetching, holding, Machine, scheduler, decide_num_pipes,
}
use contreap.Treap.Scheduler.Threads.{Turn, step, run}
use contreap.Treap.Scheduler.Protocol.{arrived}
use contreap.Treap.Scheduler.Tokens.{arrived_step}
use contreap.Treap.Scheduler.Counting.{Counts-held}
use contreap.Treap.Scheduler.Outcome.{Then, Then-chain}
use contreap.Treap.Scheduler.Order.{HasFlow, step-HasFlow}

-- The tasks go through the pipes one after the other: `submitted` tasks have come through all pipes,
-- and a pipe works on a task that has come through the pipe before it.
pub record InOrder (m : Machine) : Type 0 where
  pub issued : m.num_issued ≤ m.num_tasks
  pub submitted : m.local_submitted ≤ arrived m.num_issued m.pipes m.num_pipes
  pub passed :
      (k : ℕ)
      → k < m.num_pipes
      → arrived m.num_issued m.pipes (k + 1) ≤ arrived m.num_issued m.pipes k
  pub held :
      (k : ℕ)
      → k < m.num_pipes
      → (m.pipes (k + 1)).phase ≡ holding
      → (m.pipes (k + 1)).pos ≤ arrived m.num_issued m.pipes k

HasFlow-InOrder : (np nt : ℕ) (m : Machine) → HasFlow np nt m → InOrder m
HasFlow-InOrder np nt m (p, t, flow) = record {
  issued = flow.issued_le;
  submitted = omega (arith, flow.last);
  passed =
      arrived_step m.num_pipes m.num_tasks m.num_issued m.pipes m.tokens m.local_submitted flow;
  held = λ k lt ph.
      Counts-held (arrived m.num_issued m.pipes k) (m.tokens k) (m.pipes (k + 1)).pos
        (rw ph at (flow.balance k lt));
}

module _ (fuel : ℕ) (hash : ℕ → ℕ) (program : ℕ → Request) where
  run-HasFlow :
      (np nt : ℕ)
      → nt + 2 < u64_mod
      → (turns : List Turn) (m : Machine) → HasFlow np nt m
      → Then (HasFlow np nt) (run fuel hash program turns m)
  unfolding run
  run-HasFlow np nt fits [] m h = h
  run-HasFlow np nt fits (t ∷ turns) m h =
      Then-chain (HasFlow np nt) (HasFlow np nt) (step fuel hash program t m)
        (run fuel hash program turns) (λ m' h'. run-HasFlow np nt fits turns m' h')
        (step-HasFlow np nt fits m fuel hash program t h)

  no_arrivals : (k : ℕ) → 0 ≡ arrived 0 (λ id. record { pos = 1; phase = fetching }) k
  no_arrivals k = elim (Bool-cases (k == 0)) [ inl e ↦ rw e refl | inr e ↦ rw e refl ]

  pub start-HasFlow :
      (double_log : ℕ → ℕ) (num_threads num_tasks block_size : ℕ) (t0 : Tree Cell)
      → HasFlow
          (decide_num_pipes double_log num_threads)
          num_tasks
          (scheduler double_log num_threads num_tasks block_size t0)
  unfolding scheduler
  start-HasFlow double_log num_threads num_tasks block_size t0 = (
    refl,
    refl,
    record {
      issued_le = omega arith;
      started = λ k. omega arith;
      balance = λ k lt. inl (no_arrivals k);
      last = no_arrivals (decide_num_pipes double_log num_threads);
    },
  )

  -- Whatever turns the threads take from the constructor on, with any depth of the walks, where the
  -- number of tasks is less than 2^64 - 2: no more tasks are issued than were announced, no more tasks
  -- have come through a pipe than through the pipe before it, a pipe works on a task only after
  -- the pipe before it has worked on the task, and the tasks that are submitted to the workers have
  -- come through all pipes.
  pub run-InOrder :
      (double_log : ℕ → ℕ) (num_threads num_tasks block_size : ℕ) (t0 : Tree Cell)
      (turns : List Turn) (m : Machine)
      → num_tasks + 2 < u64_mod
      → run fuel hash program turns (scheduler double_log num_threads num_tasks block_size t0)
        ≡ ok m
      → InOrder m
  run-InOrder double_log num_threads num_tasks block_size t0 turns m fits e =
      let np = decide_num_pipes double_log num_threads in
      HasFlow-InOrder np num_tasks m (
        subst (Then (HasFlow np num_tasks)) e (
          run-HasFlow np num_tasks fits turns _
            (start-HasFlow double_log num_threads num_tasks block_size t0)))
