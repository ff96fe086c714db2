-- ===== src/Treap/Scheduler/Start.antt =====
-- The constructor makes a scheduler without tasks.
use contreap.Prelude.{ℕ, ◌≡◌, refl, true, arith}
use mathlib.Core.Path.{subst}
use contreap.Tree.{Tree, null}
use contreap.Treap.Node.{Cell}
use contreap.Treap.Scheduler.Task.{done}
use contreap.Treap.Scheduler.Ghost.{Ghost}
use contreap.Treap.Scheduler.Invariant.{IsRoot, Inv}
use contreap.Treap.Scheduler.Settled.{AllDone}
use contreap.Treap.Scheduler.Machine.{Request, scheduler}
use contreap.Treap.Scheduler.Protocol.{version_of}

abbrev pub no_ghost : Ghost
no_ghost = record { final = λ a. null; closed = λ a. true; birth = λ a. 0; depth = λ i. 0 }

module _ (double_log : ℕ → ℕ) (num_threads num_tasks block_size : ℕ) (t0 : Tree Cell) where
  pub scheduler-AllDone :
      (let m = scheduler double_log num_threads num_tasks block_size t0 in
        AllDone m.ctxs m.num_committed)
  unfolding scheduler
  scheduler-AllDone j pos le = absurd (omega arith)

  pub scheduler-Inv :
      (fuel : ℕ) (hash : ℕ → ℕ) (program : ℕ → Request)
      → (let m = scheduler double_log num_threads num_tasks block_size t0 in
          Inv fuel (version_of hash program t0) m.num_issued m.store m.ctxs no_ghost)
  unfolding scheduler done version_of
  scheduler-Inv fuel hash program =
      let m = scheduler double_log num_threads num_tasks block_size t0 in
      record {
        nodes = λ a lt. absurd (omega arith);
        owners = λ a lt. absurd (omega arith);
        tasks = λ i pos le run. absurd (omega arith);
        roots = λ i le.
            let first : 0 ≡ i = omega arith in
            subst (λ x. IsRoot m.store no_ghost x (version_of hash program t0 x) (m.ctxs x)) first
              (record { final = refl; good = tt });
      }
