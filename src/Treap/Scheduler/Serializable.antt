-- ===== src/Treap/Scheduler/Serializable.antt =====
-- Whatever the order of the turns, every committed version is the version of the sequential updates.
use contreap.Prelude.{
  ℕ, suc, ◌+◌, ◌≡◌, ◌<◌, ◌≤◌, inl, inr, refl, ap, false, arith, ◌==◌, Bool-cases, leb, u64_mod,
}
use mathlib.Core.Path.{subst}
use contreap.Tree.{Tree, size}
use contreap.Treap.Node.{Cell}
use contreap.Treap.Scheduler.Store.{ok}
use contreap.Treap.Scheduler.Task.{Context}
use contreap.Treap.Scheduler.Ghost.{Ghost}
use contreap.Treap.Scheduler.Machine.{Request, Machine}
use contreap.Treap.Scheduler.Protocol.{Marks, Valid, version_of}
use contreap.Treap.Scheduler.Passing.{AllDone-committed}
use contreap.Treap.Scheduler.Outcome.{Then}
use contreap.Treap.Scheduler.Order.{HasFlow}
use contreap.Prelude.{List, [], ◌∷◌, length}
use contreap.Treap.Scheduler.Store.{read_tree}
use contreap.Treap.Scheduler.Task.{stage_done}
use contreap.Treap.Scheduler.Machine.{scheduler, decide_num_pipes}
use contreap.Treap.Scheduler.Threads.{Turn, step, run}
use contreap.Treap.Scheduler.Start.{no_ghost, scheduler-Inv}
use contreap.Treap.Scheduler.Sizes.{size-version_of}
use contreap.Treap.Scheduler.Mastering.{init_context-Valid}
use contreap.Treap.Scheduler.Piping.{pipe_thread-Valid}
use contreap.Treap.Scheduler.Publish.{boarder_thread-Valid, collector_thread-Valid}
use contreap.Treap.Scheduler.WorkerTurn.{worker_thread-Valid}
use contreap.Treap.Scheduler.Outcome.{Then-chain, Then-both}
use contreap.Treap.Scheduler.Order.{step-HasFlow}
use contreap.Treap.Scheduler.Runs.{start-HasFlow}
use contreap.Treap.Scheduler.Issuing.{committed_root}
use contreap.Treap.Scheduler.Settled.{AllDone}
use contreap.Treap.Scheduler.Working.{WorkerKnows-idle}
use contreap.Treap.Scheduler.Machine.{start_worker}
use contreap.Treap.Scheduler.Task.{done}

-- A task that is done has been issued.
committed-issued :
    (num_pipes issued committed : ℕ) (ctxs : ℕ → Context) (g : Ghost)
    → Marks num_pipes issued ctxs g
    → AllDone ctxs committed
    → (i : ℕ) → i ≤ committed
    → i ≤ issued
committed-issued num_pipes issued committed ctxs g marks all i le =
    elim (Bool-cases (leb i issued)) [
      | inl e ↦ ground arith
      | inr e ↦
          let run = ap (λ (c : Context). c.st) (marks.blank i (ground arith)) in
          let is_done = all i (ground arith) le in let both : ⊥ = cc (run, is_done) in absurd both
    ]

module _ (fuel : ℕ) (hash : ℕ → ℕ) (program : ℕ → Request) (t0 : Tree Cell) (np nt : ℕ)
    (fits : nt + 2 < u64_mod) (shallow : fuel + 1 < stage_done) (room : size t0 + nt ≤ fuel) where
  abbrev version : ℕ → Tree Cell
  version i = version_of hash program t0 i

  step-Valid :
      (steps : ℕ) (t : Turn) (m : Machine)
      → steps + 1 < u64_mod
      → HasFlow np nt m
      → Valid fuel version steps m
      → Then (Valid fuel version (steps + 1)) (step fuel hash program t m)
  unfolding step
  step-Valid steps Turn.master m few h (g, v) =
      init_context-Valid np nt fits fuel hash program t0 steps m h g v
        (λ i le. omega (arith, size-version_of hash program t0 i, room))
  step-Valid steps (Turn.pipe id) m few h (g, v) =
      pipe_thread-Valid fuel hash program np nt fits version steps m h g v id
  step-Valid steps (Turn.worker id) m few h (g, v) =
      worker_thread-Valid np nt fits fuel version steps few hash program m h g v id
  step-Valid steps Turn.boarder m few h (g, v) =
      boarder_thread-Valid np nt fits fuel shallow version steps m h g v
  step-Valid steps Turn.collector m few h (g, v) =
      collector_thread-Valid np nt fits fuel shallow version steps m h g v

  abbrev Sound : ℕ → Machine → Type 0
  Sound steps m = HasFlow np nt m × Valid fuel version steps m

  step-Sound :
      (steps : ℕ) (t : Turn) (m : Machine)
      → steps + 1 < u64_mod
      → Sound steps m
      → Then (Sound (steps + 1)) (step fuel hash program t m)
  step-Sound steps t m few (h, v) =
      Then-both (HasFlow np nt) (Valid fuel version (steps + 1)) (step fuel hash program t m)
        (step-HasFlow np nt fits m fuel hash program t h) (step-Valid steps t m few h v)

  run-Sound :
      (steps : ℕ) (turns : List Turn) (m : Machine)
      → steps + length turns < u64_mod
      → Sound steps m
      → Then (λ m'. Sound (steps + length turns) m') (run fuel hash program turns m)
  unfolding run
  run-Sound steps [] m few v =
      let same : steps ≡ steps + 0 = omega arith in subst (λ x. Sound x m) same v
  run-Sound steps (t ∷ turns) m few v =
      let same : steps + 1 + length turns ≡ steps + suc (length turns) = omega arith in
      Then-chain (Sound (steps + 1)) (λ m'. Sound (steps + suc (length turns)) m')
        (step fuel hash program t m) (run fuel hash program turns)
        (λ m' v'.
          subst (λ x. Then (λ m''. Sound x m'') (run fuel hash program turns m')) same
            (run-Sound (steps + 1) turns m' (omega arith) v'))
        (step-Sound steps t m (omega arith) v)

module _ (fuel : ℕ) (hash : ℕ → ℕ) (program : ℕ → Request) (double_log : ℕ → ℕ)
    (num_threads num_tasks block_size : ℕ) (t0 : Tree Cell) where
  start-Valid :
      Valid fuel
        (version_of hash program t0)
        0
        (scheduler double_log num_threads num_tasks block_size t0)
  unfolding scheduler done
  start-Valid = (
    no_ghost,
    record {
      inv = scheduler-Inv double_log num_threads num_tasks block_size t0 fuel hash program;
      marks = record {
        first = refl;
        blank = λ i lt. let later : (i == 0) ≡ false = ground arith in rw later refl;
        staged = λ i pos le run. absurd (omega arith);
      };
      depths = record {
        passed = λ k i posk lek pos lt. absurd (omega arith);
        before = λ k i posk lek le le' run. omega arith;
      };
      workers = record {
        knows = λ id.
            WorkerKnows-idle (decide_num_pipes double_log num_threads) 0 0 _ no_ghost
              (start_worker block_size num_tasks id) refl (omega arith);
        apart = λ u v ne e. cc;
        unfetched = λ i lt run. omega arith;
      };
      submits = refl;
      commits = record {
        local = refl;
        ordered = omega arith;
        all_done = λ j pos le. absurd (omega arith);
      };
      counted = omega arith;
    },
  )

  abbrev Reached : List Turn → Machine → Type 0
  Reached turns m =
      HasFlow (decide_num_pipes double_log num_threads) num_tasks m
      × Valid fuel (version_of hash program t0) (0 + length turns) m

  run-Reached :
      (turns : List Turn) (m : Machine)
      → num_tasks + 2 < u64_mod
      → length turns < u64_mod
      → size t0 + num_tasks ≤ fuel
      → fuel + 2 < u64_mod
      → run fuel hash program turns (scheduler double_log num_threads num_tasks block_size t0)
        ≡ ok m
      → Reached turns m
  run-Reached turns m fits few room deep e = subst (Then (Reached turns)) e (
      run-Sound fuel hash program t0 (decide_num_pipes double_log num_threads) num_tasks fits
        (omega arith) room 0 turns (scheduler double_log num_threads num_tasks block_size t0)
        (omega arith)
        (
          start-HasFlow fuel hash program double_log num_threads num_tasks block_size t0,
          start-Valid,
        ))

  -- What the collector has counted is what it has published.
  pub run-local_committed :
      (turns : List Turn) (m : Machine)
      → num_tasks + 2 < u64_mod
      → length turns < u64_mod
      → size t0 + num_tasks ≤ fuel
      → fuel + 2 < u64_mod
      → run fuel hash program turns (scheduler double_log num_threads num_tasks block_size t0)
        ≡ ok m
      → (m.num_committed ≡ m.collector.local_committed) × (m.num_tasks ≡ num_tasks)
  run-local_committed turns m fits few room deep e =
      let ((p, n, flow), (g, v)) = run-Reached turns m fits few room deep e in (v.commits.local, n)

  -- Whatever turns the threads take from the constructor on, where the number of tasks is less than
  -- 2^64 - 2 and the number of turns less than 2^64, and where the depth of the walks is at least the
  -- number of nodes at the start plus the number of tasks, and less than 2^64 - 2: for each version that
  -- is committed, a walk from its root meets only nodes that have been filled and finds the tree that
  -- `search_insert` and `search_delete` make when they execute the tasks one after the other.
  pub run-version_of :
      (turns : List Turn) (m : Machine) (i : ℕ)
      → num_tasks + 2 < u64_mod
      → length turns < u64_mod
      → size t0 + num_tasks ≤ fuel
      → fuel + 2 < u64_mod
      → run fuel hash program turns (scheduler double_log num_threads num_tasks block_size t0)
        ≡ ok m
      → i ≤ m.num_committed
      → read_tree fuel m.store (m.ctxs i).root ≡ ok (version_of hash program t0 i)
  run-version_of turns m i fits few room deep e le =
      let (h, (g, v)) = run-Reached turns m fits few room deep e in
      let all = AllDone-committed m.num_committed m.ctxs m.collector v.commits in
      committed_root fuel (version_of hash program t0) m g v.inv all i le
        (committed-issued m.num_pipes m.num_issued m.num_committed m.ctxs g v.marks all i le)
