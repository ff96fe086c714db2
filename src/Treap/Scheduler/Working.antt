-- ===== src/Treap/Scheduler/Working.antt =====
-- The turns of a worker that do not execute its task keep the invariant.
use contreap.Prelude.{
  ℕ, ◌+◌, ◌≡◌, ◌≢◌, ◌<◌, ◌≤◌, inl, inr, refl, ◌∙◌, sym, ap, true, false, arith, ◌==◌, ==→eq,
  Bool-cases, wrap, u64_mod,
}
use mathlib.Core.Path.{subst}
use contreap.Tree.{Tree}
use contreap.Treap.Node.{Cell}
use contreap.Treap.Scheduler.Task.{Context, st_running}
use contreap.Treap.Scheduler.Ghost.{Ghost}
use contreap.Treap.Scheduler.Invariant.{set_context}
use contreap.Treap.Scheduler.Machine.{
  Worker, submitting, deciding, depending, working, Machine, set_at,
}
use contreap.Treap.Scheduler.Threads.{set_worker}
use contreap.Treap.Scheduler.Protocol.{
  WorkerKnows, Workers, IsValid, Valid, has_task, executes, in_stage,
}
use contreap.Treap.Scheduler.Change.{
  Marks-change, Beyond-change, AllDone-change, Workers-turn, apart_set, executes-has_task,
  in_stage-executes,
}
use contreap.Treap.Scheduler.Stage.{with_stage, Inv-with_stage}
use contreap.Treap.Scheduler.Tokens.{arrived_le}
use contreap.Treap.Scheduler.Passing.{Beyond-running, arrived_pos}
use contreap.Treap.Scheduler.Publish.{WorkerKnows-more}
use contreap.Treap.Scheduler.Order.{HasFlow}

-- A worker without a task.
pub WorkerKnows-idle :
    (num_pipes submitted fetched : ℕ) (ctxs : ℕ → Context) (g : Ghost) (w : Worker)
    → has_task w.phase ≡ false
    → w.cached_submit ≤ submitted
    → WorkerKnows num_pipes submitted fetched ctxs g w
WorkerKnows-idle num_pipes submitted fetched ctxs g w none cached =
    let idle : executes w.phase ≡ true → ⊥ =
      λ e. let busy = executes-has_task w.phase e in let both : ⊥ = cc (busy, none) in both in
    record {
      cached = cached;
      has_fetched = λ e. let both : ⊥ = cc (e, none) in absurd both;
      is_submitted = λ e. absurd (idle e);
      positive = λ e. absurd (idle e);
      staged = λ e run. absurd (idle e);
      runs = λ e. absurd (idle (in_stage-executes w.phase e));
      fresh = λ e f run. let both : ⊥ = cc (e, none) in absurd both;
    }

-- One worker changes, and no task.
pub Workers-set :
    (num_pipes submitted fetched fetched' : ℕ) (ctxs : ℕ → Context) (g : Ghost)
    (workers : ℕ → Worker) (id : ℕ) (w : Worker)
    → fetched ≤ fetched'
    → WorkerKnows num_pipes submitted fetched' ctxs g w
    → ((v : ℕ)
        → v ≢ id
        → has_task w.phase ≡ true
        → has_task (workers v).phase ≡ true
        → (workers v).task_id ≢ w.task_id)
    → Workers num_pipes submitted fetched ctxs g workers
    → Workers num_pipes submitted fetched' ctxs g (set_at workers id w)
Workers-set num_pipes submitted fetched fetched' ctxs g workers id w le knows apart ws = record {
  knows = λ v. elim (Bool-cases (v == id)) [
    | inl e ↦ rw e knows
    | inr e ↦ rw e (
        WorkerKnows-more num_pipes submitted submitted fetched fetched' ctxs g (workers v)
          (omega arith) le (ws.knows v))
  ];
  apart = apart_set workers id w apart ws.apart;
  unfetched = λ i lt run. ws.unfetched i (omega arith) run;
}

module _ (np nt : ℕ) (fits : nt + 2 < u64_mod) (fuel : ℕ) (version : ℕ → Tree Cell) (steps : ℕ)
    (m : Machine) (h : HasFlow np nt m) (g : Ghost) (v : IsValid fuel version steps m g)
    (id : ℕ) where
  -- The other workers have other tasks.
  pub others :
      (u : ℕ)
      → u ≢ id
      → has_task (m.workers id).phase ≡ true
      → has_task (m.workers u).phase ≡ true
      → (m.workers u).task_id ≢ (m.workers id).task_id
  others u ne busy busy_u = v.workers.apart u id ne busy_u busy

  -- A turn that changes nothing but the worker and the count of the tasks that are fetched.
  pub turn_worker :
      (w : Worker) (fetched : ℕ) (estimated : ℕ → ℕ)
      → m.num_fetched ≤ fetched
      → fetched ≤ steps + 1
      → WorkerKnows m.num_pipes m.local_submitted fetched m.ctxs g w
      → ((u : ℕ)
          → u ≢ id
          → has_task w.phase ≡ true
          → has_task (m.workers u).phase ≡ true
          → (m.workers u).task_id ≢ w.task_id)
      → Valid fuel version (steps + 1) (record m {
        workers = set_at m.workers id w;
        num_fetched = fetched;
        num_estimated = estimated;
      })
  turn_worker w fetched estimated le few knows apart = (
    g,
    record {
      inv = v.inv;
      marks = v.marks;
      depths = v.depths;
      workers =
          Workers-set m.num_pipes m.local_submitted m.num_fetched fetched m.ctxs g m.workers id w le
            knows apart v.workers;
      submits = v.submits;
      commits = v.commits;
      counted = few;
    },
  )

  -- A worker that gives up its task or has none.
  pub turn_idle :
      (w : Worker) (estimated : ℕ → ℕ)
      → has_task w.phase ≡ false
      → w.cached_submit ≡ (m.workers id).cached_submit
      → Valid fuel version
          (steps + 1)
          (record m { workers = set_at m.workers id w; num_estimated = estimated })
  turn_idle w estimated none same =
      turn_worker w m.num_fetched estimated (omega arith) (omega (arith, v.counted))
        (WorkerKnows-idle m.num_pipes m.local_submitted m.num_fetched m.ctxs g w none
          (omega (arith, same, (v.workers.knows id).cached)))
        (λ u ne busy. let both : ⊥ = cc (busy, none) in absurd both)

  pub turn_taking :
      steps + 1 < u64_mod
      → (w : Worker) → executes w.phase ≡ false
      → w.task_id ≡ wrap (1 + m.num_fetched)
      → w.cached_submit ≡ (m.workers id).cached_submit
      → Valid fuel version
          (steps + 1)
          (record m { workers = set_at m.workers id w; num_fetched = wrap (1 + m.num_fetched) })
  turn_taking small w idle task same =
      let next : wrap (1 + m.num_fetched) ≡ m.num_fetched + 1 = ground (arith, v.counted, small) in
      let task' = task ∙ next in
      turn_worker w (wrap (1 + m.num_fetched)) m.num_estimated (omega (arith, next))
        (omega (arith, next, v.counted))
        (record {
          cached = omega (arith, same, (v.workers.knows id).cached);
          has_fetched = λ e. (omega (arith, task'), omega (arith, task));
          is_submitted = λ e. let both : ⊥ = cc (e, idle) in absurd both;
          positive = λ e. let both : ⊥ = cc (e, idle) in absurd both;
          staged = λ e run. let both : ⊥ = cc (e, idle) in absurd both;
          runs = λ e.
              let busy = in_stage-executes w.phase e in
              let both : ⊥ = cc (busy, idle) in absurd both;
          fresh = λ e f run. v.workers.unfetched w.task_id (omega (arith, task')) run;
        })
        (λ u ne busy busy_u same_task.
          let few = ((v.workers.knows u).has_fetched busy_u).1 in
          absurd (omega (arith, few, same_task, task')))

  -- What the worker knows, whatever it has cached and wherever it is with its task.
  pub turn_submitting :
      (m.workers id).phase ≡ submitting
      → Valid fuel version
          (steps + 1)
          (set_worker m id (record (m.workers id) { cached_submit = m.num_submitted }))
  turn_submitting ph =
      let k = v.workers.knows id in
      turn_worker (record (m.workers id) { cached_submit = m.num_submitted }) m.num_fetched
        m.num_estimated (omega arith) (omega (arith, v.counted))
        (record {
          cached = omega (arith, v.submits);
          has_fetched = k.has_fetched;
          is_submitted = k.is_submitted;
          positive = k.positive;
          staged = k.staged;
          runs = k.runs;
          fresh = k.fresh;
        })
        others

  pub turn_submitted :
      (m.workers id).phase ≡ submitting
      → (m.workers id).task_id ≤ (m.workers id).cached_submit
      → Valid fuel version
          (steps + 1)
          (set_worker m id (record (m.workers id) { phase = deciding; stage = 1 }))
  turn_submitted ph le =
      let (p, t, flow) = h in
      let k = v.workers.knows id in
      let w = m.workers id in
      let busy : has_task w.phase ≡ true = ap has_task ph in
      let (positive, few) = k.has_fetched busy in
      let submitted : w.task_id ≤ m.local_submitted = omega (arith, k.cached) in
      turn_worker (record w { phase = deciding; stage = 1 }) m.num_fetched m.num_estimated
        (omega arith) (omega (arith, v.counted))
        (record {
          cached = k.cached;
          has_fetched = λ e. (positive, few);
          is_submitted = λ e. submitted;
          positive = λ e. omega arith;
          staged = λ e run.
              let upper = k.fresh busy (ap executes ph) run in
              elim (Bool-cases (m.num_pipes == 0)) [
                | inl z ↦ ground (arith, upper)
                | inr nz ↦
                    let ahead =
                      arrived_pos m.num_pipes m.num_tasks m.num_issued m.pipes m.tokens
                        m.local_submitted flow m.num_pipes m.num_pipes (ground arith) (omega arith)
                        (omega arith) in
                    let lower = Beyond-running m.ctxs g w.task_id m.num_pipes run (
                      v.depths.passed m.num_pipes w.task_id (ground arith) (omega arith) positive
                        (omega (arith, ahead, flow.last, submitted))) in
                    omega (arith, upper, lower)
              ];
          runs = λ e. cc;
          fresh = λ e f. cc;
        })
        (λ u ne e. others u ne busy)

  pub turn_depending :
      (m.workers id).phase ≡ depending
      → Valid fuel version (steps + 1) (set_worker m id (record (m.workers id) { phase = working }))
  turn_depending ph =
      let k = v.workers.knows id in
      let busy : has_task (m.workers id).phase ≡ true = ap has_task ph in
      let runs : executes (m.workers id).phase ≡ true = ap executes ph in
      turn_worker (record (m.workers id) { phase = working }) m.num_fetched m.num_estimated
        (omega arith) (omega (arith, v.counted))
        (record {
          cached = k.cached;
          has_fetched = λ e. k.has_fetched busy;
          is_submitted = λ e. k.is_submitted runs;
          positive = λ e. k.positive runs;
          staged = λ e. k.staged runs;
          runs = λ e. k.runs (ap in_stage ph);
          fresh = λ e f. cc;
        })
        (λ u ne e. others u ne busy)

  -- The head of the loop writes the stage into the context.
  pub turn_head :
      (m.workers id).phase ≡ deciding
      → (m.ctxs (m.workers id).task_id).st ≡ st_running
      → Valid fuel version
          (steps + 1)
          (record (set_worker m id (record (m.workers id) { phase = depending })) {
            ctxs =
                set_context m.ctxs
                  (m.workers id).task_id
                  (with_stage (m.ctxs (m.workers id).task_id) (m.workers id).stage);
          })
  turn_head ph run =
      let (p, t, flow) = h in
      let k = v.workers.knows id in
      let w = m.workers id in
      let i = w.task_id in
      let ctx = with_stage (m.ctxs i) w.stage in
      let busy : has_task w.phase ≡ true = ap has_task ph in
      let runs : executes w.phase ≡ true = ap executes ph in
      let (positive, few) = k.has_fetched busy in
      let submitted = k.is_submitted runs in
      let few_arrived =
        arrived_le m.num_pipes m.num_tasks m.num_issued m.pipes m.tokens m.local_submitted flow
          m.num_pipes (omega arith) in
      let issued : i ≤ m.num_issued = omega (arith, few_arrived, flow.last, submitted) in
      let at_depth = k.staged runs run in
      let self : (i == i) ≡ true = ground arith in
      let other : (j : ℕ) → (j == i) ≡ false → g.depth j ≡ g.depth j = λ j e. refl in
      let running : (j : ℕ)
          → (set_context m.ctxs i ctx j).st ≡ st_running
          → (m.ctxs j).st ≡ st_running =
        λ j run'. elim (Bool-cases (j == i)) [
          | inl e ↦ subst (λ x. (m.ctxs x).st ≡ st_running) (sym (==→eq j i e)) run
          | inr e ↦ rw e at run'
        ] in
      (
        g,
        record {
          inv = Inv-with_stage fuel version m.num_issued m.store m.ctxs g v.inv i w.stage;
          marks =
              Marks-change m.num_pipes m.ctxs g i ctx g other m.num_issued m.num_issued positive
                issued (omega arith) (omega arith) (λ lt. absurd (omega (arith, lt)))
                (λ run'. inr (omega (arith, at_depth))) v.marks;
          depths = record {
            passed = λ l j posl lel posj lt.
                Beyond-change m.num_pipes m.ctxs g i ctx g other (λ l' b. b) j l
                  (v.depths.passed l j posl lel posj lt);
            before =
                λ l j posl lel lej le' run'. v.depths.before l j posl lel lej le' (running j run');
          };
          workers =
              Workers-turn m.num_pipes m.ctxs g i ctx g other m.local_submitted m.num_fetched id
                m.workers (record w { phase = depending }) few (λ u ne. others u ne busy) refl
                (record {
                  cached = k.cached;
                  has_fetched = λ e. (positive, few);
                  is_submitted = λ e. submitted;
                  positive = λ e. k.positive runs;
                  staged = λ e run'. at_depth;
                  runs = λ e. rw self run;
                  fresh = λ e f. cc;
                })
                v.workers;
          submits = v.submits;
          commits = record {
            local = v.commits.local;
            ordered = v.commits.ordered;
            all_done =
                AllDone-change m.num_pipes m.ctxs g i ctx g other m.collector.next_committable run
                  v.commits.all_done;
          };
          counted = omega (arith, v.counted);
        },
      )
