-- ===== src/Treap/Scheduler/Piping.antt =====
-- `pipe_thread_` keeps the invariant.
use contreap.Prelude.{
  ℕ, ◌+◌, ◌-◌, ◌≡◌, ◌≢◌, ◌<◌, ◌≤◌, inl, inr, refl, sym, ap, true, false, arith, ◌==◌, ◌&&◌, ==→eq,
  Bool-cases, ltb, leb, u64_mod,
}
use mathlib.Core.Path.{subst, fun_ext}
use contreap.Tree.{Tree}
use contreap.Treap.Node.{Cell}
use contreap.Treap.Scheduler.Store.{at, Store, ok, ◌>>=◌}
use contreap.Treap.Scheduler.Task.{Context, st_running, st_done, execute_one_step}
use contreap.Treap.Scheduler.Ghost.{Ghost}
use contreap.Treap.Scheduler.Invariant.{set_context, Inv}
use contreap.Treap.Scheduler.Advance.{advance}
use contreap.Treap.Scheduler.Settled.{Marked, ended, going}
use contreap.Treap.Scheduler.Steps.{execute_one_step-Stepped}
use contreap.Treap.Scheduler.Dependence.{may_read}
use contreap.Treap.Scheduler.Machine.{
  Request, Pipe, PipePhase, fetching, waiting, holding, Machine, set_at, add_token, no_token,
}
use contreap.Treap.Scheduler.Threads.{pipe_phase, pipe_thread, run_task}
use contreap.Treap.Scheduler.Protocol.{Beyond, Depths, IsValid, Valid, arrived, executes}
use contreap.Treap.Scheduler.Counting.{Counts-held}
use contreap.Treap.Scheduler.Tokens.{arrived_le, before_pipe}
use contreap.Treap.Scheduler.Change.{
  Status-cases, AllDone-change, Workers-change, depth_own, depth_other, Marks-step, Beyond-step,
  running_before,
}
use contreap.Treap.Scheduler.Outcome.{Then}
use contreap.Treap.Scheduler.Order.{HasFlow}
use contreap.Treap.Scheduler.Passing.{
  Beyond-weaken, Beyond-running, AllDone-committed, Depths-phase, arrived_pos,
}

set_context_same : (ctxs : ℕ → Context) (i : ℕ) → set_context ctxs i (ctxs i) ≡ ctxs
set_context_same ctxs i = fun_ext λ j. elim (Bool-cases (j == i)) [
  | inl e ↦ rw e (ap ctxs (sym (==→eq j i e)))
  | inr e ↦ rw e refl
]

module _ (fuel : ℕ) (hash : ℕ → ℕ) (program : ℕ → Request) (np nt : ℕ) (fits : nt + 2 < u64_mod)
    (version : ℕ → Tree Cell) (steps : ℕ) (m : Machine) (h : HasFlow np nt m) (g : Ghost)
    (v : IsValid fuel version steps m g) where
  -- Only the phase of a pipe changes, and the tokens.
  pipe_phase_same :
      (id : ℕ) (phase : PipePhase) (tokens : ℕ → ℕ)
      → Valid fuel version (steps + 1) (record m {
        tokens = tokens;
        pipes = set_at m.pipes id (record { pos = (m.pipes id).pos; phase = phase });
      })
  pipe_phase_same id phase tokens = (
    g,
    record {
      inv = v.inv;
      marks = v.marks;
      depths =
          Depths-phase m.num_pipes m.num_issued m.ctxs g m.pipes id
            (record { pos = (m.pipes id).pos; phase = phase }) refl v.depths;
      workers = v.workers;
      submits = v.submits;
      commits = v.commits;
      counted = omega (arith, v.counted);
    },
  )

  module _ (id : ℕ) (pos : 0 < id) (le : id ≤ m.num_pipes)
      (held : (m.pipes id).phase ≡ holding) where
    came : (m.pipes id).pos ≤ arrived m.num_issued m.pipes (id - 1)
    came =
        let (p, t, flow) = h in
        Counts-held (arrived m.num_issued m.pipes (id - 1)) (m.tokens (id - 1)) (m.pipes id).pos (
          rw held at (
            before_pipe m.num_pipes m.num_tasks m.num_issued m.pipes m.tokens m.local_submitted flow
              id pos le))

    came_issued : (m.pipes id).pos ≤ m.num_issued
    came_issued =
        let (p, t, flow) = h in
        let few =
          arrived_le m.num_pipes m.num_tasks m.num_issued m.pipes m.tokens m.local_submitted flow
            (id - 1) (omega arith) in
        omega (arith, came)

    -- The pipes before this one have passed the task.
    passed_before : (k : ℕ) → 0 < k → k < id → (m.pipes id).pos < (m.pipes k).pos
    passed_before k posk lt =
        let (p, t, flow) = h in
        let ahead =
          arrived_pos m.num_pipes m.num_tasks m.num_issued m.pipes m.tokens m.local_submitted flow k
            (id - 1) posk (omega arith) (omega arith) in
        omega (arith, came)

    no_worker :
        (w : ℕ) → executes (m.workers w).phase ≡ true → (m.workers w).task_id ≢ (m.pipes id).pos
    no_worker w e same =
        let (p, t, flow) = h in
        let behind =
          arrived_pos m.num_pipes m.num_tasks m.num_issued m.pipes m.tokens m.local_submitted flow
            id m.num_pipes pos le (omega arith) in
        let few = (v.workers.knows w).is_submitted e in omega (arith, behind, few, flow.last)

    -- The task is behind the pipe now, and all other tasks are where they were.
    Depths-pass :
        (ctxs : ℕ → Context) (g' : Ghost) (p : Pipe)
        → p.pos ≡ (m.pipes id).pos + 1
        → ((j k : ℕ) → Beyond m.ctxs g j k → Beyond ctxs g' j k)
        → Beyond ctxs g' (m.pipes id).pos id
        → ((j : ℕ) → (ctxs j).st ≡ st_running → (m.ctxs j).st ≡ st_running)
        → ((j : ℕ) → (j == (m.pipes id).pos) ≡ false → g'.depth j ≡ g.depth j)
        → ((ctxs (m.pipes id).pos).st ≡ st_running → g'.depth (m.pipes id).pos ≤ id)
        → Depths m.num_pipes m.num_issued ctxs g' (set_at m.pipes id p)
    Depths-pass ctxs g' p next later mine running same deep = record {
      passed = λ k j posk lek posj lt. elim (Bool-cases (k == id)) [
        | inr e ↦ later j k (v.depths.passed k j posk lek posj (rw e at lt))
        | inl e ↦
            let same_k = ==→eq k id e in
            let lt' = rw e at lt in
            elim (Bool-cases (j == (m.pipes id).pos)) [
              | inl f ↦
                  subst (λ x. Beyond ctxs g' j x) (sym same_k)
                    (subst (λ x. Beyond ctxs g' x id) (sym (==→eq j (m.pipes id).pos f)) mine)
              | inr f ↦
                  subst (λ x. Beyond ctxs g' j x) (sym same_k)
                    (later j id (v.depths.passed id j pos le posj (ground (arith, next))))
            ]
      ];
      before = λ k j posk lek lej le' run. elim (Bool-cases (k == id)) [
        | inl e ↦
            let same_k = ==→eq k id e in
            let lej' = rw e at lej in
            let other : (j == (m.pipes id).pos) ≡ false = ground (arith, next) in
            let kept = v.depths.before id j pos le (omega (arith, next)) le' (running j run) in
            omega (arith, same j other, same_k)
        | inr e ↦
            let lej' = rw e at lej in
            elim (Bool-cases (j == (m.pipes id).pos)) [
              | inr f ↦
                  let kept = v.depths.before k j posk lek lej' le' (running j run) in
                  omega (arith, same j f)
              | inl f ↦
                  let at_pos = ==→eq j (m.pipes id).pos f in
                  let bound : g'.depth j ≤ id =
                    subst (λ x. g'.depth x ≤ id) (sym at_pos)
                      (deep (subst (λ x. (ctxs x).st ≡ st_running) at_pos run)) in
                  elim (Bool-cases (ltb k id)) [
                    | inl before ↦
                        let ahead = passed_before k posk (ground arith) in
                        absurd (omega (arith, ahead, at_pos))
                    | inr behind ↦ ground arith
                  ]
            ]
      ];
    }

    -- The machine after the pipe has passed the task on.
    abbrev passed_on : Context × Store → Machine
    passed_on x = record m {
      ctxs = set_context m.ctxs (m.pipes id).pos x.0;
      store = x.1;
      tokens = add_token m.tokens id;
      pipes = set_at m.pipes id (record { pos = (m.pipes id).pos + 1; phase = fetching });
    }

    pass_done :
        (m.ctxs (m.pipes id).pos).st ≡ st_done
        → Valid fuel version (steps + 1) (passed_on (m.ctxs (m.pipes id).pos, m.store))
    pass_done is_done = (
      g,
      subst
          (λ c.
            IsValid fuel version (steps + 1)
              (record m {
                ctxs = c;
                tokens = add_token m.tokens id;
                pipes = set_at m.pipes id (record { pos = (m.pipes id).pos + 1; phase = fetching });
              })
              g)
          (sym (set_context_same m.ctxs (m.pipes id).pos))
          (record {
            inv = v.inv;
            marks = v.marks;
            depths =
                Depths-pass m.ctxs g (record { pos = (m.pipes id).pos + 1; phase = fetching }) refl
                  (λ j k b. b) (inl is_done) (λ j run. run) (λ j e. refl)
                  (λ run. let both : ⊥ = cc (is_done, run) in absurd both);
            workers = v.workers;
            submits = v.submits;
            commits = v.commits;
            counted = omega (arith, v.counted);
          }),
    )

    -- A task at the pipe has done one step less than the pipe's number.
    depth_at : (m.ctxs (m.pipes id).pos).st ≡ st_running → g.depth (m.pipes id).pos + 1 ≡ id
    depth_at run =
        let i = (m.pipes id).pos in
        let (p, t, flow) = h in
        let upper = v.depths.before id i pos le (omega arith) came_issued run in
        elim (Bool-cases (ltb 1 id)) [
          | inr one ↦ ground (arith, upper)
          | inl more ↦
              let ahead = passed_before (id - 1) (ground arith) (omega arith) in
              let lower =
                Beyond-running m.ctxs g i (id - 1) run (
                  v.depths.passed (id - 1) i (ground arith) (omega arith) (flow.started id)
                    ahead) in
              ground (arith, upper, lower)
        ]

    pass_stepped :
        (run : (m.ctxs (m.pipes id).pos).st ≡ st_running)
        → (ctx : Context) (store : Store) (next a : ℕ) (t : Tree Cell)
        → Inv fuel version m.num_issued store
            (set_context m.ctxs (m.pipes id).pos ctx)
            (advance g next a (m.pipes id).pos t)
        → Marked (m.ctxs (m.pipes id).pos) ctx
        → Valid fuel version (steps + 1) (passed_on (ctx, store))
    pass_stepped run ctx store next a t keeps marked =
        let i = (m.pipes id).pos in
        let (p, e, flow) = h in
        let started = flow.started id in
        let g' = advance g next a i t in
        let own =
          depth_own m.num_pipes m.num_issued m.ctxs g i ctx next a t started came_issued run
            marked in
        let other =
          depth_other m.num_pipes m.num_issued m.ctxs g i ctx next a t started came_issued run
            marked in
        let later =
          Beyond-step m.num_pipes m.num_issued m.ctxs g i ctx next a t started came_issued run
            marked in
        let at_depth = depth_at run in
        let self : (i == i) ≡ true = ground arith in
        let mine : Beyond (set_context m.ctxs i ctx) g' i id = rw self (elim marked [
          | ended is_done s ↦ inl is_done
          | going r s ↦ inr (omega (arith, at_depth))
        ]) in
        (
          g',
          record {
            inv = keeps;
            marks =
                Marks-step m.num_pipes m.num_issued m.ctxs g i ctx next a t started came_issued run
                  marked v.marks;
            depths =
                Depths-pass (set_context m.ctxs i ctx) g' (record { pos = i + 1; phase = fetching })
                  refl later mine
                  (running_before m.num_pipes m.num_issued m.ctxs g i ctx next a t started
                    came_issued run marked)
                  other (λ run'. omega (arith, own, at_depth));
            workers =
                Workers-change m.num_pipes m.ctxs g i ctx g' other m.local_submitted m.num_fetched
                  m.workers no_worker (λ w run' here. omega (arith, own, at_depth))
                  (λ run' lt. omega (arith, own, at_depth)) v.workers;
            submits = v.submits;
            commits = record {
              local = v.commits.local;
              ordered = v.commits.ordered;
              all_done =
                  AllDone-change m.num_pipes m.ctxs g i ctx g' other m.collector.next_committable
                    run v.commits.all_done;
            };
            counted = omega (arith, v.counted);
          },
        )

    pass_running :
        (m.ctxs (m.pipes id).pos).st ≡ st_running
        → Then (Valid fuel version (steps + 1)) (
            execute_one_step fuel m.num_committed m.store (m.ctxs (m.pipes id).pos) >>= λ x.
            ok (passed_on x))
    pass_running run =
        let (p, t, flow) = h in
        let i = (m.pipes id).pos in
        let all = AllDone-committed m.num_committed m.ctxs m.collector v.commits in
        let r = v.inv.tasks i (flow.started id) came_issued run in
        let at_depth = depth_at run in
        let owner : (b : ℕ)
            → (m.ctxs i).t_past ≡ at b
            → (m.store.nodes b).cell.ver < i
            → Beyond m.ctxs g (m.store.nodes b).cell.ver (g.depth i + 1) =
          λ b e lt. elim (Bool-cases ((m.store.nodes b).cell.ver == 0)) [
            | inl z ↦ inl (
                subst (λ x. (m.ctxs x).st ≡ st_done) (sym (==→eq (m.store.nodes b).cell.ver 0 z))
                  v.marks.first)
            | inr nz ↦
                Beyond-weaken m.ctxs g (m.store.nodes b).cell.ver id (g.depth i + 1)
                  (omega (arith, at_depth))
                  (v.depths.passed id (m.store.nodes b).cell.ver pos le (ground (arith, nz)) lt)
          ] in
        let ready =
          may_read fuel version m.num_issued m.num_committed m.store m.ctxs g v.inv all i
            (flow.started id) came_issued r run (m.ctxs i).fn r.pending owner in
        elim (execute_one_step-Stepped fuel version m.num_issued m.num_committed m.store m.ctxs g
          v.inv all i (flow.started id) came_issued r run ready) [
            | inl w ↦ rw w tt
            | inr q ↦
                rw q.made
                  (pass_stepped run q.ctx q.store m.store.next r.addr q.missing q.keeps q.marked)
          ]

  pipe_phase-Valid :
      (id : ℕ) (phase : PipePhase)
      → 0 < id
      → id ≤ m.num_pipes
      → (m.pipes id).phase ≡ phase
      → Then
          (Valid fuel version (steps + 1))
          (pipe_phase fuel hash program phase m id (m.pipes id).pos)
  unfolding pipe_phase run_task
  pipe_phase-Valid id fetching pos le ph = elim (Bool-cases (leb (m.pipes id).pos m.num_tasks)) [
    | inr e ↦ rw (e, pipe_phase) tt
    | inl e ↦ rw (e, pipe_phase) (pipe_phase_same id _ _)
  ]
  pipe_phase-Valid id waiting pos le ph = elim (Bool-cases (m.tokens (id - 1) == no_token)) [
    | inl e ↦ rw (e, pipe_phase) tt
    | inr e ↦ rw (e, pipe_phase) (pipe_phase_same id holding m.tokens)
  ]
  pipe_phase-Valid id holding pos le ph = elim (Status-cases (m.ctxs (m.pipes id).pos).st) [
    | inr is_done ↦ rw (is_done, run_task) (pass_done id pos le ph is_done)
    | inl run ↦ rw (run, run_task) (pass_running id pos le ph run)
  ]

  pub pipe_thread-Valid :
      (id : ℕ) → Then (Valid fuel version (steps + 1)) (pipe_thread fuel hash program id m)
  unfolding pipe_thread
  pipe_thread-Valid id = elim (Bool-cases (ltb 0 id && leb id m.num_pipes)) [
    | inr e ↦ rw (e, pipe_thread) tt
    | inl e ↦
        rw (e, pipe_thread)
          (pipe_phase-Valid id (m.pipes id).phase (ground (arith, e)) (ground (arith, e)) refl)
  ]
