-- ===== src/Treap/Scheduler/Order.antt =====
-- A turn of any thread keeps count of the tokens.
use contreap.Prelude.{
  ℕ, ◌+◌, ◌-◌, ◌≡◌, ◌<◌, ◌≤◌, refl, true, false, arith, ◌==◌, ◌&&◌, ltb, leb, Bool-cases, wrap,
  u64_mod, inl, inr,
}
use mathlib.Core.Path.{subst}
use contreap.Treap.Scheduler.Store.{Store, Result, ok, waits, look}
use contreap.Treap.Scheduler.Task.{
  Context, Status, st_running, st_done, execute_one_step, execute_to_complete,
}
use contreap.Treap.Scheduler.Machine.{
  Request, PipePhase, fetching, waiting, holding, Worker, WorkerPhase, taking, submitting, deciding,
  depending, working, estimating, stopped, Machine, set_at, add_token, no_token,
}
use contreap.Treap.Scheduler.Threads.{
  Turn, init_op, init_context, run_task, pipe_phase, pipe_thread, boarder_thread, past_version,
  stage_head, finish_stage, worker_phase, worker_thread, is_done, collector_thread, step,
  set_worker,
}
use contreap.Treap.Scheduler.Invariant.{set_context}
use contreap.Treap.Scheduler.Protocol.{Flow}
use contreap.Treap.Scheduler.Tokens.{Flow-fetch, Flow-wake, Flow-pass, Flow-issue, Flow-board}
use contreap.Treap.Scheduler.Outcome.{Then, Then-bind}

abbrev pub HasFlow : ℕ → ℕ → Machine → Type 0
HasFlow num_pipes num_tasks m =
    (m.num_pipes ≡ num_pipes)
    × (m.num_tasks ≡ num_tasks)
    × Flow m.num_pipes m.num_tasks m.num_issued m.pipes m.tokens m.local_submitted

module _ (np nt : ℕ) (fits : nt + 2 < u64_mod) (m : Machine) where
  pub fits_tasks : HasFlow np nt m → m.num_tasks + 2 < u64_mod
  fits_tasks (p, t, flow) = omega (arith, t)

  boarder_thread-HasFlow : HasFlow np nt m → Then (HasFlow np nt) (boarder_thread m)
  unfolding boarder_thread
  boarder_thread-HasFlow h =
      let (p, t, flow) = h in
      elim (Bool-cases (ltb m.local_submitted m.num_tasks && ltb 0 (m.tokens m.num_pipes))) [
        | inr e ↦ rw (e, boarder_thread) tt
        | inl e ↦
            rw (e, boarder_thread)
              (
                p,
                t,
                Flow-board m.num_pipes m.num_tasks m.num_issued m.pipes m.tokens m.local_submitted
                    flow (fits_tasks h),
              )
      ]

  collector_thread-HasFlow : HasFlow np nt m → Then (HasFlow np nt) (collector_thread m)
  unfolding collector_thread
  collector_thread-HasFlow h =
      let c = m.collector in
      elim (Bool-cases
        (ltb c.next_committable m.num_tasks && is_done (m.ctxs (c.next_committable + 1)))) [
          | inl e ↦ rw (e, collector_thread) h
          | inr e ↦ elim (Bool-cases (ltb c.local_committed c.next_committable)) [
            | inl f ↦ rw (e, f, collector_thread) h
            | inr f ↦ rw (e, f, collector_thread) tt
          ]
        ]

  stage_head-HasFlow :
      (st : Status) (id : ℕ) (w : Worker)
      → HasFlow np nt m
      → Then (HasFlow np nt) (stage_head st m id w)
  unfolding stage_head
  stage_head-HasFlow st_running id w h = h
  stage_head-HasFlow st_done id w h = h

  finish_stage-HasFlow :
      (id : ℕ) (w : Worker) (r : Result (Context × Store))
      → HasFlow np nt m
      → Then (HasFlow np nt) (finish_stage m id w r)
  unfolding finish_stage
  finish_stage-HasFlow id w r h = Then-bind _ r _ λ x. h

  module _ (fuel : ℕ) (hash : ℕ → ℕ) (program : ℕ → Request) where
    init_context-HasFlow : HasFlow np nt m → Then (HasFlow np nt) (init_context fuel hash program m)
    unfolding init_context
    init_context-HasFlow h =
        let (p, t, flow) = h in
        elim (Bool-cases (ltb m.num_issued m.num_tasks)) [
          | inr e ↦ rw (e, init_context) tt
          | inl e ↦
              let next : m.num_issued + 1 ≡ wrap (m.num_issued + 1) =
                ground (arith, fits_tasks h) in
              rw (e, init_context)
                (Then-bind (HasFlow np nt)
                  (init_op fuel hash program (program (wrap (m.num_issued + 1))).op
                    (program (wrap (m.num_issued + 1))).elem m (wrap (m.num_issued + 1))
                    (record (m.ctxs (wrap (m.num_issued + 1))) {
                      op = (program (wrap (m.num_issued + 1))).op;
                      ver = wrap (m.num_issued + 1);
                    }))
                  (λ x. ok (record m {
                    num_issued = wrap (m.num_issued + 1);
                    ctxs = set_context m.ctxs (wrap (m.num_issued + 1)) x.0;
                    store = x.1;
                    tokens = add_token m.tokens 0;
                  }))
                  λ x. (
                    p,
                    t,
                    subst
                        (λ i.
                          Flow m.num_pipes m.num_tasks i m.pipes (add_token m.tokens 0)
                            m.local_submitted)
                        next
                        (Flow-issue m.num_pipes m.num_tasks m.num_issued m.pipes m.tokens
                          m.local_submitted flow (fits_tasks h) (ground arith)),
                  ))
        ]

    pipe_phase-HasFlow :
        (id : ℕ) (phase : PipePhase)
        → 0 < id
        → id ≤ m.num_pipes
        → (m.pipes id).phase ≡ phase
        → HasFlow np nt m
        → Then (HasFlow np nt) (pipe_phase fuel hash program phase m id (m.pipes id).pos)
    unfolding pipe_phase
    pipe_phase-HasFlow id fetching pos le ph h =
        let (p, t, flow) = h in
        elim (Bool-cases (leb (m.pipes id).pos m.num_tasks)) [
          | inr e ↦ rw (e, pipe_phase) tt
          | inl e ↦
              rw (e, pipe_phase)
                (
                  p,
                  t,
                  Flow-fetch m.num_pipes m.num_tasks m.num_issued m.pipes m.tokens m.local_submitted
                      flow (fits_tasks h) id pos le ph,
                )
        ]
    pipe_phase-HasFlow id waiting pos le ph h =
        let (p, t, flow) = h in
        elim (Bool-cases (m.tokens (id - 1) == no_token)) [
          | inl e ↦ rw (e, pipe_phase) tt
          | inr e ↦
              rw (e, pipe_phase)
                (
                  p,
                  t,
                  Flow-wake m.num_pipes m.num_tasks m.num_issued m.pipes m.tokens m.local_submitted
                      flow (fits_tasks h) id pos le ph e,
                )
        ]
    pipe_phase-HasFlow id holding pos le ph h =
        let (p, t, flow) = h in
        let at_pos = (m.pipes id).pos in
        Then-bind (HasFlow np nt)
          (run_task fuel hash program m at_pos (m.ctxs at_pos) (m.ctxs at_pos).st)
          (λ x. ok (record m {
            ctxs = set_context m.ctxs at_pos x.0;
            store = x.1;
            tokens = add_token m.tokens id;
            pipes = set_at m.pipes id (record { pos = at_pos + 1; phase = fetching });
          }))
          λ x. (
            p,
            t,
            Flow-pass m.num_pipes m.num_tasks m.num_issued m.pipes m.tokens m.local_submitted flow
                (fits_tasks h) id pos le ph,
          )

    pipe_thread-HasFlow :
        (id : ℕ) → HasFlow np nt m → Then (HasFlow np nt) (pipe_thread fuel hash program id m)
    unfolding pipe_thread
    pipe_thread-HasFlow id h = elim (Bool-cases (ltb 0 id && leb id m.num_pipes)) [
      | inr e ↦ rw (e, pipe_thread) tt
      | inl e ↦
          rw (e, pipe_thread)
            (pipe_phase-HasFlow id (m.pipes id).phase (ground (arith, e)) (ground (arith, e)) refl
              h)
    ]

    worker_phase-HasFlow :
        (phase : WorkerPhase) (id : ℕ) (w : Worker)
        → HasFlow np nt m
        → Then (HasFlow np nt) (worker_phase fuel hash program phase m id w)
    unfolding worker_phase
    worker_phase-HasFlow taking id w h = h
    worker_phase-HasFlow submitting id w h = elim (Bool-cases (ltb w.cached_submit w.task_id)) [
      | inl e ↦ rw (e, worker_phase) h
      | inr e ↦ rw (e, worker_phase) h
    ]
    worker_phase-HasFlow deciding id w h = stage_head-HasFlow (m.ctxs w.task_id).st id w h
    worker_phase-HasFlow depending id w h =
        Then-bind (HasFlow np nt) (past_version (look m.store (m.ctxs w.task_id).t_past))
          (λ vdep. elim (leb vdep m.num_committed) [
            | true ↦ finish_stage m id w (execute_to_complete fuel m.store (m.ctxs w.task_id))
            | false ↦ ok (set_worker m id (record w { phase = working }))
          ])
          λ vdep. elim (Bool-cases (leb vdep m.num_committed)) [
            | inl e ↦ rw e (finish_stage-HasFlow id w _ h)
            | inr e ↦ rw e h
          ]
    worker_phase-HasFlow working id w h =
        Then-bind (HasFlow np nt) (past_version (look m.store (m.ctxs w.task_id).t_past))
          (λ vdep. elim (leb (m.ctxs vdep).stage w.stage) [
            | true ↦ waits
            | false ↦
                finish_stage m id w
                  (execute_one_step fuel m.num_committed m.store (m.ctxs w.task_id))
          ])
          λ vdep. elim (Bool-cases (leb (m.ctxs vdep).stage w.stage)) [
            | inl e ↦ rw e tt
            | inr e ↦ rw e (finish_stage-HasFlow id w _ h)
          ]
    worker_phase-HasFlow estimating id w h = elim (Bool-cases (leb w.block_end w.task_id)) [
      | inl e ↦ rw (e, worker_phase) h
      | inr e ↦ rw (e, worker_phase) h
    ]
    worker_phase-HasFlow stopped id w h = tt

    worker_thread-HasFlow :
        (id : ℕ) → HasFlow np nt m → Then (HasFlow np nt) (worker_thread fuel hash program id m)
    unfolding worker_thread
    worker_thread-HasFlow id h = elim (Bool-cases (ltb 0 id && leb id m.num_workers)) [
      | inr e ↦ rw (e, worker_thread) tt
      | inl e ↦
          rw (e, worker_thread) (worker_phase-HasFlow (m.workers id).phase id (m.workers id) h)
    ]

    pub step-HasFlow :
        (t : Turn) → HasFlow np nt m → Then (HasFlow np nt) (step fuel hash program t m)
    unfolding step
    step-HasFlow Turn.master h = init_context-HasFlow h
    step-HasFlow (Turn.pipe id) h = pipe_thread-HasFlow id h
    step-HasFlow (Turn.worker id) h = worker_thread-HasFlow id h
    step-HasFlow Turn.boarder h = boarder_thread-HasFlow h
    step-HasFlow Turn.collector h = collector_thread-HasFlow h
