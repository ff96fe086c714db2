-- ===== src/Treap/Scheduler/Requests.antt =====
-- Which calls of the master a turn depends on: a turn of the master on the next one only, a turn of
-- another thread on none.
use contreap.Prelude.{
  ℕ, ◌+◌, ◌≡◌, refl, ap, arith, ◌∙◌, true, false, wrap, ltb, leb, ◌&&◌, inl, inr, Bool-cases,
}
use contreap.Treap.Scheduler.Store.{Store, Result, ok, waits, fault, look, ◌>>=◌}
use contreap.Treap.Scheduler.Task.{
  Context, Operation, op_none, op_insert, op_delete, Status, st_running, st_done, execute_one_step,
  execute_to_complete,
}
use contreap.Treap.Scheduler.Machine.{
  Request, Machine, PipePhase, fetching, waiting, holding, Worker, WorkerPhase, taking, submitting,
  deciding, depending, working, estimating, stopped, add_token,
}
use contreap.Treap.Scheduler.Invariant.{set_context}
use contreap.Treap.Scheduler.Threads.{
  Turn, init_op, init_context, run_task, pipe_phase, pipe_thread, worker_phase, worker_thread, step,
  boarder_thread, collector_thread, stage_head, finish_stage, past_version, set_worker,
}
use contreap.Treap.Scheduler.Outcome.{Then, Then-bind}

module _ (fuel : ℕ) (hash : ℕ → ℕ) (p q : ℕ → Request) where
  init_op-any :
      (op : Operation) (elem : ℕ) (m : Machine) (ver : ℕ) (ctx : Context)
      → init_op fuel hash p op elem m ver ctx ≡ init_op fuel hash q op elem m ver ctx
  unfolding init_op
  init_op-any op_none elem m ver ctx = refl
  init_op-any op_insert elem m ver ctx = refl
  init_op-any op_delete elem m ver ctx = refl

  run_task-any :
      (m : Machine) (pos : ℕ) (ctx : Context) (st : Status)
      → run_task fuel hash p m pos ctx st ≡ run_task fuel hash q m pos ctx st
  unfolding run_task
  run_task-any m pos ctx st_running = refl
  run_task-any m pos ctx st_done = refl

  pipe_phase-any :
      (phase : PipePhase) (m : Machine) (id pos : ℕ)
      → pipe_phase fuel hash p phase m id pos ≡ pipe_phase fuel hash q phase m id pos
  unfolding pipe_phase
  pipe_phase-any fetching m id pos = refl
  pipe_phase-any waiting m id pos = refl
  pipe_phase-any holding m id pos = rw (run_task-any m pos (m.ctxs pos) (m.ctxs pos).st) refl

  worker_phase-any :
      (phase : WorkerPhase) (m : Machine) (id : ℕ) (w : Worker)
      → worker_phase fuel hash p phase m id w ≡ worker_phase fuel hash q phase m id w
  unfolding worker_phase
  worker_phase-any taking m id w = refl
  worker_phase-any submitting m id w = refl
  worker_phase-any deciding m id w = refl
  worker_phase-any depending m id w = refl
  worker_phase-any working m id w = refl
  worker_phase-any estimating m id w = refl
  worker_phase-any stopped m id w = refl

  pub pipe_thread-any :
      (id : ℕ) (m : Machine) → pipe_thread fuel hash p id m ≡ pipe_thread fuel hash q id m
  unfolding pipe_thread
  pipe_thread-any id m =
      ap (λ r. elim (ltb 0 id && leb id m.num_pipes) [ true ↦ r | false ↦ waits ])
        (pipe_phase-any (m.pipes id).phase m id (m.pipes id).pos)

  pub worker_thread-any :
      (id : ℕ) (m : Machine) → worker_thread fuel hash p id m ≡ worker_thread fuel hash q id m
  unfolding worker_thread
  worker_thread-any id m =
      ap (λ r. elim (ltb 0 id && leb id m.num_workers) [ true ↦ r | false ↦ waits ])
        (worker_phase-any (m.workers id).phase m id (m.workers id))

  -- The master looks at the call of the next task only.
  pub init_context-next :
      (m : Machine)
      → p (wrap (m.num_issued + 1)) ≡ q (wrap (m.num_issued + 1))
      → init_context fuel hash p m ≡ init_context fuel hash q m
  unfolding init_context
  init_context-next m same =
      let ver = wrap (m.num_issued + 1) in
      let result : Request → Result (Context × Store) → Result Machine = λ r made.
        elim (ltb m.num_issued m.num_tasks) [
          | false ↦ fault
          | true ↦ made >>= λ x. ok (record m {
            num_issued = ver;
            ctxs = set_context m.ctxs ver x.0;
            store = x.1;
            tokens = add_token m.tokens 0;
          })
        ] in
      let made : (ℕ → Request) → Request → Result (Context × Store) = λ program r.
        init_op fuel hash program r.op r.elem m ver
          (record (m.ctxs ver) { op = r.op; ver = ver }) in
      ap (λ r. result r (made p r)) same
      ∙ ap (result (q ver)) (
          init_op-any (q ver).op (q ver).elem m ver
            (record (m.ctxs ver) { op = (q ver).op; ver = ver }))

-- A turn issues a task where it is the master's.
abbrev pub issues : Turn → ℕ → ℕ
issues Turn.master n = wrap (n + 1)
issues _ n = n

module _ (fuel : ℕ) (hash : ℕ → ℕ) (program : ℕ → Request) (m : Machine) where
  abbrev Issues : ℕ → Machine → Type 0
  Issues n m' = m'.num_issued ≡ n

  pipe_phase-issued :
      (phase : PipePhase) (id pos : ℕ)
      → Then (Issues m.num_issued) (pipe_phase fuel hash program phase m id pos)
  unfolding pipe_phase
  pipe_phase-issued fetching id pos = ground arith
  pipe_phase-issued waiting id pos = ground arith
  pipe_phase-issued holding id pos =
      Then-bind (Issues m.num_issued)
        (run_task fuel hash program m pos (m.ctxs pos) (m.ctxs pos).st) _ (λ x. refl)

  pipe_thread-issued : (id : ℕ) → Then (Issues m.num_issued) (pipe_thread fuel hash program id m)
  unfolding pipe_thread
  pipe_thread-issued id = elim (Bool-cases (ltb 0 id && leb id m.num_pipes)) [
    | inl e ↦ rw (e, pipe_thread) (pipe_phase-issued (m.pipes id).phase id (m.pipes id).pos)
    | inr e ↦ rw (e, pipe_thread) tt
  ]

  finish_stage-issued :
      (id : ℕ) (w : Worker) (r : Result (Context × Store))
      → Then (Issues m.num_issued) (finish_stage m id w r)
  unfolding finish_stage
  finish_stage-issued id w r = Then-bind (Issues m.num_issued) r _ (λ x. refl)

  stage_head-issued :
      (st : Status) (id : ℕ) (w : Worker) → Then (Issues m.num_issued) (stage_head st m id w)
  unfolding stage_head
  stage_head-issued st_running id w = refl
  stage_head-issued st_done id w = refl

  worker_phase-issued :
      (phase : WorkerPhase) (id : ℕ) (w : Worker)
      → Then (Issues m.num_issued) (worker_phase fuel hash program phase m id w)
  unfolding worker_phase
  worker_phase-issued taking id w = refl
  worker_phase-issued submitting id w = ground arith
  worker_phase-issued deciding id w = stage_head-issued (m.ctxs w.task_id).st id w
  worker_phase-issued depending id w =
      Then-bind (Issues m.num_issued) (past_version (look m.store (m.ctxs w.task_id).t_past)) _
        (λ vdep.
          elim (leb vdep m.num_committed)
            as (λ b. Then (Issues m.num_issued) (elim b [
              | true ↦ finish_stage m id w (execute_to_complete fuel m.store (m.ctxs w.task_id))
              | false ↦ ok (set_worker m id (record w { phase = working }))
            ])) [
              | true ↦
                  finish_stage-issued id w (execute_to_complete fuel m.store (m.ctxs w.task_id))
              | false ↦ refl
            ])
  worker_phase-issued working id w =
      Then-bind (Issues m.num_issued) (past_version (look m.store (m.ctxs w.task_id).t_past)) _
        (λ vdep.
          elim (leb (m.ctxs vdep).stage w.stage)
            as (λ b. Then (Issues m.num_issued) (elim b [
              | true ↦ waits
              | false ↦
                  finish_stage m id w
                    (execute_one_step fuel m.num_committed m.store (m.ctxs w.task_id))
            ])) [
              | true ↦ tt
              | false ↦
                  finish_stage-issued id w
                    (execute_one_step fuel m.num_committed m.store (m.ctxs w.task_id))
            ])
  worker_phase-issued estimating id w = ground arith
  worker_phase-issued stopped id w = tt

  worker_thread-issued :
      (id : ℕ) → Then (Issues m.num_issued) (worker_thread fuel hash program id m)
  unfolding worker_thread
  worker_thread-issued id = elim (Bool-cases (ltb 0 id && leb id m.num_workers)) [
    | inl e ↦ rw (e, worker_thread) (worker_phase-issued (m.workers id).phase id (m.workers id))
    | inr e ↦ rw (e, worker_thread) tt
  ]

  pub init_context-issued :
      Then (Issues (wrap (m.num_issued + 1))) (init_context fuel hash program m)
  unfolding init_context
  init_context-issued = elim (Bool-cases (ltb m.num_issued m.num_tasks)) [
    | inr e ↦ rw (e, init_context) tt
    | inl e ↦
        let ver = wrap (m.num_issued + 1) in
        let r = program ver in
        rw (e, init_context)
          (Then-bind (Issues ver)
            (init_op fuel hash program r.op r.elem m ver
              (record (m.ctxs ver) { op = r.op; ver = ver }))
            (λ x. ok (record m {
              num_issued = ver;
              ctxs = set_context m.ctxs ver x.0;
              store = x.1;
              tokens = add_token m.tokens 0;
            }))
            (λ x. refl))
  ]

  -- Only a turn of the master issues a task.
  pub step-issued : (t : Turn) → Then (Issues (issues t m.num_issued)) (step fuel hash program t m)
  unfolding step boarder_thread collector_thread
  step-issued Turn.master = init_context-issued
  step-issued (Turn.pipe id) = pipe_thread-issued id
  step-issued (Turn.worker id) = worker_thread-issued id
  step-issued Turn.boarder = ground arith
  step-issued Turn.collector = ground arith
