-- ===== src/Treap/Scheduler/Threads.antt =====
-- The threads of the scheduler. One step of a thread is one of its atomic actions, or one call of
-- `execute_one_step_` or `execute_to_complete_`; any thread may be the next.
use contreap.Prelude.{
  ℕ, List, [], ◌∷◌, ◌+◌, ◌-◌, ◌*◌, Bool, true, false, ltb, leb, ◌==◌, ◌&&◌, wrap, u64_mod,
  if◌then◌else◌, pred_u64,
}
use Prim.Native.Nat.{min}
use contreap.Treap.Scheduler.Store.{Store, View, look, Result, ok, waits, fault, ◌>>=◌}
use contreap.Treap.Scheduler.Task.{
  Context, Operation, op_none, Status, st_running, st_done, done, stage_done, update,
  execute_one_step, execute_to_complete,
}
use contreap.Treap.Scheduler.Invariant.{set_context}
use contreap.Treap.Scheduler.Machine.{
  Request, PipePhase, fetching, waiting, holding, WorkerPhase, taking, submitting, deciding,
  depending, working, estimating, stopped, Worker, Machine, set_at, add_token, no_token,
}

-- The next action: of the thread that calls the scheduler, or of one of its own threads.
pub data Turn : Type 0 where
  pipe worker : ℕ → Turn
  master boarder collector : Turn

-- `boarder_thread_`
unfoldable pub boarder_thread : Machine → Result Machine
boarder_thread m =
    let submitted = wrap (m.local_submitted + m.tokens m.num_pipes) in
    elim (ltb m.local_submitted m.num_tasks && ltb 0 (m.tokens m.num_pipes)) [
      | false ↦ waits
      | true ↦ ok (record m {
        tokens = set_at m.tokens m.num_pipes 0;
        local_submitted = submitted;
        num_submitted = submitted;
      })
    ]

abbrev pub set_worker : Machine → ℕ → Worker → Machine
set_worker m id w = record m { workers = set_at m.workers id w }

-- `ctx->t_past->ver`
abbrev pub past_version : View → Result ℕ
past_version View.void = fault
past_version (View.fields c l r) = ok c.ver

-- The loop over the stages ends when the task is done.
unfoldable pub stage_head : Status → Machine → ℕ → Worker → Result Machine
stage_head st_done m id w = ok (set_worker m id (record w { phase = estimating }))
stage_head st_running m id w = ok (record (set_worker m id (record w { phase = depending })) {
  ctxs = set_context m.ctxs w.task_id (record (m.ctxs w.task_id) { stage = w.stage });
})

-- The worker's own step on a context, and the next stage.
unfoldable pub finish_stage : Machine → ℕ → Worker → Result (Context × Store) → Result Machine
finish_stage m id w result = do
  (ctx, store) ← result
  ok (record (set_worker m id (record w { phase = deciding; stage = w.stage + 1 })) {
    ctxs = set_context m.ctxs w.task_id ctx;
    store = store;
  })

-- `is_done`
abbrev pub is_done : Context → Bool
is_done ctx = ctx.stage == stage_done

-- `collector_thread_`
unfoldable pub collector_thread : Machine → Result Machine
collector_thread m =
    let c = m.collector in
    elim (ltb c.next_committable m.num_tasks && is_done (m.ctxs (c.next_committable + 1))) [
      | true ↦ ok (record m { collector = record c { next_committable = c.next_committable + 1 } })
      | false ↦ elim (ltb c.local_committed c.next_committable) [
        | true ↦ ok (record m {
          collector = record c { local_committed = c.next_committable };
          num_committed = c.next_committable;
        })
        | false ↦ waits
      ]
    ]

-- `program i` is the call that makes the task `i`.
module _ (fuel : ℕ) (hash : ℕ → ℕ) (program : ℕ → Request) where
  -- `init_context_`
  unfoldable pub init_op : Operation → ℕ → Machine → ℕ → Context → Result (Context × Store)
  init_op op_none elem m ver ctx =
      ok (done (record ctx { root = (m.ctxs (pred_u64 ver)).root }), m.store)
  init_op op elem m ver ctx = do
    let past = record ctx { pry = hash elem; key = elem; t_past = (m.ctxs (pred_u64 ver)).root }
    p ← update fuel m.num_committed m.store past
    ok (record p.ctx { root = p.ptr; t_cur = p.ptr }, p.store)

  unfoldable pub init_context : Machine → Result Machine
  init_context m = elim (ltb m.num_issued m.num_tasks) [
    | false ↦ fault
    | true ↦ do
      let ver = wrap (m.num_issued + 1)
      let r = program ver
      (ctx, store) ← init_op r.op r.elem m ver (record (m.ctxs ver) { op = r.op; ver = ver })
      ok (record m {
        num_issued = ver;
        ctxs = set_context m.ctxs ver ctx;
        store = store;
        tokens = add_token m.tokens 0;
      })
  ]

  -- `pipe_thread_`
  unfoldable pub run_task : Machine → ℕ → Context → Status → Result (Context × Store)
  run_task m pos ctx st_done = ok (ctx, m.store)
  run_task m pos ctx st_running = execute_one_step fuel m.num_committed m.store ctx

  unfoldable pub pipe_phase : PipePhase → Machine → ℕ → ℕ → Result Machine
  pipe_phase fetching m id pos = elim (leb pos m.num_tasks) [
    | false ↦ waits
    | true ↦
        let token = m.tokens (id - 1) in
        ok (record m {
          tokens = set_at m.tokens (id - 1) (wrap (token + u64_mod - 1));
          pipes =
              set_at m.pipes id
                (record { pos = pos; phase = if token == 0 then waiting else holding });
        })
  ]
  pipe_phase waiting m id pos = elim (m.tokens (id - 1) == no_token) [
    | true ↦ waits
    | false ↦ ok (record m { pipes = set_at m.pipes id (record { pos = pos; phase = holding }) })
  ]
  pipe_phase holding m id pos = do
    (ctx, store) ← run_task m pos (m.ctxs pos) (m.ctxs pos).st
    ok (record m {
      ctxs = set_context m.ctxs pos ctx;
      store = store;
      tokens = add_token m.tokens id;
      pipes = set_at m.pipes id (record { pos = pos + 1; phase = fetching });
    })

  unfoldable pub pipe_thread : ℕ → Machine → Result Machine
  pipe_thread id m = elim (ltb 0 id && leb id m.num_pipes) [
    | true ↦ pipe_phase (m.pipes id).phase m id (m.pipes id).pos
    | false ↦ waits
  ]

  unfoldable pub worker_phase : WorkerPhase → Machine → ℕ → Worker → Result Machine
  worker_phase taking m id w =
      let task_id = wrap (1 + m.num_fetched) in
      let phase = if ltb m.num_tasks task_id then estimating else submitting in
      ok (record (set_worker m id (record w { phase = phase; task_id = task_id })) {
        num_fetched = task_id;
      })
  worker_phase submitting m id w = elim (ltb w.cached_submit w.task_id) [
    | true ↦ ok (set_worker m id (record w { cached_submit = m.num_submitted }))
    | false ↦ ok (set_worker m id (record w { phase = deciding; stage = 1 }))
  ]
  worker_phase deciding m id w = stage_head (m.ctxs w.task_id).st m id w
  worker_phase depending m id w = do
    vdep ← past_version (look m.store (m.ctxs w.task_id).t_past)
    elim (leb vdep m.num_committed) [
      | true ↦ finish_stage m id w (execute_to_complete fuel m.store (m.ctxs w.task_id))
      | false ↦ ok (set_worker m id (record w { phase = working }))
    ]
  worker_phase working m id w = do
    vdep ← past_version (look m.store (m.ctxs w.task_id).t_past)
    elim (leb (m.ctxs vdep).stage w.stage) [
      | true ↦ waits
      | false ↦
          finish_stage m id w (execute_one_step fuel m.num_committed m.store (m.ctxs w.task_id))
    ]
  worker_phase estimating m id w =
      let phase = if leb w.task_id m.num_tasks then taking else stopped in
      elim (leb w.block_end w.task_id) [
        | false ↦ ok (set_worker m id (record w { phase = phase }))
        | true ↦
            let start = wrap (w.block_start + m.num_workers * m.block_size) in
            ok
              (record (set_worker m id (record w {
                phase = phase;
                block_count = wrap (w.block_count + 1);
                block_start = start;
                block_end = min (wrap (start + m.block_size + u64_mod - 1)) m.num_tasks;
              })) { num_estimated = set_at m.num_estimated (id - 1) (wrap (w.block_count + 1)) })
      ]
  worker_phase stopped m id w = waits

  unfoldable pub worker_thread : ℕ → Machine → Result Machine
  worker_thread id m = elim (ltb 0 id && leb id m.num_workers) [
    | true ↦ worker_phase (m.workers id).phase m id (m.workers id)
    | false ↦ waits
  ]

  unfoldable pub step : Turn → Machine → Result Machine
  step Turn.master m = init_context m
  step (Turn.pipe id) m = pipe_thread id m
  step (Turn.worker id) m = worker_thread id m
  step Turn.boarder m = boarder_thread m
  step Turn.collector m = collector_thread m

  -- The turns that the threads take.
  unfoldable pub run : List Turn → Machine → Result Machine
  run [] m = ok m
  run (t ∷ turns) m = do m' ← step t m; run turns m'
