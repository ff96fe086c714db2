-- ===== src/Treap/Scheduler/WorkerTurn.antt =====
-- `worker_thread_` keeps the invariant.
use contreap.Prelude.{
  ℕ, ◌+◌, ◌≡◌, ◌<◌, inl, inr, refl, ap, true, false, arith, Bool-cases, ltb, leb, wrap, u64_mod,
}
use contreap.Tree.{Tree}
use contreap.Treap.Node.{Cell}
use contreap.Treap.Scheduler.Store.{ok, waits}
use contreap.Treap.Scheduler.Task.{Status, st_running, st_done}
use contreap.Treap.Scheduler.Ghost.{Ghost}
use contreap.Treap.Scheduler.Machine.{
  WorkerPhase, taking, submitting, deciding, depending, working, estimating, stopped, Machine,
}
use contreap.Treap.Scheduler.Threads.{set_worker, stage_head}
use contreap.Treap.Scheduler.Protocol.{IsValid, Valid, in_stage}
use contreap.Treap.Scheduler.Outcome.{Then}
use contreap.Treap.Scheduler.Order.{HasFlow}
use contreap.Treap.Scheduler.Store.{look}
use contreap.Treap.Scheduler.Task.{execute_one_step, execute_to_complete}
use contreap.Treap.Scheduler.Machine.{Request}
use contreap.Treap.Scheduler.Threads.{worker_phase, worker_thread, past_version, finish_stage}
use contreap.Treap.Scheduler.Working.{
  turn_idle, turn_taking, turn_submitting, turn_submitted, turn_depending, turn_head,
}
use contreap.Treap.Scheduler.Outcome.{Then-bind_from}
use contreap.Prelude.{◌&&◌}
use contreap.Treap.Scheduler.Executing.{finish_complete, finish_one_step}

module _ (np nt : ℕ) (fits : nt + 2 < u64_mod) (fuel : ℕ) (version : ℕ → Tree Cell) (steps : ℕ)
    (small : steps + 1 < u64_mod) (hash : ℕ → ℕ) (program : ℕ → Request) (m : Machine)
    (h : HasFlow np nt m) (g : Ghost) (v : IsValid fuel version steps m g) (id : ℕ) where
  -- The stage that a worker is at, or the end of its loop.
  head-Valid :
      (st : Status)
      → (m.workers id).phase ≡ deciding
      → (m.ctxs (m.workers id).task_id).st ≡ st
      → Then (Valid fuel version (steps + 1)) (stage_head st m id (m.workers id))
  unfolding stage_head
  head-Valid st_done ph e =
      turn_idle np nt fits fuel version steps m h g v id _ m.num_estimated refl refl
  head-Valid st_running ph e = turn_head np nt fits fuel version steps m h g v id ph e

  worker_phase-Valid :
      (phase : WorkerPhase)
      → (m.workers id).phase ≡ phase
      → Then
          (Valid fuel version (steps + 1))
          (worker_phase fuel hash program phase m id (m.workers id))
  unfolding worker_phase
  worker_phase-Valid taking ph = elim (Bool-cases (ltb m.num_tasks (wrap (1 + m.num_fetched)))) [
    | inl e ↦ turn_taking np nt fits fuel version steps m h g v id small _ (rw e refl) refl refl
    | inr e ↦ turn_taking np nt fits fuel version steps m h g v id small _ (rw e refl) refl refl
  ]
  worker_phase-Valid submitting ph =
      elim (Bool-cases (ltb (m.workers id).cached_submit (m.workers id).task_id)) [
        | inl e ↦ rw (e, worker_phase) (turn_submitting np nt fits fuel version steps m h g v id ph)
        | inr e ↦
            rw (e, worker_phase)
              (turn_submitted np nt fits fuel version steps m h g v id ph (ground arith))
      ]
  worker_phase-Valid deciding ph = head-Valid (m.ctxs (m.workers id).task_id).st ph refl
  worker_phase-Valid depending ph =
      let staying : in_stage (m.workers id).phase ≡ true = ap in_stage ph in
      let run = (v.workers.knows id).runs staying in
      Then-bind_from (Valid fuel version (steps + 1))
        (past_version (look m.store (m.ctxs (m.workers id).task_id).t_past))
        (λ vdep. elim (leb vdep m.num_committed) [
          | true ↦
              finish_stage m id (m.workers id)
                (execute_to_complete fuel m.store (m.ctxs (m.workers id).task_id))
          | false ↦ ok (set_worker m id (record (m.workers id) { phase = working }))
        ])
        (λ vdep seen. elim (Bool-cases (leb vdep m.num_committed)) [
          | inl e ↦ rw e (
              finish_complete np nt fits fuel version steps m h g v id staying run vdep seen
                (ground arith))
          | inr e ↦ rw e (turn_depending np nt fits fuel version steps m h g v id ph)
        ])
  worker_phase-Valid working ph =
      let staying : in_stage (m.workers id).phase ≡ true = ap in_stage ph in
      let run = (v.workers.knows id).runs staying in
      Then-bind_from (Valid fuel version (steps + 1))
        (past_version (look m.store (m.ctxs (m.workers id).task_id).t_past))
        (λ vdep. elim (leb (m.ctxs vdep).stage (m.workers id).stage) [
          | true ↦ waits
          | false ↦
              finish_stage m id (m.workers id)
                (execute_one_step fuel m.num_committed m.store (m.ctxs (m.workers id).task_id))
        ])
        (λ vdep seen. elim (Bool-cases (leb (m.ctxs vdep).stage (m.workers id).stage)) [
          | inl e ↦ rw e tt
          | inr e ↦ rw e (
              finish_one_step np nt fits fuel version steps m h g v id staying run vdep seen
                (ground arith))
        ])
  worker_phase-Valid estimating ph =
      let w = m.workers id in
      elim (Bool-cases (leb w.task_id m.num_tasks)) [
        | inl e ↦ elim (Bool-cases (leb w.block_end w.task_id)) [
          | inl f ↦
              rw (f, worker_phase)
                (turn_idle np nt fits fuel version steps m h g v id _ _ (rw e refl) refl)
          | inr f ↦
              rw (f, worker_phase)
                (turn_idle np nt fits fuel version steps m h g v id _ m.num_estimated (rw e refl)
                  refl)
        ]
        | inr e ↦ elim (Bool-cases (leb w.block_end w.task_id)) [
          | inl f ↦
              rw (f, worker_phase)
                (turn_idle np nt fits fuel version steps m h g v id _ _ (rw e refl) refl)
          | inr f ↦
              rw (f, worker_phase)
                (turn_idle np nt fits fuel version steps m h g v id _ m.num_estimated (rw e refl)
                  refl)
        ]
      ]
  worker_phase-Valid stopped ph = tt

  pub worker_thread-Valid :
      Then (Valid fuel version (steps + 1)) (worker_thread fuel hash program id m)
  unfolding worker_thread
  worker_thread-Valid = elim (Bool-cases (ltb 0 id && leb id m.num_workers)) [
    | inr e ↦ rw (e, worker_thread) tt
    | inl e ↦ rw (e, worker_thread) (worker_phase-Valid (m.workers id).phase refl)
  ]
