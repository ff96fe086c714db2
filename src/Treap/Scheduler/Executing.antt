-- ===== src/Treap/Scheduler/Executing.antt =====
-- A worker that executes its task keeps the invariant.
use contreap.Prelude.{
  ℕ, ◌+◌, ◌≡◌, ◌<◌, ◌≤◌, inl, inr, refl, sym, ap, true, arith, ◌==◌, ==→eq, Bool-cases, u64_mod,
}
use mathlib.Core.Path.{subst}
use contreap.Tree.{Tree}
use contreap.Treap.Node.{Cell}
use contreap.Treap.Scheduler.Store.{at, Store, ok}
use contreap.Treap.Scheduler.Task.{Context, st_running, st_done}
use contreap.Treap.Scheduler.Ghost.{Ghost}
use contreap.Treap.Scheduler.Invariant.{set_context, Inv}
use contreap.Treap.Scheduler.Machine.{deciding, Machine}
use contreap.Treap.Scheduler.Threads.{set_worker}
use contreap.Treap.Scheduler.Protocol.{Beyond, arrived, IsValid, Valid, has_task, in_stage}
use contreap.Treap.Scheduler.Change.{
  AllDone-change, Workers-turn, executes-has_task, in_stage-executes,
}
use contreap.Treap.Scheduler.Tokens.{arrived_le}
use contreap.Treap.Scheduler.Passing.{arrived_pos}
use contreap.Treap.Scheduler.Outcome.{Then}
use contreap.Treap.Scheduler.Order.{HasFlow}
use contreap.Treap.Scheduler.Store.{look}
use contreap.Treap.Scheduler.Task.{execute_one_step, execute_to_complete}
use contreap.Treap.Scheduler.Advance.{advance}
use contreap.Treap.Scheduler.Settled.{Marked}
use contreap.Treap.Scheduler.Steps.{execute_one_step-Stepped}
use contreap.Treap.Scheduler.Complete.{execute_to_complete-Stepped}
use contreap.Treap.Scheduler.Dependence.{may_read, has_settled, past_version_lem}
use contreap.Treap.Scheduler.Threads.{past_version, finish_stage}
use contreap.Treap.Scheduler.Change.{
  Status-cases, depth_own, depth_other, Marks-step, Beyond-step, running_before,
}
use contreap.Treap.Scheduler.Passing.{AllDone-committed}
use contreap.Treap.Scheduler.Working.{others}

module _ (np nt : ℕ) (fits : nt + 2 < u64_mod) (fuel : ℕ) (version : ℕ → Tree Cell) (steps : ℕ)
    (m : Machine) (h : HasFlow np nt m) (g : Ghost) (v : IsValid fuel version steps m g) (id : ℕ)
    (staying : in_stage (m.workers id).phase ≡ true) where
  module _ (run : (m.ctxs (m.workers id).task_id).st ≡ st_running) where
    busy : has_task (m.workers id).phase ≡ true
    busy = executes-has_task (m.workers id).phase (in_stage-executes (m.workers id).phase staying)

    positive : 0 < (m.workers id).task_id
    positive = ((v.workers.knows id).has_fetched busy).0

    submitted_arrived : (m.workers id).task_id ≤ arrived m.num_issued m.pipes m.num_pipes
    submitted_arrived =
        let (p, t, flow) = h in
        let few =
          (v.workers.knows id).is_submitted (in_stage-executes (m.workers id).phase staying) in
        omega (arith, flow.last)

    issued : (m.workers id).task_id ≤ m.num_issued
    issued =
        let (p, t, flow) = h in
        let few =
          arrived_le m.num_pipes m.num_tasks m.num_issued m.pipes m.tokens m.local_submitted flow
            m.num_pipes (omega arith) in
        omega (arith, submitted_arrived)

    at_depth : g.depth (m.workers id).task_id + 1 ≡ m.num_pipes + (m.workers id).stage
    at_depth = (v.workers.knows id).staged (in_stage-executes (m.workers id).phase staying) run

    abbrev finished : Context × Store → Machine
    finished x =
        record (set_worker m id
          (record (m.workers id) { phase = deciding; stage = (m.workers id).stage + 1 })) {
            ctxs = set_context m.ctxs (m.workers id).task_id x.0;
            store = x.1;
          }

    finish_stepped :
        (ctx : Context) (store : Store) (next a : ℕ) (t : Tree Cell)
        → Inv fuel version m.num_issued store
            (set_context m.ctxs (m.workers id).task_id ctx)
            (advance g next a (m.workers id).task_id t)
        → Marked (m.ctxs (m.workers id).task_id) ctx
        → Valid fuel version (steps + 1) (finished (ctx, store))
    finish_stepped ctx store next a t keeps marked =
        let (p, e, flow) = h in
        let k = v.workers.knows id in
        let w = m.workers id in
        let i = w.task_id in
        let runs = in_stage-executes w.phase staying in
        let (pos, few) = k.has_fetched busy in
        let g' = advance g next a i t in
        let own =
          depth_own m.num_pipes m.num_issued m.ctxs g i ctx next a t positive issued run marked in
        let other =
          depth_other m.num_pipes m.num_issued m.ctxs g i ctx next a t positive issued run marked in
        let later =
          Beyond-step m.num_pipes m.num_issued m.ctxs g i ctx next a t positive issued run marked in
        let before =
          running_before m.num_pipes m.num_issued m.ctxs g i ctx next a t positive issued run
            marked in
        let self : (i == i) ≡ true = ground arith in
        (
          g',
          record {
            inv = keeps;
            marks =
                Marks-step m.num_pipes m.num_issued m.ctxs g i ctx next a t positive issued run
                  marked v.marks;
            depths = record {
              passed = λ l j posl lel posj lt. later j l (v.depths.passed l j posl lel posj lt);
              before = λ l j posl lel lej le' run'. elim (Bool-cases (j == i)) [
                | inr ne ↦
                    let kept = v.depths.before l j posl lel lej le' (before j run') in
                    omega (arith, other j ne)
                | inl is_i ↦
                    let same = ==→eq j i is_i in
                    let ahead =
                      arrived_pos m.num_pipes m.num_tasks m.num_issued m.pipes m.tokens
                        m.local_submitted flow l m.num_pipes posl lel (omega arith) in
                    absurd (omega (arith, ahead, submitted_arrived, same))
              ];
            };
            workers =
                Workers-turn m.num_pipes m.ctxs g i ctx g' other m.local_submitted m.num_fetched id
                  m.workers (record w { phase = deciding; stage = w.stage + 1 }) few
                  (λ u ne. others np nt fits fuel version steps m h g v id u ne busy) refl
                  (record {
                    cached = k.cached;
                    has_fetched = λ q. (positive, few);
                    is_submitted = λ q. k.is_submitted runs;
                    positive = λ q. omega arith;
                    staged = λ q run'. omega (arith, own, at_depth);
                    runs = λ q. cc;
                    fresh = λ q f. cc;
                  })
                  v.workers;
            submits = v.submits;
            commits = record {
              local = v.commits.local;
              ordered = v.commits.ordered;
              all_done =
                  AllDone-change m.num_pipes m.ctxs g i ctx g' other m.collector.next_committable
                    run v.commits.all_done;
            };
            counted = omega (arith, v.counted);
          },
        )

    pub finish_complete :
        (vdep : ℕ)
        → past_version (look m.store (m.ctxs (m.workers id).task_id).t_past) ≡ ok vdep
        → vdep ≤ m.num_committed
        → Then (Valid fuel version (steps + 1)) (
            finish_stage m id
              (m.workers id)
              (execute_to_complete fuel m.store (m.ctxs (m.workers id).task_id)))
    unfolding finish_stage
    finish_complete vdep seen le =
        let i = (m.workers id).task_id in
        let all = AllDone-committed m.num_committed m.ctxs m.collector v.commits in
        let r = v.inv.tasks i positive issued run in
        let q =
          execute_to_complete-Stepped fuel version m.num_issued m.num_committed m.store m.ctxs g
            v.inv all i positive issued r run
            (has_settled fuel version m.num_issued m.num_committed m.store m.ctxs g v.inv all i
              positive issued r run (m.ctxs i).fn r.pending vdep seen le) in
        rw q.made (finish_stepped q.ctx q.store m.store.next r.addr q.missing q.keeps q.marked)

    pub finish_one_step :
        (vdep : ℕ)
        → past_version (look m.store (m.ctxs (m.workers id).task_id).t_past) ≡ ok vdep
        → (m.workers id).stage < (m.ctxs vdep).stage
        → Then (Valid fuel version (steps + 1)) (
            finish_stage m id
              (m.workers id)
              (execute_one_step fuel m.num_committed m.store (m.ctxs (m.workers id).task_id)))
    unfolding finish_stage look
    finish_one_step vdep seen lt =
        let i = (m.workers id).task_id in
        let all = AllDone-committed m.num_committed m.ctxs m.collector v.commits in
        let r = v.inv.tasks i positive issued run in
        let owner : (b : ℕ)
            → (m.ctxs i).t_past ≡ at b
            → (m.store.nodes b).cell.ver < i
            → Beyond m.ctxs g (m.store.nodes b).cell.ver (g.depth i + 1) =
          λ b e older.
            let node = m.store.nodes b in
            let dep : node.cell.ver ≡ vdep =
              past_version_lem (look m.store (m.ctxs i).t_past) vdep node.cell node.lch node.rch
                (ap (look m.store) e) seen in
            let lt' : (m.workers id).stage < (m.ctxs node.cell.ver).stage =
              subst (λ x. (m.workers id).stage < (m.ctxs x).stage) (sym dep) lt in
            elim (Status-cases (m.ctxs node.cell.ver).st) [
              | inr is_done ↦ inl is_done
              | inl runs ↦ elim (Bool-cases (node.cell.ver == 0)) [
                | inl z ↦ inl (
                    subst (λ x. (m.ctxs x).st ≡ st_done) (sym (==→eq node.cell.ver 0 z))
                      v.marks.first)
                | inr nz ↦
                    elim (v.marks.staged node.cell.ver (ground arith) (omega (arith, issued))
                      runs) [
                        | inl z ↦ absurd (omega (arith, z, lt'))
                        | inr deep ↦ inr (omega (arith, deep, lt', at_depth))
                      ]
              ]
            ] in
        let ready =
          may_read fuel version m.num_issued m.num_committed m.store m.ctxs g v.inv all i positive
            issued r run (m.ctxs i).fn r.pending owner in
        elim (execute_one_step-Stepped fuel version m.num_issued m.num_committed m.store m.ctxs g
          v.inv all i positive issued r run ready) [
            | inl w ↦ rw w tt
            | inr q ↦
                rw q.made
                  (finish_stepped q.ctx q.store m.store.next r.addr q.missing q.keeps q.marked)
          ]
