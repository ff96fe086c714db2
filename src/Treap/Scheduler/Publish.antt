-- ===== src/Treap/Scheduler/Publish.antt =====
-- `boarder_thread_` and `collector_thread_` keep the invariant.
use contreap.Prelude.{
  ℕ, ◌+◌, ◌≡◌, ◌<◌, ◌≤◌, inl, inr, refl, ap, true, arith, ◌&&◌, ==→eq, Bool-cases, ltb, leb, wrap,
  u64_mod,
}
use mathlib.Core.Path.{subst}
use contreap.Tree.{Tree}
use contreap.Treap.Node.{Cell}
use contreap.Treap.Scheduler.Task.{Context, st_done, stage_done}
use contreap.Treap.Scheduler.Ghost.{Ghost}
use contreap.Treap.Scheduler.Machine.{Worker, Machine}
use contreap.Treap.Scheduler.Threads.{boarder_thread, collector_thread, is_done}
use contreap.Treap.Scheduler.Protocol.{WorkerKnows, IsValid, Valid}
use contreap.Treap.Scheduler.Tokens.{arrived_le}
use contreap.Treap.Scheduler.Change.{Status-cases}
use contreap.Treap.Scheduler.Outcome.{Then}
use contreap.Treap.Scheduler.Order.{HasFlow, fits_tasks}

pub WorkerKnows-more :
    (num_pipes submitted submitted' fetched fetched' : ℕ) (ctxs : ℕ → Context) (g : Ghost)
    (w : Worker)
    → submitted ≤ submitted'
    → fetched ≤ fetched'
    → WorkerKnows num_pipes submitted fetched ctxs g w
    → WorkerKnows num_pipes submitted' fetched' ctxs g w
WorkerKnows-more num_pipes submitted submitted' fetched fetched' ctxs g w le le' k = record {
  cached = omega (arith, k.cached);
  has_fetched = λ e. let h = k.has_fetched e in (h.0, omega (arith, h.1));
  is_submitted = λ e. let h = k.is_submitted e in omega arith;
  positive = k.positive;
  staged = k.staged;
  runs = k.runs;
  fresh = k.fresh;
}

module _ (np nt : ℕ) (fits : nt + 2 < u64_mod) (fuel : ℕ) (shallow : fuel + 1 < stage_done)
    (version : ℕ → Tree Cell) (steps : ℕ) (m : Machine) (h : HasFlow np nt m) (g : Ghost)
    (v : IsValid fuel version steps m g) where
  pub boarder_thread-Valid : Then (Valid fuel version (steps + 1)) (boarder_thread m)
  unfolding boarder_thread
  boarder_thread-Valid =
      let (p, t, flow) = h in
      elim (Bool-cases (ltb m.local_submitted m.num_tasks && ltb 0 (m.tokens m.num_pipes))) [
        | inr e ↦ rw (e, boarder_thread) tt
        | inl e ↦
            let few =
              arrived_le m.num_pipes m.num_tasks m.num_issued m.pipes m.tokens m.local_submitted
                flow m.num_pipes (omega arith) in
            let more : m.local_submitted ≤ wrap (m.local_submitted + m.tokens m.num_pipes) =
              ground (arith, flow.last, few, flow.issued_le, fits_tasks np nt fits m h) in
            rw (e, boarder_thread)
              (
                g,
                record {
                  inv = v.inv;
                  marks = v.marks;
                  depths = v.depths;
                  workers = record {
                    knows = λ id.
                        WorkerKnows-more m.num_pipes m.local_submitted _ m.num_fetched m.num_fetched
                          m.ctxs g (m.workers id) more (omega arith) (v.workers.knows id);
                    apart = v.workers.apart;
                    unfetched = v.workers.unfetched;
                  };
                  submits = refl;
                  commits = v.commits;
                  counted = omega (arith, v.counted);
                },
              )
      ]

  -- A context with the last stage is done.
  done_context : (i : ℕ) → 0 < i → is_done (m.ctxs i) ≡ true → (m.ctxs i).st ≡ st_done
  done_context i pos e = elim (Status-cases (m.ctxs i).st) [
    | inr is_done ↦ is_done
    | inl run ↦
        let last : (m.ctxs i).stage ≡ stage_done = ==→eq (m.ctxs i).stage stage_done e in
        elim (Bool-cases (leb i m.num_issued)) [
          | inr gt ↦
              let blank = ap (λ (c : Context). c.stage) (v.marks.blank i (ground (arith, gt))) in
              absurd (omega (arith, blank, last, shallow))
          | inl le ↦
              let le' : i ≤ m.num_issued = ground (arith, le) in
              let r = v.inv.tasks i pos le' run in
              elim (v.marks.staged i pos le' run) [
                | inl zero_stage ↦ absurd (omega (arith, zero_stage, last, shallow))
                | inr few ↦ absurd (omega (arith, few, last, r.bounded, shallow))
              ]
        ]
  ]

  pub collector_thread-Valid : Then (Valid fuel version (steps + 1)) (collector_thread m)
  unfolding collector_thread
  collector_thread-Valid =
      let c = m.collector in
      elim (Bool-cases
        (ltb c.next_committable m.num_tasks && is_done (m.ctxs (c.next_committable + 1)))) [
          | inl e ↦
              let more = done_context (c.next_committable + 1) (omega arith) (ground (arith, e)) in
              rw (e, collector_thread)
                (
                  g,
                  record {
                    inv = v.inv;
                    marks = v.marks;
                    depths = v.depths;
                    workers = v.workers;
                    submits = v.submits;
                    commits = record {
                      local = v.commits.local;
                      ordered = omega (arith, v.commits.ordered);
                      all_done = λ j pos le. elim (Bool-cases (leb j c.next_committable)) [
                        | inl old ↦ v.commits.all_done j pos (ground arith)
                        | inr new ↦
                            let at_j : c.next_committable + 1 ≡ j = ground arith in
                            subst (λ x. (m.ctxs x).st ≡ st_done) at_j more
                      ];
                    };
                    counted = omega (arith, v.counted);
                  },
                )
          | inr e ↦ elim (Bool-cases (ltb c.local_committed c.next_committable)) [
            | inl f ↦
                rw (e, f, collector_thread)
                  (
                    g,
                    record {
                      inv = v.inv;
                      marks = v.marks;
                      depths = v.depths;
                      workers = v.workers;
                      submits = v.submits;
                      commits = record {
                        local = refl;
                        ordered = omega arith;
                        all_done = v.commits.all_done;
                      };
                      counted = omega (arith, v.counted);
                    },
                  )
            | inr f ↦ rw (e, f, collector_thread) tt
          ]
        ]
