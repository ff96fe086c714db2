-- ===== src/Treap/Scheduler/Mastering.antt =====
-- `init_context_` keeps the invariant.
use contreap.Prelude.{
  ℕ, suc, ◌+◌, ◌-◌, ◌≡◌, ◌<◌, ◌≤◌, inl, inr, refl, ◌∙◌, sym, ap, true, false, arith, ◌==◌, ==→eq,
  Bool-cases, ltb, wrap, u64_mod,
}
use mathlib.Core.Path.{subst}
use contreap.Tree.{Tree, size}
use contreap.Treap.Node.{Cell}
use contreap.Treap.Scheduler.Store.{Store}
use contreap.Treap.Scheduler.Task.{Context, st_running}
use contreap.Treap.Scheduler.Ghost.{Ghost}
use contreap.Treap.Scheduler.Invariant.{set_context, Inv}
use contreap.Treap.Scheduler.Issue.{begin}
use contreap.Treap.Scheduler.Issuing.{init_op-Issued}
use contreap.Treap.Scheduler.Machine.{Request, Machine, add_token}
use contreap.Treap.Scheduler.Threads.{init_context}
use contreap.Treap.Scheduler.Protocol.{IsValid, Valid, perform, version_of}
use contreap.Treap.Scheduler.Tokens.{arrived_le}
use contreap.Treap.Scheduler.Change.{Marks-change, AllDone-change, Workers-change}
use contreap.Treap.Scheduler.Passing.{AllDone-committed}
use contreap.Treap.Scheduler.Outcome.{Then}
use contreap.Treap.Scheduler.Order.{HasFlow, fits_tasks}

version_of_next :
    (hash : ℕ → ℕ) (program : ℕ → Request) (t0 : Tree Cell) (n : ℕ)
    → version_of hash program t0 (n + 1)
      ≡ perform hash
          (program (n + 1)).op
          (program (n + 1)).elem
          (n + 1)
          (version_of hash program t0 n)
unfolding version_of
version_of_next hash program t0 n =
    let same : n + 1 ≡ suc n = omega arith in
    subst
      (λ x.
        version_of hash program t0 x
        ≡ perform hash (program x).op (program x).elem x (version_of hash program t0 n))
      (sym same) refl

module _ (np nt : ℕ) (fits : nt + 2 < u64_mod) (fuel : ℕ) (hash : ℕ → ℕ) (program : ℕ → Request)
    (t0 : Tree Cell) (steps : ℕ) (m : Machine) (h : HasFlow np nt m) (g : Ghost)
    (v : IsValid fuel (version_of hash program t0) steps m g) where
  abbrev version : ℕ → Tree Cell
  version i = version_of hash program t0 i

  issued-Valid :
      (ctx : Context) (store : Store)
      → (ctx.st ≡ st_running → ctx.stage ≡ 0)
      → Inv fuel version
          (m.num_issued + 1)
          store
          (set_context m.ctxs (m.num_issued + 1) ctx)
          (begin g m.store.next (m.num_issued + 1) (version (m.num_issued + 1)))
      → Valid fuel version (steps + 1) (record m {
        num_issued = m.num_issued + 1;
        ctxs = set_context m.ctxs (m.num_issued + 1) ctx;
        store = store;
        tokens = add_token m.tokens 0;
      })
  issued-Valid ctx store stage inv =
      let (p, t, flow) = h in
      let n = m.num_issued in
      let g' = begin g m.store.next (n + 1) (version (n + 1)) in
      let few = arrived_le m.num_pipes m.num_tasks n m.pipes m.tokens m.local_submitted flow in
      let other : (j : ℕ) → (j == n + 1) ≡ false → g'.depth j ≡ g.depth j = λ j e. rw e refl in
      let self : (n + 1 == n + 1) ≡ true = ground arith in
      let own : g'.depth (n + 1) ≡ 0 = rw self refl in
      let blank = v.marks.blank (n + 1) (omega arith) in
      (
        g',
        record {
          inv = inv;
          marks =
              Marks-change m.num_pipes m.ctxs g (n + 1) ctx g' other n (n + 1) (omega arith)
                (omega arith) (omega arith) (omega arith) (λ lt. refl) (λ run. inl (stage run))
                v.marks;
          depths = record {
            passed = λ k j posk lek posj lt.
                let later : (k == 0) ≡ false = ground arith in
                let behind : (m.pipes k).pos - 1 ≤ n = rw later at (few k lek) in
                let old : (j == n + 1) ≡ false = ground (arith, behind, lt) in
                rw old (v.depths.passed k j posk lek posj lt);
            before = λ k j posk lek lej le run. elim (Bool-cases (j == n + 1)) [
              | inl e ↦
                  let same = ==→eq j (n + 1) e in
                  let zero_depth : g'.depth j ≡ 0 = ap g'.depth same ∙ own in
                  omega (arith, zero_depth)
              | inr e ↦
                  let kept = v.depths.before k j posk lek lej (ground (arith, e)) (rw e at run) in
                  omega (arith, other j e)
            ];
          };
          workers =
              Workers-change m.num_pipes m.ctxs g (n + 1) ctx g' other m.local_submitted
                m.num_fetched m.workers
                (λ w e same.
                  let submitted = (v.workers.knows w).is_submitted e in
                  let issued = few m.num_pipes (omega arith) in
                  absurd (omega (arith, submitted, issued, flow.last, same)))
                (λ w run same. omega (arith, own)) (λ run lt. omega (arith, own)) v.workers;
          submits = v.submits;
          commits = record {
            local = v.commits.local;
            ordered = v.commits.ordered;
            all_done =
                AllDone-change m.num_pipes m.ctxs g (n + 1) ctx g' other
                  m.collector.next_committable (ap (λ (c : Context). c.st) blank)
                  v.commits.all_done;
          };
          counted = omega (arith, v.counted);
        },
      )

  pub init_context-Valid :
      ((i : ℕ) → i ≤ nt → size (version i) ≤ fuel)
      → Then (Valid fuel version (steps + 1)) (init_context fuel hash program m)
  unfolding init_context
  init_context-Valid small = elim (Bool-cases (ltb m.num_issued m.num_tasks)) [
    | inr e ↦ rw (e, init_context) tt
    | inl e ↦
        let (p, t, flow) = h in
        let more : m.num_issued < m.num_tasks = ground (arith, e) in
        let next : wrap (m.num_issued + 1) ≡ m.num_issued + 1 =
          ground (arith, fits_tasks np nt fits m h, more) in
        let all = AllDone-committed m.num_committed m.ctxs m.collector v.commits in
        elim (init_op-Issued fuel hash program version m g v.inv all (omega (arith, t, more))
          (program (m.num_issued + 1)).op (program (m.num_issued + 1)).elem
          (v.marks.blank (m.num_issued + 1) (omega arith))
          (version_of_next hash program t0 m.num_issued)
          (small (m.num_issued + 1) (omega (arith, t, more)))) [
            | inl w ↦ rw (e, init_context, next, w) tt
            | inr (ctx, store, made, stage, inv) ↦
                rw (e, init_context, next, made) (issued-Valid ctx store stage inv)
          ]
  ]
