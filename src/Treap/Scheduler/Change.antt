-- ===== src/Treap/Scheduler/Change.antt =====
-- What the threads know of the tasks, when one task changes.
use contreap.Prelude.{
  ℕ, ◌+◌, ◌≡◌, ◌≢◌, ◌<◌, ◌≤◌, ◌⊎◌, inl, inr, refl, ◌∙◌, sym, true, false, arith, ◌==◌, ==→eq,
  Bool-cases, leb,
}
use mathlib.Core.Path.{subst}
use contreap.Treap.Scheduler.Task.{Status, Context, st_running, st_done}
use contreap.Treap.Scheduler.Ghost.{Ghost}
use contreap.Treap.Scheduler.Invariant.{set_context}
use contreap.Treap.Scheduler.Settled.{AllDone, Marked, ended, going}
use contreap.Treap.Scheduler.Advance.{advance}
use contreap.Tree.{Tree}
use contreap.Treap.Node.{Cell}
use contreap.Treap.Scheduler.Machine.{
  Worker, WorkerPhase, taking, submitting, deciding, depending, working, estimating, stopped,
  set_at,
}
use contreap.Treap.Scheduler.Protocol.{
  Beyond, Marks, WorkerKnows, Workers, has_task, executes, in_stage,
}

pub Status-cases : (st : Status) → (st ≡ st_running) ⊎ (st ≡ st_done)
Status-cases st_running = inl refl
Status-cases st_done = inr refl

pub in_stage-executes : (p : WorkerPhase) → in_stage p ≡ true → executes p ≡ true
in_stage-executes taking e = cc
in_stage-executes submitting e = cc
in_stage-executes deciding e = cc
in_stage-executes depending e = refl
in_stage-executes working e = refl
in_stage-executes estimating e = cc
in_stage-executes stopped e = cc

pub executes-has_task : (p : WorkerPhase) → executes p ≡ true → has_task p ≡ true
executes-has_task taking e = cc
executes-has_task submitting e = cc
executes-has_task deciding e = refl
executes-has_task depending e = refl
executes-has_task working e = refl
executes-has_task estimating e = cc
executes-has_task stopped e = cc

-- One worker changes, and its task is no other worker's.
pub apart_set :
    (workers : ℕ → Worker) (id : ℕ) (w : Worker)
    → ((v : ℕ)
        → v ≢ id
        → has_task w.phase ≡ true
        → has_task (workers v).phase ≡ true
        → (workers v).task_id ≢ w.task_id)
    → ((u v : ℕ)
        → u ≢ v
        → has_task (workers u).phase ≡ true
        → has_task (workers v).phase ≡ true
        → (workers u).task_id ≢ (workers v).task_id)
    → (u v : ℕ) → u ≢ v
    → has_task (set_at workers id w u).phase ≡ true
    → has_task (set_at workers id w v).phase ≡ true
    → (set_at workers id w u).task_id ≢ (set_at workers id w v).task_id
apart_set workers id w new old u v ne = elim (Bool-cases (u == id)) [
  | inl e ↦
      let not_v : (v == id) ≡ false = ground arith in
      rw (e, not_v) (λ f h same. new v (ground arith) f h (sym same))
  | inr e ↦ elim (Bool-cases (v == id)) [
    | inl k ↦ rw (e, k) (λ f h same. new u (ground arith) h f same)
    | inr k ↦ rw (e, k) (old u v ne)
  ]
]

-- The context of the task `i` becomes `ctx`, and only its depth may change.
module _ (num_pipes : ℕ) (ctxs : ℕ → Context) (g : Ghost) (i : ℕ) (ctx : Context) (g' : Ghost)
    (same : (j : ℕ) → (j == i) ≡ false → g'.depth j ≡ g.depth j) where
  pub Marks-change :
      (issued issued' : ℕ)
      → 0 < i
      → i ≤ issued'
      → issued' ≤ issued + 1
      → issued ≤ issued'
      → (issued < issued' → issued' ≡ i)
      → (ctx.st ≡ st_running → (ctx.stage ≡ 0) ⊎ (num_pipes + ctx.stage ≤ g'.depth i + 1))
      → Marks num_pipes issued ctxs g
      → Marks num_pipes issued' (set_context ctxs i ctx) g'
  Marks-change issued issued' pos le few grows new here m = record {
    first = let other : (0 == i) ≡ false = ground arith in rw other m.first;
    blank =
        λ j lt. let other : (j == i) ≡ false = ground arith in rw other (m.blank j (omega arith));
    staged = λ j pos' lej run. elim (Bool-cases (j == i)) [
      | inl e ↦ rw e (
          subst (λ x. (ctx.stage ≡ 0) ⊎ (num_pipes + ctx.stage ≤ g'.depth x + 1))
            (sym (==→eq j i e)) (here (rw e at run)))
      | inr e ↦
          let old : j ≤ issued = elim (Bool-cases (leb j issued)) [
            | inl le' ↦ ground arith
            | inr gt ↦ let at_i = new (ground arith) in absurd (ground (arith, at_i))
          ] in
          rw (e, same j e) (m.staged j pos' old (rw e at run))
    ];
  }

  pub Beyond-change :
      ((k : ℕ) → Beyond ctxs g i k → (ctx.st ≡ st_done) ⊎ (k ≤ g'.depth i))
      → (j k : ℕ) → Beyond ctxs g j k
      → Beyond (set_context ctxs i ctx) g' j k
  Beyond-change later j k b = elim (Bool-cases (j == i)) [
    | inr e ↦ rw (e, same j e) b
    | inl e ↦
        let eq = ==→eq j i e in
        rw e (
          subst (λ x. (ctx.st ≡ st_done) ⊎ (k ≤ g'.depth x)) (sym eq)
            (later k (subst (λ x. Beyond ctxs g x k) eq b)))
  ]

  pub AllDone-change :
      (c : ℕ) → ((ctxs i).st ≡ st_running) → AllDone ctxs c → AllDone (set_context ctxs i ctx) c
  AllDone-change c run all j pos lej = elim (Bool-cases (j == i)) [
    | inr e ↦ rw e (all j pos lej)
    | inl e ↦
        let is_done = subst (λ x. (ctxs x).st ≡ st_done) (==→eq j i e) (all j pos lej) in
        let both : ⊥ = cc (is_done, run) in absurd both
  ]

  -- A worker that does not execute the task knows what it knew.
  pub WorkerKnows-change :
      (submitted fetched : ℕ) (w : Worker)
      → (executes w.phase ≡ true → w.task_id ≢ i)
      → (has_task w.phase ≡ true → ctx.st ≡ st_running → w.task_id ≡ i → g'.depth i ≤ num_pipes)
      → WorkerKnows num_pipes submitted fetched ctxs g w
      → WorkerKnows num_pipes submitted fetched (set_context ctxs i ctx) g' w
  WorkerKnows-change submitted fetched w ne here k = record {
    cached = k.cached;
    has_fetched = k.has_fetched;
    is_submitted = k.is_submitted;
    positive = k.positive;
    staged = λ e run'.
        let other : (w.task_id == i) ≡ false = ground (arith, ne e) in
        rw (same w.task_id other) (k.staged e (rw other at run'));
    runs = λ e.
        let other : (w.task_id == i) ≡ false = ground (arith, ne (in_stage-executes w.phase e)) in
        rw other (k.runs e);
    fresh = λ e f run'. elim (Bool-cases (w.task_id == i)) [
      | inr other ↦ rw (same w.task_id other) (k.fresh e f (rw other at run'))
      | inl is_i ↦
          let eq = ==→eq w.task_id i is_i in
          subst (λ x. g'.depth x ≤ num_pipes) (sym eq) (here e (rw is_i at run') eq)
    ];
  }

  pub Workers-change :
      (submitted fetched : ℕ) (workers : ℕ → Worker)
      → ((id : ℕ) → executes (workers id).phase ≡ true → (workers id).task_id ≢ i)
      → ((id : ℕ) → ctx.st ≡ st_running → (workers id).task_id ≡ i → g'.depth i ≤ num_pipes)
      → (ctx.st ≡ st_running → fetched < i → g'.depth i ≤ num_pipes)
      → Workers num_pipes submitted fetched ctxs g workers
      → Workers num_pipes submitted fetched (set_context ctxs i ctx) g' workers
  Workers-change submitted fetched workers ne here unfetched w = record {
    knows =
        λ id. WorkerKnows-change submitted fetched (workers id) (ne id) (λ e. here id) (w.knows id);
    apart = w.apart;
    unfetched = λ j lt run. elim (Bool-cases (j == i)) [
      | inr e ↦ rw (same j e) (w.unfetched j lt (rw e at run))
      | inl e ↦
          let eq = ==→eq j i e in
          subst (λ x. g'.depth x ≤ num_pipes) (sym eq)
            (unfetched (rw e at run) (subst (λ x. fetched < x) eq lt))
    ];
  }

  -- One worker takes a turn with the task.
  pub Workers-turn :
      (submitted fetched id : ℕ) (workers : ℕ → Worker) (w : Worker)
      → i ≤ fetched
      → ((v : ℕ) → v ≢ id → has_task (workers v).phase ≡ true → (workers v).task_id ≢ i)
      → w.task_id ≡ i
      → WorkerKnows num_pipes submitted fetched (set_context ctxs i ctx) g' w
      → Workers num_pipes submitted fetched ctxs g workers
      → Workers num_pipes submitted fetched (set_context ctxs i ctx) g' (set_at workers id w)
  Workers-turn submitted fetched id workers w few apart mine knows ws = record {
    knows = λ v. elim (Bool-cases (v == id)) [
      | inl e ↦ rw e knows
      | inr e ↦
          let ne : v ≢ id = ground arith in
          rw e (
            WorkerKnows-change submitted fetched (workers v)
              (λ ex. apart v ne (executes-has_task (workers v).phase ex))
              (λ ex run' same'. absurd (apart v ne ex same')) (ws.knows v))
    ];
    apart =
        apart_set workers id w
          (λ v ne e f. subst (λ x. (workers v).task_id ≢ x) (sym mine) (apart v ne f)) ws.apart;
    unfetched = λ j lt run.
        let other : (j == i) ≡ false = ground arith in
        rw (same j other) (ws.unfetched j lt (rw other at run));
  }

-- A step of the task.
module _ (num_pipes issued : ℕ) (ctxs : ℕ → Context) (g : Ghost) (i : ℕ) (ctx : Context)
    (next a : ℕ) (t : Tree Cell) (positive : 0 < i) (le : i ≤ issued)
    (run : (ctxs i).st ≡ st_running) (marked : Marked (ctxs i) ctx) where
  pub depth_other : (j : ℕ) → (j == i) ≡ false → (advance g next a i t).depth j ≡ g.depth j
  depth_other j e = rw e refl

  pub depth_own : (advance g next a i t).depth i ≡ g.depth i + 1
  depth_own = let self : (i == i) ≡ true = ground arith in rw self refl

  pub Marks-step :
      Marks num_pipes issued ctxs g
      → Marks num_pipes issued (set_context ctxs i ctx) (advance g next a i t)
  Marks-step m =
      Marks-change num_pipes ctxs g i ctx (advance g next a i t) depth_other issued issued positive
        le (omega arith) (omega arith) (λ lt. absurd (omega (arith, lt)))
        (λ run'. elim marked [
          | ended is_done s ↦ let both : ⊥ = cc (is_done, run') in absurd both
          | going r s ↦ elim (m.staged i positive le run) [
            | inl z ↦ inl (s ∙ z)
            | inr deep ↦ inr (omega (arith, s, depth_own))
          ]
        ])
        m

  pub Beyond-step :
      (j k : ℕ) → Beyond ctxs g j k → Beyond (set_context ctxs i ctx) (advance g next a i t) j k
  Beyond-step = Beyond-change num_pipes ctxs g i ctx (advance g next a i t) depth_other (λ k b.
      elim b [
        | inl is_done ↦ let both : ⊥ = cc (is_done, run) in absurd both
        | inr deep ↦ inr (omega (arith, depth_own))
      ])

  pub running_before :
      (j : ℕ) → (set_context ctxs i ctx j).st ≡ st_running → (ctxs j).st ≡ st_running
  running_before j run' = elim (Bool-cases (j == i)) [
    | inl e ↦ subst (λ x. (ctxs x).st ≡ st_running) (sym (==→eq j i e)) run
    | inr e ↦ rw e at run'
  ]
