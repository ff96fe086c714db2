-- ===== src/Treap/Scheduler/Advance.antt =====
-- A step that fills the node of a task keeps the invariant.
use contreap.Prelude.{
  ℕ, ◌+◌, ◌≡◌, ◌≢◌, ◌<◌, ◌≤◌, inl, inr, ◌∙◌, sym, ap, true, false, arith, ==→eq, ◌==◌, Bool-cases,
  if◌then◌else◌,
}
use mathlib.Core.Path.{subst}
use contreap.Tree.{Tree}
use contreap.Treap.Node.{Cell}
use contreap.Treap.Scheduler.Store.{Ptr, at, Node, Store}
use contreap.Treap.Scheduler.Task.{Context, st_running}
use contreap.Treap.Scheduler.Ghost.{Ghost, IsNode, Grows}
use contreap.Treap.Scheduler.Invariant.{
  set_context, IsRunning, IsOwned, IsRoot, Inv, IsRoot-Grows, IsNode-Grows, IsRunning-Grows,
}

-- The children of the node `a` are assigned, and at most the next node is new.
pub record Wrote (s s' : Store) (a : ℕ) (pl pr : Ptr) : Type 0 where
  pub next : s.next ≤ s'.next
  pub end : s'.next ≤ s.next + 1
  pub here : s'.nodes a ≡ record { cell = (s.nodes a).cell; lch = pl; rch = pr }
  pub others : (b : ℕ) → b < s.next → b ≢ a → s'.nodes b ≡ s.nodes b

-- The task `i` has filled the node `a`, and the next node will lead to `t`.
abbrev pub advance : Ghost → ℕ → ℕ → ℕ → Tree Cell → Ghost
advance g next a i t = record {
  final = λ j. if j == next then t else g.final j;
  closed = λ j. if j == a then true else if j == next then false else g.closed j;
  birth = λ j. if j == next then g.depth i + 1 else g.birth j;
  depth = λ j. if j == i then g.depth i + 1 else g.depth j;
}

pub Grows-advance :
    (s s' : Store) (g : Ghost) (a i : ℕ) (pl pr : Ptr) (t : Tree Cell)
    → a < s.next
    → g.closed a ≡ false
    → Wrote s s' a pl pr
    → Grows s g s' (advance g s.next a i t)
Grows-advance s s' g a i pl pr t valid opened w = record {
  next = w.next;
  cell = λ b lt. elim (Bool-cases (b == a)) [
    | inl e ↦
        let same = ==→eq b a e in
        subst (λ x. (s'.nodes x).cell ≡ (s.nodes x).cell) (sym same)
          (ap (λ (n : Node). n.cell) w.here)
    | inr e ↦ ap (λ (n : Node). n.cell) (w.others b lt (ground arith))
  ];
  final = λ b lt. ground arith;
  birth = λ b lt. ground arith;
  closed = λ b lt c. ground arith;
  filled = λ b lt c. w.others b lt (λ same.
      let opened' : g.closed b ≡ false = subst (λ x. g.closed x ≡ false) (sym same) opened in
      cc (opened', c));
}

-- What a step of the task `i` from the node `a` has to establish.
pub record Advances (fuel : ℕ) (s s' : Store) (g' : Ghost) (i a : ℕ) (ctx ctx' : Context)
    (pl pr : Ptr) : Type 0 where
  pub wrote : Wrote s s' a pl pr
  pub filled : IsNode fuel s' g' a
  pub fresh : s.next < s'.next → IsNode fuel s' g' s.next
  pub fresh_version : s.next < s'.next → (s'.nodes s.next).cell.ver ≡ i
  pub fresh_running : s.next < s'.next → ctx'.st ≡ st_running
  pub fresh_cur : s.next < s'.next → ctx'.t_cur ≡ at s.next
  pub task : ctx'.st ≡ st_running → IsRunning fuel s' g' i ctx'
  pub root : ctx'.root ≡ ctx.root

module _ (fuel : ℕ) (version : ℕ → Tree Cell) (issued : ℕ) (s s' : Store) (ctxs : ℕ → Context)
    (g : Ghost) (inv : Inv fuel version issued s ctxs g) (i : ℕ) (positive : 0 < i)
    (le : i ≤ issued) (r : IsRunning fuel s g i (ctxs i)) where
  -- No other task has that node.
  owner_unique :
      (j : ℕ) → 0 < j → j ≤ issued → (q : IsRunning fuel s g j (ctxs j)) → j ≢ i → q.addr ≢ r.addr
  owner_unique j pos lej q ne e = ne (sym q.version ∙ ap (λ x. (s.nodes x).cell.ver) e ∙ r.version)

  module _ (ctx' : Context) (pl pr : Ptr) (t : Tree Cell)
      (h : Advances fuel s s' (advance g s.next r.addr i t) i r.addr (ctxs i) ctx' pl pr) where
    grows : Grows s g s' (advance g s.next r.addr i t)
    grows = Grows-advance s s' g r.addr i pl pr t r.valid r.opened h.wrote

    advance_nodes : (b : ℕ) → b < s'.next → IsNode fuel s' (advance g s.next r.addr i t) b
    advance_nodes b lt = elim (Bool-cases (b == r.addr)) [
      | inl e ↦
          subst (IsNode fuel s' (advance g s.next r.addr i t)) (sym (==→eq b r.addr e)) h.filled
      | inr e ↦ elim (Bool-cases (b == s.next)) [
        | inl new ↦
            let same = ==→eq b s.next new in
            subst (IsNode fuel s' (advance g s.next r.addr i t)) (sym same)
              (h.fresh (omega (arith, same)))
        | inr old ↦
            let before : b < s.next = ground (arith, h.wrote.end) in
            IsNode-Grows grows fuel b before (λ c. ground arith) (inv.nodes b before)
      ]
    ]

    advance_owners :
        (b : ℕ)
        → b < s'.next
        → (advance g s.next r.addr i t).closed b ≡ false
        → IsOwned issued (set_context ctxs i ctx') b (s'.nodes b).cell.ver
    advance_owners b lt c = elim (Bool-cases (b == s.next)) [
      | inl new ↦
          let same = ==→eq b s.next new in
          let more : s.next < s'.next = omega (arith, same) in
          let ver : (s'.nodes b).cell.ver ≡ i =
            ap (λ x. (s'.nodes x).cell.ver) same ∙ h.fresh_version more in
          let self : (i == i) ≡ true = ground arith in
          rw ver (record {
            positive = positive;
            issued_already = le;
            running = rw self (h.fresh_running more);
            cur = rw self (h.fresh_cur more ∙ ap at (sym same));
          })
      | inr old ↦
          let before : b < s.next = ground (arith, h.wrote.end) in
          let not_a : (b == r.addr) ≡ false = ground arith in
          let c' : g.closed b ≡ false = ground arith in
          let o = inv.owners b before c' in
          let ver : (s'.nodes b).cell.ver ≡ (s.nodes b).cell.ver =
            ap (λ (n : Node). n.cell.ver) (h.wrote.others b before (ground arith)) in
          let not_i : ((s.nodes b).cell.ver == i) ≡ false =
            elim (Bool-cases ((s.nodes b).cell.ver == i)) [
              | inr other ↦ other
              | inl same ↦
                  let e = ==→eq (s.nodes b).cell.ver i same in
                  let cur : (ctxs i).t_cur ≡ at b = subst (λ x. (ctxs x).t_cur ≡ at b) e o.cur in
                  let same_node : b ≡ r.addr = cc (cur, r.cur) in ground arith
            ] in
          rw ver (record {
            positive = o.positive;
            issued_already = o.issued_already;
            running = rw not_i o.running;
            cur = rw not_i o.cur;
          })
    ]

    advance_tasks :
        (j : ℕ)
        → 0 < j
        → j ≤ issued
        → (set_context ctxs i ctx' j).st ≡ st_running
        → IsRunning fuel s' (advance g s.next r.addr i t) j (set_context ctxs i ctx' j)
    advance_tasks j pos lej run = elim (Bool-cases (j == i)) [
      | inl e ↦ rw e (
          subst (λ x. IsRunning fuel s' (advance g s.next r.addr i t) x ctx') (sym (==→eq j i e))
            (h.task (rw e at run)))
      | inr e ↦
          let q = inv.tasks j pos lej (rw e at run) in
          let apart : q.addr ≢ r.addr = owner_unique j pos lej q (ground arith) in
          rw e (
            IsRunning-Grows grows fuel j (ctxs j) q (ground (arith, q.opened, q.valid))
              (ground arith))
    ]

    advance_roots :
        (j : ℕ)
        → j ≤ issued
        → IsRoot s' (advance g s.next r.addr i t) j (version j) (set_context ctxs i ctx' j)
    advance_roots j lej = elim (Bool-cases (j == i)) [
      | inl e ↦
          let old = IsRoot-Grows grows j (version j) (ctxs j) (inv.roots j lej) in
          let same : ctx'.root ≡ (ctxs j).root =
            h.root ∙ ap (λ x. (ctxs x).root) (sym (==→eq j i e)) in
          rw e (record { final = rw same old.final; good = rw same old.good })
      | inr e ↦ rw e (IsRoot-Grows grows j (version j) (ctxs j) (inv.roots j lej))
    ]

    pub advance-Inv :
        Inv fuel version issued s' (set_context ctxs i ctx') (advance g s.next r.addr i t)
    advance-Inv = record {
      nodes = advance_nodes;
      owners = advance_owners;
      tasks = advance_tasks;
      roots = advance_roots;
    }
