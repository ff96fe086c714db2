-- ===== src/Treap/Scheduler/Filling.antt =====
-- The writes of a step to the node of its task.
use contreap.Prelude.{
  ℕ, ◌+◌, ◌≡◌, ◌≢◌, ◌<◌, inl, inr, refl, ◌∙◌, sym, ap, Bool, true, false, arith, ==→eq, ◌==◌,
  Bool-cases,
}
use mathlib.Core.Path.{subst}
use contreap.Tree.{Tree}
use contreap.Treap.Node.{Cell}
use contreap.Treap.Scheduler.Store.{Ptr, Node, Store, alloc, child, with_child, put}
use contreap.Treap.Scheduler.Task.{Context}
use contreap.Treap.Scheduler.Ghost.{Ghost, lch_of, rch_of, value, Good, IsNode, Grows}
use contreap.Treap.Scheduler.Invariant.{Inv, IsRoot-Grows, IsNode-Grows, IsRunning-Grows}
use contreap.Treap.Scheduler.Advance.{Wrote}

pub put_here :
    (b : Bool) (s : Store) (a : ℕ) (p : Ptr) → (put b s a p).nodes a ≡ with_child b (s.nodes a) p
unfolding put
put_here b s a p = ground arith

put_other :
    (b : Bool) (s : Store) (a : ℕ) (p : Ptr) (j : ℕ) → j ≢ a → (put b s a p).nodes j ≡ s.nodes j
unfolding put
put_other b s a p j ne = ground arith

pub put_next : (b : Bool) (s : Store) (a : ℕ) (p : Ptr) → (put b s a p).next ≡ s.next
unfolding put
put_next b s a p = refl

pub put_cell :
    (b : Bool) (s : Store) (a : ℕ) (p : Ptr) (j : ℕ)
    → ((put b s a p).nodes j).cell ≡ (s.nodes j).cell
put_cell b s a p j = elim (Bool-cases (j == a)) [
  | inl e ↦
      let same = ==→eq j a e in
      subst (λ x. ((put b s a p).nodes x).cell ≡ (s.nodes x).cell) (sym same)
        (ap (λ (n : Node). n.cell) (put_here b s a p) ∙ with_child_cell b (s.nodes a) p)
  | inr e ↦ ap (λ (n : Node). n.cell) (put_other b s a p j (ground arith))
]
  where
    with_child_cell : (c : Bool) (n : Node) (q : Ptr) → (with_child c n q).cell ≡ n.cell
    with_child_cell true n q = refl
    with_child_cell false n q = refl

pub alloc_old : (s : Store) (c : Cell) (j : ℕ) → j < s.next → (alloc s c).nodes j ≡ s.nodes j
unfolding alloc
alloc_old s c j lt = ground arith

pub alloc_new : (s : Store) (c : Cell) → ((alloc s c).nodes s.next).cell ≡ c
unfolding alloc
alloc_new s c = ground arith

pub alloc_next : (s : Store) (c : Cell) → (alloc s c).next ≡ s.next + 1
unfolding alloc
alloc_next s c = refl

-- A node that is not filled can be written at any time.
pub Grows-put :
    (b : Bool) (s : Store) (g : Ghost) (a : ℕ) (p : Ptr)
    → g.closed a ≡ false
    → Grows s g (put b s a p) g
Grows-put b s g a p opened = record {
  next = omega (arith, put_next b s a p);
  cell = λ j lt. put_cell b s a p j;
  final = λ j lt. refl;
  birth = λ j lt. refl;
  closed = λ j lt c. c;
  filled = λ j lt c. put_other b s a p j (λ same.
      let opened' : g.closed j ≡ false = subst (λ x. g.closed x ≡ false) (sym same) opened in
      cc (opened', c));
}

pub put-Inv :
    (fuel : ℕ) (version : ℕ → Tree Cell) (issued : ℕ) (s : Store) (ctxs : ℕ → Context) (g : Ghost)
    (b : Bool) (a : ℕ) (p : Ptr)
    → g.closed a ≡ false
    → Inv fuel version issued s ctxs g
    → Inv fuel version issued (put b s a p) ctxs g
put-Inv fuel version issued s ctxs g b a p opened inv =
    let grows = Grows-put b s g a p opened in
    record {
      nodes = λ j lt.
          let lt' : j < s.next = omega (arith, put_next b s a p) in
          IsNode-Grows grows fuel j lt' (λ c. c) (inv.nodes j lt');
      owners = λ j lt c. rw (put_cell b s a p j) (inv.owners j (omega (arith, put_next b s a p)) c);
      tasks = λ i pos le run.
          let q = inv.tasks i pos le run in IsRunning-Grows grows fuel i (ctxs i) q q.opened refl;
      roots = λ i le. IsRoot-Grows grows i (version i) (ctxs i) (inv.roots i le);
    }

-- The node is whole once both children lead to its final children.
pub filled-IsNode :
    (fuel : ℕ) (s s' : Store) (g g' : Ghost) (a : ℕ) (pl pr : Ptr)
    → a < s.next
    → Grows s g s' g'
    → Wrote s s' a pl pr
    → IsNode fuel s g a
    → value g' pl ≡ lch_of (g.final a)
    → value g' pr ≡ rch_of (g.final a)
    → Good s' g' (s.nodes a).cell.ver (g.birth a + 1) pl
    → Good s' g' (s.nodes a).cell.ver (g.birth a + 1) pr
    → IsNode fuel s' g' a
filled-IsNode fuel s s' g g' a pl pr valid grows w n vl vr gl gr =
    let final = grows.final a valid in
    let cell = grows.cell a valid in
    let birth = grows.birth a valid in
    let lch : (s'.nodes a).lch ≡ pl = ap (λ (m : Node). m.lch) w.here in
    let rch : (s'.nodes a).rch ≡ pr = ap (λ (m : Node). m.rch) w.here in
    record {
      shape = rw (final, cell) n.shape;
      small = rw final n.small;
      filled = λ c. record {
        lch = rw (lch, final) vl;
        rch = rw (rch, final) vr;
        lch_good = rw (lch, cell, birth) gl;
        rch_good = rw (rch, cell, birth) gr;
      };
    }

-- Writing the last child of a node, where the other one is there already.
pub Wrote-put :
    (b : Bool) (s : Store) (a : ℕ) (p : Ptr)
    → Wrote s (put b s a p) a (child b p (s.nodes a).lch) (child b (s.nodes a).rch p)
Wrote-put true s a p = record {
  next = omega (arith, put_next true s a p);
  end = omega (arith, put_next true s a p);
  here = put_here true s a p;
  others = λ j lt ne. put_other true s a p j ne;
}
Wrote-put false s a p = record {
  next = omega (arith, put_next false s a p);
  end = omega (arith, put_next false s a p);
  here = put_here false s a p;
  others = λ j lt ne. put_other false s a p j ne;
}

pub Wrote-alloc :
    (b : Bool) (s : Store) (a : ℕ) (c : Cell) (p : Ptr)
    → a < s.next
    → Wrote s (put b (alloc s c) a p) a (child b p (s.nodes a).lch) (child b (s.nodes a).rch p)
Wrote-alloc true s a c p lt = record {
  next = omega (arith, put_next true (alloc s c) a p, alloc_next s c);
  end = omega (arith, put_next true (alloc s c) a p, alloc_next s c);
  here =
      put_here true (alloc s c) a p ∙ ap (λ (n : Node). record n { lch = p }) (alloc_old s c a lt);
  others = λ j lt' ne. put_other true (alloc s c) a p j ne ∙ alloc_old s c j lt';
}
Wrote-alloc false s a c p lt = record {
  next = omega (arith, put_next false (alloc s c) a p, alloc_next s c);
  end = omega (arith, put_next false (alloc s c) a p, alloc_next s c);
  here =
      put_here false (alloc s c) a p ∙ ap (λ (n : Node). record n { rch = p }) (alloc_old s c a lt);
  others = λ j lt' ne. put_other false (alloc s c) a p j ne ∙ alloc_old s c j lt';
}
