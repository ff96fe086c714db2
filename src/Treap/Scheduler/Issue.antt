-- ===== src/Treap/Scheduler/Issue.antt =====
-- `init_context_`: a new task keeps the invariant.
use contreap.Prelude.{
  ℕ, ◌+◌, ◌≡◌, ◌<◌, ◌≤◌, inl, inr, refl, ◌∙◌, sym, ap, true, false, arith, ==→eq, ◌==◌, Bool-cases,
  if◌then◌else◌,
}
use mathlib.Core.Path.{subst}
use contreap.Tree.{Tree, node, size}
use contreap.Treap.Node.{Cell}
use contreap.Treap.Scheduler.Store.{at, Node, Store, alloc}
use contreap.Treap.Scheduler.Task.{Context, st_running, st_done, goes_left, Placed}
use contreap.Treap.Scheduler.Ghost.{
  Ghost, lch_of, rch_of, value, Good, IsNode, Grows, Good-Grows, value-Grows, Pending,
}
use contreap.Treap.Scheduler.Invariant.{
  set_context, IsRunning, IsOwned, IsRoot, Inv, IsRoot-Grows, IsNode-Grows, IsRunning-Grows,
  Pending-Grows,
}
use contreap.Treap.Scheduler.Placing.{IsPlaced}
use contreap.Treap.Scheduler.Filling.{alloc_old, alloc_new, alloc_next}
use contreap.Treap.Scheduler.Attach.{Pending-root}

-- The task `i` starts, and the next node will lead to `t`.
abbrev pub begin : Ghost → ℕ → ℕ → Tree Cell → Ghost
begin g next i t = record {
  final = λ j. if j == next then t else g.final j;
  closed = λ j. if j == next then false else g.closed j;
  birth = λ j. if j == next then 0 else g.birth j;
  depth = λ j. if j == i then 0 else g.depth j;
}

Grows-begin_same :
    (s : Store) (g : Ghost) (i : ℕ) (t : Tree Cell) → Grows s g s (begin g s.next i t)
Grows-begin_same s g i t = record {
  next = omega arith;
  cell = λ a lt. refl;
  final = λ a lt. ground arith;
  birth = λ a lt. ground arith;
  closed = λ a lt c. ground arith;
  filled = λ a lt c. refl;
}

Grows-begin_new :
    (s : Store) (g : Ghost) (i : ℕ) (t : Tree Cell) (c : Cell)
    → Grows s g (alloc s c) (begin g s.next i t)
Grows-begin_new s g i t c = record {
  next = omega (arith, alloc_next s c);
  cell = λ a lt. ap (λ (n : Node). n.cell) (alloc_old s c a lt);
  final = λ a lt. ground arith;
  birth = λ a lt. ground arith;
  closed = λ a lt h. ground arith;
  filled = λ a lt h. alloc_old s c a lt;
}

module _ (fuel : ℕ) (version : ℕ → Tree Cell) (issued : ℕ) (s : Store) (ctxs : ℕ → Context)
    (g : Ghost) (inv : Inv fuel version issued s ctxs g) (i : ℕ) (number : i ≡ issued + 1) where
  begin_roots :
      (s' : Store) (t : Tree Cell) (ctx : Context)
      → Grows s g s' (begin g s.next i t)
      → IsRoot s' (begin g s.next i t) i (version i) ctx
      → (j : ℕ) → j ≤ i
      → IsRoot s' (begin g s.next i t) j (version j) (set_context ctxs i ctx j)
  begin_roots s' t ctx grows mine j le = elim (Bool-cases (j == i)) [
    | inl e ↦
        rw e
          (subst (λ x. IsRoot s' (begin g s.next i t) x (version x) ctx) (sym (==→eq j i e)) mine)
    | inr e ↦
        rw e (IsRoot-Grows grows j (version j) (ctxs j) (inv.roots j (ground (arith, number))))
  ]

  begin_task :
      (s' : Store) (t : Tree Cell) (ctx : Context) (j : ℕ)
      → Grows s g s' (begin g s.next i t)
      → (j == i) ≡ false
      → 0 < j
      → j ≤ i
      → (ctxs j).st ≡ st_running
      → IsRunning fuel s' (begin g s.next i t) j (ctxs j)
  begin_task s' t ctx j grows ne pos le run =
      let q = inv.tasks j pos (ground (arith, number)) run in
      IsRunning-Grows grows fuel j (ctxs j) q (ground (arith, q.opened, q.valid)) (ground arith)

  begin_owner :
      (s' : Store) (t : Tree Cell) (ctx : Context) (b : ℕ)
      → Grows s g s' (begin g s.next i t)
      → b < s.next
      → g.closed b ≡ false
      → IsOwned i (set_context ctxs i ctx) b (s'.nodes b).cell.ver
  begin_owner s' t ctx b grows lt c =
      let o = inv.owners b lt c in
      let ver : (s'.nodes b).cell.ver ≡ (s.nodes b).cell.ver =
        ap (λ (c : Cell). c.ver) (grows.cell b lt) in
      let not_i : ((s.nodes b).cell.ver == i) ≡ false = ground (arith, number, o.issued_already) in
      rw ver (record {
        positive = o.positive;
        issued_already = omega (arith, number, o.issued_already);
        running = rw not_i o.running;
        cur = rw not_i o.cur;
      })

  -- A task that is done at once.
  pub begin_done :
      (ctx : Context) (t : Tree Cell)
      → ctx.st ≡ st_done
      → value g ctx.root ≡ version i
      → Good s g i 0 ctx.root
      → Inv fuel version i s (set_context ctxs i ctx) (begin g s.next i t)
  begin_done ctx t is_done v good =
      let grows = Grows-begin_same s g i t in
      record {
        nodes = λ a lt. IsNode-Grows grows fuel a lt (λ c. ground arith) (inv.nodes a lt);
        owners = λ a lt c. begin_owner s t ctx a grows lt (ground arith);
        tasks = λ j pos le run. elim (Bool-cases (j == i)) [
          | inl e ↦ let run' = rw e at run in cc
          | inr e ↦ rw e (begin_task s t ctx j grows e pos le (rw e at run))
        ];
        roots = begin_roots s t ctx grows (record {
          final = value-Grows grows i 0 ctx.root good ∙ v;
          good = Good-Grows grows i 0 ctx.root good;
        });
      }

  -- A task that has made its root and has still to fill it.
  pub begin_new :
      (ctx : Context) (cell : Cell) (lch rch : Tree Cell)
      → ctx.st ≡ st_running
      → ctx.ver ≡ i
      → cell.ver ≡ i
      → version i ≡ node cell lch rch
      → size (version i) ≤ fuel
      → Pending ctx.fn s g (goes_left ctx.dir) 0 ctx lch rch
      → Inv fuel version i
          (alloc s cell)
          (set_context ctxs i (record ctx { root = at s.next; t_cur = at s.next }))
          (begin g s.next i (version i))
  begin_new ctx cell lch rch run num ver e small pending =
      let t = version i in
      let s' = alloc s cell in
      let g' = begin g s.next i t in
      let ctx' = record ctx { root = at s.next; t_cur = at s.next } in
      let grows = Grows-begin_new s g i t cell in
      let more : s.next < s'.next = omega (arith, alloc_next s cell) in
      let new_cell = alloc_new s cell in
      let new_ver : (s'.nodes s.next).cell.ver ≡ i = ap (λ (c : Cell). c.ver) new_cell ∙ ver in
      let self : (s.next == s.next) ≡ true = ground arith in
      let mine : (i == i) ≡ true = ground arith in
      let new_final : g'.final s.next ≡ t = rw self refl in
      let new_birth : g'.birth s.next ≡ 0 = rw self refl in
      let new_closed : g'.closed s.next ≡ false = rw self refl in
      let new_depth : g'.depth i ≡ 0 = rw mine refl in
      let fresh : IsNode fuel s' g' s.next = record {
        shape = rw (new_final, new_cell, ap lch_of e, ap rch_of e) e;
        small = rw new_final small;
        filled = λ c. cc;
      } in
      record {
        nodes = λ a lt. elim (Bool-cases (a == s.next)) [
          | inl new ↦ subst (IsNode fuel s' g') (sym (==→eq a s.next new)) fresh
          | inr old ↦
              let before : a < s.next = ground (arith, alloc_next s cell) in
              IsNode-Grows grows fuel a before (λ c. ground arith) (inv.nodes a before)
        ];
        owners = λ a lt c. elim (Bool-cases (a == s.next)) [
          | inl new ↦
              let same = ==→eq a s.next new in
              rw (ap (λ x. (s'.nodes x).cell.ver) same ∙ new_ver) (record {
                positive = omega (arith, number);
                issued_already = omega arith;
                running = rw mine run;
                cur = rw mine (ap at (sym same));
              })
          | inr old ↦
              let before : a < s.next = ground (arith, alloc_next s cell) in
              begin_owner s' t ctx' a grows before (ground arith)
        ];
        tasks = λ j pos le run'. elim (Bool-cases (j == i)) [
          | inr other ↦ rw other (begin_task s' t ctx' j grows other pos le (rw other at run'))
          | inl same ↦ rw same (
              subst (λ x. IsRunning fuel s' g' x ctx') (sym (==→eq j i same))
                (record {
                  addr = s.next;
                  cur = refl;
                  valid = more;
                  opened = new_closed;
                  born = new_birth ∙ sym new_depth;
                  version = new_ver;
                  numbered = num;
                  bounded = rw (new_final, new_depth) (omega arith);
                  pending =
                      rw (new_final, new_depth, ap lch_of e, ap rch_of e)
                        (Pending-root ctx.fn s' g' (goes_left ctx.dir) 0 ctx lch rch (at s.next)
                          (at s.next)
                          (Pending-Grows grows ctx.fn (goes_left ctx.dir) 0 ctx lch rch pending));
                }))
        ];
        roots =
            begin_roots s' t ctx' grows
              (record { final = new_final; good = (more, omega (arith, new_ver), inr new_birth) });
      }

  -- What `update_` gives is the root of the new task.
  pub begin_placed :
      (ctx : Context) (q : Placed)
      → ctx.ver ≡ i
      → size (version i) ≤ fuel
      → IsPlaced s g 0 (version i) ctx q
      → Inv fuel version i q.store
          (set_context ctxs i (record q.ctx { root = q.ptr; t_cur = q.ptr }))
          (begin g s.next i (version i))
  begin_placed ctx q num small (inl new) =
      subst
        (λ st.
          Inv fuel version i st (set_context ctxs i (record q.ctx { root = q.ptr; t_cur = q.ptr }))
            (begin g s.next i (version i)))
        (sym new.store)
        (subst
          (λ p.
            Inv fuel version i (alloc s new.cell)
              (set_context ctxs i (record q.ctx { root = p; t_cur = p }))
              (begin g s.next i (version i)))
          (sym new.ptr)
          (begin_new q.ctx new.cell new.lch new.rch new.running (new.same.ver ∙ num)
            (new.version ∙ num) new.final small new.pending))
  begin_placed ctx q num small (inr whole) =
      subst
        (λ st.
          Inv fuel version i st (set_context ctxs i (record q.ctx { root = q.ptr; t_cur = q.ptr }))
            (begin g s.next i (version i)))
        (sym whole.store)
        (begin_done (record q.ctx { root = q.ptr; t_cur = q.ptr }) (version i) whole.is_done
          whole.final (subst (λ v. Good s g v 0 q.ptr) num whole.good))
