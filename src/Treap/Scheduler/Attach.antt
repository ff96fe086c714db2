-- ===== src/Treap/Scheduler/Attach.antt =====
-- A step that puts something in place of the last child of its node keeps the invariant.
use contreap.Prelude.{
  ℕ, ◌+◌, ◌≡◌, ◌<◌, ◌≤◌, inl, inr, refl, ◌∙◌, sym, ap, Bool, true, false, not, arith, ◌==◌,
}
use mathlib.Core.Path.{subst}
use contreap.Tree.{Tree, node, size}
use contreap.Treap.Node.{Cell}
use contreap.Treap.Scheduler.Store.{Ptr, at, Store, alloc, child, put}
use contreap.Treap.Scheduler.Task.{
  Context, Functor, fn_search, fn_setref, fn_concat, st_running, st_done, goes_left, Placed,
}
use contreap.Treap.Scheduler.Ghost.{
  Ghost, lch_of, rch_of, value, Good, IsNode, Good-Grows, value-Grows, Pending,
}
use contreap.Treap.Scheduler.Invariant.{set_context, IsRunning, Inv, Pending-Grows}
use contreap.Treap.Scheduler.Placing.{IsPlaced}
use contreap.Treap.Scheduler.Advance.{Wrote, advance, Grows-advance, advance-Inv}
use contreap.Treap.Scheduler.Filling.{
  put_cell, put_next, alloc_new, alloc_next, filled-IsNode, Wrote-put, Wrote-alloc,
}

-- `root` and `t_cur` play no part in what is pending.
pub Pending-root :
    (fn : Functor) (s : Store) (g : Ghost) (left : Bool) (d : ℕ) (ctx : Context) (l r : Tree Cell)
    (root p : Ptr)
    → Pending fn s g left d ctx l r
    → Pending fn s g left d (record ctx { root = root; t_cur = p }) l r
Pending-root fn_search s g left d ctx l r root p h = record {
  past_good = h.past_good;
  past_cell = h.past_cell;
  past_lch = h.past_lch;
  past_rch = h.past_rch;
  past = h.past;
  kept = h.kept;
  changed = h.changed;
}
Pending-root fn_setref s g left d ctx l r root p h = record {
  past_good = h.past_good;
  past_cell = h.past_cell;
  past = h.past;
}
Pending-root fn_concat s g left d ctx l r root p h = record {
  l_good = h.l_good;
  r_good = h.r_good;
  l_deep = h.l_deep;
  r_deep = h.r_deep;
  part_cell = h.part_cell;
  part_lch = h.part_lch;
  part_rch = h.part_rch;
  part = h.part;
  kept = h.kept;
  changed = h.changed;
}

child_size :
    (left : Bool) (t u : Tree Cell) (c : Cell)
    → t ≡ node c (lch_of t) (rch_of t)
    → child left (lch_of t) (rch_of t) ≡ u
    → size u + 1 ≤ size t
child_size true t u c shape e = omega (arith, ap (size {C = Cell}) shape, ap (size {C = Cell}) e)
child_size false t u c shape e = omega (arith, ap (size {C = Cell}) shape, ap (size {C = Cell}) e)

module _ (fuel : ℕ) (version : ℕ → Tree Cell) (issued : ℕ) (s : Store) (ctxs : ℕ → Context)
    (g : Ghost) (inv : Inv fuel version issued s ctxs g) (i : ℕ) (positive : 0 < i)
    (le : i ≤ issued) (r : IsRunning fuel s g i (ctxs i)) where
  -- The child on the other side is right already, and `t` is what is missing.
  pub record HalfFilled (left : Bool) (t : Tree Cell) : Type 0 where
    pub other_value :
        value g (child (not left) (s.nodes r.addr).lch (s.nodes r.addr).rch)
        ≡ child (not left) (lch_of (g.final r.addr)) (rch_of (g.final r.addr))
    pub other_good :
        Good s g i (g.depth i + 1) (child (not left) (s.nodes r.addr).lch (s.nodes r.addr).rch)
    pub missing : child left (lch_of (g.final r.addr)) (rch_of (g.final r.addr)) ≡ t

  -- The node is whole after the write of `p`.
  attached-IsNode :
      (left : Bool) (t : Tree Cell) (s' : Store) (p : Ptr)
      → HalfFilled left t
      → Wrote s s' r.addr (child left p (s.nodes r.addr).lch) (child left (s.nodes r.addr).rch p)
      → value (advance g s.next r.addr i t) p ≡ t
      → Good s' (advance g s.next r.addr i t) i (g.depth i + 1) p
      → IsNode fuel s' (advance g s.next r.addr i t) r.addr
  attached-IsNode true t s' p h w v good =
      let grows = Grows-advance s s' g r.addr i _ _ t r.valid r.opened w in
      filled-IsNode fuel s s' g (advance g s.next r.addr i t) r.addr p (s.nodes r.addr).rch r.valid
        grows w (inv.nodes r.addr r.valid) (v ∙ sym h.missing)
        (value-Grows grows i (g.depth i + 1) (s.nodes r.addr).rch h.other_good ∙ h.other_value)
        (rw (r.version, r.born) good)
        (rw (r.version, r.born)
          (Good-Grows grows i (g.depth i + 1) (s.nodes r.addr).rch h.other_good))
  attached-IsNode false t s' p h w v good =
      let grows = Grows-advance s s' g r.addr i _ _ t r.valid r.opened w in
      filled-IsNode fuel s s' g (advance g s.next r.addr i t) r.addr (s.nodes r.addr).lch p r.valid
        grows w (inv.nodes r.addr r.valid)
        (value-Grows grows i (g.depth i + 1) (s.nodes r.addr).lch h.other_good ∙ h.other_value)
        (v ∙ sym h.missing)
        (rw (r.version, r.born)
          (Good-Grows grows i (g.depth i + 1) (s.nodes r.addr).lch h.other_good))
        (rw (r.version, r.born) good)

  -- A whole tree is written, and the task is done.
  pub attach_whole :
      (left : Bool) (t : Tree Cell) (ctx : Context) (p : Ptr)
      → HalfFilled left t
      → value g p ≡ t
      → Good s g i (g.depth i + 1) p
      → ctx.st ≡ st_done
      → ctx.root ≡ (ctxs i).root
      → Inv fuel version issued
          (put left s r.addr p)
          (set_context ctxs i ctx)
          (advance g s.next r.addr i t)
  attach_whole left t ctx p h v good is_done root =
      let w = Wrote-put left s r.addr p in
      let grows = Grows-advance s (put left s r.addr p) g r.addr i _ _ t r.valid r.opened w in
      let same = put_next left s r.addr p in
      advance-Inv fuel version issued s (put left s r.addr p) ctxs g inv i positive le r ctx _ _ t
        (record {
          wrote = w;
          filled =
              attached-IsNode left t (put left s r.addr p) p h w
                (value-Grows grows i (g.depth i + 1) p good ∙ v)
                (Good-Grows grows i (g.depth i + 1) p good);
          fresh = λ more. absurd (omega arith);
          fresh_version = λ more. absurd (omega arith);
          fresh_running = λ more. absurd (omega arith);
          fresh_cur = λ more. absurd (omega arith);
          task = λ running. cc;
          root = root;
        })

  -- A new node is written, which the task fills in its next step.
  pub attach_new :
      (left : Bool) (t : Tree Cell) (ctx ctx' : Context) (cell : Cell) (lch rch : Tree Cell)
      → HalfFilled left t
      → cell.ver ≡ i
      → t ≡ node cell lch rch
      → ctx'.st ≡ st_running
      → ctx'.ver ≡ i
      → ctx'.root ≡ (ctxs i).root
      → Pending ctx'.fn s g (goes_left ctx'.dir) (g.depth i + 1) ctx' lch rch
      → Inv fuel version issued
          (put left (alloc s cell) r.addr (at s.next))
          (set_context ctxs i (record ctx' { t_cur = at s.next }))
          (advance g s.next r.addr i t)
  attach_new left t ctx ctx' cell lch rch h ver e run num root pending =
      let s' = put left (alloc s cell) r.addr (at s.next) in
      let g' = advance g s.next r.addr i t in
      let w = Wrote-alloc left s r.addr cell (at s.next) r.valid in
      let grows = Grows-advance s s' g r.addr i _ _ t r.valid r.opened w in
      let more : s.next < s'.next =
        omega (arith, put_next left (alloc s cell) r.addr (at s.next), alloc_next s cell) in
      let new_cell : (s'.nodes s.next).cell ≡ cell =
        put_cell left (alloc s cell) r.addr (at s.next) s.next ∙ alloc_new s cell in
      let new_ver : (s'.nodes s.next).cell.ver ≡ i = ap (λ (c : Cell). c.ver) new_cell ∙ ver in
      let self : (s.next == s.next) ≡ true = ground arith in
      let mine : (i == i) ≡ true = ground arith in
      let new_final : g'.final s.next ≡ t = rw self refl in
      let new_birth : g'.birth s.next ≡ g.depth i + 1 = rw self refl in
      let new_depth : g'.depth i ≡ g.depth i + 1 = rw mine refl in
      let new_closed : g'.closed s.next ≡ false = ground (arith, r.valid) in
      let smaller =
        child_size left (g.final r.addr) t (s.nodes r.addr).cell (inv.nodes r.addr r.valid).shape
          h.missing in
      advance-Inv fuel version issued s s' ctxs g inv i positive le r
        (record ctx' { t_cur = at s.next }) _ _ t
        (record {
          wrote = w;
          filled =
              attached-IsNode left t s' (at s.next) h w new_final
                (more, omega (arith, new_ver), inr new_birth);
          fresh = λ _. record {
            shape = rw (new_final, new_cell, e) refl;
            small = rw new_final (omega (arith, smaller, r.bounded));
            filled = λ c. cc;
          };
          fresh_version = λ _. new_ver;
          fresh_running = λ _. run;
          fresh_cur = λ _. refl;
          task = λ _. record {
            addr = s.next;
            cur = refl;
            valid = more;
            opened = new_closed;
            born = new_birth ∙ sym new_depth;
            version = new_ver;
            numbered = num;
            bounded = rw (new_final, new_depth) (omega (arith, smaller, r.bounded));
            pending =
                rw (new_final, new_depth, ap lch_of e, ap rch_of e)
                  (Pending-root ctx'.fn s' g' (goes_left ctx'.dir) (g.depth i + 1) ctx' lch rch
                    ctx'.root (at s.next)
                    (Pending-Grows grows ctx'.fn (goes_left ctx'.dir) (g.depth i + 1) ctx' lch rch
                      pending));
          };
          root = root;
        })

  -- What `update_` and `concat_` give is written.
  pub attach :
      (left : Bool) (t : Tree Cell) (ctx : Context) (q : Placed)
      → HalfFilled left t
      → ctx.ver ≡ i
      → ctx.root ≡ (ctxs i).root
      → IsPlaced s g (g.depth i + 1) t ctx q
      → Inv fuel version issued
          (put left q.store r.addr q.ptr)
          (set_context ctxs i (record q.ctx { t_cur = q.ptr }))
          (advance g s.next r.addr i t)
  attach left t ctx q h num root (inl new) =
      subst
        (λ st.
          Inv fuel version issued (put left st r.addr q.ptr)
            (set_context ctxs i (record q.ctx { t_cur = q.ptr })) (advance g s.next r.addr i t))
        (sym new.store)
        (subst
          (λ p.
            Inv fuel version issued (put left (alloc s new.cell) r.addr p)
              (set_context ctxs i (record q.ctx { t_cur = p })) (advance g s.next r.addr i t))
          (sym new.ptr)
          (attach_new left t ctx q.ctx new.cell new.lch new.rch h (new.version ∙ num) new.final
            new.running (new.same.ver ∙ num) (new.same.root ∙ root) new.pending))
  attach left t ctx q h num root (inr whole) =
      subst
        (λ st.
          Inv fuel version issued (put left st r.addr q.ptr)
            (set_context ctxs i (record q.ctx { t_cur = q.ptr })) (advance g s.next r.addr i t))
        (sym whole.store)
        (attach_whole left t (record q.ctx { t_cur = q.ptr }) q.ptr h whole.final
          (subst (λ v. Good s g v (g.depth i + 1) q.ptr) num whole.good) whole.is_done
          (whole.same.root ∙ root))
