-- ===== src/Treap/Scheduler/Invariant.antt =====
-- The state of all tasks, and what holds of it between two steps.
use contreap.Prelude.{
  ℕ, ◌+◌, ◌-◌, ◌≡◌, ◌<◌, ◌≤◌, ◌∙◌, sym, ap, Bool, true, false, arith, ◌==◌, if◌then◌else◌,
}
use contreap.Tree.{Tree, size}
use contreap.Treap.Node.{Cell}
use contreap.Treap.Scheduler.Store.{at, Store}
use contreap.Treap.Scheduler.Task.{
  Context, st_running, Functor, fn_search, fn_setref, fn_concat, goes_left,
}
use contreap.Treap.Scheduler.Ghost.{
  Ghost, lch_of, rch_of, value, Good, IsNode, Pending, Grows, Deep-Grows, Good-Grows, value-Grows,
}

abbrev pub set_context : (ℕ → Context) → ℕ → Context → ℕ → Context
set_context ctxs i ctx = λ j. if j == i then ctx else ctxs j

-- A task that has made a node and has still to fill it.
pub record IsRunning (fuel : ℕ) (s : Store) (g : Ghost) (i : ℕ) (ctx : Context) : Type 0 where
  pub addr : ℕ
  pub cur : ctx.t_cur ≡ at addr
  pub valid : addr < s.next
  pub opened : g.closed addr ≡ false
  pub born : g.birth addr ≡ g.depth i
  pub version : (s.nodes addr).cell.ver ≡ i
  pub numbered : ctx.ver ≡ i
  pub bounded : g.depth i + size (g.final addr) ≤ fuel
  pub pending :
      Pending ctx.fn s g
        (goes_left ctx.dir)
        (g.depth i)
        ctx
        (lch_of (g.final addr))
        (rch_of (g.final addr))

-- The task that has still to fill a node.
pub record IsOwned (issued : ℕ) (ctxs : ℕ → Context) (a i : ℕ) : Type 0 where
  pub positive : 0 < i
  pub issued_already : i ≤ issued
  pub running : (ctxs i).st ≡ st_running
  pub cur : (ctxs i).t_cur ≡ at a

pub record IsRoot (s : Store) (g : Ghost) (i : ℕ) (t : Tree Cell) (ctx : Context) : Type 0 where
  pub final : value g ctx.root ≡ t
  pub good : Good s g i 0 ctx.root

-- `version i` is the tree that the first `i` tasks make one after the other.
pub record Inv (fuel : ℕ) (version : ℕ → Tree Cell) (issued : ℕ) (s : Store) (ctxs : ℕ → Context)
    (g : Ghost) : Type 0 where
  pub nodes : (a : ℕ) → a < s.next → IsNode fuel s g a
  pub owners :
      (a : ℕ) → a < s.next → g.closed a ≡ false → IsOwned issued ctxs a (s.nodes a).cell.ver
  pub tasks :
      (i : ℕ) → 0 < i → i ≤ issued → (ctxs i).st ≡ st_running → IsRunning fuel s g i (ctxs i)
  pub roots : (i : ℕ) → i ≤ issued → IsRoot s g i (version i) (ctxs i)

module _ {s s' : Store} {g g' : Ghost} (later : Grows s g s' g') where
  pub Pending-Grows :
      (fn : Functor) (left : Bool) (d : ℕ) (ctx : Context) (l r : Tree Cell)
      → Pending fn s g left d ctx l r
      → Pending fn s' g' left d ctx l r
  Pending-Grows fn_search left d ctx l r p = record {
    past_good = Good-Grows later (ctx.ver - 1) d ctx.t_past p.past_good;
    past_cell = p.past_cell;
    past_lch = p.past_lch;
    past_rch = p.past_rch;
    past = value-Grows later (ctx.ver - 1) d ctx.t_past p.past_good ∙ p.past;
    kept = p.kept;
    changed = p.changed;
  }
  Pending-Grows fn_setref left d ctx l r p = record {
    past_good = Good-Grows later (ctx.ver - 1) d ctx.t_past p.past_good;
    past_cell = p.past_cell;
    past = value-Grows later (ctx.ver - 1) d ctx.t_past p.past_good ∙ p.past;
  }
  Pending-Grows fn_concat true d ctx l r p =
      let same_l = value-Grows later (ctx.ver - 1) 0 ctx.t_l p.l_good in
      let same_r = value-Grows later (ctx.ver - 1) 0 ctx.t_r p.r_good in
      record {
        l_good = Good-Grows later (ctx.ver - 1) 0 ctx.t_l p.l_good;
        r_good = Good-Grows later (ctx.ver - 1) 0 ctx.t_r p.r_good;
        l_deep = Deep-Grows later p.l_deep;
        r_deep = Deep-Grows later p.r_deep;
        part_cell = p.part_cell;
        part_lch = p.part_lch;
        part_rch = p.part_rch;
        part = same_r ∙ p.part;
        kept = p.kept;
        changed = rw same_l p.changed;
      }
  Pending-Grows fn_concat false d ctx l r p =
      let same_l = value-Grows later (ctx.ver - 1) 0 ctx.t_l p.l_good in
      let same_r = value-Grows later (ctx.ver - 1) 0 ctx.t_r p.r_good in
      record {
        l_good = Good-Grows later (ctx.ver - 1) 0 ctx.t_l p.l_good;
        r_good = Good-Grows later (ctx.ver - 1) 0 ctx.t_r p.r_good;
        l_deep = Deep-Grows later p.l_deep;
        r_deep = Deep-Grows later p.r_deep;
        part_cell = p.part_cell;
        part_lch = p.part_lch;
        part_rch = p.part_rch;
        part = same_l ∙ p.part;
        kept = p.kept;
        changed = rw same_r p.changed;
      }

  pub IsRoot-Grows :
      (i : ℕ) (t : Tree Cell) (ctx : Context) → IsRoot s g i t ctx → IsRoot s' g' i t ctx
  IsRoot-Grows i t ctx r = record {
    final = value-Grows later i 0 ctx.root r.good ∙ r.final;
    good = Good-Grows later i 0 ctx.root r.good;
  }

  -- A node that is not closed in between.
  pub IsNode-Grows :
      (fuel a : ℕ)
      → a < s.next
      → (g'.closed a ≡ true → g.closed a ≡ true)
      → IsNode fuel s g a
      → IsNode fuel s' g' a
  IsNode-Grows fuel a lt same n =
      let final = later.final a lt in
      let cell = later.cell a lt in
      let birth = later.birth a lt in
      record {
        shape = rw (final, cell) n.shape;
        small = rw final n.small;
        filled = λ c.
            let c' = same c in
            let f = n.filled c' in
            let whole = later.filled a lt c' in
            record {
              lch =
                  rw (whole, final)
                    (value-Grows later (s.nodes a).cell.ver (g.birth a + 1) (s.nodes a).lch
                        f.lch_good
                      ∙ f.lch);
              rch =
                  rw (whole, final)
                    (value-Grows later (s.nodes a).cell.ver (g.birth a + 1) (s.nodes a).rch
                        f.rch_good
                      ∙ f.rch);
              lch_good =
                  rw (whole, birth)
                    (Good-Grows later (s.nodes a).cell.ver (g.birth a + 1) (s.nodes a).lch
                      f.lch_good);
              rch_good =
                  rw (whole, birth)
                    (Good-Grows later (s.nodes a).cell.ver (g.birth a + 1) (s.nodes a).rch
                      f.rch_good);
            };
      }

  unfoldable pub IsRunning-Grows :
      (fuel i : ℕ) (ctx : Context) (r : IsRunning fuel s g i ctx)
      → g'.closed r.addr ≡ false
      → g'.depth i ≡ g.depth i
      → IsRunning fuel s' g' i ctx
  IsRunning-Grows fuel i ctx r opened depth =
      let final = later.final r.addr r.valid in
      record {
        addr = r.addr;
        cur = r.cur;
        valid = omega (arith, later.next, r.valid);
        opened = opened;
        born = later.birth r.addr r.valid ∙ r.born ∙ sym depth;
        version = ap (λ (c : Cell). c.ver) (later.cell r.addr r.valid) ∙ r.version;
        numbered = r.numbered;
        bounded = rw (depth, final) r.bounded;
        pending =
            rw (depth, final)
              (Pending-Grows ctx.fn (goes_left ctx.dir) (g.depth i) ctx (lch_of (g.final r.addr))
                (rch_of (g.final r.addr)) r.pending);
      }
