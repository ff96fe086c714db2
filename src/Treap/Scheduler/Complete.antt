-- ===== src/Treap/Scheduler/Complete.antt =====
-- `execute_to_complete_` keeps the invariant, where all that it reads has been filled.
use contreap.Prelude.{ℕ, ◌+◌, ◌-◌, ◌≡◌, ◌<◌, ◌≤◌, refl, ◌∙◌, sym, ap, Bool, not, arith}
use contreap.Tree.{Tree}
use contreap.Treap.Node.{Cell}
use contreap.Treap.Scheduler.Store.{tree, Store, child, put, Result, ok}
use contreap.Treap.Scheduler.Task.{
  Context, Functor, fn_search, fn_setref, fn_concat, st_running, done, goes_left, with_joined,
  operate,
}
use contreap.Treap.Scheduler.Ghost.{
  Ghost, lch_of, rch_of, value, Deep, Good-Grows, Deep-Grows, Searching, Setting, Joining, Pending,
  joined,
}
use contreap.Treap.Scheduler.Walk.{Good-mono, Good-Deep, Deep-Ready, look-Children}
use contreap.Treap.Scheduler.Placing.{SameTask}
use contreap.Treap.Scheduler.Invariant.{set_context, IsRunning, Inv, IsRunning-Grows}
use contreap.Treap.Scheduler.Advance.{advance}
use contreap.Treap.Scheduler.Attach.{attach_whole}
use contreap.Treap.Scheduler.Task.{complete_fn, execute_to_complete}
use contreap.Treap.Scheduler.Walk.{read_tree-Good}
use contreap.Treap.Scheduler.Stepped.{
  Stepped, write_cur, Grows-half, inv_half, running_half, half_filled,
}
use contreap.Treap.Scheduler.Steps.{set_both_lem}
use contreap.Treap.Scheduler.ConcatStep.{cut, cut-Good, child-Deep, with_joined_same}
use contreap.Treap.Scheduler.Settled.{ended, AllDone, value-child, child-Good}

module _ (fuel : ℕ) (version : ℕ → Tree Cell) (issued committed : ℕ) (s : Store)
    (ctxs : ℕ → Context) (g : Ghost) (inv : Inv fuel version issued s ctxs g)
    (all : AllDone ctxs committed) (i : ℕ) (positive : 0 < i) (le : i ≤ issued)
    (r : IsRunning fuel s g i (ctxs i)) (run : (ctxs i).st ≡ st_running) where
  -- What is left of the task is done at once.
  pub record Completed (result : Result (Context × Store)) : Type 0 where
    pub ctx : Context
    pub store : Store
    pub missing : Tree Cell
    pub made : result ≡ ok (ctx, store)
    pub keeps :
        Inv fuel version issued store
          (set_context ctxs i (done ctx))
          (advance g s.next r.addr i missing)
    pub same : SameTask (ctxs i) ctx

  complete_search :
      Deep s g (ctxs i).t_past
      → Searching s g
          (goes_left (ctxs i).dir)
          (g.depth i)
          (ctxs i)
          (lch_of (g.final r.addr))
          (rch_of (g.final r.addr))
      → Completed (complete_fn fn_search fuel s (ctxs i))
  unfolding complete_fn done running_half IsRunning-Grows put
  complete_search deep h =
      let left = goes_left (ctxs i).dir in
      let v = (ctxs i).ver - 1 in
      let kids =
        look-Children fuel s g inv.nodes v (g.depth i) (ctxs i).t_past h.past_cell h.past_lch
          h.past_rch h.past_good (Deep-Ready deep) h.past in
      let p = child (not left) kids.lch kids.rch in
      let past = child left kids.lch kids.rch in
      let s1 = put (not left) s r.addr p in
      let grows =
        Grows-half fuel version issued committed s ctxs g inv all i positive le r (not left) p in
      let inv1 =
        inv_half fuel version issued committed s ctxs g inv all i positive le r (not left) p in
      let past_good =
        child-Good s g v (g.depth i + 1) left kids.lch kids.rch kids.lch_good kids.rch_good in
      let other_good =
        child-Good s g v (g.depth i + 1) (not left) kids.lch kids.rch kids.lch_good kids.rch_good in
      let other_value =
        value-child g (not left) kids.lch kids.rch h.past_lch h.past_rch kids.lch_value
          kids.rch_value in
      let past_value =
        value-child g left kids.lch kids.rch h.past_lch h.past_rch kids.lch_value kids.rch_value in
      let past-Deep =
        child-Deep fuel version issued committed s ctxs g inv all i positive le r run left kids.lch
          kids.rch (kids.lch_deep deep) (kids.rch_deep deep) in
      let t =
        operate (ctxs i).op (ctxs i).ver (ctxs i).pry (ctxs i).key
          (child left h.past_lch h.past_rch) in
      let half =
        half_filled fuel version issued committed s ctxs g inv all i positive le r left p t
          (other_value ∙ sym h.kept)
          (Good-mono s g v i (g.depth i + 1) p (omega (arith, r.numbered)) other_good) h.changed in
      let walked =
        read_tree-Good fuel s1 g inv1.nodes v (g.depth i + 1) past
          (Good-Grows grows v (g.depth i + 1) past past_good) (Deep-Grows grows past-Deep)
        ∙ ap ok past_value in
      let write = write_cur fuel version issued committed s ctxs g inv all i positive le r in
      record {
        ctx = record (ctxs i) { t_past = past };
        store = put left s1 r.addr (tree t);
        missing = t;
        made = rw (kids.seen, write (not left) s p, walked, write left s1 (tree t));
        keeps =
            attach_whole fuel version issued s1 ctxs g inv1 i positive le
              (running_half fuel version issued committed s ctxs g inv all i positive le r
                (not left) p)
              left t (done (record (ctxs i) { t_past = past })) (tree t) half refl tt refl refl;
        same = record { ver = refl; op = refl; pry = refl; key = refl; root = refl };
      }

  complete_setref :
      Deep s g (ctxs i).t_past
      → Setting s g (g.depth i) (ctxs i) (lch_of (g.final r.addr)) (rch_of (g.final r.addr))
      → Completed (complete_fn fn_setref fuel s (ctxs i))
  unfolding complete_fn done
  complete_setref deep h =
      let (s', t, made, keeps) =
        set_both_lem fuel version issued committed s ctxs g inv all i positive le r run
          (done (ctxs i)) (Deep-Ready deep) h refl refl in
      record {
        ctx = ctxs i;
        store = s';
        missing = t;
        made = rw made;
        keeps = keeps;
        same = record { ver = refl; op = refl; pry = refl; key = refl; root = refl };
      }

  complete_concat :
      Joining s g
        (goes_left (ctxs i).dir)
        (ctxs i)
        (lch_of (g.final r.addr))
        (rch_of (g.final r.addr))
      → Completed (complete_fn fn_concat fuel s (ctxs i))
  unfolding complete_fn done running_half IsRunning-Grows put
  complete_concat h =
      let left = goes_left (ctxs i).dir in
      let v = (ctxs i).ver - 1 in
      let part = child left (ctxs i).t_r (ctxs i).t_l in
      let (part_good, part_deep) =
        cut-Good fuel version issued committed s ctxs g inv all i positive le r run left
          (lch_of (g.final r.addr)) (rch_of (g.final r.addr)) h in
      let kids =
        look-Children fuel s g inv.nodes v 0 part h.part_cell h.part_lch h.part_rch part_good
          (Deep-Ready part_deep) h.part in
      let p = child (not left) kids.lch kids.rch in
      let rest = child left kids.lch kids.rch in
      let s1 = put (not left) s r.addr p in
      let inv1 =
        inv_half fuel version issued committed s ctxs g inv all i positive le r (not left) p in
      let deep_child = λ (b : Bool).
        child-Deep fuel version issued committed s ctxs g inv all i positive le r run b kids.lch
          kids.rch (kids.lch_deep part_deep) (kids.rch_deep part_deep) in
      let lower : v ≤ i = omega (arith, r.numbered) in
      let other_good =
        Good-Deep s g i 1 (g.depth i + 1) p
          (Good-mono s g v i 1 p lower
            (child-Good s g v 1 (not left) kids.lch kids.rch kids.lch_good kids.rch_good))
          (deep_child (not left)) in
      let rest_good =
        Good-Deep s g v 1 0 rest
          (child-Good s g v 1 left kids.lch kids.rch kids.lch_good kids.rch_good)
          (deep_child left) in
      let other_value =
        value-child g (not left) kids.lch kids.rch h.part_lch h.part_rch kids.lch_value
          kids.rch_value in
      let rest_value =
        value-child g left kids.lch kids.rch h.part_lch h.part_rch kids.lch_value kids.rch_value in
      let half =
        half_filled fuel version issued committed s ctxs g inv all i positive le r left p _
          (other_value ∙ sym h.kept) other_good h.changed in
      let c =
        cut fuel version issued committed s ctxs g inv all i positive le r run left rest s1
          inv1.nodes
          (Grows-half fuel version issued committed s ctxs g inv all i positive le r (not left) p) h
          rest_good (deep_child left) rest_value in
      let ctx1 = with_joined left (ctxs i) rest in
      let (same1, stage1, st1, fn1) =
        with_joined_same fuel version issued committed s ctxs g inv all i positive le r run left
          rest in
      let t =
        joined left (ctxs i).ver (value g (ctxs i).t_l) (value g (ctxs i).t_r)
          (child left h.part_lch h.part_rch) in
      let walked_l =
        read_tree-Good fuel s1 g inv1.nodes (ctx1.ver - 1) 0 ctx1.t_l c.parts.l_good c.parts.l_deep
        ∙ ap ok c.parts.l_value in
      let walked_r =
        read_tree-Good fuel s1 g inv1.nodes (ctx1.ver - 1) 0 ctx1.t_r c.parts.r_good c.parts.r_deep
        ∙ ap ok c.parts.r_value in
      let write = write_cur fuel version issued committed s ctxs g inv all i positive le r in
      record {
        ctx = ctx1;
        store = put left s1 r.addr (tree t);
        missing = t;
        made = rw (
          kids.seen,
          write (not left) s p,
          walked_l,
          walked_r,
          c.joined_as,
          write left s1 (tree t),
        );
        keeps =
            attach_whole fuel version issued s1 ctxs g inv1 i positive le
              (running_half fuel version issued committed s ctxs g inv all i positive le r
                (not left) p)
              left t (done ctx1) (tree t) half refl tt refl same1.root;
        same = same1;
      }

  -- What the call reads has been filled.
  abbrev pub HasSettled : Functor → Type 0
  HasSettled fn_search = Deep s g (ctxs i).t_past
  HasSettled fn_setref = Deep s g (ctxs i).t_past
  HasSettled fn_concat = Unit

  complete_fn-Completed :
      (fn : Functor)
      → HasSettled fn
      → Pending fn s g
          (goes_left (ctxs i).dir)
          (g.depth i)
          (ctxs i)
          (lch_of (g.final r.addr))
          (rch_of (g.final r.addr))
      → Completed (complete_fn fn fuel s (ctxs i))
  complete_fn-Completed fn_search deep h = complete_search deep h
  complete_fn-Completed fn_setref deep h = complete_setref deep h
  complete_fn-Completed fn_concat deep h = complete_concat h

  -- Where the invariant of all tasks holds, the committed tasks are done, and all that the past node of
  -- the running task `i` leads to has been filled if the task still searches or copies two children,
  -- `execute_to_complete_` returns without a fault and without waiting: the task is done and the
  -- invariant holds again.
  pub execute_to_complete-Stepped :
      HasSettled (ctxs i).fn
      → Stepped fuel version issued committed s ctxs g inv all i positive le r
          (execute_to_complete fuel s (ctxs i))
  unfolding execute_to_complete done
  execute_to_complete-Stepped deep =
      let c = complete_fn-Completed (ctxs i).fn deep r.pending in
      record {
        ctx = done c.ctx;
        store = c.store;
        missing = c.missing;
        made = rw c.made;
        keeps = c.keeps;
        same = record {
          ver = c.same.ver;
          op = c.same.op;
          pry = c.same.pry;
          key = c.same.key;
          root = c.same.root;
        };
        marked = ended refl refl;
      }
