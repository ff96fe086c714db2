-- ===== src/Treap/Scheduler/ConcatStep.antt =====
-- A step of a task that joins two trees.
use contreap.Prelude.{ℕ, ◌+◌, ◌-◌, ◌≡◌, ◌<◌, ◌≤◌, refl, ◌∙◌, sym, ap, Bool, true, false, not, arith}
use mathlib.Core.Path.{subst}
use contreap.Tree.{Tree}
use contreap.Treap.Node.{Cell}
use contreap.Treap.SearchDelete.{process_concat}
use contreap.Treap.Scheduler.Store.{Ptr, Store, child, put}
use contreap.Treap.Scheduler.Task.{Context, fn_concat, st_running, step_concat, with_joined, concat}
use contreap.Treap.Scheduler.Ghost.{
  Ghost, lch_of, rch_of, value, Deep, Good, IsNode, Grows, Good-Grows, Deep-Grows, Joining, joined,
}
use contreap.Treap.Scheduler.Walk.{Good-mono, Good-Deep, Deep-Ready, look-Children}
use contreap.Treap.Scheduler.Placing.{SameTask, IsPlaced, Parts, concat-IsPlaced}
use contreap.Treap.Scheduler.Invariant.{IsRunning, Inv, IsRunning-Grows}
use contreap.Treap.Scheduler.Attach.{attach}
use contreap.Treap.Scheduler.Settled.{AllDone, value-child, child-Good}
use contreap.Treap.Scheduler.Stepped.{
  Stepped, write_cur, Grows-half, inv_half, running_half, half_filled, Marked-IsPlaced,
  SameTask-IsPlaced,
}

module _ (fuel : ℕ) (version : ℕ → Tree Cell) (issued committed : ℕ) (s : Store)
    (ctxs : ℕ → Context) (g : Ghost) (inv : Inv fuel version issued s ctxs g)
    (all : AllDone ctxs committed) (i : ℕ) (positive : 0 < i) (le : i ≤ issued)
    (r : IsRunning fuel s g i (ctxs i)) where
  module _ (run : (ctxs i).st ≡ st_running) where
    -- The trees to be joined, with one of them cut down.
    pub record Cut (left : Bool) (p : Ptr) (s1 : Store)
        (nodes : (a : ℕ) → a < s1.next → IsNode fuel s1 g a) (result : Tree Cell) : Type 0 where
      pub t_l : Tree Cell
      pub t_r : Tree Cell
      pub joined_as : process_concat (ctxs i).ver t_l t_r ≡ result
      pub parts : Parts fuel s1 g nodes (with_joined left (ctxs i) p) t_l t_r

    pub cut :
        (left : Bool) (p : Ptr) (s1 : Store) (nodes : (a : ℕ) → a < s1.next → IsNode fuel s1 g a)
        → Grows s g s1 g
        → (h : Joining s g left (ctxs i) (lch_of (g.final r.addr)) (rch_of (g.final r.addr)))
        → Good s g ((ctxs i).ver - 1) 0 p
        → Deep s g p
        → value g p ≡ child left h.part_lch h.part_rch
        → Cut left p s1 nodes (
            joined left
              (ctxs i).ver
              (value g (ctxs i).t_l)
              (value g (ctxs i).t_r)
              (child left h.part_lch h.part_rch))
    cut true p s1 nodes grows h good deep e = record {
      t_l = value g (ctxs i).t_l;
      t_r = h.part_lch;
      joined_as = refl;
      parts = record {
        l_good = Good-Grows grows ((ctxs i).ver - 1) 0 (ctxs i).t_l h.l_good;
        r_good = Good-Grows grows ((ctxs i).ver - 1) 0 p good;
        l_deep = Deep-Grows grows h.l_deep;
        r_deep = Deep-Grows grows deep;
        l_value = refl;
        r_value = e;
      };
    }
    cut false p s1 nodes grows h good deep e = record {
      t_l = h.part_rch;
      t_r = value g (ctxs i).t_r;
      joined_as = refl;
      parts = record {
        l_good = Good-Grows grows ((ctxs i).ver - 1) 0 p good;
        r_good = Good-Grows grows ((ctxs i).ver - 1) 0 (ctxs i).t_r h.r_good;
        l_deep = Deep-Grows grows deep;
        r_deep = Deep-Grows grows h.r_deep;
        l_value = e;
        r_value = refl;
      };
    }

    -- The pointer that is cut down is filled all the way.
    pub cut-Good :
        (left : Bool) (l t : Tree Cell)
        → Joining s g left (ctxs i) l t
        → Good s g ((ctxs i).ver - 1) 0 (child left (ctxs i).t_r (ctxs i).t_l)
          × Deep s g (child left (ctxs i).t_r (ctxs i).t_l)
    cut-Good true l t h = (h.r_good, h.r_deep)
    cut-Good false l t h = (h.l_good, h.l_deep)

    pub child-Deep : (b : Bool) (pl pr : Ptr) → Deep s g pl → Deep s g pr → Deep s g (child b pl pr)
    child-Deep true pl pr h k = h
    child-Deep false pl pr h k = k

    pub with_joined_same :
        (left : Bool) (p : Ptr)
        → SameTask (ctxs i) (with_joined left (ctxs i) p)
          × ((with_joined left (ctxs i) p).stage ≡ (ctxs i).stage)
          × ((with_joined left (ctxs i) p).st ≡ (ctxs i).st)
          × ((with_joined left (ctxs i) p).fn ≡ (ctxs i).fn)
    with_joined_same true p =
        (record { ver = refl; op = refl; pry = refl; key = refl; root = refl }, refl, refl, refl)
    with_joined_same false p =
        (record { ver = refl; op = refl; pry = refl; key = refl; root = refl }, refl, refl, refl)

    pub step_concat-Stepped :
        (left : Bool)
        → (ctxs i).fn ≡ fn_concat
        → Joining s g left (ctxs i) (lch_of (g.final r.addr)) (rch_of (g.final r.addr))
        → Stepped fuel version issued committed s ctxs g inv all i positive le r
            (step_concat left s (ctxs i))
    unfolding step_concat running_half IsRunning-Grows put
    step_concat-Stepped left f h =
        let v = (ctxs i).ver - 1 in
        let part = child left (ctxs i).t_r (ctxs i).t_l in
        let (part_good, part_deep) =
          cut-Good left (lch_of (g.final r.addr)) (rch_of (g.final r.addr)) h in
        let kids =
          look-Children fuel s g inv.nodes v 0 part h.part_cell h.part_lch h.part_rch part_good
            (Deep-Ready part_deep) h.part in
        let p = child (not left) kids.lch kids.rch in
        let rest = child left kids.lch kids.rch in
        let s1 = put (not left) s r.addr p in
        let inv1 =
          inv_half fuel version issued committed s ctxs g inv all i positive le r (not left) p in
        let lch_deep = kids.lch_deep part_deep in
        let rch_deep = kids.rch_deep part_deep in
        let lower : v ≤ i = omega (arith, r.numbered) in
        let other_good =
          Good-Deep s g i 1 (g.depth i + 1) p
            (Good-mono s g v i 1 p lower
              (child-Good s g v 1 (not left) kids.lch kids.rch kids.lch_good kids.rch_good))
            (child-Deep (not left) kids.lch kids.rch lch_deep rch_deep) in
        let rest_good =
          Good-Deep s g v 1 0 rest
            (child-Good s g v 1 left kids.lch kids.rch kids.lch_good kids.rch_good)
            (child-Deep left kids.lch kids.rch lch_deep rch_deep) in
        let other_value =
          value-child g (not left) kids.lch kids.rch h.part_lch h.part_rch kids.lch_value
            kids.rch_value in
        let rest_value =
          value-child g left kids.lch kids.rch h.part_lch h.part_rch kids.lch_value
            kids.rch_value in
        let half =
          half_filled fuel version issued committed s ctxs g inv all i positive le r left p _
            (other_value ∙ sym h.kept) other_good h.changed in
        let c =
          cut left rest s1 inv1.nodes
            (Grows-half fuel version issued committed s ctxs g inv all i positive le r (not left) p)
            h rest_good (child-Deep left kids.lch kids.rch lch_deep rch_deep) rest_value in
        let ctx1 = with_joined left (ctxs i) rest in
        let (same1, stage1, st1, fn1) = with_joined_same left rest in
        let q = concat s1 ctx1 in
        let t =
          joined left (ctxs i).ver (value g (ctxs i).t_l) (value g (ctxs i).t_r)
            (child left h.part_lch h.part_rch) in
        let placed : IsPlaced s1 g (g.depth i + 1) t ctx1 q =
          subst (λ x. IsPlaced s1 g (g.depth i + 1) x ctx1 q)
            (ap (λ x. process_concat x c.t_l c.t_r) same1.ver ∙ c.joined_as)
            (concat-IsPlaced fuel s1 g inv1.nodes (g.depth i + 1) ctx1 c.t_l c.t_r c.parts
              (st1 ∙ run) (fn1 ∙ f)) in
        record {
          ctx = record q.ctx { t_cur = q.ptr };
          store = put left q.store r.addr q.ptr;
          missing = t;
          made = rw (
            kids.seen,
            write_cur fuel version issued committed s ctxs g inv all i positive le r (not left) s p,
            write_cur fuel version issued committed s ctxs g inv all i positive le r left q.store
                q.ptr,
          );
          keeps =
              attach fuel version issued s1 ctxs g inv1 i positive le
                (running_half fuel version issued committed s ctxs g inv all i positive le r
                  (not left) p)
                left t ctx1 q half (same1.ver ∙ r.numbered) same1.root placed;
          same =
              SameTask-IsPlaced fuel version issued committed s ctxs g inv all i positive le r run
                s1 (g.depth i + 1) t ctx1 q q.ptr same1 placed;
          marked =
              Marked-IsPlaced fuel version issued committed s ctxs g inv all i positive le r run s1
                (g.depth i + 1) t ctx1 q q.ptr stage1 placed;
        }
