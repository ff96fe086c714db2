-- ===== src/Treap/Scheduler/Stepped.antt =====
-- What a step of a task makes, and its first write.
use contreap.Prelude.{ℕ, ◌+◌, ◌≡◌, ◌<◌, ◌≤◌, inl, inr, refl, ◌∙◌, sym, ap, Bool, not}
use mathlib.Core.Path.{subst}
use contreap.Tree.{Tree}
use contreap.Treap.Node.{Cell}
use contreap.Treap.Scheduler.Store.{Ptr, Store, child, put, set_child, Result, ok}
use contreap.Treap.Scheduler.Task.{Context, st_running, Placed}
use contreap.Treap.Scheduler.Ghost.{Ghost, lch_of, rch_of, value, Good, Grows, Good-Grows}
use contreap.Treap.Scheduler.Placing.{SameTask, IsPlaced}
use contreap.Treap.Scheduler.Invariant.{set_context, IsRunning, Inv, IsRunning-Grows}
use contreap.Treap.Scheduler.Advance.{advance}
use contreap.Treap.Scheduler.Filling.{Grows-put, put-Inv}
use contreap.Treap.Scheduler.Attach.{HalfFilled}
use contreap.Treap.Scheduler.Settled.{Marked, ended, going, AllDone, child-put}

module _ (fuel : ℕ) (version : ℕ → Tree Cell) (issued committed : ℕ) (s : Store)
    (ctxs : ℕ → Context) (g : Ghost) (inv : Inv fuel version issued s ctxs g)
    (all : AllDone ctxs committed) (i : ℕ) (positive : 0 < i) (le : i ≤ issued)
    (r : IsRunning fuel s g i (ctxs i)) where
  -- A step has been made: where it leads, and that it keeps the invariant.
  pub record Stepped (result : Result (Context × Store)) : Type 0 where
    pub ctx : Context
    pub store : Store
    pub missing : Tree Cell
    pub made : result ≡ ok (ctx, store)
    pub keeps :
        Inv fuel version issued store (set_context ctxs i ctx) (advance g s.next r.addr i missing)
    pub same : SameTask (ctxs i) ctx
    pub marked : Marked (ctxs i) ctx

  pub write_cur :
      (b : Bool) (s' : Store) (p : Ptr) → set_child b s' (ctxs i).t_cur p ≡ ok (put b s' r.addr p)
  unfolding set_child
  write_cur b s' p = ap (λ x. set_child b s' x p) r.cur

  -- The first write of a step, with the child that stays as it is.
  module _ (b : Bool) (p : Ptr) where
    pub Grows-half : Grows s g (put b s r.addr p) g
    Grows-half = Grows-put b s g r.addr p r.opened

    pub inv_half : Inv fuel version issued (put b s r.addr p) ctxs g
    inv_half = put-Inv fuel version issued s ctxs g b r.addr p r.opened inv

    unfoldable pub running_half : IsRunning fuel (put b s r.addr p) g i (ctxs i)
    unfolding IsRunning-Grows
    running_half = IsRunning-Grows Grows-half fuel i (ctxs i) r r.opened refl

  -- The other child is written; `p` is what it leads to.
  pub half_filled :
      (left : Bool) (p : Ptr) (t : Tree Cell)
      → value g p ≡ child (not left) (lch_of (g.final r.addr)) (rch_of (g.final r.addr))
      → Good s g i (g.depth i + 1) p
      → child left (lch_of (g.final r.addr)) (rch_of (g.final r.addr)) ≡ t
      → HalfFilled fuel version issued
          (put (not left) s r.addr p)
          ctxs
          g
          (inv_half (not left) p)
          i
          positive
          le
          (running_half (not left) p)
          left
          t
  unfolding inv_half running_half IsRunning-Grows
  half_filled left p t v h e =
      let same = child-put (not left) s r.addr p in
      record {
        other_value = ap (value g) same ∙ v;
        other_good =
            subst (Good (put (not left) s r.addr p) g i (g.depth i + 1)) (sym same)
              (Good-Grows (Grows-half (not left) p) i (g.depth i + 1) p h);
        missing = e;
      }

  module _ (run : (ctxs i).st ≡ st_running) where
    pub Marked-IsPlaced :
        (s' : Store) (d : ℕ) (t : Tree Cell) (ctx : Context) (q : Placed) (p : Ptr)
        → ctx.stage ≡ (ctxs i).stage
        → IsPlaced s' g d t ctx q
        → Marked (ctxs i) (record q.ctx { t_cur = p })
    Marked-IsPlaced s' d t ctx q p e (inl h) = going h.running (h.stage ∙ e)
    Marked-IsPlaced s' d t ctx q p e (inr h) = ended h.is_done h.stage

    pub SameTask-IsPlaced :
        (s' : Store) (d : ℕ) (t : Tree Cell) (ctx : Context) (q : Placed) (p : Ptr)
        → SameTask (ctxs i) ctx
        → IsPlaced s' g d t ctx q
        → SameTask (ctxs i) (record q.ctx { t_cur = p })
    SameTask-IsPlaced s' d t ctx q p e (inl h) = record {
      ver = h.same.ver ∙ e.ver;
      op = h.same.op ∙ e.op;
      pry = h.same.pry ∙ e.pry;
      key = h.same.key ∙ e.key;
      root = h.same.root ∙ e.root;
    }
    SameTask-IsPlaced s' d t ctx q p e (inr h) = record {
      ver = h.same.ver ∙ e.ver;
      op = h.same.op ∙ e.op;
      pry = h.same.pry ∙ e.pry;
      key = h.same.key ∙ e.key;
      root = h.same.root ∙ e.root;
    }
