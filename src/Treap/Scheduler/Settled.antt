-- ===== src/Treap/Scheduler/Settled.antt =====
-- Once the tasks up to a version are done, what they have made is filled; and what a step may do to the
-- marks of a context.
use contreap.Prelude.{ℕ, ◌≡◌, ◌<◌, ◌≤◌, inl, inr, refl, ap, Bool, true, false, arith, Bool-cases}
use contreap.Tree.{Tree}
use contreap.Treap.Node.{Cell}
use contreap.Treap.Scheduler.Store.{Ptr, Node, Store, child, put}
use contreap.Treap.Scheduler.Task.{Context, st_running, st_done, stage_done}
use contreap.Treap.Scheduler.Ghost.{Ghost, value, Deep, Good}
use contreap.Treap.Scheduler.Walk.{Deep-of_version}
use contreap.Treap.Scheduler.Invariant.{Inv}
use contreap.Treap.Scheduler.Filling.{put_here}

-- How a step leaves the status and the stage of a context: done, or running as before.
pub data Marked (ctx ctx' : Context) : Type 0 where
  ended : ctx'.st ≡ st_done → ctx'.stage ≡ stage_done → Marked ctx ctx'
  going : ctx'.st ≡ st_running → ctx'.stage ≡ ctx.stage → Marked ctx ctx'

-- The tasks up to `committed` are done.
abbrev pub AllDone : (ℕ → Context) → ℕ → Type 0
AllDone ctxs committed = (j : ℕ) → 0 < j → j ≤ committed → (ctxs j).st ≡ st_done

pub settled :
    (fuel : ℕ) (version : ℕ → Tree Cell) (issued : ℕ) (s : Store) (ctxs : ℕ → Context) (g : Ghost)
    (committed : ℕ)
    → Inv fuel version issued s ctxs g
    → AllDone ctxs committed
    → (v d : ℕ) (p : Ptr) → v ≤ committed
    → Good s g v d p
    → Deep s g p
settled fuel version issued s ctxs g committed inv all v d p le h =
    Deep-of_version fuel s g inv.nodes v
      (λ a lt ver. elim (Bool-cases (g.closed a)) [
        | inl c ↦ c
        | inr c ↦
            let o = inv.owners a lt c in
            let finished = all (s.nodes a).cell.ver o.positive (omega arith) in
            cc (o.running, finished)
      ])
      (value g p) d p h refl

pub value-child :
    (g : Ghost) (b : Bool) (pl pr : Ptr) (l r : Tree Cell)
    → value g pl ≡ l
    → value g pr ≡ r
    → value g (child b pl pr) ≡ child b l r
value-child g true pl pr l r e f = e
value-child g false pl pr l r e f = f

pub child-Good :
    (s : Store) (g : Ghost) (v d : ℕ) (b : Bool) (pl pr : Ptr)
    → Good s g v d pl
    → Good s g v d pr
    → Good s g v d (child b pl pr)
child-Good s g v d true pl pr h k = h
child-Good s g v d false pl pr h k = k

pub child-put :
    (b : Bool) (s : Store) (a : ℕ) (p : Ptr)
    → child b ((put b s a p).nodes a).lch ((put b s a p).nodes a).rch ≡ p
child-put true s a p = ap (λ (n : Node). n.lch) (put_here true s a p)
child-put false s a p = ap (λ (n : Node). n.rch) (put_here false s a p)
