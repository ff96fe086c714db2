-- ===== src/Treap/Scheduler/Dependence.antt =====
-- Why a step of a task may read what it reads.
use contreap.Prelude.{ℕ, ◌+◌, ◌-◌, ◌≡◌, ◌<◌, ◌≤◌, inl, inr, refl, ◌∙◌, sym, ap, arith, Bool-cases}
use mathlib.Core.Path.{subst}
use contreap.Tree.{Tree, node}
use contreap.Treap.Node.{Cell}
use contreap.Treap.Scheduler.Store.{Ptr, tree, at, Store, View, look}
use contreap.Treap.Scheduler.Task.{
  Context, Functor, fn_search, fn_setref, fn_concat, st_running, goes_left,
}
use contreap.Treap.Scheduler.Ghost.{Ghost, lch_of, rch_of, value, Deep, Good, Pending}
use contreap.Treap.Scheduler.Walk.{Ready, Deep-Ready, Good-own, look_cell}
use contreap.Treap.Scheduler.Invariant.{IsRunning, Inv}
use contreap.Treap.Scheduler.Steps.{MayRead}
use contreap.Treap.Scheduler.Settled.{AllDone, settled}
use contreap.Treap.Scheduler.Complete.{HasSettled}
use contreap.Treap.Scheduler.Threads.{past_version}
use contreap.Treap.Scheduler.Store.{ok}
use contreap.Treap.Scheduler.Protocol.{Beyond}

pub past_version_lem :
    (v : View) (n : ℕ) (c : Cell) (l r : Ptr)
    → v ≡ View.fields c l r
    → past_version v ≡ ok n
    → c.ver ≡ n
past_version_lem (View.void) n c l r e seen = cc
past_version_lem (View.fields c' l' r') n c l r e seen =
    let same : c' ≡ c = cc in let n' : c'.ver ≡ n = cc in sym (ap (λ (x : Cell). x.ver) same) ∙ n'

module _ (fuel : ℕ) (version : ℕ → Tree Cell) (issued committed : ℕ) (s : Store)
    (ctxs : ℕ → Context) (g : Ghost) (inv : Inv fuel version issued s ctxs g)
    (all : AllDone ctxs committed) (i : ℕ) (positive : 0 < i) (le : i ≤ issued)
    (r : IsRunning fuel s g i (ctxs i)) (run : (ctxs i).st ≡ st_running) where
  -- The task that has made a node has filled it, if it is done or has done more steps.
  Ready-of_owner :
      (p : Ptr)
      → Good s g ((ctxs i).ver - 1) (g.depth i) p
      → ((b : ℕ) → p ≡ at b → Beyond ctxs g (s.nodes b).cell.ver (g.depth i + 1))
      → Ready g p
  Ready-of_owner (tree t) good owner = tt
  Ready-of_owner (at b) good owner = elim (Bool-cases (g.closed b)) [
    | inl c ↦ c
    | inr c ↦
        let o = inv.owners b good.0 c in
        let j = (s.nodes b).cell.ver in
        let q = inv.tasks j o.positive o.issued_already o.running in
        let same : q.addr ≡ b = cc (q.cur, o.cur) in
        let born : g.birth b ≡ g.depth j = subst (λ x. g.birth x ≡ g.depth j) same q.born in
        elim (owner b refl) [
          | inl is_done ↦ let both : ⊥ = cc (is_done, o.running) in absurd both
          | inr deeper ↦ elim good.2 [
            | inl deep ↦ Deep-Ready deep
            | inr depth ↦ absurd (omega (arith, born, depth, deeper))
          ]
        ]
  ]

  older : (b : ℕ) → Good s g (i - 1) (g.depth i) (at b) → (s.nodes b).cell.ver < i
  older b h = omega (arith, h.1, positive)

  pub may_read :
      (fn : Functor)
      → Pending fn s g
          (goes_left (ctxs i).dir)
          (g.depth i)
          (ctxs i)
          (lch_of (g.final r.addr))
          (rch_of (g.final r.addr))
      → ((b : ℕ)
          → (ctxs i).t_past ≡ at b
          → (s.nodes b).cell.ver < i
          → Beyond ctxs g (s.nodes b).cell.ver (g.depth i + 1))
      → MayRead fuel version issued committed s ctxs g inv all i positive le r run fn
  may_read fn_search h owner =
      let good = subst (λ x. Good s g (x - 1) (g.depth i) (ctxs i).t_past) r.numbered h.past_good in
      Ready-of_owner (ctxs i).t_past h.past_good
        (λ b e. owner b e (older b (subst (Good s g (i - 1) (g.depth i)) e good)))
  may_read fn_setref h owner =
      let good = subst (λ x. Good s g (x - 1) (g.depth i) (ctxs i).t_past) r.numbered h.past_good in
      Ready-of_owner (ctxs i).t_past h.past_good
        (λ b e. owner b e (older b (subst (Good s g (i - 1) (g.depth i)) e good)))
  may_read fn_concat h owner = tt

  -- The task that has made the past node is done, and so are the tasks before it.
  settled_past :
      (c : Cell) (l r' : Tree Cell)
      → value g (ctxs i).t_past ≡ node c l r'
      → c.ver ≤ committed
      → Good s g ((ctxs i).ver - 1) (g.depth i) (ctxs i).t_past
      → Deep s g (ctxs i).t_past
  settled_past c l r' e le' good =
      settled fuel version issued s ctxs g committed inv all c.ver (g.depth i) (ctxs i).t_past le'
        (Good-own fuel s g inv.nodes ((ctxs i).ver - 1) (g.depth i) (ctxs i).t_past c l r' good e)

  pub has_settled :
      (fn : Functor)
      → Pending fn s g
          (goes_left (ctxs i).dir)
          (g.depth i)
          (ctxs i)
          (lch_of (g.final r.addr))
          (rch_of (g.final r.addr))
      → (vdep : ℕ) → past_version (look s (ctxs i).t_past) ≡ ok vdep
      → vdep ≤ committed
      → HasSettled fuel version issued committed s ctxs g inv all i positive le r run fn
  has_settled fn_search h vdep seen le' =
      let (lch, rch, e) =
        look_cell fuel s g inv.nodes ((ctxs i).ver - 1) (g.depth i) (ctxs i).t_past h.past_cell
          h.past_lch h.past_rch h.past_good h.past in
      let same : h.past_cell.ver ≡ vdep =
        past_version_lem (look s (ctxs i).t_past) vdep h.past_cell lch rch e seen in
      settled_past h.past_cell h.past_lch h.past_rch h.past (omega (arith, same)) h.past_good
  has_settled fn_setref h vdep seen le' =
      let l = lch_of (g.final r.addr) in
      let r' = rch_of (g.final r.addr) in
      let (lch, rch, e) =
        look_cell fuel s g inv.nodes ((ctxs i).ver - 1) (g.depth i) (ctxs i).t_past h.past_cell l r'
          h.past_good h.past in
      let same : h.past_cell.ver ≡ vdep =
        past_version_lem (look s (ctxs i).t_past) vdep h.past_cell lch rch e seen in
      settled_past h.past_cell l r' h.past (omega (arith, same)) h.past_good
  has_settled fn_concat h vdep seen le' = tt
