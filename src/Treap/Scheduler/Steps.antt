-- ===== src/Treap/Scheduler/Steps.antt =====
-- `execute_one_step_` keeps the invariant, where the node that it reads has been filled.
use contreap.Prelude.{
  ℕ, ◌+◌, ◌-◌, ◌≡◌, ◌<◌, ◌≤◌, ◌⊎◌, inl, inr, refl, ◌∙◌, sym, Bool, true, false, not, arith,
}
use contreap.Tree.{Tree}
use contreap.Treap.Node.{Cell}
use contreap.Treap.Scheduler.Store.{Store, child, put, ok, waits}
use contreap.Treap.Scheduler.Task.{
  Context, Functor, fn_search, fn_setref, fn_concat, st_running, st_done, done, goes_left,
  step_search, set_both, execute_fn, execute_one_step, operate,
}
use contreap.Treap.Scheduler.Ghost.{Ghost, lch_of, rch_of, Good-Grows, Searching, Setting, Pending}
use contreap.Treap.Scheduler.Walk.{Good-mono, Ready, look-Children}
use contreap.Treap.Scheduler.Updating.{update-MayPlace}
use contreap.Treap.Scheduler.Invariant.{set_context, IsRunning, Inv, IsRunning-Grows}
use contreap.Treap.Scheduler.Advance.{advance}
use contreap.Treap.Scheduler.Attach.{attach, attach_whole}
use contreap.Treap.Scheduler.Settled.{ended, AllDone, settled, value-child, child-Good}
use contreap.Treap.Scheduler.Stepped.{
  Stepped, write_cur, Grows-half, inv_half, running_half, half_filled, Marked-IsPlaced,
  SameTask-IsPlaced,
}
use contreap.Treap.Scheduler.ConcatStep.{step_concat-Stepped}

module _ (fuel : ℕ) (version : ℕ → Tree Cell) (issued committed : ℕ) (s : Store)
    (ctxs : ℕ → Context) (g : Ghost) (inv : Inv fuel version issued s ctxs g)
    (all : AllDone ctxs committed) (i : ℕ) (positive : 0 < i) (le : i ≤ issued)
    (r : IsRunning fuel s g i (ctxs i)) where
  module _ (run : (ctxs i).st ≡ st_running) where
    pub step_search-Stepped :
        (left : Bool)
        → (ctxs i).fn ≡ fn_search
        → Ready g (ctxs i).t_past
        → Searching s g left
            (g.depth i)
            (ctxs i)
            (lch_of (g.final r.addr))
            (rch_of (g.final r.addr))
        → (step_search fuel committed left s (ctxs i) ≡ waits)
          ⊎ Stepped fuel version issued committed s ctxs g inv all i positive le r
              (step_search fuel committed left s (ctxs i))
    unfolding step_search running_half IsRunning-Grows put
    step_search-Stepped left f ready h =
        let v = (ctxs i).ver - 1 in
        let kids =
          look-Children fuel s g inv.nodes v (g.depth i) (ctxs i).t_past h.past_cell h.past_lch
            h.past_rch h.past_good ready h.past in
        let p = child (not left) kids.lch kids.rch in
        let past = child left kids.lch kids.rch in
        let s1 = put (not left) s r.addr p in
        let grows =
          Grows-half fuel version issued committed s ctxs g inv all i positive le r (not left) p in
        let inv1 =
          inv_half fuel version issued committed s ctxs g inv all i positive le r (not left) p in
        let past_good =
          child-Good s g v (g.depth i + 1) left kids.lch kids.rch kids.lch_good kids.rch_good in
        let other_good =
          child-Good s g v (g.depth i + 1) (not left) kids.lch kids.rch kids.lch_good
            kids.rch_good in
        let other_value =
          value-child g (not left) kids.lch kids.rch h.past_lch h.past_rch kids.lch_value
            kids.rch_value in
        let past_value =
          value-child g left kids.lch kids.rch h.past_lch h.past_rch kids.lch_value
            kids.rch_value in
        let t =
          operate (ctxs i).op (ctxs i).ver (ctxs i).pry (ctxs i).key
            (child left h.past_lch h.past_rch) in
        let half =
          half_filled fuel version issued committed s ctxs g inv all i positive le r left p t
            (other_value ∙ sym h.kept)
            (Good-mono s g v i (g.depth i + 1) p (omega (arith, r.numbered)) other_good)
            h.changed in
        let ctx1 = record (ctxs i) { t_past = past } in
        elim (update-MayPlace fuel committed s1 g inv1.nodes
          (settled fuel version issued s1 ctxs g committed inv1 all) (g.depth i + 1) ctx1
          (child left h.past_lch h.past_rch) (Good-Grows grows v (g.depth i + 1) past past_good)
          past_value run f) [
            | inl later ↦ inl (
                rw (
                  kids.seen,
                  write_cur fuel version issued committed s ctxs g inv all i positive le r
                      (not left) s p,
                  later,
                ))
            | inr (q, placed, is_placed) ↦ inr (record {
              ctx = record q.ctx { t_cur = q.ptr };
              store = put left q.store r.addr q.ptr;
              missing = t;
              made = rw (
                kids.seen,
                write_cur fuel version issued committed s ctxs g inv all i positive le r (not left)
                    s p,
                placed,
                write_cur fuel version issued committed s ctxs g inv all i positive le r left
                    q.store q.ptr,
              );
              keeps =
                  attach fuel version issued s1 ctxs g inv1 i positive le
                    (running_half fuel version issued committed s ctxs g inv all i positive le r
                      (not left) p)
                    left t ctx1 q half r.numbered refl is_placed;
              same =
                  SameTask-IsPlaced fuel version issued committed s ctxs g inv all i positive le r
                    run s1 (g.depth i + 1) t ctx1 q q.ptr
                    (record { ver = refl; op = refl; pry = refl; key = refl; root = refl })
                    is_placed;
              marked =
                  Marked-IsPlaced fuel version issued committed s ctxs g inv all i positive le r run
                    s1 (g.depth i + 1) t ctx1 q q.ptr refl is_placed;
            })
          ]

    -- A node's two children at once.
    pub set_both_lem :
        (ctx' : Context)
        → Ready g (ctxs i).t_past
        → Setting s g (g.depth i) (ctxs i) (lch_of (g.final r.addr)) (rch_of (g.final r.addr))
        → ctx'.st ≡ st_done
        → ctx'.root ≡ (ctxs i).root
        → (s' : Store) × (t : Tree Cell) × (set_both s (ctxs i) ≡ ok s')
          × Inv fuel version issued s' (set_context ctxs i ctx') (advance g s.next r.addr i t)
    unfolding set_both running_half IsRunning-Grows put
    set_both_lem ctx' ready h is_done root =
        let v = (ctxs i).ver - 1 in
        let l = lch_of (g.final r.addr) in
        let t = rch_of (g.final r.addr) in
        let kids =
          look-Children fuel s g inv.nodes v (g.depth i) (ctxs i).t_past h.past_cell l t h.past_good
            ready h.past in
        let s1 = put true s r.addr kids.lch in
        let lower : v ≤ i = omega (arith, r.numbered) in
        let half =
          half_filled fuel version issued committed s ctxs g inv all i positive le r false kids.lch
            t kids.lch_value (Good-mono s g v i (g.depth i + 1) kids.lch lower kids.lch_good)
            refl in
        (
          put false s1 r.addr kids.rch,
          t,
          rw (
            kids.seen,
            write_cur fuel version issued committed s ctxs g inv all i positive le r true s
                kids.lch,
            write_cur fuel version issued committed s ctxs g inv all i positive le r false s1
                kids.rch,
          ),
          attach_whole fuel version issued s1 ctxs g
              (inv_half fuel version issued committed s ctxs g inv all i positive le r true
                kids.lch)
              i positive le
              (running_half fuel version issued committed s ctxs g inv all i positive le r true
                kids.lch)
              false t ctx' kids.rch half kids.rch_value
              (Good-Grows
                (Grows-half fuel version issued committed s ctxs g inv all i positive le r true
                  kids.lch)
                i (g.depth i + 1) kids.rch
                (Good-mono s g v i (g.depth i + 1) kids.rch lower kids.rch_good))
              is_done root,
        )

    -- What a step reads has been filled, or the step does not read it.
    abbrev pub MayRead : Functor → Type 0
    MayRead fn_search = Ready g (ctxs i).t_past
    MayRead fn_setref = Ready g (ctxs i).t_past
    MayRead fn_concat = Unit

    execute_fn-Stepped :
        (fn : Functor)
        → (ctxs i).fn ≡ fn
        → MayRead fn
        → Pending fn s g
            (goes_left (ctxs i).dir)
            (g.depth i)
            (ctxs i)
            (lch_of (g.final r.addr))
            (rch_of (g.final r.addr))
        → (execute_fn fn fuel committed s (ctxs i) ≡ waits)
          ⊎ Stepped fuel version issued committed s ctxs g inv all i positive le r
              (execute_fn fn fuel committed s (ctxs i))
    unfolding execute_fn done
    execute_fn-Stepped fn_search f ready h = step_search-Stepped (goes_left (ctxs i).dir) f ready h
    execute_fn-Stepped fn_setref f ready h =
        let (s', t, made, keeps) = set_both_lem (done (ctxs i)) ready h refl refl in
        inr (record {
          ctx = done (ctxs i);
          store = s';
          missing = t;
          made = rw made;
          keeps = keeps;
          same = record { ver = refl; op = refl; pry = refl; key = refl; root = refl };
          marked = ended refl refl;
        })
    execute_fn-Stepped fn_concat f ready h = inr (
        step_concat-Stepped fuel version issued committed s ctxs g inv all i positive le r run
          (goes_left (ctxs i).dir) f h)

    -- Where the invariant of all tasks holds, the committed tasks are done, and the past node of the
    -- running task `i` has been filled if the step reads its children, `execute_one_step_` waits, or it
    -- returns without a fault: the invariant holds again, each pointer still leads to the tree that it
    -- was to lead to, the fields that say what the task is are as before, and the task is done or
    -- runs on in the same stage.
    pub execute_one_step-Stepped :
        MayRead (ctxs i).fn
        → (execute_one_step fuel committed s (ctxs i) ≡ waits)
          ⊎ Stepped fuel version issued committed s ctxs g inv all i positive le r
              (execute_one_step fuel committed s (ctxs i))
    unfolding execute_one_step
    execute_one_step-Stepped ready = execute_fn-Stepped (ctxs i).fn refl ready r.pending
