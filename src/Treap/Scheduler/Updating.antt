-- ===== src/Treap/Scheduler/Updating.antt =====
-- `update_`: what it puts in place of a pointer will lead to the updated tree.
use contreap.Prelude.{
  ℕ, ◌-◌, ◌≡◌, ◌<◌, ◌≤◌, inl, inr, refl, ◌∙◌, sym, ap, Bool, true, false, arith, ltb, ltb→ge, ◌==◌,
  Bool-cases,
}
use mathlib.Core.Path.{subst}
use contreap.Tree.{Tree, null, node}
use contreap.Treap.Node.{Cell, make_weak_copy}
use contreap.Treap.SearchInsert.{search_insert, process_deploy}
use contreap.Treap.SearchDelete.{search_delete}
use contreap.Treap.Scheduler.Store.{Ptr, tree, Store, ok, read_tree}
use contreap.Treap.Scheduler.Task.{
  Context, st_running, Operation, op_none, op_insert, op_delete, fn_search, dir_left, dir_right,
  towards, place_new, update_absent, end_of_search, update, operate,
}
use contreap.Treap.Scheduler.Ghost.{Ghost, value, Deep, Good, IsNode, Pending}
use contreap.Treap.Scheduler.Walk.{Good-mono, look_null, look_cell, read_tree-Good}
use contreap.Treap.Scheduler.Operating.{
  operate-null, operate_left, operate_right, insert_absent, delete_absent,
}
use contreap.Treap.Scheduler.Found.{MayPlace, Found, past-Deep, finished, Found-MayPlace}

module _ (fuel committed : ℕ) (s : Store) (g : Ghost)
    (nodes : (a : ℕ) → a < s.next → IsNode fuel s g a)
    (settled : (v d : ℕ) (p : Ptr) → v ≤ committed → Good s g v d p → Deep s g p) (d : ℕ)
    (ctx : Context) where
  insert_absent-MayPlace :
      (c : Cell) (l r : Tree Cell)
      → Found fuel committed s g nodes settled d ctx c l r
      → (c.key == ctx.key) ≡ false
      → MayPlace s g d
          (search_insert ctx.ver (node c l r) ctx.pry ctx.key)
          ctx
          (update_absent op_insert fuel committed s ctx c)
  unfolding update_absent
  insert_absent-MayPlace c l r h f = elim (Bool-cases (ltb committed c.ver)) [
    | inl later ↦ inl (rw (later, update_absent))
    | inr settled_now ↦
        let deep =
          past-Deep fuel committed s g nodes settled d ctx c l r h
            (ltb→ge committed c.ver settled_now) in
        let walked : read_tree fuel s ctx.t_past ≡ ok (node c l r) =
          read_tree-Good fuel s g nodes (ctx.ver - 1) d ctx.t_past h.good deep ∙ ap ok h.past in
        rw
          (
            insert_absent ctx.ver ctx.pry ctx.key c l r h.not_below f,
            settled_now,
            walked,
            update_absent,
          )
          (inr (
            _,
            refl,
            finished fuel committed s g nodes settled d ctx
                (process_deploy ctx.ver (node c l r) ctx.pry ctx.key)
                (tree (process_deploy ctx.ver (node c l r) ctx.pry ctx.key)) refl tt,
          ))
  ]

  delete_absent-MayPlace :
      (c : Cell) (l r : Tree Cell)
      → Found fuel committed s g nodes settled d ctx c l r
      → (c.key == ctx.key) ≡ false
      → MayPlace s g d
          (search_delete ctx.ver (node c l r) ctx.pry ctx.key)
          ctx
          (update_absent op_delete fuel committed s ctx c)
  unfolding update_absent
  delete_absent-MayPlace c l r h f =
      rw (delete_absent ctx.ver ctx.pry ctx.key c l r h.not_below f) (
        inr (
          _,
          refl,
          finished fuel committed s g nodes settled d ctx (node c l r) ctx.t_past h.past
              (Good-mono s g (ctx.ver - 1) ctx.ver d ctx.t_past (omega arith) h.good),
        ))

  absent-MayPlace :
      (op : Operation) (c : Cell) (l r : Tree Cell)
      → Found fuel committed s g nodes settled d ctx c l r
      → (c.key == ctx.key) ≡ false
      → MayPlace s g d
          (operate op ctx.ver ctx.pry ctx.key (node c l r))
          ctx
          (update_absent op fuel committed s ctx c)
  unfolding update_absent
  absent-MayPlace op_none c l r h f = delete_absent-MayPlace c l r h f
  absent-MayPlace op_insert c l r h f = insert_absent-MayPlace c l r h f
  absent-MayPlace op_delete c l r h f = delete_absent-MayPlace c l r h f

  below-MayPlace :
      (c : Cell) (l r : Tree Cell) (b : Bool)
      → Good s g (ctx.ver - 1) d ctx.t_past
      → value g ctx.t_past ≡ node c l r
      → ctx.st ≡ st_running
      → ctx.fn ≡ fn_search
      → ltb ctx.pry c.pry ≡ true
      → ltb ctx.key c.key ≡ b
      → MayPlace s g d
          (operate ctx.op ctx.ver ctx.pry ctx.key (node c l r))
          ctx
          (ok (place_new s (make_weak_copy ctx.ver c) (record ctx { dir = towards b })))
  unfolding place_new make_weak_copy
  below-MayPlace c l r true h past run f lower side = inr (
    _,
    refl,
    inl (record {
      cell = make_weak_copy ctx.ver c;
      lch = operate ctx.op ctx.ver ctx.pry ctx.key l;
      rch = r;
      ptr = refl;
      store = refl;
      running = run;
      stage = refl;
      version = refl;
      final = operate_left ctx.ver ctx.pry ctx.key c l r ctx.op lower side;
      pending =
          subst
            (λ x.
              Pending x s g true d (record ctx { dir = dir_left })
                (operate ctx.op ctx.ver ctx.pry ctx.key l) r)
            (sym f)
            (record {
              past_good = h;
              past_cell = c;
              past_lch = l;
              past_rch = r;
              past = past;
              kept = refl;
              changed = refl;
            });
      same = record { ver = refl; op = refl; pry = refl; key = refl; root = refl };
    }),
  )
  below-MayPlace c l r false h past run f lower side = inr (
    _,
    refl,
    inl (record {
      cell = make_weak_copy ctx.ver c;
      lch = l;
      rch = operate ctx.op ctx.ver ctx.pry ctx.key r;
      ptr = refl;
      store = refl;
      running = run;
      stage = refl;
      version = refl;
      final = operate_right ctx.ver ctx.pry ctx.key c l r ctx.op lower side;
      pending =
          subst
            (λ x.
              Pending x s g false d (record ctx { dir = dir_right }) l
                (operate ctx.op ctx.ver ctx.pry ctx.key r))
            (sym f)
            (record {
              past_good = h;
              past_cell = c;
              past_lch = l;
              past_rch = r;
              past = past;
              kept = refl;
              changed = refl;
            });
      same = record { ver = refl; op = refl; pry = refl; key = refl; root = refl };
    }),
  )

  -- `update_` waits, or it puts in place what will be the updated tree.
  pub update-MayPlace :
      (t : Tree Cell)
      → Good s g (ctx.ver - 1) d ctx.t_past
      → value g ctx.t_past ≡ t
      → ctx.st ≡ st_running
      → ctx.fn ≡ fn_search
      → MayPlace s g d (operate ctx.op ctx.ver ctx.pry ctx.key t) ctx (update fuel committed s ctx)
  unfolding update
  update-MayPlace null h past run f =
      let end = look_null fuel s g nodes (ctx.ver - 1) d ctx.t_past h past in
      rw (end, update)
        (inr (
          _,
          refl,
          finished fuel committed s g nodes settled d ctx
              (operate ctx.op ctx.ver ctx.pry ctx.key null) (tree (end_of_search ctx.op ctx))
              (operate-null ctx.op ctx) tt,
        ))
  update-MayPlace (node c l r) h past run f =
      let (pl, pr, seen) = look_cell fuel s g nodes (ctx.ver - 1) d ctx.t_past c l r h past in
      elim (Bool-cases (ltb ctx.pry c.pry)) [
        | inl lower ↦
            rw (seen, lower, update)
              (below-MayPlace c l r (ltb ctx.key c.key) h past run f lower refl)
        | inr not_below ↦
            let found : Found fuel committed s g nodes settled d ctx c l r = record {
              good = h;
              past = past;
              running = run;
              not_below = not_below;
            } in
            elim (Bool-cases (c.key == ctx.key)) [
              | inl same ↦
                  rw (seen, not_below, same, update)
                    (Found-MayPlace fuel committed s g nodes settled d ctx ctx.op c l r pl pr found
                      same seen)
              | inr other ↦
                  rw (seen, not_below, other, update) (absent-MayPlace ctx.op c l r found other)
            ]
      ]
