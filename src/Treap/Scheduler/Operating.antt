-- ===== src/Treap/Scheduler/Operating.antt =====
-- The equations of `search_insert` and `search_delete`, case by case.
use contreap.Prelude.{ℕ, ◌+◌, ◌-◌, ◌≡◌, refl, true, false, ltb, ◌==◌, wrap, u64_mod}
use contreap.Tree.{Tree, null, node}
use contreap.Treap.Node.{Cell, make_weak_copy}
use contreap.Treap.SearchInsert.{search_insert, process_deploy}
use contreap.Treap.SearchDelete.{search_delete, process_concat}
use contreap.Treap.Scheduler.Task.{
  Context, Operation, op_none, op_insert, op_delete, end_of_search, operate,
}

pub operate-null :
    (op : Operation) (ctx : Context)
    → end_of_search op ctx ≡ operate op ctx.ver ctx.pry ctx.key null
unfolding search_insert search_delete
operate-null op_none ctx = refl
operate-null op_insert ctx = refl
operate-null op_delete ctx = refl

module _ (ver pry key : ℕ) (c : Cell) (l r : Tree Cell) where
  pub operate_left :
      (op : Operation)
      → ltb pry c.pry ≡ true
      → ltb key c.key ≡ true
      → operate op ver pry key (node c l r)
        ≡ node (make_weak_copy ver c) (operate op ver pry key l) r
  unfolding search_insert search_delete make_weak_copy
  operate_left op_none e f = rw (e, f, search_delete)
  operate_left op_insert e f = rw (e, f, search_insert)
  operate_left op_delete e f = rw (e, f, search_delete)

  pub operate_right :
      (op : Operation)
      → ltb pry c.pry ≡ true
      → ltb key c.key ≡ false
      → operate op ver pry key (node c l r)
        ≡ node (make_weak_copy ver c) l (operate op ver pry key r)
  unfolding search_insert search_delete make_weak_copy
  operate_right op_none e f = rw (e, f, search_delete)
  operate_right op_insert e f = rw (e, f, search_insert)
  operate_right op_delete e f = rw (e, f, search_delete)

  module _ (e : ltb pry c.pry ≡ false) where
    pub insert_found :
        (c.key == key) ≡ true
        → search_insert ver (node c l r) pry key
          ≡ node (record (make_weak_copy ver c) { val = wrap (c.val + 1) }) l r
    unfolding search_insert make_weak_copy
    insert_found f = rw (e, f, search_insert)

    pub insert_absent :
        (c.key == key) ≡ false
        → search_insert ver (node c l r) pry key ≡ process_deploy ver (node c l r) pry key
    unfolding search_insert
    insert_absent f = rw (e, f, search_insert)

    pub delete_last :
        (c.key == key) ≡ true
        → (c.val == 1) ≡ true
        → search_delete ver (node c l r) pry key ≡ process_concat ver l r
    unfolding search_delete
    delete_last f h = rw (e, f, h, search_delete)

    pub delete_more :
        (c.key == key) ≡ true
        → (c.val == 1) ≡ false
        → search_delete ver (node c l r) pry key
          ≡ node (record (make_weak_copy ver c) { val = wrap (c.val + u64_mod - 1) }) l r
    unfolding search_delete make_weak_copy
    delete_more f h = rw (e, f, h, search_delete)

    pub delete_absent : (c.key == key) ≡ false → search_delete ver (node c l r) pry key ≡ node c l r
    unfolding search_delete
    delete_absent f = rw (e, f, search_delete)
