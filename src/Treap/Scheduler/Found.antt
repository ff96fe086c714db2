-- ===== src/Treap/Scheduler/Found.antt =====
-- `update_` at the node of the key.
use contreap.Prelude.{
  ℕ, ◌+◌, ◌-◌, ◌≡◌, ◌<◌, ◌≤◌, ◌⊎◌, inl, inr, refl, true, false, ltb, ltb→ge, ◌==◌, wrap, u64_mod,
  Bool-cases,
}
use contreap.Tree.{Tree, node}
use contreap.Treap.Node.{Cell, make_weak_copy}
use contreap.Treap.SearchInsert.{search_insert}
use contreap.Treap.SearchDelete.{search_delete, process_concat}
use contreap.Treap.Scheduler.Store.{Ptr, Store, View, look, Result, ok, waits}
use contreap.Treap.Scheduler.Task.{
  Context, st_running, Operation, op_none, op_insert, op_delete, fn_setref, fn_concat, done, Placed,
  place, place_new, concat, update_found, operate,
}
use contreap.Treap.Scheduler.Ghost.{Ghost, value, Deep, Good, IsNode}
use contreap.Treap.Scheduler.Walk.{Good-Deep, Deep-Ready, look-Children, Good-own}
use contreap.Treap.Scheduler.Placing.{Started, IsPlaced, concat-IsPlaced}
use contreap.Treap.Scheduler.Operating.{insert_found, delete_last, delete_more}

-- An update waits, or it puts something in place.
abbrev pub MayPlace : Store → Ghost → ℕ → Tree Cell → Context → Result Placed → Type 0
MayPlace s g d t ctx result =
    (result ≡ waits) ⊎ ((q : Placed) × (result ≡ ok q) × IsPlaced s g d t ctx q)

module _ (fuel committed : ℕ) (s : Store) (g : Ghost)
    (nodes : (a : ℕ) → a < s.next → IsNode fuel s g a)
    (settled : (v d : ℕ) (p : Ptr) → v ≤ committed → Good s g v d p → Deep s g p) (d : ℕ)
    (ctx : Context) where
  -- The node of the key, and what the context holds of it.
  pub record Found (c : Cell) (l r : Tree Cell) : Type 0 where
    pub good : Good s g (ctx.ver - 1) d ctx.t_past
    pub past : value g ctx.t_past ≡ node c l r
    pub running : ctx.st ≡ st_running
    pub not_below : ltb ctx.pry c.pry ≡ false

  pub past-Deep :
      (c : Cell) (l r : Tree Cell) → Found c l r → c.ver ≤ committed → Deep s g ctx.t_past
  past-Deep c l r h le =
      settled c.ver d ctx.t_past le
        (Good-own fuel s g nodes (ctx.ver - 1) d ctx.t_past c l r h.good h.past)

  -- The two trees to be joined belong to no other task.
  IsPlaced-with_parts :
      (t : Tree Cell) (t_l t_r : Ptr) (q : Placed)
      → IsPlaced s g d t (record ctx { t_l = t_l; t_r = t_r; fn = fn_concat }) q
      → IsPlaced s g d t ctx q
  IsPlaced-with_parts t t_l t_r q (inl h) = inl (record {
    cell = h.cell;
    lch = h.lch;
    rch = h.rch;
    ptr = h.ptr;
    store = h.store;
    running = h.running;
    stage = h.stage;
    version = h.version;
    final = h.final;
    pending = h.pending;
    same = record {
      ver = h.same.ver;
      op = h.same.op;
      pry = h.same.pry;
      key = h.same.key;
      root = h.same.root;
    };
  })
  IsPlaced-with_parts t t_l t_r q (inr h) = inr (record {
    store = h.store;
    is_done = h.is_done;
    stage = h.stage;
    final = h.final;
    good = h.good;
    same = record {
      ver = h.same.ver;
      op = h.same.op;
      pry = h.same.pry;
      key = h.same.key;
      root = h.same.root;
    };
  })

  setref-Started :
      (c c' : Cell) (l r : Tree Cell)
      → Found c l r
      → c'.ver ≡ ctx.ver
      → Started s g d (node c' l r) ctx (place_new s c' (record ctx { fn = fn_setref }))
  unfolding place_new
  setref-Started c c' l r h e = record {
    cell = c';
    lch = l;
    rch = r;
    ptr = refl;
    store = refl;
    running = h.running;
    stage = refl;
    version = e;
    final = refl;
    pending = record { past_good = h.good; past_cell = c; past = h.past };
    same = record { ver = refl; op = refl; pry = refl; key = refl; root = refl };
  }

  insert-Found-MayPlace :
      (c : Cell) (l r : Tree Cell) (lch rch : Ptr)
      → Found c l r
      → (c.key == ctx.key) ≡ true
      → MayPlace s g d
          (search_insert ctx.ver (node c l r) ctx.pry ctx.key)
          ctx
          (update_found op_insert committed s ctx c lch rch)
  unfolding update_found make_weak_copy
  insert-Found-MayPlace c l r lch rch h f =
      rw (insert_found ctx.ver ctx.pry ctx.key c l r h.not_below f) (
        inr (
          _,
          refl,
          inl (
              setref-Started c (record (make_weak_copy ctx.ver c) { val = wrap (c.val + 1) }) l r h
                refl),
        ))

  delete-Found-MayPlace :
      (c : Cell) (l r : Tree Cell) (lch rch : Ptr)
      → Found c l r
      → (c.key == ctx.key) ≡ true
      → look s ctx.t_past ≡ View.fields c lch rch
      → MayPlace s g d
          (search_delete ctx.ver (node c l r) ctx.pry ctx.key)
          ctx
          (update_found op_delete committed s ctx c lch rch)
  unfolding update_found make_weak_copy
  delete-Found-MayPlace c l r lch rch h f seen = elim (Bool-cases (c.val == 1)) [
    | inr more ↦
        rw (delete_more ctx.ver ctx.pry ctx.key c l r h.not_below f more, more, update_found)
          (inr (
            _,
            refl,
            inl (
                setref-Started c
                  (record (make_weak_copy ctx.ver c) { val = wrap (c.val + u64_mod - 1) }) l r h
                  refl),
          ))
    | inl one ↦ elim (Bool-cases (ltb committed c.ver)) [
      | inl later ↦ inl (rw (one, later, update_found))
      | inr settled_now ↦
          let deep = past-Deep c l r h (ltb→ge committed c.ver settled_now) in
          let parts =
            look-Children fuel s g nodes (ctx.ver - 1) d ctx.t_past c l r h.good (Deep-Ready deep)
              h.past in
          let same_l : lch ≡ parts.lch = cc (seen, parts.seen) in
          let same_r : rch ≡ parts.rch = cc (seen, parts.seen) in
          let ctx' = record ctx { t_l = parts.lch; t_r = parts.rch; fn = fn_concat } in
          rw
            (
              delete_last ctx.ver ctx.pry ctx.key c l r h.not_below f one,
              one,
              settled_now,
              same_l,
              same_r,
              update_found,
            )
            (inr (
              concat s ctx',
              refl,
              IsPlaced-with_parts (process_concat ctx.ver l r) parts.lch parts.rch _ (
                  concat-IsPlaced fuel s g nodes d ctx' l r
                    (record {
                      l_good =
                          Good-Deep s g (ctx.ver - 1) (d + 1) 0 parts.lch parts.lch_good
                            (parts.lch_deep deep);
                      r_good =
                          Good-Deep s g (ctx.ver - 1) (d + 1) 0 parts.rch parts.rch_good
                            (parts.rch_deep deep);
                      l_deep = parts.lch_deep deep;
                      r_deep = parts.rch_deep deep;
                      l_value = parts.lch_value;
                      r_value = parts.rch_value;
                    })
                    h.running refl),
            ))
    ]
  ]

  pub Found-MayPlace :
      (op : Operation) (c : Cell) (l r : Tree Cell) (lch rch : Ptr)
      → Found c l r
      → (c.key == ctx.key) ≡ true
      → look s ctx.t_past ≡ View.fields c lch rch
      → MayPlace s g d
          (operate op ctx.ver ctx.pry ctx.key (node c l r))
          ctx
          (update_found op committed s ctx c lch rch)
  unfolding update_found
  Found-MayPlace op_none c l r lch rch h f seen = delete-Found-MayPlace c l r lch rch h f seen
  Found-MayPlace op_insert c l r lch rch h f seen = insert-Found-MayPlace c l r lch rch h f
  Found-MayPlace op_delete c l r lch rch h f seen = delete-Found-MayPlace c l r lch rch h f seen

  pub finished :
      (t : Tree Cell) (p : Ptr)
      → value g p ≡ t
      → Good s g ctx.ver d p
      → IsPlaced s g d t ctx (place p (done ctx) s)
  unfolding done
  finished t p e h = inr (record {
    store = refl;
    is_done = refl;
    stage = refl;
    final = e;
    good = h;
    same = record { ver = refl; op = refl; pry = refl; key = refl; root = refl };
  })
