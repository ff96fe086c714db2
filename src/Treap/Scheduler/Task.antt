-- ===== src/Treap/Scheduler/Task.antt =====
-- The context of a task and the steps that execute it: `concat_`, `update_`, `execute_one_step_` and
-- `execute_to_complete_`.
use contreap.Prelude.{ℕ, ◌+◌, ◌-◌, Bool, true, false, not, ltb, ◌==◌, wrap, u64_mod}
use contreap.Tree.{Tree, null}
use contreap.Treap.Node.{Cell, make_weak_copy, make_node}
use contreap.Treap.SearchInsert.{search_insert, process_deploy}
use contreap.Treap.SearchDelete.{search_delete, process_concat}
use contreap.Treap.Scheduler.Store.{
  Ptr, tree, at, Store, View, look, Result, ok, waits, fault, ◌>>=◌, alloc, child, set_child,
  read_tree,
}

pub data Status : Type 0 where
  st_running st_done : Status

pub data Operation : Type 0 where
  op_none op_insert op_delete : Operation

pub data Functor : Type 0 where
  fn_search fn_setref fn_concat : Functor

pub data Direction : Type 0 where
  dir_none dir_left dir_right : Direction

abbrev pub stage_done : ℕ
stage_done = u64_mod - 1

pub record Context : Type 0 where
  pub st : Status
  pub op : Operation
  pub fn : Functor
  pub dir : Direction
  pub t_cur : Ptr
  pub t_past : Ptr
  pub ver : ℕ
  pub pry : ℕ
  pub key : ℕ
  pub t_l : Ptr
  pub t_r : Ptr
  pub stage : ℕ
  pub root : Ptr

abbrev pub new_context : Context
new_context = record {
  st = st_running;
  op = op_none;
  fn = fn_search;
  dir = dir_none;
  t_cur = tree null;
  t_past = tree null;
  ver = 0;
  pry = 0;
  key = 0;
  t_l = tree null;
  t_r = tree null;
  stage = 0;
  root = tree null;
}

unfoldable pub done : Context → Context
done ctx = record ctx { st = st_done; stage = stage_done }

-- The code tests for `DIR_LEFT`.
abbrev pub goes_left : Direction → Bool
goes_left dir_none = false
goes_left dir_left = true
goes_left dir_right = false

abbrev pub towards : Bool → Direction
towards true = dir_left
towards false = dir_right

-- What is written to `*tp`, the context and the store after it.
pub record Placed : Type 0 where
  pub ptr : Ptr
  pub ctx : Context
  pub store : Store

abbrev pub place : Ptr → Context → Store → Placed
place p ctx s = record { ptr = p; ctx = ctx; store = s }

-- A copy of a node that is still to be filled.
unfoldable pub place_new : Store → Cell → Context → Placed
place_new s c ctx = place (at s.next) ctx (alloc s c)

unfoldable pub concat : Store → Context → Placed
concat s ctx = elim (look s ctx.t_l) [
  | View.void ↦ place ctx.t_r (done ctx) s
  | View.fields l _ _ ↦ elim (look s ctx.t_r) [
    | View.void ↦ place ctx.t_l (done ctx) s
    | View.fields r _ _ ↦ elim (ltb r.pry l.pry) [
      | true ↦ place_new s (make_weak_copy ctx.ver l) (record ctx { dir = dir_right })
      | false ↦ place_new s (make_weak_copy ctx.ver r) (record ctx { dir = dir_left })
    ]
  ]
]

-- The node of the key is found.
unfoldable pub update_found : Operation → ℕ → Store → Context → Cell → Ptr → Ptr → Result Placed
update_found op_insert committed s ctx t lch rch = ok (
    place_new s (record (make_weak_copy ctx.ver t) { val = wrap (t.val + 1) })
      (record ctx { fn = fn_setref }))
update_found _ committed s ctx t lch rch = elim (t.val == 1) [
  | true ↦ elim (ltb committed t.ver) [
    | true ↦ waits
    | false ↦ ok (concat s (record ctx { t_l = lch; t_r = rch; fn = fn_concat }))
  ]
  | false ↦ ok (
      place_new s (record (make_weak_copy ctx.ver t) { val = wrap (t.val + u64_mod - 1) })
        (record ctx { fn = fn_setref }))
]

-- The tree has no node of the key from here on. `process_deploy` walks through the past tree.
unfoldable pub update_absent : Operation → ℕ → ℕ → Store → Context → Cell → Result Placed
update_absent op_insert fuel committed s ctx t = elim (ltb committed t.ver) [
  | true ↦ waits
  | false ↦ do
    past ← read_tree fuel s ctx.t_past
    ok (place (tree (process_deploy ctx.ver past ctx.pry ctx.key)) (done ctx) s)
]
update_absent _ fuel committed s ctx t = ok (place ctx.t_past (done ctx) s)

-- The past tree has ended.
abbrev pub end_of_search : Operation → Context → Tree Cell
end_of_search op_insert ctx = make_node ctx.ver ctx.pry ctx.key
end_of_search _ ctx = null

unfoldable pub update : ℕ → ℕ → Store → Context → Result Placed
update fuel committed s ctx = elim (look s ctx.t_past) [
  | View.void ↦ ok (place (tree (end_of_search ctx.op ctx)) (done ctx) s)
  | View.fields t lch rch ↦ elim (ltb ctx.pry t.pry) [
    | true ↦
        ok (
          place_new s (make_weak_copy ctx.ver t) (record ctx { dir = towards (ltb ctx.key t.key) }))
    | false ↦ elim (t.key == ctx.key) [
      | true ↦ update_found ctx.op committed s ctx t lch rch
      | false ↦ update_absent ctx.op fuel committed s ctx t
    ]
  ]
]

-- The fields of a node; a null pointer is a fault.
abbrev pub children : View → Result (Ptr × Ptr)
children View.void = fault
children (View.fields c l r) = ok (l, r)

-- The two reads of the past node come first here; it is another node than the one that is written.
unfoldable pub step_search : ℕ → ℕ → Bool → Store → Context → Result (Context × Store)
step_search fuel committed left s ctx = do
  (lch, rch) ← children (look s ctx.t_past)
  s1 ← set_child (not left) s ctx.t_cur (child (not left) lch rch)
  p ← update fuel committed s1 (record ctx { t_past = child left lch rch })
  s2 ← set_child left p.store ctx.t_cur p.ptr
  ok (record p.ctx { t_cur = p.ptr }, s2)

unfoldable pub set_both : Store → Context → Result Store
set_both s ctx = do
  (lch, rch) ← children (look s ctx.t_past)
  s1 ← set_child true s ctx.t_cur lch
  set_child false s1 ctx.t_cur rch

-- Which of the two trees goes on, and which waits to be joined.
abbrev pub with_joined : Bool → Context → Ptr → Context
with_joined true ctx p = record ctx { t_r = p }
with_joined false ctx p = record ctx { t_l = p }

unfoldable pub step_concat : Bool → Store → Context → Result (Context × Store)
step_concat left s ctx = do
  (lch, rch) ← children (look s (child left ctx.t_r ctx.t_l))
  s1 ← set_child (not left) s ctx.t_cur (child (not left) lch rch)
  let p = concat s1 (with_joined left ctx (child left lch rch))
  s2 ← set_child left p.store ctx.t_cur p.ptr
  ok (record p.ctx { t_cur = p.ptr }, s2)

unfoldable pub execute_fn : Functor → ℕ → ℕ → Store → Context → Result (Context × Store)
execute_fn fn_search fuel committed s ctx = step_search fuel committed (goes_left ctx.dir) s ctx
execute_fn fn_setref fuel committed s ctx = do s' ← set_both s ctx; ok (done ctx, s')
execute_fn fn_concat fuel committed s ctx = step_concat (goes_left ctx.dir) s ctx

unfoldable pub execute_one_step : ℕ → ℕ → Store → Context → Result (Context × Store)
execute_one_step fuel committed s ctx = execute_fn ctx.fn fuel committed s ctx

-- The whole operation on a tree.
abbrev pub operate : Operation → ℕ → ℕ → ℕ → Tree Cell → Tree Cell
operate op_insert ver pry key t = search_insert ver t pry key
operate _ ver pry key t = search_delete ver t pry key

unfoldable pub complete_fn : Functor → ℕ → Store → Context → Result (Context × Store)
complete_fn fn_search fuel s ctx = do
  let left = goes_left ctx.dir
  (lch, rch) ← children (look s ctx.t_past)
  s1 ← set_child (not left) s ctx.t_cur (child (not left) lch rch)
  let past = child left lch rch
  t ← read_tree fuel s1 past
  s2 ← set_child left s1 ctx.t_cur (tree (operate ctx.op ctx.ver ctx.pry ctx.key t))
  ok (record ctx { t_past = past }, s2)
complete_fn fn_setref fuel s ctx = do s' ← set_both s ctx; ok (ctx, s')
complete_fn fn_concat fuel s ctx = do
  let left = goes_left ctx.dir
  (lch, rch) ← children (look s (child left ctx.t_r ctx.t_l))
  s1 ← set_child (not left) s ctx.t_cur (child (not left) lch rch)
  let joined = with_joined left ctx (child left lch rch)
  l ← read_tree fuel s1 joined.t_l
  r ← read_tree fuel s1 joined.t_r
  s2 ← set_child left s1 ctx.t_cur (tree (process_concat ctx.ver l r))
  ok (joined, s2)

unfoldable pub execute_to_complete : ℕ → Store → Context → Result (Context × Store)
execute_to_complete fuel s ctx = do (ctx', s') ← complete_fn ctx.fn fuel s ctx; ok (done ctx', s')
