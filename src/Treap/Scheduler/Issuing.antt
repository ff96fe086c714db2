-- ===== src/Treap/Scheduler/Issuing.antt =====
-- `init_context_` as a whole: the root of a new task will lead to the tree of its version.
use contreap.Prelude.{
  ℕ, ◌+◌, ◌-◌, ◌≡◌, ◌<◌, ◌≤◌, ◌⊎◌, inl, inr, refl, ◌∙◌, sym, ap, arith, u64_mod, pred_u64,
}
use mathlib.Core.Path.{subst}
use contreap.Tree.{Tree, size}
use contreap.Treap.Node.{Cell}
use contreap.Treap.Scheduler.Store.{Store, read_tree, Result, ok, waits, ◌>>=◌}
use contreap.Treap.Scheduler.Task.{
  Context, new_context, Operation, Placed, op_none, op_insert, op_delete, st_running, fn_search,
  done, update, operate,
}
use contreap.Treap.Scheduler.Ghost.{Ghost, value, Good}
use contreap.Treap.Scheduler.Walk.{Good-mono, read_tree-Good}
use contreap.Treap.Scheduler.Invariant.{set_context, Inv}
use contreap.Treap.Scheduler.Placing.{IsPlaced}
use contreap.Treap.Scheduler.Updating.{update-MayPlace}
use contreap.Treap.Scheduler.Settled.{AllDone, settled}
use contreap.Treap.Scheduler.Issue.{begin, begin_done, begin_placed}
use contreap.Treap.Scheduler.Machine.{Machine, Request}
use contreap.Treap.Scheduler.Threads.{init_op}
use contreap.Treap.Scheduler.Protocol.{perform}

pub pred_u64-suc : (n : ℕ) → n + 1 < u64_mod → pred_u64 (n + 1) ≡ n
pred_u64-suc n h = ground arith

module _ (fuel : ℕ) (hash : ℕ → ℕ) (program : ℕ → Request) (version : ℕ → Tree Cell) (m : Machine)
    (g : Ghost) (inv : Inv fuel version m.num_issued m.store m.ctxs g)
    (all : AllDone m.ctxs m.num_committed) (fits : m.num_issued + 1 < u64_mod) where
  -- The new task is in the invariant.
  abbrev pub Issued : Result (Context × Store) → Type 0
  Issued result =
      (ctx : Context) × (store : Store) × (result ≡ ok (ctx, store))
      × (ctx.st ≡ st_running → ctx.stage ≡ 0)
      × Inv fuel version (m.num_issued + 1) store (set_context m.ctxs (m.num_issued + 1) ctx)
          (begin g m.store.next (m.num_issued + 1) (version (m.num_issued + 1)))

  abbrev pub MayIssue : Result (Context × Store) → Type 0
  MayIssue result = (result ≡ waits) ⊎ Issued result

  -- What `init_context_` makes of the context of the new task, up to the call of `update_`.
  abbrev past : Operation → ℕ → Context
  past op elem = record (m.ctxs (m.num_issued + 1)) {
    op = op;
    ver = m.num_issued + 1;
    pry = hash elem;
    key = elem;
    t_past = (m.ctxs (pred_u64 (m.num_issued + 1))).root;
  }

  -- A task that goes on is in its first stage.
  IsPlaced-stage :
      (ctx : Context) (q : Placed) (t : Tree Cell)
      → ctx.stage ≡ 0
      → IsPlaced m.store g 0 t ctx q
      → q.ctx.st ≡ st_running
      → q.ctx.stage ≡ 0
  IsPlaced-stage ctx q t z (inl started) run = started.stage ∙ z
  IsPlaced-stage ctx q t z (inr finished) run =
      let both : ⊥ = cc (finished.is_done, run) in absurd both

  updating-Issued :
      (op : Operation) (ctx : Context)
      → ctx.op ≡ op
      → ctx.ver ≡ m.num_issued + 1
      → ctx.t_past ≡ (m.ctxs m.num_issued).root
      → ctx.st ≡ st_running
      → ctx.fn ≡ fn_search
      → ctx.stage ≡ 0
      → version (m.num_issued + 1)
        ≡ operate op (m.num_issued + 1) ctx.pry ctx.key (version m.num_issued)
      → size (version (m.num_issued + 1)) ≤ fuel
      → MayIssue (do
        p ← update fuel m.num_committed m.store ctx
        ok (record p.ctx { root = p.ptr; t_cur = p.ptr }, p.store))
  updating-Issued op ctx same ver past run f stage v small =
      let n = m.num_issued in
      let root = inv.roots n (omega arith) in
      let good : Good m.store g (ctx.ver - 1) 0 ctx.t_past =
        subst (Good m.store g (ctx.ver - 1) 0) (sym past)
          (Good-mono m.store g n (ctx.ver - 1) 0 (m.ctxs n).root (omega (arith, ver)) root.good) in
      let led : value g ctx.t_past ≡ version n = ap (value g) past ∙ root.final in
      let made : operate ctx.op ctx.ver ctx.pry ctx.key (version n) ≡ version (n + 1) =
        ap (λ x. operate x ctx.ver ctx.pry ctx.key (version n)) same
        ∙ ap (λ x. operate op x ctx.pry ctx.key (version n)) ver
        ∙ sym v in
      elim (update-MayPlace fuel m.num_committed m.store g inv.nodes
        (settled fuel version n m.store m.ctxs g m.num_committed inv all) 0 ctx (version n) good led
        run f) [
          | inl w ↦ rw w (inl refl)
          | inr (q, e, placed) ↦ rw e (
              inr (
                record q.ctx { root = q.ptr; t_cur = q.ptr },
                q.store,
                refl,
                IsPlaced-stage ctx q (version (n + 1)) stage
                    (subst (λ t. IsPlaced m.store g 0 t ctx q) made placed),
                begin_placed fuel version n m.store m.ctxs g inv (n + 1) refl ctx q ver small
                    (subst (λ t. IsPlaced m.store g 0 t ctx q) made placed),
              ))
        ]

  -- Where the invariant of all tasks holds, the committed tasks are done, and the next context is as the
  -- constructor has left it, the first step of the next task waits, or it returns without a fault and
  -- the invariant holds with this task: it is in the stage 0 or done, and its root will lead to the tree that `search_insert` or
  -- `search_delete` makes of the tree of the version before, or to that tree itself for `nop`.
  pub init_op-Issued :
      (op : Operation) (elem : ℕ)
      → m.ctxs (m.num_issued + 1) ≡ new_context
      → version (m.num_issued + 1) ≡ perform hash op elem (m.num_issued + 1) (version m.num_issued)
      → size (version (m.num_issued + 1)) ≤ fuel
      → MayIssue (
          init_op fuel hash program op elem m
            (m.num_issued + 1)
            (record (m.ctxs (m.num_issued + 1)) { op = op; ver = m.num_issued + 1 }))
  unfolding init_op done
  init_op-Issued op_none elem blank v small =
      let n = m.num_issued in
      let root = inv.roots n (omega arith) in
      let before : (m.ctxs n).root ≡ (m.ctxs (pred_u64 (n + 1))).root =
        ap (λ x. (m.ctxs x).root) (sym (pred_u64-suc n fits)) in
      inr (
        _,
        m.store,
        refl,
        (λ run. cc),
        begin_done fuel version n m.store m.ctxs g inv (n + 1) refl _ (version (n + 1)) refl
            (subst (λ p. value g p ≡ version (n + 1)) before (root.final ∙ sym v))
            (Good-mono m.store g n (n + 1) 0 (m.ctxs (pred_u64 (n + 1))).root (omega arith)
              (subst (Good m.store g n 0) before root.good)),
      )
  init_op-Issued op_insert elem blank v small =
      updating-Issued op_insert (past op_insert elem) refl refl
        (ap (λ x. (m.ctxs x).root) (pred_u64-suc m.num_issued fits))
        (ap (λ (c : Context). c.st) blank) (ap (λ (c : Context). c.fn) blank)
        (ap (λ (c : Context). c.stage) blank) v small
  init_op-Issued op_delete elem blank v small =
      updating-Issued op_delete (past op_delete elem) refl refl
        (ap (λ x. (m.ctxs x).root) (pred_u64-suc m.num_issued fits))
        (ap (λ (c : Context). c.st) blank) (ap (λ (c : Context). c.fn) blank)
        (ap (λ (c : Context). c.stage) blank) v small

-- Where the invariant of all tasks holds and the committed tasks are done, a walk through the nodes
-- from the root of an issued task whose version is committed meets only nodes that have been filled,
-- and finds the tree of that version.
pub committed_root :
    (fuel : ℕ) (version : ℕ → Tree Cell) (m : Machine) (g : Ghost)
    → Inv fuel version m.num_issued m.store m.ctxs g
    → AllDone m.ctxs m.num_committed
    → (i : ℕ) → i ≤ m.num_committed
    → i ≤ m.num_issued
    → read_tree fuel m.store (m.ctxs i).root ≡ ok (version i)
committed_root fuel version m g inv all i le issued =
    let root = inv.roots i issued in
    read_tree-Good fuel m.store g inv.nodes i 0 (m.ctxs i).root root.good (
      settled fuel version m.num_issued m.store m.ctxs g m.num_committed inv all i 0 (m.ctxs i).root
        le root.good)
    ∙ ap ok root.final
