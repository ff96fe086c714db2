-- ===== src/Treap/Scheduler/Placing.antt =====
-- `concat_` and `update_`: what they put in place of a pointer will lead to the right tree.
use contreap.Prelude.{
  ℕ, ◌-◌, ◌≡◌, ◌<◌, ◌⊎◌, inl, inr, refl, ◌∙◌, sym, ap, true, false, arith, ltb, Bool-cases,
}
use mathlib.Core.Path.{subst}
use contreap.Tree.{Tree, null, node, concat_with}
use contreap.Treap.Node.{Cell, cell_keyed, make_weak_copy}
use contreap.Treap.SearchDelete.{process_concat}
use contreap.Treap.Scheduler.Store.{at, Store, alloc}
use contreap.Treap.Scheduler.Task.{
  Context, st_running, st_done, fn_concat, dir_left, dir_right, goes_left, stage_done, done, Placed,
  place_new, concat,
}
use contreap.Treap.Scheduler.Ghost.{Ghost, value, Deep, Good, IsNode, Pending}
use contreap.Treap.Scheduler.Walk.{Good-mono, Good-Deep, look_null, look_cell}

-- The fields of a context that its steps leave alone.
pub record SameTask (ctx ctx' : Context) : Type 0 where
  pub ver : ctx'.ver ≡ ctx.ver
  pub op : ctx'.op ≡ ctx.op
  pub pry : ctx'.pry ≡ ctx.pry
  pub key : ctx'.key ≡ ctx.key
  pub root : ctx'.root ≡ ctx.root

-- A node is put there that is still to be filled.
pub record Started (s : Store) (g : Ghost) (d : ℕ) (t : Tree Cell) (ctx : Context) (q : Placed)
    : Type 0 where
  pub cell : Cell
  pub lch : Tree Cell
  pub rch : Tree Cell
  pub ptr : q.ptr ≡ at s.next
  pub store : q.store ≡ alloc s cell
  pub running : q.ctx.st ≡ st_running
  pub stage : q.ctx.stage ≡ ctx.stage
  pub version : cell.ver ≡ ctx.ver
  pub final : t ≡ node cell lch rch
  pub pending : Pending q.ctx.fn s g (goes_left q.ctx.dir) d q.ctx lch rch
  pub same : SameTask ctx q.ctx

-- The tree is put there as a whole, and the task is done.
pub record Finished (s : Store) (g : Ghost) (d : ℕ) (t : Tree Cell) (ctx : Context) (q : Placed)
    : Type 0 where
  pub store : q.store ≡ s
  pub is_done : q.ctx.st ≡ st_done
  pub stage : q.ctx.stage ≡ stage_done
  pub final : value g q.ptr ≡ t
  pub good : Good s g ctx.ver d q.ptr
  pub same : SameTask ctx q.ctx

abbrev pub IsPlaced : Store → Ghost → ℕ → Tree Cell → Context → Placed → Type 0
IsPlaced s g d t ctx q = Started s g d t ctx q ⊎ Finished s g d t ctx q

same_task : (ctx : Context) → SameTask ctx ctx
same_task ctx = record { ver = refl; op = refl; pry = refl; key = refl; root = refl }

process_concat_left :
    (ver : ℕ) (c d : Cell) (l r m n : Tree Cell)
    → ltb d.pry c.pry ≡ true
    → process_concat ver (node c l r) (node d m n)
      ≡ node (make_weak_copy ver c) l (process_concat ver r (node d m n))
unfolding process_concat concat_with
process_concat_left ver c d l r m n e = rw (e, concat_with)

process_concat_right :
    (ver : ℕ) (c d : Cell) (l r m n : Tree Cell)
    → ltb d.pry c.pry ≡ false
    → process_concat ver (node c l r) (node d m n)
      ≡ node (make_weak_copy ver d) (process_concat ver (node c l r) m) n
unfolding process_concat concat_with
process_concat_right ver c d l r m n e = rw (e, concat_with)

nil-process_concat : (ver : ℕ) (t : Tree Cell) → process_concat ver null t ≡ t
unfolding process_concat concat_with
nil-process_concat ver t = refl

process_concat-nil : (ver : ℕ) (t : Tree Cell) → process_concat ver t null ≡ t
unfolding process_concat concat_with
process_concat-nil ver null = refl
process_concat-nil ver (node c l r) = refl

module _ (fuel : ℕ) (s : Store) (g : Ghost) (nodes : (a : ℕ) → a < s.next → IsNode fuel s g a) where
  -- The two trees that a context has to join.
  pub record Parts (ctx : Context) (t_l t_r : Tree Cell) : Type 0 where
    pub l_good : Good s g (ctx.ver - 1) 0 ctx.t_l
    pub r_good : Good s g (ctx.ver - 1) 0 ctx.t_r
    pub l_deep : Deep s g ctx.t_l
    pub r_deep : Deep s g ctx.t_r
    pub l_value : value g ctx.t_l ≡ t_l
    pub r_value : value g ctx.t_r ≡ t_r

  pub concat-IsPlaced :
      (d : ℕ) (ctx : Context) (t_l t_r : Tree Cell)
      → Parts ctx t_l t_r
      → ctx.st ≡ st_running
      → ctx.fn ≡ fn_concat
      → IsPlaced s g d (process_concat ctx.ver t_l t_r) ctx (concat s ctx)
  unfolding concat done place_new make_weak_copy
  concat-IsPlaced d ctx null t_r h run f =
      let seen = look_null fuel s g nodes (ctx.ver - 1) 0 ctx.t_l h.l_good h.l_value in
      rw (seen, concat)
        (inr (record {
          store = refl;
          is_done = refl;
          stage = refl;
          final = h.r_value ∙ sym (nil-process_concat ctx.ver t_r);
          good =
              Good-mono s g (ctx.ver - 1) ctx.ver d ctx.t_r (omega arith)
                (Good-Deep s g (ctx.ver - 1) 0 d ctx.t_r h.r_good h.r_deep);
          same = record { ver = refl; op = refl; pry = refl; key = refl; root = refl };
        }))
  concat-IsPlaced d ctx (node c l r) null h run f =
      let (pl, pr, seen) =
        look_cell fuel s g nodes (ctx.ver - 1) 0 ctx.t_l c l r h.l_good h.l_value in
      let end = look_null fuel s g nodes (ctx.ver - 1) 0 ctx.t_r h.r_good h.r_value in
      rw (seen, end, concat)
        (inr (record {
          store = refl;
          is_done = refl;
          stage = refl;
          final = h.l_value ∙ sym (process_concat-nil ctx.ver (node c l r));
          good =
              Good-mono s g (ctx.ver - 1) ctx.ver d ctx.t_l (omega arith)
                (Good-Deep s g (ctx.ver - 1) 0 d ctx.t_l h.l_good h.l_deep);
          same = record { ver = refl; op = refl; pry = refl; key = refl; root = refl };
        }))
  concat-IsPlaced d ctx (node c l r) (node e m n) h run f =
      let (pl, pr, seen) =
        look_cell fuel s g nodes (ctx.ver - 1) 0 ctx.t_l c l r h.l_good h.l_value in
      let (pm, pn, end) =
        look_cell fuel s g nodes (ctx.ver - 1) 0 ctx.t_r e m n h.r_good h.r_value in
      elim (Bool-cases (ltb e.pry c.pry)) [
        | inl higher ↦
            rw (seen, end, higher, concat)
              (inl (record {
                cell = make_weak_copy ctx.ver c;
                lch = l;
                rch = process_concat ctx.ver r (node e m n);
                ptr = refl;
                store = refl;
                running = run;
                stage = refl;
                version = refl;
                final = process_concat_left ctx.ver c e l r m n higher;
                pending =
                    subst
                      (λ x.
                        Pending x s g false d (record ctx { dir = dir_right }) l
                          (process_concat ctx.ver r (node e m n)))
                      (sym f)
                      (record {
                        l_good = h.l_good;
                        r_good = h.r_good;
                        l_deep = h.l_deep;
                        r_deep = h.r_deep;
                        part_cell = c;
                        part_lch = l;
                        part_rch = r;
                        part = h.l_value;
                        kept = refl;
                        changed = ap (process_concat ctx.ver r) (sym h.r_value);
                      });
                same = record { ver = refl; op = refl; pry = refl; key = refl; root = refl };
              }))
        | inr lower ↦
            rw (seen, end, lower, concat)
              (inl (record {
                cell = make_weak_copy ctx.ver e;
                lch = process_concat ctx.ver (node c l r) m;
                rch = n;
                ptr = refl;
                store = refl;
                running = run;
                stage = refl;
                version = refl;
                final = process_concat_right ctx.ver c e l r m n lower;
                pending =
                    subst
                      (λ x.
                        Pending x s g true d (record ctx { dir = dir_left })
                          (process_concat ctx.ver (node c l r) m) n)
                      (sym f)
                      (record {
                        l_good = h.l_good;
                        r_good = h.r_good;
                        l_deep = h.l_deep;
                        r_deep = h.r_deep;
                        part_cell = e;
                        part_lch = m;
                        part_rch = n;
                        part = h.r_value;
                        kept = refl;
                        changed = ap (λ t. process_concat ctx.ver t m) (sym h.l_value);
                      });
                same = record { ver = refl; op = refl; pry = refl; key = refl; root = refl };
              }))
      ]
