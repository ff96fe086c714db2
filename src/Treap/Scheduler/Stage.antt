-- ===== src/Treap/Scheduler/Stage.antt =====
-- The stage of a context does not matter for the invariant of the tasks.
use contreap.Prelude.{ℕ, ◌≡◌, inl, inr, refl, Bool, ◌==◌, ==→eq, Bool-cases}
use mathlib.Core.Path.{subst}
use contreap.Tree.{Tree}
use contreap.Treap.Node.{Cell}
use contreap.Treap.Scheduler.Store.{Store}
use contreap.Treap.Scheduler.Task.{Context, Functor, fn_search, fn_setref, fn_concat, goes_left}
use contreap.Treap.Scheduler.Ghost.{Ghost, lch_of, rch_of, Pending}
use contreap.Treap.Scheduler.Invariant.{set_context, IsRunning, Inv}

abbrev pub with_stage : Context → ℕ → Context
with_stage ctx n = record ctx { stage = n }

Pending-with_stage :
    (fn : Functor) (s : Store) (g : Ghost) (left : Bool) (d : ℕ) (ctx : Context) (l r : Tree Cell)
    (n : ℕ)
    → Pending fn s g left d ctx l r
    → Pending fn s g left d (with_stage ctx n) l r
Pending-with_stage fn_search s g left d ctx l r n p = record {
  past_good = p.past_good;
  past_cell = p.past_cell;
  past_lch = p.past_lch;
  past_rch = p.past_rch;
  past = p.past;
  kept = p.kept;
  changed = p.changed;
}
Pending-with_stage fn_setref s g left d ctx l r n p = record {
  past_good = p.past_good;
  past_cell = p.past_cell;
  past = p.past;
}
Pending-with_stage fn_concat s g left d ctx l r n p = record {
  l_good = p.l_good;
  r_good = p.r_good;
  l_deep = p.l_deep;
  r_deep = p.r_deep;
  part_cell = p.part_cell;
  part_lch = p.part_lch;
  part_rch = p.part_rch;
  part = p.part;
  kept = p.kept;
  changed = p.changed;
}

module _ (fuel : ℕ) (version : ℕ → Tree Cell) (issued : ℕ) (s : Store) (ctxs : ℕ → Context)
    (g : Ghost) (inv : Inv fuel version issued s ctxs g) (i n : ℕ) where
  IsRunning-with_stage :
      (j : ℕ) → IsRunning fuel s g j (ctxs j) → IsRunning fuel s g j (with_stage (ctxs j) n)
  IsRunning-with_stage j r = record {
    addr = r.addr;
    cur = r.cur;
    valid = r.valid;
    opened = r.opened;
    born = r.born;
    version = r.version;
    numbered = r.numbered;
    bounded = r.bounded;
    pending =
        Pending-with_stage (ctxs j).fn s g (goes_left (ctxs j).dir) (g.depth j) (ctxs j)
          (lch_of (g.final r.addr)) (rch_of (g.final r.addr)) n r.pending;
  }

  -- The context before, for any other field.
  same_field :
      {A : Type 0} (f : Context → A)
      → ((c : Context) → f (with_stage c n) ≡ f c)
      → (j : ℕ) → f (set_context ctxs i (with_stage (ctxs i) n) j) ≡ f (ctxs j)
  same_field f kept j = elim (Bool-cases (j == i)) [
    | inl e ↦
        rw e (subst (λ x. f (with_stage (ctxs x) n) ≡ f (ctxs j)) (==→eq j i e) (kept (ctxs j)))
    | inr e ↦ rw e refl
  ]

  pub Inv-with_stage : Inv fuel version issued s (set_context ctxs i (with_stage (ctxs i) n)) g
  Inv-with_stage =
      let same_st = same_field (λ c. c.st) (λ c. refl) in
      let same_cur = same_field (λ c. c.t_cur) (λ c. refl) in
      let same_root = same_field (λ c. c.root) (λ c. refl) in
      record {
        nodes = inv.nodes;
        owners = λ a lt c.
            let o = inv.owners a lt c in
            record {
              positive = o.positive;
              issued_already = o.issued_already;
              running = rw (same_st (s.nodes a).cell.ver) o.running;
              cur = rw (same_cur (s.nodes a).cell.ver) o.cur;
            };
        tasks = λ j pos le run.
            let r = inv.tasks j pos le (rw (same_st j) at run) in
            elim (Bool-cases (j == i)) [
              | inl e ↦ rw e (
                  subst (λ x. IsRunning fuel s g j (with_stage (ctxs x) n)) (==→eq j i e)
                    (IsRunning-with_stage j r))
              | inr e ↦ rw e r
            ];
        roots = λ j le.
            let r = inv.roots j le in
            record { final = rw (same_root j) r.final; good = rw (same_root j) r.good };
      }
