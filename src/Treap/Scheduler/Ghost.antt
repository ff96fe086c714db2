-- ===== src/Treap/Scheduler/Ghost.antt =====
-- What the nodes of the scheduler are going to be: the trees that they will lead to, and why a node
-- that is read has been filled before.
use contreap.Prelude.{
  ℕ, ◌+◌, ◌-◌, ◌≡◌, ◌<◌, ◌≤◌, ◌⊎◌, inl, inr, refl, ◌∙◌, Bool, true, false, not, arith,
}
use contreap.Tree.{Tree, null, node, size}
use contreap.Treap.Node.{Cell}
use contreap.Treap.SearchDelete.{process_concat}
use contreap.Treap.Scheduler.Store.{Ptr, tree, at, Store, child}
use contreap.Treap.Scheduler.Task.{Context, Functor, fn_search, fn_setref, fn_concat, operate}

-- For each address: the tree that it will lead to, whether its children have been assigned, and the
-- number of steps that its task had done when it was made. For each task: its steps.
pub record Ghost : Type 0 where
  pub final : ℕ → Tree Cell
  pub closed : ℕ → Bool
  pub birth : ℕ → ℕ
  pub depth : ℕ → ℕ

abbrev pub lch_of : Tree Cell → Tree Cell
lch_of null = null
lch_of (node c l r) = l

abbrev pub rch_of : Tree Cell → Tree Cell
rch_of null = null
rch_of (node c l r) = r

abbrev pub value : Ghost → Ptr → Tree Cell
value g (tree t) = t
value g (at a) = g.final a

-- All nodes from a pointer on have been filled.
pub data Deep (s : Store) (g : Ghost) : Ptr → Type 0 where
  deep_tree : (t : Tree Cell) → Deep s g (tree t)
  deep_at :
      (a : ℕ)
      → a < s.next
      → g.closed a ≡ true
      → Deep s g (s.nodes a).lch
      → Deep s g (s.nodes a).rch
      → Deep s g (at a)

-- A pointer that a task at the depth `d` may meet: to a node of a version up to `v`, which is filled
-- all the way down or was made at the same depth.
abbrev pub Good : Store → Ghost → ℕ → ℕ → Ptr → Type 0
Good s g v d (tree t) = Unit
Good s g v d (at a) =
    (a < s.next) × ((s.nodes a).cell.ver ≤ v) × (Deep s g (at a) ⊎ (g.birth a ≡ d))

-- A node whose children have been assigned.
pub record IsFilled (s : Store) (g : Ghost) (a : ℕ) : Type 0 where
  pub lch : value g (s.nodes a).lch ≡ lch_of (g.final a)
  pub rch : value g (s.nodes a).rch ≡ rch_of (g.final a)
  pub lch_good : Good s g (s.nodes a).cell.ver (g.birth a + 1) (s.nodes a).lch
  pub rch_good : Good s g (s.nodes a).cell.ver (g.birth a + 1) (s.nodes a).rch

pub record IsNode (fuel : ℕ) (s : Store) (g : Ghost) (a : ℕ) : Type 0 where
  pub shape : g.final a ≡ node (s.nodes a).cell (lch_of (g.final a)) (rch_of (g.final a))
  pub small : size (g.final a) ≤ fuel
  pub filled : g.closed a ≡ true → IsFilled s g a

-- What a running task still has to do with the two children of the node that it has made.
pub record Searching (s : Store) (g : Ghost) (left : Bool) (d : ℕ) (ctx : Context) (l r : Tree Cell)
    : Type 0 where
  pub past_good : Good s g (ctx.ver - 1) d ctx.t_past
  pub past_cell : Cell
  pub past_lch : Tree Cell
  pub past_rch : Tree Cell
  pub past : value g ctx.t_past ≡ node past_cell past_lch past_rch
  pub kept : child (not left) l r ≡ child (not left) past_lch past_rch
  pub changed :
      child left l r ≡ operate ctx.op ctx.ver ctx.pry ctx.key (child left past_lch past_rch)

pub record Setting (s : Store) (g : Ghost) (d : ℕ) (ctx : Context) (l r : Tree Cell) : Type 0 where
  pub past_good : Good s g (ctx.ver - 1) d ctx.t_past
  pub past_cell : Cell
  pub past : value g ctx.t_past ≡ node past_cell l r

-- The two trees with one of them cut down to a subtree.
abbrev pub joined : Bool → ℕ → Tree Cell → Tree Cell → Tree Cell → Tree Cell
joined true ver t_l t_r part = process_concat ver t_l part
joined false ver t_l t_r part = process_concat ver part t_r

pub record Joining (s : Store) (g : Ghost) (left : Bool) (ctx : Context) (l r : Tree Cell)
    : Type 0 where
  pub l_good : Good s g (ctx.ver - 1) 0 ctx.t_l
  pub r_good : Good s g (ctx.ver - 1) 0 ctx.t_r
  pub l_deep : Deep s g ctx.t_l
  pub r_deep : Deep s g ctx.t_r
  pub part_cell : Cell
  pub part_lch : Tree Cell
  pub part_rch : Tree Cell
  pub part : value g (child left ctx.t_r ctx.t_l) ≡ node part_cell part_lch part_rch
  pub kept : child (not left) l r ≡ child (not left) part_lch part_rch
  pub changed :
      child left l r
      ≡ joined left ctx.ver (value g ctx.t_l) (value g ctx.t_r) (child left part_lch part_rch)

abbrev pub Pending : Functor → Store → Ghost → Bool → ℕ → Context → Tree Cell → Tree Cell → Type 0
Pending fn_search s g left d ctx l r = Searching s g left d ctx l r
Pending fn_setref s g left d ctx l r = Setting s g d ctx l r
Pending fn_concat s g left d ctx l r = Joining s g left ctx l r

-- What the passing of time leaves as it is.
pub record Grows (s : Store) (g : Ghost) (s' : Store) (g' : Ghost) : Type 0 where
  pub next : s.next ≤ s'.next
  pub cell : (a : ℕ) → a < s.next → (s'.nodes a).cell ≡ (s.nodes a).cell
  pub final : (a : ℕ) → a < s.next → g'.final a ≡ g.final a
  pub birth : (a : ℕ) → a < s.next → g'.birth a ≡ g.birth a
  pub closed : (a : ℕ) → a < s.next → g.closed a ≡ true → g'.closed a ≡ true
  pub filled : (a : ℕ) → a < s.next → g.closed a ≡ true → s'.nodes a ≡ s.nodes a

module _ {s s' : Store} {g g' : Ghost} (later : Grows s g s' g') where
  pub Deep-Grows : {p : Ptr} → Deep s g p → Deep s' g' p
  Deep-Grows (deep_tree t) = deep_tree t
  Deep-Grows (deep_at a lt c l r) =
      let same = later.filled a lt c in
      deep_at a (omega (arith, later.next)) (later.closed a lt c) (rw same (Deep-Grows l))
        (rw same (Deep-Grows r))

  pub Good-Grows : (v d : ℕ) (p : Ptr) → Good s g v d p → Good s' g' v d p
  Good-Grows v d (tree t) h = tt
  Good-Grows v d (at a) (lt, le, inl deep) =
      (omega (arith, later.next), rw (later.cell a lt) le, inl (Deep-Grows deep))
  Good-Grows v d (at a) (lt, le, inr b) =
      (omega (arith, later.next), rw (later.cell a lt) le, inr (later.birth a lt ∙ b))

  pub value-Grows : (v d : ℕ) (p : Ptr) → Good s g v d p → value g' p ≡ value g p
  value-Grows v d (tree t) h = refl
  value-Grows v d (at a) h = later.final a h.0
