-- ===== src/Treap/Scheduler/Store.antt =====
-- The nodes that a task has allocated and may still have to fill, and the steps that read and
-- write them.
use contreap.Prelude.{ℕ, zero, suc, ◌+◌, Bool, true, false, ◌==◌, if◌then◌else◌}
use contreap.Tree.{Tree, null, node}
use contreap.Treap.Node.{Cell}

-- A `node_t*` of the scheduler. Nodes that are complete when they are made are the tree that the
-- pointer leads to; a node whose children are assigned later has an address.
pub data Ptr : Type 0 where
  tree : Tree Cell → Ptr
  at : ℕ → Ptr

pub record Node : Type 0 where
  pub cell : Cell
  pub lch : Ptr
  pub rch : Ptr

pub record Store : Type 0 where
  pub next : ℕ
  pub nodes : ℕ → Node

-- What a pointer shows: null, or the fields of its node.
pub data View : Type 0 where
  void : View
  fields : Cell → Ptr → Ptr → View

unfoldable pub look : Store → Ptr → View
look s (tree null) = View.void
look s (tree (node c l r)) = View.fields c (tree l) (tree r)
look s (at a) = View.fields (s.nodes a).cell (s.nodes a).lch (s.nodes a).rch

-- A step returns, has to wait for another task, or reads or writes through a pointer that has no
-- node.
pub data Result {ℓ} (A : Type ℓ) : Type ℓ where
  ok : A → Result A
  waits : Result A
  fault : Result A

infixl 5 ◌>>=◌
abbrev pub ◌>>=◌ {ℓ κ} : {A : Type ℓ} {B : Type κ} → Result A → (A → Result B) → Result B
ok a >>= f = f a
waits >>= f = waits
fault >>= f = fault

-- A new node, whose children are null.
unfoldable pub alloc : Store → Cell → Store
alloc s c = record {
  next = s.next + 1;
  nodes =
      λ j. if j == s.next then record { cell = c; lch = tree null; rch = tree null } else s.nodes j;
}

-- The child on a side, where `true` is the left one.
abbrev pub child {ℓ} : {A : Type ℓ} → Bool → A → A → A
child true l r = l
child false l r = r

abbrev pub with_child : Bool → Node → Ptr → Node
with_child true n p = record n { lch = p }
with_child false n p = record n { rch = p }

unfoldable pub put : Bool → Store → ℕ → Ptr → Store
put b s a p = record s { nodes = λ j. if j == a then with_child b (s.nodes a) p else s.nodes j }

unfoldable pub set_child : Bool → Store → Ptr → Ptr → Result Store
set_child b s (tree t) p = fault
set_child b s (at a) p = ok (put b s a p)

-- The tree that a pointer leads to, as a routine that walks through all of it finds it. The fuel is
-- the depth of the walk.
unfoldable pub read_tree : ℕ → Store → Ptr → Result (Tree Cell)
read_tree f s (tree t) = ok t
read_tree zero s (at a) = fault
read_tree (suc f) s (at a) = do
  l ← read_tree f s (s.nodes a).lch
  r ← read_tree f s (s.nodes a).rch
  ok (node (s.nodes a).cell l r)
