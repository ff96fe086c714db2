-- ===== src/Treap/Scheduler/Walk.antt =====
-- What a task finds when it reads through a pointer.
use contreap.Prelude.{
  ℕ, zero, suc, ◌+◌, ◌≡◌, ◌<◌, ◌≤◌, ◌⊎◌, inl, inr, refl, ◌∙◌, sym, ap, true, arith,
}
use mathlib.Core.Path.{subst}
use contreap.Tree.{Tree, null, node, size}
use contreap.Treap.Node.{Cell}
use contreap.Treap.Scheduler.Store.{Ptr, tree, at, Store, View, look, ok, read_tree}
use contreap.Treap.Scheduler.Ghost.{
  Ghost, lch_of, rch_of, value, Deep, deep_tree, deep_at, Good, IsNode,
}

pub Good-mono :
    (s : Store) (g : Ghost) (v w d : ℕ) (p : Ptr) → v ≤ w → Good s g v d p → Good s g w d p
Good-mono s g v w d (tree t) h p = tt
Good-mono s g v w d (at a) h p = (p.0, omega arith, p.2)

-- A pointer to filled nodes may be met at any depth.
pub Good-Deep :
    (s : Store) (g : Ghost) (v d e : ℕ) (p : Ptr) → Good s g v d p → Deep s g p → Good s g v e p
Good-Deep s g v d e (tree t) h q = tt
Good-Deep s g v d e (at a) h q = (h.0, h.1, inl q)

-- The node that a pointer leads to has been filled.
abbrev pub Ready : Ghost → Ptr → Type 0
Ready g (tree t) = Unit
Ready g (at a) = g.closed a ≡ true

pub Deep-Ready : {s : Store} {g : Ghost} {p : Ptr} → Deep s g p → Ready g p
Deep-Ready (deep_tree t) = tt
Deep-Ready (deep_at a lt c l r) = c

Deep-lch :
    {s : Store} {g : Ghost} (a : ℕ) {p : Ptr} → Deep s g p → p ≡ at a → Deep s g (s.nodes a).lch
Deep-lch {s} {g} a (deep_tree t) e = cc
Deep-lch {s} {g} a (deep_at b lt c l r) e =
    let same : b ≡ a = cc in subst (λ x. Deep s g (s.nodes x).lch) same l

Deep-rch :
    {s : Store} {g : Ghost} (a : ℕ) {p : Ptr} → Deep s g p → p ≡ at a → Deep s g (s.nodes a).rch
Deep-rch {s} {g} a (deep_tree t) e = cc
Deep-rch {s} {g} a (deep_at b lt c l r) e =
    let same : b ≡ a = cc in subst (λ x. Deep s g (s.nodes x).rch) same r

-- The two children of a node that is read.
pub record Children (s : Store) (g : Ghost) (v d : ℕ) (p : Ptr) (c : Cell) (l r : Tree Cell)
    : Type 0 where
  pub lch : Ptr
  pub rch : Ptr
  pub seen : look s p ≡ View.fields c lch rch
  pub lch_value : value g lch ≡ l
  pub rch_value : value g rch ≡ r
  pub lch_good : Good s g v (d + 1) lch
  pub rch_good : Good s g v (d + 1) rch
  pub lch_deep : Deep s g p → Deep s g lch
  pub rch_deep : Deep s g p → Deep s g rch

child-Good :
    (s : Store) (g : Ghost) (a v d : ℕ) (p : Ptr)
    → (Deep s g (at a) → Deep s g p)
    → (s.nodes a).cell.ver ≤ v
    → (Deep s g (at a) ⊎ (g.birth a ≡ d))
    → Good s g (s.nodes a).cell.ver (g.birth a + 1) p
    → Good s g v (d + 1) p
child-Good s g a v d (tree t) deep le either h = tt
child-Good s g a v d (at b) deep le (inl q) h = (h.0, omega arith, inl (deep q))
child-Good s g a v d (at b) deep le (inr e) h =
    let e' : g.birth a + 1 ≡ d + 1 = omega arith in
    Good-mono s g (s.nodes a).cell.ver v (d + 1) (at b) le (rw e' at h)

module _ (fuel : ℕ) (s : Store) (g : Ghost) (nodes : (a : ℕ) → a < s.next → IsNode fuel s g a) where
  pub look_null : (v d : ℕ) (p : Ptr) → Good s g v d p → value g p ≡ null → look s p ≡ View.void
  unfolding look
  look_null v d (tree null) h e = refl
  look_null v d (tree (node c l r)) h e = cc
  look_null v d (at a) h e = let shape = (nodes a h.0).shape in cc (shape, e)

  -- The fields but for the children can be read at any time.
  pub look_cell :
      (v d : ℕ) (p : Ptr) (c : Cell) (l r : Tree Cell)
      → Good s g v d p
      → value g p ≡ node c l r
      → (lch : Ptr) × (rch : Ptr) × (look s p ≡ View.fields c lch rch)
  unfolding look
  look_cell v d (tree null) c l r h e = cc
  look_cell v d (tree (node c' l' r')) c l r h e = (tree l', tree r', cc)
  look_cell v d (at a) c l r h e =
      let shape = (nodes a h.0).shape in
      let same : (s.nodes a).cell ≡ c = cc (shape, e) in
      (
        (s.nodes a).lch,
        (s.nodes a).rch,
        ap (λ x. View.fields x (s.nodes a).lch (s.nodes a).rch) same,
      )

  pub look-Children :
      (v d : ℕ) (p : Ptr) (c : Cell) (l r : Tree Cell)
      → Good s g v d p
      → Ready g p
      → value g p ≡ node c l r
      → Children s g v d p c l r
  unfolding look
  look-Children v d (tree null) c l r h ready e = cc
  look-Children v d (tree (node c' l' r')) c l r h ready e = record {
    lch = tree l';
    rch = tree r';
    seen = cc;
    lch_value = cc;
    rch_value = cc;
    lch_good = tt;
    rch_good = tt;
    lch_deep = λ q. deep_tree l';
    rch_deep = λ q. deep_tree r';
  }
  look-Children v d (at a) c l r h ready e =
      let n = nodes a h.0 in
      let f = n.filled ready in
      let same : (s.nodes a).cell ≡ c = cc (n.shape, e) in
      record {
        lch = (s.nodes a).lch;
        rch = (s.nodes a).rch;
        seen = ap (λ x. View.fields x (s.nodes a).lch (s.nodes a).rch) same;
        lch_value = f.lch ∙ ap lch_of e;
        rch_value = f.rch ∙ ap rch_of e;
        lch_good = child-Good s g a v d (s.nodes a).lch (λ q. Deep-lch a q refl) h.1 h.2 f.lch_good;
        rch_good = child-Good s g a v d (s.nodes a).rch (λ q. Deep-rch a q refl) h.1 h.2 f.rch_good;
        lch_deep = λ q. Deep-lch a q refl;
        rch_deep = λ q. Deep-rch a q refl;
      }

  -- A walk through filled nodes finds the tree that they lead to.
  pub read_tree-Deep :
      (f : ℕ) {p : Ptr} → Deep s g p → size (value g p) ≤ f → read_tree f s p ≡ ok (value g p)
  unfolding read_tree
  read_tree-Deep f (deep_tree t) h = refl
  read_tree-Deep zero (deep_at a lt c l r) h =
      let shape = (nodes a lt).shape in absurd (omega (arith, ap (size {C = Cell}) shape))
  read_tree-Deep (suc f) (deep_at a lt c l r) h =
      let n = nodes a lt in
      let q = n.filled c in
      let sizes = ap (size {C = Cell}) n.shape in
      let left : read_tree f s (s.nodes a).lch ≡ ok (lch_of (g.final a)) =
        rw q.lch at (read_tree-Deep f l (rw q.lch (omega (arith, sizes)))) in
      let right : read_tree f s (s.nodes a).rch ≡ ok (rch_of (g.final a)) =
        rw q.rch at (read_tree-Deep f r (rw q.rch (omega (arith, sizes)))) in
      rw (left, right) (ap ok (sym n.shape))

  -- Once all tasks up to a version are done, what they have made is filled.
  pub Deep-of_version :
      (v : ℕ)
      → ((a : ℕ) → a < s.next → (s.nodes a).cell.ver ≤ v → g.closed a ≡ true)
      → (t : Tree Cell) (d : ℕ) (p : Ptr) → Good s g v d p
      → value g p ≡ t
      → Deep s g p
  Deep-of_version v all t d (tree u) h e = deep_tree u
  Deep-of_version v all null d (at a) h e = let shape = (nodes a h.0).shape in cc (shape, e)
  Deep-of_version v all (node c l r) d (at a) h e =
      let closed = all a h.0 h.1 in
      let f = (nodes a h.0).filled closed in
      deep_at a h.0 closed
        (Deep-of_version v all l (g.birth a + 1) (s.nodes a).lch
          (Good-mono s g (s.nodes a).cell.ver v (g.birth a + 1) (s.nodes a).lch h.1 f.lch_good)
          (f.lch ∙ ap lch_of e))
        (Deep-of_version v all r (g.birth a + 1) (s.nodes a).rch
          (Good-mono s g (s.nodes a).cell.ver v (g.birth a + 1) (s.nodes a).rch h.1 f.rch_good)
          (f.rch ∙ ap rch_of e))

  pub read_tree-Good :
      (v d : ℕ) (p : Ptr) → Good s g v d p → Deep s g p → read_tree fuel s p ≡ ok (value g p)
  unfolding read_tree
  read_tree-Good v d (tree t) h q = refl
  read_tree-Good v d (at a) h q = read_tree-Deep fuel q (nodes a h.0).small

  -- The version of the node itself is a bound.
  pub Good-own :
      (v d : ℕ) (p : Ptr) (c : Cell) (l r : Tree Cell)
      → Good s g v d p
      → value g p ≡ node c l r
      → Good s g c.ver d p
  Good-own v d (tree t) c l r h e = tt
  Good-own v d (at a) c l r h e =
      let same : (s.nodes a).cell ≡ c = cc ((nodes a h.0).shape, e) in
      (h.0, rw same (omega arith), h.2)
