-- ===== src/Tree/Release/Safe.antt =====
-- What releasing a tree does to the memory.
use contreap.Prelude.{
  ℕ, zero, suc, ◌+◌, ◌≡◌, ◌≤◌, ◌<◌, refl, sym, ◌∙◌, arith, ◌==◌, true, false, Option, none, some,
  if◌then◌else◌, inl, inr, Bool-cases,
}
use mathlib.Core.Path.{subst}
use contreap.Tree.{Tree, null, node, size}
use contreap.Tree.Release.{
  Memory, clear, array, delete_node, release_node, read_child, release_tree,
}

-- How often a node is in a tree of addresses.
abbrev pub times : ℕ → Tree ℕ → ℕ
times b null = 0
times b (node a l r) = times b l + (if b == a then 1 else 0) + times b r

-- The pointer leads to this tree of allocated nodes.
abbrev pub Leads : Memory → Option ℕ → Tree ℕ → Type 0
Leads m p null = p ≡ none
Leads m p (node a l r) =
    (p ≡ some a) × (m.live a ≡ true) × Leads m (m.lch a) l × Leads m (m.rch a) r

-- The memory after the nodes that this counts are given back: these are gone, the others are as they
-- were, and no pointer has changed.
pub record Released (m m' : Memory) (n : ℕ → ℕ) : Type 0 where
  pub left : m'.lch ≡ m.lch
  pub right : m'.rch ≡ m.rch
  pub vals : m'.vals ≡ m.vals
  pub gone : (b : ℕ) → 0 < n b → m'.live b ≡ false
  pub kept : (b : ℕ) → n b ≡ 0 → m'.live b ≡ m.live b

abbrev pub only : ℕ → ℕ → ℕ
only a b = if b == a then 1 else 0

Released-nothing : (m : Memory) → Released m m (λ b. 0)
Released-nothing m = record {
  left = refl;
  right = refl;
  vals = refl;
  gone = λ b pos. absurd (omega (arith, pos));
  kept = λ b z. refl;
}

Released-then :
    {m m1 m2 : Memory} {n k : ℕ → ℕ}
    → Released m m1 n
    → Released m1 m2 k
    → Released m m2 (λ b. n b + k b)
Released-then {m} {m1} {m2} {n} {k} r s = record {
  left = s.left ∙ r.left;
  right = s.right ∙ r.right;
  vals = s.vals ∙ r.vals;
  gone = λ b pos. elim (Bool-cases (k b == 0)) [
    | inl z ↦ s.kept b (ground (arith, z)) ∙ r.gone b (ground (arith, z, pos))
    | inr z ↦ s.gone b (ground (arith, z))
  ];
  kept = λ b z. s.kept b (omega (arith, z)) ∙ r.kept b (omega (arith, z));
}

Released-same :
    {m m' : Memory} {n k : ℕ → ℕ} → ((b : ℕ) → n b ≡ k b) → Released m m' n → Released m m' k
Released-same e r = record {
  left = r.left;
  right = r.right;
  vals = r.vals;
  gone = λ b pos. r.gone b (omega (arith, pos, e b));
  kept = λ b z. r.kept b (omega (arith, z, e b));
}

-- A tree that shares no node with what was given back is still there.
Leads-kept :
    {m m' : Memory} {n : ℕ → ℕ} (r : Released m m' n) (p : Option ℕ) (u : Tree ℕ)
    → ((b : ℕ) → 0 < times b u → n b ≡ 0)
    → Leads m p u
    → Leads m' p u
Leads-kept r p null apart h = h
Leads-kept {m} {m'} r p (node a x y) apart (here, live, left, right) =
    let out = apart a (ground arith) in
    (
      here,
      r.kept a out ∙ live,
      subst (λ f. Leads m' (f a) x) (sym r.left)
          (Leads-kept r (m.lch a) x (λ b pos. apart b (omega (arith, pos))) left),
      subst (λ f. Leads m' (f a) y) (sym r.right)
          (Leads-kept r (m.rch a) y (λ b pos. apart b (omega (arith, pos))) right),
    )

release_tree-node :
    (fuel a : ℕ) (m m1 m2 m3 : Memory)
    → m.live a ≡ true
    → release_tree release_node fuel (m.lch a) m ≡ some m1
    → m1.live a ≡ true
    → release_tree release_node fuel (m1.rch a) m1 ≡ some m2
    → release_node a m2 ≡ some m3
    → release_tree release_node (suc fuel) (some a) m ≡ some m3
unfolding release_tree
release_tree-node fuel a m m1 m2 m3 live done1 live1 done2 done3 =
    rw (live, done1, live1, done2, done3, read_child) refl

release_node-Released :
    (a : ℕ) (m : Memory)
    → m.live a ≡ true
    → (m' : Memory) × (release_node a m ≡ some m') × Released m m' (only a)
unfolding release_node
release_node-Released a m live = (
  record m { live = clear m.live a },
  rw (live, delete_node) refl,
  record {
    left = refl;
    right = refl;
    vals = refl;
    gone = λ b pos. ground (arith, pos);
    kept = λ b z. ground (arith, z);
  },
)

-- Where a pointer leads to a tree of allocated nodes, each node in one place, and the fuel is at least
-- the number of nodes: `release_tree` of lib/treap meets no memory that is gone, gives every node of the
-- tree back and no other, and changes no pointer.
pub release_tree-Safe :
    (t : Tree ℕ) (fuel : ℕ) (p : Option ℕ) (m : Memory)
    → size t ≤ fuel
    → ((b : ℕ) → times b t ≤ 1)
    → Leads m p t
    → (m' : Memory) × (release_tree release_node fuel p m ≡ some m')
      × Released m m' (λ b. times b t)
unfolding release_tree
release_tree-Safe null fuel p m enough once h = (m, rw h refl, Released-nothing m)
release_tree-Safe (node a x y) zero p m enough once h = absurd (omega (arith, enough))
release_tree-Safe (node a x y) (suc fuel) p m enough once (here, live, left, right) =
    let alone : times a x + times a y ≡ 0 = ground (arith, once a) in
    let (m1, done1, r1) =
      release_tree-Safe x fuel (m.lch a) m (omega (arith, enough)) (λ b. omega (arith, once b))
        left in
    let right1 : Leads m1 (m1.rch a) y =
      subst (λ f. Leads m1 (f a) y) (sym r1.right)
        (Leads-kept r1 (m.rch a) y (λ b pos. omega (arith, once b, pos)) right) in
    let (m2, done2, r2) =
      release_tree-Safe y fuel (m1.rch a) m1 (omega (arith, enough)) (λ b. omega (arith, once b))
        right1 in
    let both = Released-then r1 r2 in
    let out1 : times a x ≡ 0 = omega (arith, alone) in
    let (m3, done3, r3) = release_node-Released a m2 (both.kept a alone ∙ live) in
    let live1 : m1.live a ≡ true = r1.kept a out1 ∙ live in
    (
      m3,
      subst (λ q. release_tree release_node (suc fuel) q m ≡ some m3) (sym here)
          (release_tree-node fuel a m m1 m2 m3 live done1 live1 done2 done3),
      Released-same (λ b. omega arith) (Released-then both r3),
    )

-- Every node of the tree has an array of `new[]`, as the routines of lib/pam make them.
abbrev pub HasArrays : Memory → Tree ℕ → Type 0
HasArrays m null = Unit
HasArrays m (node a l r) = (m.vals a ≡ array) × HasArrays m l × HasArrays m r
