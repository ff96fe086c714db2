-- ===== src/Pam/Build/Contents.antt =====
-- What the tree of the initial keys holds.
use contreap.Prelude.{
  ℕ, zero, suc, ◌+◌, ◌/◌, ◌≡◌, ◌<◌, ◌≤◌, refl, inl, List, [], ◌∷◌, length, take, drop, length-take,
  length-drop, count, count-take-drop, u64_mod, arith,
}
use contreap.Tree.{Tree, bag, total}
use contreap.Tree.Order.{All, IsInjective, IsTreap}
use contreap.Tree.Merge.{IsCombine, IsSum, bag-merge, total-merge, All-merge}
use contreap.Tree.Invariant.{merge-IsTreap}
use contreap.Pam.Node.{Cell, cell_keyed, make_node_hashed}
use contreap.Pam.Build.{merge_cells, merge, build_fuel, build}

-- A node with one value, as all nodes are while a tree is built.
abbrev Single : Cell → Type 0
Single c = c.later ≡ []

merge_cells-IsCombine : IsCombine merge_cells
unfolding merge_cells
merge_cells-IsCombine = record { place = λ c d. inl (refl, refl) }

merge_cells-IsSum : IsSum Single Single merge_cells
unfolding merge_cells
merge_cells-IsSum = record {
  weight = λ c d p q h.
      let fits : c.first.val + d.first.val < u64_mod = rw (p, q) at h in rw (p, q) (omega arith);
}

Single-merge_cells : (c d : Cell) → Single c → Single d → Single (merge_cells c d)
unfolding merge_cells
Single-merge_cells c d p q = p

-- A treap of just the keys of an array.
pub record Built (hash : ℕ → ℕ) (elems : List ℕ) (t : Tree Cell) : Type 0 where
  pub treap : IsTreap hash t
  pub size : total t ≡ length elems
  pub holds : (j : ℕ) → bag t j ≡ count j elems
  pub single : All Single t

module _ (hash : ℕ → ℕ) (injective : IsInjective hash) where
  merge-Built :
      (m : ℕ) (elems : List ℕ) (t u : Tree Cell)
      → length elems < u64_mod
      → m ≤ length elems
      → Built hash (take m elems) t
      → Built hash (drop m elems) u
      → Built hash elems (merge t u)
  unfolding merge
  merge-Built m elems t u w le p q =
      let low = length-take m elems in
      let high = length-drop m elems in
      let fits : total t + total u < u64_mod = omega (arith, p.size, q.size) in
      record {
        treap = merge-IsTreap hash merge_cells merge_cells-IsCombine t u injective p.treap q.treap;
        size = omega (
          arith,
          total-merge merge_cells Single Single merge_cells-IsCombine merge_cells-IsSum t u fits
              p.single q.single,
          p.size,
          q.size,
        );
        holds = λ j. omega (
          arith,
          bag-merge merge_cells Single Single merge_cells-IsCombine merge_cells-IsSum t u j fits
              p.single q.single,
          p.holds j,
          q.holds j,
          count-take-drop j m elems,
        );
        single = All-merge merge_cells Single Single-merge_cells t u p.single q.single;
      }

  build_fuel-Built :
      (f : ℕ) (elems : List ℕ)
      → length elems ≤ f
      → length elems < u64_mod
      → Built hash elems (build_fuel hash f elems)
  unfolding build_fuel make_node_hashed
  build_fuel-Built zero [] h w = record {
    treap = record { ordered = tt; heap = tt; hashed = tt };
    size = refl;
    holds = λ j. refl;
    single = tt;
  }
  build_fuel-Built zero (x ∷ xs) h w = elim h [ ]
  build_fuel-Built (suc f) [] h w = record {
    treap = record { ordered = tt; heap = tt; hashed = tt };
    size = refl;
    holds = λ j. refl;
    single = tt;
  }
  build_fuel-Built (suc f) (x ∷ []) h w = record {
    treap = record { ordered = (tt, tt, tt, tt); heap = (tt, tt, tt, tt); hashed = (refl, tt, tt) };
    size = refl;
    holds = λ j. omega arith;
    single = (refl, tt, tt);
  }
  build_fuel-Built (suc f) (x ∷ y ∷ rest) h w =
      let elems = x ∷ y ∷ rest in
      let half = length elems / 2 in
      let low = length-take half elems in
      let high = length-drop half elems in
      merge-Built half elems _ _ w (omega arith)
        (build_fuel-Built f (take half elems) (omega arith) (omega arith))
        (build_fuel-Built f (drop half elems) (omega arith) (omega arith))

  pub build-Built : (elems : List ℕ) → length elems < u64_mod → Built hash elems (build hash elems)
  unfolding build
  build-Built elems w = build_fuel-Built (length elems) elems (omega arith) w
