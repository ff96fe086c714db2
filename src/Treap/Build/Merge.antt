-- ===== src/Treap/Build/Merge.antt =====
-- `merge` on treaps.
use contreap.Prelude.{ℕ, ◌+◌, ◌≡◌, ◌<◌, refl, inr, arith, u64_mod, ltb, ◌==◌, if◌then◌else◌}
use contreap.Tree.{Tree, node, bag, total}
use contreap.Tree.Order.{All, IsInjective, IsTreap}
use contreap.Tree.Merge.{
  Any, All-Any, IsCombine, IsSum, total-merge, bag-merge, merge_with-node, All-merge,
  positive-merge,
}
use contreap.Tree.Invariant.{merge-IsTreap as merge_with-IsTreap}
use contreap.Tree.Canonical.{Positive}
use contreap.Treap.Node.{Cell, cell_keyed}
use contreap.Treap.Build.{split, merge_cells, merge}

pub merge_cells-IsCombine : IsCombine merge_cells
unfolding merge_cells
merge_cells-IsCombine = record { place = λ c d. inr (refl, refl) }

merge_cells-IsSum : IsSum Any Any merge_cells
unfolding merge_cells
merge_cells-IsSum = record { weight = λ c d p q h. omega arith }

-- The recursion of `merge` at two nodes: a common key, or the higher priority of the two, decides.
merge-node :
    (t_0 t_1 : Cell) (l_0 r_0 l_1 r_1 : Tree Cell)
    → merge (node t_0 l_0 r_0) (node t_1 l_1 r_1) ≡ (
        if t_0.key == t_1.key
        then node (merge_cells t_0 t_1) (merge l_0 l_1) (merge r_0 r_1)
        else if ltb t_1.pry t_0.pry
        then (let parts = split (node t_1 l_1 r_1) t_0.key in
            node t_0 (merge l_0 parts.0) (merge r_0 parts.1))
        else (let parts = split (node t_0 l_0 r_0) t_1.key in
            node t_1 (merge parts.0 l_1) (merge parts.1 r_1)))
unfolding merge split
merge-node t_0 t_1 l_0 r_0 l_1 r_1 = merge_with-node merge_cells t_0 t_1 l_0 r_0 l_1 r_1

pub merge-IsTreap :
    (hash : ℕ → ℕ) (t_0 t_1 : Tree Cell)
    → IsInjective hash
    → IsTreap hash t_0
    → IsTreap hash t_1
    → IsTreap hash (merge t_0 t_1)
unfolding merge
merge-IsTreap hash = merge_with-IsTreap hash merge_cells merge_cells-IsCombine

-- The union holds the copies of both trees.
pub bag-merge_lem :
    (t_0 t_1 : Tree Cell) (j : ℕ)
    → total t_0 + total t_1 < u64_mod
    → bag (merge t_0 t_1) j ≡ bag t_0 j + bag t_1 j
unfolding merge
bag-merge_lem t_0 t_1 j w =
    bag-merge merge_cells Any Any merge_cells-IsCombine merge_cells-IsSum t_0 t_1 j w (All-Any t_0)
      (All-Any t_1)

pub total-merge_lem :
    (t_0 t_1 : Tree Cell)
    → total t_0 + total t_1 < u64_mod
    → total (merge t_0 t_1) ≡ total t_0 + total t_1
unfolding merge
total-merge_lem t_0 t_1 w =
    total-merge merge_cells Any Any merge_cells-IsCombine merge_cells-IsSum t_0 t_1 w (All-Any t_0)
      (All-Any t_1)

pub merge-Positive :
    (t_0 t_1 : Tree Cell)
    → total t_0 + total t_1 < u64_mod
    → Positive t_0
    → Positive t_1
    → Positive (merge t_0 t_1)
unfolding merge
merge-Positive t_0 t_1 w =
    positive-merge merge_cells Any Any merge_cells-IsCombine merge_cells-IsSum t_0 t_1 w
      (All-Any t_0) (All-Any t_1)

-- No sum is written before the tree is complete.
abbrev pub IsFresh : Tree Cell → Type 0
IsFresh t = All (λ c. c.aug ≡ 0) t

pub merge-IsFresh : (t_0 t_1 : Tree Cell) → IsFresh t_0 → IsFresh t_1 → IsFresh (merge t_0 t_1)
unfolding merge merge_cells
merge-IsFresh = All-merge merge_cells (λ c. c.aug ≡ 0) (λ c d p q. q)
