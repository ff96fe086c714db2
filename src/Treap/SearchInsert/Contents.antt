-- ===== src/Treap/SearchInsert/Contents.antt =====
-- What a treap holds after an insertion.
use contreap.Prelude.{ℕ, ◌+◌, ◌≡◌, ◌<◌, arith, ◌==◌, if◌then◌else◌, u64_mod}
use contreap.Tree.{Tree, null, node, bag, total}
use contreap.Tree.Split.{All-split, bag-split, total-split}
use contreap.Tree.Canonical.{Positive}
use contreap.Treap.Node.{Cell, cell_keyed, make_weak_copy, make_weak_copy-IsCopy}
use contreap.Treap.SearchInsert.{split_copy, process_deploy, search_insert}

module _ (ver pry key : ℕ) where
  -- One more copy of the key, and as many of any other, in whatever tree.
  pub bag-search_insert :
      (t : Tree Cell) (j : ℕ)
      → bag t key + 1 < u64_mod
      → bag (search_insert ver t pry key) j ≡ bag t j + (if key == j then 1 else 0)
  unfolding search_insert make_weak_copy process_deploy split_copy
  bag-search_insert null j w = ground arith
  bag-search_insert (node t l r) j w = ground (
    arith,
    bag-search_insert l j,
    bag-search_insert r j,
    bag-split (make_weak_copy ver) (make_weak_copy-IsCopy ver) (node t l r) key j,
  )

  pub total-search_insert :
      (t : Tree Cell) → total t + 1 < u64_mod → total (search_insert ver t pry key) ≡ total t + 1
  unfolding search_insert make_weak_copy process_deploy split_copy
  total-search_insert null w = ground arith
  total-search_insert (node t l r) w = ground (
    arith,
    total-search_insert l,
    total-search_insert r,
    total-split (make_weak_copy ver) (make_weak_copy-IsCopy ver) (node t l r) key,
  )

  pub search_insert-Positive :
      (t : Tree Cell)
      → bag t key + 1 < u64_mod
      → Positive t
      → Positive (search_insert ver t pry key)
  unfolding search_insert make_weak_copy process_deploy split_copy
  search_insert-Positive null w p = ground arith
  search_insert-Positive (node t l r) w p = ground (
    arith,
    search_insert-Positive l,
    search_insert-Positive r,
    All-split (make_weak_copy ver) (λ c. 0 < c.val) (λ c h. h) (node t l r) key,
  )
