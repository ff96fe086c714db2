-- ===== src/Treap/SearchDelete/Contents.antt =====
-- What a treap holds after a deletion.
use contreap.Prelude.{ℕ, ◌-◌, ◌≡◌, ◌<◌, ◌≤◌, arith, ◌==◌, if◌then◌else◌, u64_mod}
use contreap.Tree.{Tree, null, node, bag, total}
use contreap.Tree.Order.{IsTreap, lch-IsTreap, rch-IsTreap, IsInjective}
use contreap.Tree.Concat.{All-concat, bag-concat, total-concat}
use contreap.Tree.Canonical.{Positive, bag-Below, bag-Above, hash-le-root}
use contreap.Treap.Node.{Cell, cell_keyed, make_weak_copy, make_weak_copy-IsCopy}
use contreap.Treap.SearchDelete.{process_concat, search_delete}
use contreap.Treap.SearchInsert.Invariant.{beyond}

concat-Positive :
    (ver : ℕ) (t u : Tree Cell) → Positive t → Positive u → Positive (process_concat ver t u)
unfolding process_concat
concat-Positive ver = All-concat (make_weak_copy ver) (λ c. 0 < c.val) (λ c h. h)

module _ (hash : ℕ → ℕ) (ver key : ℕ) where
  pub search_delete-Positive :
      (t : Tree Cell)
      → total t < u64_mod
      → Positive t
      → Positive (search_delete ver t (hash key) key)
  unfolding search_delete make_weak_copy
  search_delete-Positive null w p = tt
  search_delete-Positive (node t l r) w p =
      ground (arith, search_delete-Positive l, search_delete-Positive r, concat-Positive ver l r)

  -- One copy of the key fewer, if there is one, and as many of any other.
  pub bag-search_delete :
      (t : Tree Cell) (j : ℕ)
      → IsInjective hash
      → IsTreap hash t
      → Positive t
      → total t < u64_mod
      → bag (search_delete ver t (hash key) key) j ≡ bag t j - (if key == j then 1 else 0)
  unfolding search_delete process_concat make_weak_copy
  bag-search_delete null j injective v p w = ground arith
  bag-search_delete (node t l r) j injective v p w = ground (
    arith,
    bag-search_delete l j injective (lch-IsTreap hash v),
    bag-search_delete r j injective (rch-IsTreap hash v),
    bag-concat (make_weak_copy ver) (make_weak_copy-IsCopy ver) l r j,
    bag-Below t.key j l v.ordered.0,
    bag-Above t.key j r v.ordered.1,
    hash-le-root hash t l r key v,
    beyond hash ver key t l r v,
    injective t.key key,
  )

  pub total-search_delete :
      (t : Tree Cell)
      → total t < u64_mod
      → Positive t
      → total (search_delete ver t (hash key) key) ≤ total t
  unfolding search_delete process_concat make_weak_copy
  total-search_delete null w p = omega arith
  total-search_delete (node t l r) w p = ground (
    arith,
    total-search_delete l,
    total-search_delete r,
    total-concat (make_weak_copy ver) (make_weak_copy-IsCopy ver) l r,
  )
