-- ===== src/Treap/SearchInsert/Sums.antt =====
-- The nodes that an insertion makes are the only ones without a sum, and lie above those with one.
use contreap.Prelude.{ℕ, inl, refl, arith}
use contreap.Tree.{Tree, null, node}
use contreap.Treap.Node.{Cell}
use contreap.Treap.Augment.{IsAugmented, IsCached, IsAugmented-IsCached}
use contreap.Treap.SearchInsert.{split_copy, process_deploy, search_insert}

pub split_copy-IsCached :
    (ver : ℕ) (t : Tree Cell) (key : ℕ)
    → IsAugmented t
    → IsCached (split_copy ver t key).0 × IsCached (split_copy ver t key).1
unfolding split_copy
split_copy-IsCached ver null key a = (tt, tt)
split_copy-IsCached ver (node t l r) key a = ground (
  arith,
  split_copy-IsCached ver l key,
  split_copy-IsCached ver r key,
  IsAugmented-IsCached l,
  IsAugmented-IsCached r,
)

pub search_insert-IsCached :
    (ver pry key : ℕ) (t : Tree Cell) → IsAugmented t → IsCached (search_insert ver t pry key)
unfolding search_insert process_deploy
search_insert-IsCached ver pry key null a = inl (refl, tt, tt)
search_insert-IsCached ver pry key (node t l r) a = ground (
  arith,
  search_insert-IsCached ver pry key l,
  search_insert-IsCached ver pry key r,
  split_copy-IsCached ver (node t l r) key,
  IsAugmented-IsCached l,
  IsAugmented-IsCached r,
)
