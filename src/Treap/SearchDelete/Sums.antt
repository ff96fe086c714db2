-- ===== src/Treap/SearchDelete/Sums.antt =====
-- The nodes that a deletion makes are the only ones without a sum, and lie above those with one.
use contreap.Prelude.{ℕ, inr, arith}
use contreap.Tree.{Tree, null, node}
use contreap.Treap.Node.{Cell}
use contreap.Treap.Augment.{IsAugmented, IsCached, IsAugmented-IsCached}
use contreap.Treap.SearchDelete.{process_concat, search_delete}

pub process_concat-IsCached :
    (ver : ℕ) (t u : Tree Cell) → IsAugmented t → IsAugmented u → IsCached (process_concat ver t u)
unfolding process_concat
process_concat-IsCached ver null u a b = IsAugmented-IsCached u b
process_concat-IsCached ver (node c l r) null a b = inr a
process_concat-IsCached ver (node c l r) (node d m s) a b = ground (
  arith,
  process_concat-IsCached ver r (node d m s),
  process_concat-IsCached ver (node c l r) m,
  IsAugmented-IsCached l,
  IsAugmented-IsCached s,
)

pub search_delete-IsCached :
    (ver pry key : ℕ) (t : Tree Cell) → IsAugmented t → IsCached (search_delete ver t pry key)
unfolding search_delete
search_delete-IsCached ver pry key null a = tt
search_delete-IsCached ver pry key (node t l r) a = ground (
  arith,
  search_delete-IsCached ver pry key l,
  search_delete-IsCached ver pry key r,
  process_concat-IsCached ver l r,
  IsAugmented-IsCached l,
  IsAugmented-IsCached r,
)
