-- ===== src/Latency.antt =====
-- test/query_latency.cpp: the queries of a tree that holds all records (`test_perversion`). The timing is
-- left out.
pub mod Perversion
use contreap.Prelude.{ℕ, ◌+◌, wrap, List, [], ◌∷◌}
use contreap.Tree.{Tree}
use contreap.Treap.Node.{Cell}
use contreap.Treap.Build.{build_parallel}
use contreap.Treap.Query.{range_query}

-- `query_context`
pub record Query : Type 0 where
  pub ver : ℕ
  pub l : ℕ
  pub r : ℕ

-- The loop over the queries.
unfoldable pub add_queries : Tree Cell → List Query → ℕ → ℕ
add_queries t [] total = total
add_queries t (q ∷ queries) total = add_queries t queries (wrap (total + range_query t q.l q.r))

unfoldable pub test_perversion : (ℕ → ℕ) → List ℕ → List Query → ℕ
test_perversion hash elems queries = add_queries (build_parallel hash elems) queries 0
