-- ===== src/Latency/Perversion.antt =====
-- test/query_latency.cpp: what the queries of a tree add up to.
use contreap.Prelude.{ℕ, ◌+◌, ◌≡◌, ◌<◌, arith, wrap, u64_mod, List, [], ◌∷◌, length, count}
use contreap.Tree.{Tree}
use contreap.Tree.Order.{IsInjective}
use contreap.Treap.Node.{Cell}
use contreap.Treap.Build.{build_parallel}
use contreap.Treap.Build.Contents.{build_parallel-Represents}
use contreap.Treap.Represents.{Represents}
use contreap.Treap.Query.{range_query}
use contreap.Treap.Query.Range.{range_total, range_query_lem}
use contreap.Latency.{Query, add_queries, test_perversion}

abbrev pub sum_ranges : (ℕ → ℕ) → List Query → ℕ
sum_ranges copies [] = 0
sum_ranges copies (q ∷ queries) = range_total copies q.l q.r + sum_ranges copies queries

module _ (hash : ℕ → ℕ) where
  add_queries-sum :
      {copies : ℕ → ℕ} (n : ℕ) (t : Tree Cell) (queries : List Query) (total : ℕ)
      → n < u64_mod
      → Represents hash copies n t
      → wrap (add_queries t queries total) ≡ wrap (total + sum_ranges copies queries)
  unfolding add_queries
  add_queries-sum n t [] total w v = omega arith
  add_queries-sum n t (q ∷ queries) total w v =
      let rest = add_queries-sum n t queries (wrap (total + range_query t q.l q.r)) w v in
      let counted = range_query_lem hash n q.l q.r t w v in omega (arith, rest, counted)

  add_queries-bounded :
      (t : Tree Cell) (queries : List Query) (total : ℕ)
      → total < u64_mod
      → add_queries t queries total < u64_mod
  unfolding add_queries
  add_queries-bounded t [] total lt = lt
  add_queries-bounded t (q ∷ queries) total lt =
      add_queries-bounded t queries (wrap (total + range_query t q.l q.r)) (omega arith)

  -- Where the hash is injective and the records are fewer than 2^64: the benchmark returns, modulo 2^64,
  -- the sum over all queries of the number of records in their ranges.
  pub test_perversion_lem :
      (elems : List ℕ) (queries : List Query)
      → IsInjective hash
      → length elems < u64_mod
      → test_perversion hash elems queries ≡ wrap (sum_ranges (λ j. count j elems) queries)
  unfolding test_perversion
  test_perversion_lem elems queries injective few =
      let t = build_parallel hash elems in
      let built = build_parallel-Represents hash elems injective few in
      omega (
        arith,
        add_queries-sum (length elems) t queries 0 few built,
        add_queries-bounded t queries 0 (omega arith),
      )
