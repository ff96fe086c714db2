-- ===== src/Examples/Latencies.antt =====
-- Tests of test/query_latency.cpp.
use contreap.Prelude.{ℕ, ◌≡◌, arith, wrap, List, [], ◌∷◌, count}
use contreap.Latency.{Query, test_perversion}
use contreap.Latency.Perversion.{sum_ranges, test_perversion_lem}

abbrev elems : List ℕ
elems = 5 ∷ 7 ∷ 5 ∷ 9 ∷ []

abbrev queries : List Query
queries = record { ver = 0; l = 5; r = 7 } ∷ record { ver = 1; l = 9; r = 9 } ∷ []

test_perversion_lem_example :
    test_perversion (λ k. k) elems queries ≡ wrap (sum_ranges (λ j. count j elems) queries)
test_perversion_lem_example = test_perversion_lem (λ k. k) elems queries (λ a b e. e) (omega arith)
