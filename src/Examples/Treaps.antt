-- ===== src/Examples/Treaps.antt =====
-- The treap at work.
use contreap.Prelude.{◌≡◌, refl, arith, some, none, [], ◌∷◌, ◌==◌, if◌then◌else◌, count, wrap}
use contreap.Tree.{bag, total, split_with, merge_with, merge_fuel}
use contreap.Tree.Canonical.{shape}
use contreap.Treap.Node.{cell_keyed, make_node_hashed}
use contreap.Treap.Augment.{
  augment, augment_parallel, IsAugmented, augment_lem, IsAugmented-IsCached,
}
use contreap.Treap.Represents.{Represents}
use contreap.Treap.Update.{plus, minus, insert-Represents, delete-Represents, delete-insert}
use contreap.Treap.SearchInsert.{search_insert}
use contreap.Treap.SearchDelete.{search_delete}
use contreap.Treap.Build.{build, build_fuel, build_parallel, merge, merge_cells}
use contreap.Treap.Build.Contents.{build_parallel-Represents, build_order}
use contreap.Treap.Query.{find, range_query}
use contreap.Treap.Query.Find.{val?, val?-find}
use contreap.Treap.Query.Range.{range_total, range_query_lem}
use contreap.Examples.Samples.{swap_hash, swap_hash-IsInjective, keys, sample, sample-Represents}

-- Keys 2, 5 (twice) and 8.
sample_reads :
    (val? (find sample 5) ≡ some 2) × (val? (find sample 3) ≡ none) × (range_query sample 2 5 ≡ 3)
unfolding build_parallel augment_parallel build build_fuel merge merge_with merge_fuel split_with
    merge_cells make_node_hashed find range_query
sample_reads = (refl, refl, refl)

insert-Represents_example :
    Represents swap_hash (plus (λ j. count j keys) 7) 5 (augment (search_insert 1 sample 6 7)).0
insert-Represents_example =
    insert-Represents swap_hash swap_hash-IsInjective 1 7 sample (omega arith) sample-Represents

delete-Represents_example :
    Represents swap_hash (minus (λ j. count j keys) 5) 4 (augment (search_delete 1 sample 4 5)).0
delete-Represents_example =
    delete-Represents swap_hash swap_hash-IsInjective 1 5 sample (omega arith) sample-Represents

delete-insert_example : shape (search_delete 2 (search_insert 1 sample 6 7) 6 7) ≡ shape sample
delete-insert_example =
    delete-insert swap_hash 7 1 2 4 sample swap_hash-IsInjective (omega arith) sample-Represents

range_query_lem_example : range_query sample 2 5 ≡ range_total (λ j. count j keys) 2 5
range_query_lem_example = range_query_lem swap_hash 4 2 5 sample (omega arith) sample-Represents

val?-find_example : val? (find sample 5) ≡ (if bag sample 5 == 0 then none else some (bag sample 5))
val?-find_example = val?-find sample 5 sample-Represents.treap.ordered sample-Represents.positive

build_parallel-Represents_example :
    Represents swap_hash (λ j. count j keys) 4 (build_parallel swap_hash keys)
build_parallel-Represents_example =
    build_parallel-Represents swap_hash keys swap_hash-IsInjective (omega arith)

build_order_example : shape (build swap_hash (1 ∷ 2 ∷ [])) ≡ shape (build swap_hash (2 ∷ 1 ∷ []))
build_order_example =
    build_order swap_hash (1 ∷ 2 ∷ []) (2 ∷ 1 ∷ []) swap_hash-IsInjective (omega arith)
      (omega arith) (λ j. omega arith)

augment_lem_example : ((augment sample).1 ≡ wrap (total sample)) × IsAugmented (augment sample).0
augment_lem_example = augment_lem sample (IsAugmented-IsCached sample sample-Represents.sums)
