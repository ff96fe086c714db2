-- ===== src/Examples/Batches.antt =====
-- The batch trees at work.
use contreap.Prelude.{◌≡◌, ℕ, refl, arith, some, [], ◌∷◌, ◌==◌, if◌then◌else◌, ◌+◌, count}
use contreap.Tree.{Tree, bag, split_with, merge_with, merge_fuel}
use contreap.Tree.Order.{IsTreap}
use contreap.Pam.Node.{Cell, cell_keyed, make_node_hashed}
use contreap.Pam.BuildVersioned.{
  build_versioned, build_versioned_fuel, merge_versioned, merge_values,
}
use contreap.Pam.BuildVersioned.Find.{count_until, find-build_versioned, build_versioned-IsTreap}
use contreap.Pam.BuildVersioned.Contents.{build_versioned-HoldsKeys}
use contreap.Pam.Query.{find, find_value, value_before, range_query}
use contreap.Pam.Interface.{inserted, deleted}
use contreap.Pam.Interface.Updates.{inserted_lem, deleted_lem}
use contreap.Db.Batch.{Root}
use contreap.Db.Batch.Client.{Cursor, Outcome, read_root, process_range_query}
use contreap.Db.Batch.Seek.{IsFound, process_range_query_lem}
use contreap.Examples.Samples.{swap_hash, swap_hash-IsInjective, keys}

-- Versions 1 to 4 of an empty tree.
abbrev batch : Tree Cell
batch = build_versioned swap_hash 1 keys

find-build_versioned_example : find batch 2 5 ≡ count_until 2 1 5 keys
find-build_versioned_example =
    find-build_versioned swap_hash 1 keys 2 5 swap_hash-IsInjective (omega arith)

inserted_lem_example :
    IsTreap swap_hash (inserted swap_hash batch 5 (5 ∷ 9 ∷ []))
    × ((j : _)
        → bag (inserted swap_hash batch 5 (5 ∷ 9 ∷ [])) j ≡ bag batch j + count j (5 ∷ 9 ∷ []))
inserted_lem_example =
    inserted_lem swap_hash swap_hash-IsInjective 5 (5 ∷ 9 ∷ []) batch
      (build_versioned-IsTreap swap_hash 1 keys swap_hash-IsInjective)
      (omega (arith, (build_versioned-HoldsKeys swap_hash 1 keys (omega arith)).size))

deleted_lem_example :
    IsTreap swap_hash (deleted swap_hash batch 5 (5 ∷ 9 ∷ []))
    × ((j : _)
        → bag (deleted swap_hash batch 5 (5 ∷ 9 ∷ [])) j
          ≡ (if count j (5 ∷ 9 ∷ []) == 0 then bag batch j else 0))
deleted_lem_example =
    deleted_lem swap_hash swap_hash-IsInjective 5 (5 ∷ 9 ∷ []) batch
      (build_versioned-IsTreap swap_hash 1 keys swap_hash-IsInjective) (omega arith)

-- The second copy of 5 has version 3.
batch_reads :
    (find batch 0 5 ≡ 0)
    × (find batch 2 5 ≡ 1)
    × (find batch 3 5 ≡ 2)
    × (range_query batch 4 2 5 ≡ 3)
unfolding build_versioned build_versioned_fuel merge_versioned merge_values merge_with merge_fuel
    split_with make_node_hashed find find_value value_before range_query
batch_reads = (refl, refl, refl, refl)

-- Three roots, and a cursor on the first of them that knows of no other.
abbrev root_of : ℕ → Root
root_of v = record { ver = v; t = batch }

abbrev at_first : Cursor
at_first = record {
  cur_vid = 0;
  last_vid = 0;
  behind = [];
  cur_root = root_of 0;
  ahead = root_of 2 ∷ root_of 4 ∷ [];
}

process_range_query_lem_example :
    (c' : Cursor) × (process_range_query 2 3 5 5 at_first
      ≡ some (Outcome.value c' (read_root c'.cur_root 3 5 5)))
    × IsFound 2 3 at_first c'
process_range_query_lem_example =
    process_range_query_lem 2 3 5 5 at_first
      (record { placed = refl; counted = refl; known = omega arith }) (omega arith) (omega arith)
