-- ===== src/Examples/Samples.antt =====
-- A hash, arrays and trees that the examples share.
use contreap.Prelude.{
  ℕ, ◌+◌, ◌-◌, ◌%◌, ◌==◌, if◌then◌else◌, arith, Bool, true, List, [], ◌∷◌, ◌++◌, count,
}
use contreap.Tree.{Tree}
use contreap.Tree.Order.{IsInjective}
use contreap.Treap.Node.{Cell}
use contreap.Treap.Build.{build_parallel}
use contreap.Treap.Build.Contents.{build_parallel-Represents}
use contreap.Treap.Represents.{Represents}
use contreap.Db.QueryProcessor.{QueryContext}

-- Exchanges neighbours, so that the heap order is not the order of the keys.
abbrev pub swap_hash : ℕ → ℕ
swap_hash k = if k % 2 == 0 then k + 1 else k - 1

pub swap_hash-IsInjective : IsInjective swap_hash
swap_hash-IsInjective a b h = ground arith

abbrev pub keys : List ℕ
keys = 5 ∷ 2 ∷ 5 ∷ 8 ∷ []

abbrev pub sample : Tree Cell
sample = build_parallel swap_hash keys

pub sample-Represents : Represents swap_hash (λ j. count j keys) 4 sample
sample-Represents = build_parallel-Represents swap_hash keys swap_hash-IsInjective (omega arith)

-- A queue as a list, which never refuses an entry.
abbrev pub enqueue : List QueryContext → QueryContext → Bool × List QueryContext
enqueue q x = (true, q ++ x ∷ [])
