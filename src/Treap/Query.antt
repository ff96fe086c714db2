-- ===== src/Treap/Query.antt =====
-- lib/treap/query.hpp: lookups and range sums.
pub mod Find
pub mod Range
use contreap.Prelude.{ℕ, ◌+◌, true, false, ltb, ◌==◌, wrap}
use contreap.Tree.{Tree, null, node}
use contreap.Treap.Node.{Cell}

-- The loop walks down one branch; a null pointer stands for a key that is not found.
unfoldable pub find : Tree Cell → ℕ → Tree Cell
find null key = null
find (node t lch rch) key = elim (key == t.key) [
  | true ↦ node t lch rch
  | false ↦ elim (ltb key t.key) [ true ↦ find lch key | false ↦ find rch key ]
]

-- Which bounds of the range can still cut the subtree: an open side is one that has to be checked.
pub data RangeCover : Type 0 where
  open_open open_close close_open close_close : RangeCover

unfoldable pub range_estimate : Tree Cell → ℕ → ℕ → RangeCover → ℕ
range_estimate null l r d = 0
range_estimate (node t lch rch) l r open_open = elim (ltb r t.key) [
  | true ↦ range_estimate lch l r open_open
  | false ↦ elim (ltb t.key l) [
    | true ↦ range_estimate rch l r open_open
    | false ↦
        wrap (wrap (range_estimate lch l r open_close + t.val) + range_estimate rch l r close_open)
  ]
]
range_estimate (node t lch rch) l r open_close = elim (ltb t.key l) [
  | true ↦ range_estimate rch l r open_close
  | false ↦
      wrap (wrap (range_estimate lch l r open_close + t.val) + range_estimate rch l r close_close)
]
range_estimate (node t lch rch) l r close_open = elim (ltb r t.key) [
  | true ↦ range_estimate lch l r close_open
  | false ↦
      wrap (wrap (range_estimate lch l r close_close + t.val) + range_estimate rch l r close_open)
]
range_estimate (node t lch rch) l r close_close = t.aug

-- The overload that a query calls.
unfoldable pub range_query : Tree Cell → ℕ → ℕ → ℕ
unfolding range_estimate
range_query t l r = range_estimate t l r open_open
