-- ===== src/Pam/Query.antt =====
-- lib/pam/query.hpp: lookups and range sums at a version.
pub mod Newest
use contreap.Prelude.{ℕ, ◌+◌, true, false, List, [], ◌∷◌, ltb, leb, ◌==◌, if◌then◌else◌, wrap}
use contreap.Tree.{Tree, null, node}
use contreap.Pam.Node.{ValVer, Cell}

-- The loop over the entries behind the first: `val` is that of the entry before them.
unfoldable pub value_before : ℕ → ℕ → List ValVer → ℕ
value_before v val [] = val
value_before v val (w ∷ vs) =
    let rest = value_before v w.val vs in if ltb v w.ver then val else rest

unfoldable pub find_value : Cell → ℕ → ℕ
unfolding value_before
find_value t v = if ltb v t.first.ver then 0 else value_before v t.first.val t.later

unfoldable pub find : Tree Cell → ℕ → ℕ → ℕ
find null v k = 0
find (node t lch rch) v k = elim (k == t.key) [
  | true ↦ find_value t v
  | false ↦ elim (ltb k t.key) [ true ↦ find lch v k | false ↦ find rch v k ]
]

pub data RangeCover : Type 0 where
  open_open open_close close_open close_close : RangeCover

-- `ret_l + find_value(t, v) + ret_r`
abbrev pub around : ℕ → ℕ → ℕ → ℕ
around ret_l value ret_r = wrap (wrap (ret_l + value) + ret_r)

unfoldable pub range_estimate : Tree Cell → ℕ → ℕ → ℕ → RangeCover → ℕ
range_estimate null v l r d = 0
range_estimate (node t lch rch) v l r open_open = elim (ltb r t.key) [
  | true ↦ range_estimate lch v l r open_open
  | false ↦ elim (ltb t.key l) [
    | true ↦ range_estimate rch v l r open_open
    | false ↦
        around (range_estimate lch v l r open_close) (find_value t v)
          (range_estimate rch v l r close_open)
  ]
]
range_estimate (node t lch rch) v l r open_close = elim (ltb t.key l) [
  | true ↦ range_estimate rch v l r open_close
  | false ↦
      around (range_estimate lch v l r open_close) (find_value t v)
        (range_estimate rch v l r close_close)
]
range_estimate (node t lch rch) v l r close_open = elim (ltb r t.key) [
  | true ↦ range_estimate lch v l r close_open
  | false ↦
      around (range_estimate lch v l r close_close) (find_value t v)
        (range_estimate rch v l r close_open)
]
range_estimate (node t lch rch) v l r close_close = elim (leb t.vstat v) [
  | true ↦ t.aug
  | false ↦
      around (range_estimate lch v l r close_close) (find_value t v)
        (range_estimate rch v l r close_close)
]

-- The overload that a query calls.
unfoldable pub range_query : Tree Cell → ℕ → ℕ → ℕ → ℕ
unfolding range_estimate
range_query t v l r = range_estimate t v l r open_open
