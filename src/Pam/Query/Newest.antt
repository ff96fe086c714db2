-- ===== src/Pam/Query/Newest.antt =====
-- lib/pam/query.hpp: what a query of the newest version is answered.
use contreap.Prelude.{ℕ, ◌+◌, ◌≡◌, ◌<◌, refl, sym, ap, ◌∙◌, arith, wrap, u64_mod}
use contreap.Tree.{Tree, null, node, bag, total}
use contreap.Tree.Order.{All, IsOrdered}
use contreap.Tree.Canonical.{bag-Below, bag-Above}
use contreap.Treap
use contreap.Treap.Node.{cell_keyed as treap_keyed}
use mathlib.Core.Path.{fun_ext}
use contreap.Treap.Query.Range.{range_total, range_query-total}
use contreap.Pam.Node.{Cell, cell_keyed, last}
use contreap.Pam.Sums.{IsAugmented}
use contreap.Pam.BuildVersioned.Versions.{Older, value_before_all}
use contreap.Pam.Query.{
  find_value, find, RangeCover, open_open, open_close, close_open, close_close, range_estimate,
  range_query,
}

-- A version that no entry is newer than reads the last value.
find_value-Older : (v : ℕ) (c : Cell) → Older (v + 1) c → find_value c v ≡ (last c).val
unfolding find_value
find_value-Older v c h = ground (arith, value_before_all v (v + 1) c.first c.later h.1)

-- A lookup in the newest version reads the number of copies of its key, which is 0 for a key that is
-- not there.
pub find-newest :
    (v key : ℕ) (t : Tree Cell) → IsOrdered t → All (Older (v + 1)) t → find t v key ≡ bag t key
unfolding find
find-newest v key null o h = refl
find-newest v key (node t l r) o h = ground (
  arith,
  find-newest v key l,
  find-newest v key r,
  find_value-Older v t,
  bag-Below t.key key l,
  bag-Above t.key key r,
)

-- The newest values alone, as a tree of lib/treap.
abbrev newest : Cell → Treap.Node.Cell
newest c = record { ver = (last c).ver; pry = c.pry; key = c.key; val = (last c).val; aug = c.aug }

abbrev shown : Tree Cell → Tree Treap.Node.Cell
shown null = null
shown (node t l r) = node (newest t) (shown l) (shown r)

bag-shown : (t : Tree Cell) (j : ℕ) → bag (shown t) j ≡ bag t j
bag-shown null j = refl
bag-shown (node t l r) j = ground (arith, bag-shown l j, bag-shown r j)

total-shown : (t : Tree Cell) → total (shown t) ≡ total t
total-shown null = refl
total-shown (node t l r) = ground (arith, total-shown l, total-shown r)

All-shown :
    (P : Treap.Node.Cell → Type 0) (t : Tree Cell) → All (λ c. P (newest c)) t → All P (shown t)
All-shown P null h = tt
All-shown P (node t l r) h = (h.0, All-shown P l h.1, All-shown P r h.2)

shown-IsOrdered : (t : Tree Cell) → IsOrdered t → IsOrdered (shown t)
shown-IsOrdered null o = tt
shown-IsOrdered (node t l r) o = (
  All-shown (λ c. c.key < t.key) l o.0,
  All-shown (λ c. t.key < c.key) r o.1,
  shown-IsOrdered l o.2,
  shown-IsOrdered r o.3,
)

shown-IsAugmented : (t : Tree Cell) → IsAugmented t → Treap.Augment.IsAugmented (shown t)
shown-IsAugmented null a = tt
shown-IsAugmented (node t l r) a = (
  ground (arith, a.0, total-shown l, total-shown r),
  shown-IsAugmented l a.1,
  shown-IsAugmented r a.2,
)

abbrev cover : RangeCover → Treap.Query.RangeCover
cover open_open = Treap.Query.open_open
cover open_close = Treap.Query.open_close
cover close_open = Treap.Query.close_open
cover close_close = Treap.Query.close_close

-- Where all of a subtree is asked for, its cached sum is what reading its nodes gives.
close_close_lem :
    (v l r : ℕ) (t : Tree Cell)
    → IsAugmented t
    → All (Older (v + 1)) t
    → range_estimate t v l r close_close ≡ wrap (total t)
unfolding range_estimate
close_close_lem v l r null a h = refl
close_close_lem v l r (node t x y) a h =
    ground (arith, close_close_lem v l r x, close_close_lem v l r y, find_value-Older v t)

shown-close_close :
    (l r : ℕ) (t : Tree Cell)
    → IsAugmented t
    → Treap.Query.range_estimate (shown t) l r Treap.Query.close_close ≡ wrap (total t)
unfolding Treap.Query.range_estimate
shown-close_close l r null a = refl
shown-close_close l r (node t x y) a = a.0

-- A range of the newest version reads what lib/treap reads of the newest values.
range_estimate-shown :
    (v l r : ℕ) (t : Tree Cell) (d : RangeCover)
    → IsAugmented t
    → All (Older (v + 1)) t
    → range_estimate t v l r d ≡ Treap.Query.range_estimate (shown t) l r (cover d)
unfolding range_estimate Treap.Query.range_estimate
range_estimate-shown v l r null open_open a h = refl
range_estimate-shown v l r null open_close a h = refl
range_estimate-shown v l r null close_open a h = refl
range_estimate-shown v l r null close_close a h = refl
range_estimate-shown v l r (node t x y) close_close a h =
    close_close_lem v l r (node t x y) a h ∙ sym (shown-close_close l r (node t x y) a)
range_estimate-shown v l r (node t x y) open_open a h = ground (
  arith,
  range_estimate-shown v l r x open_open,
  range_estimate-shown v l r y open_open,
  range_estimate-shown v l r x open_close,
  range_estimate-shown v l r y close_open,
  find_value-Older v t,
)
range_estimate-shown v l r (node t x y) open_close a h = ground (
  arith,
  range_estimate-shown v l r x open_close,
  range_estimate-shown v l r y open_close,
  range_estimate-shown v l r y close_close,
  find_value-Older v t,
)
range_estimate-shown v l r (node t x y) close_open a h = ground (
  arith,
  range_estimate-shown v l r x close_open,
  range_estimate-shown v l r y close_open,
  range_estimate-shown v l r x close_close,
  find_value-Older v t,
)

-- On a complete tree whose copies fit into a word, a range query of the newest version returns the
-- number of copies of the keys from `l` to `r`.
pub range_query-newest :
    (v l r : ℕ) (t : Tree Cell)
    → IsOrdered t
    → IsAugmented t
    → All (Older (v + 1)) t
    → total t < u64_mod
    → range_query t v l r ≡ range_total (bag t) l r
unfolding range_query Treap.Query.range_query
range_query-newest v l r t o a h w =
    range_estimate-shown v l r t open_open a h
    ∙ range_query-total l r (shown t) (shown-IsAugmented t a) (shown-IsOrdered t o)
        (omega (arith, total-shown t, w))
    ∙ ap (λ f. range_total f l r) (fun_ext (bag-shown t))
