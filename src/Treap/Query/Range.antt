-- ===== src/Treap/Query/Range.antt =====
-- A range sum is the number of copies of the keys in the range.
use contreap.Prelude.{
  ℕ, zero, suc, ◌+◌, ◌-◌, ◌≡◌, ◌≤◌, ◌<◌, refl, arith, ltb, leb, ◌&&◌, if◌then◌else◌, wrap, sym, ap,
  ◌∙◌, u64_mod,
}
use mathlib.Core.Path.{fun_ext}
use contreap.Treap.Represents.{Represents}
use contreap.Tree.{Tree, null, node, bag, total}
use contreap.Tree.Order.{All, All-imp, Below, Above, IsOrdered}
use contreap.Treap.Node.{Cell, cell_keyed}
use contreap.Treap.Augment.{IsAugmented}
use contreap.Treap.Query.{
  open_open, open_close, close_open, close_close, range_estimate, range_query,
}

-- The copies of the keys from `l` to `r`, both included, node by node.
abbrev pub within : ℕ → ℕ → Tree Cell → ℕ
within l r null = 0
within l r (node t lch rch) =
    within l r lch + (if leb l t.key && leb t.key r then t.val else 0) + within l r rch

within-Below : (b l r : ℕ) (t : Tree Cell) → Below b t → b ≤ l → within l r t ≡ 0
within-Below b l r null h le = refl
within-Below b l r (node t x y) h le = ground (arith, within-Below b l r x, within-Below b l r y)

within-Above : (b l r : ℕ) (t : Tree Cell) → Above b t → r ≤ b → within l r t ≡ 0
within-Above b l r null h le = refl
within-Above b l r (node t x y) h le = ground (arith, within-Above b l r x, within-Above b l r y)

abbrev AtMost : ℕ → Tree Cell → Type 0
AtMost r t = All (λ c. c.key ≤ r) t

abbrev AtLeast : ℕ → Tree Cell → Type 0
AtLeast l t = All (λ c. l ≤ c.key) t

AtMost-Below : (b r : ℕ) (t : Tree Cell) → b ≤ r → Below b t → AtMost r t
AtMost-Below b r t h = All-imp _ _ (λ c p. omega arith) t

AtLeast-Above : (b l : ℕ) (t : Tree Cell) → l ≤ b → Above b t → AtLeast l t
AtLeast-Above b l t h = All-imp _ _ (λ c p. omega arith) t

within_all : (l r : ℕ) (t : Tree Cell) → AtLeast l t → AtMost r t → within l r t ≡ total t
within_all l r null a b = refl
within_all l r (node t x y) a b = ground (arith, within_all l r x, within_all l r y)

-- All keys are in the range: the cached sum is the answer.
close_close_lem :
    (l r : ℕ) (t : Tree Cell)
    → IsAugmented t
    → AtLeast l t
    → AtMost r t
    → range_estimate t l r close_close ≡ wrap (within l r t)
unfolding range_estimate
close_close_lem l r null a b c = refl
close_close_lem l r (node t x y) a b c = ground (arith, within_all l r (node t x y) b c)

open_close_lem :
    (l r : ℕ) (t : Tree Cell)
    → IsAugmented t
    → IsOrdered t
    → AtMost r t
    → range_estimate t l r open_close ≡ wrap (within l r t)
unfolding range_estimate
open_close_lem l r null a o b = refl
open_close_lem l r (node t x y) a o b = ground (
  arith,
  open_close_lem l r x,
  open_close_lem l r y,
  close_close_lem l r y,
  within-Below t.key l r x,
  AtLeast-Above t.key l y,
)

close_open_lem :
    (l r : ℕ) (t : Tree Cell)
    → IsAugmented t
    → IsOrdered t
    → AtLeast l t
    → range_estimate t l r close_open ≡ wrap (within l r t)
unfolding range_estimate
close_open_lem l r null a o b = refl
close_open_lem l r (node t x y) a o b = ground (
  arith,
  close_open_lem l r x,
  close_open_lem l r y,
  close_close_lem l r x,
  within-Above t.key l r y,
  AtMost-Below t.key r x,
)

open_open_lem :
    (l r : ℕ) (t : Tree Cell)
    → IsAugmented t
    → IsOrdered t
    → range_estimate t l r open_open ≡ wrap (within l r t)
unfolding range_estimate
open_open_lem l r null a o = refl
open_open_lem l r (node t x y) a o = ground (
  arith,
  open_open_lem l r x,
  open_open_lem l r y,
  open_close_lem l r x,
  close_open_lem l r y,
  within-Below t.key l r x,
  within-Above t.key l r y,
  AtMost-Below t.key r x,
  AtLeast-Above t.key l y,
)

-- The copies of the `n` keys from `l` on, key by key.
pub interval_sum : (ℕ → ℕ) → ℕ → ℕ → ℕ
interval_sum copies l zero = 0
interval_sum copies l (suc n) = copies l + interval_sum copies (l + 1) n

-- The copies of the keys from `l` to `r`, both included.
pub range_total : (ℕ → ℕ) → ℕ → ℕ → ℕ
unfolding interval_sum
range_total copies l r = interval_sum copies l (suc r - l)

interval_sum-node :
    (t : Cell) (x y : Tree Cell) (l n : ℕ)
    → interval_sum (bag (node t x y)) l n
      ≡ interval_sum (bag x) l n
        + (if leb l t.key && ltb t.key (l + n) then t.val else 0)
        + interval_sum (bag y) l n
unfolding interval_sum
interval_sum-node t x y l zero = ground arith
interval_sum-node t x y l (suc n) = ground (arith, interval_sum-node t x y (l + 1) n)

interval_sum-null : (l n : ℕ) → interval_sum (bag {C = Cell} null) l n ≡ 0
unfolding interval_sum
interval_sum-null l zero = refl
interval_sum-null l (suc n) = omega (arith, interval_sum-null (l + 1) n)

within-eq-range_total : (l r : ℕ) (t : Tree Cell) → within l r t ≡ range_total (bag t) l r
unfolding range_total
within-eq-range_total l r null = sym (interval_sum-null l (suc r - l))
within-eq-range_total l r (node t x y) = ground (
  arith,
  interval_sum-node t x y l (suc r - l),
  within-eq-range_total l r x,
  within-eq-range_total l r y,
)

within-le-total : (l r : ℕ) (t : Tree Cell) → within l r t ≤ total t
within-le-total l r null = omega arith
within-le-total l r (node t x y) = ground (arith, within-le-total l r x, within-le-total l r y)

-- The same without an abstract multiset.
pub range_query-total :
    (l r : ℕ) (t : Tree Cell)
    → IsAugmented t
    → IsOrdered t
    → total t < u64_mod
    → range_query t l r ≡ range_total (bag t) l r
unfolding range_query
range_query-total l r t a o w =
    omega (arith, open_open_lem l r t a o, within-eq-range_total l r t, within-le-total l r t, w)

-- On a complete version whose copies fit into a word, a range query returns the number of copies
-- of the keys from `l` to `r`, whatever the two bounds.
pub range_query_lem :
    (hash : ℕ → ℕ) {copies : ℕ → ℕ} (n l r : ℕ) (t : Tree Cell)
    → n < u64_mod
    → Represents hash copies n t
    → range_query t l r ≡ range_total copies l r
range_query_lem hash {copies} n l r t w v =
    range_query-total l r t v.sums v.treap.ordered (omega (arith, v.size, w))
    ∙ ap (λ f. range_total f l r) (fun_ext v.holds)
