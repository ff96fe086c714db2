-- ===== src/Treap/Represents.antt =====
-- What a treap stands for: a number of copies for every key.
use contreap.Prelude.{ℕ, ◌+◌, ◌≡◌, ◌<◌, ◌≤◌, ◌∙◌, arith, wrap}
use contreap.Tree.{Tree, null, node, bag, total}
use contreap.Tree.Order.{IsTreap, IsOrdered, IsHeap, All}
use contreap.Tree.Canonical.{Positive}
use contreap.Treap.Node.{Cell, cell_keyed}
use contreap.Treap.Augment.{augment, IsCached, IsAugmented, augment_lem, total-augment}

-- A complete version of the tree: a treap with all its sums, that holds `copies j` copies of each
-- key `j`, and at most `n` copies of keys in all.
pub record Represents (hash : ℕ → ℕ) (copies : ℕ → ℕ) (n : ℕ) (t : Tree Cell) : Type 0 where
  pub treap : IsTreap hash t
  pub positive : Positive t
  pub sums : IsAugmented t
  pub size : total t ≤ n
  pub holds : (j : ℕ) → bag t j ≡ copies j

-- What a sum at a node changes is seen by none of the other properties.
All-augment {κ} :
    (P : Cell → Type κ)
    → ((c : Cell) (s : ℕ) → P c → P (record c { aug = s }))
    → (t : Tree Cell) → All P t
    → All P (augment t).0
unfolding augment
All-augment P keep null a = tt
All-augment P keep (node t l r) a = ground (
  arith,
  keep t (wrap (wrap ((augment l).1 + t.val) + (augment r).1)),
  All-augment P keep l,
  All-augment P keep r,
)

bag-augment : (t : Tree Cell) (j : ℕ) → bag (augment t).0 j ≡ bag t j
unfolding augment
bag-augment null j = omega arith
bag-augment (node t l r) j = ground (arith, bag-augment l j, bag-augment r j)

IsOrdered-augment : (t : Tree Cell) → IsOrdered t → IsOrdered (augment t).0
unfolding augment
IsOrdered-augment null o = tt
IsOrdered-augment (node t l r) o = ground (
  arith,
  IsOrdered-augment l,
  IsOrdered-augment r,
  All-augment (λ c. c.key < t.key) (λ c s h. h) l,
  All-augment (λ c. t.key < c.key) (λ c s h. h) r,
)

IsHeap-augment : (t : Tree Cell) → IsHeap t → IsHeap (augment t).0
unfolding augment
IsHeap-augment null o = tt
IsHeap-augment (node t l r) o = ground (
  arith,
  IsHeap-augment l,
  IsHeap-augment r,
  All-augment (λ c. c.pry < t.pry) (λ c s h. h) l,
  All-augment (λ c. c.pry < t.pry) (λ c s h. h) r,
)

module _ (hash : ℕ → ℕ) where
  -- Completing the sums of a treap whose contents are known.
  pub augment-Represents :
      (copies : ℕ → ℕ) (n : ℕ) (t : Tree Cell)
      → IsTreap hash t
      → Positive t
      → IsCached t
      → total t ≤ n
      → ((j : ℕ) → bag t j ≡ copies j)
      → Represents hash copies n (augment t).0
  augment-Represents copies n t v p c e h = record {
    treap = record {
      ordered = IsOrdered-augment t v.ordered;
      heap = IsHeap-augment t v.heap;
      hashed = All-augment (λ c. c.pry ≡ hash c.key) (λ c s h. h) t v.hashed;
    };
    positive = All-augment (λ c. 0 < c.val) (λ c s h. h) t p;
    sums = (augment_lem t c).1;
    size = omega (arith, total-augment t);
    holds = λ j. bag-augment t j ∙ h j;
  }

  -- A bound on the copies may be enlarged.
  pub Represents-mono :
      {copies : ℕ → ℕ} {n : ℕ} {t : Tree Cell} (m : ℕ)
      → n ≤ m
      → Represents hash copies n t
      → Represents hash copies m t
  Represents-mono m h r = record {
    treap = r.treap;
    positive = r.positive;
    sums = r.sums;
    size = omega (arith, r.size);
    holds = r.holds;
  }
