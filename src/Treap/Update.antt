-- ===== src/Treap/Update.antt =====
-- Insertion and deletion on complete versions: each version is a treap with all its sums, and
-- differs from the one before it by one copy of one key.
use contreap.Prelude.{ℕ, ◌+◌, ◌-◌, ◌≡◌, ◌≤◌, ◌<◌, arith, ◌==◌, if◌then◌else◌, u64_mod}
use contreap.Tree.{Tree, null, node, bag, total}
use contreap.Tree.Order.{IsInjective}
use contreap.Tree.Canonical.{shape, shape_unique}
use contreap.Treap.Node.{Cell, cell_keyed}
use contreap.Treap.Augment.{augment}
use contreap.Treap.Represents.{Represents, augment-Represents}
use contreap.Treap.SearchInsert.{search_insert}
use contreap.Treap.SearchInsert.Invariant.{search_insert-IsTreap}
use contreap.Treap.SearchInsert.Contents.{
  bag-search_insert, total-search_insert, search_insert-Positive,
}
use contreap.Treap.SearchInsert.Sums.{search_insert-IsCached}
use contreap.Treap.SearchDelete.{search_delete}
use contreap.Treap.SearchDelete.Invariant.{search_delete-IsTreap}
use contreap.Treap.SearchDelete.Contents.{
  bag-search_delete, total-search_delete, search_delete-Positive,
}
use contreap.Treap.SearchDelete.Sums.{search_delete-IsCached}

-- One copy of `key` more, or one fewer if there is one.
abbrev pub plus : (ℕ → ℕ) → ℕ → ℕ → ℕ
plus copies key j = copies j + (if key == j then 1 else 0)

abbrev pub minus : (ℕ → ℕ) → ℕ → ℕ → ℕ
minus copies key j = copies j - (if key == j then 1 else 0)

pub bag-le-total : (t : Tree Cell) (j : ℕ) → bag t j ≤ total t
bag-le-total null j = omega arith
bag-le-total (node t l r) j = ground (arith, bag-le-total l j, bag-le-total r j)

module _ (hash : ℕ → ℕ) (injective : IsInjective hash) (ver key : ℕ) where
  -- An insertion, completed by the sums of its new nodes, adds one copy of its key.
  pub insert-Represents :
      {copies : ℕ → ℕ} {n : ℕ} (t : Tree Cell)
      → n + 1 < u64_mod
      → Represents hash copies n t
      → Represents hash (plus copies key) (n + 1) (augment (search_insert ver t (hash key) key)).0
  insert-Represents {copies} {n} t w v =
      let room : bag t key + 1 < u64_mod = omega (arith, bag-le-total t key, v.size) in
      augment-Represents hash _ (n + 1) (search_insert ver t (hash key) key)
        (search_insert-IsTreap hash ver key t injective v.treap)
        (search_insert-Positive ver (hash key) key t room v.positive)
        (search_insert-IsCached ver (hash key) key t v.sums)
        (omega (arith, total-search_insert ver (hash key) key t, v.size))
        (λ j. ground (arith, bag-search_insert ver (hash key) key t j, v.holds j))

  -- A deletion removes one copy of its key, if there is one.
  pub delete-Represents :
      {copies : ℕ → ℕ} {n : ℕ} (t : Tree Cell)
      → n < u64_mod
      → Represents hash copies n t
      → Represents hash (minus copies key) n (augment (search_delete ver t (hash key) key)).0
  delete-Represents {copies} {n} t w v =
      let room : total t < u64_mod = omega (arith, v.size) in
      augment-Represents hash _ n (search_delete ver t (hash key) key)
        (search_delete-IsTreap hash ver key t injective v.treap)
        (search_delete-Positive hash ver key t room v.positive)
        (search_delete-IsCached ver (hash key) key t v.sums)
        (omega (arith, total-search_delete hash ver key t room v.positive, v.size))
        (λ j.
          ground (
            arith,
            bag-search_delete hash ver key t j injective v.treap v.positive room,
            v.holds j,
          ))

-- Deleting a key that was just inserted gives back the shape of the tree before.
pub delete-insert :
    (hash : ℕ → ℕ) (key v w n : ℕ) {copies : ℕ → ℕ} (t : Tree Cell)
    → IsInjective hash
    → n + 1 < u64_mod
    → Represents hash copies n t
    → shape (search_delete w (search_insert v t (hash key) key) (hash key) key) ≡ shape t
delete-insert hash key v w n t injective room r =
    let fits : bag t key + 1 < u64_mod = omega (arith, bag-le-total t key, r.size) in
    let t' = search_insert v t (hash key) key in
    let grown : total t' < u64_mod =
      omega (arith, total-search_insert v (hash key) key t, r.size) in
    let treap = search_insert-IsTreap hash v key t injective r.treap in
    let positive = search_insert-Positive v (hash key) key t fits r.positive in
    shape_unique hash _ t injective (search_delete-IsTreap hash w key t' injective treap) r.treap
      (search_delete-Positive hash w key t' grown positive) r.positive
      (λ j. ground (
        arith,
        bag-search_delete hash w key t' j injective treap positive grown,
        bag-search_insert v (hash key) key t j fits,
      ))
