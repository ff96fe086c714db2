-- ===== src/Tree.antt =====
-- Binary search trees whose nodes carry a cell of data, as lib/treap and lib/pam build them.
pub mod Order
pub mod Split
pub mod Concat
pub mod Merge
pub mod Invariant
pub mod Canonical
pub mod Release
use contreap.Prelude.{ℕ, zero, suc, ◌+◌, true, false, ltb, ◌==◌, if◌then◌else◌}

-- `node_t*`: a null pointer, or a cell with the pointers `lch` and `rch`.
pub data Tree {ℓ} (C : Type ℓ) : Type ℓ where
  null : Tree C
  node : C → Tree C → Tree C → Tree C

-- What the shared routines read of a cell. `weight` is the number of copies of the key.
pub record Keyed {ℓ} (C : Type ℓ) : Type ℓ where
  pub key : C → ℕ
  pub pry : C → ℕ
  pub weight : C → ℕ

module _ {ℓ} {C : Type ℓ} where
  abbrev pub size : Tree C → ℕ
  size null = 0
  size (node c l r) = 1 + size l + size r

module _ {ℓ} {C : Type ℓ} ⦃k : Keyed C⦄ where
  -- The keys below `q` and those above it, for a key `q` that is not in the tree.
  -- Each node on the way down is replaced by `copy` of it.
  unfoldable pub split_with : (C → C) → Tree C → ℕ → Tree C × Tree C
  split_with copy null q = (null, null)
  split_with copy (node c l r) q =
      let below = split_with copy l q in
      let above = split_with copy r q in
      if ltb q (k.key c)
      then (below.0, node (copy c) below.1 r)
      else (node (copy c) l above.0, above.1)

  -- The two trees as one, where all keys of the first lie below those of the second. Each node
  -- that gets a new child is replaced by `copy` of it.
  unfoldable pub concat_with : (C → C) → Tree C → Tree C → Tree C
  concat_with copy null t = t
  concat_with copy (node c l r) null = node c l r
  concat_with copy (node c l r) (node d m s) = elim (ltb (k.pry d) (k.pry c)) [
    | true ↦ node (copy c) l (concat_with copy r (node d m s))
    | false ↦ node (copy d) (concat_with copy (node c l r) m) s
  ]

  -- The union of two trees, on fuel. A key of both trees gets one node, whose cell is `combine`
  -- of the two cells.
  unfoldable pub merge_fuel : (C → C → C) → ℕ → Tree C → Tree C → Tree C
  merge_fuel combine zero t u = null
  merge_fuel combine (suc f) null u = u
  merge_fuel combine (suc f) (node c l r) null = node c l r
  merge_fuel combine (suc f) (node c l r) (node d m s) = elim (k.key c == k.key d) [
    | true ↦ node (combine c d) (merge_fuel combine f l m) (merge_fuel combine f r s)
    | false ↦ elim (ltb (k.pry d) (k.pry c)) [
      | true ↦
          let parts = split_with (λ x. x) (node d m s) (k.key c) in
          node c (merge_fuel combine f l parts.0) (merge_fuel combine f r parts.1)
      | false ↦
          let parts = split_with (λ x. x) (node c l r) (k.key d) in
          node d (merge_fuel combine f parts.0 m) (merge_fuel combine f parts.1 s)
    ]
  ]

  -- Each call is on fewer nodes than the last one, so this fuel is enough.
  unfoldable pub merge_with : (C → C → C) → Tree C → Tree C → Tree C
  merge_with combine t u = merge_fuel combine (suc (size t + size u)) t u

  -- The copies of `q` in a tree, and the number of copies of all keys.
  abbrev pub bag : Tree C → ℕ → ℕ
  bag null q = 0
  bag (node c l r) q = bag l q + (if k.key c == q then k.weight c else 0) + bag r q

  abbrev pub total : Tree C → ℕ
  total null = 0
  total (node c l r) = total l + k.weight c + total r
