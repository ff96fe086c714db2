-- ===== src/Treap/Build/Contents.antt =====
-- What a treap holds after it is built.
use contreap.Prelude.{
  ℕ, zero, suc, ◌/◌, ◌≡◌, ◌<◌, ◌≤◌, refl, inl, arith, u64_mod, List, [], ◌∷◌, length, take, drop,
  count, length-take, length-drop, count-take-drop, sym, ◌∙◌,
}
use contreap.Tree.{Tree, null, node, bag, total}
use contreap.Tree.Order.{IsInjective, IsTreap}
use contreap.Tree.Canonical.{Positive, shape, shape_unique}
use contreap.Treap.Node.{Cell, cell_keyed, make_node_hashed}
use contreap.Treap.Augment.{augment, augment_parallel, IsCached}
use contreap.Treap.Build.{build_fuel, build, build_parallel}
use contreap.Treap.Build.Merge.{
  merge-IsTreap, bag-merge_lem, total-merge_lem, IsFresh, merge-IsFresh, merge-Positive,
}
use contreap.Treap.Represents.{Represents, augment-Represents}

pub augment_parallel-eq-augment : (t : Tree Cell) → augment_parallel t ≡ augment t
unfolding augment_parallel augment
augment_parallel-eq-augment null = refl
augment_parallel-eq-augment (node t l r) =
    ground (arith, augment_parallel-eq-augment l, augment_parallel-eq-augment r)

module _ (hash : ℕ → ℕ) where
  -- Any fuel gives a treap.
  build_fuel-IsTreap :
      (f : ℕ) (elems : List ℕ) → IsInjective hash → IsTreap hash (build_fuel hash f elems)
  unfolding build_fuel make_node_hashed
  build_fuel-IsTreap zero elems injective = record { ordered = tt; heap = tt; hashed = tt }
  build_fuel-IsTreap (suc f) [] injective = record { ordered = tt; heap = tt; hashed = tt }
  build_fuel-IsTreap (suc f) (x ∷ []) injective = record {
    ordered = (tt, tt, tt, tt);
    heap = (tt, tt, tt, tt);
    hashed = (refl, tt, tt);
  }
  build_fuel-IsTreap (suc f) (x ∷ y ∷ rest) injective =
      merge-IsTreap hash _ _ injective
        (build_fuel-IsTreap f (take (length (x ∷ y ∷ rest) / 2) (x ∷ y ∷ rest)) injective)
        (build_fuel-IsTreap f (drop (length (x ∷ y ∷ rest) / 2) (x ∷ y ∷ rest)) injective)

  -- The fuel of `build` reaches every key: each is in the tree as often as in the array.
  build_fuel-total :
      (f : ℕ) (elems : List ℕ)
      → length elems ≤ f
      → length elems < u64_mod
      → total (build_fuel hash f elems) ≡ length elems
  unfolding build_fuel make_node_hashed
  build_fuel-total zero [] h w = refl
  build_fuel-total zero (x ∷ xs) h w = elim h [ ]
  build_fuel-total (suc f) [] h w = refl
  build_fuel-total (suc f) (x ∷ []) h w = refl
  build_fuel-total (suc f) (x ∷ y ∷ rest) h w =
      let elems = x ∷ y ∷ rest in
      let half = length elems / 2 in
      let low = length-take half elems in
      let high = length-drop half elems in
      let left = build_fuel-total f (take half elems) (omega arith) (omega arith) in
      let right = build_fuel-total f (drop half elems) (omega arith) (omega arith) in
      omega (
        arith,
        total-merge_lem (build_fuel hash f (take half elems)) (build_fuel hash f (drop half elems)),
      )

  build_fuel-count :
      (f : ℕ) (elems : List ℕ) (j : ℕ)
      → length elems ≤ f
      → length elems < u64_mod
      → bag (build_fuel hash f elems) j ≡ count j elems
  unfolding build_fuel make_node_hashed
  build_fuel-count zero [] j h w = refl
  build_fuel-count zero (x ∷ xs) j h w = elim h [ ]
  build_fuel-count (suc f) [] j h w = refl
  build_fuel-count (suc f) (x ∷ []) j h w = omega arith
  build_fuel-count (suc f) (x ∷ y ∷ rest) j h w =
      let elems = x ∷ y ∷ rest in
      let half = length elems / 2 in
      let low = length-take half elems in
      let high = length-drop half elems in
      let left = build_fuel-count f (take half elems) j (omega arith) (omega arith) in
      let right = build_fuel-count f (drop half elems) j (omega arith) (omega arith) in
      let left_total = build_fuel-total f (take half elems) (omega arith) (omega arith) in
      let right_total = build_fuel-total f (drop half elems) (omega arith) (omega arith) in
      omega (
        arith,
        bag-merge_lem (build_fuel hash f (take half elems)) (build_fuel hash f (drop half elems)) j,
        count-take-drop j half elems,
      )

  build_fuel-Positive :
      (f : ℕ) (elems : List ℕ)
      → length elems ≤ f
      → length elems < u64_mod
      → Positive (build_fuel hash f elems)
  unfolding build_fuel make_node_hashed
  build_fuel-Positive zero elems h w = tt
  build_fuel-Positive (suc f) [] h w = tt
  build_fuel-Positive (suc f) (x ∷ []) h w = (omega arith, tt, tt)
  build_fuel-Positive (suc f) (x ∷ y ∷ rest) h w =
      let elems = x ∷ y ∷ rest in
      let half = length elems / 2 in
      let low = length-take half elems in
      let high = length-drop half elems in
      let left_total = build_fuel-total f (take half elems) (omega arith) (omega arith) in
      let right_total = build_fuel-total f (drop half elems) (omega arith) (omega arith) in
      merge-Positive _ _ (omega arith)
        (build_fuel-Positive f (take half elems) (omega arith) (omega arith))
        (build_fuel-Positive f (drop half elems) (omega arith) (omega arith))

  build_fuel-IsFresh : (f : ℕ) (elems : List ℕ) → IsFresh (build_fuel hash f elems)
  unfolding build_fuel make_node_hashed
  build_fuel-IsFresh zero elems = tt
  build_fuel-IsFresh (suc f) [] = tt
  build_fuel-IsFresh (suc f) (x ∷ []) = (refl, tt, tt)
  build_fuel-IsFresh (suc f) (x ∷ y ∷ rest) =
      merge-IsFresh _ _ (build_fuel-IsFresh f (take (length (x ∷ y ∷ rest) / 2) (x ∷ y ∷ rest)))
        (build_fuel-IsFresh f (drop (length (x ∷ y ∷ rest) / 2) (x ∷ y ∷ rest)))

  IsFresh-IsCached : (t : Tree Cell) → IsFresh t → IsCached t
  IsFresh-IsCached null a = tt
  IsFresh-IsCached (node t l r) a = inl (a.0, IsFresh-IsCached l a.1, IsFresh-IsCached r a.2)

  -- The initial tree is a treap that holds each key as often as the array does, with all sums.
  pub build_parallel-Represents :
      (elems : List ℕ)
      → IsInjective hash
      → length elems < u64_mod
      → Represents hash (λ j. count j elems) (length elems) (build_parallel hash elems)
  unfolding build_parallel build
  build_parallel-Represents elems injective w =
      let n = length elems in
      rw (augment_parallel-eq-augment (build_fuel hash n elems), build_parallel)
        (augment-Represents hash _ n (build_fuel hash n elems)
          (build_fuel-IsTreap n elems injective) (build_fuel-Positive n elems (omega arith) w)
          (IsFresh-IsCached (build_fuel hash n elems) (build_fuel-IsFresh n elems))
          (omega (arith, build_fuel-total n elems (omega arith) w))
          (λ j. build_fuel-count n elems j (omega arith) w))

  -- Whatever the order of the keys, the tree has the same shape.
  pub build_order :
      (xs ys : List ℕ)
      → IsInjective hash
      → length xs < u64_mod
      → length ys < u64_mod
      → ((j : ℕ) → count j xs ≡ count j ys)
      → shape (build hash xs) ≡ shape (build hash ys)
  unfolding build
  build_order xs ys injective v w same =
      shape_unique hash _ _ injective (build_fuel-IsTreap (length xs) xs injective)
        (build_fuel-IsTreap (length ys) ys injective)
        (build_fuel-Positive (length xs) xs (omega arith) v)
        (build_fuel-Positive (length ys) ys (omega arith) w)
        (λ j.
          build_fuel-count (length xs) xs j (omega arith) v
          ∙ same j
          ∙ sym (build_fuel-count (length ys) ys j (omega arith) w))
