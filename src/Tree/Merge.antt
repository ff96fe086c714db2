-- ===== src/Tree/Merge.antt =====
-- What the union of two trees keeps, on any fuel, and what it does where the fuel is enough.
use contreap.Prelude.{
  ℕ, zero, suc, ◌+◌, ◌≡◌, refl, ◌⊎◌, ◌<◌, arith, u64_mod, ltb, ◌==◌, if◌then◌else◌,
}
use contreap.Tree.{Tree, null, node, Keyed, split_with, merge_fuel, merge_with, bag, total, size}
use contreap.Tree.Order.{All}
use contreap.Tree.Split.{IsCopy, All-split, size-split, bag-split, total-split}

-- The cell of a key that is in both trees has the key and the priority of one of the two.
pub record IsCombine {ℓ} {C : Type ℓ} ⦃k : Keyed C⦄ (combine : C → C → C) : Type ℓ where
  pub place :
      (c d : C)
      → (k.key (combine c d) ≡ k.key c) × (k.pry (combine c d) ≡ k.pry c)
        ⊎ (k.key (combine c d) ≡ k.key d) × (k.pry (combine c d) ≡ k.pry d)

-- It counts both, if a 64-bit word holds the sum, where the first cell satisfies `P` and the second
-- one `Q`.
pub record IsSum {ℓ} {C : Type ℓ} ⦃k : Keyed C⦄ (P Q : C → Type 0) (combine : C → C → C)
    : Type ℓ where
  pub weight :
      (c d : C)
      → P c
      → Q d
      → k.weight c + k.weight d < u64_mod
      → k.weight (combine c d) ≡ k.weight c + k.weight d

-- No condition on the cells.
abbrev pub Any {ℓ} : {C : Type ℓ} → C → Type 0
Any c = Unit

pub All-Any {ℓ} : {C : Type ℓ} (t : Tree C) → All Any t
All-Any null = tt
All-Any (node c l r) = (tt, All-Any l, All-Any r)

pub id-IsCopy {ℓ} : {C : Type ℓ} ⦃k : Keyed C⦄ → IsCopy {C = C} (λ c. c)
id-IsCopy = record { key = λ c. refl; pry = λ c. refl; weight = λ c. refl }

module _ {ℓ} {C : Type ℓ} ⦃k : Keyed C⦄ (combine : C → C → C) where
  pub All-merge_fuel {κ} :
      (P : C → Type κ)
      → ((c d : C) → P c → P d → P (combine c d))
      → (f : ℕ) (t u : Tree C) → All P t
      → All P u
      → All P (merge_fuel combine f t u)
  unfolding merge_fuel
  All-merge_fuel P keep zero t u a b = tt
  All-merge_fuel P keep (suc f) null u a b = b
  All-merge_fuel P keep (suc f) (node c l r) null a b = a
  All-merge_fuel P keep (suc f) (node c l r) (node d m s) a b =
      let below = split_with (λ x. x) (node d m s) (k.key c) in
      let above = split_with (λ x. x) (node c l r) (k.key d) in
      ground (
        arith,
        keep c d,
        All-merge_fuel P keep f l m,
        All-merge_fuel P keep f r s,
        All-merge_fuel P keep f l below.0,
        All-merge_fuel P keep f r below.1,
        All-merge_fuel P keep f above.0 m,
        All-merge_fuel P keep f above.1 s,
        All-split (λ x. x) P (λ c p. p) (node d m s) (k.key c),
        All-split (λ x. x) P (λ c p. p) (node c l r) (k.key d),
      )

  -- More fuel than nodes changes nothing.
  merge_fuel_enough :
      (f g : ℕ) (t u : Tree C)
      → size t + size u < f
      → size t + size u < g
      → merge_fuel combine f t u ≡ merge_fuel combine g t u
  unfolding merge_fuel
  merge_fuel_enough zero g t u p q = elim p [ ]
  merge_fuel_enough (suc f) zero t u p q = elim q [ ]
  merge_fuel_enough (suc f) (suc g) null u p q = refl
  merge_fuel_enough (suc f) (suc g) (node c l r) null p q = refl
  merge_fuel_enough (suc f) (suc g) (node c l r) (node d m s) p q =
      let below = split_with (λ x. x) (node d m s) (k.key c) in
      let above = split_with (λ x. x) (node c l r) (k.key d) in
      ground (
        arith,
        merge_fuel_enough f g l m,
        merge_fuel_enough f g r s,
        merge_fuel_enough f g l below.0,
        merge_fuel_enough f g r below.1,
        merge_fuel_enough f g above.0 m,
        merge_fuel_enough f g above.1 s,
        size-split (λ x. x) (node d m s) (k.key c),
        size-split (λ x. x) (node c l r) (k.key d),
      )

module _ {ℓ} {C : Type ℓ} ⦃k : Keyed C⦄ (P Q : C → Type 0) (combine : C → C → C)
    (places : IsCombine combine) (sums : IsSum P Q combine) where
  total-merge_fuel :
      (f : ℕ) (t u : Tree C)
      → size t + size u < f
      → total t + total u < u64_mod
      → All P t
      → All Q u
      → total (merge_fuel combine f t u) ≡ total t + total u
  unfolding merge_fuel
  total-merge_fuel zero t u p w x y = elim p [ ]
  total-merge_fuel (suc f) null u p w x y = omega arith
  total-merge_fuel (suc f) (node c l r) null p w x y = omega arith
  total-merge_fuel (suc f) (node c l r) (node d m s) p w x y =
      let below = split_with (λ x. x) (node d m s) (k.key c) in
      let above = split_with (λ x. x) (node c l r) (k.key d) in
      ground (
        arith,
        sums.weight c d,
        total-merge_fuel f l m,
        total-merge_fuel f r s,
        total-merge_fuel f l below.0,
        total-merge_fuel f r below.1,
        total-merge_fuel f above.0 m,
        total-merge_fuel f above.1 s,
        All-split (λ x. x) P (λ x h. h) (node c l r) (k.key d),
        All-split (λ x. x) Q (λ x h. h) (node d m s) (k.key c),
        size-split (λ x. x) (node d m s) (k.key c),
        size-split (λ x. x) (node c l r) (k.key d),
        total-split (λ x. x) id-IsCopy (node d m s) (k.key c),
        total-split (λ x. x) id-IsCopy (node c l r) (k.key d),
      )

  bag-merge_fuel :
      (f : ℕ) (t u : Tree C) (j : ℕ)
      → size t + size u < f
      → total t + total u < u64_mod
      → All P t
      → All Q u
      → bag (merge_fuel combine f t u) j ≡ bag t j + bag u j
  unfolding merge_fuel
  bag-merge_fuel zero t u j p w x y = elim p [ ]
  bag-merge_fuel (suc f) null u j p w x y = omega arith
  bag-merge_fuel (suc f) (node c l r) null j p w x y = omega arith
  bag-merge_fuel (suc f) (node c l r) (node d m s) j p w x y =
      let below = split_with (λ x. x) (node d m s) (k.key c) in
      let above = split_with (λ x. x) (node c l r) (k.key d) in
      ground (
        arith,
        sums.weight c d,
        places.place c d,
        bag-merge_fuel f l m j,
        bag-merge_fuel f r s j,
        bag-merge_fuel f l below.0 j,
        bag-merge_fuel f r below.1 j,
        bag-merge_fuel f above.0 m j,
        bag-merge_fuel f above.1 s j,
        All-split (λ x. x) P (λ x h. h) (node c l r) (k.key d),
        All-split (λ x. x) Q (λ x h. h) (node d m s) (k.key c),
        size-split (λ x. x) (node d m s) (k.key c),
        size-split (λ x. x) (node c l r) (k.key d),
        total-split (λ x. x) id-IsCopy (node d m s) (k.key c),
        total-split (λ x. x) id-IsCopy (node c l r) (k.key d),
        bag-split (λ x. x) id-IsCopy (node d m s) (k.key c) j,
        bag-split (λ x. x) id-IsCopy (node c l r) (k.key d) j,
      )

  -- No node stands for zero copies, where the sums fit into words.
  positive-merge_fuel :
      (f : ℕ) (t u : Tree C)
      → size t + size u < f
      → total t + total u < u64_mod
      → All P t
      → All Q u
      → All (λ c. 0 < k.weight c) t
      → All (λ c. 0 < k.weight c) u
      → All (λ c. 0 < k.weight c) (merge_fuel combine f t u)
  unfolding merge_fuel
  positive-merge_fuel zero t u p w x y a b = elim p [ ]
  positive-merge_fuel (suc f) null u p w x y a b = b
  positive-merge_fuel (suc f) (node c l r) null p w x y a b = a
  positive-merge_fuel (suc f) (node c l r) (node d m s) p w x y a b =
      let below = split_with (λ x. x) (node d m s) (k.key c) in
      let above = split_with (λ x. x) (node c l r) (k.key d) in
      ground (
        arith,
        sums.weight c d,
        positive-merge_fuel f l m,
        positive-merge_fuel f r s,
        positive-merge_fuel f l below.0,
        positive-merge_fuel f r below.1,
        positive-merge_fuel f above.0 m,
        positive-merge_fuel f above.1 s,
        All-split (λ x. x) P (λ x h. h) (node c l r) (k.key d),
        All-split (λ x. x) Q (λ x h. h) (node d m s) (k.key c),
        size-split (λ x. x) (node d m s) (k.key c),
        size-split (λ x. x) (node c l r) (k.key d),
        total-split (λ x. x) id-IsCopy (node d m s) (k.key c),
        total-split (λ x. x) id-IsCopy (node c l r) (k.key d),
        All-split (λ x. x) (λ x. 0 < k.weight x) (λ x h. h) (node d m s) (k.key c),
        All-split (λ x. x) (λ x. 0 < k.weight x) (λ x h. h) (node c l r) (k.key d),
      )

module _ {ℓ} {C : Type ℓ} ⦃k : Keyed C⦄ (combine : C → C → C) where
  -- `merge_with` at two nodes, with no fuel in sight: the recursion of the source.
  pub merge_with-node :
      (c d : C) (l r m s : Tree C)
      → merge_with combine (node c l r) (node d m s) ≡ (
          if k.key c == k.key d
          then node (combine c d) (merge_with combine l m) (merge_with combine r s)
          else if ltb (k.pry d) (k.pry c)
          then (let parts = split_with (λ x. x) (node d m s) (k.key c) in
              node c (merge_with combine l parts.0) (merge_with combine r parts.1))
          else (let parts = split_with (λ x. x) (node c l r) (k.key d) in
              node d (merge_with combine parts.0 m) (merge_with combine parts.1 s)))
  unfolding merge_with merge_fuel
  merge_with-node c d l r m s =
      let below = split_with (λ x. x) (node d m s) (k.key c) in
      let above = split_with (λ x. x) (node c l r) (k.key d) in
      let f = size (node c l r) + size (node d m s) in
      ground (
        arith,
        merge_fuel_enough combine f (suc (size l + size m)) l m,
        merge_fuel_enough combine f (suc (size r + size s)) r s,
        merge_fuel_enough combine f (suc (size l + size below.0)) l below.0,
        merge_fuel_enough combine f (suc (size r + size below.1)) r below.1,
        merge_fuel_enough combine f (suc (size above.0 + size m)) above.0 m,
        merge_fuel_enough combine f (suc (size above.1 + size s)) above.1 s,
        size-split (λ x. x) (node d m s) (k.key c),
        size-split (λ x. x) (node c l r) (k.key d),
      )

  module _ (P Q : C → Type 0) (places : IsCombine combine) (sums : IsSum P Q combine) where
    pub total-merge :
        (t u : Tree C)
        → total t + total u < u64_mod
        → All P t
        → All Q u
        → total (merge_with combine t u) ≡ total t + total u
    unfolding merge_with
    total-merge t u w = total-merge_fuel P Q combine places sums _ t u (omega arith) w

    -- No copy of a key is lost or gained.
    pub bag-merge :
        (t u : Tree C) (j : ℕ)
        → total t + total u < u64_mod
        → All P t
        → All Q u
        → bag (merge_with combine t u) j ≡ bag t j + bag u j
    unfolding merge_with
    bag-merge t u j w = bag-merge_fuel P Q combine places sums _ t u j (omega arith) w

    pub positive-merge :
        (t u : Tree C)
        → total t + total u < u64_mod
        → All P t
        → All Q u
        → All (λ c. 0 < k.weight c) t
        → All (λ c. 0 < k.weight c) u
        → All (λ c. 0 < k.weight c) (merge_with combine t u)
    unfolding merge_with
    positive-merge t u w = positive-merge_fuel P Q combine places sums _ t u (omega arith) w

  pub All-merge {κ} :
      (P : C → Type κ)
      → ((c d : C) → P c → P d → P (combine c d))
      → (t u : Tree C) → All P t
      → All P u
      → All P (merge_with combine t u)
  unfolding merge_with
  All-merge P keep t u = All-merge_fuel combine P keep _ t u
