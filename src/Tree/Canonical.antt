-- ===== src/Tree/Canonical.antt =====
-- A treap is determined by what it holds: two treaps with the same copies of every key have the
-- same shape, whatever calls made them.
use contreap.Prelude.{ℕ, ◌≡◌, refl, sym, ap, ◌∙◌, ◌<◌, ◌≤◌, arith, inl, inr, Bool-cases, ltb}
use contreap.Tree.{Tree, null, node, Keyed, bag}
use contreap.Tree.Order.{
  All, Below, Above, Absent, IsTreap, IsInjective, Absent-Under, Absent-Below, Absent-Above,
  Under-mono, Below-mono, Above-mono, lch-IsTreap, rch-IsTreap,
}

-- What stays of a node when the fields of bookkeeping (versions, cached sums) are forgotten.
pub record Entry : Type 0 where
  pub key : ℕ
  pub pry : ℕ
  pub weight : ℕ

module _ {ℓ} {C : Type ℓ} ⦃k : Keyed C⦄ where
  abbrev pub entry : C → Entry
  entry c = record { key = k.key c; pry = k.pry c; weight = k.weight c }

  abbrev pub shape : Tree C → Tree Entry
  shape null = null
  shape (node c l r) = node (entry c) (shape l) (shape r)

  -- No node stands for zero copies of its key.
  abbrev pub Positive : Tree C → Type 0
  Positive t = All (λ c. 0 < k.weight c) t

  pub bag-Absent : (q : ℕ) (t : Tree C) → Absent q t → bag t q ≡ 0
  bag-Absent q null a = refl
  bag-Absent q (node c l r) a = ground (arith, bag-Absent q l a.1, bag-Absent q r a.2)

  pub bag-Below : (b q : ℕ) (t : Tree C) → Below b t → b ≤ q → bag t q ≡ 0
  bag-Below b q t h le = bag-Absent q t (Absent-Below q t (Below-mono b q t le h))

  pub bag-Above : (b q : ℕ) (t : Tree C) → Above b t → q ≤ b → bag t q ≡ 0
  bag-Above b q t h le = bag-Absent q t (Absent-Above q t (Above-mono b q t le h))

module _ {ℓ} {C : Type ℓ} ⦃k : Keyed C⦄ (hash : ℕ → ℕ) where
  bag-root :
      (c : C) (l r : Tree C) → IsTreap hash (node c l r) → bag (node c l r) (k.key c) ≡ k.weight c
  bag-root c l r v = ground (
    arith,
    bag-Below (k.key c) (k.key c) l v.ordered.0,
    bag-Above (k.key c) (k.key c) r v.ordered.1,
  )

  -- A key with copies in a treap has a hash that the root's priority reaches.
  pub hash-le-root :
      (d : C) (m s : Tree C) (q : ℕ)
      → IsTreap hash (node d m s)
      → 0 < bag (node d m s) q
      → hash q ≤ k.pry d
  hash-le-root d m s q v pos = elim (Bool-cases (ltb (k.pry d) (hash q))) [
    | inr h ↦ ground arith
    | inl h ↦
        let lt : k.pry d < hash q = ground arith in
        let none_left = bag-Absent q (node d m s) (
          Absent-Under hash (hash q) q (node d m s)
            (
              lt,
              Under-mono (k.pry d) (hash q) m (omega arith) v.heap.0,
              Under-mono (k.pry d) (hash q) s (omega arith) v.heap.1,
            )
            v.hashed (omega arith)) in
        absurd (omega arith)
  ]

-- The two trees may store different cells.
module _ {ℓ κ} {C : Type ℓ} {D : Type κ} ⦃k : Keyed C⦄ ⦃e : Keyed D⦄ (hash : ℕ → ℕ) where
  -- The roots of two treaps that hold the same are alike, and so are their subtrees.
  same_root :
      (c : C) (l r : Tree C) (d : D) (m s : Tree D)
      → IsInjective hash
      → IsTreap hash (node c l r)
      → IsTreap hash (node d m s)
      → 0 < k.weight c
      → 0 < e.weight d
      → ((j : ℕ) → bag (node c l r) j ≡ bag (node d m s) j)
      → entry c ≡ entry d
  same_root c l r d m s injective v w p q same =
      let at_c = bag-root hash c l r v in
      let at_d = bag-root hash d m s w in
      let to_c = hash-le-root hash d m s (k.key c) w (omega (arith, same (k.key c))) in
      let to_d = hash-le-root hash c l r (e.key d) v (omega (arith, same (e.key d))) in
      let pry : k.pry c ≡ e.pry d = omega (arith, v.hashed.0, w.hashed.0) in
      let key : k.key c ≡ e.key d = injective _ _ (sym v.hashed.0 ∙ pry ∙ w.hashed.0) in
      let there = same (e.key d) in
      let here : bag (node c l r) (e.key d) ≡ k.weight c = rw (← key) at_c in
      let weight : k.weight c ≡ e.weight d = omega arith in
      λ i. record { key = key i; pry = pry i; weight = weight i }

  same_left :
      (c : C) (l r : Tree C) (d : D) (m s : Tree D)
      → IsTreap hash (node c l r)
      → IsTreap hash (node d m s)
      → k.key c ≡ e.key d
      → ((j : ℕ) → bag (node c l r) j ≡ bag (node d m s) j)
      → (j : ℕ) → bag l j ≡ bag m j
  same_left c l r d m s v w key same j = ground (
    arith,
    same j,
    bag-Below (k.key c) j l v.ordered.0,
    bag-Below (e.key d) j m w.ordered.0,
    bag-Above (k.key c) j r v.ordered.1,
    bag-Above (e.key d) j s w.ordered.1,
  )

  same_right :
      (c : C) (l r : Tree C) (d : D) (m s : Tree D)
      → IsTreap hash (node c l r)
      → IsTreap hash (node d m s)
      → k.key c ≡ e.key d
      → ((j : ℕ) → bag (node c l r) j ≡ bag (node d m s) j)
      → (j : ℕ) → bag r j ≡ bag s j
  same_right c l r d m s v w key same j = ground (
    arith,
    same j,
    bag-Below (k.key c) j l v.ordered.0,
    bag-Below (e.key d) j m w.ordered.0,
    bag-Above (k.key c) j r v.ordered.1,
    bag-Above (e.key d) j s w.ordered.1,
  )

  -- Under an injective hash, two treaps without empty nodes that hold the same number of copies of
  -- every key have the same shape: the same keys, priorities and counts at the same places.
  pub shape_unique :
      (t : Tree C) (u : Tree D)
      → IsInjective hash
      → IsTreap hash t
      → IsTreap hash u
      → Positive t
      → Positive u
      → ((j : ℕ) → bag t j ≡ bag u j)
      → shape t ≡ shape u
  shape_unique null null injective v w p q same = refl
  shape_unique null (node d m s) injective v w p q same =
      absurd (omega (arith, same (e.key d), bag-root hash d m s w))
  shape_unique (node c l r) null injective v w p q same =
      absurd (omega (arith, same (k.key c), bag-root hash c l r v))
  shape_unique (node c l r) (node d m s) injective v w p q same =
      let root = same_root c l r d m s injective v w p.0 q.0 same in
      let key = ap (λ (x : Entry). x.key) root in
      let left =
        shape_unique l m injective (lch-IsTreap hash v) (lch-IsTreap hash w) p.1 q.1
          (same_left c l r d m s v w key same) in
      let right =
        shape_unique r s injective (rch-IsTreap hash v) (rch-IsTreap hash w) p.2 q.2
          (same_right c l r d m s v w key same) in
      λ i. node (root i) (left i) (right i)
