-- ===== src/Tree/Invariant.antt =====
-- Splitting, concatenation and union keep the treap invariant.
use contreap.Prelude.{
  ℕ, zero, suc, ◌≡◌, ◌≢◌, ◌<◌, ◌≤◌, sym, ap, ◌∙◌, inl, inr, arith, Bool-cases, ==→eq, ltb, ◌==◌,
}
use contreap.Tree.{Tree, null, node, Keyed, split_with, concat_with, merge_fuel, merge_with}
use contreap.Tree.Order.{
  Below, Above, Under, Absent, IsHeap, Hashed, IsTreap, IsInjective, Under-mono, Absent-Under,
  node-IsTreap, lch-IsTreap, rch-IsTreap, relabel-IsTreap,
}
use contreap.Tree.Split.{IsCopy, All-split, split-sides, split-IsOrdered, split-IsHeap, Under-split}
use contreap.Tree.Concat.{All-concat, Under-concat, concat-IsOrdered}
use contreap.Tree.Merge.{IsCombine, All-merge_fuel, id-IsCopy}

module _ {ℓ} {C : Type ℓ} ⦃k : Keyed C⦄ (hash : ℕ → ℕ) where
  module _ (copy : C → C) (kept : IsCopy copy) where
    Hashed-copy : (c : C) → k.pry c ≡ hash (k.key c) → k.pry (copy c) ≡ hash (k.key (copy c))
    Hashed-copy c h = ground (arith, kept.key c, kept.pry c)

    Hashed-split :
        (t : Tree C) (q : ℕ)
        → Hashed hash t
        → Hashed hash (split_with copy t q).0 × Hashed hash (split_with copy t q).1
    Hashed-split = All-split copy (λ c. k.pry c ≡ hash (k.key c)) Hashed-copy

    -- The parts of a treap are treaps.
    pub split-IsTreap :
        (t : Tree C) (q : ℕ)
        → IsTreap hash t
        → IsTreap hash (split_with copy t q).0 × IsTreap hash (split_with copy t q).1
    split-IsTreap t q v =
        let o = split-IsOrdered copy kept t q v.ordered in
        let h = split-IsHeap copy kept t q v.heap in
        let p = Hashed-split t q v.hashed in
        (
          record { ordered = o.0; heap = h.0; hashed = p.0 },
          record { ordered = o.1; heap = h.1; hashed = p.1 },
        )

    Hashed-concat :
        (t u : Tree C) → Hashed hash t → Hashed hash u → Hashed hash (concat_with copy t u)
    Hashed-concat = All-concat copy (λ c. k.pry c ≡ hash (k.key c)) Hashed-copy

    concat-IsHeap :
        (injective : IsInjective hash) (q : ℕ) (t u : Tree C)
        → Below q t
        → Above q u
        → Hashed hash t
        → Hashed hash u
        → IsHeap t
        → IsHeap u
        → IsHeap (concat_with copy t u)
    unfolding concat_with
    concat-IsHeap injective q null u b a h g o p = p
    concat-IsHeap injective q (node c l r) null b a h g o p = o
    concat-IsHeap injective q (node c l r) (node d m s) b a h g o p = ground (
      arith,
      kept.pry c,
      kept.pry d,
      injective (k.key c) (k.key d),
      concat-IsHeap injective q r (node d m s),
      concat-IsHeap injective q (node c l r) m,
      Under-concat copy kept (k.pry c) r (node d m s),
      Under-concat copy kept (k.pry d) (node c l r) m,
      Under-mono (k.pry d) (k.pry c) m,
      Under-mono (k.pry d) (k.pry c) s,
      Under-mono (k.pry c) (k.pry d) l,
      Under-mono (k.pry c) (k.pry d) r,
    )

    -- Two treaps, all of whose keys lie on the two sides of `q`, make one.
    pub concat-IsTreap :
        (injective : IsInjective hash) (q : ℕ) (t u : Tree C)
        → Below q t
        → Above q u
        → IsTreap hash t
        → IsTreap hash u
        → IsTreap hash (concat_with copy t u)
    concat-IsTreap injective q t u b a v w = record {
      ordered = concat-IsOrdered copy kept q t u b a v.ordered w.ordered;
      heap = concat-IsHeap injective q t u b a v.hashed w.hashed v.heap w.heap;
      hashed = Hashed-concat t u v.hashed w.hashed;
    }

  module _ (combine : C → C → C) (sums : IsCombine combine) where
    Hashed-merge :
        (f : ℕ) (t u : Tree C)
        → Hashed hash t
        → Hashed hash u
        → Hashed hash (merge_fuel combine f t u)
    Hashed-merge =
        All-merge_fuel combine (λ c. k.pry c ≡ hash (k.key c))
          (λ c d p q. ground (arith, sums.place c d))

    Below-merge :
        (b : ℕ) (f : ℕ) (t u : Tree C) → Below b t → Below b u → Below b (merge_fuel combine f t u)
    Below-merge b =
        All-merge_fuel combine (λ c. k.key c < b) (λ c d p q. ground (arith, sums.place c d))

    Above-merge :
        (b : ℕ) (f : ℕ) (t u : Tree C) → Above b t → Above b u → Above b (merge_fuel combine f t u)
    Above-merge b =
        All-merge_fuel combine (λ c. b < k.key c) (λ c d p q. ground (arith, sums.place c d))

    Under-merge :
        (b : ℕ) (f : ℕ) (t u : Tree C) → Under b t → Under b u → Under b (merge_fuel combine f t u)
    Under-merge b =
        All-merge_fuel combine (λ c. k.pry c < b) (λ c d p q. ground (arith, sums.place c d))

    -- The two children of a node, each joined with a part of another tree.
    merge-node :
        (f : ℕ) (c : C) (l r x y : Tree C)
        → IsTreap hash (node c l r)
        → Below (k.key c) x × Above (k.key c) y
        → Under (k.pry c) x × Under (k.pry c) y
        → IsTreap hash (merge_fuel combine f l x)
        → IsTreap hash (merge_fuel combine f r y)
        → IsTreap hash (node c (merge_fuel combine f l x) (merge_fuel combine f r y))
    merge-node f c l r x y v b u =
        node-IsTreap hash c _ _ v.hashed.0
          (Below-merge (k.key c) f l x v.ordered.0 b.0, Above-merge (k.key c) f r y v.ordered.1 b.1)
          (Under-merge (k.pry c) f l x v.heap.0 u.0, Under-merge (k.pry c) f r y v.heap.1 u.1)

    merge-node_right :
        (f : ℕ) (c : C) (l r x y : Tree C)
        → IsTreap hash (node c l r)
        → Below (k.key c) x × Above (k.key c) y
        → Under (k.pry c) x × Under (k.pry c) y
        → IsTreap hash (merge_fuel combine f x l)
        → IsTreap hash (merge_fuel combine f y r)
        → IsTreap hash (node c (merge_fuel combine f x l) (merge_fuel combine f y r))
    merge-node_right f c l r x y v b u =
        node-IsTreap hash c _ _ v.hashed.0
          (Below-merge (k.key c) f x l b.0 v.ordered.0, Above-merge (k.key c) f y r b.1 v.ordered.1)
          (Under-merge (k.pry c) f x l u.0 v.heap.0, Under-merge (k.pry c) f y r u.1 v.heap.1)

    merge-IsTreap_same :
        (f : ℕ) (c d : C) (l r m s : Tree C)
        → k.key c ≡ k.key d
        → IsTreap hash (node c l r)
        → IsTreap hash (node d m s)
        → IsTreap hash (merge_fuel combine f l m)
        → IsTreap hash (merge_fuel combine f r s)
        → IsTreap hash (node (combine c d) (merge_fuel combine f l m) (merge_fuel combine f r s))
    merge-IsTreap_same f c d l r m s e v w a b =
        let g : k.pry c ≡ k.pry d = v.hashed.0 ∙ ap hash e ∙ sym w.hashed.0 in
        relabel-IsTreap hash c (combine c d) _ _ (ground (arith, sums.place c d))
          (ground (arith, sums.place c d))
          (merge-node f c l r m s v (rw e (w.ordered.0, w.ordered.1)) (rw g (w.heap.0, w.heap.1)) a
            b)

  -- Two trees that fit below a node on its two sides.
  abbrev pub Around : C → Tree C → Tree C → Type 0
  Around c x y = (Below (k.key c) x × Above (k.key c) y) × (Under (k.pry c) x × Under (k.pry c) y)

  -- A treap whose root has another key and a priority that is not larger is split around `c`.
  pub split-Around :
      (copy : C → C) (kept : IsCopy copy) (c d : C) (m s : Tree C)
      → IsInjective hash
      → k.pry c ≡ hash (k.key c)
      → IsTreap hash (node d m s)
      → k.key c ≢ k.key d
      → k.pry d ≤ k.pry c
      → Around c
          (split_with copy (node d m s) (k.key c)).0
          (split_with copy (node d m s) (k.key c)).1
  split-Around copy kept c d m s injective h v ne le =
      let apart : k.pry d < k.pry c = ground (arith, injective (k.key c) (k.key d)) in
      let under : Under (k.pry c) (node d m s) = (
        apart,
        Under-mono (k.pry d) (k.pry c) m le v.heap.0,
        Under-mono (k.pry d) (k.pry c) s le v.heap.1,
      ) in
      let absent : Absent (k.key c) (node d m s) =
        Absent-Under hash (k.pry c) (k.key c) (node d m s) under v.hashed (omega (arith, h)) in
      (
        split-sides copy kept (node d m s) (k.key c) v.ordered absent,
        Under-split copy kept (k.pry c) (node d m s) (k.key c) under,
      )

  module _ (combine : C → C → C) (sums : IsCombine combine) where
    pub merge_fuel-IsTreap :
        (f : ℕ) (t u : Tree C)
        → IsInjective hash
        → IsTreap hash t
        → IsTreap hash u
        → IsTreap hash (merge_fuel combine f t u)
    unfolding merge_fuel
    merge_fuel-IsTreap zero t u injective v w = record { ordered = tt; heap = tt; hashed = tt }
    merge_fuel-IsTreap (suc f) null u injective v w = w
    merge_fuel-IsTreap (suc f) (node c l r) null injective v w = v
    merge_fuel-IsTreap (suc f) (node c l r) (node d m s) injective v w =
        let below = split_with (λ x. x) (node d m s) (k.key c) in
        let above = split_with (λ x. x) (node c l r) (k.key d) in
        let below-IsTreap = split-IsTreap (λ x. x) id-IsCopy (node d m s) (k.key c) w in
        let above-IsTreap = split-IsTreap (λ x. x) id-IsCopy (node c l r) (k.key d) v in
        elim (Bool-cases (k.key c == k.key d)) [
          | inl e ↦
              rw (e, merge_fuel)
                (merge-IsTreap_same combine sums f c d l r m s (==→eq _ _ e) v w
                  (merge_fuel-IsTreap f l m injective (lch-IsTreap hash v) (lch-IsTreap hash w))
                  (merge_fuel-IsTreap f r s injective (rch-IsTreap hash v) (rch-IsTreap hash w)))
          | inr e ↦ elim (Bool-cases (ltb (k.pry d) (k.pry c))) [
            | inl h ↦
                let around =
                  split-Around (λ x. x) id-IsCopy c d m s injective v.hashed.0 w (ground arith)
                    (ground arith) in
                rw (e, h, merge_fuel)
                  (merge-node combine sums f c l r below.0 below.1 v around.0 around.1
                    (merge_fuel-IsTreap f l below.0 injective (lch-IsTreap hash v) below-IsTreap.0)
                    (merge_fuel-IsTreap f r below.1 injective (rch-IsTreap hash v) below-IsTreap.1))
            | inr h ↦
                let around =
                  split-Around (λ x. x) id-IsCopy d c l r injective w.hashed.0 v (ground arith)
                    (ground arith) in
                rw (e, h, merge_fuel)
                  (merge-node_right combine sums f d m s above.0 above.1 w around.0 around.1
                    (merge_fuel-IsTreap f above.0 m injective above-IsTreap.0 (lch-IsTreap hash w))
                    (merge_fuel-IsTreap f above.1 s injective above-IsTreap.1 (rch-IsTreap hash w)))
          ]
        ]

    -- The union of two treaps is a treap.
    pub merge-IsTreap :
        (t u : Tree C)
        → IsInjective hash
        → IsTreap hash t
        → IsTreap hash u
        → IsTreap hash (merge_with combine t u)
    unfolding merge_with
    merge-IsTreap t u = merge_fuel-IsTreap _ t u
