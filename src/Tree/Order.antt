-- ===== src/Tree/Order.antt =====
-- The invariants of a treap: search order on keys, heap order on priorities.
use contreap.Prelude.{ℕ, ◌<◌, ◌≤◌, ◌≡◌, ◌≢◌, ap, arith}
use contreap.Tree.{Tree, null, node, Keyed}

module _ {ℓ} {C : Type ℓ} where
  -- Every cell of the tree satisfies `P`.
  abbrev pub All {κ} : (C → Type κ) → Tree C → Type κ
  All P null = Unit
  All P (node c l r) = P c × All P l × All P r

  pub All-imp {κ μ} :
      (P : C → Type κ) (Q : C → Type μ) → ((c : C) → P c → Q c) → (t : Tree C) → All P t → All Q t
  All-imp P Q f null a = tt
  All-imp P Q f (node c l r) a = (f c a.0, All-imp P Q f l a.1, All-imp P Q f r a.2)

module _ {ℓ} {C : Type ℓ} ⦃k : Keyed C⦄ where
  abbrev pub Below : ℕ → Tree C → Type 0
  Below q t = All (λ c. k.key c < q) t

  abbrev pub Above : ℕ → Tree C → Type 0
  Above q t = All (λ c. q < k.key c) t

  abbrev pub Under : ℕ → Tree C → Type 0
  Under p t = All (λ c. k.pry c < p) t

  -- Every key to the left is smaller, every key to the right is larger.
  abbrev pub IsOrdered : Tree C → Type 0
  IsOrdered null = Unit
  IsOrdered (node c l r) = Below (k.key c) l × Above (k.key c) r × IsOrdered l × IsOrdered r

  -- A node's priority exceeds all those below it.
  abbrev pub IsHeap : Tree C → Type 0
  IsHeap null = Unit
  IsHeap (node c l r) = Under (k.pry c) l × Under (k.pry c) r × IsHeap l × IsHeap r

  -- No cell of the tree has the key `q`.
  abbrev pub Absent : ℕ → Tree C → Type 0
  Absent q t = All (λ c. k.key c ≢ q) t

  pub Below-mono : (p q : ℕ) (t : Tree C) → p ≤ q → Below p t → Below q t
  Below-mono p q t h = All-imp _ _ (λ c b. omega arith) t

  pub Above-mono : (p q : ℕ) (t : Tree C) → q ≤ p → Above p t → Above q t
  Above-mono p q t h = All-imp _ _ (λ c b. omega arith) t

  pub Under-mono : (p q : ℕ) (t : Tree C) → p ≤ q → Under p t → Under q t
  Under-mono p q t h = All-imp _ _ (λ c b. omega arith) t

  pub Absent-Below : (q : ℕ) (t : Tree C) → Below q t → Absent q t
  Absent-Below q t = All-imp _ _ (λ c b. omega arith) t

  pub Absent-Above : (q : ℕ) (t : Tree C) → Above q t → Absent q t
  Absent-Above q t = All-imp _ _ (λ c b. omega arith) t

-- Keys that a hash tells apart.
abbrev pub IsInjective : (ℕ → ℕ) → Type 0
IsInjective hash = (a b : ℕ) → hash a ≡ hash b → a ≡ b

module _ {ℓ} {C : Type ℓ} ⦃k : Keyed C⦄ (hash : ℕ → ℕ) where
  -- Every priority is the hash of its key.
  abbrev pub Hashed : Tree C → Type 0
  Hashed t = All (λ c. k.pry c ≡ hash (k.key c)) t

  pub record IsTreap (t : Tree C) : Type 0 where
    pub ordered : IsOrdered t
    pub heap : IsHeap t
    pub hashed : Hashed t

  -- A key whose hash is at least all priorities of a tree is not in it.
  pub Absent-Under : (p q : ℕ) (t : Tree C) → Under p t → Hashed t → p ≤ hash q → Absent q t
  Absent-Under p q null u h le = tt
  Absent-Under p q (node c l r) u h le = (
    λ e. absurd (omega (arith, u.0, h.0, ap hash e)),
    Absent-Under p q l u.1 h.1 le,
    Absent-Under p q r u.2 h.2 le,
  )

  -- A node over two treaps, and back.
  pub node-IsTreap :
      (c : C) (l r : Tree C)
      → k.pry c ≡ hash (k.key c)
      → Below (k.key c) l × Above (k.key c) r
      → Under (k.pry c) l × Under (k.pry c) r
      → IsTreap l
      → IsTreap r
      → IsTreap (node c l r)
  node-IsTreap c l r h b u v w = record {
    ordered = (b.0, b.1, v.ordered, w.ordered);
    heap = (u.0, u.1, v.heap, w.heap);
    hashed = (h, v.hashed, w.hashed);
  }

  pub lch-IsTreap : {c : C} {l r : Tree C} → IsTreap (node c l r) → IsTreap l
  lch-IsTreap v = record { ordered = v.ordered.2; heap = v.heap.2; hashed = v.hashed.1 }

  pub rch-IsTreap : {c : C} {l r : Tree C} → IsTreap (node c l r) → IsTreap r
  rch-IsTreap v = record { ordered = v.ordered.3; heap = v.heap.3; hashed = v.hashed.2 }

  -- Only the key and the priority of a cell matter to the invariant.
  pub relabel-IsTreap :
      (c d : C) (l r : Tree C)
      → k.key d ≡ k.key c
      → k.pry d ≡ k.pry c
      → IsTreap (node c l r)
      → IsTreap (node d l r)
  relabel-IsTreap c d l r e g v = record {
    ordered = ground arith;
    heap = ground arith;
    hashed = ground arith;
  }

  -- A subtree is replaced by a treap that fits in its place.
  pub replace-left :
      (c d : C) (l r x : Tree C)
      → k.key d ≡ k.key c
      → k.pry d ≡ k.pry c
      → IsTreap (node c l r)
      → Below (k.key c) x
      → Under (k.pry c) x
      → IsTreap x
      → IsTreap (node d x r)
  replace-left c d l r x e g v b u w =
      relabel-IsTreap c d x r e g
        (node-IsTreap c x r v.hashed.0 (b, v.ordered.1) (u, v.heap.1) w (rch-IsTreap v))

  pub replace-right :
      (c d : C) (l r x : Tree C)
      → k.key d ≡ k.key c
      → k.pry d ≡ k.pry c
      → IsTreap (node c l r)
      → Above (k.key c) x
      → Under (k.pry c) x
      → IsTreap x
      → IsTreap (node d l x)
  replace-right c d l r x e g v b u w =
      relabel-IsTreap c d l x e g
        (node-IsTreap c l x v.hashed.0 (v.ordered.0, b) (v.heap.0, u) (lch-IsTreap v) w)
