-- ===== src/Tree/Split.antt =====
-- What splitting keeps of a tree.
use contreap.Prelude.{ℕ, ◌+◌, ◌≡◌, ◌<◌, arith}
use contreap.Tree.{Tree, null, node, Keyed, split_with, bag, total, size}
use contreap.Tree.Order.{
  All, Below, Above, Under, Absent, IsOrdered, IsHeap, Below-mono, Above-mono,
}

-- A copy of a cell that keeps what the shared routines read.
pub record IsCopy {ℓ} {C : Type ℓ} ⦃k : Keyed C⦄ (copy : C → C) : Type ℓ where
  pub key : (c : C) → k.key (copy c) ≡ k.key c
  pub pry : (c : C) → k.pry (copy c) ≡ k.pry c
  pub weight : (c : C) → k.weight (copy c) ≡ k.weight c

module _ {ℓ} {C : Type ℓ} ⦃k : Keyed C⦄ (copy : C → C) where
  pub All-split {κ} :
      (P : C → Type κ)
      → ((c : C) → P c → P (copy c))
      → (t : Tree C) (q : ℕ) → All P t
      → All P (split_with copy t q).0 × All P (split_with copy t q).1
  unfolding split_with
  All-split P keep null q a = (tt, tt)
  All-split P keep (node c l r) q a =
      ground (arith, keep c, All-split P keep l q, All-split P keep r q)

  pub size-split :
      (t : Tree C) (q : ℕ) → size (split_with copy t q).0 + size (split_with copy t q).1 ≡ size t
  unfolding split_with
  size-split null q = omega arith
  size-split (node c l r) q = ground (arith, size-split l q, size-split r q)

module _ {ℓ} {C : Type ℓ} ⦃k : Keyed C⦄ (copy : C → C) (kept : IsCopy copy) where
  -- No copy of a key is lost or gained.
  pub bag-split :
      (t : Tree C) (q j : ℕ)
      → bag (split_with copy t q).0 j + bag (split_with copy t q).1 j ≡ bag t j
  unfolding split_with
  bag-split null q j = omega arith
  bag-split (node c l r) q j =
      ground (arith, bag-split l q j, bag-split r q j, kept.key c, kept.weight c)

  pub total-split :
      (t : Tree C) (q : ℕ) → total (split_with copy t q).0 + total (split_with copy t q).1 ≡ total t
  unfolding split_with
  total-split null q = omega arith
  total-split (node c l r) q = ground (arith, total-split l q, total-split r q, kept.weight c)

  Below-split :
      (b : ℕ) (t : Tree C) (q : ℕ)
      → Below b t
      → Below b (split_with copy t q).0 × Below b (split_with copy t q).1
  Below-split b = All-split copy (λ c. k.key c < b) (λ c h. rw (kept.key c) h)

  Above-split :
      (b : ℕ) (t : Tree C) (q : ℕ)
      → Above b t
      → Above b (split_with copy t q).0 × Above b (split_with copy t q).1
  Above-split b = All-split copy (λ c. b < k.key c) (λ c h. rw (kept.key c) h)

  pub Under-split :
      (p : ℕ) (t : Tree C) (q : ℕ)
      → Under p t
      → Under p (split_with copy t q).0 × Under p (split_with copy t q).1
  Under-split p = All-split copy (λ c. k.pry c < p) (λ c h. rw (kept.pry c) h)

  -- The first tree holds the keys below `q`, the second those above it.
  pub split-sides :
      (t : Tree C) (q : ℕ)
      → IsOrdered t
      → Absent q t
      → Below q (split_with copy t q).0 × Above q (split_with copy t q).1
  unfolding split_with
  split-sides null q o a = (tt, tt)
  split-sides (node c l r) q o a = ground (
    arith,
    kept.key c,
    split-sides l q,
    split-sides r q,
    Below-mono (k.key c) q l,
    Above-mono (k.key c) q r,
  )

  pub split-IsOrdered :
      (t : Tree C) (q : ℕ)
      → IsOrdered t
      → IsOrdered (split_with copy t q).0 × IsOrdered (split_with copy t q).1
  unfolding split_with
  split-IsOrdered null q o = (tt, tt)
  split-IsOrdered (node c l r) q o = ground (
    arith,
    kept.key c,
    split-IsOrdered l q,
    split-IsOrdered r q,
    Below-split (k.key c) l q,
    Above-split (k.key c) r q,
  )

  pub split-IsHeap :
      (t : Tree C) (q : ℕ)
      → IsHeap t
      → IsHeap (split_with copy t q).0 × IsHeap (split_with copy t q).1
  unfolding split_with
  split-IsHeap null q o = (tt, tt)
  split-IsHeap (node c l r) q o = ground (
    arith,
    kept.pry c,
    split-IsHeap l q,
    split-IsHeap r q,
    Under-split (k.pry c) l q,
    Under-split (k.pry c) r q,
  )
