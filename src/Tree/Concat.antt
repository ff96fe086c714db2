-- ===== src/Tree/Concat.antt =====
-- What concatenation keeps of two trees.
use contreap.Prelude.{ℕ, ◌+◌, ◌≡◌, ◌<◌, arith}
use contreap.Tree.{Tree, null, node, Keyed, concat_with, bag, total, size}
use contreap.Tree.Order.{All, Below, Above, Under, IsOrdered, Below-mono, Above-mono}
use contreap.Tree.Split.{IsCopy}

module _ {ℓ} {C : Type ℓ} ⦃k : Keyed C⦄ (copy : C → C) where
  pub All-concat {κ} :
      (P : C → Type κ)
      → ((c : C) → P c → P (copy c))
      → (t u : Tree C) → All P t
      → All P u
      → All P (concat_with copy t u)
  unfolding concat_with
  All-concat P keep null u a b = b
  All-concat P keep (node c l r) null a b = a
  All-concat P keep (node c l r) (node d m s) a b =
      ground
        (arith, keep c, keep d, All-concat P keep r (node d m s), All-concat P keep (node c l r) m)

module _ {ℓ} {C : Type ℓ} ⦃k : Keyed C⦄ (copy : C → C) where
  pub size-concat : (t u : Tree C) → size (concat_with copy t u) ≡ size t + size u
  unfolding concat_with
  size-concat null u = omega arith
  size-concat (node c l r) null = omega arith
  size-concat (node c l r) (node d m s) =
      ground (arith, size-concat r (node d m s), size-concat (node c l r) m)

module _ {ℓ} {C : Type ℓ} ⦃k : Keyed C⦄ (copy : C → C) (kept : IsCopy copy) where
  -- No copy of a key is lost or gained.
  pub bag-concat : (t u : Tree C) (j : ℕ) → bag (concat_with copy t u) j ≡ bag t j + bag u j
  unfolding concat_with
  bag-concat null u j = omega arith
  bag-concat (node c l r) null j = omega arith
  bag-concat (node c l r) (node d m s) j = ground (
    arith,
    bag-concat r (node d m s) j,
    bag-concat (node c l r) m j,
    kept.key c,
    kept.key d,
    kept.weight c,
    kept.weight d,
  )

  pub total-concat : (t u : Tree C) → total (concat_with copy t u) ≡ total t + total u
  unfolding concat_with
  total-concat null u = omega arith
  total-concat (node c l r) null = omega arith
  total-concat (node c l r) (node d m s) = ground (
    arith,
    total-concat r (node d m s),
    total-concat (node c l r) m,
    kept.weight c,
    kept.weight d,
  )

  Below-concat : (b : ℕ) (t u : Tree C) → Below b t → Below b u → Below b (concat_with copy t u)
  Below-concat b = All-concat copy (λ c. k.key c < b) (λ c h. rw (kept.key c) h)

  Above-concat : (b : ℕ) (t u : Tree C) → Above b t → Above b u → Above b (concat_with copy t u)
  Above-concat b = All-concat copy (λ c. b < k.key c) (λ c h. rw (kept.key c) h)

  pub Under-concat : (p : ℕ) (t u : Tree C) → Under p t → Under p u → Under p (concat_with copy t u)
  Under-concat p = All-concat copy (λ c. k.pry c < p) (λ c h. rw (kept.pry c) h)

  pub concat-IsOrdered :
      (q : ℕ) (t u : Tree C)
      → Below q t
      → Above q u
      → IsOrdered t
      → IsOrdered u
      → IsOrdered (concat_with copy t u)
  unfolding concat_with
  concat-IsOrdered q null u b a o p = p
  concat-IsOrdered q (node c l r) null b a o p = o
  concat-IsOrdered q (node c l r) (node d m s) b a o p = ground (
    arith,
    kept.key c,
    kept.key d,
    concat-IsOrdered q r (node d m s),
    concat-IsOrdered q (node c l r) m,
    Above-concat (k.key c) r (node d m s),
    Below-concat (k.key d) (node c l r) m,
    Above-mono q (k.key c) (node d m s),
    Below-mono q (k.key d) (node c l r),
  )
