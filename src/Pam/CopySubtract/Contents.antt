-- ===== src/Pam/CopySubtract/Contents.antt =====
-- What a tree holds after a batch of deletions.
use contreap.Prelude.{
  ℕ, zero, suc, ◌+◌, ◌≡◌, ◌≢◌, ◌<◌, ◌≤◌, refl, inl, inr, Bool-cases, ==→eq, ap, sym, ◌∙◌, arith,
  ltb, ◌==◌, if◌then◌else◌,
}
use contreap.Tree.{Tree, null, node, bag, total, size, split_with}
use contreap.Tree.Order.{IsInjective, IsTreap, lch-IsTreap, rch-IsTreap, Below, Above}
use contreap.Tree.Split.{IsCopy, All-split, size-split, bag-split}
use contreap.Tree.Concat.{All-concat, size-concat, bag-concat, total-concat}
use contreap.Tree.Merge.{id-IsCopy}
use contreap.Tree.Invariant.{split-IsTreap, concat-IsTreap, split-Around}
use contreap.Tree.Canonical.{Positive, bag-Below, bag-Above, hash-le-root}
use contreap.Pam.Node.{Cell, cell_keyed, last, make_weak_copy, make_weak_copy-IsCopy}
use contreap.Pam.Build.{split}
use contreap.Pam.CopySubtract.{make_copy_if_need, copy_concat, copy_subtract_fuel, copy_subtract}

pub make_copy_if_need-IsCopy : IsCopy make_copy_if_need
unfolding make_copy_if_need make_weak_copy
make_copy_if_need-IsCopy = record {
  key = λ c. ground arith;
  pry = λ c. ground arith;
  weight = λ c. ground arith;
}

concat-Positive : (t u : Tree Cell) → Positive t → Positive u → Positive (copy_concat t u)
unfolding copy_concat
concat-Positive =
    All-concat make_copy_if_need (λ c. 0 < (last c).val)
      (λ c h. rw (make_copy_if_need-IsCopy.weight c) h)

pub bag-copy_concat : (t u : Tree Cell) (j : ℕ) → bag (copy_concat t u) j ≡ bag t j + bag u j
unfolding copy_concat
bag-copy_concat = bag-concat make_copy_if_need make_copy_if_need-IsCopy

pub size-copy_concat : (t u : Tree Cell) → size (copy_concat t u) ≡ size t + size u
unfolding copy_concat
size-copy_concat = size-concat make_copy_if_need

total-copy_concat : (t u : Tree Cell) → total (copy_concat t u) ≡ total t + total u
unfolding copy_concat
total-copy_concat = total-concat make_copy_if_need make_copy_if_need-IsCopy

if_zero : (n m : ℕ) → m ≡ 0 → (if n == 0 then m else 0) ≡ 0
if_zero n m e = ground arith

total-copy_subtract_fuel : (f : ℕ) (t u : Tree Cell) → total (copy_subtract_fuel f t u) ≤ total t
unfolding copy_subtract_fuel split
total-copy_subtract_fuel zero t u = omega arith
total-copy_subtract_fuel (suc f) null null = omega arith
total-copy_subtract_fuel (suc f) null (node d m s) = omega arith
total-copy_subtract_fuel (suc f) (node o l r) null = omega arith
total-copy_subtract_fuel (suc f) (node o l r) (node d m s) =
    let low = split_with (λ c. c) (node d m s) o.key in
    ground (
      arith,
      make_weak_copy-IsCopy.weight o,
      total-copy_concat (copy_subtract_fuel f l m) (copy_subtract_fuel f r s),
      total-copy_subtract_fuel f l m,
      total-copy_subtract_fuel f r s,
      total-copy_subtract_fuel f l low.0,
      total-copy_subtract_fuel f r low.1,
      total-copy_subtract_fuel f (node o l r) (copy_concat m s),
    )

-- A batch of deletions adds no copy.
pub total-copy_subtract :
    (t_old t_det : Tree Cell) → total (copy_subtract t_old t_det) ≤ total t_old
unfolding copy_subtract
total-copy_subtract t_old t_det = total-copy_subtract_fuel _ t_old t_det

module _ (hash : ℕ → ℕ) (injective : IsInjective hash) where
  pub copy_concat-IsTreap :
      (q : ℕ) (t u : Tree Cell)
      → Below q t
      → Above q u
      → IsTreap hash t
      → IsTreap hash u
      → IsTreap hash (copy_concat t u)
  unfolding copy_concat
  copy_concat-IsTreap = concat-IsTreap hash make_copy_if_need make_copy_if_need-IsCopy injective

  -- What is left of the copies of a key, where the batch has some of it or none.
  abbrev pub left_of : Tree Cell → Tree Cell → ℕ → ℕ
  left_of t u j = if bag u j == 0 then bag t j else 0

  -- A key of both roots goes with its node.
  subtract_same :
      (o d : Cell) (l r m s x y : Tree Cell) (j : ℕ)
      → IsTreap hash (node o l r)
      → IsTreap hash (node d m s)
      → 0 < (last d).val
      → o.key ≡ d.key
      → bag x j ≡ left_of l m j
      → bag y j ≡ left_of r s j
      → bag (copy_concat x y) j ≡ left_of (node o l r) (node d m s) j
  subtract_same o d l r m s x y j v w pos e hx hy = ground (
    arith,
    bag-copy_concat x y j,
    bag-Below o.key j l v.ordered.0,
    bag-Above o.key j r v.ordered.1,
    bag-Below d.key j m w.ordered.0,
    bag-Above d.key j s w.ordered.1,
  )

  -- A root that is not in the batch stays.
  subtract_kept :
      (o : Cell) (l r u a b x y : Tree Cell) (j : ℕ)
      → IsTreap hash (node o l r)
      → Below o.key a
      → Above o.key b
      → bag a j + bag b j ≡ bag u j
      → bag x j ≡ left_of l a j
      → bag y j ≡ left_of r b j
      → bag (node (make_weak_copy o) x y) j ≡ left_of (node o l r) u j
  subtract_kept o l r u a b x y j v low high e hx hy = ground (
    arith,
    make_weak_copy-IsCopy.weight o,
    make_weak_copy-IsCopy.key o,
    bag-Below o.key j l v.ordered.0,
    bag-Above o.key j r v.ordered.1,
    bag-Below o.key j a low,
    bag-Above o.key j b high,
  )

  -- A key of the batch that is not in the tree is passed over.
  subtract_skipped :
      (o d : Cell) (l r m s x : Tree Cell) (j : ℕ)
      → IsTreap hash (node o l r)
      → d.pry ≡ hash d.key
      → o.key ≢ d.key
      → o.pry ≤ d.pry
      → bag x j ≡ left_of (node o l r) (copy_concat m s) j
      → bag x j ≡ left_of (node o l r) (node d m s) j
  subtract_skipped o d l r m s x j v h ne le hx =
      let absent : bag (node o l r) d.key ≡ 0 =
        ground (arith, hash-le-root hash o l r d.key v, injective o.key d.key, v.hashed.0) in
      elim (Bool-cases (d.key == j)) [
        | inl e ↦
            let gone : bag (node o l r) j ≡ 0 = rw (← ==→eq d.key j e) absent in
            hx
            ∙ if_zero (bag (copy_concat m s) j) _ gone
            ∙ sym (if_zero (bag (node d m s) j) _ gone)
        | inr e ↦
            let same : bag (copy_concat m s) j ≡ bag (node d m s) j =
              ground (arith, bag-copy_concat m s j) in
            hx ∙ ap (λ (n : ℕ). if n == 0 then bag (node o l r) j else 0) same
      ]

  -- The batch's keys lose all their copies.
  bag-copy_subtract_fuel :
      (f : ℕ) (t u : Tree Cell) (j : ℕ)
      → size t + size u < f
      → IsTreap hash t
      → IsTreap hash u
      → Positive u
      → bag (copy_subtract_fuel f t u) j ≡ left_of t u j
  unfolding copy_subtract_fuel split
  bag-copy_subtract_fuel zero t u j p v w z = elim p [ ]
  bag-copy_subtract_fuel (suc f) null u j p v w z = ground arith
  bag-copy_subtract_fuel (suc f) (node o l r) null j p v w z = refl
  bag-copy_subtract_fuel (suc f) (node o l r) (node d m s) j p v w z =
      let low = split_with (λ c. c) (node d m s) o.key in
      let sizes = size-split (λ c. c) (node d m s) o.key in
      elim (Bool-cases (o.key == d.key)) [
        | inl e ↦
            rw (e, copy_subtract_fuel)
              (subtract_same o d l r m s _ _ j v w z.0 (==→eq o.key d.key e)
                (bag-copy_subtract_fuel f l m j (omega arith) (lch-IsTreap hash v)
                  (lch-IsTreap hash w) z.1)
                (bag-copy_subtract_fuel f r s j (omega arith) (rch-IsTreap hash v)
                  (rch-IsTreap hash w) z.2))
        | inr ne ↦ elim (Bool-cases (ltb d.pry o.pry)) [
          | inl h ↦
              let fit =
                split-Around hash (λ c. c) id-IsCopy o d m s injective v.hashed.0 w (ground arith)
                  (ground arith) in
              let valid = split-IsTreap hash (λ c. c) id-IsCopy (node d m s) o.key w in
              let pos =
                All-split (λ c. c) (λ c. 0 < (last c).val) (λ c g. g) (node d m s) o.key z in
              rw (ne, h, copy_subtract_fuel)
                (subtract_kept o l r (node d m s) low.0 low.1 _ _ j v fit.0.0 fit.0.1
                  (bag-split (λ c. c) id-IsCopy (node d m s) o.key j)
                  (bag-copy_subtract_fuel f l low.0 j (omega arith) (lch-IsTreap hash v) valid.0
                    pos.0)
                  (bag-copy_subtract_fuel f r low.1 j (omega arith) (rch-IsTreap hash v) valid.1
                    pos.1))
          | inr h ↦
              let rest =
                copy_concat-IsTreap d.key m s w.ordered.0 w.ordered.1 (lch-IsTreap hash w)
                  (rch-IsTreap hash w) in
              rw (ne, h, copy_subtract_fuel)
                (subtract_skipped o d l r m s _ j v w.hashed.0 (ground arith) (ground arith) (
                  bag-copy_subtract_fuel f (node o l r) (copy_concat m s) j
                    (omega (arith, size-copy_concat m s)) v rest (concat-Positive m s z.1 z.2)))
        ]
      ]

  -- A batch of deletions takes away all copies of its keys, and no copy of any other key.
  pub bag-copy_subtract :
      (t_old t_det : Tree Cell) (j : ℕ)
      → IsTreap hash t_old
      → IsTreap hash t_det
      → Positive t_det
      → bag (copy_subtract t_old t_det) j ≡ (if bag t_det j == 0 then bag t_old j else 0)
  unfolding copy_subtract
  bag-copy_subtract t_old t_det j v w z = bag-copy_subtract_fuel _ t_old t_det j (omega arith) v w z
