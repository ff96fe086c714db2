-- ===== src/Pam/CopySubtract/Invariant.antt =====
-- A batch of deletions keeps the treap invariant.
use contreap.Prelude.{ℕ, zero, suc, ◌<◌, inl, inr, ltb, ◌==◌, arith, Bool-cases}
use contreap.Tree.{Tree, null, node}
use contreap.Tree.Order.{
  All, Below, Above, Under, IsInjective, IsTreap, node-IsTreap, lch-IsTreap, rch-IsTreap,
}
use contreap.Tree.Concat.{All-concat}
use contreap.Pam.Node.{Cell, cell_keyed, make_weak_copy}
use contreap.Pam.Build.{split}
use contreap.Pam.CopySubtract.{make_copy_if_need, copy_concat, copy_subtract_fuel, copy_subtract}
use contreap.Pam.CopySubtract.Contents.{copy_concat-IsTreap}

-- What holds of every cell of the persistent tree holds of the new version, if copies keep it.
module _ {κ} (P : Cell → Type κ) (copy : (c : Cell) → P c → P (make_weak_copy c)) where
  kept_if_need : (c : Cell) → P c → P (make_copy_if_need c)
  unfolding make_copy_if_need
  kept_if_need c h = ground (arith, copy c)

  pub All-copy_subtract :
      (f : ℕ) (t_old t_det : Tree Cell) → All P t_old → All P (copy_subtract_fuel f t_old t_det)
  unfolding copy_subtract_fuel copy_concat
  All-copy_subtract zero t u a = tt
  All-copy_subtract (suc f) null u a = tt
  All-copy_subtract (suc f) (node o l r) null a = a
  All-copy_subtract (suc f) (node o l r) (node d m s) a =
      let low = split (node d m s) o.key in
      ground (
        arith,
        copy o,
        All-copy_subtract f l m,
        All-copy_subtract f r s,
        All-copy_subtract f l low.0,
        All-copy_subtract f r low.1,
        All-copy_subtract f (node o l r) (copy_concat m s),
        All-concat make_copy_if_need P kept_if_need (copy_subtract_fuel f l m)
            (copy_subtract_fuel f r s),
      )

module _ (hash : ℕ → ℕ) (injective : IsInjective hash) where
  Below-copy_subtract : (b f : ℕ) (t u : Tree Cell) → Below b t → Below b (copy_subtract_fuel f t u)
  unfolding make_weak_copy
  Below-copy_subtract b = All-copy_subtract (λ c. c.key < b) (λ c h. h)

  Above-copy_subtract : (b f : ℕ) (t u : Tree Cell) → Above b t → Above b (copy_subtract_fuel f t u)
  unfolding make_weak_copy
  Above-copy_subtract b = All-copy_subtract (λ c. b < c.key) (λ c h. h)

  Under-copy_subtract : (b f : ℕ) (t u : Tree Cell) → Under b t → Under b (copy_subtract_fuel f t u)
  unfolding make_weak_copy
  Under-copy_subtract b = All-copy_subtract (λ c. c.pry < b) (λ c h. h)

  copy_subtract_fuel-IsTreap :
      (f : ℕ) (t u : Tree Cell) → IsTreap hash t → IsTreap hash (copy_subtract_fuel f t u)
  unfolding copy_subtract_fuel make_weak_copy
  copy_subtract_fuel-IsTreap zero t u v = record { ordered = tt; heap = tt; hashed = tt }
  copy_subtract_fuel-IsTreap (suc f) null u v = v
  copy_subtract_fuel-IsTreap (suc f) (node o l r) null v = v
  copy_subtract_fuel-IsTreap (suc f) (node o l r) (node d m s) v =
      let low = split (node d m s) o.key in
      elim (Bool-cases (o.key == d.key)) [
        | inl e ↦
            rw (e, copy_subtract_fuel)
              (copy_concat-IsTreap hash injective o.key _ _
                (Below-copy_subtract o.key f l m v.ordered.0)
                (Above-copy_subtract o.key f r s v.ordered.1)
                (copy_subtract_fuel-IsTreap f l m (lch-IsTreap hash v))
                (copy_subtract_fuel-IsTreap f r s (rch-IsTreap hash v)))
        | inr ne ↦ elim (Bool-cases (ltb d.pry o.pry)) [
          | inl h ↦
              rw (ne, h, copy_subtract_fuel)
                (node-IsTreap hash (make_weak_copy o) _ _ v.hashed.0
                  (
                    Below-copy_subtract o.key f l low.0 v.ordered.0,
                    Above-copy_subtract o.key f r low.1 v.ordered.1,
                  )
                  (
                    Under-copy_subtract o.pry f l low.0 v.heap.0,
                    Under-copy_subtract o.pry f r low.1 v.heap.1,
                  )
                  (copy_subtract_fuel-IsTreap f l low.0 (lch-IsTreap hash v))
                  (copy_subtract_fuel-IsTreap f r low.1 (rch-IsTreap hash v)))
          | inr h ↦
              rw (ne, h, copy_subtract_fuel)
                (copy_subtract_fuel-IsTreap f (node o l r) (copy_concat m s) v)
        ]
      ]

  pub copy_subtract-IsTreap :
      (t_old t_det : Tree Cell) → IsTreap hash t_old → IsTreap hash (copy_subtract t_old t_det)
  unfolding copy_subtract
  copy_subtract-IsTreap t_old t_det = copy_subtract_fuel-IsTreap _ t_old t_det
