-- ===== src/Pam/Sums/Kept.antt =====
-- lib/pam: the sums that a new version shares with the one before it.
use contreap.Prelude.{
  ℕ, zero, suc, ◌+◌, ◌/◌, inl, refl, arith, List, [], ◌∷◌, length, take, drop, wrap, ltb, ◌==◌,
  Bool-cases, inr,
}
use contreap.Tree.{Tree, null, node, split_with, concat_with}
use contreap.Tree.Order.{All}
use contreap.Tree.Split.{All-split}
use contreap.Tree.Merge.{All-merge}
use contreap.Pam.Node.{Cell, cell_keyed, make_weak_copy, make_node_hashed}
use contreap.Pam.Build
use contreap.Pam.Build.{split, merge_cells, build_fuel}
use contreap.Pam.BuildVersioned.{merge_values, merge_versioned, build_versioned_fuel}
use contreap.Pam.CopyMerge.{update_values, copy_split, copy_merge_fuel}
use contreap.Pam.CopySubtract.{make_copy_if_need, copy_concat, copy_subtract_fuel}
use contreap.Pam.Sums.{Fresh, IsCached, Fresh-IsCached}

-- A routine that replaces each node that it changes by a copy without a sum.
module _ (copy : Cell → Cell) (fresh : (c : Cell) → Fresh (copy c)) where
  split-IsCached :
      (t : Tree Cell) (q : ℕ)
      → IsCached t
      → IsCached (split_with copy t q).0 × IsCached (split_with copy t q).1
  unfolding split_with
  split-IsCached null q h = (tt, tt)
  split-IsCached (node c l r) q h =
      let left = split-IsCached l q h.1 in
      let right = split-IsCached r q h.2 in
      elim (Bool-cases (ltb q c.key)) [
        | inl e ↦ rw (e, split_with) (left.0, (inl (fresh c), left.1, h.2))
        | inr e ↦ rw (e, split_with) ((inl (fresh c), h.1, right.0), right.1)
      ]

  concat-IsCached : (t u : Tree Cell) → IsCached t → IsCached u → IsCached (concat_with copy t u)
  unfolding concat_with
  concat-IsCached null u h k = k
  concat-IsCached (node c l r) null h k = h
  concat-IsCached (node c l r) (node d m s) h k = elim (Bool-cases (ltb d.pry c.pry)) [
    | inl e ↦ rw (e, concat_with) (inl (fresh c), h.1, concat-IsCached r (node d m s) h.2 k)
    | inr e ↦ rw (e, concat_with) (inl (fresh d), concat-IsCached (node c l r) m h k.1, k.2)
  ]

weak_copy-Fresh : (c : Cell) → Fresh (make_weak_copy c)
unfolding make_weak_copy
weak_copy-Fresh c = refl

copy_if_need-Fresh : (c : Cell) → Fresh (make_copy_if_need c)
unfolding make_copy_if_need make_weak_copy
copy_if_need-Fresh c = ground arith

split-Fresh :
    (t : Tree Cell) (q : ℕ) → All Fresh t → All Fresh (split t q).0 × All Fresh (split t q).1
unfolding split
split-Fresh t q = All-split (λ c. c) Fresh (λ c h. h) t q

-- A batch of insertions, in a tree of new nodes, keeps the sums of the old version where they still hold.
pub copy_merge-IsCached :
    (f : ℕ) (t_old t_ins : Tree Cell)
    → IsCached t_old
    → All Fresh t_ins
    → IsCached (copy_merge_fuel f t_old t_ins)
unfolding copy_merge_fuel copy_split update_values
copy_merge-IsCached zero t u h k = tt
copy_merge-IsCached (suc f) null u h k = Fresh-IsCached u k
copy_merge-IsCached (suc f) (node o l r) null h k = h
copy_merge-IsCached (suc f) (node o l r) (node i m s) h k =
    let low = split (node i m s) o.key in
    let high = copy_split (node o l r) i.key in
    elim (Bool-cases (ltb i.pry o.pry)) [
      | inl e ↦
          let parts = split-Fresh (node i m s) o.key k in
          rw (e, copy_merge_fuel)
            (
              inl (weak_copy-Fresh o),
              copy_merge-IsCached f l low.0 h.1 parts.0,
              copy_merge-IsCached f r low.1 h.2 parts.1,
            )
      | inr e ↦ elim (Bool-cases (o.key == i.key)) [
        | inl same ↦
            rw (e, same, copy_merge_fuel)
              (inl k.0, copy_merge-IsCached f l m h.1 k.1, copy_merge-IsCached f r s h.2 k.2)
        | inr other ↦
            let parts = split-IsCached make_weak_copy weak_copy-Fresh (node o l r) i.key h in
            rw (e, other, copy_merge_fuel)
              (
                inl k.0,
                copy_merge-IsCached f high.0 m parts.0 k.1,
                copy_merge-IsCached f high.1 s parts.1 k.2,
              )
      ]
    ]

-- A batch of deletions keeps the sums of the old version where they still hold.
pub copy_subtract-IsCached :
    (f : ℕ) (t_old t_det : Tree Cell) → IsCached t_old → IsCached (copy_subtract_fuel f t_old t_det)
unfolding copy_subtract_fuel copy_concat
copy_subtract-IsCached zero t u h = tt
copy_subtract-IsCached (suc f) null u h = tt
copy_subtract-IsCached (suc f) (node o l r) null h = h
copy_subtract-IsCached (suc f) (node o l r) (node d m s) h =
    let low = split (node d m s) o.key in
    elim (Bool-cases (o.key == d.key)) [
      | inl e ↦
          rw (e, copy_subtract_fuel)
            (concat-IsCached make_copy_if_need copy_if_need-Fresh _ _
              (copy_subtract-IsCached f l m h.1) (copy_subtract-IsCached f r s h.2))
      | inr e ↦ elim (Bool-cases (ltb d.pry o.pry)) [
        | inl lt ↦
            rw (e, lt, copy_subtract_fuel)
              (
                inl (weak_copy-Fresh o),
                copy_subtract-IsCached f l low.0 h.1,
                copy_subtract-IsCached f r low.1 h.2,
              )
        | inr ge ↦
            rw (e, ge, copy_subtract_fuel)
              (copy_subtract-IsCached f (node o l r) (copy_concat m s) h)
      ]
    ]

-- Trees that are built from nothing have new nodes only.
module _ (hash : ℕ → ℕ) where
  pub build_fuel-Fresh : (f : ℕ) (elems : List ℕ) → All Fresh (build_fuel hash f elems)
  unfolding build_fuel make_node_hashed Build.merge merge_cells
  build_fuel-Fresh zero elems = tt
  build_fuel-Fresh (suc f) [] = tt
  build_fuel-Fresh (suc f) (x ∷ []) = (refl, tt, tt)
  build_fuel-Fresh (suc f) (x ∷ y ∷ rest) =
      let elems = x ∷ y ∷ rest in
      let half = length elems / 2 in
      All-merge merge_cells Fresh (λ c d p q. p) _ _ (build_fuel-Fresh f (take half elems))
        (build_fuel-Fresh f (drop half elems))

  pub build_versioned_fuel-Fresh :
      (f ver : ℕ) (elems : List ℕ) → All Fresh (build_versioned_fuel hash f ver elems)
  unfolding build_versioned_fuel make_node_hashed merge_versioned merge_values
  build_versioned_fuel-Fresh zero ver elems = tt
  build_versioned_fuel-Fresh (suc f) ver [] = tt
  build_versioned_fuel-Fresh (suc f) ver (x ∷ []) = (refl, tt, tt)
  build_versioned_fuel-Fresh (suc f) ver (x ∷ y ∷ rest) =
      let elems = x ∷ y ∷ rest in
      let half = length elems / 2 in
      All-merge merge_values Fresh (λ c d p q. p) _ _
        (build_versioned_fuel-Fresh f ver (take half elems))
        (build_versioned_fuel-Fresh f (wrap (ver + half)) (drop half elems))
