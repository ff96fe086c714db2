-- ===== src/Pam/Interface/Updates.antt =====
-- What the batch operations do to the newest version.
use contreap.Prelude.{
  ℕ, ◌+◌, ◌≡◌, ◌<◌, ◌≤◌, ◌∙◌, List, length, count, ◌==◌, if◌then◌else◌, ap, arith, u64_mod,
}
use contreap.Tree.{Tree, bag, total}
use contreap.Tree.Order.{IsInjective, IsTreap}
use contreap.Pam.Node.{Cell, cell_keyed}
use contreap.Pam.Augment.Kept.{
  augment_parallel-IsTreap, bag-augment_parallel, total-augment_parallel,
}
use contreap.Pam.BuildVersioned.{build_versioned}
use contreap.Pam.BuildVersioned.Find.{build_versioned-IsTreap}
use contreap.Pam.BuildVersioned.Contents.{build_versioned-HoldsKeys}
use contreap.Pam.CopyMerge.Invariant.{copy_merge-IsTreap}
use contreap.Pam.CopyMerge.Contents.{bag-copy_merge, total-copy_merge}
use contreap.Pam.CopySubtract.Invariant.{copy_subtract-IsTreap}
use contreap.Pam.CopySubtract.Contents.{bag-copy_subtract, total-copy_subtract}
use contreap.Pam.CopyMerge.{copy_merge}
use contreap.Pam.CopySubtract.{copy_subtract}
use contreap.Pam.Interface.{inserted, deleted}

module _ (hash : ℕ → ℕ) (injective : IsInjective hash) (ver : ℕ) (elems : List ℕ) where
  -- A batch of insertions makes a treap with one copy more of each key for each time that the
  -- batch has it, where 64-bit words hold the counters.
  pub inserted_lem :
      (t_old : Tree Cell)
      → IsTreap hash t_old
      → total t_old + length elems < u64_mod
      → IsTreap hash (inserted hash t_old ver elems)
        × ((j : ℕ) → bag (inserted hash t_old ver elems) j ≡ bag t_old j + count j elems)
  unfolding inserted
  inserted_lem t_old v w =
      let keys = build_versioned-HoldsKeys hash ver elems (omega arith) in
      (
        augment_parallel-IsTreap hash _ (
            copy_merge-IsTreap hash t_old (build_versioned hash ver elems) injective v
              (build_versioned-IsTreap hash ver elems injective)),
        λ j.
            bag-augment_parallel _ j
            ∙ omega (
              arith,
              bag-copy_merge t_old (build_versioned hash ver elems) j (omega (arith, keys.size)),
              keys.holds j,
            ),
      )

  -- A batch of deletions makes a treap without the batch's keys, whatever their counters were, and
  -- with the other keys as before.
  pub deleted_lem :
      (t_old : Tree Cell)
      → IsTreap hash t_old
      → length elems < u64_mod
      → IsTreap hash (deleted hash t_old ver elems)
        × ((j : ℕ)
            → bag (deleted hash t_old ver elems) j
              ≡ (if count j elems == 0 then bag t_old j else 0))
  unfolding deleted
  deleted_lem t_old v w =
      let keys = build_versioned-HoldsKeys hash ver elems w in
      (
        augment_parallel-IsTreap hash _
            (copy_subtract-IsTreap hash injective t_old (build_versioned hash ver elems) v),
        λ j.
            bag-augment_parallel _ j
            ∙ bag-copy_subtract hash injective t_old (build_versioned hash ver elems) j v
                (build_versioned-IsTreap hash ver elems injective) keys.positive
            ∙ ap (λ (n : ℕ). if n == 0 then bag t_old j else 0) (keys.holds j),
      )

  pub total-inserted :
      (t_old : Tree Cell)
      → total t_old + length elems < u64_mod
      → total (inserted hash t_old ver elems) ≡ total t_old + length elems
  unfolding inserted
  total-inserted t_old w =
      let keys = build_versioned-HoldsKeys hash ver elems (omega arith) in
      total-augment_parallel (copy_merge t_old (build_versioned hash ver elems))
      ∙ omega (
        arith,
        total-copy_merge t_old (build_versioned hash ver elems) (omega (arith, keys.size)),
        keys.size,
      )

  pub total-deleted : (t_old : Tree Cell) → total (deleted hash t_old ver elems) ≤ total t_old
  unfolding deleted
  total-deleted t_old = omega (
    arith,
    total-augment_parallel (copy_subtract t_old (build_versioned hash ver elems)),
    total-copy_subtract t_old (build_versioned hash ver elems),
  )
