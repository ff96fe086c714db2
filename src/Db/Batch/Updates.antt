-- ===== src/Db/Batch/Updates.antt =====
-- What the updates of the batch backend mean, and what one batch does to the newest root.
use contreap.Prelude.{
  ℕ, zero, suc, ◌+◌, ◌≡◌, ◌<◌, ◌≤◌, refl, arith, true, List, [], ◌∷◌, ◌++◌, length, count,
  count-append, u64_mod, ◌==◌, if◌then◌else◌,
}
use contreap.Tree.{Tree, bag, total}
use contreap.Tree.Order.{All, IsInjective, IsTreap}
use contreap.Pam.Node.{Cell, cell_keyed}
use contreap.Pam.Interface.Updates.{inserted_lem, deleted_lem, total-inserted, total-deleted}
use contreap.Pam.BuildVersioned.{build_versioned}
use contreap.Pam.BuildVersioned.Versions.{Older}
use contreap.Pam.CopyMerge.{copy_merge}
use contreap.Pam.CopySubtract.{copy_subtract}
use contreap.Pam.Interface.{inserted, deleted}
use contreap.Pam.Sums.{IsAugmented, IsAugmented-IsCached, augment_parallel_lem}
use contreap.Pam.Sums.Kept.{copy_merge-IsCached, copy_subtract-IsCached, build_versioned_fuel-Fresh}
use contreap.Pam.Sums.Older.{
  augment_parallel-Older, copy_merge-Older, copy_subtract-Older, build_versioned-Older,
}
use contreap.Treap.Update.{plus}
use contreap.Db.Interface.{Call}
use contreap.Db.Batch.{Operation, updated, same}

-- A deletion takes all copies of its key.
abbrev pub clear : (ℕ → ℕ) → ℕ → ℕ → ℕ
clear copies k j = if k == j then 0 else copies j

-- The number of updates among the calls, and the database after the first `v` of them.
abbrev pub updates : List Call → ℕ
updates [] = 0
updates (Call.query l r ∷ calls) = updates calls
updates (Call.insert k ∷ calls) = suc (updates calls)
updates (Call.delete k ∷ calls) = suc (updates calls)

unfoldable pub update_history : (ℕ → ℕ) → List Call → ℕ → ℕ → ℕ
update_history copies [] v = copies
update_history copies (Call.query l r ∷ calls) v = update_history copies calls v
update_history copies (Call.insert k ∷ calls) zero = copies
update_history copies (Call.insert k ∷ calls) (suc v) = update_history (plus copies k) calls v
update_history copies (Call.delete k ∷ calls) zero = copies
update_history copies (Call.delete k ∷ calls) (suc v) = update_history (clear copies k) calls v

pub update_history-zero :
    (copies : ℕ → ℕ) (calls : List Call) → update_history copies calls 0 ≡ copies
unfolding update_history
update_history-zero copies [] = refl
update_history-zero copies (Call.query l r ∷ calls) = update_history-zero copies calls
update_history-zero copies (Call.insert k ∷ calls) = refl
update_history-zero copies (Call.delete k ∷ calls) = refl

pub same→eq : (a b : Operation) → same a b ≡ true → a ≡ b
same→eq Operation.insertion Operation.insertion e = refl
same→eq Operation.insertion Operation.deletion e = ground arith
same→eq Operation.deletion Operation.insertion e = ground arith
same→eq Operation.deletion Operation.deletion e = refl

-- A whole batch at once.
abbrev pub applied : Operation → List ℕ → (ℕ → ℕ) → ℕ → ℕ
applied Operation.insertion keys copies j = copies j + count j keys
applied Operation.deletion keys copies j = if count j keys == 0 then copies j else 0

abbrev pub apply_one : Operation → ℕ → (ℕ → ℕ) → ℕ → ℕ
apply_one Operation.insertion k copies = plus copies k
apply_one Operation.deletion k copies = clear copies k

pub applied-none : (op : Operation) (copies : ℕ → ℕ) (j : ℕ) → applied op [] copies j ≡ copies j
applied-none Operation.insertion copies j = omega arith
applied-none Operation.deletion copies j = refl

pub applied-same :
    (op : Operation) (keys : List ℕ) (copies others : ℕ → ℕ) (j : ℕ)
    → copies j ≡ others j
    → applied op keys copies j ≡ applied op keys others j
applied-same Operation.insertion keys copies others j e = omega (arith, e)
applied-same Operation.deletion keys copies others j e = rw e

pub applied-append :
    (op : Operation) (keys : List ℕ) (k : ℕ) (before copies : ℕ → ℕ) (j : ℕ)
    → before j ≡ applied op keys copies j
    → apply_one op k before j ≡ applied op (keys ++ k ∷ []) copies j
applied-append Operation.insertion keys k before copies j e =
    ground (arith, count-append j keys (k ∷ []))
applied-append Operation.deletion keys k before copies j e =
    ground (arith, count-append j keys (k ∷ []))

module _ (hash : ℕ → ℕ) (injective : IsInjective hash) where
  pub updated-IsTreap :
      (op : Operation) (t : Tree Cell) (ver : ℕ) (elems : List ℕ)
      → IsTreap hash t
      → total t + length elems < u64_mod
      → IsTreap hash (updated hash op t ver elems)
  updated-IsTreap Operation.insertion t ver elems v w =
      (inserted_lem hash injective ver elems t v w).0
  updated-IsTreap Operation.deletion t ver elems v w =
      (deleted_lem hash injective ver elems t v (omega arith)).0

  pub bag-updated :
      (op : Operation) (t : Tree Cell) (ver : ℕ) (elems : List ℕ) (j : ℕ)
      → IsTreap hash t
      → total t + length elems < u64_mod
      → bag (updated hash op t ver elems) j ≡ applied op elems (bag t) j
  bag-updated Operation.insertion t ver elems j v w =
      (inserted_lem hash injective ver elems t v w).1 j
  bag-updated Operation.deletion t ver elems j v w =
      (deleted_lem hash injective ver elems t v (omega arith)).1 j

  pub total-updated :
      (op : Operation) (t : Tree Cell) (ver : ℕ) (elems : List ℕ)
      → total t + length elems < u64_mod
      → total (updated hash op t ver elems) ≤ total t + length elems
  total-updated Operation.insertion t ver elems w =
      omega (arith, total-inserted hash injective ver elems t w)
  total-updated Operation.deletion t ver elems w =
      omega (arith, total-deleted hash injective ver elems t)

-- The new tree has all its sums, and no entry of it is newer than its version.
module _ (hash : ℕ → ℕ) where
  pub updated-IsAugmented :
      (op : Operation) (t : Tree Cell) (ver : ℕ) (elems : List ℕ)
      → IsAugmented t
      → IsAugmented (updated hash op t ver elems)
  unfolding inserted deleted copy_merge copy_subtract build_versioned
  updated-IsAugmented Operation.insertion t ver elems a =
      (augment_parallel_lem _ (
        copy_merge-IsCached _ t _ (IsAugmented-IsCached t a)
          (build_versioned_fuel-Fresh hash (length elems) ver elems))).1
  updated-IsAugmented Operation.deletion t ver elems a =
      (augment_parallel_lem _ (copy_subtract-IsCached _ t _ (IsAugmented-IsCached t a))).1

  pub updated-Older :
      (op : Operation) (t : Tree Cell) (ver b : ℕ) (elems : List ℕ)
      → All (Older b) t
      → ver + length elems ≤ b
      → b ≤ u64_mod
      → All (Older b) (updated hash op t ver elems)
  unfolding inserted deleted
  updated-Older Operation.insertion t ver b elems h le fits =
      augment_parallel-Older b _
        (copy_merge-Older b t _ h (build_versioned-Older hash ver elems b le fits))
  updated-Older Operation.deletion t ver b elems h le fits =
      augment_parallel-Older b _ (copy_subtract-Older b t _ h)
