-- ===== src/Pam/CopyMerge/Contents.antt =====
-- What a tree holds after a batch of insertions.
use contreap.Prelude.{
  ℕ, zero, suc, ◌+◌, ◌≡◌, ◌<◌, refl, List, [], ◌∷◌, map, u64_mod, arith, ltb, ◌==◌, if◌then◌else◌,
}
use contreap.Tree.{Tree, null, node, bag, total, size, split_with}
use contreap.Tree.Split.{size-split, bag-split, total-split}
use contreap.Tree.Merge.{id-IsCopy}
use contreap.Pam.Node.{
  ValVer, Cell, cell_keyed, last, last_of, make_weak_copy, make_weak_copy-IsCopy,
}
use contreap.Pam.Build.{split}
use contreap.Pam.BuildVersioned.{raise}
use contreap.Pam.CopyMerge.{update_values, copy_split, copy_merge_fuel, copy_merge}

pub last-raise :
    (val_base : ℕ) (v : ValVer) (vs : List ValVer)
    → last_of (raise val_base v) (map (raise val_base) vs) ≡ raise val_base (last_of v vs)
last-raise val_base v [] = refl
last-raise val_base v (w ∷ vs) = last-raise val_base w vs

-- The batch's node counts what the persistent tree held of its key, too.
update_values-weight :
    (t : Cell) (val_base : ℕ)
    → val_base + (last t).val < u64_mod
    → (last (update_values t val_base)).val ≡ val_base + (last t).val
unfolding update_values
update_values-weight t val_base h = rw (last-raise val_base t.first t.later) (omega arith)

update_values-key : (t : Cell) (val_base : ℕ) → (update_values t val_base).key ≡ t.key
unfolding update_values
update_values-key t val_base = refl

-- More fuel than nodes changes nothing.
copy_merge_fuel_enough :
    (f g : ℕ) (t u : Tree Cell)
    → size t + size u < f
    → size t + size u < g
    → copy_merge_fuel f t u ≡ copy_merge_fuel g t u
unfolding copy_merge_fuel split copy_split
copy_merge_fuel_enough zero g t u p q = elim p [ ]
copy_merge_fuel_enough (suc f) zero t u p q = elim q [ ]
copy_merge_fuel_enough (suc f) (suc g) null u p q = refl
copy_merge_fuel_enough (suc f) (suc g) (node o l r) null p q = refl
copy_merge_fuel_enough (suc f) (suc g) (node o l r) (node i m s) p q =
    let low = split_with (λ c. c) (node i m s) o.key in
    let high = split_with make_weak_copy (node o l r) i.key in
    ground (
      arith,
      copy_merge_fuel_enough f g l m,
      copy_merge_fuel_enough f g r s,
      copy_merge_fuel_enough f g l low.0,
      copy_merge_fuel_enough f g r low.1,
      copy_merge_fuel_enough f g high.0 m,
      copy_merge_fuel_enough f g high.1 s,
      size-split (λ c. c) (node i m s) o.key,
      size-split make_weak_copy (node o l r) i.key,
    )

total-copy_merge_fuel :
    (f : ℕ) (t u : Tree Cell)
    → size t + size u < f
    → total t + total u < u64_mod
    → total (copy_merge_fuel f t u) ≡ total t + total u
unfolding copy_merge_fuel split copy_split
total-copy_merge_fuel zero t u p w = elim p [ ]
total-copy_merge_fuel (suc f) null u p w = omega arith
total-copy_merge_fuel (suc f) (node o l r) null p w = omega arith
total-copy_merge_fuel (suc f) (node o l r) (node i m s) p w =
    let low = split_with (λ c. c) (node i m s) o.key in
    let high = split_with make_weak_copy (node o l r) i.key in
    ground (
      arith,
      update_values-weight i (last o).val,
      make_weak_copy-IsCopy.weight o,
      total-copy_merge_fuel f l m,
      total-copy_merge_fuel f r s,
      total-copy_merge_fuel f l low.0,
      total-copy_merge_fuel f r low.1,
      total-copy_merge_fuel f high.0 m,
      total-copy_merge_fuel f high.1 s,
      size-split (λ c. c) (node i m s) o.key,
      size-split make_weak_copy (node o l r) i.key,
      total-split (λ c. c) id-IsCopy (node i m s) o.key,
      total-split make_weak_copy make_weak_copy-IsCopy (node o l r) i.key,
    )

bag-copy_merge_fuel :
    (f : ℕ) (t u : Tree Cell) (j : ℕ)
    → size t + size u < f
    → total t + total u < u64_mod
    → bag (copy_merge_fuel f t u) j ≡ bag t j + bag u j
unfolding copy_merge_fuel split copy_split
bag-copy_merge_fuel zero t u j p w = elim p [ ]
bag-copy_merge_fuel (suc f) null u j p w = omega arith
bag-copy_merge_fuel (suc f) (node o l r) null j p w = omega arith
bag-copy_merge_fuel (suc f) (node o l r) (node i m s) j p w =
    let low = split_with (λ c. c) (node i m s) o.key in
    let high = split_with make_weak_copy (node o l r) i.key in
    ground (
      arith,
      update_values-weight i (last o).val,
      update_values-key i (last o).val,
      make_weak_copy-IsCopy.weight o,
      make_weak_copy-IsCopy.key o,
      bag-copy_merge_fuel f l m j,
      bag-copy_merge_fuel f r s j,
      bag-copy_merge_fuel f l low.0 j,
      bag-copy_merge_fuel f r low.1 j,
      bag-copy_merge_fuel f high.0 m j,
      bag-copy_merge_fuel f high.1 s j,
      size-split (λ c. c) (node i m s) o.key,
      size-split make_weak_copy (node o l r) i.key,
      total-split (λ c. c) id-IsCopy (node i m s) o.key,
      total-split make_weak_copy make_weak_copy-IsCopy (node o l r) i.key,
      bag-split (λ c. c) id-IsCopy (node i m s) o.key j,
      bag-split make_weak_copy make_weak_copy-IsCopy (node o l r) i.key j,
    )

-- A batch adds its copies of each key to those of the tree, if 64-bit words can hold the counters.
pub bag-copy_merge :
    (t_old t_ins : Tree Cell) (j : ℕ)
    → total t_old + total t_ins < u64_mod
    → bag (copy_merge t_old t_ins) j ≡ bag t_old j + bag t_ins j
unfolding copy_merge
bag-copy_merge t_old t_ins j w = bag-copy_merge_fuel _ t_old t_ins j (omega arith) w

pub total-copy_merge :
    (t_old t_ins : Tree Cell)
    → total t_old + total t_ins < u64_mod
    → total (copy_merge t_old t_ins) ≡ total t_old + total t_ins
unfolding copy_merge
total-copy_merge t_old t_ins w = total-copy_merge_fuel _ t_old t_ins (omega arith) w

-- At two nodes the one with the higher priority stays, the batch's if they are equal; the fuel of
-- `copy_merge` is enough for the recursion of the source.
copy_merge-node :
    (o i : Cell) (l r m s : Tree Cell)
    → copy_merge (node o l r) (node i m s) ≡ (
        if ltb i.pry o.pry
        then (let parts = split (node i m s) o.key in
            node (make_weak_copy o) (copy_merge l parts.0) (copy_merge r parts.1))
        else if o.key == i.key
        then node (update_values i (last o).val) (copy_merge l m) (copy_merge r s)
        else (let parts = copy_split (node o l r) i.key in
            node i (copy_merge parts.0 m) (copy_merge parts.1 s)))
unfolding copy_merge copy_merge_fuel split copy_split
copy_merge-node o i l r m s =
    let low = split_with (λ c. c) (node i m s) o.key in
    let high = split_with make_weak_copy (node o l r) i.key in
    let f = size (node o l r) + size (node i m s) in
    ground (
      arith,
      copy_merge_fuel_enough f (suc (size l + size m)) l m,
      copy_merge_fuel_enough f (suc (size r + size s)) r s,
      copy_merge_fuel_enough f (suc (size l + size low.0)) l low.0,
      copy_merge_fuel_enough f (suc (size r + size low.1)) r low.1,
      copy_merge_fuel_enough f (suc (size high.0 + size m)) high.0 m,
      copy_merge_fuel_enough f (suc (size high.1 + size s)) high.1 s,
      size-split (λ c. c) (node i m s) o.key,
      size-split make_weak_copy (node o l r) i.key,
    )
