-- ===== src/Pam/Sums/Older.antt =====
-- lib/pam: no entry of a version is newer than the version.
use contreap.Prelude.{
  ℕ, zero, suc, ◌+◌, ◌/◌, ◌≤◌, ◌<◌, arith, List, [], ◌∷◌, length, take, drop, u64_mod,
}
use contreap.Tree.{Tree}
use contreap.Tree.Order.{All, All-imp}
use contreap.Tree.Merge.{All-merge}
use contreap.Pam.Node.{ValVer, Cell, cell_keyed, last_of, make_weak_copy, make_node_hashed}
use contreap.Pam.Augment.{augment_parallel}
use contreap.Pam.Augment.Kept.{All-augment_parallel}
use contreap.Pam.Build
use contreap.Pam.Build.{merge_cells, build_fuel}
use contreap.Pam.BuildVersioned.{build_versioned}
use contreap.Pam.BuildVersioned.Versions.{AllOlder, AllOlder-raise, Older, Older-mono}
use contreap.Pam.BuildVersioned.Find.{build_versioned_fuel-Older}
use contreap.Pam.CopyMerge.{update_values, copy_merge}
use contreap.Pam.CopyMerge.Invariant.{All-copy_merge}
use contreap.Pam.CopySubtract.{copy_subtract}
use contreap.Pam.CopySubtract.Invariant.{All-copy_subtract}

last_of-older :
    (b : ℕ) (f : ValVer) (vs : List ValVer) → f.ver < b → AllOlder b vs → (last_of f vs).ver < b
last_of-older b f [] h k = h
last_of-older b f (w ∷ vs) h k = last_of-older b w vs k.0 k.1

weak_copy-Older : (b : ℕ) (c : Cell) → Older b c → Older b (make_weak_copy c)
unfolding make_weak_copy
weak_copy-Older b c h = (last_of-older b c.first c.later h.0 h.1, tt)

update_values-Older :
    (b : ℕ) (c : Cell) (val_base : ℕ) → Older b c → Older b (update_values c val_base)
unfolding update_values
update_values-Older b c val_base h = (h.0, AllOlder-raise b val_base c.later h.1)

pub augment_parallel-Older :
    (b : ℕ) (t : Tree Cell) → All (Older b) t → All (Older b) (augment_parallel t).0
augment_parallel-Older b t h = All-augment_parallel (Older b) (λ c s v k. k) t h

pub All-Older-mono : (a b : ℕ) (t : Tree Cell) → a ≤ b → All (Older a) t → All (Older b) t
All-Older-mono a b t le h = All-imp (Older a) (Older b) (λ c k. Older-mono a b c le k) t h

pub copy_merge-Older :
    (b : ℕ) (t_old t_ins : Tree Cell)
    → All (Older b) t_old
    → All (Older b) t_ins
    → All (Older b) (copy_merge t_old t_ins)
unfolding copy_merge
copy_merge-Older b t_old t_ins h k =
    All-copy_merge (Older b) (weak_copy-Older b) (update_values-Older b) _ t_old t_ins h k

pub copy_subtract-Older :
    (b : ℕ) (t_old t_det : Tree Cell)
    → All (Older b) t_old
    → All (Older b) (copy_subtract t_old t_det)
unfolding copy_subtract
copy_subtract-Older b t_old t_det h =
    All-copy_subtract (Older b) (weak_copy-Older b) _ t_old t_det h

module _ (hash : ℕ → ℕ) where
  pub build_versioned-Older :
      (ver : ℕ) (elems : List ℕ) (b : ℕ)
      → ver + length elems ≤ b
      → b ≤ u64_mod
      → All (Older b) (build_versioned hash ver elems)
  unfolding build_versioned
  build_versioned-Older ver elems b le fits =
      build_versioned_fuel-Older hash (length elems) ver elems b le fits

  -- The initial keys all have the version 0.
  pub build_fuel-Older : (f : ℕ) (elems : List ℕ) → All (Older 1) (build_fuel hash f elems)
  unfolding build_fuel make_node_hashed Build.merge merge_cells
  build_fuel-Older zero elems = tt
  build_fuel-Older (suc f) [] = tt
  build_fuel-Older (suc f) (x ∷ []) = ((omega arith, tt), tt, tt)
  build_fuel-Older (suc f) (x ∷ y ∷ rest) =
      let elems = x ∷ y ∷ rest in
      let half = length elems / 2 in
      All-merge merge_cells (Older 1) (λ c d p q. p) _ _ (build_fuel-Older f (take half elems))
        (build_fuel-Older f (drop half elems))
