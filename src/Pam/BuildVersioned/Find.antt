-- ===== src/Pam/BuildVersioned/Find.antt =====
-- Lookups in the tree of a batch.
use contreap.Prelude.{
  ℕ, zero, suc, ◌+◌, ◌/◌, ◌≡◌, ◌<◌, ◌≤◌, refl, ◌∙◌, inl, List, [], ◌∷◌, length, take, drop,
  length-take, length-drop, leb, ◌==◌, ◌&&◌, if◌then◌else◌, wrap, u64_mod, arith,
}
use native.Mathlib.Nat.{add-zero}
use contreap.Tree.{Tree, null, node, bag, total, split_with, merge_fuel, merge_with, size}
use contreap.Tree.Order.{All, IsInjective, IsTreap, IsOrdered}
use contreap.Tree.Merge.{IsCombine, IsSum, bag-merge, total-merge, All-merge}
use contreap.Tree.Invariant.{merge-IsTreap}
use contreap.Tree.Canonical.{bag-Below, bag-Above}
use contreap.Pam.Node.{Cell, cell_keyed, make_node_hashed}
use contreap.Pam.BuildVersioned.{
  merge_values, merge_versioned, build_versioned_fuel, build_versioned,
}
use contreap.Pam.BuildVersioned.Versions.{
  Older, Since, at_version, find_value-merge_values, Older-merge_values,
}
use contreap.Pam.Query.{value_before, find_value, find}

-- How often the batch has inserted `k` by the version `v`, where its first key has version `ver`.
abbrev pub count_until : ℕ → ℕ → ℕ → List ℕ → ℕ
count_until v ver k [] = 0
count_until v ver k (x ∷ xs) =
    (if (x == k) && leb ver v then 1 else 0) + count_until v (ver + 1) k xs

count_until-take-drop :
    (v ver k n : ℕ) (xs : List ℕ)
    → count_until v ver k (take n xs) + count_until v (ver + n) k (drop n xs)
      ≡ count_until v ver k xs
count_until-take-drop v ver k zero xs = rw add-zero (omega arith)
count_until-take-drop v ver k (suc n) [] = omega arith
count_until-take-drop v ver k (suc n) (x ∷ xs) =
    let place : ver + suc n ≡ ver + 1 + n = omega arith in
    rw place (omega (arith, count_until-take-drop v (ver + 1) k n xs))

-- The shape of a union does not depend on what its nodes count.
split-at_version :
    (v : ℕ) (copy : Cell → Cell) (t : Tree Cell) (q : ℕ)
    → split_with ⦃k = at_version v⦄ copy t q ≡ split_with ⦃k = cell_keyed⦄ copy t q
unfolding split_with
split-at_version v copy null q = refl
split-at_version v copy (node c l r) q =
    ground (arith, split-at_version v copy l q, split-at_version v copy r q)

merge-at_version :
    (v : ℕ) (combine : Cell → Cell → Cell) (f : ℕ) (t u : Tree Cell)
    → merge_fuel ⦃k = at_version v⦄ combine f t u ≡ merge_fuel ⦃k = cell_keyed⦄ combine f t u
unfolding merge_fuel
merge-at_version v combine zero t u = refl
merge-at_version v combine (suc f) null u = refl
merge-at_version v combine (suc f) (node c l r) null = refl
merge-at_version v combine (suc f) (node c l r) (node d m s) =
    let below = split_with ⦃k = cell_keyed⦄ (λ x. x) (node d m s) c.key in
    let above = split_with ⦃k = cell_keyed⦄ (λ x. x) (node c l r) d.key in
    ground (
      arith,
      split-at_version v (λ x. x) (node d m s) c.key,
      split-at_version v (λ x. x) (node c l r) d.key,
      merge-at_version v combine f l m,
      merge-at_version v combine f r s,
      merge-at_version v combine f l below.0,
      merge-at_version v combine f r below.1,
      merge-at_version v combine f above.0 m,
      merge-at_version v combine f above.1 s,
    )

pub merge_values-IsCombine : IsCombine merge_values
unfolding merge_values
merge_values-IsCombine = record { place = λ c d. inl (refl, refl) }

merge_values-IsCombine_at : (v : ℕ) → IsCombine ⦃k = at_version v⦄ merge_values
unfolding merge_values
merge_values-IsCombine_at v = record { place = λ c d. inl (refl, refl) }

merge_values-IsSum : (v b : ℕ) → IsSum ⦃k = at_version v⦄ (Older b) (Since b) merge_values
merge_values-IsSum v b = record { weight = λ c d p q h. find_value-merge_values v b c d p q h }

module _ (hash : ℕ → ℕ) where
  pub build_versioned_fuel-IsTreap :
      (f ver : ℕ) (elems : List ℕ)
      → IsInjective hash
      → IsTreap hash (build_versioned_fuel hash f ver elems)
  unfolding build_versioned_fuel make_node_hashed merge_versioned
  build_versioned_fuel-IsTreap zero ver elems injective = record {
    ordered = tt;
    heap = tt;
    hashed = tt;
  }
  build_versioned_fuel-IsTreap (suc f) ver [] injective = record {
    ordered = tt;
    heap = tt;
    hashed = tt;
  }
  build_versioned_fuel-IsTreap (suc f) ver (x ∷ []) injective = record {
    ordered = (tt, tt, tt, tt);
    heap = (tt, tt, tt, tt);
    hashed = (refl, tt, tt);
  }
  build_versioned_fuel-IsTreap (suc f) ver (x ∷ y ∷ rest) injective =
      let half = length (x ∷ y ∷ rest) / 2 in
      merge-IsTreap hash merge_values merge_values-IsCombine _ _ injective
        (build_versioned_fuel-IsTreap f ver (take half (x ∷ y ∷ rest)) injective)
        (build_versioned_fuel-IsTreap f (wrap (ver + half)) (drop half (x ∷ y ∷ rest)) injective)

  pub build_versioned-IsTreap :
      (ver : ℕ) (elems : List ℕ) → IsInjective hash → IsTreap hash (build_versioned hash ver elems)
  unfolding build_versioned
  build_versioned-IsTreap ver elems = build_versioned_fuel-IsTreap (length elems) ver elems

  build_versioned_fuel-Since :
      (f ver : ℕ) (elems : List ℕ) (b : ℕ)
      → b ≤ ver
      → ver + length elems < u64_mod
      → All (Since b) (build_versioned_fuel hash f ver elems)
  unfolding build_versioned_fuel make_node_hashed merge_versioned
  build_versioned_fuel-Since zero ver elems b h w = tt
  build_versioned_fuel-Since (suc f) ver [] b h w = tt
  build_versioned_fuel-Since (suc f) ver (x ∷ []) b h w = (h, tt, tt)
  build_versioned_fuel-Since (suc f) ver (x ∷ y ∷ rest) b h w =
      let elems = x ∷ y ∷ rest in
      let half = length elems / 2 in
      let low = length-take half elems in
      let high = length-drop half elems in
      All-merge merge_values (Since b) (unfold merge_values in λ c d p q. p) _ _
        (build_versioned_fuel-Since f ver (take half elems) b h (omega arith))
        (build_versioned_fuel-Since f (wrap (ver + half)) (drop half elems) b (omega arith)
          (omega arith))

  pub build_versioned_fuel-Older :
      (f ver : ℕ) (elems : List ℕ) (b : ℕ)
      → ver + length elems ≤ b
      → b ≤ u64_mod
      → All (Older b) (build_versioned_fuel hash f ver elems)
  unfolding build_versioned_fuel make_node_hashed merge_versioned
  build_versioned_fuel-Older zero ver elems b h w = tt
  build_versioned_fuel-Older (suc f) ver [] b h w = tt
  build_versioned_fuel-Older (suc f) ver (x ∷ []) b h w = ((omega arith, tt), tt, tt)
  build_versioned_fuel-Older (suc f) ver (x ∷ y ∷ rest) b h w =
      let elems = x ∷ y ∷ rest in
      let half = length elems / 2 in
      let low = length-take half elems in
      let high = length-drop half elems in
      All-merge merge_values (Older b) (Older-merge_values b) _ _
        (build_versioned_fuel-Older f ver (take half elems) b (omega arith) w)
        (build_versioned_fuel-Older f (wrap (ver + half)) (drop half elems) b (omega arith) w)

  -- The union of two halves of a batch, counted at a version.
  merge_versioned-at :
      (v b : ℕ) (t u : Tree Cell) (j : ℕ)
      → total ⦃k = at_version v⦄ t + total ⦃k = at_version v⦄ u < u64_mod
      → All (Older b) t
      → All (Since b) u
      → (bag ⦃k = at_version v⦄ (merge_versioned t u) j
          ≡ bag ⦃k = at_version v⦄ t j + bag ⦃k = at_version v⦄ u j)
        × (total ⦃k = at_version v⦄ (merge_versioned t u)
            ≡ total ⦃k = at_version v⦄ t + total ⦃k = at_version v⦄ u)
  unfolding merge_versioned merge_with
  merge_versioned-at v b t u j w p q =
      rw (← merge-at_version v merge_values (suc (size t + size u)) t u) (
        bag-merge ⦃k = at_version v⦄ merge_values (Older b) (Since b) (merge_values-IsCombine_at v)
            (merge_values-IsSum v b) t u j w p q,
        total-merge ⦃k = at_version v⦄ merge_values (Older b) (Since b)
            (merge_values-IsCombine_at v) (merge_values-IsSum v b) t u w p q,
      )

  build_versioned_fuel-at :
      (v f ver : ℕ) (elems : List ℕ) (j : ℕ)
      → length elems ≤ f
      → ver + length elems < u64_mod
      → (bag ⦃k = at_version v⦄ (build_versioned_fuel hash f ver elems) j
          ≡ count_until v ver j elems)
        × (total ⦃k = at_version v⦄ (build_versioned_fuel hash f ver elems) ≤ length elems)
  unfolding build_versioned_fuel make_node_hashed find_value value_before
  build_versioned_fuel-at v zero ver [] j h w = (refl, omega arith)
  build_versioned_fuel-at v zero ver (x ∷ xs) j h w = elim h [ ]
  build_versioned_fuel-at v (suc f) ver [] j h w = (refl, omega arith)
  build_versioned_fuel-at v (suc f) ver (x ∷ []) j h w = (ground arith, ground arith)
  build_versioned_fuel-at v (suc f) ver (x ∷ y ∷ rest) j h w =
      let elems = x ∷ y ∷ rest in
      let half = length elems / 2 in
      let low = length-take half elems in
      let high = length-drop half elems in
      let next : wrap (ver + half) ≡ ver + half = omega arith in
      let left = build_versioned_fuel-at v f ver (take half elems) j (omega arith) (omega arith) in
      let right =
        build_versioned_fuel-at v f (ver + half) (drop half elems) j (omega arith) (omega arith) in
      let both =
        merge_versioned-at v (ver + half) (build_versioned_fuel hash f ver (take half elems))
          (build_versioned_fuel hash f (ver + half) (drop half elems)) j
          (omega (arith, left.1, right.1))
          (build_versioned_fuel-Older f ver (take half elems) (ver + half) (omega arith)
            (omega arith))
          (build_versioned_fuel-Since f (ver + half) (drop half elems) (ver + half) (omega arith)
            (omega arith)) in
      rw next (
        omega (arith, both.0, left.0, right.0, count_until-take-drop v ver j half elems),
        omega (arith, both.1, left.1, right.1),
      )

find-at_version : (t : Tree Cell) (v k : ℕ) → IsOrdered t → find t v k ≡ bag ⦃k = at_version v⦄ t k
unfolding find
find-at_version null v k o = refl
find-at_version (node t l r) v k o = ground (
  arith,
  find-at_version l v k,
  find-at_version r v k,
  bag-Below ⦃k = at_version v⦄ t.key k l o.0,
  bag-Above ⦃k = at_version v⦄ t.key k r o.1,
)

-- A lookup in the tree of a batch returns, at every version, how many of the batch's keys up to that
-- version are the one looked up, for a batch whose versions fit into a word.
pub find-build_versioned :
    (hash : ℕ → ℕ) (ver : ℕ) (elems : List ℕ) (v k : ℕ)
    → IsInjective hash
    → ver + length elems < u64_mod
    → find (build_versioned hash ver elems) v k ≡ count_until v ver k elems
unfolding build_versioned
find-build_versioned hash ver elems v k injective w =
    find-at_version (build_versioned_fuel hash (length elems) ver elems) v k
      (build_versioned_fuel-IsTreap hash (length elems) ver elems injective).ordered
    ∙ (build_versioned_fuel-at hash v (length elems) ver elems k (omega arith) w).0
