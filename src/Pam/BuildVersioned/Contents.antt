-- ===== src/Pam/BuildVersioned/Contents.antt =====
-- What the tree of a batch holds in all.
use contreap.Prelude.{
  ℕ, zero, suc, ◌+◌, ◌/◌, ◌≡◌, ◌<◌, ◌≤◌, refl, List, [], ◌∷◌, ◌++◌, map, length, take, drop,
  length-take, length-drop, count, count-take-drop, wrap, u64_mod, arith,
}
use contreap.Tree.{Tree, bag, total}
use contreap.Tree.Merge.{IsSum, Any, All-Any, bag-merge, total-merge, positive-merge}
use contreap.Tree.Canonical.{Positive}
use contreap.Pam.Node.{ValVer, Cell, cell_keyed, last, last_of, make_node_hashed}
use contreap.Pam.BuildVersioned.{
  raise, merge_values, merge_versioned, build_versioned_fuel, build_versioned,
}
use contreap.Pam.BuildVersioned.Find.{merge_values-IsCombine}
use contreap.Pam.CopyMerge.Contents.{last-raise}

last-append : (f v : ValVer) (vs ws : List ValVer) → last_of f (vs ++ v ∷ ws) ≡ last_of v ws
last-append f v [] ws = refl
last-append f v (w ∷ vs) ws = last-append w v vs ws

merge_values-IsSum_last : IsSum Any Any merge_values
unfolding merge_values
merge_values-IsSum_last = record {
  weight = λ c d p q h.
      rw
        (
          last-append c.first (raise (last c).val d.first) c.later
              (map (raise (last c).val) d.later),
          last-raise (last c).val d.first d.later,
        )
        (omega arith);
}

-- A tree that holds just the keys of an array.
pub record HoldsKeys (elems : List ℕ) (t : Tree Cell) : Type 0 where
  pub size : total t ≡ length elems
  pub holds : (j : ℕ) → bag t j ≡ count j elems
  pub positive : Positive t

merge_versioned-HoldsKeys :
    (n : ℕ) (elems : List ℕ) (t u : Tree Cell)
    → length elems < u64_mod
    → n ≤ length elems
    → HoldsKeys (take n elems) t
    → HoldsKeys (drop n elems) u
    → HoldsKeys elems (merge_versioned t u)
unfolding merge_versioned
merge_versioned-HoldsKeys n elems t u w le p q =
    let low = length-take n elems in
    let high = length-drop n elems in
    let fits : total t + total u < u64_mod = omega (arith, p.size, q.size) in
    record {
      size = omega (
        arith,
        total-merge merge_values Any Any merge_values-IsCombine merge_values-IsSum_last t u fits
            (All-Any t) (All-Any u),
        p.size,
        q.size,
      );
      holds = λ j. omega (
        arith,
        bag-merge merge_values Any Any merge_values-IsCombine merge_values-IsSum_last t u j fits
            (All-Any t) (All-Any u),
        p.holds j,
        q.holds j,
        count-take-drop j n elems,
      );
      positive =
          positive-merge merge_values Any Any merge_values-IsCombine merge_values-IsSum_last t u
            fits (All-Any t) (All-Any u) p.positive q.positive;
    }

build_versioned_fuel-HoldsKeys :
    (hash : ℕ → ℕ) (f ver : ℕ) (elems : List ℕ)
    → length elems ≤ f
    → length elems < u64_mod
    → HoldsKeys elems (build_versioned_fuel hash f ver elems)
unfolding build_versioned_fuel make_node_hashed
build_versioned_fuel-HoldsKeys hash zero ver [] h w = record {
  size = refl;
  holds = λ j. refl;
  positive = tt;
}
build_versioned_fuel-HoldsKeys hash zero ver (x ∷ xs) h w = elim h [ ]
build_versioned_fuel-HoldsKeys hash (suc f) ver [] h w = record {
  size = refl;
  holds = λ j. refl;
  positive = tt;
}
build_versioned_fuel-HoldsKeys hash (suc f) ver (x ∷ []) h w = record {
  size = refl;
  holds = λ j. omega arith;
  positive = (omega arith, tt, tt);
}
build_versioned_fuel-HoldsKeys hash (suc f) ver (x ∷ y ∷ rest) h w =
    let elems = x ∷ y ∷ rest in
    let half = length elems / 2 in
    let low = length-take half elems in
    let high = length-drop half elems in
    merge_versioned-HoldsKeys half elems _ _ w (omega arith)
      (build_versioned_fuel-HoldsKeys hash f ver (take half elems) (omega arith) (omega arith))
      (build_versioned_fuel-HoldsKeys hash f (wrap (ver + half)) (drop half elems) (omega arith)
        (omega arith))

pub build_versioned-HoldsKeys :
    (hash : ℕ → ℕ) (ver : ℕ) (elems : List ℕ)
    → length elems < u64_mod
    → HoldsKeys elems (build_versioned hash ver elems)
unfolding build_versioned
build_versioned-HoldsKeys hash ver elems w =
    build_versioned_fuel-HoldsKeys hash (length elems) ver elems (omega arith) w
