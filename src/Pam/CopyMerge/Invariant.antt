-- ===== src/Pam/CopyMerge/Invariant.antt =====
-- A batch of insertions keeps the treap invariant.
use contreap.Prelude.{
  ℕ, zero, suc, ◌≡◌, ◌≢◌, ◌<◌, ap, sym, ◌∙◌, inl, inr, ltb, ◌==◌, arith, Bool-cases, ==→eq, ltb→lt,
}
use contreap.Tree.{Tree, null, node}
use contreap.Tree.Order.{All, IsInjective, IsTreap, node-IsTreap, lch-IsTreap, rch-IsTreap}
use contreap.Tree.Split.{All-split}
use contreap.Tree.Merge.{id-IsCopy}
use contreap.Tree.Invariant.{split-IsTreap, split-Around, Around}
use contreap.Pam.Node.{Cell, cell_keyed, last, make_weak_copy, make_weak_copy-IsCopy}
use contreap.Pam.Build.{split}
use contreap.Pam.CopyMerge.{update_values, copy_split, copy_merge_fuel, copy_merge}

pub All-copy_merge {κ} :
    (P : Cell → Type κ)
    → ((c : Cell) → P c → P (make_weak_copy c))
    → ((c : Cell) (val_base : ℕ) → P c → P (update_values c val_base))
    → (f : ℕ) (t_old t_ins : Tree Cell) → All P t_old
    → All P t_ins
    → All P (copy_merge_fuel f t_old t_ins)
unfolding copy_merge_fuel split copy_split
All-copy_merge P copy update zero t u a b = tt
All-copy_merge P copy update (suc f) null u a b = b
All-copy_merge P copy update (suc f) (node o l r) null a b = a
All-copy_merge P copy update (suc f) (node o l r) (node i m s) a b =
    let low = split (node i m s) o.key in
    let high = copy_split (node o l r) i.key in
    ground (
      arith,
      copy o,
      update i (last o).val,
      All-copy_merge P copy update f l m,
      All-copy_merge P copy update f r s,
      All-copy_merge P copy update f l low.0,
      All-copy_merge P copy update f r low.1,
      All-copy_merge P copy update f high.0 m,
      All-copy_merge P copy update f high.1 s,
      All-split (λ c. c) P (λ c p. p) (node i m s) o.key,
      All-split make_weak_copy P copy (node o l r) i.key,
    )

module _ (hash : ℕ → ℕ) where
  -- The parts of two trees on the two sides of a node, joined pairwise.
  joined :
      (f : ℕ) (e : Cell) (l r x y : Tree Cell)
      → e.pry ≡ hash e.key
      → Around hash e l r
      → Around hash e x y
      → IsTreap hash (copy_merge_fuel f l x)
      → IsTreap hash (copy_merge_fuel f r y)
      → IsTreap hash (node e (copy_merge_fuel f l x) (copy_merge_fuel f r y))
  unfolding make_weak_copy update_values
  joined f e l r x y h a b =
      node-IsTreap hash e _ _ h
        (
          All-copy_merge (λ c. c.key < e.key) (λ c p. p) (λ c v p. p) f l x a.0.0 b.0.0,
          All-copy_merge (λ c. e.key < c.key) (λ c p. p) (λ c v p. p) f r y a.0.1 b.0.1,
        )
        (
          All-copy_merge (λ c. c.pry < e.pry) (λ c p. p) (λ c v p. p) f l x a.1.0 b.1.0,
          All-copy_merge (λ c. c.pry < e.pry) (λ c p. p) (λ c v p. p) f r y a.1.1 b.1.1,
        )

  children : (c : Cell) (l r : Tree Cell) → IsTreap hash (node c l r) → Around hash c l r
  children c l r v = ((v.ordered.0, v.ordered.1), (v.heap.0, v.heap.1))

  same_place :
      (o i : Cell) (l r m s : Tree Cell)
      → o.key ≡ i.key
      → IsTreap hash (node o l r)
      → IsTreap hash (node i m s)
      → Around hash i l r
  same_place o i l r m s e v w =
      let p : o.pry ≡ i.pry = v.hashed.0 ∙ ap hash e ∙ sym w.hashed.0 in
      rw (← e, ← p) (children o l r v)

  pub copy_merge_fuel-IsTreap :
      (f : ℕ) (t_old t_ins : Tree Cell)
      → IsInjective hash
      → IsTreap hash t_old
      → IsTreap hash t_ins
      → IsTreap hash (copy_merge_fuel f t_old t_ins)
  unfolding copy_merge_fuel split copy_split make_weak_copy update_values
  copy_merge_fuel-IsTreap zero t u injective v w = record { ordered = tt; heap = tt; hashed = tt }
  copy_merge_fuel-IsTreap (suc f) null u injective v w = w
  copy_merge_fuel-IsTreap (suc f) (node o l r) null injective v w = v
  copy_merge_fuel-IsTreap (suc f) (node o l r) (node i m s) injective v w =
      let low = split (node i m s) o.key in
      let high = copy_split (node o l r) i.key in
      elim (Bool-cases (ltb i.pry o.pry)) [
        | inl h ↦
            let ne : o.key ≢ i.key = λ e.
              absurd (omega (arith, ltb→lt i.pry o.pry h, v.hashed.0, w.hashed.0, ap hash e)) in
            let fit =
              split-Around hash (λ c. c) id-IsCopy o i m s injective v.hashed.0 w ne
                (ground arith) in
            let valid = split-IsTreap hash (λ c. c) id-IsCopy (node i m s) o.key w in
            rw (h, copy_merge_fuel)
              (joined f (make_weak_copy o) l r low.0 low.1 v.hashed.0 (children o l r v) fit
                (copy_merge_fuel-IsTreap f l low.0 injective (lch-IsTreap hash v) valid.0)
                (copy_merge_fuel-IsTreap f r low.1 injective (rch-IsTreap hash v) valid.1))
        | inr h ↦ elim (Bool-cases (o.key == i.key)) [
          | inl e ↦
              rw (h, e, copy_merge_fuel)
                (joined f (update_values i (last o).val) l r m s w.hashed.0
                  (same_place o i l r m s (==→eq o.key i.key e) v w) (children i m s w)
                  (copy_merge_fuel-IsTreap f l m injective (lch-IsTreap hash v)
                    (lch-IsTreap hash w))
                  (copy_merge_fuel-IsTreap f r s injective (rch-IsTreap hash v)
                    (rch-IsTreap hash w)))
          | inr ne ↦
              let fit =
                split-Around hash make_weak_copy make_weak_copy-IsCopy i o l r injective w.hashed.0
                  v (ground arith) (ground arith) in
              let valid =
                split-IsTreap hash make_weak_copy make_weak_copy-IsCopy (node o l r) i.key v in
              rw (h, ne, copy_merge_fuel)
                (joined f i high.0 high.1 m s w.hashed.0 fit (children i m s w)
                  (copy_merge_fuel-IsTreap f high.0 m injective valid.0 (lch-IsTreap hash w))
                  (copy_merge_fuel-IsTreap f high.1 s injective valid.1 (rch-IsTreap hash w)))
        ]
      ]

  pub copy_merge-IsTreap :
      (t_old t_ins : Tree Cell)
      → IsInjective hash
      → IsTreap hash t_old
      → IsTreap hash t_ins
      → IsTreap hash (copy_merge t_old t_ins)
  unfolding copy_merge
  copy_merge-IsTreap t_old t_ins = copy_merge_fuel-IsTreap _ t_old t_ins
