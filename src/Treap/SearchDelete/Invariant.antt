-- ===== src/Treap/SearchDelete/Invariant.antt =====
-- Deletion keeps the treap invariant.
use contreap.Prelude.{ℕ, ◌+◌, ◌-◌, ◌<◌, inl, inr, ltb, ◌==◌, wrap, arith, Bool-cases, u64_mod}
use contreap.Tree.{Tree, null, node}
use contreap.Tree.Order.{
  All, Below, Above, Under, IsInjective, IsTreap, lch-IsTreap, rch-IsTreap, relabel-IsTreap,
  replace-left, replace-right,
}
use contreap.Tree.Concat.{All-concat}
use contreap.Tree.Invariant.{concat-IsTreap}
use contreap.Treap.Node.{Cell, cell_keyed, make_weak_copy, make_weak_copy-IsCopy}
use contreap.Treap.SearchDelete.{process_concat, search_delete}

-- What holds of every cell of a tree holds after the call, if copies keep it.
pub All-search_delete {κ} :
    (P : Cell → Type κ) (ver pry key : ℕ)
    → ((c : Cell) → P c → P (make_weak_copy ver c))
    → ((c : Cell) → P c → P (record (make_weak_copy ver c) { val = wrap (c.val + u64_mod - 1) }))
    → (t : Tree Cell) → All P t
    → All P (search_delete ver t pry key)
unfolding search_delete
All-search_delete P ver pry key copy drop null a = tt
All-search_delete P ver pry key copy drop (node t l r) a = ground (
  arith,
  copy t,
  drop t,
  All-search_delete P ver pry key copy drop l,
  All-search_delete P ver pry key copy drop r,
  All-concat (make_weak_copy ver) P copy l r,
)

module _ (hash : ℕ → ℕ) (ver key : ℕ) where
  Below-search_delete :
      (b : ℕ) (t : Tree Cell) → Below b t → Below b (search_delete ver t (hash key) key)
  unfolding make_weak_copy
  Below-search_delete b =
      All-search_delete (λ c. c.key < b) ver (hash key) key (λ c p. p) (λ c p. p)

  Above-search_delete :
      (b : ℕ) (t : Tree Cell) → Above b t → Above b (search_delete ver t (hash key) key)
  unfolding make_weak_copy
  Above-search_delete b =
      All-search_delete (λ c. b < c.key) ver (hash key) key (λ c p. p) (λ c p. p)

  Under-search_delete :
      (b : ℕ) (t : Tree Cell) → Under b t → Under b (search_delete ver t (hash key) key)
  unfolding make_weak_copy
  Under-search_delete b =
      All-search_delete (λ c. c.pry < b) ver (hash key) key (λ c p. p) (λ c p. p)

  -- Deletion of a key at its hash keeps the treap invariant.
  pub search_delete-IsTreap :
      (t : Tree Cell)
      → IsInjective hash
      → IsTreap hash t
      → IsTreap hash (search_delete ver t (hash key) key)
  unfolding search_delete
  search_delete-IsTreap null injective v = v
  search_delete-IsTreap (node t l r) injective v =
      let copied = make_weak_copy-IsCopy ver in
      let same = copied.key t in
      elim (Bool-cases (ltb (hash key) t.pry)) [
        | inl high ↦ elim (Bool-cases (ltb key t.key)) [
          | inl low ↦
              rw (high, low, search_delete)
                (replace-left hash t (make_weak_copy ver t) l r _ same (copied.pry t) v
                  (Below-search_delete t.key l v.ordered.0) (Under-search_delete t.pry l v.heap.0)
                  (search_delete-IsTreap l injective (lch-IsTreap hash v)))
          | inr up ↦
              rw (high, up, search_delete)
                (replace-right hash t (make_weak_copy ver t) l r _ same (copied.pry t) v
                  (Above-search_delete t.key r v.ordered.1) (Under-search_delete t.pry r v.heap.1)
                  (search_delete-IsTreap r injective (rch-IsTreap hash v)))
        ]
        | inr flat ↦ elim (Bool-cases (t.key == key)) [
          | inl e ↦ elim (Bool-cases (t.val == 1)) [
            | inl one ↦
                rw (flat, e, one, search_delete)
                  (unfold process_concat in
                    concat-IsTreap hash (make_weak_copy ver) copied injective t.key l r v.ordered.0
                      v.ordered.1 (lch-IsTreap hash v) (rch-IsTreap hash v))
            | inr more ↦
                rw (flat, e, more, search_delete)
                  (relabel-IsTreap hash t _ l r same (copied.pry t) v)
          ]
          | inr ne ↦ rw (flat, ne, search_delete) v
        ]
      ]
