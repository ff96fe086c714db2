-- ===== src/Treap/SearchInsert/Invariant.antt =====
-- Insertion keeps the treap invariant.
use contreap.Prelude.{
  ℕ, ◌+◌, ◌≢◌, ◌<◌, ◌≤◌, inl, inr, ltb, ◌==◌, wrap, arith, Bool-cases, ==→eq, ap, refl,
}
use contreap.Tree.{Tree, null, node}
use contreap.Tree.Order.{
  All, Below, Above, Under, Absent, IsInjective, IsTreap, node-IsTreap, lch-IsTreap, rch-IsTreap,
  Absent-Under, Under-mono, relabel-IsTreap, replace-left, replace-right,
}
use contreap.Tree.Split.{All-split, split-sides, Under-split}
use contreap.Tree.Invariant.{split-IsTreap}
use contreap.Treap.Node.{Cell, cell_keyed, make_cell, make_weak_copy, make_weak_copy-IsCopy}
use contreap.Treap.SearchInsert.{split_copy, process_deploy, search_insert}

-- What holds of every cell of a tree and of the new one holds after the call, if copies keep it.
pub All-search_insert {κ} :
    (P : Cell → Type κ) (ver pry key : ℕ)
    → ((c : Cell) → P c → P (make_weak_copy ver c))
    → ((c : Cell) → P c → P (record (make_weak_copy ver c) { val = wrap (c.val + 1) }))
    → P (make_cell ver pry key)
    → (t : Tree Cell) → All P t
    → All P (search_insert ver t pry key)
unfolding search_insert process_deploy split_copy
All-search_insert P ver pry key copy bump new null a = (new, tt, tt)
All-search_insert P ver pry key copy bump new (node t l r) a = ground (
  arith,
  copy t,
  bump t,
  new,
  All-search_insert P ver pry key copy bump new l,
  All-search_insert P ver pry key copy bump new r,
  All-split (make_weak_copy ver) P copy (node t l r) key,
)

module _ (hash : ℕ → ℕ) (ver key : ℕ) where
  Below-search_insert :
      (b : ℕ) (t : Tree Cell) → key < b → Below b t → Below b (search_insert ver t (hash key) key)
  unfolding make_weak_copy
  Below-search_insert b t h =
      All-search_insert (λ c. c.key < b) ver (hash key) key (λ c p. p) (λ c p. p) h t

  Above-search_insert :
      (b : ℕ) (t : Tree Cell) → b < key → Above b t → Above b (search_insert ver t (hash key) key)
  unfolding make_weak_copy
  Above-search_insert b t h =
      All-search_insert (λ c. b < c.key) ver (hash key) key (λ c p. p) (λ c p. p) h t

  Under-search_insert :
      (b : ℕ) (t : Tree Cell)
      → hash key < b
      → Under b t
      → Under b (search_insert ver t (hash key) key)
  unfolding make_weak_copy
  Under-search_insert b t h =
      All-search_insert (λ c. c.pry < b) ver (hash key) key (λ c p. p) (λ c p. p) h t

  -- A key that hashes above the root, or like a root with another key, splits the tree.
  deploy-IsTreap :
      (t : Cell) (l r : Tree Cell)
      → IsInjective hash
      → IsTreap hash (node t l r)
      → t.pry ≤ hash key
      → t.key ≢ key
      → IsTreap hash (process_deploy ver (node t l r) (hash key) key)
  unfolding process_deploy split_copy
  deploy-IsTreap t l r injective v le ne =
      let copied = make_weak_copy-IsCopy ver in
      let apart : t.pry < hash key = ground (arith, v.hashed.0, injective t.key key) in
      let under : Under (hash key) (node t l r) = (
        apart,
        Under-mono t.pry (hash key) l le v.heap.0,
        Under-mono t.pry (hash key) r le v.heap.1,
      ) in
      let absent : Absent key (node t l r) =
        Absent-Under hash (hash key) key (node t l r) under v.hashed (omega arith) in
      let parts = split-IsTreap hash (make_weak_copy ver) copied (node t l r) key v in
      node-IsTreap hash (make_cell ver (hash key) key) _ _ (omega arith)
        (split-sides (make_weak_copy ver) copied (node t l r) key v.ordered absent)
        (Under-split (make_weak_copy ver) copied (hash key) (node t l r) key under) parts.0 parts.1

  -- A key that hashes below the root's priority is not the root's key.
  pub beyond :
      (t : Cell) (l r : Tree Cell)
      → IsTreap hash (node t l r)
      → hash key < t.pry
      → t.key ≤ key
      → t.key < key
  beyond t l r v h le = elim (Bool-cases (t.key == key)) [
    | inl e ↦ absurd (omega (arith, v.hashed.0, ap hash (==→eq t.key key e)))
    | inr ne ↦ ground arith
  ]

  -- Insertion of a key at its hash keeps the treap invariant.
  pub search_insert-IsTreap :
      (t : Tree Cell)
      → IsInjective hash
      → IsTreap hash t
      → IsTreap hash (search_insert ver t (hash key) key)
  unfolding search_insert
  search_insert-IsTreap null injective v =
      node-IsTreap hash (make_cell ver (hash key) key) null null refl (tt, tt) (tt, tt) v v
  search_insert-IsTreap (node t l r) injective v =
      let copied = make_weak_copy-IsCopy ver in
      let same = copied.key t in
      elim (Bool-cases (ltb (hash key) t.pry)) [
        | inl high ↦ elim (Bool-cases (ltb key t.key)) [
          | inl low ↦
              rw (high, low, search_insert)
                (replace-left hash t (make_weak_copy ver t) l r _ same (copied.pry t) v
                  (Below-search_insert t.key l (ground arith) v.ordered.0)
                  (Under-search_insert t.pry l (ground arith) v.heap.0)
                  (search_insert-IsTreap l injective (lch-IsTreap hash v)))
          | inr up ↦
              rw (high, up, search_insert)
                (replace-right hash t (make_weak_copy ver t) l r _ same (copied.pry t) v
                  (Above-search_insert t.key r (beyond t l r v (ground arith) (ground arith))
                    v.ordered.1)
                  (Under-search_insert t.pry r (ground arith) v.heap.1)
                  (search_insert-IsTreap r injective (rch-IsTreap hash v)))
        ]
        | inr flat ↦ elim (Bool-cases (t.key == key)) [
          | inl e ↦ rw (flat, e, search_insert) (relabel-IsTreap hash t _ l r same (copied.pry t) v)
          | inr ne ↦
              rw (flat, ne, search_insert)
                (deploy-IsTreap t l r injective v (ground arith) (ground arith))
        ]
      ]
