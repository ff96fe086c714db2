-- ===== src/Pam/Augment/Kept.antt =====
-- Writing the sums changes nothing that a tree holds.
use contreap.Prelude.{ℕ, ◌+◌, ◌≡◌, ◌<◌, refl, arith, wrap}
use Prim.Native.Nat.{max}
use contreap.Tree.{Tree, null, node, bag, total}
use contreap.Tree.Order.{All, IsOrdered, IsHeap, IsTreap}
use contreap.Pam.Node.{Cell, cell_keyed, last, subtree_vstat}
use contreap.Pam.Augment.{augment_parallel}

pub All-augment_parallel {κ} :
    (P : Cell → Type κ)
    → ((c : Cell) (s v : ℕ) → P c → P (record c { aug = s; vstat = v }))
    → (t : Tree Cell) → All P t
    → All P (augment_parallel t).0
unfolding augment_parallel
All-augment_parallel P keep null a = tt
All-augment_parallel P keep (node t l r) a =
    let left = augment_parallel l in
    let right = augment_parallel r in
    ground (
      arith,
      keep t (wrap (wrap (left.1 + (last t).val) + right.1))
          (max (last t).ver (max (subtree_vstat left.0) (subtree_vstat right.0))),
      All-augment_parallel P keep l,
      All-augment_parallel P keep r,
    )

pub bag-augment_parallel : (t : Tree Cell) (j : ℕ) → bag (augment_parallel t).0 j ≡ bag t j
unfolding augment_parallel
bag-augment_parallel null j = refl
bag-augment_parallel (node t l r) j =
    ground (arith, bag-augment_parallel l j, bag-augment_parallel r j)

pub total-augment_parallel : (t : Tree Cell) → total (augment_parallel t).0 ≡ total t
unfolding augment_parallel
total-augment_parallel null = refl
total-augment_parallel (node t l r) =
    ground (arith, total-augment_parallel l, total-augment_parallel r)

IsOrdered-augment_parallel : (t : Tree Cell) → IsOrdered t → IsOrdered (augment_parallel t).0
unfolding augment_parallel
IsOrdered-augment_parallel null o = tt
IsOrdered-augment_parallel (node t l r) o = ground (
  arith,
  IsOrdered-augment_parallel l,
  IsOrdered-augment_parallel r,
  All-augment_parallel (λ c. c.key < t.key) (λ c s v h. h) l,
  All-augment_parallel (λ c. t.key < c.key) (λ c s v h. h) r,
)

IsHeap-augment_parallel : (t : Tree Cell) → IsHeap t → IsHeap (augment_parallel t).0
unfolding augment_parallel
IsHeap-augment_parallel null o = tt
IsHeap-augment_parallel (node t l r) o = ground (
  arith,
  IsHeap-augment_parallel l,
  IsHeap-augment_parallel r,
  All-augment_parallel (λ c. c.pry < t.pry) (λ c s v h. h) l,
  All-augment_parallel (λ c. c.pry < t.pry) (λ c s v h. h) r,
)

pub augment_parallel-IsTreap :
    (hash : ℕ → ℕ) (t : Tree Cell) → IsTreap hash t → IsTreap hash (augment_parallel t).0
augment_parallel-IsTreap hash t v = record {
  ordered = IsOrdered-augment_parallel t v.ordered;
  heap = IsHeap-augment_parallel t v.heap;
  hashed = All-augment_parallel (λ c. c.pry ≡ hash c.key) (λ c s w h. h) t v.hashed;
}
