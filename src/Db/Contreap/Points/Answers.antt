-- ===== src/Db/Contreap/Points/Answers.antt =====
-- db/contreap.hpp: what a point query of a committed version is answered.
use contreap.Prelude.{
  ℕ, zero, suc, ◌+◌, ◌≡◌, ◌<◌, ◌≤◌, ◌/◌, ◌%◌, refl, ap, ◌∙◌, arith, Bool, Option, none, some, List,
  length, u64_mod, count, ltb, ◌==◌, if◌then◌else◌, inl, inr, Bool-cases,
}
use mathlib.Core.Path.{subst}
use contreap.Tree.{Tree, null, node}
use contreap.Tree.Order.{IsInjective}
use contreap.Treap.Node.{Cell}
use contreap.Treap.Query.{find}
use contreap.Treap.Query.Find.{val?}
use contreap.Treap.Scheduler.Store.{Ptr, tree, at, Store, look, Result, ok, waits, fault, read_tree}
use contreap.Treap.Scheduler.Machine.{Machine, get_snapshot}
use contreap.Treap.Scheduler.Threads.{Turn}
use contreap.Treap.Scheduler.Outcome.{Then, Then-chain}
use contreap.Db.Interface.{Call, history}
use contreap.Db.QueryProcessor.{QueryContext}
use contreap.Db.Contreap.{Contreap, create, init, run}
use contreap.Db.Contreap.Versions.{Committed, run-Committed}
use contreap.Db.Contreap.Points.{find_node, val_of, lookup, point_query}

-- Reading a value through a null pointer is a fault.
abbrev pub read_value : Option ℕ → Result ℕ
read_value none = fault
read_value (some v) = ok v

val_of-tree : (s : Store) (t : Tree Cell) → val_of (look s (tree t)) ≡ read_value (val? t)
unfolding look
val_of-tree s null = refl
val_of-tree s (node c l r) = refl

lookup-at :
    (f : ℕ) (s : Store) (a key : ℕ) (l r : Tree Cell)
    → lookup f s (s.nodes a).lch key ≡ read_value (val? (find l key))
    → lookup f s (s.nodes a).rch key ≡ read_value (val? (find r key))
    → lookup (suc f) s (at a) key ≡ read_value (val? (find (node (s.nodes a).cell l r) key))
unfolding find_node find look
lookup-at f s a key l r left right = elim (Bool-cases (key == (s.nodes a).cell.key)) [
  | inl e ↦ rw (e, find_node, find) refl
  | inr e ↦ elim (Bool-cases (ltb key (s.nodes a).cell.key)) [
    | inl lt ↦ rw (e, lt, find_node, find) left
    | inr ge ↦ rw (e, ge, find_node, find) right
  ]
]

-- A lookup through the nodes finds what it finds in the tree that they make up.
lookup-read_tree :
    (f : ℕ) (s : Store) (p : Ptr) (key : ℕ)
    → Then (λ t. lookup f s p key ≡ read_value (val? (find t key))) (read_tree f s p)
unfolding find_node read_tree
lookup-read_tree f s (tree t) key = val_of-tree s (find t key)
lookup-read_tree zero s (at a) key = tt
lookup-read_tree (suc f) s (at a) key =
    Then-chain _ _ (read_tree f s (s.nodes a).lch) _
      (λ l left.
        Then-chain _ _ (read_tree f s (s.nodes a).rch) _
          (λ r right. lookup-at f s a key l r left right)
          (lookup-read_tree f s (s.nodes a).rch key))
      (lookup-read_tree f s (s.nodes a).lch key)

-- Whether the worker of the block of a version has counted this block.
abbrev pub is_counted : Machine → ℕ → Bool
is_counted m ver =
    ltb (ver / m.block_size / m.num_workers) (m.num_estimated (ver / m.block_size % m.num_workers))

get_snapshot-issued :
    (m : Machine) (ver : ℕ)
    → 0 < m.block_size
    → ver ≤ m.num_issued
    → get_snapshot m ver ≡ (if is_counted m ver then ok (m.ctxs ver).root else waits)
unfolding get_snapshot
get_snapshot-issued m ver pos le = ground (arith, pos, le)

-- The value of a point query: a key without copies is read through a null pointer.
abbrev pub point_answer : (ℕ → ℕ) → ℕ → Result ℕ
point_answer copies key = if copies key == 0 then fault else ok (copies key)

read_value-found :
    (copies : ℕ → ℕ) (key : ℕ)
    → read_value (if copies key == 0 then none else some (copies key)) ≡ point_answer copies key
read_value-found copies key = elim (Bool-cases (copies key == 0)) [
  | inl e ↦ rw e refl
  | inr e ↦ rw e refl
]

point_query-counted :
    (fuel : ℕ) (m : Machine) (ver key : ℕ) (reply : Result ℕ)
    → 0 < m.block_size
    → ver ≤ m.num_issued
    → lookup fuel m.store (m.ctxs ver).root key ≡ reply
    → point_query fuel m ver key ≡ (if is_counted m ver then reply else waits)
unfolding point_query
point_query-counted fuel m ver key reply pos issued found = elim (Bool-cases (is_counted m ver)) [
  | inl e ↦ rw (get_snapshot-issued m ver pos issued, e) found
  | inr e ↦ rw (get_snapshot-issued m ver pos issued, e) refl
]

lookup-Committed :
    (hash : ℕ → ℕ) (fuel : ℕ) (m : Machine) (v : ℕ) (copies : ℕ → ℕ) (key : ℕ)
    → Committed hash fuel m v copies
    → lookup fuel m.store (m.ctxs v).root key ≡ point_answer copies key
lookup-Committed hash fuel m v copies key c =
    let walked : lookup fuel m.store (m.ctxs v).root key ≡ read_value (val? (find c.tree key)) =
      subst (Then (λ t. lookup fuel m.store (m.ctxs v).root key ≡ read_value (val? (find t key))))
        c.walk (lookup-read_tree fuel m.store (m.ctxs v).root key) in
    walked ∙ ap read_value (c.found key) ∙ read_value-found copies key

module _ {Q : Type 0} (hash : ℕ → ℕ) (injective : IsInjective hash) (fuel : ℕ) (double_log : ℕ → ℕ)
    (enqueue : Q → QueryContext → Bool × Q) where
  -- Where the hash is injective: a new backend is initialised with an array of keys and the number of its
  -- calls, and makes these calls while the threads of its scheduler take any turns, fewer than 2^64; keys
  -- and calls are together no more than the depth of the walks, which is less than 2^64 - 2. In every
  -- state that is reached, with blocks of at least one task, a point query of a version that was issued and is committed waits as long as
  -- the worker of the version's block has not counted that block. After that it is answered with the
  -- number of copies of its key after as many calls, and reads through a null pointer where there are none.
  pub point_query-answers :
      (threads clients block_size : ℕ) (empty : Q) (elems : List ℕ) (calls rest : List Call)
      (turns : List Turn) (b : Contreap Q) (m : Machine) (v key : ℕ)
      → length turns < u64_mod
      → length elems + length calls ≤ fuel
      → fuel + 2 < u64_mod
      → run fuel hash enqueue turns calls
          (init double_log hash (create threads clients block_size empty) (length calls) elems)
        ≡ ok (b, rest)
      → b.machine ≡ some m
      → 0 < m.block_size
      → v ≤ m.num_issued
      → v ≤ m.num_committed
      → v ≤ length calls
      → point_query fuel m v key ≡ (
          if is_counted m v then point_answer (history (λ j. count j elems) calls v) key else waits)
  point_query-answers threads clients block_size empty elems calls rest turns b m v key few room
        deep e has pos issued committed le =
      let copies = history (λ j. count j elems) calls v in
      let (m1, has1, versions) =
        run-Committed hash injective fuel double_log enqueue threads clients block_size empty elems
          calls rest turns b few room deep e in
      let same : m1 ≡ m = cc (has, has1) in
      let c =
        subst (λ x. v ≤ x.num_committed → Committed hash fuel x v copies) same
          (λ le'. versions v le' le) committed in
      point_query-counted fuel m v key (point_answer copies key) pos issued
        (lookup-Committed hash fuel m v copies key c)
